-- ===== src/Worker/Execute.antt =====
-- execute_turn of src/agent_on_demand/session_service/tasks.py, and TurnExecutor.run of turn_executor.py.
use Prim.Native.String.{◌++◌ as str_append}
use agent_on_demand.Prelude.{ℕ, ℤ, String, false, Option, none, some, [], ◌∷◌, if◌then◌else◌}
use agent_on_demand.Prelude.Table.{get}
use agent_on_demand.State.{Status, TurnStatus, is_terminated}
use agent_on_demand.Outcome.{FinalStatus, compute_final_status, session_status, turn_status}
use agent_on_demand.Store.{Session, Turn, LogKind, Point, Job, Store}
use agent_on_demand.Worker.{
  NewLog, Reply, spec_built, spec_raised, resumed, handle_not_found, raises, flushes, drained,
  Progress, at, insert_logs, stderr_log, save_session, save_turn,
}

unfoldable pub execute_fetch : Job → Store → Progress
execute_fetch j w = elim (get j.session w.sessions) [
  | none ↦ at w Point.finished
  | some s ↦ elim (get j.turn w.turns) [
    | none ↦ at w Point.finished
    | some t ↦ at w (Point.execute_spec s.backend_handle)
  ]
]

unfoldable pub execute_build : Reply → String → Store → Progress
execute_build spec_built handle w = at w (Point.execute_resume handle)
execute_build (spec_raised e) handle w =
    at w (Point.fail_log false (str_append "internal error: " e))
execute_build _ handle w = at w (Point.execute_spec handle)

-- Only SessionHandleNotFound is caught.
unfoldable pub execute_attach : Reply → String → Store → Progress
execute_attach resumed handle w = at w Point.turn_refresh
execute_attach (handle_not_found e) handle w = at w (Point.fail_log false e)
execute_attach raises handle w = at w Point.finished
execute_attach _ handle w = at w (Point.execute_resume handle)

-- `_abort_if_terminated`, up to its test.
unfoldable pub turn_check : ℕ → Job → Store → Progress
turn_check now j w = elim (get j.session w.sessions) [
  | none ↦ at w Point.finished
  | some s ↦
      if is_terminated s.status then at w (Point.abort_log now) else at w (Point.mark_session now)
]

unfoldable pub abort_with_log : ℕ → Job → Store → Progress
abort_with_log started j w =
    insert_logs j.session
      (stderr_log j.turn "turn aborted: session terminated before execution started\n" ∷ [])
      (Point.abort_turn started) w

unfoldable pub abort_save_turn : ℕ → Job → Store → Progress
abort_save_turn started j w = save_turn j.turn aborted Point.finished w
  where
    aborted : Turn → Turn
    aborted t = record t {
      status = TurnStatus.failed;
      started_at = some started;
      ended_at = some started;
    }

-- `_mark_running`: two saves.
abbrev pub running_row : Session → Session
running_row s = record s { status = Status.running }

unfoldable pub mark_session_running : ℕ → Job → Store → Progress
mark_session_running started j w = save_session j.session running_row (Point.mark_turn started) w

abbrev pub running_turn : ℕ → Turn → Turn
running_turn started t = record t { status = TurnStatus.running; started_at = some started }

unfoldable pub mark_turn_running : ℕ → Job → Store → Progress
mark_turn_running started j w = save_turn j.turn (running_turn started) Point.emit_start w

abbrev pub runtime_start : NewLog
runtime_start = record {
  turn = none;
  kind = LogKind.stage;
  stream = "";
  text = "";
  stage = "runtime_start";
  state = "started";
  duration_ms = none;
}

unfoldable pub emit_runtime_start : Job → Store → Progress
emit_runtime_start j w = insert_logs j.session (runtime_start ∷ []) Point.drain w

-- The command thread and the drain loop.
unfoldable pub drain_step : Reply → Job → Store → Progress
drain_step (flushes ls) j w = insert_logs j.session ls Point.drain w
drain_step (drained holder) j w =
    let (status, exit_code) = compute_final_status holder in at w (Point.finalize status exit_code)
drain_step raises j w = at w Point.finished
drain_step _ j w = at w Point.drain

-- `_finalize`: the refresh, then the two saves.
unfoldable pub finalize_refresh : ℕ → FinalStatus → Option ℤ → Job → Store → Progress
finalize_refresh now status exit_code j w = elim (get j.session w.sessions) [
  | none ↦ at w Point.finished
  | some s ↦ at w (Point.final_session s.status status exit_code now)
]

abbrev pub final_row : FinalStatus → Option ℤ → Session → Session
final_row status exit_code s = record s { status = session_status status; exit_code = exit_code }

unfoldable pub finalize_session : Status → FinalStatus → Option ℤ → ℕ → Job → Store → Progress
finalize_session seen status exit_code ended j w =
    if is_terminated seen
    then at w (Point.final_turn status exit_code ended)
    else save_session j.session (final_row status exit_code)
        (Point.final_turn status exit_code ended) w

abbrev pub final_turn_row : FinalStatus → Option ℤ → ℕ → Turn → Turn
final_turn_row status exit_code ended t = record t {
  status = turn_status status;
  exit_code = exit_code;
  ended_at = some ended;
}

unfoldable pub finalize_turn : FinalStatus → Option ℤ → ℕ → Job → Store → Progress
finalize_turn status exit_code ended j w =
    save_turn j.turn (final_turn_row status exit_code ended) Point.finished w
