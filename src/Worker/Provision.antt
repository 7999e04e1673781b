-- ===== src/Worker/Provision.antt =====
-- provision_session_task and the two failure paths of src/agent_on_demand/session_service/tasks.py.
use Prim.Native.String.{◌++◌ as str_append}
use agent_on_demand.Prelude.{ℕ, String, Bool, true, false, none, some, [], ◌∷◌, if◌then◌else◌}
use agent_on_demand.Prelude.Table.{get, modify}
use agent_on_demand.State.{Status, TurnStatus, is_terminated}
use agent_on_demand.Store.{Session, Turn, Point, Job, Store}
use agent_on_demand.Worker.{
  Reply, spec_built, spec_raised, stage_event, provisioned, no_credentials, provision_error,
  unexpected, Progress, at, insert_logs, stderr_log, save_session, save_turn,
}

-- The fetch, and the guard against a terminate before the worker picked the job up.
unfoldable pub provision_fetch : Job → Store → Progress
provision_fetch j w = elim (get j.session w.sessions) [
  | none ↦ at w Point.finished
  | some s ↦ if is_terminated s.status then at w Point.finished else at w Point.provision_spec
]

unfoldable pub provision_build : Reply → Store → Progress
provision_build spec_built w = at w Point.provision_backend
provision_build (spec_raised e) w = at w (Point.fail_log true (str_append "internal error: " e))
provision_build _ w = at w Point.provision_spec

-- The turn that a provisioned session runs first.
abbrev pub first_turn : Job → Job
first_turn j = record j { point = Point.execute_queued }

unfoldable pub provision_run : Reply → Job → Store → Progress
provision_run provisioned j w = record {
  store = w;
  point = Point.finished;
  deferred = first_turn j ∷ [];
}
provision_run (no_credentials e) j w = at w (Point.fail_log true e)
provision_run (provision_error e) j w = at w (Point.fail_log true e)
provision_run (unexpected e) j w = at w (Point.fail_log true (str_append "unexpected error: " e))
provision_run (stage_event l) j w = insert_logs j.session (l ∷ []) Point.provision_backend w
provision_run _ j w = at w Point.provision_backend

-- _mark_provision_failed (true) and _fail_pending_turn (false).
abbrev failure_text : Bool → String → String
failure_text true e = str_append "provision failed: " (str_append e "\n")
failure_text false e = str_append "turn failed: " (str_append e "\n")

unfoldable pub fail_with_log : Bool → String → Job → Store → Progress
fail_with_log provision e j w =
    insert_logs j.session (stderr_log j.turn (failure_text provision e) ∷ [])
      (Point.fail_refresh provision) w

unfoldable pub fail_after_refresh : Bool → Job → Store → Progress
fail_after_refresh provision j w = elim (get j.session w.sessions) [
  | none ↦ at w Point.finished
  | some s ↦ at w (Point.fail_session provision s.status)
]

-- Only a failed provision clears the handle.
abbrev failed_row : Bool → Session → Session
failed_row true s = record s { status = Status.failed; backend_handle = "" }
failed_row false s = record s { status = Status.failed }

unfoldable pub fail_save_session : Bool → Status → Job → Store → Progress
fail_save_session provision seen j w =
    if is_terminated seen
    then at w (Point.fail_turn provision)
    else save_session j.session (failed_row provision) (Point.fail_turn provision) w

abbrev failed_turn : ℕ → Turn → Turn
failed_turn now t = record t { status = TurnStatus.failed; ended_at = some now }

-- `filter(pk=turn_id).update(…)` after a provision, `turn.save(…)` otherwise.
unfoldable pub fail_save_turn : ℕ → Bool → Job → Store → Progress
fail_save_turn now true j w =
    at (record w { turns = modify j.turn (failed_turn now) w.turns }) Point.finished
fail_save_turn now false j w = save_turn j.turn (failed_turn now) Point.finished w
