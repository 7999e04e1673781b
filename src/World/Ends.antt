-- ===== src/World/Ends.antt =====
-- A turn that works alone reaches its end: TurnExecutor.run of session_service/turn_executor.py.
use agent_on_demand.Prelude.{ℕ, ◌≡◌, refl, false, Option, some, List, [], ◌∷◌, ℤ, arith}
use agent_on_demand.Prelude.Table.{Table, get, modify, get-modify}
use agent_on_demand.State.{Status, is_terminated}
use agent_on_demand.Outcome.{
  HolderEntry, FinalStatus, compute_final_status, session_status, turn_status,
}
use agent_on_demand.Store.{Session, Turn, Point, Job, Store}
use agent_on_demand.Worker.{NewLog, Reply, proceed, spec_built, resumed, flushes, drained, add_logs}
use agent_on_demand.Worker.Execute.{
  execute_fetch, execute_build, execute_attach, turn_check, mark_session_running, mark_turn_running,
  emit_runtime_start, drain_step, finalize_refresh, finalize_session, finalize_turn, running_row,
  running_turn, final_row, final_turn_row, runtime_start,
}
use agent_on_demand.Worker.Advance.{advance}
use agent_on_demand.World.Alone.{run_alone, Holds, onward}

get-modify_same :
    {A : Type 0} (k : ℕ) (f : A → A) (t : Table A) (a : A)
    → get k t ≡ some a
    → get k (modify k f t) ≡ some (f a)
get-modify_same k f t a h = ground (arith, h, get-modify k k f t)

module _ (i : ℕ) (j : Job) (s : Session) (t : Turn) (started ended : ℕ)
    (holder : List HolderEntry) where
  abbrev outcome : FinalStatus × Option ℤ
  outcome = compute_final_status holder

  -- The turn has ended: the job is finished, and both rows have the outcome.
  abbrev pub Ended : Store → Type 0
  Ended u =
      Holds i j Point.finished
        (record s { status = session_status outcome.0; exit_code = outcome.1 })
        (record t {
          status = turn_status outcome.0;
          exit_code = outcome.1;
          started_at = some started;
          ended_at = some ended;
        })
        u

  abbrev t_running : Turn
  t_running = running_turn started t

  abbrev s_final : Session
  s_final = final_row outcome.0 outcome.1 s

  from_final_turn :
      (w : Store)
      → Holds i j (Point.final_turn outcome.0 outcome.1 ended) s_final t_running w
      → Ended (run_alone i ((ended, proceed) ∷ []) w)
  unfolding advance finalize_turn run_alone
  from_final_turn w h =
      onward i j ended proceed [] Ended Point.finished
        (record w { turns = modify j.turn (final_turn_row outcome.0 outcome.1 ended) w.turns }) h
        (rw h.turn refl) refl h.session (get-modify_same j.turn _ w.turns t_running h.turn)
        (λ v k. k)

  from_final_session :
      (seen : Status) (w : Store)
      → is_terminated seen ≡ false
      → Holds i j (Point.final_session seen outcome.0 outcome.1 ended) (running_row s) t_running w
      → Ended (run_alone i ((ended, proceed) ∷ (ended, proceed) ∷ []) w)
  unfolding advance finalize_session
  from_final_session seen w x h =
      onward i j _ _ _ Ended (Point.final_turn outcome.0 outcome.1 ended)
        (record w { sessions = modify j.session (final_row outcome.0 outcome.1) w.sessions }) h
        (rw (x, h.session) refl) refl
        (get-modify_same j.session _ w.sessions (running_row s) h.session) h.turn from_final_turn

  from_finalize :
      (w : Store)
      → Holds i j (Point.finalize outcome.0 outcome.1) (running_row s) t_running w
      → Ended (run_alone i ((ended, proceed) ∷ (ended, proceed) ∷ (ended, proceed) ∷ []) w)
  unfolding advance finalize_refresh
  from_finalize w h =
      onward i j _ _ _ Ended (Point.final_session Status.running outcome.0 outcome.1 ended) w h
        (rw (finalize_refresh, h.session) refl) refl h.session h.turn
        (λ v k. from_final_session Status.running v refl k)

  abbrev closing : List (ℕ × Reply)
  closing = (ended, drained holder) ∷ (ended, proceed) ∷ (ended, proceed) ∷ (ended, proceed) ∷ []

  -- The batches that the drain flushes, and the end of the command.
  abbrev output : List (List NewLog) → List (ℕ × Reply)
  output [] = closing
  output (b ∷ bs) = (started, flushes b) ∷ output bs

  from_drain :
      (bs : List (List NewLog)) (w : Store)
      → Holds i j Point.drain (running_row s) t_running w
      → Ended (run_alone i (output bs) w)
  unfolding advance drain_step
  from_drain [] w h =
      onward i j _ _ _ Ended (Point.finalize outcome.0 outcome.1) w h refl refl h.session h.turn
        from_finalize
  from_drain (b ∷ bs) w h =
      onward i j _ _ _ Ended Point.drain (add_logs j.session b w) h (rw h.session refl) refl
        h.session h.turn (from_drain bs)

  from_marked :
      (bs : List (List NewLog)) (w : Store)
      → Holds i j (Point.mark_turn started) (running_row s) t w
      → Ended (run_alone i ((started, proceed) ∷ (started, proceed) ∷ output bs) w)
  unfolding advance mark_turn_running emit_runtime_start
  from_marked bs w h =
      onward i j _ _ _ Ended Point.emit_start
        (record w { turns = modify j.turn (running_turn started) w.turns }) h (rw h.turn refl) refl
        h.session (get-modify_same j.turn _ w.turns t h.turn)
        λ v k.
          onward i j _ _ _ Ended Point.drain (add_logs j.session (runtime_start ∷ []) v) k
            (rw k.session refl) refl k.session k.turn (from_drain bs)

  from_refresh :
      (bs : List (List NewLog)) (w : Store)
      → is_terminated s.status ≡ false
      → Holds i j Point.turn_refresh s t w
      → Ended (
          run_alone i
            ((started, proceed)
              ∷ (started, proceed)
              ∷ (started, proceed)
              ∷ (started, proceed)
              ∷ output bs)
            w)
  unfolding advance turn_check mark_session_running
  from_refresh bs w x h =
      onward i j _ _ _ Ended (Point.mark_session started) w h (rw (turn_check, h.session, x) refl)
        refl h.session h.turn
        λ v k.
          onward i j _ _ _ Ended (Point.mark_turn started)
            (record v { sessions = modify j.session running_row v.sessions }) k (rw k.session refl)
            refl (get-modify_same j.session _ v.sessions s k.session) k.turn (from_marked bs)

  -- What the outside answers to a turn that gets its output and its end.
  abbrev pub answers : List (List NewLog) → List (ℕ × Reply)
  answers bs =
      (started, proceed)
      ∷ (started, spec_built)
      ∷ (started, resumed)
      ∷ (started, proceed)
      ∷ (started, proceed)
      ∷ (started, proceed)
      ∷ (started, proceed)
      ∷ output bs

  -- A queued turn of a session that is not terminated, with both rows there and no other commit in
  -- between, ends: once the spec is built, the sandbox is resumed and the command has left its batches
  -- of output and its result, in any number and of any kind, the job is finished, and the session and
  -- the turn have the status and exit code of that result and the turn its two times.
  pub execute_turn_ends :
      (bs : List (List NewLog)) (w : Store)
      → is_terminated s.status ≡ false
      → Holds i j Point.execute_queued s t w
      → Ended (run_alone i (answers bs) w)
  unfolding advance execute_fetch execute_build execute_attach
  execute_turn_ends bs w x h =
      onward i j _ _ _ Ended (Point.execute_spec s.backend_handle) w h
        (rw (execute_fetch, h.session, h.turn) refl) refl h.session h.turn
        λ v k.
          onward i j _ _ _ Ended (Point.execute_resume s.backend_handle) v k refl refl k.session
            k.turn
            λ y l.
              onward i j _ _ _ Ended Point.turn_refresh y l refl refl l.session l.turn
                λ z m. from_refresh bs z x m
