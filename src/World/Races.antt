-- ===== src/World/Races.antt =====
-- Two ways in which a job leaves a session in a state that the code means to exclude.
use agent_on_demand.Prelude.{
  ℕ, ◌≡◌, refl, ◌⊎◌, inl, inr, String, Bool, true, some, arith, get_elem?,
}
use agent_on_demand.Prelude.Table.{get, modify, get-modify}
use agent_on_demand.Http.{code}
use agent_on_demand.State.{
  Status, is_active, is_terminated, check_can_accept_prompt, check_can_terminate, check_can_delete,
}
use agent_on_demand.Store.{Session, Job, Point, Store}
use agent_on_demand.Requests.{get_owned}
use agent_on_demand.Requests.Prompt.{PromptRequest, prompt_locked}
use agent_on_demand.Requests.End.{terminate_session, delete_session, terminated_row}
use agent_on_demand.Worker.{raises, at}
use agent_on_demand.Worker.Execute.{
  execute_attach, turn_check, mark_session_running, running_row, drain_step,
}
use agent_on_demand.Worker.Advance.{advance}
use agent_on_demand.World.{live_count, moved}
use agent_on_demand.World.Effects.{live_ℕ, Behaves}
use agent_on_demand.World.Jobs.{advance-Behaves}
use agent_on_demand.World.OneTurn.{OneTurn, live-moved_own}

-- A terminate that commits between the refresh of `_abort_if_terminated` and the save of
-- `_mark_running` is overwritten: from any session that is not terminated at the refresh, the two
-- operations with the terminate in between leave it `running`, with its handle cleared.
pub terminate_overwritten :
    (w : Store) (j : Job) (now user : ℕ) (s : Session)
    → get_owned user j.session w.sessions ≡ some s
    → is_terminated s.status ≡ Bool.false
    → let checked = turn_check now j w in
      let ended = (terminate_session user j.session checked.store).0 in
      (checked.point ≡ Point.mark_session now)
      × (get j.session ended.sessions ≡ some (terminated_row s))
      × (get j.session (mark_session_running now j ended).store.sessions
          ≡ some (record s { status = Status.running; backend_handle = "" }))
unfolding get_owned turn_check terminate_session check_can_terminate mark_session_running
terminate_overwritten w j now user s e h = ground (
  arith,
  get-modify j.session j.session terminated_row w.sessions,
  get-modify j.session j.session running_row (modify j.session terminated_row w.sessions),
)

raises-finishes :
    (now : ℕ) (j : Job) (w : Store) (pt : Point)
    → ((h : String) × (pt ≡ Point.execute_resume h)) ⊎ (pt ≡ Point.drain)
    → (advance now raises pt j w ≡ at w Point.finished) × (live_ℕ pt ≡ 1)
unfolding advance execute_attach drain_step
raises-finishes now j w pt (inl (h, e)) = rw e (refl, refl)
raises-finishes now j w pt (inr e) = rw e (refl, refl)

-- A job that ends by an exception where the code catches none, before it has attached to the backend
-- or while it drains the output, strands its session: the row stays active, no live job is left to
-- move it, a prompt and a delete answer 409, and only a terminate gets through.
pub raise_strands :
    (w : Store) (i now user : ℕ) (j : Job) (s : Session) (req : PromptRequest)
    → OneTurn w
    → get_elem? w.jobs i ≡ some j
    → ((h : String) × (j.point ≡ Point.execute_resume h)) ⊎ (j.point ≡ Point.drain)
    → get_owned user j.session w.sessions ≡ some s
    → is_active s.status ≡ true
    → let u = moved (advance now raises j.point j w) i j in
      (get j.session u.sessions ≡ some s)
      × (live_count j.session u.jobs ≡ 0)
      × (code (prompt_locked j.session req u).1 ≡ 409)
      × (code (delete_session user j.session u).1 ≡ 409)
      × (code (terminate_session user j.session u).1 ≡ 200)
unfolding moved get_owned prompt_locked check_can_accept_prompt delete_session check_can_delete
    terminate_session check_can_terminate
raise_strands w i now user j s req one at_i stands e a =
    let (ended, live) = raises-finishes now j w j.point stands in
    let behaves : Behaves j.point j w (at w Point.finished) =
      rw ended at (advance-Behaves j w now raises j.point) in
    rw ended (
      ground arith,
      ground (arith, live-moved_own i at_i behaves, one.at_most_one j.session),
      ground arith,
      ground arith,
      ground arith,
    )
