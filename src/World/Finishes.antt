-- ===== src/World/Finishes.antt =====
-- Every job ends: the jobs of session_service/tasks.py and turn_executor.py, whatever else commits
-- between their operations.
use agent_on_demand.Prelude.{
  ℕ, ◌+◌, ◌-◌, ◌≤◌, ◌≡◌, refl, Bool, true, false, Option, none, some, List, [], ◌∷◌, arith,
  if◌then◌else◌,
}
use agent_on_demand.Prelude.Table.{get}
use agent_on_demand.State.{is_terminated}
use agent_on_demand.Store.{Point, Job, Store}
use agent_on_demand.Worker.{
  Reply, spec_built, spec_raised, stage_event, provisioned, no_credentials, provision_error,
  unexpected, resumed, handle_not_found, raises, flushes, drained, Progress, at,
}
use agent_on_demand.Worker.Provision.{
  provision_fetch, provision_build, provision_run, fail_with_log, fail_after_refresh,
  fail_save_session, fail_save_turn,
}
use agent_on_demand.Worker.Execute.{
  execute_fetch, execute_build, execute_attach, turn_check, abort_with_log, abort_save_turn,
  mark_session_running, mark_turn_running, emit_runtime_start, drain_step, finalize_refresh,
  finalize_session, finalize_turn,
}
use agent_on_demand.Worker.Advance.{advance}

-- How many operations are left at most.
abbrev pub rank : Point → ℕ
rank Point.provision_queued = 7
rank Point.provision_spec = 6
rank Point.provision_backend = 5
rank (Point.fail_log p e) = 4
rank (Point.fail_refresh p) = 3
rank (Point.fail_session p seen) = 2
rank (Point.fail_turn p) = 1
rank Point.execute_queued = 11
rank (Point.execute_spec handle) = 10
rank (Point.execute_resume handle) = 9
rank Point.turn_refresh = 8
rank (Point.abort_log started) = 2
rank (Point.abort_turn started) = 1
rank (Point.mark_session started) = 7
rank (Point.mark_turn started) = 6
rank Point.emit_start = 5
rank Point.drain = 4
rank (Point.finalize s c) = 3
rank (Point.final_session seen s c ended) = 2
rank (Point.final_turn s c ended) = 1
rank Point.finished = 0

-- The reply is one that the code gets at this point, and it is not one more event or batch of output.
abbrev pub answers : Point → Reply → Bool
answers Point.provision_spec spec_built = true
answers Point.provision_spec (spec_raised e) = true
answers Point.provision_spec _ = false
answers Point.provision_backend provisioned = true
answers Point.provision_backend (no_credentials e) = true
answers Point.provision_backend (provision_error e) = true
answers Point.provision_backend (unexpected e) = true
answers Point.provision_backend _ = false
answers (Point.execute_spec handle) spec_built = true
answers (Point.execute_spec handle) (spec_raised e) = true
answers (Point.execute_spec handle) _ = false
answers (Point.execute_resume handle) resumed = true
answers (Point.execute_resume handle) (handle_not_found e) = true
answers (Point.execute_resume handle) raises = true
answers (Point.execute_resume handle) _ = false
answers Point.drain (drained holder) = true
answers Point.drain raises = true
answers Point.drain _ = false
answers _ _ = true

-- A step from `pt` that leaves `p`: an answer uses up one of the operations that were left.
record Falls (pt : Point) (r : Reply) (p : Progress) : Type 0 where
  falls : rank p.point ≤ rank pt - (if answers pt r then 1 else 0)

abbrev Below : ℕ → Progress → Type 0
Below n p = rank p.point ≤ n

either : (n : ℕ) (b : Bool) (p q : Progress) → Below n p → Below n q → Below n (if b then p else q)
either n true p q hp hq = hp
either n false p q hp hq = hq

looked_up :
    {A : Type 0} (n : ℕ) (o : Option A) (p : Progress) (f : A → Progress)
    → Below n p
    → ((a : A) → Below n (f a))
    → Below n (elim o [ none ↦ p | some a ↦ f a ])
looked_up n none p f h k = h
looked_up n (some a) p f h k = k a

module _ (now : ℕ) (j : Job) (w : Store) where
  written :
      (n : ℕ) (b : Bool) (u : Store) (q : Point)
      → rank q ≤ n
      → Below n (if b then at u q else at w Point.finished)
  written n b u q h = either n b (at u q) (at w Point.finished) h (omega arith)

  advance-Falls : (pt : Point) (r : Reply) → Falls pt r (advance now r pt j w)
  unfolding advance provision_fetch provision_build provision_run fail_with_log fail_after_refresh
      fail_save_session fail_save_turn execute_fetch execute_build execute_attach turn_check
      abort_with_log abort_save_turn mark_session_running mark_turn_running emit_runtime_start
      drain_step finalize_refresh finalize_session finalize_turn
  advance-Falls Point.provision_queued r = record {
    falls =
        looked_up 6 (get j.session w.sessions) _ _ (omega arith)
          λ s. either 6 (is_terminated s.status) _ _ (omega arith) (omega arith);
  }
  advance-Falls Point.provision_spec spec_built = record { falls = omega arith }
  advance-Falls Point.provision_spec (spec_raised e) = record { falls = omega arith }
  advance-Falls Point.provision_spec _ = record { falls = omega arith }
  advance-Falls Point.provision_backend provisioned = record { falls = omega arith }
  advance-Falls Point.provision_backend (no_credentials e) = record { falls = omega arith }
  advance-Falls Point.provision_backend (provision_error e) = record { falls = omega arith }
  advance-Falls Point.provision_backend (unexpected e) = record { falls = omega arith }
  advance-Falls Point.provision_backend (stage_event l) = record {
    falls = written 5 _ _ Point.provision_backend (omega arith);
  }
  advance-Falls Point.provision_backend _ = record { falls = omega arith }
  advance-Falls (Point.fail_log p e) r = record {
    falls = written 3 _ _ (Point.fail_refresh p) (omega arith);
  }
  advance-Falls (Point.fail_refresh p) r = record {
    falls = looked_up 2 (get j.session w.sessions) _ _ (omega arith) (λ s. omega arith);
  }
  advance-Falls (Point.fail_session p seen) r = record {
    falls =
        either 1 (is_terminated seen) _ _ (omega arith)
          (written 1 _ _ (Point.fail_turn p) (omega arith));
  }
  advance-Falls (Point.fail_turn true) r = record { falls = omega arith }
  advance-Falls (Point.fail_turn false) r = record {
    falls = written 0 _ _ Point.finished (omega arith);
  }
  advance-Falls Point.execute_queued r = record {
    falls =
        looked_up 10 (get j.session w.sessions) _ _ (omega arith)
          λ s. looked_up 10 (get j.turn w.turns) _ _ (omega arith) (λ t. omega arith);
  }
  advance-Falls (Point.execute_spec h) spec_built = record { falls = omega arith }
  advance-Falls (Point.execute_spec h) (spec_raised e) = record { falls = omega arith }
  advance-Falls (Point.execute_spec h) _ = record { falls = omega arith }
  advance-Falls (Point.execute_resume h) resumed = record { falls = omega arith }
  advance-Falls (Point.execute_resume h) (handle_not_found e) = record { falls = omega arith }
  advance-Falls (Point.execute_resume h) raises = record { falls = omega arith }
  advance-Falls (Point.execute_resume h) _ = record { falls = omega arith }
  advance-Falls Point.turn_refresh r = record {
    falls =
        looked_up 7 (get j.session w.sessions) _ _ (omega arith)
          λ s. either 7 (is_terminated s.status) _ _ (omega arith) (omega arith);
  }
  advance-Falls (Point.abort_log t) r = record {
    falls = written 1 _ _ (Point.abort_turn t) (omega arith);
  }
  advance-Falls (Point.abort_turn t) r = record {
    falls = written 0 _ _ Point.finished (omega arith);
  }
  advance-Falls (Point.mark_session t) r = record {
    falls = written 6 _ _ (Point.mark_turn t) (omega arith);
  }
  advance-Falls (Point.mark_turn t) r = record {
    falls = written 5 _ _ Point.emit_start (omega arith);
  }
  advance-Falls Point.emit_start r = record { falls = written 4 _ _ Point.drain (omega arith) }
  advance-Falls Point.drain (flushes ls) = record {
    falls = written 4 _ _ Point.drain (omega arith);
  }
  advance-Falls Point.drain (drained holder) = record { falls = omega arith }
  advance-Falls Point.drain raises = record { falls = omega arith }
  advance-Falls Point.drain _ = record { falls = omega arith }
  advance-Falls (Point.finalize s c) r = record {
    falls = looked_up 2 (get j.session w.sessions) _ _ (omega arith) (λ x. omega arith);
  }
  advance-Falls (Point.final_session seen s c t) r = record {
    falls =
        either 1 (is_terminated seen) _ _ (omega arith)
          (written 1 _ _ (Point.final_turn s c t) (omega arith));
  }
  advance-Falls (Point.final_turn s c t) r = record {
    falls = written 0 _ _ Point.finished (omega arith);
  }
  advance-Falls Point.finished r = record { falls = omega arith }

-- One operation of the job each: the clock, the reply, and the store as it is by then, whatever others
-- have committed.
abbrev pub Visits : Type 0
Visits = List (ℕ × Reply × Store)

unfoldable pub visit : ℕ × Reply × Store → Job → Job
visit (now, r, w) j = record j { point = (advance now r j.point j w).point }

unfoldable pub visited : Visits → Job → Job
visited [] j = j
visited (v ∷ vs) j = visited vs (visit v j)

-- How many of the replies are answers.
unfoldable pub answered : Visits → Job → ℕ
answered [] j = 0
answered (v ∷ vs) j = (if answers j.point v.1 then 1 else 0) + answered vs (visit v j)

rank_zero : (pt : Point) → rank pt ≤ 0 → pt ≡ Point.finished
rank_zero Point.finished h = refl
rank_zero _ h = absurd (omega (arith, h))

left_zero :
    (vs : Visits) (j : Job) → rank j.point ≤ answered vs j → (visited vs j).point ≡ Point.finished
unfolding visited answered visit
left_zero [] j h = rank_zero j.point h
left_zero ((now, r, w) ∷ vs) j h =
    let f = (advance-Falls now j w j.point r).falls in
    left_zero vs (visit (now, r, w) j) (omega (arith, f, h))

rank_le : (pt : Point) → rank pt ≤ 11
rank_le Point.finished = omega arith
rank_le _ = omega arith

-- A job is finished at the latest when the outside has answered eleven times, whatever the answers
-- are, however many events and batches of output come in between, and whatever requests and other
-- jobs commit between any two of its operations.
pub job_finishes :
    (vs : Visits) (j : Job) → 11 ≤ answered vs j → (visited vs j).point ≡ Point.finished
job_finishes vs j h = left_zero vs j (omega (arith, rank_le j.point, h))
