-- ===== src/World/Jobs.antt =====
-- What one step of a job does to the queue and to the session rows.
use agent_on_demand.Prelude.{ℕ, refl, Bool, true, false, arith}
use agent_on_demand.Prelude.Table.{get}
use agent_on_demand.State.{Status, is_terminated}
use agent_on_demand.Outcome.{FinalStatus}
use agent_on_demand.Store.{Job, Point, Store}
use agent_on_demand.Worker.{
  Reply, spec_built, spec_raised, stage_event, provisioned, no_credentials, provision_error,
  unexpected, resumed, handle_not_found, raises, flushes, drained,
}
use agent_on_demand.Worker.Provision.{
  provision_fetch, provision_build, provision_run, fail_with_log, fail_after_refresh,
  fail_save_session, fail_save_turn,
}
use agent_on_demand.Worker.Execute.{
  execute_fetch, execute_build, execute_attach, turn_check, abort_with_log, abort_save_turn,
  mark_session_running, mark_turn_running, emit_runtime_start, drain_step, finalize_refresh,
  finalize_session, finalize_turn,
}
use agent_on_demand.Worker.Advance.{advance}
use agent_on_demand.World.Effects.{
  Behaves, Effect, turn_numbers-modify, keeping, quiet, over, choose, found, logs-Behaves,
  save_turn-Behaves, save_session-Behaves, failing, starting, closing,
}

module _ (j : Job) (w : Store) where
  provision_build-Behaves : (r : Reply) → Behaves Point.provision_spec j w (provision_build r w)
  unfolding provision_build
  provision_build-Behaves spec_built =
      quiet w Point.provision_backend refl refl refl (omega arith) (λ s e. e)
  provision_build-Behaves (spec_raised e) = quiet w _ refl refl refl (omega arith) (λ s e. e)
  provision_build-Behaves _ = quiet w Point.provision_spec refl refl refl (omega arith) (λ s e. e)

  provision_run-Behaves : (r : Reply) → Behaves Point.provision_backend j w (provision_run r j w)
  unfolding provision_run
  provision_run-Behaves provisioned = record {
    jobs_kept = refl;
    numbers_kept = λ id. refl;
    live_le = omega arith;
    deferred_own = (refl, tt);
    deferred_fits = ((λ s e. e), tt);
    effect = Effect.leaves refl (λ s e. refl);
  }
  provision_run-Behaves (no_credentials e) = quiet w _ refl refl refl (omega arith) (λ s e. e)
  provision_run-Behaves (provision_error e) = quiet w _ refl refl refl (omega arith) (λ s e. e)
  provision_run-Behaves (unexpected e) = quiet w _ refl refl refl (omega arith) (λ s e. e)
  provision_run-Behaves (stage_event l) =
      logs-Behaves j.session _ Point.provision_backend (omega arith) (λ s e. e)
  provision_run-Behaves _ = quiet w Point.provision_backend refl refl refl (omega arith) (λ s e. e)

  execute_build-Behaves :
      (r : Reply) (h : _) → Behaves (Point.execute_spec h) j w (execute_build r h w)
  unfolding execute_build
  execute_build-Behaves spec_built h = quiet w _ refl refl refl (omega arith) (λ s e. e)
  execute_build-Behaves (spec_raised e) h = quiet w _ refl refl refl (omega arith) (λ s e. e)
  execute_build-Behaves _ h = quiet w _ refl refl refl (omega arith) (λ s e. e)

  execute_attach-Behaves :
      (r : Reply) (h : _) → Behaves (Point.execute_resume h) j w (execute_attach r h w)
  unfolding execute_attach
  execute_attach-Behaves resumed h = quiet w _ refl refl refl (omega arith) (λ s e. e)
  execute_attach-Behaves (handle_not_found e) h = quiet w _ refl refl refl (omega arith) (λ s e. e)
  execute_attach-Behaves raises h = over w refl refl refl
  execute_attach-Behaves _ h = quiet w _ refl refl refl (omega arith) (λ s e. e)

  drain_step-Behaves : (r : Reply) → Behaves Point.drain j w (drain_step r j w)
  unfolding drain_step
  drain_step-Behaves (flushes ls) = logs-Behaves j.session ls Point.drain (omega arith) (λ s e. e)
  drain_step-Behaves (drained holder) = quiet w _ refl refl refl (omega arith) (λ s e. e)
  drain_step-Behaves raises = over w refl refl refl
  drain_step-Behaves _ = quiet w Point.drain refl refl refl (omega arith) (λ s e. e)

  fail_save_session-Behaves :
      (provision : Bool) (seen : Status)
      → Behaves (Point.fail_session provision seen) j w (fail_save_session provision seen j w)
  unfolding fail_save_session
  fail_save_session-Behaves true seen =
      choose (is_terminated seen) (quiet w _ refl refl refl (omega arith) (λ s e. refl)) (
        save_session-Behaves _ _ refl (λ s. refl) (λ s e. refl) (λ s e. failing s.status e)
          (λ s. refl))
  fail_save_session-Behaves false seen =
      choose (is_terminated seen) (quiet w _ refl refl refl (omega arith) (λ s e. refl)) (
        save_session-Behaves _ _ refl (λ s. refl) (λ s e. refl) (λ s e. failing s.status e)
          (λ s. refl))

  fail_save_turn-Behaves :
      (now : ℕ) (p : Bool) → Behaves (Point.fail_turn p) j w (fail_save_turn now p j w)
  unfolding fail_save_turn
  fail_save_turn-Behaves now true =
      keeping _ _ refl refl (λ n. turn_numbers-modify n j.turn _ w.turns (λ t. refl) (λ t. refl))
        (omega arith) (λ s e. refl)
  fail_save_turn-Behaves now false =
      save_turn-Behaves j.turn _ Point.finished (λ t. refl) (λ t. refl) (omega arith) (λ s e. e)

  finalize_session-Behaves :
      (seen : Status) (s : FinalStatus) (c : _) (ended : ℕ)
      → Behaves (Point.final_session seen s c ended) j w (finalize_session seen s c ended j w)
  unfolding finalize_session
  finalize_session-Behaves seen FinalStatus.completed c ended =
      choose (is_terminated seen) (quiet w _ refl refl refl (omega arith) (λ s e. refl)) (
        save_session-Behaves _ _ refl (λ s. refl) (λ s e. refl)
          (λ s e. closing FinalStatus.completed s.status e) (λ s. refl))
  finalize_session-Behaves seen FinalStatus.failed c ended =
      choose (is_terminated seen) (quiet w _ refl refl refl (omega arith) (λ s e. refl)) (
        save_session-Behaves _ _ refl (λ s. refl) (λ s e. refl)
          (λ s e. closing FinalStatus.failed s.status e) (λ s. refl))

  pub advance-Behaves : (now : ℕ) (r : Reply) (pt : Point) → Behaves pt j w (advance now r pt j w)
  unfolding advance provision_fetch fail_with_log fail_after_refresh execute_fetch turn_check
      abort_with_log abort_save_turn mark_session_running mark_turn_running emit_runtime_start
      finalize_refresh finalize_turn
  advance-Behaves now r Point.provision_queued =
      found (get j.session w.sessions) _ _ (over w refl refl refl) λ s.
        choose (is_terminated s.status) (over w refl refl refl)
          (quiet w _ refl refl refl (omega arith) (λ s e. e))
  advance-Behaves now r Point.provision_spec = provision_build-Behaves r
  advance-Behaves now r Point.provision_backend = provision_run-Behaves r
  advance-Behaves now r (Point.fail_log p e) = logs-Behaves j.session _ _ (omega arith) (λ s e. e)
  advance-Behaves now r (Point.fail_refresh p) =
      found (get j.session w.sessions) _ _ (over w refl refl refl)
        λ s. quiet w _ refl refl refl (omega arith) (λ s e. e)
  advance-Behaves now r (Point.fail_session p seen) = fail_save_session-Behaves p seen
  advance-Behaves now r (Point.fail_turn p) = fail_save_turn-Behaves now p
  advance-Behaves now r Point.execute_queued =
      found (get j.session w.sessions) _ _ (over w refl refl refl) λ s.
        found (get j.turn w.turns) _ _ (over w refl refl refl)
          λ t. quiet w _ refl refl refl (omega arith) (λ s e. e)
  advance-Behaves now r (Point.execute_spec h) = execute_build-Behaves r h
  advance-Behaves now r (Point.execute_resume h) = execute_attach-Behaves r h
  advance-Behaves now r Point.turn_refresh =
      found (get j.session w.sessions) _ _ (over w refl refl refl) λ s.
        choose (is_terminated s.status) (quiet w _ refl refl refl (omega arith) (λ s e. refl))
          (quiet w _ refl refl refl (omega arith) (λ s e. e))
  advance-Behaves now r (Point.abort_log t) = logs-Behaves j.session _ _ (omega arith) (λ s e. e)
  advance-Behaves now r (Point.abort_turn t) =
      save_turn-Behaves j.turn _ _ (λ t. refl) (λ t. refl) (omega arith) (λ s e. e)
  advance-Behaves now r (Point.mark_session t) =
      save_session-Behaves _ _ refl (λ s. refl) (λ s e. absurd (cc)) (λ s e. starting s.status e)
        (λ s. refl)
  advance-Behaves now r (Point.mark_turn t) =
      save_turn-Behaves j.turn _ _ (λ t. refl) (λ t. refl) (omega arith) (λ s e. e)
  advance-Behaves now r Point.emit_start = logs-Behaves j.session _ _ (omega arith) (λ s e. e)
  advance-Behaves now r Point.drain = drain_step-Behaves r
  advance-Behaves now r (Point.finalize s c) =
      found (get j.session w.sessions) _ _ (over w refl refl refl)
        λ s. quiet w _ refl refl refl (omega arith) (λ s e. e)
  advance-Behaves now r (Point.final_session seen s c t) = finalize_session-Behaves seen s c t
  advance-Behaves now r (Point.final_turn s c t) =
      save_turn-Behaves j.turn _ _ (λ t. refl) (λ t. refl) (omega arith) (λ s e. e)
  advance-Behaves now r Point.finished = over w refl refl refl
