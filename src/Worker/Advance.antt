-- ===== src/Worker/Advance.antt =====
-- One step of any job: the operation at its point. `now` is the clock.
use agent_on_demand.Prelude.{ℕ}
use agent_on_demand.Store.{Point, Job, Store}
use agent_on_demand.Worker.{Reply, Progress, at}
use agent_on_demand.Worker.Provision.{
  provision_fetch, provision_build, provision_run, fail_with_log, fail_after_refresh,
  fail_save_session, fail_save_turn,
}
use agent_on_demand.Worker.Execute.{
  execute_fetch, execute_build, execute_attach, turn_check, abort_with_log, abort_save_turn,
  mark_session_running, mark_turn_running, emit_runtime_start, drain_step, finalize_refresh,
  finalize_session, finalize_turn,
}

unfoldable pub advance : ℕ → Reply → Point → Job → Store → Progress
advance now r Point.provision_queued j w = provision_fetch j w
advance now r Point.provision_spec j w = provision_build r w
advance now r Point.provision_backend j w = provision_run r j w
advance now r (Point.fail_log p e) j w = fail_with_log p e j w
advance now r (Point.fail_refresh p) j w = fail_after_refresh p j w
advance now r (Point.fail_session p seen) j w = fail_save_session p seen j w
advance now r (Point.fail_turn p) j w = fail_save_turn now p j w
advance now r Point.execute_queued j w = execute_fetch j w
advance now r (Point.execute_spec handle) j w = execute_build r handle w
advance now r (Point.execute_resume handle) j w = execute_attach r handle w
advance now r Point.turn_refresh j w = turn_check now j w
advance now r (Point.abort_log started) j w = abort_with_log started j w
advance now r (Point.abort_turn started) j w = abort_save_turn started j w
advance now r (Point.mark_session started) j w = mark_session_running started j w
advance now r (Point.mark_turn started) j w = mark_turn_running started j w
advance now r Point.emit_start j w = emit_runtime_start j w
advance now r Point.drain j w = drain_step r j w
advance now r (Point.finalize s c) j w = finalize_refresh now s c j w
advance now r (Point.final_session seen s c ended) j w = finalize_session seen s c ended j w
advance now r (Point.final_turn s c ended) j w = finalize_turn s c ended j w
advance now r Point.finished j w = at w Point.finished
