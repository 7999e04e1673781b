-- ===== src/Tests/Sandbox.antt =====
-- Provisionings whose script fails, and one whose runtime cannot be installed.
use agent_on_demand.Prelude.{◌≡◌, refl, false, true, none, some, [], ◌∷◌, pos}
use agent_on_demand.Provisioning.{
  started, done, failed, create_sprite, install_runtime, backend_error, does, raises, exits, Site,
  stage_timer, calls, wrap, install,
}
use agent_on_demand.Provisioning.Session.{
  SessionSpec, Answers, create, run_stages, guarded, provision_session,
}
use agent_on_demand.Provisioning.Rows.{Adds, stage_rows_paired}
use agent_on_demand.Provisioning.Cleanup.{Settled, provision_settles}

abbrev spec : SessionSpec
spec = record {
  environment = none;
  repos = record { url = "https://github.com/a/b"; mount_path = "/b"; token = some "t" } ∷ [];
  skills = [];
  skills_root = none;
  skills_sh_agent = none;
}

abbrev fine : Answers
fine = record {
  client = true;
  create = does;
  install = does;
  policy = does;
  env_file = does;
  credentials = does;
  script = does;
  run = exits (pos 0);
  stderr_tail = none;
  config = does;
  skills = [];
  destroy = does;
}

abbrev no_install : Answers
no_install = record fine { install = raises backend_error "npm" }

abbrev nothing : Site
nothing = record { alive = false; events = [] }

install_fails : (provision_session spec no_install nothing).0 ≡ record {
  alive = false;
  events =
      started create_sprite
      ∷ done create_sprite
      ∷ started install_runtime
      ∷ failed install_runtime "Failed to install runtime: npm"
      ∷ [];
}
unfolding provision_session stage_timer create guarded run_stages install calls wrap
install_fails = refl

provision_settles_example : Settled (provision_session spec no_install nothing)
provision_settles_example = provision_settles spec no_install nothing refl refl refl

stage_rows_paired_example : Adds nothing (provision_session spec no_install nothing)
stage_rows_paired_example = stage_rows_paired spec no_install nothing refl
