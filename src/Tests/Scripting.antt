-- ===== src/Tests/Scripting.antt =====
-- A session with two repositories, one with a token, odd package names and a setup script.
use agent_on_demand.Prelude.{◌≡◌, refl, false, none, some, [], ◌∷◌, all}
use agent_on_demand.Prelude.Text.{Text, codes, text_le}
use agent_on_demand.Shell.{quote, is_safe, escape_quotes}
use agent_on_demand.Shell.Reader.{run, between, read_commands}
use agent_on_demand.Scripts.{
  inline, github, Env, Spec, assignments, insert_item, sorted_items, build_env_file_body,
  build_skills_install_command,
}
use agent_on_demand.Scripts.Provision.{build_provision_script, user_script}
use agent_on_demand.Scripts.Runs.{script_runs, provision_commands, script_tail}
use agent_on_demand.Scripts.EnvFile.{
  read_env_file, install_words, read-build_env_file_body, read-build_skills_install_command,
}
use agent_on_demand.Validation.{is_env_var_key, is_key_char, is_key_start}

abbrev setup : Env
setup = record {
  id = none;
  packages = (codes "pip", codes "ruff" ∷ codes "x; rm" ∷ []) ∷ [];
  env_vars = (codes "B", codes "it's") ∷ (codes "A", []) ∷ [];
  setup_script = codes " make ";
}

abbrev spec : Spec
spec = record {
  runtime = codes "codex";
  skills_root = some (codes "/skills");
  has_mcp_servers = false;
  runtime_session_id = none;
  model = codes "gpt";
  user_id = some (codes "3");
  environment = some setup;
  repos =
      record { url = codes "https://a/b"; mount_path = codes "/w o"; token = some (codes "t") }
      ∷ [];
  skills = inline (codes "lint") (codes "text") ∷ github (codes "o/r") none ∷ [];
  secret_env_vars = (codes "S", codes "a b") ∷ [];
}

quoted : quote (codes "it's") ≡ codes "'it'\"'\"'s'"
unfolding quote is_safe escape_quotes all
quoted = refl

script_runs_example :
    (script : Text) × (build_provision_script spec ≡ some script)
    × (run script (between [] [])
        ≡ run (script_tail (user_script spec.environment)) (between [] (provision_commands spec)))
script_runs_example = script_runs spec

read-build_env_file_body_example :
    read_env_file (build_env_file_body ((codes "KEY", codes "k$1") ∷ []) [] spec)
    ≡ some (assignments ((codes "KEY", codes "k$1") ∷ []) [] spec)
unfolding assignments sorted_items insert_item all text_le is_env_var_key is_key_char is_key_start
read-build_env_file_body_example =
    read-build_env_file_body ((codes "KEY", codes "k$1") ∷ []) [] spec
      (refl, (refl, (refl, (refl, (refl, tt)))))

read-build_skills_install_command_example :
    read_commands
      (build_skills_install_command (codes "foo; rm -rf /") (codes "codex") (some (codes "it's")))
    ≡ some (install_words (codes "foo; rm -rf /") (codes "codex") (some (codes "it's")) ∷ [])
read-build_skills_install_command_example =
    read-build_skills_install_command (codes "foo; rm -rf /") (codes "codex") (some (codes "it's"))
