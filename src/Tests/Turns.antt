-- ===== src/Tests/Turns.antt =====
-- Turns of Claude and Codex sessions, with an empty secret that overrides the environment's key.
use agent_on_demand.Prelude.{◌≡◌, refl, false, none, some, List, [], ◌∷◌, ◌++◌, map, All, select}
use agent_on_demand.Prelude.Text.{Text, codes, text_eq, strip, is_space, lstrip, rstrip, join}
use agent_on_demand.Shell.Reader.{run, between}
use agent_on_demand.Scripts.{Env, Spec, sorted_items}
use agent_on_demand.Scripts.EnvFile.{assigned, read_assignments}
use agent_on_demand.Runtimes.{Runtime, build_command, build_claude_command}
use agent_on_demand.Runtimes.Otel.{otel_env, candidates, has_safe_value, build_resource_attributes}
use agent_on_demand.Runtimes.Argv.{build_turn_argv, build_env_source_shim}
use agent_on_demand.Runtimes.Shim.{exec, Argv, shim_commands, build_turn_argv-otel_env}
use agent_on_demand.Runtimes.Attributes.{read_attributes, read-build_resource_attributes}
use agent_on_demand.Runtimes.Codex.{
  Server, render_codex_mcp_config, all_lines, server_lines, header_lines, header_line, after_prefix,
  variable_of, before_last,
}
use agent_on_demand.Runtimes.Bearer.{Referenced, render_codex_mcp_config-Referenced}

abbrev keyed : Env
keyed = record {
  id = some (codes "e1");
  packages = [];
  env_vars = (codes "A", codes "1") ∷ (codes "OPENAI_API_KEY", codes "sk") ∷ [];
  setup_script = [];
}

abbrev spec_with : List (Text × Text) → Spec
spec_with secrets = record {
  runtime = codes "claude";
  skills_root = none;
  has_mcp_servers = false;
  runtime_session_id = some (codes "r1");
  model = codes "a=b";
  user_id = some (codes "3");
  environment = some keyed;
  repos = [];
  skills = [];
  secret_env_vars = secrets;
}

abbrev claude_argv : List Text
claude_argv =
    codes "claude"
    ∷ codes "--dangerously-skip-permissions"
    ∷ codes "--print"
    ∷ codes "--verbose"
    ∷ codes "--output-format"
    ∷ codes "stream-json"
    ∷ codes "--model"
    ∷ codes "a=b"
    ∷ codes "--resume"
    ∷ codes "r1"
    ∷ []

abbrev extra : List (Text × Text)
extra = otel_env (some (codes "hk")) Runtime.claude (spec_with []) (some (codes "00-1")) none

build_turn_argv-otel_env_example :
    (before : Text) × Argv Runtime.claude
      (spec_with [])
      (codes "continue")
      (before ++ exec)
      (codes "bash" ∷ codes "-lc" ∷ build_env_source_shim extra ∷ codes "--" ∷ claude_argv)
    × (run before (between [] []) ≡ some (between [] (shim_commands extra)))
    × (read_assignments (map assigned (sorted_items extra)) ≡ some (sorted_items extra))
unfolding build_turn_argv build_command build_claude_command text_eq
build_turn_argv-otel_env_example =
    build_turn_argv-otel_env (some (codes "hk")) Runtime.claude (spec_with []) (some (codes "00-1"))
      none (codes "continue")
      (codes "bash" ∷ codes "-lc" ∷ build_env_source_shim extra ∷ codes "--" ∷ claude_argv) refl

read-build_resource_attributes_example :
    read_attributes (build_resource_attributes (spec_with []))
    ≡ some (select has_safe_value (candidates (spec_with [])))
read-build_resource_attributes_example = read-build_resource_attributes (spec_with [])

abbrev cleared : Spec
cleared = spec_with ((codes "OPENAI_API_KEY", []) ∷ [])

abbrev local : Server
local = record {
  name = codes "fs";
  type = codes "stdio";
  url = [];
  headers = [];
  command = codes "npx";
  args = [];
  env = [];
}

abbrev remote : Server
remote = record local {
  type = codes "url";
  headers = (codes "Authorization", codes "Bearer ${TOKEN} ") ∷ [];
}

abbrev toml : Text
toml = codes "[mcp_servers.fs]\nurl = \"\"\nbearer_token_env_var = \"TOKEN\"\nrequired = true\n"

render_codex_mcp_config-Referenced_example : All Referenced (remote ∷ [])
unfolding render_codex_mcp_config all_lines server_lines header_lines header_line after_prefix
    variable_of before_last text_eq strip lstrip rstrip is_space join
render_codex_mcp_config-Referenced_example =
    render_codex_mcp_config-Referenced (remote ∷ []) toml refl
