-- ===== src/Scripts/Provision.antt =====
-- src/agent_on_demand/session_service/provisioning/script.py and post_script_dirs.py.
use agent_on_demand.Prelude.{
  Bool, true, false, not, ◌||◌, Option, none, some, List, [], ◌∷◌, ◌++◌, map, any, if◌then◌else◌,
}
use agent_on_demand.Prelude.Text.{Text, codes, text_eq, join, sorted, strip}
use agent_on_demand.Shell.{quote, join_quoted}
use agent_on_demand.Scripts.{Repo, Skill, inline, github, Env, Spec, is_blank, package_commands}

-- `_RUNTIME_MCP_CONFIG_DIR.get(name)`.
unfoldable pub config_dir : Text → Option Text
config_dir runtime =
    if text_eq runtime (codes "codex")
    then some (codes "/home/sprite/.codex")
    else if text_eq runtime (codes "gemini")
    then some (codes "/home/sprite/.gemini")
    else if text_eq runtime (codes "opencode")
    then some (codes "/home/sprite/.config/opencode")
    else none

abbrev config_dirs : Option Text → Spec → List Text
config_dirs none spec = []
config_dirs (some dir) spec =
    if spec.has_mcp_servers || text_eq spec.runtime (codes "codex") then dir ∷ [] else []

abbrev skill_dirs : Text → List Skill → List Text
skill_dirs root [] = []
skill_dirs root (inline name content ∷ ss) = (root ++ (b'/' ∷ name)) ∷ skill_dirs root ss
skill_dirs root (github source name ∷ ss) = skill_dirs root ss

-- `if spec.runtime.skills_root`.
abbrev skills_root_dirs : Option Text → List Skill → List Text
skills_root_dirs none ss = []
skills_root_dirs (some root) ss = if is_blank root then [] else skill_dirs root ss

unfoldable pub directories_for_post_script_writes : Spec → List Text
directories_for_post_script_writes spec =
    config_dirs (config_dir spec.runtime) spec ++ skills_root_dirs spec.skills_root spec.skills

abbrev pub env_file_path : Text
env_file_path = codes "/tmp/aod-env"

abbrev pub git_creds_path : Text
git_creds_path = codes "/tmp/.git-credentials"

-- `PACKAGE_MANAGER_ORDER`.
abbrev pub package_manager_order : List Text
package_manager_order =
    codes "apt" ∷ codes "cargo" ∷ codes "gem" ∷ codes "go" ∷ codes "npm" ∷ codes "pip" ∷ []

-- `env.packages.get(manager, [])`.
unfoldable pub packages_of : Text → List (Text × List Text) → List Text
packages_of manager [] = []
packages_of manager ((m, pkgs) ∷ rest) =
    if text_eq m manager then pkgs else packages_of manager rest

-- `if r.token`.
abbrev pub has_token : Repo → Bool
has_token r = elim r.token [ none ↦ false | some t ↦ not (is_blank t) ]

abbrev pub mkdir_lines : List Text → List Text
mkdir_lines [] = []
mkdir_lines (d ∷ ds) = (codes "mkdir -p " ++ join_quoted (d ∷ ds)) ∷ [] ∷ []

abbrev pub chmod_line : Text → Text
chmod_line path = codes "chmod 600 " ++ quote path

abbrev pub chmod_lines : Bool → List Text
chmod_lines true = chmod_line env_file_path ∷ chmod_line git_creds_path ∷ [] ∷ []
chmod_lines false = chmod_line env_file_path ∷ [] ∷ []

abbrev pub manager_lines : Text → List Text → Option (List Text)
manager_lines manager [] = some []
manager_lines manager (p ∷ ps) = package_commands manager (p ∷ ps)

abbrev pub both : Option (List Text) → Option (List Text) → Option (List Text)
both (some xs) (some ys) = some (xs ++ ys)
both _ _ = none

-- The loop over the managers; `none` is the ValueError.
unfoldable pub managers_lines : List Text → List (Text × List Text) → Option (List Text)
managers_lines [] packages = some []
managers_lines (m ∷ ms) packages =
    both (manager_lines m (packages_of m packages)) (managers_lines ms packages)

abbrev pub package_lines : List (Text × List Text) → Option (List Text)
package_lines [] = some []
package_lines (x ∷ xs) = both (managers_lines package_manager_order (x ∷ xs)) (some ([] ∷ []))

abbrev pub env_package_lines : Option Env → Option (List Text)
env_package_lines none = some []
env_package_lines (some e) = package_lines e.packages

abbrev pub credential_lines : Bool → List Text
credential_lines true =
    (codes "git config --global credential.helper "
      ++ quote (codes "store --file=" ++ git_creds_path))
    ∷ []
credential_lines false = []

abbrev pub clone_line : Repo → Text
clone_line r = codes "git clone --depth=1 --quiet " ++ (quote r.url ++ (b' ' ∷ quote r.mount_path))

abbrev pub git_lines : Bool → List Repo → List Text
git_lines tokens [] = []
git_lines tokens (r ∷ rs) = credential_lines tokens ++ (map clone_line (r ∷ rs) ++ ([] ∷ []))

abbrev pub script_lines : Text → List Text
script_lines [] = []
script_lines (c ∷ cs) = (c ∷ cs) ∷ [] ∷ []

abbrev pub user_script : Option Env → Text
user_script none = []
user_script (some e) = strip e.setup_script

abbrev pub head_lines : List Text
head_lines = codes "#!/bin/bash" ∷ codes "set -e" ∷ [] ∷ []

unfoldable pub build_provision_script : Spec → Option Text
build_provision_script spec =
    let tokens = any has_token spec.repos in
    elim (env_package_lines spec.environment) [
      | none ↦ none
      | some packages ↦ some (
          join (b'\n' ∷ []) (
            head_lines
            ++ (mkdir_lines (sorted (directories_for_post_script_writes spec))
                ++ (chmod_lines tokens
                    ++ (packages
                        ++ (git_lines tokens spec.repos
                            ++ script_lines (user_script spec.environment)))))))
    ]
