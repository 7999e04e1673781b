-- ===== src/Scripts.antt =====
-- The shell text that src/agent_on_demand/session_service builds for a sandbox: the environment file of
-- provisioning/env_file.py and the commands of package_commands.py, skills_install.py. The spec is the
-- one of specs/types.py, its texts as lists of code points.
pub mod Provision
pub mod Blocks
pub mod Managers
pub mod Runs
pub mod EnvFile
use agent_on_demand.Prelude.{
  Bool, true, false, not, ◌||◌, Option, none, some, List, [], ◌∷◌, ◌++◌, map, if◌then◌else◌,
}
use agent_on_demand.Prelude.Text.{Text, codes, text_eq, text_le, join}
use agent_on_demand.Shell.{quote, join_quoted}

pub record Repo : Type 0 where
  pub url : Text
  pub mount_path : Text
  pub token : Option Text

-- Exactly one of `content` and `source` is set; an inline skill has a name.
pub data Skill : Type 0 where
  inline : Text → Text → Skill
  github : Text → Option Text → Skill

-- The ids are `str(…)` of what the rows hold, if they hold one.
pub record Env : Type 0 where
  pub id : Option Text
  pub packages : List (Text × List Text)
  pub env_vars : List (Text × Text)
  pub setup_script : Text

pub record Spec : Type 0 where
  pub runtime : Text
  pub skills_root : Option Text
  pub has_mcp_servers : Bool
  pub runtime_session_id : Option Text
  pub model : Text
  pub user_id : Option Text
  pub environment : Option Env
  pub repos : List Repo
  pub skills : List Skill
  pub secret_env_vars : List (Text × Text)

abbrev pub is_blank : Text → Bool
is_blank [] = true
is_blank (c ∷ cs) = false

-- `sorted(d.items())`: the keys of a dict differ.
unfoldable pub insert_item : Text × Text → List (Text × Text) → List (Text × Text)
insert_item x [] = x ∷ []
insert_item (k, v) ((j, w) ∷ ys) =
    let rest = insert_item (k, v) ys in if text_le k j then (k, v) ∷ (j, w) ∷ ys else (j, w) ∷ rest

unfoldable pub sorted_items : List (Text × Text) → List (Text × Text)
sorted_items [] = []
sorted_items (x ∷ xs) = insert_item x (sorted_items xs)

-- A falsy value skips the line.
abbrev pub given : Text → Text → List (Text × Text)
given k [] = []
given k (c ∷ cs) = (k, c ∷ cs) ∷ []

abbrev pub given_some : Text → Option Text → List (Text × Text)
given_some k none = []
given_some k (some v) = given k v

abbrev pub env_items : Option Env → List (Text × Text)
env_items none = []
env_items (some e) = sorted_items e.env_vars

-- The assignments of the file, in its order.
unfoldable pub assignments : List (Text × Text) → List (Text × Text) → Spec → List (Text × Text)
assignments credentials static spec =
    credentials
    ++ (static
        ++ (given_some (codes "AOD_SESSION_ID") spec.runtime_session_id
            ++ (given (codes "AOD_MODEL") spec.model
                ++ (env_items spec.environment ++ sorted_items spec.secret_env_vars))))

abbrev pub assignment : Text × Text → Text
assignment (k, v) = k ++ (b'=' ∷ quote v)

unfoldable pub build_env_file_body : List (Text × Text) → List (Text × Text) → Spec → Text
build_env_file_body credentials static spec =
    join (b'\n' ∷ []) (map assignment (assignments credentials static spec)) ++ b'\n' ∷ []

-- `none` is the ValueError.
unfoldable pub package_commands : Text → List Text → Option (List Text)
package_commands manager pkgs =
    if text_eq manager (codes "apt")
    then some ((codes "apt-get update -qq && apt-get install -y " ++ join_quoted pkgs) ∷ [])
    else if text_eq manager (codes "pip")
    then some ((codes "pip install " ++ join_quoted pkgs) ∷ [])
    else if text_eq manager (codes "npm")
    then some ((codes "npm install --global " ++ join_quoted pkgs) ∷ [])
    else if text_eq manager (codes "cargo")
    then some (map (λ p. codes "cargo install " ++ quote p) pkgs)
    else if text_eq manager (codes "gem")
    then some ((codes "gem install " ++ join_quoted pkgs) ∷ [])
    else if text_eq manager (codes "go")
    then some (map (λ p. codes "go install " ++ quote p) pkgs)
    else none

-- `if name: cmd += f" --skill {quote(name)}"`.
abbrev pub skill_option : Option Text → Text
skill_option none = []
skill_option (some []) = []
skill_option (some (c ∷ cs)) = codes " --skill " ++ quote (c ∷ cs)

unfoldable pub build_skills_install_command : Text → Text → Option Text → Text
build_skills_install_command source agent_id name =
    codes "npx -y skills@latest add "
    ++ (quote source
        ++ (codes " --global --agent "
            ++ (quote agent_id ++ (codes " --yes" ++ skill_option name))))
