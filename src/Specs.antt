-- ===== src/Specs.antt =====
-- src/agent_on_demand/session_service/specs: the spec that is built from the rows of a session. The JSON
-- columns of the agent stay JSON values, and null stands for None. The decoder of crypto.py, the parser
-- of JSON and `str` are parameters.
pub mod Accepted
pub mod Skills
use text.Mathlib.Text.{◌==◌ as str_eq}
use agent_on_demand.Prelude.{
  ℕ, String, Bool, false, Option, none, some, List, [], ◌∷◌, if◌then◌else◌,
}
use agent_on_demand.Prelude.Result.{Result, ok, err, ◌>>=◌}
use agent_on_demand.Json.{
  Json, null, str, arr, obj, Items, nil, items, Fields, end, field, lookup, or_default,
}
use agent_on_demand.Runtimes.{Runtime}

-- KeyError, AttributeError or TypeError, and the two ValueErrors of a secret.
pub data SpecError : Type 0 where
  key_error : String → SpecError
  not_a_mapping undecryptable not_an_object : SpecError

pub record RepoSpec : Type 0 where
  pub url : String
  pub mount_path : String
  pub token : Option String

pub record McpServerSpec : Type 0 where
  pub name : Json
  pub type : Json
  pub url : Json
  pub headers : Json
  pub command : Json
  pub args : Json
  pub env : Json

pub record SkillSpec : Type 0 where
  pub name : Json
  pub content : Json
  pub source : Json

-- `d[k]`.
abbrev pub found : String → Option Json → Result SpecError Json
found k none = err (SpecError.key_error k)
found k (some v) = ok v

abbrev pub subscript : String → Fields → Result SpecError Json
subscript k d = found k (lookup k d)

unfoldable pub mcp_server_spec : Json → Result SpecError McpServerSpec
mcp_server_spec (obj s) = subscript "name" s >>= λ name. ok record {
  name = name;
  type = or_default (str "url") (lookup "type" s);
  url = or_default (str "") (lookup "url" s);
  headers = or_default (obj end) (lookup "headers" s);
  command = or_default (str "") (lookup "command" s);
  args = or_default (arr nil) (lookup "args" s);
  env = or_default (obj end) (lookup "env" s);
}
mcp_server_spec _ = err SpecError.not_a_mapping

-- `s.get("type") == "github"`.
abbrev pub is_github : Option Json → Bool
is_github (some (str t)) = str_eq t "github"
is_github _ = false

unfoldable pub skill_spec : Json → Result SpecError SkillSpec
skill_spec (obj s) =
    if is_github (lookup "type" s)
    then (subscript "source" s >>= λ source.
        ok record { name = or_default null (lookup "name" s); content = null; source = source })
    else (subscript "name" s >>= λ name. subscript "content" s >>= λ content.
        ok record { name = name; content = content; source = null })
skill_spec _ = err SpecError.not_a_mapping

-- A loop that appends, and stops where a round raises.
unfoldable pub each {ℓ κ μ} :
    {E : Type ℓ} {A : Type κ} {B : Type μ} → (A → Result E B) → List A → Result E (List B)
each f [] = ok []
each f (x ∷ xs) = f x >>= λ y. each f xs >>= λ ys. ok (y ∷ ys)

unfoldable pub mcp_server_specs : Items → Result SpecError (List McpServerSpec)
mcp_server_specs servers = each mcp_server_spec (items servers)

unfoldable pub skill_specs : Items → Result SpecError (List SkillSpec)
skill_specs skills = each skill_spec (items skills)

-- What the factory reads of the rows.
pub record ResourceRow : Type 0 where
  pub url : String
  pub mount_path : String
  pub encrypted_token : List ℕ

pub record AgentRow : Type 0 where
  pub model : String
  pub mcp_servers : Items
  pub skills : Items

pub record SessionRow : Type 0 where
  pub backend_handle : String
  pub runtime : String
  pub user : ℕ
  pub runtime_session_id : Option String
  pub environment : Option ℕ
  pub agent : Option AgentRow
  pub resources : List ResourceRow
  pub secret_env_vars : Option (List ℕ)
  pub backend : String

pub record SessionSpec : Type 0 where
  pub name : String
  pub runtime : Runtime
  pub model : String
  pub user : ℕ
  pub runtime_session_id : Option String
  pub environment : Option ℕ
  pub repos : List RepoSpec
  pub mcp_servers : List McpServerSpec
  pub skills : List SkillSpec
  pub secret_env_vars : List (String × String)
  pub backend : String

-- RUNTIMES.
unfoldable pub runtime_named : String → Result SpecError Runtime
runtime_named r =
    if str_eq r "claude"
    then ok Runtime.claude
    else if str_eq r "codex"
    then ok Runtime.codex
    else if str_eq r "gemini"
    then ok Runtime.gemini
    else if str_eq r "opencode"
    then ok Runtime.opencode
    else err (SpecError.key_error r)

-- `agent.mcp_servers or []` and the like, for a session whose agent is gone.
abbrev pub mcp_servers_of : Option AgentRow → Items
mcp_servers_of none = nil
mcp_servers_of (some a) = a.mcp_servers

abbrev pub skills_of : Option AgentRow → Items
skills_of none = nil
skills_of (some a) = a.skills

abbrev pub model_of : Option AgentRow → String
model_of none = ""
model_of (some a) = a.model

module _ (decrypt : List ℕ → Option String) (loads : String → Option Json)
    (as_str : Json → String) where
  -- A ciphertext that does not open is a ValueError.
  abbrev pub opened : List ℕ → Result SpecError String
  opened c = elim (decrypt c) [ none ↦ err SpecError.undecryptable | some t ↦ ok t ]

  abbrev pub get_token : List ℕ → Result SpecError (Option String)
  get_token [] = ok none
  get_token (c ∷ cs) = opened (c ∷ cs) >>= λ t. ok (some t)

  abbrev pub repo_spec : ResourceRow → Result SpecError RepoSpec
  repo_spec r = get_token r.encrypted_token >>= λ token.
      ok record { url = r.url; mount_path = r.mount_path; token = token }

  unfoldable pub strings : Fields → List (String × String)
  strings end = []
  strings (field k v fs) = (k, as_str v) ∷ strings fs

  abbrev pub object_of : Option Json → Result SpecError (List (String × String))
  object_of (some (obj fs)) = ok (strings fs)
  object_of _ = err SpecError.not_an_object

  abbrev pub get_env_vars : Option (List ℕ) → Result SpecError (List (String × String))
  get_env_vars none = ok []
  get_env_vars (some c) = opened c >>= λ t. object_of (loads t)

  unfoldable pub build_spec_for_session : SessionRow → Result SpecError SessionSpec
  build_spec_for_session session =
      mcp_server_specs (mcp_servers_of session.agent) >>= λ mcp_servers.
      skill_specs (skills_of session.agent) >>= λ skills.
      each repo_spec session.resources >>= λ repos.
      get_env_vars session.secret_env_vars >>= λ secret_env_vars.
      runtime_named session.runtime >>= λ runtime. ok record {
        name = session.backend_handle;
        runtime = runtime;
        model = model_of session.agent;
        user = session.user;
        runtime_session_id = session.runtime_session_id;
        environment = session.environment;
        repos = repos;
        mcp_servers = mcp_servers;
        skills = skills;
        secret_env_vars = secret_env_vars;
        backend = session.backend;
      }
