-- ===== src/Agents.antt =====
-- src/agent_on_demand/views/agents.py: the versioned rows of src/agent_on_demand/models/agents.py, and
-- `normalize_provider_model` of providers.py. The provider and the model are lists of code points. The
-- JSON columns are the items of an array and the fields of an object. An environment of a request is
-- looked up in the table of Environments before the transaction.
pub mod Update
pub mod Bumps
pub mod Prefixes
use text.Mathlib.Text.{◌==◌ as str_eq}
use agent_on_demand.Prelude.{
  ℕ, ◌+◌, ◌==◌, String, Bool, true, false, not, ◌&&◌, ◌||◌, Option, none, some, List, [], ◌∷◌,
  if◌then◌else◌,
}
use agent_on_demand.Prelude.Result.{Result, ok, err, ◌>>=◌}
use agent_on_demand.Prelude.Table.{Table, get}
use agent_on_demand.Prelude.Text.{Text, codes, text_eq, strip}
use agent_on_demand.Http.{Response, error}
use agent_on_demand.Json.{Json, Items, arr, obj, Fields, json_eq}
use agent_on_demand.Environments
use agent_on_demand.Scripts.{is_blank}

-- The ValueErrors of `normalize_provider_model`.
pub data ModelError : Type 0 where
  unknown_provider : Text → ModelError
  blank_model : ModelError
  other_prefix : Text → Text → ModelError

-- `s.partition("/")`: the head and, if there is a slash, the rest.
unfoldable pub partition : Text → Text × Option Text
partition [] = ([], none)
partition (c ∷ cs) =
    let (head, rest) = partition cs in if c == b'/' then ([], some cs) else (c ∷ head, rest)

-- SUPPORTED_PROVIDERS.
unfoldable pub is_supported : Text → Bool
is_supported p = text_eq p (codes "anthropic") || text_eq p (codes "openai")

-- KNOWN_PROVIDER_PREFIXES.
unfoldable pub is_known_prefix : Text → Bool
is_known_prefix p =
    text_eq p (codes "anthropic")
    || text_eq p (codes "openai")
    || text_eq p (codes "google")
    || text_eq p (codes "kimi")

abbrev pub named_model : Text → Text → Result ModelError (Text × Text)
named_model provider model =
    if is_blank model then err ModelError.blank_model else ok (provider, model)

abbrev pub unprefixed : Text → Text → Text × Option Text → Result ModelError (Text × Text)
unprefixed provider model (prefix, none) = ok (provider, model)
unprefixed provider model (prefix, some suffix) =
    if is_known_prefix prefix
    then (if text_eq prefix provider
        then named_model provider (strip suffix)
        else err (ModelError.other_prefix prefix provider))
    else ok (provider, model)

abbrev pub normalize_stripped : Text → Text → Result ModelError (Text × Text)
normalize_stripped provider model =
    if is_supported provider
    then (if is_blank model
        then err ModelError.blank_model
        else unprefixed provider model (partition model))
    else err (ModelError.unknown_provider provider)

unfoldable pub normalize_provider_model : Text → Text → Result ModelError (Text × Text)
normalize_provider_model provider model = normalize_stripped (strip provider) (strip model)

pub record Content : Type 0 where
  pub name : String
  pub description : String
  pub system : String
  pub provider : Text
  pub model : Text
  pub environment : Option ℕ
  pub skills : Items
  pub mcp_servers : Items
  pub metadata : Fields

pub record Agent : Type 0 where
  pub user : ℕ
  pub content : Content
  pub version : ℕ
  pub is_archived : Bool

-- AgentVersion.
pub record AgentVersion : Type 0 where
  pub agent : ℕ
  pub version : ℕ
  pub content : Content

-- The two tables, the versions newest first.
pub record Agents : Type 0 where
  pub rows : Table Agent
  pub versions : List AgentVersion

-- The bodies that have passed their validators. In an update the environment is absent, null or an id.
pub record CreateAgentRequest : Type 0 where
  pub name : String
  pub provider : Text
  pub model : Text
  pub system : String
  pub description : String
  pub environment_id : Option ℕ
  pub skills : Items
  pub mcp_servers : Items
  pub metadata : Fields

pub record UpdateAgentRequest : Type 0 where
  pub version : ℕ
  pub name : Option String
  pub provider : Option Text
  pub model : Option Text
  pub system : Option String
  pub description : Option String
  pub environment_id : Option (Option ℕ)
  pub skills : Option Items
  pub mcp_servers : Option Items
  pub metadata : Option Fields

-- 422 with the text of a ValueError, or another response.
pub data Refusal : Type 0 where
  unprocessable : ModelError → Refusal
  refused : Response → Refusal

-- `_snapshot_version`.
abbrev pub snapshot_version : ℕ → Agent → AgentVersion
snapshot_version id a = record { agent = id; version = a.version; content = a.content }

-- The environment of the request: of this user, and not archived.
unfoldable pub resolve_environment :
    ℕ → Option ℕ → Table Environments.Row → Result Refusal (Option ℕ)
resolve_environment user none envs = ok none
resolve_environment user (some id) envs = elim (Environments.find_owned user id envs) [
  | none ↦ err (Refusal.refused (error 404 "Environment not found"))
  | some e ↦
      if e.is_archived
      then err (Refusal.refused (error 409 "Cannot assign an archived environment to an agent"))
      else ok (some id)
]

abbrev pub new_agent : ℕ → CreateAgentRequest → Text → Text → Option ℕ → Agent
new_agent user req provider model environment = record {
  user = user;
  content = record {
    name = req.name;
    description = req.description;
    system = req.system;
    provider = provider;
    model = model;
    environment = environment;
    skills = req.skills;
    mcp_servers = req.mcp_servers;
    metadata = req.metadata;
  };
  version = 1;
  is_archived = false;
}

abbrev pub insert_agent : ℕ → Agent → Agents → Agents × Result Refusal Agent
insert_agent id a w =
    (record { rows = (id, a) ∷ w.rows; versions = snapshot_version id a ∷ w.versions }, ok a)

abbrev pub created :
    ℕ
    → ℕ
    → CreateAgentRequest
    → Agents
    → Text × Text
    → Result Refusal (Option ℕ)
    → Agents × Result Refusal Agent
created user id req w pm (err e) = (w, err e)
created user id req w (provider, model) (ok environment) =
    insert_agent id (new_agent user req provider model environment) w

-- POST.
unfoldable pub agents_create :
    ℕ → ℕ → CreateAgentRequest → Table Environments.Row → Agents → Agents × Result Refusal Agent
agents_create user id req envs w = elim (normalize_provider_model req.provider req.model) [
  | err e ↦ (w, err (Refusal.unprocessable e))
  | ok pm ↦ created user id req w pm (resolve_environment user req.environment_id envs)
]
