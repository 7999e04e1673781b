-- ===== src/Requests/Create.antt =====
-- `_create_session` of src/agent_on_demand/views/sessions/create.py. An id that is no UUID is one that
-- names no row; an `environment_id` of null or "" is `none`.
use Prim.Native.String.{◌++◌ as str_append}
use text.Mathlib.Text.{◌==◌ as str_eq}
use agent_on_demand.Prelude.{
  ℕ, suc, ◌+◌, ◌==◌, leb, String, Bool, Option, none, some, List, [], ◌∷◌, ◌++◌, map, if◌then◌else◌,
}
use agent_on_demand.Prelude.Result.{Result, ok, err, ◌>>=◌}
use agent_on_demand.Prelude.Table.{Table, get}
use agent_on_demand.Http.{Response, error, limit_reached, accepted}
use agent_on_demand.State.{Status, TurnStatus}
use agent_on_demand.Store.{
  Session, Turn, Resource, Encrypted, SecretEnvVars, Agent, Environment, Mode, Point, Job, Store,
}
use agent_on_demand.Store.Quota.{active_session_count_for}
use agent_on_demand.Providers.{runtime_for_provider, unknown_provider}

-- A GitHubRepoResource that has passed its validators, with its resolved mount path.
pub record ResourceRequest : Type 0 where
  pub type : String
  pub url : String
  pub resolved_mount_path : String
  pub authorization_token : Option String

pub record RunRequest : Type 0 where
  pub agent_id : ℕ
  pub prompt : String
  pub timeout : ℕ
  pub environment_id : Option ℕ
  pub resources : List ResourceRequest
  pub secret_env_vars : List (String × String)

-- src/config/settings.py.
pub record Settings : Type 0 where
  pub sprites_api_key : Option String
  pub sprite_name_prefix : String
  pub default_max_concurrent_sessions : ℕ

-- What the request draws: the session's uuid4 key, the hex digits of its name, its runtime's id.
pub record Draw : Type 0 where
  pub id : ℕ
  pub hex : String
  pub runtime_session_id : String

-- `get_client() is None`: the token is unset or empty.
abbrev pub has_client : Settings → Bool
has_client cfg = elim cfg.sprites_api_key [
  | none ↦ Bool.false
  | some t ↦ if str_eq t "" then Bool.false else Bool.true
]

unfoldable pub find_agent : ℕ → ℕ → Table Agent → Result Response Agent
find_agent user id t = elim (get id t) [
  | none ↦ err (error 404 "Agent not found")
  | some a ↦
      if a.user == user
      then (if a.is_archived
          then err (error 409 "Cannot create session with archived agent")
          else ok a)
      else err (error 404 "Agent not found")
]

unfoldable pub find_environment : ℕ → Option ℕ → Table Environment → Result Response (Option ℕ)
find_environment user none t = ok none
find_environment user (some id) t = elim (get id t) [
  | none ↦ err (error 404 "Environment not found")
  | some e ↦
      if e.user == user
      then (if e.is_archived
          then err (error 409 "Cannot create session with archived environment")
          else ok (some id))
      else err (error 404 "Environment not found")
]

-- `req.environment_id or agent_obj.environment_id`.
abbrev pub or_else : Option ℕ → Option ℕ → Option ℕ
or_else none d = d
or_else (some e) d = some e

-- What the checks before the transaction settle.
pub record Plan : Type 0 where
  pub agent : Agent
  pub environment : Option ℕ
  pub runtime : String

unfoldable pub plan : Settings → ℕ → RunRequest → Store → Result Response Plan
unfolding find_agent find_environment
plan cfg user req w = do
  a ← find_agent user req.agent_id w.agents
  e ← find_environment user (or_else req.environment_id a.environment) w.environments
  runtime ← elim (runtime_for_provider a.provider) [
    | none ↦ err (error 422 (unknown_provider a.provider))
    | some r ↦ ok r
  ]
  if has_client cfg
      then ok (record { agent = a; environment = e; runtime = runtime })
      else err (error 503 "Session backend is not configured")

-- `UserQuota.objects.get_or_create(user=user)`.
unfoldable pub ensure_quota : ℕ → Table (Option ℕ) → Table (Option ℕ)
ensure_quota user t = elim (get user t) [ none ↦ (user, none) ∷ t | some q ↦ t ]

-- `locked_quota.max_concurrent_sessions or settings.DEFAULT_MAX_CONCURRENT_SESSIONS`: 0 is falsy.
abbrev pub max_or_default : Option (Option ℕ) → ℕ → ℕ
max_or_default (some (some (suc n))) d = suc n
max_or_default _ d = d

unfoldable pub locked_max : Settings → ℕ → Store → ℕ
unfolding ensure_quota
locked_max cfg user w =
    max_or_default (get user (ensure_quota user w.quotas)) cfg.default_max_concurrent_sessions

abbrev pub effective_prompt : Agent → String → String
effective_prompt a prompt =
    if str_eq a.system "" then prompt else str_append a.system (str_append "\n\n" prompt)

abbrev new_resource : ℕ → ResourceRequest → Resource
new_resource id r = record {
  session = id;
  resource_type = r.type;
  url = r.url;
  mount_path = r.resolved_mount_path;
  encrypted_token = elim r.authorization_token [
    | none ↦ none
    | some t ↦ if str_eq t "" then none else some (Encrypted.encrypt t)
  ];
}

abbrev new_secrets : ℕ → List (String × String) → List SecretEnvVars
new_secrets id [] = []
new_secrets id (v ∷ vs) =
    record { session = id; encrypted_env_vars = Encrypted.encrypt (v ∷ vs) } ∷ []

-- The rows that the transaction creates below the quota check, and the job.
unfoldable pub create_rows : Settings → ℕ → Draw → RunRequest → Plan → Store → Store
create_rows cfg user draw req p w = record w {
  sessions = (draw.id, session) ∷ w.sessions;
  turns = (w.next_turn, turn) ∷ w.turns;
  next_turn = w.next_turn + 1;
  secrets = w.secrets ++ new_secrets draw.id req.secret_env_vars;
  resources = w.resources ++ map (new_resource draw.id) req.resources;
  quotas = ensure_quota user w.quotas;
  jobs = w.jobs ++ job ∷ [];
}
  where
    session : Session
    session = record {
      user = user;
      agent = some req.agent_id;
      environment = p.environment;
      runtime = p.runtime;
      prompt = req.prompt;
      backend_handle = str_append cfg.sprite_name_prefix (str_append "-" draw.hex);
      runtime_session_id = draw.runtime_session_id;
      status = Status.pending;
      exit_code = none;
    }

    turn : Turn
    turn = record {
      session = draw.id;
      turn_number = 1;
      prompt = req.prompt;
      status = TurnStatus.pending;
      exit_code = none;
      started_at = none;
      ended_at = none;
    }

    job : Job
    job = record {
      session = draw.id;
      turn = w.next_turn;
      prompt = effective_prompt p.agent req.prompt;
      mode = Mode.run;
      timeout = req.timeout;
      point = Point.provision_queued;
    }

-- The transaction. The quota row that `get_or_create` made stays, also behind a 429.
unfoldable pub create_locked : Settings → ℕ → Draw → RunRequest → Plan → Store → Store × Response
create_locked cfg user draw req p w =
    let locked_count = active_session_count_for user w.sessions in
    if leb (locked_max cfg user w) locked_count
    then (
      record w { quotas = ensure_quota user w.quotas },
      limit_reached locked_count (locked_max cfg user w),
    )
    else (create_rows cfg user draw req p w, accepted draw.id 1)

-- The checks run on the store `pre` of the request's start, the transaction on the store `w`.
unfoldable pub create_session :
    Settings → ℕ → Draw → Result Response RunRequest → Store → Store → Store × Response
unfolding create_locked
create_session cfg user draw (err r) pre w = (w, r)
create_session cfg user draw (ok req) pre w = elim (plan cfg user req pre) [
  | err r ↦ (w, r)
  | ok p ↦ create_locked cfg user draw req p w
]
