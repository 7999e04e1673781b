-- ===== src/Agents/Update.antt =====
-- PUT and archive of src/agent_on_demand/views/agents.py.
use text.Mathlib.Text.{◌==◌ as str_eq}
use agent_on_demand.Prelude.{
  ℕ, ◌+◌, ◌==◌, Bool, true, false, ◌||◌, Option, none, some, [], ◌∷◌, if◌then◌else◌,
}
use agent_on_demand.Prelude.Result.{Result, ok, err}
use agent_on_demand.Prelude.Table.{Table, get, modify}
use agent_on_demand.Prelude.Text.{Text, text_eq}
use agent_on_demand.Http.{error}
use agent_on_demand.Json.{Items, arr, obj, Fields, json_eq}
use agent_on_demand.Metadata.{merge_metadata}
use agent_on_demand.Environments
use agent_on_demand.Environments.{check_version_match, apply}
use agent_on_demand.Agents.{
  Content, Agent, Agents, UpdateAgentRequest, Refusal, normalize_provider_model, snapshot_version,
  resolve_environment,
}

-- `Agent.objects.get(pk=id, user=user)`.
unfoldable pub find_agent : ℕ → ℕ → Table Agent → Option Agent
find_agent user id t = elim (get id t) [
  | none ↦ none
  | some a ↦ if a.user == user then some a else none
]

-- `req.provider or agent.provider`.
abbrev pub or_stored : Option Text → Text → Text
or_stored none old = old
or_stored (some []) old = old
or_stored (some (c ∷ cs)) old = c ∷ cs

abbrev items_eq : Items → Items → Bool
items_eq a b = json_eq (arr a) (arr b)

abbrev fields_eq : Fields → Fields → Bool
fields_eq a b = json_eq (obj a) (obj b)

abbrev assign_environment : ℕ → Option ℕ → Option ℕ × Bool
assign_environment e none = (some e, true)
assign_environment e (some old) = if e == old then (some old, false) else (some e, true)

-- An explicit null detaches the environment.
abbrev pub apply_environment : Option (Option ℕ) → Option ℕ → Option ℕ × Bool
apply_environment none old = (old, false)
apply_environment (some none) none = (none, false)
apply_environment (some none) (some old) = (none, true)
apply_environment (some (some e)) old = assign_environment e old

abbrev apply_metadata : Option Fields → Fields → Fields × Bool
apply_metadata none old = (old, false)
apply_metadata (some patch) old = apply fields_eq (some (merge_metadata old patch)) old

-- The columns after the tests of PUT, and `changed`.
unfoldable pub apply_update : UpdateAgentRequest → Text × Text → Content → Content × Bool
apply_update req (provider, model) c =
    let environment = apply_environment req.environment_id c.environment in
    let name = apply str_eq req.name c.name in
    let new_provider = apply text_eq (some provider) c.provider in
    let new_model = apply text_eq (some model) c.model in
    let system = apply str_eq req.system c.system in
    let description = apply str_eq req.description c.description in
    let skills = apply items_eq req.skills c.skills in
    let mcp_servers = apply items_eq req.mcp_servers c.mcp_servers in
    let metadata = apply_metadata req.metadata c.metadata in
    (
      record {
        name = name.0;
        description = description.0;
        system = system.0;
        provider = new_provider.0;
        model = new_model.0;
        environment = environment.0;
        skills = skills.0;
        mcp_servers = mcp_servers.0;
        metadata = metadata.0;
      },
      environment.1 || name.1 || new_provider.1 || new_model.1 || system.1 || description.1
          || skills.1 || mcp_servers.1 || metadata.1,
    )

abbrev pub bumped : Content → Agent → Agent
bumped c a = record a { content = c; version = a.version + 1 }

-- The save of a changed row, and its snapshot.
unfoldable pub save_version : ℕ → Content → Agent → Agents → Agents
save_version id c a w = record w {
  rows = modify id (λ old. bumped c a) w.rows;
  versions = snapshot_version id (bumped c a) ∷ w.versions;
}

unfoldable pub update_normalized :
    ℕ → UpdateAgentRequest → Agent → Text × Text → Agents → Agents × Result Refusal Agent
update_normalized id req a pm w =
    let (c, changed) = apply_update req pm a.content in
    if changed then (save_version id c a w, ok (bumped c a)) else (w, ok a)

-- Under the row's lock.
unfoldable pub update_locked : ℕ → ℕ → UpdateAgentRequest → Agents → Agents × Result Refusal Agent
update_locked user id req w = elim (find_agent user id w.rows) [
  | none ↦ (w, err (Refusal.refused (error 404 "Agent not found")))
  | some a ↦
      if a.is_archived
      then (w, err (Refusal.refused (error 409 "Cannot update an archived agent")))
      else elim (check_version_match req.version a.version) [
        | some e ↦ (w, err (Refusal.refused e))
        | none ↦
            elim (normalize_provider_model (or_stored req.provider a.content.provider)
              (or_stored req.model a.content.model)) [
                | err e ↦ (w, err (Refusal.unprocessable e))
                | ok pm ↦ update_normalized id req a pm w
              ]
      ]
]

-- The environment that a request names.
abbrev pub wanted : Option (Option ℕ) → Option ℕ
wanted none = none
wanted (some o) = o

-- PUT. The environment is resolved before the lock, in the table of that time.
unfoldable pub agent_update :
    ℕ → ℕ → UpdateAgentRequest → Table Environments.Row → Agents → Agents × Result Refusal Agent
agent_update user id req envs w = elim (resolve_environment user (wanted req.environment_id) envs) [
  | err e ↦ (w, err e)
  | ok environment ↦ update_locked user id req w
]

abbrev pub archived_agent : Agent → Agent
archived_agent a = record a { is_archived = true }

-- There is no transaction: the checks are on the row of an earlier read, the save on `w`.
unfoldable pub agent_archive : ℕ → ℕ → Agents → Agents → Agents × Result Refusal Agent
agent_archive user id pre w = elim (find_agent user id pre.rows) [
  | none ↦ (w, err (Refusal.refused (error 404 "Agent not found")))
  | some a ↦
      if a.is_archived
      then (w, err (Refusal.refused (error 409 "Agent is already archived")))
      else (record w { rows = modify id archived_agent w.rows }, ok (archived_agent a))
]
