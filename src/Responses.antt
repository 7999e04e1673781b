-- ===== src/Responses.antt =====
-- src/agent_on_demand/views/sessions/serializers.py: the JSON of a session and of a turn. `str` of a key
-- and `isoformat` are parameters, and so are the two times that the rows of Store leave out.
pub mod Counts
use agent_on_demand.Prelude.{
  ℕ, ◌==◌, ltb, ℤ, pos, String, Option, none, some, List, [], ◌∷◌, select, length, if◌then◌else◌,
}
use agent_on_demand.Prelude.Table.{Table}
use agent_on_demand.Json.{Json, null, int, str, arr, obj, Items, nil, cons, Fields, end, field}
use agent_on_demand.Providers.{provider_for_runtime}
use agent_on_demand.State.{Status, TurnStatus}
use agent_on_demand.Store.{Session, Turn, Resource, Agent, Store}

-- `agent` is the row behind `session.agent`, `none` where `agent_id` is null.
unfoldable pub session_provider : Session → Option Agent → String
session_provider session (some agent) = agent.provider
session_provider session none = elim (provider_for_runtime session.runtime) [
  | none ↦ session.runtime
  | some provider ↦ provider
]

unfoldable pub serialize_resource : Resource → Json
serialize_resource sr = obj (
    field "type" (str sr.resource_type)
      (field "url" (str sr.url) (field "mount_path" (str sr.mount_path) end)))

unfoldable pub serialize_resources : ℕ → List Resource → Items
serialize_resources id [] = nil
serialize_resources id (sr ∷ srs) =
    let rest = serialize_resources id srs in
    if sr.session == id then cons (serialize_resource sr) rest else rest

unfoldable pub newer : Turn → Option Turn → Turn
newer t none = t
newer t (some u) = if ltb t.turn_number u.turn_number then u else t

-- `session.turns.order_by("-turn_number").first()`.
unfoldable pub latest_turn : ℕ → Table Turn → Option Turn
latest_turn id [] = none
latest_turn id ((k, t) ∷ ts) =
    let latest = latest_turn id ts in if t.session == id then some (newer t latest) else latest

-- `session.turns.count()`.
unfoldable pub turn_count : ℕ → Table Turn → ℕ
turn_count id ts = length (select (λ row. row.1.session == id) ts)

abbrev pub status_text : Status → String
status_text Status.pending = "pending"
status_text Status.running = "running"
status_text Status.completed = "completed"
status_text Status.failed = "failed"
status_text Status.terminated = "terminated"

abbrev pub turn_status_text : TurnStatus → String
turn_status_text TurnStatus.pending = "pending"
turn_status_text TurnStatus.running = "running"
turn_status_text TurnStatus.completed = "completed"
turn_status_text TurnStatus.failed = "failed"

-- `f(x) if x else None`, of what is never empty.
abbrev pub or_null : {A : Type 0} → (A → Json) → Option A → Json
or_null f none = null
or_null f (some x) = f x

module _ (uuid_str isoformat : ℕ → String) where
  unfoldable pub serialize_session : ℕ → Session → Option Agent → ℕ → ℕ → Store → Fields
  serialize_session id session agent created_at updated_at w = field "id" (str (uuid_str id)) (
      field "agent_id" (or_null (λ a. str (uuid_str a)) session.agent) (
        field "environment_id" (or_null (λ e. str (uuid_str e)) session.environment) (
          field "provider" (str (session_provider session agent)) (
            field "status" (str (status_text session.status)) (
              field "exit_code" (or_null int session.exit_code) (
                field "created_at" (str (isoformat created_at)) (
                  field "updated_at" (str (isoformat updated_at)) (
                    field "resources" (arr (serialize_resources id w.resources)) (
                      field "turn_count" (int (pos (turn_count id w.turns))) (
                        field "current_turn"
                          (or_null (λ t. int (pos t.turn_number)) (latest_turn id w.turns))
                          end))))))))))

  unfoldable pub serialize_turn : Turn → ℕ → Fields
  serialize_turn turn created_at = field "turn_number" (int (pos turn.turn_number)) (
      field "prompt" (str turn.prompt) (
        field "status" (str (turn_status_text turn.status)) (
          field "exit_code" (or_null int turn.exit_code) (
            field "created_at" (str (isoformat created_at)) (
              field "started_at" (or_null (λ t. str (isoformat t)) turn.started_at)
                (field "ended_at" (or_null (λ t. str (isoformat t)) turn.ended_at) end))))))
