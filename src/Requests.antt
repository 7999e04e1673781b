-- ===== src/Requests.antt =====
-- The requests of src/agent_on_demand/views/sessions that change rows. Each takes the store that its
-- transaction sees and returns the committed store with the response.
pub mod Create
pub mod Prompt
pub mod End
pub mod Cases
pub mod Limits
use agent_on_demand.Prelude.{ℕ, ◌==◌, String, Option, none, some, if◌then◌else◌}
use agent_on_demand.Prelude.Table.{Table, get}
use agent_on_demand.Store.{Session}

-- `AgentSession.objects.get(pk=id, user=user)`.
unfoldable pub get_owned : ℕ → ℕ → Table Session → Option Session
get_owned user id t = elim (get id t) [
  | none ↦ none
  | some s ↦ if s.user == user then some s else none
]
