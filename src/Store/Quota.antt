-- ===== src/Store/Quota.antt =====
-- src/agent_on_demand/models/quota.py.
use agent_on_demand.Prelude.{ℕ, ◌+◌, ◌==◌, Bool, ◌&&◌, [], ◌∷◌, if◌then◌else◌}
use agent_on_demand.Prelude.Table.{Table}
use agent_on_demand.State.{is_active}
use agent_on_demand.Store.{Session}

-- `filter(user=user, status__in=ACTIVE_SESSION_STATUSES)`.
abbrev pub is_active_of : ℕ → Session → Bool
is_active_of user s = s.user == user && is_active s.status

unfoldable pub active_session_count_for : ℕ → Table Session → ℕ
active_session_count_for user [] = 0
active_session_count_for user ((id, s) ∷ t) =
    (if is_active_of user s then 1 else 0) + active_session_count_for user t
