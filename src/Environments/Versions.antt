-- ===== src/Environments/Versions.antt =====
-- The reads of src/agent_on_demand/views/environments.py: one environment, the active ones of a user, and the
-- versions of one. A response shows rows and snapshots as they are.
use agent_on_demand.Prelude.{
  ℕ, ◌==◌, leb, not, ◌&&◌, none, some, List, [], ◌∷◌, select, if◌then◌else◌,
}
use agent_on_demand.Prelude.Result.{Result, ok, err}
use agent_on_demand.Http.{Response, error}
use agent_on_demand.Environments.{Row, Snapshot, Registry, find_owned}

-- GET of one.
unfoldable pub environment_get : ℕ → ℕ → Registry → Result Response Row
environment_get user id w = elim (find_owned user id w.rows) [
  | none ↦ err (error 404 "Environment not found")
  | some r ↦ ok r
]

-- GET of all; a creation puts its row in front, so the newest comes first.
unfoldable pub environments_list : ℕ → Registry → List (ℕ × Row)
environments_list user w = select (λ p. p.1.user == user && not p.1.is_archived) w.rows

-- `filter(environment=env).order_by("-version")`.
unfoldable pub insert_snapshot : Snapshot → List Snapshot → List Snapshot
insert_snapshot s [] = s ∷ []
insert_snapshot s (t ∷ ts) =
    let rest = insert_snapshot s ts in if leb t.version s.version then s ∷ t ∷ ts else t ∷ rest

unfoldable pub by_version : List Snapshot → List Snapshot
by_version [] = []
by_version (s ∷ ss) = insert_snapshot s (by_version ss)

unfoldable pub environment_versions : ℕ → ℕ → Registry → Result Response (List Snapshot)
environment_versions user id w = elim (find_owned user id w.rows) [
  | none ↦ err (error 404 "Environment not found")
  | some r ↦ ok (by_version (select (λ s. s.environment == id) w.snapshots))
]
