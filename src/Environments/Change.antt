-- ===== src/Environments/Change.antt =====
-- PUT, archive and DELETE of src/agent_on_demand/views/environments.py, and the histories of the
-- registry.
use agent_on_demand.Prelude.{
  ℕ, ◌==◌, ◌≡◌, String, Bool, true, false, not, Option, none, some, List, ◌∷◌, select, any,
  if◌then◌else◌,
}
use agent_on_demand.Prelude.Result.{Result, ok, err}
use agent_on_demand.Prelude.Table.{get, modify, remove}
use agent_on_demand.Http.{Response, error, deleted}
use agent_on_demand.Environments.{
  Content, Row, Snapshot, Registry, CreateRequest, UpdateRequest, check_version_match, find_owned,
  snapshot, is_taken, name_conflict, environments_create, apply_update, bumped,
}

-- The `environment` column of a session that refers to this row.
abbrev pub refers : ℕ → Option ℕ → Bool
refers id none = false
refers id (some e) = e == id

unfoldable pub is_in_use : ℕ → List (Option ℕ) → Bool
is_in_use id sessions = any (refers id) sessions

-- ON DELETE CASCADE of the snapshots.
unfoldable pub without_snapshots : ℕ → List Snapshot → List Snapshot
without_snapshots id ss = select (λ s. not (s.environment == id)) ss

abbrev pub archived_row : Row → Row
archived_row r = record r { is_archived = true }

-- The save of a changed row, and its snapshot.
unfoldable pub update_rows : ℕ → Content → Row → Registry → Registry
update_rows id c r w = record w {
  rows = modify id (λ old. bumped c r) w.rows;
  snapshots = snapshot id (bumped c r) ∷ w.snapshots;
}

module _ (repr : Option String → String) where
  -- A save that breaks the constraint is rolled back with the whole transaction.
  unfoldable pub update_locked : ℕ → UpdateRequest → Row → Registry → Registry × Result Response Row
  update_locked id req r w =
      let (c, changed) = apply_update req r.content in
      if changed
      then (if is_taken r.user c.name id w.rows
          then (w, err (name_conflict (repr req.name)))
          else (update_rows id c r w, ok (bumped c r)))
      else (w, ok r)

  -- PUT, all of it under the row's lock.
  unfoldable pub environment_update :
      ℕ → ℕ → UpdateRequest → Registry → Registry × Result Response Row
  environment_update user id req w = elim (find_owned user id w.rows) [
    | none ↦ (w, err (error 404 "Environment not found"))
    | some r ↦
        if r.is_archived
        then (w, err (error 409 "Cannot update an archived environment"))
        else elim (check_version_match req.version r.version) [
          | some e ↦ (w, err e)
          | none ↦ update_locked id req r w
        ]
  ]

-- There is no transaction: the checks are on the registry `pre` of the read, the save on `w`. A save of
-- a row that is gone writes nothing.
unfoldable pub environment_archive : ℕ → ℕ → Registry → Registry → Registry × Result Response Row
environment_archive user id pre w = elim (find_owned user id pre.rows) [
  | none ↦ (w, err (error 404 "Environment not found"))
  | some r ↦
      if r.is_archived
      then (w, err (error 409 "Environment is already archived"))
      else (record w { rows = modify id archived_row w.rows }, ok (archived_row r))
]

unfoldable pub environment_delete : ℕ → ℕ → Registry → Registry × Response
environment_delete user id w = elim (find_owned user id w.rows) [
  | none ↦ (w, error 404 "Environment not found")
  | some r ↦
      if is_in_use id w.sessions
      then (w, error 409 "Cannot delete environment with existing sessions")
      else (
        record w { rows = remove id w.rows; snapshots = without_snapshots id w.snapshots },
        deleted id,
      )
]

-- One commit: a request, under a fresh key where it creates a row, or a change of the session rows.
pub data Change (repr : Option String → String) (w u : Registry) : Type 0 where
  creates :
      (user id : ℕ) (req : CreateRequest)
      → get id w.rows ≡ none
      → u ≡ (environments_create repr user id req w).0
      → Change repr w u
  updates :
      (user id : ℕ) (req : UpdateRequest)
      → u ≡ (environment_update repr user id req w).0
      → Change repr w u
  archives :
      (user id : ℕ) (pre : Registry) → u ≡ (environment_archive user id pre w).0 → Change repr w u
  deletes : (user id : ℕ) → u ≡ (environment_delete user id w).0 → Change repr w u
  relates : (sessions : List (Option ℕ)) → u ≡ record w { sessions = sessions } → Change repr w u

pub data Changes (repr : Option String → String) (w : Registry) : Registry → Type 0 where
  here : Changes repr w w
  next : {u v : Registry} → Changes repr w u → Change repr u v → Changes repr w v
