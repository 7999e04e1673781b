-- ===== src/Environments/Cases.antt =====
-- The branches of the requests of Change.antt: each keeps the registry or moves it as it says.
use agent_on_demand.Http.{Response}
use agent_on_demand.Prelude.{
  true, ◌⊎◌, ◌≢◌, ℕ, ◌≡◌, String, false, Option, none, some, arith, Bool-cases, Option-cases, inl,
  inr,
}
use agent_on_demand.Prelude.Table.{get, modify, remove}
use agent_on_demand.Environments.{
  Row, Registry, UpdateRequest, check_version_match, find_owned, is_taken, apply_update,
}
use agent_on_demand.Environments.Change.{
  archived_row, update_rows, update_locked, environment_update, environment_archive,
  environment_delete, is_in_use, without_snapshots,
}

pub get-of_find_owned :
    (user id : ℕ) (w : Registry) (r : Row)
    → find_owned user id w.rows ≡ some r
    → get id w.rows ≡ some r
unfolding find_owned
get-of_find_owned user id w r e = ground arith

-- Why an update, an archive and a deletion write nothing.
abbrev pub UpdateRefused : ℕ → ℕ → UpdateRequest → Registry → Type 0
UpdateRefused user id req w =
    (find_owned user id w.rows ≡ none)
    ⊎ ((r : Row) × (find_owned user id w.rows ≡ some r)
        × ((r.is_archived ≡ true)
            ⊎ ((req.version ≢ r.version)
                ⊎ (((apply_update req r.content).1 ≡ false)
                    ⊎ (is_taken r.user (apply_update req r.content).0.name id w.rows ≡ true)))))

abbrev pub ArchiveRefused : ℕ → ℕ → Registry → Type 0
ArchiveRefused user id pre =
    (find_owned user id pre.rows ≡ none)
    ⊎ ((r : Row) × (find_owned user id pre.rows ≡ some r) × (r.is_archived ≡ true))

abbrev pub DeleteRefused : ℕ → ℕ → Registry → Type 0
DeleteRefused user id w = (find_owned user id w.rows ≡ none) ⊎ (is_in_use id w.sessions ≡ true)

mismatched : (m n : ℕ) (x : Response) → check_version_match m n ≡ some x → m ≢ n
unfolding check_version_match
mismatched m n x e same = ground (arith, e, same)

module _ (P : Registry → Type 0) (w : Registry) where
  locked_cases :
      (repr : Option String → String) (id : ℕ) (req : UpdateRequest) (r : Row)
      → ((apply_update req r.content).1 ≡ false → P w)
      → (is_taken r.user (apply_update req r.content).0.name id w.rows ≡ true → P w)
      → ((apply_update req r.content).1 ≡ true
          → is_taken r.user (apply_update req r.content).0.name id w.rows ≡ false
          → P (update_rows id (apply_update req r.content).0 r w))
      → P (update_locked repr id req r w).0
  unfolding update_locked
  locked_cases repr id req r unchanged taken moved =
      elim (Bool-cases (apply_update req r.content).1) [
        | inl e ↦
            elim (Bool-cases (is_taken r.user (apply_update req r.content).0.name id w.rows)) [
              | inl t ↦ rw (e, t, update_locked) (taken t)
              | inr f ↦ rw (e, f, update_locked) (moved e f)
            ]
        | inr e ↦ rw (e, update_locked) (unchanged e)
      ]

  pub update_cases :
      (repr : Option String → String) (user id : ℕ) (req : UpdateRequest)
      → (UpdateRefused user id req w → P w)
      → ((r : Row)
          → find_owned user id w.rows ≡ some r
          → r.is_archived ≡ false
          → check_version_match req.version r.version ≡ none
          → (apply_update req r.content).1 ≡ true
          → is_taken r.user (apply_update req r.content).0.name id w.rows ≡ false
          → P (update_rows id (apply_update req r.content).0 r w))
      → P (environment_update repr user id req w).0
  unfolding environment_update
  update_cases repr user id req kept moved = elim (Option-cases (find_owned user id w.rows)) [
    | inl e ↦ rw (e, environment_update) (kept (inl e))
    | inr (r, e) ↦ elim (Bool-cases r.is_archived) [
      | inl a ↦ rw (e, a, environment_update) (kept (inr (r, e, inl a)))
      | inr a ↦ elim (Option-cases (check_version_match req.version r.version)) [
        | inl v ↦
            rw (e, a, v, environment_update)
              (locked_cases repr id req r (λ same. kept (inr (r, e, inr (inr (inl same)))))
                (λ t. kept (inr (r, e, inr (inr (inr t))))) (moved r e a v))
        | inr (x, v) ↦
            rw (e, a, v, environment_update)
              (kept (inr (r, e, inr (inl (mismatched req.version r.version x v)))))
      ]
    ]
  ]

  pub archive_cases :
      (user id : ℕ) (pre : Registry)
      → (ArchiveRefused user id pre → P w)
      → ((r : Row)
          → find_owned user id pre.rows ≡ some r
          → r.is_archived ≡ false
          → P (record w { rows = modify id archived_row w.rows }))
      → P (environment_archive user id pre w).0
  unfolding environment_archive
  archive_cases user id pre kept moved = elim (Option-cases (find_owned user id pre.rows)) [
    | inl e ↦ rw (e, environment_archive) (kept (inl e))
    | inr (r, e) ↦ elim (Bool-cases r.is_archived) [
      | inl a ↦ rw (e, a, environment_archive) (kept (inr (r, e, a)))
      | inr a ↦ rw (e, a, environment_archive) (moved r e a)
    ]
  ]

  pub delete_cases :
      (user id : ℕ)
      → (DeleteRefused user id w → P w)
      → ((r : Row)
          → find_owned user id w.rows ≡ some r
          → is_in_use id w.sessions ≡ false
          → P (record w { rows = remove id w.rows; snapshots = without_snapshots id w.snapshots }))
      → P (environment_delete user id w).0
  unfolding environment_delete
  delete_cases user id kept moved = elim (Option-cases (find_owned user id w.rows)) [
    | inl e ↦ rw (e, environment_delete) (kept (inl e))
    | inr (r, e) ↦ elim (Bool-cases (is_in_use id w.sessions)) [
      | inl a ↦ rw (e, a, environment_delete) (kept (inr a))
      | inr a ↦ rw (e, a, environment_delete) (moved r e a)
    ]
  ]
