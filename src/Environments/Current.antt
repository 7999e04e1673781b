-- ===== src/Environments/Current.antt =====
-- What the snapshots say of the rows: the lemmas go by the cases of Change.antt.
use agent_on_demand.Prelude.{
  ℕ, ◌+◌, ◌==◌, ◌≡◌, ◌≢◌, subst, refl, String, true, false, Option, none, some, List, [], ◌∷◌,
  select, arith, if◌then◌else◌, Bool-cases, inl, inr, count_down,
}
use mathlib.Core.Option
use agent_on_demand.Prelude.Result.{ok, err}
use agent_on_demand.Prelude.Table.{get, get-modify, get-remove}
use agent_on_demand.Http.{mismatch}
use agent_on_demand.Environments.{
  Content, Row, Snapshot, Registry, CreateRequest, UpdateRequest, check_version_match, find_owned,
  snapshot, is_taken, environments_create, apply_update, bumped, new_row,
}
use agent_on_demand.Environments.Change.{
  archived_row, update_rows, update_locked, environment_update, without_snapshots, Change, Changes,
}
use agent_on_demand.Environments.Cases.{
  get-of_find_owned, update_cases, archive_cases, delete_cases,
}

-- `EnvironmentVersion.objects.filter(environment=id)`, newest first.
unfoldable pub snapshots_of : ℕ → List Snapshot → List Snapshot
snapshots_of id [] = []
snapshots_of id (s ∷ ss) =
    if s.environment == id then s ∷ snapshots_of id ss else snapshots_of id ss

abbrev pub versions : List Snapshot → List ℕ
versions [] = []
versions (s ∷ ss) = s.version ∷ versions ss

-- Of a row the newest snapshot is its copy, and their versions count down to 1; without a row there is
-- no snapshot.
abbrev pub IsCurrent : ℕ → Option Row → List Snapshot → Type 0
IsCurrent id none ss = ss ≡ []
IsCurrent id (some r) ss =
    (rest : List Snapshot) × (ss ≡ snapshot id r ∷ rest) × (versions ss ≡ count_down r.version)

pub record Current (w : Registry) : Type 0 where
  pub current : (id : ℕ) → IsCurrent id (get id w.rows) (snapshots_of id w.snapshots)

pub snapshots_of-without :
    (id k : ℕ) (ss : List Snapshot)
    → snapshots_of id (without_snapshots k ss) ≡ (if k == id then [] else snapshots_of id ss)
unfolding snapshots_of without_snapshots select
snapshots_of-without id k [] = ground arith
snapshots_of-without id k (s ∷ ss) = ground (arith, snapshots_of-without id k ss)

recast :
    (id : ℕ) {o p : Option Row} {ss ts : List Snapshot}
    → o ≡ p
    → ss ≡ ts
    → IsCurrent id p ts
    → IsCurrent id o ss
recast id e f h = rw (e, f) h

new-IsCurrent :
    (id user : ℕ) (req : CreateRequest) (o : Option Row) (ss : List Snapshot)
    → o ≡ none
    → IsCurrent id o ss
    → IsCurrent id (some (new_row user req)) (snapshot id (new_row user req) ∷ ss)
new-IsCurrent id user req none ss e h = rw h ([], refl, refl)
new-IsCurrent id user req (some r) ss e h = ground arith

bumped-IsCurrent :
    (id : ℕ) (c : Content) (r : Row) (o : Option Row) (ss : List Snapshot)
    → o ≡ some r
    → IsCurrent id o ss
    → IsCurrent id (some (bumped c r)) (snapshot id (bumped c r) ∷ ss)
bumped-IsCurrent id c r none ss e h = ground arith
bumped-IsCurrent id c r (some q) ss e h = (ss, refl, ground (arith, h.2))

archived-IsCurrent :
    (id : ℕ) (o : Option Row) (ss : List Snapshot)
    → IsCurrent id o ss
    → IsCurrent id (Option.map archived_row o) ss
archived-IsCurrent id none ss h = h
archived-IsCurrent id (some r) ss h = h

module _ (repr : Option String → String) {w : Registry} (v : Current w) where
  -- A snapshot on top of those of the row `id`, which is now `r`.
  pushed :
      (id : ℕ) (r : Row) (u : Registry)
      → u.snapshots ≡ snapshot id r ∷ w.snapshots
      → get id u.rows ≡ some r
      → ((k : ℕ) → id == k ≡ false → get k u.rows ≡ get k w.rows)
      → IsCurrent id (some r) (snapshot id r ∷ snapshots_of id w.snapshots)
      → Current u
  unfolding snapshots_of
  pushed id r u top here elsewhere h = record {
    current = λ k. elim (Bool-cases (id == k)) [
      | inl same ↦
          subst (λ i. IsCurrent i (get i u.rows) (snapshots_of i u.snapshots)) (key k same)
            (recast id here (rw top (ground arith)) h)
      | inr other ↦ recast k (elsewhere k other) (rw (top, other) refl) (v.current k)
    ];
  }
    where
      key : (k : ℕ) → id == k ≡ true → id ≡ k
      key k e = ground arith

  created :
      (user id : ℕ) (req : CreateRequest)
      → get id w.rows ≡ none
      → Current (environments_create repr user id req w).0
  unfolding environments_create get
  created user id req fresh = elim (Bool-cases (is_taken user req.name id w.rows)) [
    | inl t ↦ rw (t, environments_create) v
    | inr f ↦
        rw (f, environments_create)
          (pushed id (new_row user req) _ refl (ground arith) (λ k e. ground arith)
            (new-IsCurrent id user req _ _ fresh (v.current id)))
  ]

  pub Change-Current : {u : Registry} → Change repr w u → Current u
  unfolding update_rows
  Change-Current (Change.creates user id req fresh e) = rw e (created user id req fresh)
  Change-Current (Change.updates user id req e) = rw e (
      update_cases Current w repr user id req (λ no. v)
        λ r found a m changed free.
          let c = (apply_update req r.content).0 in
          pushed id (bumped c r) _ refl
            (ground (
              arith,
              get-of_find_owned user id w r found,
              get-modify id id (λ old. bumped c r) w.rows,
            ))
            (λ k other. ground (arith, get-modify k id (λ old. bumped c r) w.rows))
            (bumped-IsCurrent id c r _ _ (get-of_find_owned user id w r found) (v.current id)))
  Change-Current (Change.archives user id pre e) = rw e (
      archive_cases Current w user id pre (λ no. v)
        λ r found a. (record {
          current = λ k. elim (Bool-cases (id == k)) [
            | inl same ↦
                recast k (ground (arith, get-modify k id archived_row w.rows)) refl
                  (archived-IsCurrent k _ _ (v.current k))
            | inr other ↦
                recast k (ground (arith, get-modify k id archived_row w.rows)) refl (v.current k)
          ];
        }))
  Change-Current (Change.deletes user id e) = rw e (
      delete_cases Current w user id (λ no. v)
        λ r found free. (record {
          current = λ k. elim (Bool-cases (id == k)) [
            | inl same ↦
                recast k {p = none} {ts = []} (ground (arith, get-remove k id w.rows))
                  (ground (arith, snapshots_of-without k id w.snapshots)) refl
            | inr other ↦
                recast k (ground (arith, get-remove k id w.rows))
                  (ground (arith, snapshots_of-without k id w.snapshots)) (v.current k)
          ];
        }))
  Change-Current (Change.relates sessions e) = rw e (record { current = v.current })

-- Every history of creations, updates, archives and deletions keeps, for each environment, the
-- snapshots with the versions n, …, 1 of which the newest has the version and the content of the row,
-- and none for an environment that is gone.
pub Changes-Current :
    (repr : Option String → String) {w u : Registry} → Current w → Changes repr w u → Current u
Changes-Current repr v Changes.here = v
Changes-Current repr v (Changes.next cs c) = Change-Current repr (Changes-Current repr v cs) c

-- If an update changes the row, then any later request of the same user with the
-- same version is refused as a mismatch with the next version, and writes nothing: no update is lost.
pub update_once :
    (repr : Option String → String) (user id : ℕ) (req again : UpdateRequest) (w : Registry)
    (r s : Row)
    → get id w.rows ≡ some r
    → (environment_update repr user id req w).1 ≡ ok s
    → s.version ≢ r.version
    → again.version ≡ req.version
    → let u = (environment_update repr user id req w).0 in
      environment_update repr user id again u ≡ (u, err (mismatch (r.version + 1) req.version))
unfolding environment_update update_locked update_rows find_owned check_version_match
update_once repr user id req again w r s found done moved same =
    ground (arith, get-modify id id (λ old. bumped (apply_update req r.content).0 r) w.rows)
