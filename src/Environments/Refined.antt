-- ===== src/Environments/Refined.antt =====
-- The rows and snapshots of environments implement documents with a history.
use agent_on_demand.Prelude.{
  ℕ, ◌==◌, ◌≢◌, ◌⊎◌, sym, ◌∙◌, ◌≡◌, subst, refl, ap, String, true, false, Option, none, some, List,
  [], ◌∷◌, arith, if◌then◌else◌, Bool-cases, inl, inr,
}
use mathlib.Core.Option
use agent_on_demand.Prelude.Table.{get, get-modify, get-remove}
use agent_on_demand.Environments.{
  Content, Row, Snapshot, Registry, CreateRequest, UpdateRequest, check_version_match, snapshot,
  is_taken, environments_create, bumped, new_row, apply_update,
}
use agent_on_demand.Environments.Change.{
  is_in_use, archived_row, update_rows, environment_update, environment_archive, environment_delete,
  Change, Changes,
}
use agent_on_demand.Environments.Cases.{
  get-of_find_owned, UpdateRefused, ArchiveRefused, DeleteRefused, update_cases, archive_cases,
  delete_cases,
}
use agent_on_demand.Environments.Current.{
  snapshots_of, snapshots_of-without, IsCurrent, Current, Changes-Current,
}
use agent_on_demand.Environments.Documents.{
  Unedited, Refused, names_taken, create, update, archive, delete, Step, Steps, archived, contents,
  document, documents, request, requests,
}
use agent_on_demand.Environments.Shown.{version_lem, owner_lem, shown, unowned}

module _ (w : Registry) (v : Current w) where
  pushed :
      (id : ℕ) (r : Row) (u : Registry) (h : List Content)
      → u.snapshots ≡ snapshot id r ∷ w.snapshots
      → get id u.rows ≡ some r
      → ((k : ℕ) → id == k ≡ false → get k u.rows ≡ get k w.rows)
      → contents (snapshots_of id w.snapshots) ≡ h
      → (k : ℕ)
      → documents u k ≡ (
          if id == k
          then some record { owner = r.user; is_archived = r.is_archived; history = r.content ∷ h }
          else documents w k)
  unfolding snapshots_of
  pushed id r u h top found elsewhere e k = elim (Bool-cases (id == k)) [
    | inl same ↦ rw same (
        subst
          (λ j.
            documents u j
            ≡ some record { owner = r.user; is_archived = r.is_archived; history = r.content ∷ h })
          (key k same) (rw (found, top, on_top id r, e) refl))
    | inr other ↦ rw (top, other, elsewhere k other) refl
  ]
    where
      key : (j : ℕ) → id == j ≡ true → id ≡ j
      key j e = ground arith

      on_top :
          (j : ℕ) (q : Row)
          → snapshots_of j (snapshot j q ∷ w.snapshots) ≡ snapshot j q ∷ snapshots_of j w.snapshots
      on_top j q = ground arith

  created :
      (repr : Option String → String) (user id : ℕ) (req : CreateRequest)
      → get id w.rows ≡ none
      → Step
          (documents w)
          (documents (environments_create repr user id req w).0)
          (create user id req (names_taken id w))
  unfolding environments_create get
  created repr user id req fresh = elim (Bool-cases (is_taken user req.name id w.rows)) [
    | inl t ↦ rw (t, environments_create) (Step.stays (Refused.name_taken t) (λ k. refl))
    | inr f ↦
        rw (f, environments_create)
          (Step.creates (rw fresh refl) f (
            pushed id (new_row user req)
              (record w {
                rows = (id, new_row user req) ∷ w.rows;
                snapshots = snapshot id (new_row user req) ∷ w.snapshots;
              })
              [] refl (ground arith) (λ k e. ground arith) (none_yet id fresh)))
  ]
    where
      none_yet : (j : ℕ) → get j w.rows ≡ none → contents (snapshots_of j w.snapshots) ≡ []
      none_yet j e =
          ap contents (subst (λ o. IsCurrent j o (snapshots_of j w.snapshots)) e (v.current j))

  -- The version of the row that is there, and its newest revision.
  counted :
      (id : ℕ) (r : Row)
      → get id w.rows ≡ some r
      → IsCurrent id (some r) (snapshots_of id w.snapshots)
  counted id r row = subst (λ o. IsCurrent id o (snapshots_of id w.snapshots)) row (v.current id)

  -- What refuses an update of a row, as a reason that its document gives.
  unedited :
      (id : ℕ) (req : UpdateRequest) (r : Row)
      → IsCurrent id (some r) (snapshots_of id w.snapshots)
      → (r.is_archived ≡ true)
        ⊎ ((req.version ≢ r.version)
            ⊎ (((apply_update req r.content).1 ≡ false)
                ⊎ (is_taken r.user (apply_update req r.content).0.name id w.rows ≡ true)))
      → Unedited req (names_taken id w) (record {
        owner = r.user;
        is_archived = r.is_archived;
        history = contents (snapshots_of id w.snapshots);
      })
  unedited id req r h (inl a) = inl a
  unedited id req r h (inr (inl stale)) =
      inr (inl λ same. stale (same ∙ sym (version_lem id r (snapshots_of id w.snapshots) h)))
  unedited id req r (rest, top, counts) (inr (inr (inl e))) =
      inr (inr (r.content, contents rest, ap contents top, inl e))
  unedited id req r (rest, top, counts) (inr (inr (inr t))) =
      inr (inr (r.content, contents rest, ap contents top, inr t))

  not_updated :
      (user id : ℕ) (req : UpdateRequest)
      → UpdateRefused user id req w
      → Refused (documents w) (update user id req (names_taken id w))
  not_updated user id req (inl e) = Refused.not_updated (inl (unowned user id w e))
  not_updated user id req (inr (r, found, why)) =
      let row = get-of_find_owned user id w r found in
      Refused.not_updated (inr (_, shown w id r row, unedited id req r (counted id r row) why))

  updated :
      (repr : Option String → String) (user id : ℕ) (req : UpdateRequest)
      → Step
          (documents w)
          (documents (environment_update repr user id req w).0)
          (update user id req (names_taken id w))
  unfolding update_rows check_version_match
  updated repr user id req =
      update_cases (λ u. Step (documents w) (documents u) (update user id req (names_taken id w))) w
        repr user id req (λ why. Step.stays (not_updated user id req why) (λ k. refl))
        λ r found active same changed free.
          let c = (apply_update req r.content).0 in
          let row = get-of_find_owned user id w r found in
          let (rest, top, counts) = counted id r row in
          let count = version_lem id r (snapshots_of id w.snapshots) (counted id r row) in
          Step.updates _ r.content (contents rest) (shown w id r row) (owner_lem user id w r found)
            active (ap contents top) (ground (arith, same, count)) changed free
            (pushed id (bumped c r) (update_rows id c r w) _ refl
              (ground (arith, row, get-modify id id (λ old. bumped c r) w.rows))
              (λ k other. ground (arith, get-modify k id (λ old. bumped c r) w.rows)) refl)

  marked :
      (id k : ℕ) (o p : Option Row)
      → p ≡ (if id == k then Option.map archived_row o else o)
      → document p (snapshots_of k w.snapshots) ≡ (
          if id == k
          then Option.map archived (document o (snapshots_of k w.snapshots))
          else document o (snapshots_of k w.snapshots))
  marked id k none p e = elim (Bool-cases (id == k)) [
    | inl h ↦ rw (e, h) refl
    | inr h ↦ rw (e, h) refl
  ]
  marked id k (some r) p e = elim (Bool-cases (id == k)) [
    | inl h ↦ rw (e, h) refl
    | inr h ↦ rw (e, h) refl
  ]

  gone :
      (id k : ℕ) (p : Option Row) (ss : List Snapshot)
      → p ≡ (if id == k then none else get k w.rows)
      → ss ≡ (if id == k then [] else snapshots_of k w.snapshots)
      → document p ss ≡ (if id == k then none else documents w k)
  gone id k p ss e f = elim (Bool-cases (id == k)) [
    | inl h ↦ rw (e, h) refl
    | inr h ↦ rw (e, f, h) refl
  ]

  not_archived :
      (user id : ℕ) (pre : Registry)
      → ArchiveRefused user id pre
      → Refused (documents w) (archive user id (documents pre))
  not_archived user id pre (inl e) = Refused.not_archived (inl (unowned user id pre e))
  not_archived user id pre (inr (r, found, a)) =
      Refused.not_archived (inr (_, shown pre id r (get-of_find_owned user id pre r found), a))

  archived_lem :
      (user id : ℕ) (pre : Registry)
      → Step
          (documents w)
          (documents (environment_archive user id pre w).0)
          (archive user id (documents pre))
  archived_lem user id pre =
      archive_cases (λ u. Step (documents w) (documents u) (archive user id (documents pre))) w user
        id pre (λ why. Step.stays (not_archived user id pre why) (λ k. refl))
        λ r found active.
          Step.archives _ (shown pre id r (get-of_find_owned user id pre r found))
            (owner_lem user id pre r found) active
            λ k. marked id k (get k w.rows) _ (get-modify k id archived_row w.rows)

  not_deleted :
      (user id : ℕ)
      → DeleteRefused user id w
      → Refused (documents w) (delete user id (is_in_use id w.sessions))
  not_deleted user id (inl e) = Refused.not_deleted (inl (unowned user id w e))
  not_deleted user id (inr used) = Refused.not_deleted (inr used)

  deleted :
      (user id : ℕ)
      → Step
          (documents w)
          (documents (environment_delete user id w).0)
          (delete user id (is_in_use id w.sessions))
  deleted user id =
      delete_cases
        (λ u. Step (documents w) (documents u) (delete user id (is_in_use id w.sessions))) w user id
        (λ why. Step.stays (not_deleted user id why) (λ k. refl))
        λ r found free.
          Step.deletes _ (shown w id r (get-of_find_owned user id w r found))
            (owner_lem user id w r found) free
            (λ k. gone id k _ _ (get-remove k id w.rows) (snapshots_of-without k id w.snapshots))

  Change-Step :
      (repr : Option String → String) {u : Registry} (c : Change repr w u)
      → Step (documents w) (documents u) (request c)
  Change-Step repr (Change.creates user id req fresh e) = rw e (created repr user id req fresh)
  Change-Step repr (Change.updates user id req e) = rw e (updated repr user id req)
  Change-Step repr (Change.archives user id pre e) = rw e (archived_lem user id pre)
  Change-Step repr (Change.deletes user id e) = rw e (deleted user id)
  Change-Step repr (Change.relates sessions e) = rw e (Step.stays Refused.related (λ k. refl))

-- A history of requests is one of documents under the same requests.
pub Changes-Steps :
    (repr : Option String → String) {w u : Registry}
    → Current w
    → (cs : Changes repr w u) → Steps (documents w) (documents u) (requests cs)
Changes-Steps repr v Changes.here = Steps.here
Changes-Steps repr v (Changes.next {u} cs c) =
    Steps.next (Changes-Steps repr v cs) (Change-Step u (Changes-Current repr v cs) repr c)
