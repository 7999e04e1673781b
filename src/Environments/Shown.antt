-- ===== src/Environments/Shown.antt =====
-- What a document shows of its row: the owner, and the version as the number of the revisions.
use agent_on_demand.Prelude.{
  ℕ, Option-cases, ◌≡◌, refl, ap, none, some, List, [], ◌∷◌, length, arith, inl, inr, count_down,
}
use agent_on_demand.Prelude.Table.{get}
use agent_on_demand.Environments.{Row, Snapshot, Registry, find_owned}
use agent_on_demand.Environments.Current.{snapshots_of, versions, IsCurrent}
use agent_on_demand.Environments.Documents.{Unowned, contents, document, documents}

length-contents : (ss : List Snapshot) → length (contents ss) ≡ length (versions ss)
length-contents [] = refl
length-contents (s ∷ ss) = omega (arith, length-contents ss)

length-count_down : (n : ℕ) → length (count_down n) ≡ n
length-count_down ℕ.zero = refl
length-count_down (ℕ.suc n) = omega (arith, length-count_down n)

-- The version of a row is the number of its revisions.
pub version_lem :
    (id : ℕ) (r : Row) (ss : List Snapshot)
    → IsCurrent id (some r) ss
    → r.version ≡ length (contents ss)
version_lem id r ss (rest, e, v) =
    let counted : length (versions ss) ≡ length (count_down r.version) =
      ap (λ (l : List ℕ). length l) v in
    omega (arith, counted, length-count_down r.version, length-contents ss)

pub owner_lem :
    (user id : ℕ) (w : Registry) (r : Row) → find_owned user id w.rows ≡ some r → r.user ≡ user
unfolding find_owned
owner_lem user id w r e = ground arith

pub shown :
    (w : Registry) (id : ℕ) (r : Row)
    → get id w.rows ≡ some r
    → documents w id
      ≡ some record {
        owner = r.user;
        is_archived = r.is_archived;
        history = contents (snapshots_of id w.snapshots);
      }
shown w id r e = rw e refl

pub unowned :
    (user id : ℕ) (w : Registry) → find_owned user id w.rows ≡ none → Unowned user (documents w id)
unfolding find_owned
unowned user id w e d is same = elim (Option-cases (get id w.rows)) [
  | inl gone ↦
      let nothing : documents w id ≡ none =
        ap (λ o. document o (snapshots_of id w.snapshots)) gone in
      absurd (cc (is, nothing))
  | inr (r, row) ↦
      let owner_is : r.user ≡ d.owner = cc (is, shown w id r row) in
      absurd (ground (arith, e, row, owner_is, same))
]
