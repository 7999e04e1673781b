-- ===== src/Environments/Listing.antt =====
-- What the list of versions shows.
use agent_on_demand.Prelude.{
  String, ℕ, zero, suc, ◌==◌, ◌≡◌, subst, refl, sym, ap, ◌∙◌, true, Option, none, some, List, [],
  ◌∷◌, length, select, All, arith, if◌then◌else◌, Bool-cases, Option-cases, inl, inr, count_down,
}
use agent_on_demand.Prelude.Result.{Result, ok, err}
use agent_on_demand.Prelude.Table.{get}
use agent_on_demand.Http.{Response, error}
use agent_on_demand.Environments.{Content, Row, Snapshot, Registry, find_owned}
use agent_on_demand.Environments.Versions.{insert_snapshot, by_version, environment_versions}
use agent_on_demand.Environments.Current.{
  Changes-Current, snapshots_of, versions, IsCurrent, Current,
}
use agent_on_demand.Environments.Refined.{Changes-Steps}
use agent_on_demand.Environments.Change.{Changes}
use agent_on_demand.Environments.Documents.{Steps, Document, contents, documents, requests}

-- The revisions of a document, numbered: the oldest is 1.
abbrev pub numbered : ℕ → List Content → List Snapshot
numbered id [] = []
numbered id (c ∷ cs) =
    record { environment = id; version = suc (length cs); content = c } ∷ numbered id cs

abbrev pub listing : ℕ → ℕ → Option Document → Result Response (List Snapshot)
listing user id none = err (error 404 "Environment not found")
listing user id (some d) =
    if d.owner == user then ok (numbered id d.history) else err (error 404 "Environment not found")

select-snapshots_of :
    (id : ℕ) (ss : List Snapshot) → select (λ s. s.environment == id) ss ≡ snapshots_of id ss
unfolding select snapshots_of
select-snapshots_of id [] = refl
select-snapshots_of id (s ∷ ss) = ground (arith, select-snapshots_of id ss)

own : (id : ℕ) (ss : List Snapshot) → All (λ s. s.environment ≡ id) (snapshots_of id ss)
unfolding snapshots_of
own id [] = tt
own id (s ∷ ss) = elim (Bool-cases (s.environment == id)) [
  | inl h ↦ rw h (ground (arith, h), own id ss)
  | inr h ↦ rw h (own id ss)
]

in_front :
    (s : Snapshot) (ss : List Snapshot) (n : ℕ)
    → s.version ≡ suc n
    → versions ss ≡ count_down n
    → insert_snapshot s ss ≡ s ∷ ss
unfolding insert_snapshot
in_front s [] n e h = refl
in_front s (t ∷ ts) zero e h = absurd (cc h)
in_front s (t ∷ ts) (suc n) e h = let below : t.version ≡ suc n = cc h in ground (arith, e, below)

-- Versions that count down are in order already, and number the revisions.
ordered : (ss : List Snapshot) (n : ℕ) → versions ss ≡ count_down n → by_version ss ≡ ss
unfolding by_version
ordered [] n h = refl
ordered (s ∷ ss) zero h = absurd (cc h)
ordered (s ∷ ss) (suc n) h =
    let top : s.version ≡ suc n = cc h in
    let rest : versions ss ≡ count_down n = cc h in
    rw (ordered ss n rest) (in_front s ss n top rest)

counted : (ss : List Snapshot) (n : ℕ) → versions ss ≡ count_down n → length (contents ss) ≡ n
counted [] zero h = refl
counted [] (suc n) h = absurd (cc h)
counted (s ∷ ss) zero h = absurd (cc h)
counted (s ∷ ss) (suc n) h =
    let rest : versions ss ≡ count_down n = cc h in omega (arith, counted ss n rest)

numbered_lem :
    (id : ℕ) (ss : List Snapshot) (n : ℕ)
    → All (λ s. s.environment ≡ id) ss
    → versions ss ≡ count_down n
    → ss ≡ numbered id (contents ss)
numbered_lem id [] n a h = refl
numbered_lem id (s ∷ ss) zero a h = absurd (cc h)
numbered_lem id (s ∷ ss) (suc n) a h =
    let top : s.version ≡ suc n = cc h in
    let rest : versions ss ≡ count_down n = cc h in
    let length_is = counted ss n rest in
    let tail = numbered_lem id ss n a.1 rest in
    let version_is : s.version ≡ suc (length (contents ss)) = omega (arith, top, length_is) in
    λ i. record { environment = a.0 i; version = version_is i; content = s.content } ∷ tail i

found_lem :
    (user id : ℕ) (w : Registry) (r : Row)
    → get id w.rows ≡ some r
    → r.user ≡ user
    → find_owned user id w.rows ≡ some r
unfolding find_owned
found_lem user id w r e o = ground (arith, e, o)

-- A row that is there, seen by its owner.
shown :
    (user id : ℕ) (w : Registry) (r : Row)
    → Current w
    → get id w.rows ≡ some r
    → r.user ≡ user
    → environment_versions user id w ≡ ok (numbered id (contents (snapshots_of id w.snapshots)))
unfolding environment_versions
shown user id w r v e o =
    let (rest, top, counts) =
      subst (λ p. IsCurrent id p (snapshots_of id w.snapshots)) e (v.current id) in
    let ss = snapshots_of id w.snapshots in
    let sorted : by_version (select (λ s. s.environment == id) w.snapshots)
        ≡ numbered id (contents ss) =
      rw (select-snapshots_of id w.snapshots)
        (ordered ss r.version counts ∙ numbered_lem id ss r.version (own id w.snapshots) counts) in
    rw (found_lem user id w r e o, environment_versions) (ap ok sorted)

listed :
    (user id : ℕ) (w : Registry) (r : Row)
    → get id w.rows ≡ some r
    → (r.user == user) ≡ true
    → listing user id (documents w id) ≡ ok (numbered id (contents (snapshots_of id w.snapshots)))
listed user id w r e o = rw (e, o) refl

-- In every registry whose snapshots are current, the list of the versions of an environment shows the
-- revisions of its document to its owner, newest first and numbered down to 1, and a 404 to others.
pub environment_versions-listing :
    (user id : ℕ) (w : Registry)
    → Current w
    → environment_versions user id w ≡ listing user id (documents w id)
unfolding environment_versions find_owned
environment_versions-listing user id w v = elim (Option-cases (get id w.rows)) [
  | inl e ↦ ground (arith, e)
  | inr (r, e) ↦ elim (Bool-cases (r.user == user)) [
    | inl o ↦ shown user id w r v e (ground (arith, o)) ∙ sym (listed user id w r e o)
    | inr o ↦ ground (arith, e, o)
  ]
]

-- Every history of requests for environments is a history of documents with their revisions under the same
-- requests. A creation under a fresh key starts a document of its user with one revision. An update of an
-- active document of its user, whose version is the number of the revisions, puts the newest revision with
-- the request's changes on top. An archive marks a document, which was its user's and active when it was
-- checked; a deletion removes a document of its user. All other documents stay. A request changes nothing
-- only if it cannot do this, if its name is taken, if an update asks for no change, or if sessions refer to
-- the document to delete. Afterwards the list of the versions shows the revisions of a document to its
-- owner, newest first and numbered down to 1, and a 404 to others.
pub Changes-Documents :
    (repr : Option String → String) (user id : ℕ) {w u : Registry}
    → Current w
    → (cs : Changes repr w u)
    → Steps (documents w) (documents u) (requests cs)
      × (environment_versions user id u ≡ listing user id (documents u id))
Changes-Documents repr user id v cs =
    (Changes-Steps repr v cs, environment_versions-listing user id _ (Changes-Current repr v cs))
