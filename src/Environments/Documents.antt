-- ===== src/Environments/Documents.antt =====
-- What the environments promise: documents with a history, edited under their owner's name against the
-- number of their newest revision. The rows and the snapshots implement it.
use agent_on_demand.Prelude.{
  String, ℕ, ◌==◌, ◌≡◌, ◌≢◌, ◌⊎◌, Bool, true, false, Option, none, some, List, [], ◌∷◌, length,
  if◌then◌else◌,
}
use mathlib.Core.Option
use agent_on_demand.Prelude.Table.{get}
use agent_on_demand.Environments.{
  Content, Row, Snapshot, Registry, CreateRequest, UpdateRequest, new_row, apply_update, is_taken,
}
use agent_on_demand.Environments.Change.{Change, Changes, is_in_use}
use agent_on_demand.Environments.Current.{snapshots_of}

pub record Document : Type 0 where
  pub owner : ℕ
  pub is_archived : Bool
  -- The revisions, newest first.
  pub history : List Content

abbrev pub Documents : Type 0
Documents = ℕ → Option Document

abbrev pub revised : Content → Document → Document
revised c d = record d { history = c ∷ d.history }

abbrev pub archived : Document → Document
archived d = record d { is_archived = true }

-- What is asked of the documents: a request with its user, and with what only the tables can answer: the
-- names that are taken, by user, the documents that the checks of an archive see, and whether sessions
-- refer to a document. `relate` is a change of the sessions.
pub data Request : Type 0 where
  create : ℕ → ℕ → CreateRequest → (ℕ → String → Bool) → Request
  update : ℕ → ℕ → UpdateRequest → (ℕ → String → Bool) → Request
  archive : ℕ → ℕ → Documents → Request
  delete : ℕ → ℕ → Bool → Request
  relate : Request

-- No document of the user.
abbrev pub Unowned : ℕ → Option Document → Type 0
Unowned user o = (d : Document) → o ≡ some d → d.owner ≢ user

-- Why an update of a document of the user changes nothing.
abbrev pub Unedited : UpdateRequest → (ℕ → String → Bool) → Document → Type 0
Unedited req taken d =
    (d.is_archived ≡ true)
    ⊎ ((req.version ≢ length d.history)
        ⊎ ((old : Content) × (older : List Content) × (d.history ≡ old ∷ older)
            × (((apply_update req old).1 ≡ false)
                ⊎ (taken d.owner (apply_update req old).0.name ≡ true))))

-- The only reasons for which a request changes nothing.
pub data Refused (a : Documents) : Request → Type 0 where
  name_taken :
      {user id : ℕ} {req : CreateRequest} {taken : ℕ → String → Bool}
      → taken user req.name ≡ true
      → Refused a (create user id req taken)
  not_updated :
      {user id : ℕ} {req : UpdateRequest} {taken : ℕ → String → Bool}
      → Unowned user (a id) ⊎ ((d : Document) × (a id ≡ some d) × Unedited req taken d)
      → Refused a (update user id req taken)
  not_archived :
      {user id : ℕ} {seen : Documents}
      → Unowned user (seen id) ⊎ ((d : Document) × (seen id ≡ some d) × (d.is_archived ≡ true))
      → Refused a (archive user id seen)
  not_deleted :
      {user id : ℕ} {in_use : Bool}
      → Unowned user (a id) ⊎ (in_use ≡ true)
      → Refused a (delete user id in_use)
  related : Refused a relate

-- What a request does to the documents: what it is named for, or nothing for one of those reasons.
pub data Step (a b : Documents) : Request → Type 0 where
  stays : {q : Request} → Refused a q → ((k : ℕ) → b k ≡ a k) → Step a b q
  creates :
      {user id : ℕ} {req : CreateRequest} {taken : ℕ → String → Bool}
      → a id ≡ none
      → taken user req.name ≡ false
      → ((k : ℕ)
          → b k ≡ (
              if id == k
              then some record {
                owner = user;
                is_archived = false;
                history = (new_row user req).content ∷ [];
              }
              else a k))
      → Step a b (create user id req taken)
  -- Only an active document of the request's user, and only under the number of its newest revision, to
  -- which the request's changes are made.
  updates :
      {user id : ℕ} {req : UpdateRequest} {taken : ℕ → String → Bool} (d : Document) (old : Content)
      (older : List Content)
      → a id ≡ some d
      → d.owner ≡ user
      → d.is_archived ≡ false
      → d.history ≡ old ∷ older
      → req.version ≡ length d.history
      → (apply_update req old).1 ≡ true
      → taken d.owner (apply_update req old).0.name ≡ false
      → ((k : ℕ) → b k ≡ (if id == k then some (revised (apply_update req old).0 d) else a k))
      → Step a b (update user id req taken)
  -- Only a document that was the user's and active when it was checked.
  archives :
      {user id : ℕ} {seen : Documents} (d : Document)
      → seen id ≡ some d
      → d.owner ≡ user
      → d.is_archived ≡ false
      → ((k : ℕ) → b k ≡ (if id == k then Option.map archived (a k) else a k))
      → Step a b (archive user id seen)
  deletes :
      {user id : ℕ} {in_use : Bool} (d : Document)
      → a id ≡ some d
      → d.owner ≡ user
      → in_use ≡ false
      → ((k : ℕ) → b k ≡ (if id == k then none else a k))
      → Step a b (delete user id in_use)

-- Documents under a list of requests, the last one first.
pub data Steps (a : Documents) : Documents → List Request → Type 0 where
  here : Steps a a []
  next :
      {b c : Documents} {q : Request} {qs : List Request}
      → Steps a b qs
      → Step b c q
      → Steps a c (q ∷ qs)

abbrev pub contents : List Snapshot → List Content
contents [] = []
contents (s ∷ ss) = s.content ∷ contents ss

abbrev pub document : Option Row → List Snapshot → Option Document
document none ss = none
document (some r) ss =
    some record { owner = r.user; is_archived = r.is_archived; history = contents ss }

-- What a registry stands for.
abbrev pub documents : Registry → Documents
documents w id = document (get id w.rows) (snapshots_of id w.snapshots)

-- The constraint on the names, for a row with this key.
abbrev pub names_taken : ℕ → Registry → ℕ → String → Bool
names_taken id w user name = is_taken user name id w.rows

-- The requests of a history, the last one first.
abbrev pub request : {repr : Option String → String} {w u : Registry} → Change repr w u → Request
request {w = w} (Change.creates user id req fresh e) = create user id req (names_taken id w)
request {w = w} (Change.updates user id req e) = update user id req (names_taken id w)
request (Change.archives user id pre e) = archive user id (documents pre)
request {w = w} (Change.deletes user id e) = delete user id (is_in_use id w.sessions)
request (Change.relates sessions e) = relate

abbrev pub requests :
    {repr : Option String → String} {w u : Registry} → Changes repr w u → List Request
requests Changes.here = []
requests (Changes.next cs c) = request c ∷ requests cs
