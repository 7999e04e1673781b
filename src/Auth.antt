-- ===== src/Auth.antt =====
-- src/agent_on_demand/auth.py and the keys of src/agent_on_demand/models/auth.py. The SHA-256 of a raw key is a
-- parameter, and so is the random token of a new key. A view is a function of the user it acts for.
pub mod Access
pub mod Keys
use agent_on_demand.Prelude.{
  ℕ, ◌==◌, leb, Bool, true, false, Option, none, some, List, [], ◌∷◌, ◌++◌, take, any,
  if◌then◌else◌, String,
}
use agent_on_demand.Prelude.Result.{Result, ok, err}
use agent_on_demand.Prelude.Text.{Text, codes, text_eq}
use agent_on_demand.Http.{Response, error}

pub record ApiKey : Type 0 where
  pub user : ℕ
  pub key_hash : Text
  pub key_prefix : Text
  pub name : String
  pub is_active : Bool
  pub expires_at : Option ℕ

-- What is behind a prefix: `startswith` and the slice.
unfoldable pub after_prefix : Text → Text → Option Text
after_prefix [] s = some s
after_prefix (c ∷ cs) [] = none
after_prefix (c ∷ cs) (d ∷ ds) = let rest = after_prefix cs ds in if c == d then rest else none

-- `objects.get(key_hash=…)`.
unfoldable pub find_key : Text → List ApiKey → Option ApiKey
find_key h [] = none
find_key h (k ∷ ks) = let rest = find_key h ks in if text_eq k.key_hash h then some k else rest

abbrev pub has_expired : Option ℕ → ℕ → Bool
has_expired none now = false
has_expired (some t) now = leb t now

abbrev pub unauthorized : String → Result Response ApiKey
unauthorized detail = err (error 401 detail)

-- The tests on a row that is found.
abbrev pub checked : ℕ → Option ApiKey → Result Response ApiKey
checked now none = unauthorized "Invalid API key"
checked now (some k) =
    if k.is_active
    then (if has_expired k.expires_at now then unauthorized "API key has expired" else ok k)
    else unauthorized "API key is inactive"

abbrev pub served :
    {S : Type 0} → (ℕ → S → S × Response) → Result Response ApiKey → S → S × Response
served view (err response) s = (s, response)
served view (ok k) s = view k.user s

module _ (hash_key : Text → Text) where
  abbrev pub looked_up : Option Text → ℕ → List ApiKey → Result Response ApiKey
  looked_up none now keys = unauthorized "Missing or invalid Authorization header"
  looked_up (some raw) now keys = checked now (find_key (hash_key raw) keys)

  -- The header is the empty text where it is missing. The code has this check twice, with `aget` in the
  -- second.
  unfoldable pub check_api_key_sync : Text → ℕ → List ApiKey → Result Response ApiKey
  check_api_key_sync header now keys = looked_up (after_prefix (codes "Bearer ") header) now keys

  unfoldable pub check_api_key_async : Text → ℕ → List ApiKey → Result Response ApiKey
  check_api_key_async header now keys = looked_up (after_prefix (codes "Bearer ") header) now keys

  -- The wrapper around a view, a coroutine or not: an error is the response, otherwise the view runs as
  -- the key's user.
  unfoldable pub require_api_key :
      Bool → {S : Type 0} → (ℕ → S → S × Response) → Text → ℕ → List ApiKey → S → S × Response
  require_api_key true view header now keys s = served view (check_api_key_async header now keys) s
  require_api_key false view header now keys s = served view (check_api_key_sync header now keys) s

  -- `create_key`: the row and the raw key; the hash is unique, so a second row with it is refused.
  unfoldable pub create_key :
      ℕ → String → Option ℕ → Text → List ApiKey → Option (List ApiKey × Text)
  create_key user name expires_at token keys =
      let raw = codes "aod_" ++ token in
      if any (λ k. text_eq k.key_hash (hash_key raw)) keys
      then none
      else some (
        record {
          user = user;
          key_hash = hash_key raw;
          key_prefix = take 12 raw;
          name = name;
          is_active = true;
          expires_at = expires_at;
        }
            ∷ keys,
        raw,
      )
