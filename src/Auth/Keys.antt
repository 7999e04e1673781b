-- ===== src/Auth/Keys.antt =====
-- New keys, and the wrapper of a view.
use agent_on_demand.Prelude.{
  Bool, false, ℕ, ◌≡◌, ◌≢◌, ◌⊎◌, refl, sym, ap, subst, true, false, Option, none, some, List, [],
  ◌∷◌, ◌++◌, String, any, take, All, map, arith, Bool-cases, inl, inr,
}
use agent_on_demand.Prelude.Result.{ok, err}
use agent_on_demand.Prelude.Text.{Text, codes, text_eq, text_eq_iff}
use agent_on_demand.Http.{Response, error}
use agent_on_demand.Auth.{
  ApiKey, after_prefix, find_key, has_expired, checked, looked_up, served, check_api_key_sync,
  require_api_key, create_key, check_api_key_async,
}
use agent_on_demand.Auth.Access.{Unique, Grants, after_prefix-append, check_api_key_sync-Grants}

new_hash :
    (h : Text) (ks : List ApiKey)
    → any (λ k. text_eq k.key_hash h) ks ≡ false
    → All (λ x. h ≢ x) (map (λ j. j.key_hash) ks)
unfolding any
new_hash h [] e = tt
new_hash h (k ∷ ks) e = (
  (λ same. absurd (ground (arith, e, (text_eq_iff k.key_hash h).1 (sym same)))),
  new_hash h ks (ground (arith, e)),
)

module _ (hash_key : Text → Text) where
  abbrev raw_of : Text → Text
  raw_of token = codes "aod_" ++ token

  abbrev row_of : ℕ → String → Option ℕ → Text → ApiKey
  row_of user name expires_at token = record {
    user = user;
    key_hash = hash_key (raw_of token);
    key_prefix = take 12 (raw_of token);
    name = name;
    is_active = true;
    expires_at = expires_at;
  }

  abbrev pub Opens : ℕ → ℕ → Text → List ApiKey → List ApiKey → Text → Type 0
  Opens user now other keys after raw =
      Unique after
      × ((k : ApiKey) × (check_api_key_sync hash_key (codes "Bearer " ++ raw) now after ≡ ok k)
          × (k.user ≡ user))
      × ((hash_key other ≡ hash_key raw)
          ⊎ (check_api_key_sync hash_key (codes "Bearer " ++ other) now after
              ≡ check_api_key_sync hash_key (codes "Bearer " ++ other) now keys))

  opens :
      (user now : ℕ) (name : String) (expires_at : Option ℕ) (token other : Text)
      (keys : List ApiKey)
      → Unique keys
      → has_expired expires_at now ≡ false
      → All (λ x. hash_key (raw_of token) ≢ x) (map (λ j. j.key_hash) keys)
      → Opens user now other keys (row_of user name expires_at token ∷ keys) (raw_of token)
  unfolding check_api_key_sync find_key
  opens user now name expires_at token other keys u valid fresh = (
    (fresh, u),
    (row_of user name expires_at token, accepted, refl),
    others (Bool-cases (text_eq (hash_key (raw_of token)) (hash_key other))),
  )
    where
      same_hash : text_eq (hash_key (raw_of token)) (hash_key (raw_of token)) ≡ true
      same_hash = (text_eq_iff (hash_key (raw_of token)) (hash_key (raw_of token))).1 refl

      accepted :
          check_api_key_sync hash_key
            (codes "Bearer " ++ raw_of token)
            now
            (row_of user name expires_at token ∷ keys)
          ≡ ok (row_of user name expires_at token)
      accepted = rw (after_prefix-append (codes "Bearer ") (raw_of token), same_hash, valid) refl

      others :
          (text_eq (hash_key (raw_of token)) (hash_key other) ≡ true)
            ⊎ (text_eq (hash_key (raw_of token)) (hash_key other) ≡ false)
          → (hash_key other ≡ hash_key (raw_of token))
            ⊎ (check_api_key_sync hash_key
                  (codes "Bearer " ++ other)
                  now
                  (row_of user name expires_at token ∷ keys)
                ≡ check_api_key_sync hash_key (codes "Bearer " ++ other) now keys)
      others (inl h) = inl (sym ((text_eq_iff (hash_key (raw_of token)) (hash_key other)).0 h))
      others (inr h) = inr (rw (after_prefix-append (codes "Bearer ") other, h) refl)

  -- If a key is created in a table whose hashes differ, then they still differ. Until it expires, the new
  -- raw key is accepted and opens the table for the user that it was made for, and with every other raw
  -- key the answer stays as it was, unless its hash is the same.
  pub create_key_opens :
      (user now : ℕ) (name : String) (expires_at : Option ℕ) (token other : Text)
      (keys after : List ApiKey) (raw : Text)
      → Unique keys
      → has_expired expires_at now ≡ false
      → create_key hash_key user name expires_at token keys ≡ some (after, raw)
      → Unique after
        × ((k : ApiKey) × (check_api_key_sync hash_key (codes "Bearer " ++ raw) now after ≡ ok k)
            × (k.user ≡ user))
        × ((hash_key other ≡ hash_key raw)
            ⊎ (check_api_key_sync hash_key (codes "Bearer " ++ other) now after
                ≡ check_api_key_sync hash_key (codes "Bearer " ++ other) now keys))
  unfolding create_key check_api_key_sync find_key
  create_key_opens user now name expires_at token other keys after raw u valid e =
      elim (Bool-cases (any (λ k. text_eq k.key_hash (hash_key (raw_of token))) keys)) [
        | inl t ↦ absurd (cc (rw t at e))
        | inr t ↦
            let row = row_of user name expires_at token in
            let made : ◌≡◌ {A = Option (List ApiKey × Text)} (some (row ∷ keys, raw_of token))
                (some (after, raw)) =
              rw t at e in
            let table : row ∷ keys ≡ after = cc made in
            let key : raw_of token ≡ raw = cc made in
            subst (λ (p : List ApiKey × Text). Opens user now other keys p.0 p.1)
              (λ i. (table i, key i))
              (opens user now name expires_at token other keys u valid
                (new_hash (hash_key (raw_of token)) keys t))
      ]

  answer :
      (o : Option Text) (now : ℕ) (keys : List ApiKey)
      → ((k : ApiKey) × (looked_up hash_key o now keys ≡ ok k))
        ⊎ ((detail : String) × (looked_up hash_key o now keys ≡ err (error 401 detail)))
  answer none now keys = inr (_, refl)
  answer (some raw) now keys = tested (find_key (hash_key raw) keys)
    where
      tested :
          (o : Option ApiKey)
          → ((k : ApiKey) × (checked now o ≡ ok k))
            ⊎ ((detail : String) × (checked now o ≡ err (error 401 detail)))
      tested none = inr (_, refl)
      tested (some k) = elim (Bool-cases k.is_active) [
        | inr a ↦ inr ("API key is inactive", rw a refl)
        | inl a ↦ elim (Bool-cases (has_expired k.expires_at now)) [
          | inl x ↦ inr ("API key has expired", rw (a, x) refl)
          | inr x ↦ inl (k, rw (a, x) refl)
        ]
      ]

  -- A view behind the wrapper, a coroutine or not, runs as the user of a key that the header grants, or not at all: then
  -- nothing changes and the response is a 401.
  pub require_api_key_guards :
      (is_coroutine : Bool) {S : Type 0} (view : ℕ → S → S × Response) (header : Text) (now : ℕ)
      (keys : List ApiKey) (s : S)
      → Unique keys
      → ((k : ApiKey) × Grants hash_key header now keys k
          × (require_api_key hash_key is_coroutine view header now keys s ≡ view k.user s))
        ⊎ ((detail : String) × (require_api_key hash_key is_coroutine view header now keys s
              ≡ (s, error 401 detail)))
  unfolding require_api_key check_api_key_sync check_api_key_async
  require_api_key_guards true view header now keys s u =
      elim (answer (after_prefix (codes "Bearer ") header) now keys) [
        | inl (k, e) ↦ inl (
          k,
          (check_api_key_sync-Grants hash_key header now keys k u).0 e,
          ap (λ r. served view r s) e,
        )
        | inr (d, e) ↦ inr (d, ap (λ r. served view r s) e)
      ]
  require_api_key_guards false view header now keys s u =
      elim (answer (after_prefix (codes "Bearer ") header) now keys) [
        | inl (k, e) ↦ inl (
          k,
          (check_api_key_sync-Grants hash_key header now keys k u).0 e,
          ap (λ r. served view r s) e,
        )
        | inr (d, e) ↦ inr (d, ap (λ r. served view r s) e)
      ]
