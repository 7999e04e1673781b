-- ===== src/Auth/Access.antt =====
-- Who gets in.
use agent_on_demand.Prelude.{
  ℕ, zero, suc, subst, get_elem?, ◌==◌, ◌≡◌, ◌≢◌, ◌↔◌, refl, ap, true, false, Option, none, some,
  List, [], ◌∷◌, ◌++◌, All, Distinct, map, arith, Bool-cases, Option-cases, inl, inr,
}
use agent_on_demand.Prelude.Result.{ok}
use agent_on_demand.Prelude.Text.{Text, codes, text_eq, text_eq_iff}
use agent_on_demand.Auth.{ApiKey, after_prefix, find_key, has_expired, checked, check_api_key_sync}

pub after_prefix-append : (p s : Text) → after_prefix p (p ++ s) ≡ some s
unfolding after_prefix
after_prefix-append [] s = refl
after_prefix-append (c ∷ cs) s = ground (arith, after_prefix-append cs s)

after_prefix_ok : (p s r : Text) → after_prefix p s ≡ some r → s ≡ p ++ r
unfolding after_prefix
after_prefix_ok [] s r e = cc e
after_prefix_ok (c ∷ cs) [] r e = absurd (cc e)
after_prefix_ok (c ∷ cs) (d ∷ ds) r e = elim (Bool-cases (c == d)) [
  | inl h ↦
      let rest = after_prefix_ok cs ds r (rw h at e) in
      let same : c ≡ d = ground (arith, h) in rw (same, rest) refl
  | inr h ↦ absurd (ground (arith, e, h))
]

pub unequal : (s t : Text) → s ≢ t → text_eq s t ≡ false
unequal s t n = elim (Bool-cases (text_eq s t)) [
  | inl h ↦ absurd (n ((text_eq_iff s t).0 h))
  | inr h ↦ h
]

find_key_ok :
    (h : Text) (ks : List ApiKey) (k : ApiKey)
    → find_key h ks ≡ some k
    → (i : ℕ) × (get_elem? ks i ≡ some k) × (k.key_hash ≡ h)
unfolding find_key
find_key_ok h [] k e = absurd (cc e)
find_key_ok h (j ∷ ks) k e = elim (Bool-cases (text_eq j.key_hash h)) [
  | inl m ↦
      let same : j ≡ k = cc (rw m at e) in
      (0, ap some same, subst (λ x. x.key_hash ≡ h) same ((text_eq_iff j.key_hash h).0 m))
  | inr m ↦ let (i, at, same) = find_key_ok h ks k (rw m at e) in (suc i, at, same)
]

-- The column is unique.
abbrev pub Unique : List ApiKey → Type 0
Unique ks = Distinct (map (λ j. j.key_hash) ks)

none_else :
    (h : Text) (ks : List ApiKey) (i : ℕ) (k : ApiKey)
    → All (λ x. h ≢ x) (map (λ j. j.key_hash) ks)
    → get_elem? ks i ≡ some k
    → h ≢ k.key_hash
none_else h [] i k a e = absurd (cc e)
none_else h (j ∷ ks) zero k a e = let same : j ≡ k = cc e in subst (λ x. h ≢ x.key_hash) same a.0
none_else h (j ∷ ks) (suc i) k a e = none_else h ks i k a.1 e

pub find_key_lem :
    (ks : List ApiKey) (i : ℕ) (k : ApiKey)
    → Unique ks
    → get_elem? ks i ≡ some k
    → find_key k.key_hash ks ≡ some k
unfolding find_key
find_key_lem [] i k u e = absurd (cc e)
find_key_lem (j ∷ ks) zero k u e =
    let same : j ≡ k = cc e in
    let hit : text_eq j.key_hash k.key_hash ≡ true =
      (text_eq_iff j.key_hash k.key_hash).1 (ap (λ x. x.key_hash) same) in
    rw hit e
find_key_lem (j ∷ ks) (suc i) k u e =
    let other = none_else j.key_hash ks i k u.0 e in
    let miss : text_eq j.key_hash k.key_hash ≡ false = unequal j.key_hash k.key_hash other in
    rw miss (find_key_lem ks i k u.1 e)

checked_ok :
    (now : ℕ) (o : Option ApiKey) (k : ApiKey)
    → checked now o ≡ ok k
    → (o ≡ some k) × (k.is_active ≡ true) × (has_expired k.expires_at now ≡ false)
checked_ok now none k e = absurd (cc e)
checked_ok now (some j) k e = elim (Bool-cases j.is_active) [
  | inr a ↦ absurd (cc (rw a at e))
  | inl a ↦ elim (Bool-cases (has_expired j.expires_at now)) [
    | inl x ↦ absurd (cc (rw (a, x) at e))
    | inr x ↦
        let same : j ≡ k = cc (rw (a, x) at e) in
        (
          ap some same,
          subst (λ y. y.is_active ≡ true) same a,
          subst (λ y. has_expired y.expires_at now ≡ false) same x,
        )
  ]
]

module _ (hash_key : Text → Text) where
  -- The header of a key that may be used now.
  abbrev pub Grants : Text → ℕ → List ApiKey → ApiKey → Type 0
  Grants header now keys k =
      (raw : Text) × (header ≡ codes "Bearer " ++ raw)
      × (k.key_hash ≡ hash_key raw)
      × ((i : ℕ) × (get_elem? keys i ≡ some k))
      × (k.is_active ≡ true)
      × (has_expired k.expires_at now ≡ false)

  pub granted :
      (header : Text) (now : ℕ) (keys : List ApiKey) (k : ApiKey)
      → Unique keys
      → Grants header now keys k
      → check_api_key_sync hash_key header now keys ≡ ok k
  unfolding check_api_key_sync
  granted header now keys k u (raw, is, hash, (i, at), active, valid) =
      rw
        (
          is,
          after_prefix-append (codes "Bearer ") raw,
          ← hash,
          find_key_lem keys i k u at,
          active,
          valid,
        )
        refl

  -- In a table whose hashes differ, a header is accepted as a key exactly when it is `Bearer` with a text
  -- whose hash is that row's, and the row is active and has not expired.
  pub check_api_key_sync-Grants :
      (header : Text) (now : ℕ) (keys : List ApiKey) (k : ApiKey)
      → Unique keys
      → (check_api_key_sync hash_key header now keys ≡ ok k) ↔ Grants header now keys k
  unfolding check_api_key_sync
  check_api_key_sync-Grants header now keys k u = (found, granted header now keys k u)
    where
      found : check_api_key_sync hash_key header now keys ≡ ok k → Grants header now keys k
      found e = elim (Option-cases (after_prefix (codes "Bearer ") header)) [
        | inl p ↦ absurd (cc (rw p at e))
        | inr (raw, p) ↦
            let (row, active, valid) =
              checked_ok now (find_key (hash_key raw) keys) k (rw p at e) in
            let (i, at, hash) = find_key_ok (hash_key raw) keys k row in
            (raw, after_prefix_ok (codes "Bearer ") header raw p, hash, (i, at), active, valid)
      ]
