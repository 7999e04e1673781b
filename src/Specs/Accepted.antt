-- ===== src/Specs/Accepted.antt =====
-- What an accepted skill holds.
use text.Mathlib.Text.{◌==◌ as str_eq}
use text.Mathlib.TextEquality.{eq_iff}
use agent_on_demand.Prelude.{
  ℕ, String, ◌≡◌, ◌⊎◌, refl, true, false, Option, none, some, List, any, arith, Bool-cases, inl,
  inr,
}
use agent_on_demand.Prelude.Result.{ok, bind_ok}
use agent_on_demand.Prelude.Text.{codes}
use agent_on_demand.Json.{Json, null, bool, int, str, arr, obj, Fields, lookup}
use agent_on_demand.Validation.Skills.{
  is_skill_name, is_github_source, string_field, validate_inline, validate_github, optional_name,
  checked_source, checked_name, checked_key, as_string, has_extra, inline_keys, github_keys,
}

as_string_ok :
    (i : ℕ) (k : String) (v : Option Json) (s : String) → as_string i k v ≡ ok s → v ≡ some (str s)
as_string_ok i k (some (str t)) s e = cc
as_string_ok i k none s e = absurd (cc e)
as_string_ok i k (some null) s e = absurd (cc e)
as_string_ok i k (some (bool b)) s e = absurd (cc e)
as_string_ok i k (some (int n)) s e = absurd (cc e)
as_string_ok i k (some (arr vs)) s e = absurd (cc e)
as_string_ok i k (some (obj fs)) s e = absurd (cc e)

string_field_ok :
    (i : ℕ) (k : String) (d : Fields) (s : String)
    → string_field i k d ≡ ok s
    → lookup k d ≡ some (str s)
unfolding string_field
string_field_ok i k d s e = as_string_ok i k (lookup k d) s e

-- What an accepted inline skill holds.
pub inline_fields :
    (i : ℕ) (d : Fields)
    → validate_inline i d ≡ ok tt
    → (n : String) × (c : String) × (lookup "name" d ≡ some (str n))
      × (lookup "content" d ≡ some (str c))
unfolding validate_inline
inline_fields i d e = elim (Bool-cases (has_extra inline_keys d)) [
  | inl h ↦ absurd (ground (arith, e, h))
  | inr h ↦
      let (n, en, e1) = bind_ok (string_field i "name" d) _ tt (rw h at e) in
      let (t, et, e2) = bind_ok (string_field i "description" d) _ tt e1 in
      let (c, ec, e3) = bind_ok (string_field i "content" d) _ tt e2 in
      (n, c, string_field_ok i "name" d n en, string_field_ok i "content" d c ec)
]

checked_source_ok :
    (i : ℕ) (t s : String)
    → checked_source i t s ≡ ok tt
    → (t ≡ "github") × (is_github_source (codes s) ≡ true)
checked_source_ok i t s e = elim (Bool-cases (str_eq t "github")) [
  | inl h ↦ ((eq_iff t "github").0 h, ground (arith, e, h))
  | inr h ↦ absurd (ground (arith, e, h))
]

optional_name_ok :
    (i : ℕ) (v : Option Json) (u : Unit {0})
    → optional_name i v ≡ ok u
    → (v ≡ none) ⊎ ((n : String) × (v ≡ some (str n)))
optional_name_ok i none u e = inl refl
optional_name_ok i (some (str t)) u e = inr (t, refl)
optional_name_ok i (some null) u e = absurd (cc e)
optional_name_ok i (some (bool b)) u e = absurd (cc e)
optional_name_ok i (some (int n)) u e = absurd (cc e)
optional_name_ok i (some (arr vs)) u e = absurd (cc e)
optional_name_ok i (some (obj fs)) u e = absurd (cc e)

-- The same of one from a repository; its name is a string where it is there.
pub github_fields :
    (i : ℕ) (d : Fields)
    → validate_github i d ≡ ok tt
    → (s : String) × (lookup "type" d ≡ some (str "github"))
      × (lookup "source" d ≡ some (str s))
      × (is_github_source (codes s) ≡ true)
      × ((lookup "name" d ≡ none) ⊎ ((n : String) × (lookup "name" d ≡ some (str n))))
unfolding validate_github
github_fields i d e = elim (Bool-cases (has_extra github_keys d)) [
  | inl h ↦ absurd (ground (arith, e, h))
  | inr h ↦
      let (t, et, e1) = bind_ok (string_field i "type" d) _ tt (rw h at e) in
      let (x, ex, e2) = bind_ok (string_field i "description" d) _ tt e1 in
      let (s, es, e3) = bind_ok (string_field i "source" d) _ tt e2 in
      let (u, eu, e4) = bind_ok (optional_name i (lookup "name" d)) _ tt e3 in
      let (same, good) = checked_source_ok i t s e4 in
      let type_is : lookup "type" d ≡ some (str "github") =
        rw (string_field_ok i "type" d t et, same) refl in
      (
        s,
        type_is,
        string_field_ok i "source" d s es,
        good,
        optional_name_ok i (lookup "name" d) u eu,
      )
]

pub checked_name_ok :
    (i : ℕ) (n k : String) → checked_name i n ≡ ok k → (n ≡ k) × (is_skill_name (codes n) ≡ true)
checked_name_ok i n k e = elim (Bool-cases (is_skill_name (codes n))) [
  | inl h ↦ (ground (arith, e, h), h)
  | inr h ↦ absurd (ground (arith, e, h))
]

pub checked_key_ok :
    (i : ℕ) (seen : List String) (d : Fields) (k key : String)
    → checked_key i seen d k ≡ ok key
    → (k ≡ key) × (any (str_eq k) seen ≡ false)
checked_key_ok i seen d k key e = elim (Bool-cases (any (str_eq k) seen)) [
  | inl h ↦ absurd (ground (arith, e, h))
  | inr h ↦ (ground (arith, e, h), h)
]
