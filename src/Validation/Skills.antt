-- ===== src/Validation/Skills.antt =====
-- src/agent_on_demand/validation/skill_validation.py, on JSON values. An error keeps the index of the
-- skill and what it names; the other words of the messages are left out.
use text.Mathlib.Text.{◌==◌ as str_eq}
use Prim.Native.String.{◌++◌ as str_append}
use agent_on_demand.Prelude.{
  ℕ, zero, suc, ◌+◌, ◌==◌, ltb, String, Bool, true, false, not, ◌&&◌, ◌||◌, Option, none, some,
  List, [], ◌∷◌, any, length, if◌then◌else◌,
}
use agent_on_demand.Prelude.Result.{Result, ok, err, ◌>>=◌, ◌>>◌}
use agent_on_demand.Prelude.Text.{Text, codes, within}
use agent_on_demand.Json.{Json, str, obj, Items, items, Fields, end, field, lookup}
use agent_on_demand.Validation.{at_end}

pub data SkillError : Type 0 where
  too_many : SkillError
  not_an_object unknown_keys content_too_long delimiter_inside : ℕ → SkillError
  bad_source bad_name duplicate description_too_long : ℕ → SkillError
  missing not_a_string : ℕ → String → SkillError
  unsupported_type : ℕ → String → SkillError

abbrev pub is_lower_or_digit : ℕ → Bool
is_lower_or_digit c = within b'a' b'z' c || within b'0' b'9' c

-- Up to `n` characters of [a-z0-9-], then `$`.
unfoldable pub name_rest : ℕ → Text → Bool
name_rest n [] = true
name_rest zero (c ∷ cs) = at_end c cs
name_rest (suc n) (c ∷ cs) =
    let rest = name_rest n cs in if is_lower_or_digit c || c == b'-' then rest else at_end c cs

-- SKILL_NAME_RE, with `match`.
unfoldable pub is_skill_name : Text → Bool
is_skill_name [] = false
is_skill_name (c ∷ cs) = is_lower_or_digit c && name_rest 63 cs

unfoldable pub is_source_char : ℕ → Bool
is_source_char c = within b'A' b'Z' c || is_lower_or_digit c || c == b'.' || c == b'_' || c == b'-'

unfoldable pub repo_part : Text → Bool
repo_part [] = true
repo_part (c ∷ cs) = let rest = repo_part cs in if is_source_char c then rest else at_end c cs

abbrev repo_start : Text → Bool
repo_start [] = false
repo_start (c ∷ cs) = is_source_char c && repo_part cs

unfoldable pub owner_part : Text → Bool
owner_part [] = false
owner_part (c ∷ cs) =
    let rest = owner_part cs in if c == b'/' then repo_start cs else is_source_char c && rest

-- GITHUB_SOURCE_RE, with `match`.
unfoldable pub is_github_source : Text → Bool
is_github_source [] = false
is_github_source (c ∷ cs) = is_source_char c && owner_part cs

-- `len(s.encode("utf-8"))`.
abbrev utf8_width : ℕ → ℕ
utf8_width c = if ltb c 0x80 then 1 else if ltb c 0x800 then 2 else if ltb c 0x10000 then 3 else 4

unfoldable pub utf8_length : Text → ℕ
utf8_length [] = 0
utf8_length (c ∷ cs) = utf8_width c + utf8_length cs

unfoldable pub starts_with : Text → Text → Bool
starts_with [] s = true
starts_with (c ∷ cs) [] = false
starts_with (c ∷ cs) (d ∷ ds) = c == d && starts_with cs ds

-- `p in s`.
unfoldable pub contains : Text → Text → Bool
contains p [] = starts_with p []
contains p (c ∷ cs) = starts_with p (c ∷ cs) || contains p cs

abbrev pub inline_keys : List String
inline_keys = "name" ∷ "description" ∷ "content" ∷ []

abbrev pub github_keys : List String
github_keys = "type" ∷ "name" ∷ "description" ∷ "source" ∷ []

-- `set(skill) - allowed` is not empty.
unfoldable pub has_extra : List String → Fields → Bool
has_extra allowed end = false
has_extra allowed (field k v fs) = not (any (str_eq k) allowed) || has_extra allowed fs

-- `skill[field]`, a string.
abbrev pub as_string : ℕ → String → Option Json → Result SkillError String
as_string i name none = err (SkillError.missing i name)
as_string i name (some (str s)) = ok s
as_string i name (some _) = err (SkillError.not_a_string i name)

unfoldable pub string_field : ℕ → String → Fields → Result SkillError String
string_field i name skill = as_string i name (lookup name skill)

abbrev pub checked_content : ℕ → String → Result SkillError (Unit {0})
checked_content i content =
    if ltb 65536 (utf8_length (codes content))
    then err (SkillError.content_too_long i)
    else if contains (codes "SKILL_EOF") (codes content)
    then err (SkillError.delimiter_inside i)
    else ok tt

unfoldable pub validate_inline : ℕ → Fields → Result SkillError (Unit {0})
validate_inline i skill =
    if has_extra inline_keys skill
    then err (SkillError.unknown_keys i)
    else (string_field i "name" skill >>= λ n. string_field i "description" skill >>= λ d.
        string_field i "content" skill >>= λ content. checked_content i content)

-- `"name" in skill and not isinstance(skill["name"], str)`.
abbrev pub optional_name : ℕ → Option Json → Result SkillError (Unit {0})
optional_name i none = ok tt
optional_name i (some (str s)) = ok tt
optional_name i (some _) = err (SkillError.not_a_string i "name")

abbrev pub checked_source : ℕ → String → String → Result SkillError (Unit {0})
checked_source i type source =
    if str_eq type "github"
    then (if is_github_source (codes source) then ok tt else err (SkillError.bad_source i))
    else err (SkillError.unsupported_type i type)

-- The required keys stand in a set: which of two missing ones is reported is not fixed.
unfoldable pub validate_github : ℕ → Fields → Result SkillError (Unit {0})
validate_github i skill =
    if has_extra github_keys skill
    then err (SkillError.unknown_keys i)
    else (string_field i "type" skill >>= λ type. string_field i "description" skill >>= λ d.
        string_field i "source" skill >>= λ source.
        optional_name i (lookup "name" skill) >> checked_source i type source)

abbrev pub is_present : Option Json → Bool
is_present none = false
is_present (some v) = true

-- What is a string by now; other values do not come here.
abbrev pub text_or_blank : Option Json → String
text_or_blank (some (str s)) = s
text_or_blank _ = ""

abbrev pub checked_name : ℕ → String → Result SkillError String
checked_name i name = if is_skill_name (codes name) then ok name else err (SkillError.bad_name i)

unfoldable pub dedup_key : ℕ → Fields → Result SkillError String
dedup_key i skill =
    if is_present (lookup "name" skill)
    then checked_name i (text_or_blank (lookup "name" skill))
    else ok (str_append "@github:" (text_or_blank (lookup "source" skill)))

abbrev pub shape : ℕ → Fields → Result SkillError (Unit {0})
shape i skill =
    if is_present (lookup "type" skill) then validate_github i skill else validate_inline i skill

-- The checks behind the key: no duplicate, and the description's length.
abbrev pub checked_key : ℕ → List String → Fields → String → Result SkillError String
checked_key i seen skill key =
    if any (str_eq key) seen
    then err (SkillError.duplicate i)
    else if ltb 1024 (length (codes (text_or_blank (lookup "description" skill))))
    then err (SkillError.description_too_long i)
    else ok key

-- One round of the loop: the key that joins `seen`.
unfoldable pub validate_skill : ℕ → List String → Json → Result SkillError String
validate_skill i seen (obj skill) =
    shape i skill >> (dedup_key i skill >>= λ key. checked_key i seen skill key)
validate_skill i seen _ = err (SkillError.not_an_object i)

unfoldable pub validate_each : ℕ → List String → List Json → Result SkillError (Unit {0})
validate_each i seen [] = ok tt
validate_each i seen (s ∷ ss) =
    validate_skill i seen s >>= λ key. validate_each (i + 1) (key ∷ seen) ss

unfoldable pub validate_skills : Items → Result SkillError (Unit {0})
validate_skills skills =
    if ltb 20 (length (items skills))
    then err SkillError.too_many
    else validate_each 0 [] (items skills)
