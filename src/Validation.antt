-- ===== src/Validation.antt =====
-- The request validators of src/agent_on_demand/validation: the keys of environment_validation.py and
-- the repositories of github_resource_validation.py. `err` is the ValueError, the dicts are their items.
pub mod Keys
pub mod Repositories
pub mod Skills
pub mod Servers
pub mod Networking
pub mod Firewall
use agent_on_demand.Prelude.{
  ℕ, ◌==◌, ltb, Bool, true, false, not, ◌&&◌, ◌||◌, Option, none, some, List, [], ◌∷◌, ◌++◌, any,
  all, length, if◌then◌else◌,
}
use agent_on_demand.Prelude.Result.{Result, ok, err}
use agent_on_demand.Prelude.Text.{Text, codes, text_eq, within}
use agent_on_demand.Scripts.{is_blank}

pub data ValueError : Type 0 where
  unknown_manager invalid_key : Text → ValueError
  not_a_github_url not_absolute at_the_root too_many duplicate : ValueError

abbrev is_letter : ℕ → Bool
is_letter c = within b'A' b'Z' c || within b'a' b'z' c

unfoldable pub is_key_start : ℕ → Bool
is_key_start c = is_letter c || c == b'_'

unfoldable pub is_key_char : ℕ → Bool
is_key_char c = is_key_start c || within b'0' b'9' c

-- ENV_VAR_KEY_RE, with `fullmatch`.
unfoldable pub is_env_var_key : Text → Bool
is_env_var_key [] = false
is_env_var_key (c ∷ cs) = is_key_start c && all is_key_char cs

unfoldable pub first_bad_key : List (Text × Text) → Option Text
first_bad_key [] = none
first_bad_key ((k, v) ∷ xs) = if is_env_var_key k then first_bad_key xs else some k

unfoldable pub validate_env_vars : List (Text × Text) → Result ValueError (List (Text × Text))
validate_env_vars xs = elim (first_bad_key xs) [
  | none ↦ ok xs
  | some k ↦ err (ValueError.invalid_key k)
]

-- [\w.-] with re.ASCII.
unfoldable pub is_name_char : ℕ → Bool
is_name_char c = is_key_char c || c == b'.' || c == b'-'

-- `$` of a pattern that is matched with `match`: the end, or a last newline.
abbrev pub at_end : ℕ → Text → Bool
at_end c cs = c == b'\n' && is_blank cs

unfoldable pub repo_rest : Text → Bool
repo_rest [] = true
repo_rest (c ∷ cs) = let rest = repo_rest cs in if is_name_char c then rest else at_end c cs

unfoldable pub repo : Text → Bool
repo [] = false
repo (c ∷ cs) = is_name_char c && repo_rest cs

unfoldable pub owner_rest : Text → Bool
owner_rest [] = false
owner_rest (c ∷ cs) =
    let rest = owner_rest cs in if c == b'/' then repo cs else is_name_char c && rest

unfoldable pub owner : Text → Bool
owner [] = false
owner (c ∷ cs) = is_name_char c && owner_rest cs

unfoldable pub behind : Text → Text → Option Text
behind [] s = some s
behind (c ∷ cs) [] = none
behind (c ∷ cs) (d ∷ ds) = if c == d then behind cs ds else none

-- GITHUB_URL_RE. Its `(\.git)?` adds nothing to a name, which may hold dots.
unfoldable pub is_github_url : Text → Bool
is_github_url url = elim (behind (codes "https://github.com/") url) [
  | none ↦ false
  | some s ↦ owner s
]

-- `s.removesuffix(suffix)`, for a suffix that is not empty.
unfoldable pub removesuffix : Text → Text → Text
removesuffix suffix [] = []
removesuffix suffix (c ∷ cs) =
    let rest = removesuffix suffix cs in if text_eq (c ∷ cs) suffix then [] else c ∷ rest

unfoldable pub validate_github_url : Text → Result ValueError Text
validate_github_url url =
    if is_github_url url
    then ok (removesuffix (codes ".git") url)
    else err ValueError.not_a_github_url

unfoldable pub is_reserved : Text → Bool
is_reserved path = text_eq path (codes "/") || text_eq path (codes "/home/sprite")

abbrev pub is_absolute : Text → Bool
is_absolute [] = false
is_absolute (c ∷ cs) = c == b'/'

unfoldable pub validate_mount_path : Option Text → Result ValueError (Option Text)
validate_mount_path none = ok none
validate_mount_path (some path) =
    if not (is_absolute path)
    then err ValueError.not_absolute
    else if is_reserved path
    then err ValueError.at_the_root
    else ok (some path)

-- `url.rstrip("/")`.
abbrev pub unslashed : ℕ → Text → Text
unslashed c [] = if c == b'/' then [] else c ∷ []
unslashed c (d ∷ ds) = c ∷ d ∷ ds

unfoldable pub rstrip_slash : Text → Text
rstrip_slash [] = []
rstrip_slash (c ∷ cs) = unslashed c (rstrip_slash cs)

-- `s.split("/")[-1]`.
unfoldable pub last_segment : Text → Text → Text
last_segment so_far [] = so_far
last_segment so_far (c ∷ cs) = last_segment (if c == b'/' then [] else so_far ++ c ∷ []) cs

abbrev default_path : Text → Text
default_path url = codes "/workspace/" ++ last_segment [] (rstrip_slash url)

unfoldable pub resolved_mount_path : Text → Option Text → Text
resolved_mount_path url none = default_path url
resolved_mount_path url (some path) = if is_blank path then default_path url else path

-- VALID_PACKAGE_MANAGERS.
unfoldable pub is_package_manager : Text → Bool
is_package_manager m =
    any (text_eq m)
      (codes "apt" ∷ codes "cargo" ∷ codes "gem" ∷ codes "go" ∷ codes "npm" ∷ codes "pip" ∷ [])

unfoldable pub unknown : List (Text × List Text) → Option Text
unknown [] = none
unknown ((m, ps) ∷ rest) = if is_package_manager m then unknown rest else some m

unfoldable pub validate_packages :
    List (Text × List Text) → Result ValueError (List (Text × List Text))
validate_packages packages = elim (unknown packages) [
  | none ↦ ok packages
  | some m ↦ err (ValueError.unknown_manager m)
]

-- `len(xs) != len(set(xs))`.
unfoldable pub has_duplicate : List Text → Bool
has_duplicate [] = false
has_duplicate (x ∷ xs) = any (text_eq x) xs || has_duplicate xs

unfoldable pub validate_resources_count_and_dedup : List Text → Option ValueError
validate_resources_count_and_dedup paths =
    if ltb 10 (length paths)
    then some ValueError.too_many
    else if has_duplicate paths
    then some ValueError.duplicate
    else none
