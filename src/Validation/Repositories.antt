-- ===== src/Validation/Repositories.antt =====
-- What github_resource_validation.py lets through.
use mathlib.Core.List.{append_assoc}
use agent_on_demand.Prelude.{
  ℕ, ◌==◌, ◌≤◌, ◌≡◌, ◌≢◌, refl, sym, ap, ◌∙◌, true, false, none, List, [], ◌∷◌, ◌++◌, all, any,
  length, All, Distinct, arith, Bool-cases, inl, inr,
}
use agent_on_demand.Prelude.Result.{ok}
use agent_on_demand.Prelude.Text.{Text, codes, text_eq, text_eq_iff}
use agent_on_demand.Validation.{
  is_key_start, is_key_char, is_name_char, repo, repo_rest, owner, owner_rest, behind,
  is_github_url, removesuffix, validate_github_url, has_duplicate,
  validate_resources_count_and_dedup,
}

abbrev newline : Text
newline = b'\n' ∷ []

repo_rest-newline : (r : Text) → all is_name_char r ≡ true → repo_rest (r ++ newline) ≡ true
unfolding repo_rest all is_name_char is_key_char is_key_start
repo_rest-newline [] h = refl
repo_rest-newline (c ∷ cs) h = ground (arith, h, repo_rest-newline cs)

owner_rest_lem : (o s : Text) → all is_name_char o ≡ true → owner_rest (o ++ b'/' ∷ s) ≡ repo s
unfolding owner_rest all is_name_char is_key_char is_key_start
owner_rest_lem [] s h = refl
owner_rest_lem (c ∷ cs) s h = ground (arith, h, owner_rest_lem cs s)

-- No text that ends in a newline is `.git` or longer with that end.
other_end : (s u : Text) → any (λ c. c == b'\n') u ≡ false → text_eq (s ++ newline) u ≡ false
unfolding text_eq any
other_end [] [] h = refl
other_end [] (c ∷ cs) h = ground (arith, h)
other_end (d ∷ ds) [] h = refl
other_end (d ∷ ds) (c ∷ cs) h = ground (arith, h, other_end ds cs)

removesuffix-newline : (s : Text) → removesuffix (codes ".git") (s ++ newline) ≡ s ++ newline
unfolding removesuffix text_eq any
removesuffix-newline [] = refl
removesuffix-newline (c ∷ cs) =
    rw (other_end (c ∷ cs) (codes ".git") refl) (ap (λ t. c ∷ t) (removesuffix-newline cs))

-- A URL of an owner and a repository.
abbrev pub url_of : Text → Text → Text
url_of o r = codes "https://github.com/" ++ (o ++ (b'/' ∷ r))

accepted :
    (c : ℕ) (o : Text) (d : ℕ) (r : Text)
    → all is_name_char (c ∷ o) ≡ true
    → all is_name_char (d ∷ r) ≡ true
    → is_github_url (url_of (c ∷ o) ((d ∷ r) ++ newline)) ≡ true
unfolding is_github_url behind owner repo all
accepted c o d r h k =
    let first : is_name_char c ≡ true = ground (arith, h) in
    let name : is_name_char d ≡ true = ground (arith, k) in
    rw (first, owner_rest_lem o ((d ∷ r) ++ newline) (ground (arith, h)), name)
      (repo_rest-newline r (ground (arith, k)))

kept :
    (o r : Text) → removesuffix (codes ".git") (url_of o (r ++ newline)) ≡ url_of o (r ++ newline)
kept o r =
    ap (removesuffix (codes ".git")) (sym regroup) ∙ removesuffix-newline (url_of o r) ∙ regroup
  where
    regroup : url_of o r ++ newline ≡ url_of o (r ++ newline)
    regroup = ap (λ t. codes "https://github.com/" ++ t) (append_assoc o (b'/' ∷ r) newline)

-- A URL with a newline behind it is accepted, for every owner and repository: `$` also matches before
-- a last newline. The URL is kept with the newline, and with a `.git` in front of it.
pub validate_github_url-newline :
    (c : ℕ) (o : Text) (d : ℕ) (r : Text)
    → all is_name_char (c ∷ o) ≡ true
    → all is_name_char (d ∷ r) ≡ true
    → validate_github_url (url_of (c ∷ o) ((d ∷ r) ++ newline))
      ≡ ok (url_of (c ∷ o) ((d ∷ r) ++ newline))
unfolding validate_github_url
validate_github_url-newline c o d r h k = rw (accepted c o d r h k) (ap ok (kept (c ∷ o) (d ∷ r)))

not_any : (x : Text) (xs : List Text) → any (text_eq x) xs ≡ false → All (λ (y : Text). x ≢ y) xs
unfolding any
not_any x [] h = tt
not_any x (y ∷ ys) h =
    ((λ e. absurd (ground (arith, h, (text_eq_iff x y).1 e))), not_any x ys (ground (arith, h)))

has_duplicate-Distinct : (xs : List Text) → has_duplicate xs ≡ false → Distinct xs
unfolding has_duplicate
has_duplicate-Distinct [] h = tt
has_duplicate-Distinct (x ∷ xs) h =
    (not_any x xs (ground (arith, h)), has_duplicate-Distinct xs (ground (arith, h)))

-- If the mount paths of a request's repositories are accepted, then there are at most ten of them and
-- no two are the same.
pub validate_resources-Distinct :
    (paths : List Text)
    → validate_resources_count_and_dedup paths ≡ none
    → (length paths ≤ 10) × Distinct paths
unfolding validate_resources_count_and_dedup
validate_resources-Distinct paths h = elim (Bool-cases (has_duplicate paths)) [
  | inl d ↦ absurd (ground (arith, h, d))
  | inr d ↦ (ground (arith, h, d), has_duplicate-Distinct paths d)
]
