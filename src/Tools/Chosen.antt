-- ===== src/Tools/Chosen.antt =====
-- Which tests are in scope.
use agent_on_demand.Prelude.{
  ◌≡◌, ◌≤◌, ◌⊎◌, refl, ap, ◌∙◌, Bool, ◌&&◌, ◌||◌, List, [], ◌∷◌, any, length, arith, Bool-cases,
  inl, inr,
}
use agent_on_demand.Prelude.Text.{Text, text_eq, text_eq_iff, text_le}
use agent_on_demand.Tools.Revert.{starts_with}
use agent_on_demand.Tools.Scope.{
  Target, rules, add, update, chosen, apply_rules, tests_of, runtimes_of, scope_of, compute_scope,
}

abbrev pub member : Text → List Text → Bool
member p ts = any (text_eq p) ts

-- A rule matches the path and names the test.
abbrev pub names : Text → Text → Text × Target → Bool
names p path (prefix, target) = starts_with prefix path && member p (chosen path target)

any-add : (f : Text → Bool) (t : Text) (s : List Text) → any f (add t s) ≡ (f t || any f s)
unfolding any add
any-add f t [] = refl
any-add f t (u ∷ us) = elim (Bool-cases (text_eq t u)) [
  | inl h ↦ let same : f t ≡ f u = ap f ((text_eq_iff t u).0 h) in ground (arith, h, same)
  | inr h ↦ elim (Bool-cases (text_le t u)) [
    | inl k ↦ rw (h, k) refl
    | inr k ↦ ground (arith, h, k, any-add f t us)
  ]
]

any-update : (f : Text → Bool) (ts s : List Text) → any f (update ts s) ≡ (any f ts || any f s)
unfolding any update
any-update f [] s = refl
any-update f (t ∷ ts) s = ground (arith, any-update f ts (add t s), any-add f t s)

member-apply_rules :
    (p path : Text) (rs : List (Text × Target)) (tests : List Text)
    → member p (apply_rules rs path tests) ≡ (any (names p path) rs || member p tests)
unfolding any apply_rules
member-apply_rules p path [] tests = refl
member-apply_rules p path ((prefix, target) ∷ rs) tests =
    elim (Bool-cases (starts_with prefix path)) [
      | inl h ↦ rw h (
          ground (
            arith,
            member-apply_rules p path rs (update (chosen path target) tests),
            any-update (text_eq p) (chosen path target) tests,
          ))
      | inr h ↦ rw h (member-apply_rules p path rs tests)
    ]

member-tests_of :
    (p : Text) (files tests : List Text)
    → member p (tests_of files tests)
      ≡ (any (λ path. any (names p path) rules) files || member p tests)
unfolding any tests_of
member-tests_of p [] tests = refl
member-tests_of p (path ∷ files) tests = ground (
  arith,
  member-tests_of p files (apply_rules rules path tests),
  member-apply_rules p path rules tests,
)

tests-scope_of : (tests runtimes : List Text) → (scope_of tests runtimes).tests ≡ tests
tests-scope_of [] runtimes = refl
tests-scope_of (t ∷ ts) runtimes = refl

both_or_none :
    (tests runtimes : List Text)
    → (((scope_of tests runtimes).tests ≡ []) × ((scope_of tests runtimes).runtimes ≡ []))
      ⊎ ((1 ≤ length (scope_of tests runtimes).tests)
          × (1 ≤ length (scope_of tests runtimes).runtimes))
both_or_none [] runtimes = inl (refl, refl)
both_or_none (t ∷ ts) [] = inr (omega arith, omega arith)
both_or_none (t ∷ ts) (r ∷ rs) = inr (omega arith, omega arith)

-- A test is in scope exactly when, for one of the changed files, a rule that matches the file names it:
-- the order of the files, of the rules and repeated files make no difference. There is a runtime to
-- run the tests with exactly when there is a test.
pub compute_scope_lem :
    (p : Text) (changed : List Text)
    → (member p (compute_scope changed).tests ≡ any (λ path. any (names p path) rules) changed)
      × ((((compute_scope changed).tests ≡ []) × ((compute_scope changed).runtimes ≡ []))
          ⊎ ((1 ≤ length (compute_scope changed).tests)
              × (1 ≤ length (compute_scope changed).runtimes)))
unfolding compute_scope any
compute_scope_lem p changed =
    let files = update changed [] in
    (
      ap (member p) (tests-scope_of (tests_of files []) (runtimes_of files []))
          ∙ ground (
            arith,
            member-tests_of p files [],
            any-update (λ path. any (names p path) rules) changed [],
          ),
      both_or_none (tests_of files []) (runtimes_of files []),
    )
