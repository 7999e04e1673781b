-- ===== src/Tests/Maintenance.antt =====
-- A failed deploy, and changes with and without tests in scope.
use agent_on_demand.Prelude.{
  ◌≡◌, ◌≤◌, ◌≢◌, ◌⊎◌, refl, Bool, true, false, Option, some, List, [], ◌∷◌, ◌++◌, any, count,
  length, All, arith, leb,
}
use agent_on_demand.Prelude.Text.{Text, codes}
use agent_on_demand.Json.{Json, str}
use agent_on_demand.Auth.{after_prefix}
use agent_on_demand.Tools.Revert.{FailedDeploy, PullRequest, Command, process_deploys, starts_with}
use agent_on_demand.Tools.Once.{is_for, Justified, process_deploys-Justified, process_deploys_once}
use agent_on_demand.Tools.Scope.{rules, add, update, apply_rules, tests_of, compute_scope}
use agent_on_demand.Tools.Chosen.{member, names, compute_scope_lem}

abbrev failed : FailedDeploy
failed = record {
  deploy_id = str "dep-1";
  commit_sha = codes "0123456789abcdef";
  status = codes "build_failed";
  finished_at = str "";
  service_id = codes "srv-1";
}

abbrev as_str : Json → Text
as_str (str s) = codes s
as_str v = []

abbrev subject : Text → Option Text
subject sha = some (codes "Add a view")

abbrev files : Text → Option (List Text)
files sha = some (codes "src/agent_on_demand/migrations/0002.py" ∷ [])

abbrev search : Text → List PullRequest → Option Bool
search t pulls = some (leb 1 (count (is_for t) pulls))

abbrev succeeds : Command → Bool
succeeds c = true

search_finds :
    (t : Text) (pulls : List PullRequest) → 1 ≤ count (is_for t) pulls → search t pulls ≢ some false
search_finds t pulls h e = absurd (ground (arith, h, e))

process_deploys_once_example :
    count
      (is_for (codes "0123456789ab"))
      (process_deploys as_str subject files search succeeds false [] (failed ∷ failed ∷ []) [])
    ≤ 1
unfolding count
process_deploys_once_example =
    process_deploys_once as_str subject files search succeeds search_finds (codes "0123456789ab")
      false [] (failed ∷ failed ∷ []) [] (omega arith)

process_deploys-Justified_example :
    (new : List PullRequest) × (process_deploys as_str subject files search succeeds false []
        (failed ∷ failed ∷ [])
        []
      ≡ new ++ [])
    × All (Justified as_str subject files search succeeds false (failed ∷ failed ∷ [])) new
process_deploys-Justified_example =
    process_deploys-Justified as_str subject files search succeeds false [] (failed ∷ failed ∷ [])
      []

abbrev changed : List Text
changed =
    codes "src/agent_on_demand/views/agents.py" ∷ codes "src/agent_on_demand/versioning.py" ∷ []

compute_scope_lem_example :
    (member (codes "tests/e2e/test_environments.py") (compute_scope changed).tests
      ≡ any (λ path. any (names (codes "tests/e2e/test_environments.py") path) rules) changed)
    × ((((compute_scope changed).tests ≡ []) × ((compute_scope changed).runtimes ≡ []))
        ⊎ ((1 ≤ length (compute_scope changed).tests)
            × (1 ≤ length (compute_scope changed).runtimes)))
compute_scope_lem_example = compute_scope_lem (codes "tests/e2e/test_environments.py") changed

-- A path that no rule names brings no test into scope.
validators_unscoped :
    (compute_scope (codes "src/agent_on_demand/validation/skill_validation.py" ∷ [])).tests ≡ []
unfolding compute_scope tests_of apply_rules rules starts_with after_prefix update add
validators_unscoped = refl
