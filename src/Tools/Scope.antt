-- ===== src/Tools/Scope.antt =====
-- scripts/scope_e2e.py: which end-to-end tests a change wants. A set is its sorted list.
use agent_on_demand.Prelude.{
  Bool, true, ◌&&◌, Option, none, some, List, [], ◌∷◌, ◌++◌, map, if◌then◌else◌,
}
use agent_on_demand.Prelude.Text.{Text, codes, text_eq, text_le}
use agent_on_demand.Tools.Revert.{starts_with}

pub data Target : Type 0 where
  all_tests pass_through : Target
  these : List Text → Target

abbrev pub test_agents : Text
test_agents = codes "test_agents.py"

abbrev pub test_environments : Text
test_environments = codes "test_environments.py"

abbrev pub test_sessions : Text
test_sessions = codes "test_sessions.py"

abbrev pub test_skills : Text
test_skills = codes "test_skills.py"

abbrev pub test_mcp : Text
test_mcp = codes "test_mcp.py"

-- ALL_E2E.
abbrev pub all_e2e : List Text
all_e2e = test_agents ∷ test_environments ∷ test_sessions ∷ test_skills ∷ test_mcp ∷ []

abbrev spawning : Target
spawning = these (test_sessions ∷ test_skills ∷ test_mcp ∷ [])

-- RULES.
unfoldable pub rules : List (Text × Target)
rules =
    (codes "src/agent_on_demand/auth.py", all_tests)
    ∷ (codes "src/agent_on_demand/crypto.py", all_tests)
    ∷ (codes "src/config/", all_tests)
    ∷ (codes "src/agent_on_demand/runtimes/__init__.py", all_tests)
    ∷ (codes "src/agent_on_demand/runtimes/base.py", all_tests)
    ∷ (codes "src/agent_on_demand/observability.py", all_tests)
    ∷ (codes "src/agent_on_demand/signals.py", all_tests)
    ∷ (codes "src/agent_on_demand/tasks.py", all_tests)
    ∷ (codes "src/agent_on_demand/urls.py", all_tests)
    ∷ (codes "src/agent_on_demand/versioning.py", these (test_agents ∷ test_environments ∷ []))
    ∷ (codes "src/agent_on_demand/session_state.py", these (test_sessions ∷ []))
    ∷ (codes "src/agent_on_demand/views/agents.py", these (test_agents ∷ []))
    ∷ (codes "src/agent_on_demand/models/agents.py", these (test_agents ∷ []))
    ∷ (codes "src/agent_on_demand/views/environments.py", these (test_environments ∷ []))
    ∷ (codes "src/agent_on_demand/models/environments.py", these (test_environments ∷ []))
    ∷ (codes "src/agent_on_demand/views/sessions", these (test_sessions ∷ []))
    ∷ (codes "src/agent_on_demand/models/sessions.py", these (test_sessions ∷ []))
    ∷ (codes "src/agent_on_demand/stream.py", these (test_sessions ∷ []))
    ∷ (codes "src/agent_on_demand/session_service/", spawning)
    ∷ (codes "src/agent_on_demand/runtimes/claude.py", spawning)
    ∷ (codes "src/agent_on_demand/runtimes/codex.py", spawning)
    ∷ (codes "src/agent_on_demand/runtimes/gemini.py", spawning)
    ∷ (codes "src/agent_on_demand/runtimes/opencode.py", spawning)
    ∷ (codes "src/agent_on_demand/models_catalog.py", all_tests)
    ∷ (codes "src/agent_on_demand/models/auth.py", all_tests)
    ∷ (codes "tests/e2e/", pass_through)
    ∷ []

-- RUNTIME_PATHS, the path first.
unfoldable pub runtime_paths : List (Text × Text)
runtime_paths =
    (codes "src/agent_on_demand/runtimes/claude.py", codes "claude")
    ∷ (codes "src/agent_on_demand/runtimes/codex.py", codes "codex")
    ∷ (codes "src/agent_on_demand/runtimes/gemini.py", codes "gemini")
    ∷ (codes "src/agent_on_demand/runtimes/opencode.py", codes "opencode")
    ∷ []

-- `s.add(t)`.
unfoldable pub add : Text → List Text → List Text
add t [] = t ∷ []
add t (u ∷ us) =
    let rest = add t us in
    if text_eq t u then u ∷ us else if text_le t u then t ∷ u ∷ us else u ∷ rest

unfoldable pub update : List Text → List Text → List Text
update [] s = s
update (t ∷ ts) s = update ts (add t s)

-- `path.endswith(".py")`.
unfoldable pub ends_with : Text → Text → Bool
ends_with p [] = text_eq p []
ends_with p (c ∷ cs) = let rest = ends_with p cs in if text_eq p (c ∷ cs) then true else rest

abbrev pub is_test_file : Text → Bool
is_test_file path = starts_with (codes "tests/e2e/test_") path && ends_with (codes ".py") path

abbrev pub in_e2e : Text → Text
in_e2e f = codes "tests/e2e/" ++ f

-- What a rule that matches adds.
abbrev pub chosen : Text → Target → List Text
chosen path all_tests = map in_e2e all_e2e
chosen path pass_through = if is_test_file path then path ∷ [] else []
chosen path (these fs) = map in_e2e fs

unfoldable pub apply_rules : List (Text × Target) → Text → List Text → List Text
apply_rules [] path tests = tests
apply_rules ((prefix, target) ∷ rs) path tests =
    apply_rules rs path
      (if starts_with prefix path then update (chosen path target) tests else tests)

unfoldable pub tests_of : List Text → List Text → List Text
tests_of [] tests = tests
tests_of (path ∷ files) tests = tests_of files (apply_rules rules path tests)

-- The first runtime with this path.
unfoldable pub runtime_at : List (Text × Text) → Text → Option Text
runtime_at [] path = none
runtime_at ((p, runtime) ∷ rs) path =
    let rest = runtime_at rs path in if text_eq path p then some runtime else rest

abbrev pub added : Option Text → List Text → List Text
added none s = s
added (some r) s = add r s

unfoldable pub runtimes_of : List Text → List Text → List Text
runtimes_of [] s = s
runtimes_of (path ∷ files) s = runtimes_of files (added (runtime_at runtime_paths path) s)

pub record Scope : Type 0 where
  pub tests : List Text
  pub runtimes : List Text

abbrev or_claude : List Text → List Text
or_claude [] = codes "claude" ∷ []
or_claude (r ∷ rs) = r ∷ rs

abbrev pub scope_of : List Text → List Text → Scope
scope_of [] runtimes = record { tests = []; runtimes = [] }
scope_of (t ∷ ts) runtimes = record { tests = t ∷ ts; runtimes = or_claude runtimes }

unfoldable pub compute_scope : List Text → Scope
compute_scope changed =
    let files = update changed [] in scope_of (tests_of files []) (runtimes_of files [])
