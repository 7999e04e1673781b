-- ===== src/Provisioning.antt =====
-- src/agent_on_demand/session_service/provisioning: the stages with their events. What the backend
-- answers is in the stage's arguments; the clock's durations are left out of the events.
pub mod Session
pub mod Cleanup
pub mod Rows
use Prim.Native.String.{◌++◌ as str_append}
use text.Mathlib.Text.{◌==◌ as str_eq}
use agent_on_demand.Prelude.{
  ℕ, ℤ, String, Bool, true, false, Option, none, some, List, [], ◌∷◌, ◌++◌, map, if◌then◌else◌,
}
use agent_on_demand.Prelude.Result.{Result, ok, err}
use agent_on_demand.Json.{Json, str, arr, Fields, lookup, items}
use agent_on_demand.Environments.{Content}

pub data Stage : Type 0 where
  create_sprite install_runtime network_policy env_file git_credentials provision_setup : Stage
  runtime_config skills : Stage

-- The rows of `emit_stage_event`; a failed one has the exception's message.
pub data StageEvent : Type 0 where
  started done : Stage → StageEvent
  failed : Stage → String → StageEvent

-- BackendError, SpriteError, and any other exception.
pub data Kind : Type 0 where
  backend_error sprite_error other_error : Kind

-- What leaves the code: `provision` is a ProvisionError with its stage, `none` being "unknown".
pub data Raised : Type 0 where
  no_credentials : Raised
  provision : String → Option Stage → Raised
  exception : Kind → String → Raised

abbrev pub message : Raised → String
message no_credentials = "Session backend token is not configured"
message (provision m s) = m
message (exception k m) = m

-- The answer of a backend call, and that of a command: it exits with a code, or the call raises.
pub data Answer : Type 0 where
  does : Answer
  raises : Kind → String → Answer

pub data Ran : Type 0 where
  exits : ℤ → Ran
  run_raises : Kind → String → Ran

-- Whether the sandbox exists on the backend, and the stage rows of the session, oldest first.
pub record Site : Type 0 where
  pub alive : Bool
  pub events : List StageEvent

abbrev pub Act : Type 0
Act = Site → Site × Result Raised (Unit {0})

abbrev pub emit : StageEvent → Site → Site
emit e t = record t { events = t.events ++ e ∷ [] }

abbrev pub closed : Stage → Site × Result Raised (Unit {0}) → Site × Result Raised (Unit {0})
closed s (t, ok x) = (emit (done s) t, ok x)
closed s (t, err e) = (emit (failed s (message e)) t, err e)

-- `with stage_timer(session_id, s): …`.
unfoldable pub stage_timer : Stage → Act → Act
stage_timer s body t = closed s (body (emit (started s) t))

abbrev pub and_then : Site × Result Raised (Unit {0}) → Act → Site × Result Raised (Unit {0})
and_then (t, ok x) k = k t
and_then (t, err e) k = (t, err e)

-- `except BackendError` (false) and `except (BackendError, SpriteError)` (true).
abbrev pub catches : Bool → Kind → Bool
catches b backend_error = true
catches b sprite_error = b
catches b other_error = false

-- A caught exception becomes a ProvisionError of the stage.
unfoldable pub wrap : Bool → String → Stage → Kind → String → Raised
wrap sprites prefix s k m =
    if catches sprites k then provision (str_append prefix m) (some s) else exception k m

unfoldable pub calls : Bool → String → Stage → Answer → Act
calls sprites prefix s does t = (t, ok (tt))
calls sprites prefix s (raises k m) t = (t, err (wrap sprites prefix s k m))

unfoldable pub install : Answer → Act
install a = stage_timer install_runtime (calls true "Failed to install runtime: " install_runtime a)

-- NetworkPolicy: domain and action of each rule.
abbrev pub hosts_in : Option Json → List Json
hosts_in (some (arr hs)) = items hs
hosts_in _ = []

abbrev pub hosts_of : Fields → List Json
hosts_of config = hosts_in (lookup "allowed_hosts" config)

unfoldable pub build_network_policy : Option Content → Option (List (Json × String))
build_network_policy none = none
build_network_policy (some env) =
    if str_eq env.networking_type "limited"
    then some
        (map (λ host. (host, "allow")) (hosts_of env.networking_config) ++ (str "*", "deny") ∷ [])
    else none

unfoldable pub apply_network_policy : Option Content → Answer → Act
apply_network_policy env a = elim (build_network_policy env) [
  | none ↦ λ t. (t, ok tt)
  | some rules ↦
      stage_timer network_policy (calls false "Failed to prepare Sprite: " network_policy a)
]

unfoldable pub write_env_file : Answer → Act
write_env_file a = stage_timer env_file (calls false "Failed to prepare Sprite: " env_file a)

pub record RepoSpec : Type 0 where
  pub url : String
  pub mount_path : String
  pub token : Option String

abbrev credential_line : Option String → List String
credential_line none = []
credential_line (some t) =
    if str_eq t ""
    then []
    else str_append "https://" (str_append t ":x-oauth-basic@github.com") ∷ []

unfoldable pub build_git_credentials_lines : List RepoSpec → List String
build_git_credentials_lines [] = []
build_git_credentials_lines (r ∷ rs) = credential_line r.token ++ build_git_credentials_lines rs

unfoldable pub write_git_credentials : List RepoSpec → Answer → Act
write_git_credentials repos a = elim (build_git_credentials_lines repos) [
  | [] ↦ λ t. (t, ok tt)
  | l ∷ ls ↦
      stage_timer git_credentials (calls false "Failed to prepare Sprite: " git_credentials a)
]
