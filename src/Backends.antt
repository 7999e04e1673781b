-- ===== src/Backends.antt =====
-- src/agent_on_demand/session_service/backends: the adapter of sprites.py with the registry, client.py, and the
-- callers `resume_session` and `destroy_session` of provisioning/orchestrator.py. The SDK is a parameter: its
-- calls on the state of the remote service, with what they raise.
pub mod Destroy
use text.Mathlib.Text.{◌==◌ as str_eq}
use Prim.Native.String.{◌++◌ as str_append}
use agent_on_demand.Prelude.{
  ℕ, String, ℤ, pos, Bool, true, false, Option, none, some, List, [], ◌∷◌, ◌==◌, if◌then◌else◌,
}
use agent_on_demand.Prelude.Result.{Result, ok, err}
use agent_on_demand.Prelude.Text.{Text}

-- What a call of the SDK raises: NotFoundError, another SpriteError, or anything else; and what a command
-- ends with, ExecError being its exit code.
pub data SdkError : Type 0 where
  not_found sprite_error other : String → SdkError

pub data SdkRun : Type 0 where
  exits : SdkRun
  exec_error : ℤ → SdkRun
  raises : SdkError → SdkRun

pub record PolicyRule : Type 0 where
  pub domain : String
  pub action : String

pub record Sdk (S : Type 0) : Type 0 where
  pub create_sprite : String → S → S × Result SdkError (Unit {0})
  pub get_sprite : String → S → S × Result SdkError (Unit {0})
  pub delete_sprite : String → S → S × Result SdkError (Unit {0})
  -- On the sprite with a name: a file's path, and what is written; its mode; the policy; a command.
  pub sdk_write_text : String → Text → Text → S → S × Result SdkError (Unit {0})
  pub sdk_chmod : String → Text → ℕ → S → S × Result SdkError (Unit {0})
  pub update_network_policy : String → List PolicyRule → S → S × Result SdkError (Unit {0})
  pub run_command : String → List Text → S → S × SdkRun

-- BackendError, its subclass SessionNotFoundError, and an exception of the SDK that no one translates.
pub data Raised : Type 0 where
  backend_error session_not_found : String → Raised
  native : String → Raised

-- `except SpriteError`, and with `except NotFoundError` in front.
abbrev pub as_backend_error : SdkError → Raised
as_backend_error (not_found m) = backend_error m
as_backend_error (sprite_error m) = backend_error m
as_backend_error (other m) = native m

abbrev pub as_not_found : SdkError → Raised
as_not_found (not_found m) = session_not_found m
as_not_found e = as_backend_error e

abbrev pub translated {ℓ} :
    {S : Type 0} {A : Type ℓ} → (SdkError → Raised) → S × Result SdkError A → S × Result Raised A
translated f (s, ok a) = (s, ok a)
translated f (s, err e) = (s, err (f e))

-- `path.lstrip("/")`.
unfoldable pub lstrip_slash : Text → Text
lstrip_slash [] = []
lstrip_slash (c ∷ cs) = let rest = lstrip_slash cs in if c == b'/' then rest else c ∷ cs

abbrev pub exit_code : SdkRun → Result Raised ℤ
exit_code exits = ok (pos 0)
exit_code (exec_error code) = ok code
exit_code (raises e) = err (as_backend_error e)

-- `get_backend`: the table has one entry.
unfoldable pub is_registered : String → Bool
is_registered backend = str_eq backend "sprites"

abbrev pub swallowed : {S : Type 0} → S × Result Raised (Unit {0}) → S × Result Raised (Unit {0})
swallowed (s, err (native m)) = (s, err (native m))
swallowed (s, _) = (s, ok tt)

-- The errors of client.py and of resume_session.
pub data ServiceError : Type 0 where
  no_credentials : ServiceError
  handle_not_found : String → ServiceError
  raised : Raised → ServiceError

module _ {S : Type 0} (sdk : Sdk S) where
  unfoldable pub write_text : String → Text → Text → S → S × Result Raised (Unit {0})
  write_text name path content s =
      translated as_backend_error (sdk.sdk_write_text name (lstrip_slash path) content s)

  unfoldable pub chmod : String → Text → ℕ → S → S × Result Raised (Unit {0})
  chmod name path mode s =
      translated as_backend_error (sdk.sdk_chmod name (lstrip_slash path) mode s)

  unfoldable pub run : String → List Text → S → S × Result Raised ℤ
  run name argv s = let (t, r) = sdk.run_command name argv s in (t, exit_code r)

  unfoldable pub apply_network_policy : String → List PolicyRule → S → S × Result Raised (Unit {0})
  apply_network_policy name rules s =
      translated as_not_found (sdk.update_network_policy name rules s)

  unfoldable pub provision : String → S → S × Result Raised (Unit {0})
  provision name s = translated as_backend_error (sdk.create_sprite name s)

  unfoldable pub get : String → S → S × Result Raised (Unit {0})
  get name s = translated as_not_found (sdk.get_sprite name s)

  unfoldable pub destroy : String → S → S × Result Raised (Unit {0})
  destroy name s = translated as_not_found (sdk.delete_sprite name s)

  unfoldable pub best_effort_delete : String → S → S × Result Raised (Unit {0})
  best_effort_delete name s = swallowed (destroy name s)

-- `get_client`: an unknown backend raises, a missing token gives None.
unfoldable pub get_client : String → String → Result ServiceError Bool
get_client token backend =
    if is_registered backend
    then (if str_eq token "" then ok false else ok true)
    else err ServiceError.no_credentials

abbrev pub required : Result ServiceError Bool → Result ServiceError (Unit {0})
required (ok true) = ok tt
required (ok false) = err ServiceError.no_credentials
required (err e) = err e

unfoldable pub require_client : String → String → Result ServiceError (Unit {0})
require_client token backend = required (get_client token backend)

-- `except BackendError`.
abbrev pub resumed {ℓ} : {S : Type 0} {A : Type ℓ} → S × Result Raised A → S × Result ServiceError A
resumed (s, ok a) = (s, ok a)
resumed (s, err (native m)) = (s, err (ServiceError.raised (native m)))
resumed (s, err (backend_error m)) =
    (s, err (ServiceError.handle_not_found (str_append "Sprite not found: " m)))
resumed (s, err (session_not_found m)) =
    (s, err (ServiceError.handle_not_found (str_append "Sprite not found: " m)))

abbrev pub lifted {ℓ} : {S : Type 0} {A : Type ℓ} → S × Result Raised A → S × Result ServiceError A
lifted (s, ok a) = (s, ok a)
lifted (s, err e) = (s, err (ServiceError.raised e))

module _ (token : String) {S : Type 0} (sdk : Sdk S) where
  abbrev pub looked_up :
      Result ServiceError (Unit {0}) → String → S → S × Result ServiceError (Unit {0})
  looked_up (err e) handle s = (s, err e)
  looked_up (ok u) handle s = resumed (get sdk handle s)

  unfoldable pub resume_session : String → S → S × Result ServiceError (Unit {0})
  resume_session handle s = looked_up (require_client token "sprites") handle s

  abbrev pub cleaned_up : Result ServiceError Bool → String → S → S × Result ServiceError (Unit {0})
  cleaned_up (err e) handle s = (s, err e)
  cleaned_up (ok false) handle s = (s, ok tt)
  cleaned_up (ok true) handle s = lifted (best_effort_delete sdk handle s)

  unfoldable pub destroy_session : String → S → S × Result ServiceError (Unit {0})
  destroy_session handle s =
      if str_eq handle "" then (s, ok tt) else cleaned_up (get_client token "sprites") handle s
