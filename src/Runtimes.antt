-- ===== src/Runtimes.antt =====
-- The agent CLIs of src/agent_on_demand/runtimes, the table RUNTIMES, and the command of each turn. Texts
-- are lists of code points, and the mode of a turn is its text.
pub mod Otel
pub mod Argv
pub mod Shim
pub mod Attributes
pub mod Codex
pub mod Keys
pub mod Bearer
use agent_on_demand.Prelude.{
  Bool, true, false, ◌&&◌, Option, none, some, List, [], ◌∷◌, ◌++◌, if◌then◌else◌,
}
use agent_on_demand.Prelude.Result.{Result, ok, err}
use agent_on_demand.Prelude.Text.{Text, codes, text_eq}
use agent_on_demand.Scripts.{Spec, is_blank}

pub data Runtime : Type 0 where
  claude codex gemini opencode : Runtime

-- The two ValueErrors.
pub data ArgvError : Type 0 where
  bad_mode : Text → ArgvError
  no_session_id : ArgvError

abbrev pub is_continue : Text → Bool
is_continue mode = text_eq mode (codes "continue")

-- `spec.runtime_session_id or ""`.
abbrev pub session_id_of : Spec → Text
session_id_of spec = elim spec.runtime_session_id [ none ↦ [] | some id ↦ id ]

abbrev claude_argv : Text → Spec → List Text
claude_argv option spec =
    codes "claude"
    ∷ codes "--dangerously-skip-permissions"
    ∷ codes "--print"
    ∷ codes "--verbose"
    ∷ codes "--output-format"
    ∷ codes "stream-json"
    ∷ codes "--model"
    ∷ spec.model
    ∷ option
    ∷ session_id_of spec
    ∷ []

unfoldable pub build_claude_command : Spec → Text → Result ArgvError (List Text)
build_claude_command spec mode =
    if is_continue mode && is_blank (session_id_of spec)
    then err ArgvError.no_session_id
    else ok (claude_argv (if is_continue mode then codes "--resume" else codes "--session-id") spec)

unfoldable pub build_codex_command : Spec → Text → List Text
build_codex_command spec mode =
    if is_continue mode
    then codes "codex"
      ∷ codes "exec"
      ∷ codes "resume"
      ∷ codes "--last"
      ∷ codes "-m"
      ∷ spec.model
      ∷ codes "--dangerously-bypass-approvals-and-sandbox"
      ∷ codes "--json"
      ∷ []
    else codes "codex"
      ∷ codes "exec"
      ∷ codes "-m"
      ∷ spec.model
      ∷ codes "--dangerously-bypass-approvals-and-sandbox"
      ∷ codes "--json"
      ∷ []

unfoldable pub build_gemini_command : Spec → Text → List Text
build_gemini_command spec mode =
    if is_continue mode
    then codes "gemini" ∷ codes "--resume" ∷ codes "--output-format" ∷ codes "stream-json" ∷ []
    else codes "gemini" ∷ codes "--output-format" ∷ codes "stream-json" ∷ []

unfoldable pub build_opencode_command : Spec → Text → List Text
build_opencode_command spec mode =
    codes "opencode"
    ∷ codes "run"
    ∷ codes "--model"
    ∷ spec.model
    ∷ codes "--format"
    ∷ codes "json"
    ∷ (if is_continue mode then codes "--continue" ∷ [] else [])

unfoldable pub build_command : Runtime → Spec → Text → Result ArgvError (List Text)
build_command Runtime.claude spec mode = build_claude_command spec mode
build_command Runtime.codex spec mode = ok (build_codex_command spec mode)
build_command Runtime.gemini spec mode = ok (build_gemini_command spec mode)
build_command Runtime.opencode spec mode = ok (build_opencode_command spec mode)
