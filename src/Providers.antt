-- ===== src/Providers.antt =====
-- src/agent_on_demand/providers.py.
use Prim.Native.String.{◌++◌ as str_append}
use text.Mathlib.Text.{◌==◌ as str_eq}
use agent_on_demand.Prelude.{String, Option, none, some, if◌then◌else◌}

-- `PROVIDER_RUNTIME[provider]`; `none` is the KeyError behind the ValueError.
unfoldable pub runtime_for_provider : String → Option String
runtime_for_provider provider =
    if str_eq provider "anthropic"
    then some "claude"
    else if str_eq provider "openai"
    then some "codex"
    else none

unfoldable pub provider_for_runtime : String → Option String
provider_for_runtime runtime =
    if str_eq runtime "claude"
    then some "anthropic"
    else if str_eq runtime "codex"
    then some "openai"
    else none

-- The ValueError's message.
abbrev pub unknown_provider : String → String
unknown_provider provider =
    str_append "Unknown provider: "
      (str_append provider ". Must be one of: ['anthropic', 'openai']")
