-- ===== src/Runtimes/Otel.antt =====
-- src/agent_on_demand/runtimes/claude_otel.py, and the `otel_env` and `static_env` of the runtimes. The
-- key is the environment variable HONEYCOMB_API_KEY, if it is set; the spec carries the ids as texts.
use agent_on_demand.Prelude.{
  ℕ, ◌==◌, Bool, false, not, ◌&&◌, ◌||◌, Option, none, some, List, [], ◌∷◌, ◌++◌, map, select, any,
  if◌then◌else◌,
}
use agent_on_demand.Prelude.Text.{Text, codes, join}
use agent_on_demand.Scripts.{Env, Spec, is_blank}
use agent_on_demand.Runtimes.{Runtime}

-- `_FORBIDDEN_RESOURCE_VALUE_CHARS`.
unfoldable pub is_forbidden : ℕ → Bool
is_forbidden c = c == b' ' || c == b',' || c == b';' || c == b'"' || c == b'\\' || c == b'='

unfoldable pub is_safe_attribute_value : Text → Bool
is_safe_attribute_value value = not (is_blank value) && not (any is_forbidden value)

-- A candidate that is appended under a condition.
abbrev pub candidate : Text → Option Text → List (Text × Text)
candidate k none = []
candidate k (some v) = (k, v) ∷ []

-- `if spec.runtime_session_id`.
abbrev pub session_candidate : Option Text → List (Text × Text)
session_candidate none = []
session_candidate (some id) = if is_blank id then [] else (codes "aod.session_id", id) ∷ []

abbrev pub environment_candidate : Option Env → List (Text × Text)
environment_candidate none = []
environment_candidate (some e) = candidate (codes "aod.environment_id") e.id

abbrev pub candidates : Spec → List (Text × Text)
candidates spec =
    (codes "aod.runtime", spec.runtime)
    ∷ (codes "aod.model", spec.model)
    ∷ (session_candidate spec.runtime_session_id
        ++ (candidate (codes "aod.user_id") spec.user_id ++ environment_candidate spec.environment))

abbrev pub has_safe_value : Text × Text → Bool
has_safe_value (k, v) = is_safe_attribute_value v

abbrev pub pair_text : Text × Text → Text
pair_text (k, v) = k ++ (b'=' ∷ v)

unfoldable pub build_resource_attributes : Spec → Text
build_resource_attributes spec =
    join (b',' ∷ []) (map pair_text (select has_safe_value (candidates spec)))

-- `if traceparent`.
abbrev pub traced : Text → Option Text → List (Text × Text)
traced k none = []
traced k (some v) = if is_blank v then [] else (k, v) ∷ []

abbrev pub has_key : Option Text → Bool
has_key none = false
has_key (some key) = not (is_blank key)

unfoldable pub build_claude_otel_env :
    Option Text → Spec → Option Text → Option Text → List (Text × Text)
build_claude_otel_env api_key spec traceparent tracestate =
    if has_key api_key
    then (codes "CLAUDE_CODE_ENABLE_TELEMETRY", codes "1")
      ∷ (codes "CLAUDE_CODE_ENHANCED_TELEMETRY_BETA", codes "1")
      ∷ (codes "OTEL_METRICS_EXPORTER", codes "otlp")
      ∷ (codes "OTEL_LOGS_EXPORTER", codes "otlp")
      ∷ (codes "OTEL_TRACES_EXPORTER", codes "otlp")
      ∷ (codes "OTEL_EXPORTER_OTLP_PROTOCOL", codes "http/protobuf")
      ∷ (codes "OTEL_EXPORTER_OTLP_ENDPOINT", codes "https://api.honeycomb.io")
      ∷ (codes "OTEL_RESOURCE_ATTRIBUTES", build_resource_attributes spec)
      ∷ (traced (codes "TRACEPARENT") traceparent ++ traced (codes "TRACESTATE") tracestate)
    else []

unfoldable pub build_claude_otel_static_env : Option Text → List (Text × Text)
build_claude_otel_static_env none = []
build_claude_otel_static_env (some key) =
    if is_blank key
    then []
    else (codes "OTEL_EXPORTER_OTLP_HEADERS", codes "x-honeycomb-team=" ++ key) ∷ []

unfoldable pub otel_env :
    Option Text → Runtime → Spec → Option Text → Option Text → List (Text × Text)
otel_env api_key Runtime.claude spec traceparent tracestate =
    build_claude_otel_env api_key spec traceparent tracestate
otel_env api_key _ spec traceparent tracestate = []

unfoldable pub static_env : Option Text → Runtime → List (Text × Text)
static_env api_key Runtime.claude = build_claude_otel_static_env api_key
static_env api_key _ = []
