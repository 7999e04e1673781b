-- ===== src/Stream.antt =====
-- src/agent_on_demand/stream_format.py and stream.py. An event is the object that `json.dumps` is given,
-- with `type` and `id` apart from the payload.
pub mod Tail
pub mod Sse
pub mod Resume
pub mod Lossless
use text.Mathlib.Text.{◌==◌ as str_eq}
use agent_on_demand.Prelude.{
  ℕ, ◌==◌, String, Bool, true, false, not, ◌&&◌, Option, none, some, List, [], ◌∷◌, ◌++◌, ℤ, pos,
  if◌then◌else◌,
}
use agent_on_demand.Json.{Json, null, int, str}
use agent_on_demand.State.{Status}
use agent_on_demand.Store.{LogKind}

-- The values that the query selects.
pub record LogRow : Type 0 where
  pub id : ℕ
  pub kind : LogKind
  pub stream : String
  pub text : String
  pub stage : String
  pub state : String
  pub duration_ms : Option ℕ
  pub turn_id : Option ℕ
  pub turn_number : Option ℕ

pub data EventType : Type 0 where
  stage turn_start output terminated error exit stale : EventType

pub record Event : Type 0 where
  pub type : EventType
  pub id : ℕ
  pub payload : List (String × Json)

abbrev pub format_event : EventType → ℕ → List (String × Json) → Event
format_event t id payload = record { type = t; id = id; payload = payload }

abbrev pub nat_or_null : Option ℕ → Json
nat_or_null none = null
nat_or_null (some n) = int (pos n)

abbrev pub int_or_null : Option ℤ → Json
int_or_null none = null
int_or_null (some n) = int n

abbrev duration_entry : Option ℕ → List (String × Json)
duration_entry none = []
duration_entry (some d) = ("duration_ms", int (pos d)) ∷ []

unfoldable pub stage_payload : LogRow → List (String × Json)
stage_payload c =
    ("stage", str c.stage)
    ∷ ("state", str c.state)
    ∷ (duration_entry c.duration_ms
        ++ (if str_eq c.state "failed" && not (str_eq c.text "")
            then ("message", str c.text) ∷ []
            else []))

abbrev pub output_event : LogRow → Event
output_event c =
    format_event EventType.output c.id
      (("stream", str c.stream) ∷ ("data", str c.text) ∷ ("turn", nat_or_null c.turn_number) ∷ [])

abbrev pub turn_start_event : LogRow → Event
turn_start_event c =
    format_event EventType.turn_start c.id (("turn", nat_or_null c.turn_number) ∷ [])

-- `turn_id is not None and turn_id != last_turn_id`.
abbrev pub starts_turn : Option ℕ → Option ℕ → Bool
starts_turn none last = false
starts_turn (some t) none = true
starts_turn (some t) (some l) = not (t == l)

abbrev pub format_by_kind : LogKind → LogRow → Option ℕ → List Event × Option ℕ
format_by_kind LogKind.stage c last =
    (format_event EventType.stage c.id (stage_payload c) ∷ [], last)
format_by_kind LogKind.output c last =
    if starts_turn c.turn_id last
    then (turn_start_event c ∷ output_event c ∷ [], c.turn_id)
    else (output_event c ∷ [], last)

unfoldable pub format_chunk_events : LogRow → Option ℕ → List Event × Option ℕ
format_chunk_events c last = format_by_kind c.kind c last

unfoldable pub format_terminal_event : Status → Option ℤ → ℕ → Option Event
format_terminal_event Status.terminated code last_id =
    some (format_event EventType.terminated last_id (("message", str "Session terminated") ∷ []))
format_terminal_event Status.failed none last_id =
    some (format_event EventType.error last_id (("message", str "Session failed") ∷ []))
format_terminal_event Status.failed (some c) last_id =
    some (format_event EventType.exit last_id (("code", int c) ∷ []))
format_terminal_event Status.completed code last_id =
    some (format_event EventType.exit last_id (("code", int_or_null code) ∷ []))
format_terminal_event _ code last_id = none
