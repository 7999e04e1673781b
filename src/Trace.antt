-- ===== src/Trace.antt =====
-- src/agent_on_demand/session_service/runtime_trace.py: the output of a turn into spans. A call of
-- OpenTelemetry is a value; spans are numbered as they are started. `json.loads` on the bytes of a line and
-- `str` are parameters. An adapter that raises answers `none`.
pub mod Claude
pub mod Chunks
pub mod Balance
pub mod Lifetimes
use text.Mathlib.Text.{◌==◌ as str_eq}
use agent_on_demand.Prelude.{
  ℕ, zero, suc, ◌+◌, ◌==◌, String, Bool, true, false, not, ◌&&◌, ◌||◌, Option, none, some, List, [],
  ◌∷◌, ◌++◌, all, length, if◌then◌else◌,
}
use agent_on_demand.Prelude.Text.{Text, within}
use agent_on_demand.Json.{Json, null, obj, Fields}

abbrev pub Attributes : Type 0
Attributes = List (String × Json)

pub data TraceAction : Type 0 where
  event : String → Attributes → TraceAction
  tool_start : String → String → Attributes → TraceAction
  tool_end : String → Attributes → TraceAction

abbrev pub Adapter : Type 0
Adapter = Fields → Option (List TraceAction)

-- The calls: on the parent span, on the tracer, and on the span with a number.
pub data Call : Type 0 where
  add_event : String → Attributes → Call
  start_span : ℕ → String → Attributes → Call
  set_attribute : ℕ → String → Json → Call
  end_span : ℕ → Call

pub record Spans : Type 0 where
  pub open_tool_spans : List (String × ℕ)
  pub next_span : ℕ
  -- Newest first.
  pub calls : List Call

pub record Emitter : Type 0 where
  pub line_buf : Text
  pub spans : Spans

unfoldable pub is_null : Json → Bool
is_null null = true
is_null _ = false

unfoldable pub clean_attrs : Attributes → Attributes
clean_attrs [] = []
clean_attrs ((k, v) ∷ attrs) =
    let rest = clean_attrs attrs in if is_null v then rest else (k, v) ∷ rest

-- `open_tool_spans.get(tool_id)`, and the dict without it.
unfoldable pub open_span : String → List (String × ℕ) → Option ℕ
open_span id [] = none
open_span id ((j, s) ∷ rest) = if str_eq j id then some s else open_span id rest

unfoldable pub popped : String → List (String × ℕ) → List (String × ℕ)
popped id [] = []
popped id ((j, s) ∷ rest) =
    let others = popped id rest in if str_eq j id then rest else (j, s) ∷ others

unfoldable pub set_attributes : ℕ → Attributes → List Call → List Call
set_attributes s [] calls = calls
set_attributes s ((k, v) ∷ attrs) calls = set_attributes s attrs (set_attribute s k v ∷ calls)

abbrev pub start_tool : Option ℕ → String → String → Attributes → Spans → Spans
start_tool (some s) id name attrs e = e
start_tool none id name attrs e = if str_eq id "" then e else record {
  open_tool_spans = e.open_tool_spans ++ (id, e.next_span) ∷ [];
  next_span = suc e.next_span;
  calls = start_span e.next_span name (clean_attrs attrs) ∷ e.calls;
}

abbrev pub end_tool : Option ℕ → String → Attributes → Spans → Spans
end_tool none id attrs e = e
end_tool (some s) id attrs e = record e {
  open_tool_spans = popped id e.open_tool_spans;
  calls = end_span s ∷ set_attributes s (clean_attrs attrs) e.calls;
}

unfoldable pub apply_action : TraceAction → Spans → Spans
apply_action (event name attrs) e = record e {
  calls = add_event name (clean_attrs attrs) ∷ e.calls;
}
apply_action (tool_start id name attrs) e =
    start_tool (open_span id e.open_tool_spans) id name attrs e
apply_action (tool_end id attrs) e = end_tool (open_span id e.open_tool_spans) id attrs e

unfoldable pub apply_actions : List TraceAction → Spans → Spans
apply_actions [] e = e
apply_actions (a ∷ actions) e = apply_actions actions (apply_action a e)

-- The spans that no tool result has closed.
unfoldable pub abandon : List (String × ℕ) → List Call → List Call
abandon [] calls = calls
abandon ((id, s) ∷ rest) calls =
    abandon rest (end_span s ∷ set_attribute s "aod.tool_status" (Json.str "abandoned") ∷ calls)

unfoldable pub finish : Emitter → Emitter
finish e = record e {
  spans = record e.spans {
    open_tool_spans = [];
    calls = abandon e.spans.open_tool_spans e.spans.calls;
  };
}

-- A byte that `bytes.strip` removes.
abbrev pub is_blank_byte : ℕ → Bool
is_blank_byte c = within 9 13 c || c == 32

abbrev pub longer : ℕ → Option (Text × Text) → Option (Text × Text)
longer c none = none
longer c (some (l, r)) = some (c ∷ l, r)

-- The buffer's first line and what is behind its newline.
unfoldable pub first_line : Text → Option (Text × Text)
first_line [] = none
first_line (c ∷ cs) =
    let rest = first_line cs in if c == b'\n' then some ([], cs) else longer c rest

abbrev pub fresh : Emitter
fresh = record { line_buf = []; spans = record { open_tool_spans = []; next_span = 0; calls = [] } }

abbrev pub extended : Text → Emitter → Emitter
extended bytes e = record e { line_buf = e.line_buf ++ bytes }

module _ (loads : Text → Option Json) (adapter : Adapter) where
  abbrev pub apply_all : Option (List TraceAction) → Spans → Spans
  apply_all none e = e
  apply_all (some actions) e = apply_actions actions e

  abbrev pub handle_value : Option Json → Spans → Spans
  handle_value (some (obj fields)) e = apply_all (adapter fields) e
  handle_value _ e = e

  unfoldable pub handle_line : Text → Spans → Spans
  handle_line line e = if all is_blank_byte line then e else handle_value (loads line) e

  abbrev pub after_line : Option (Text × Text) → (Emitter → Emitter) → Emitter → Emitter
  after_line none k e = e
  after_line (some (line, rest)) k e =
      k record { line_buf = rest; spans = handle_line line e.spans }

  -- The loop over the lines of the buffer, on fuel: the length of the buffer is enough.
  unfoldable pub handle_lines : ℕ → Emitter → Emitter
  handle_lines zero e = e
  handle_lines (suc n) e = after_line (first_line e.line_buf) (handle_lines n) e

  unfoldable pub feed_stdout : Text → Emitter → Emitter
  feed_stdout bytes e = handle_lines (length (e.line_buf ++ bytes)) (extended bytes e)

module _ (loads : Text → Option Json) where
  -- `feed` of an emitter whose runtime has this adapter, if any.
  unfoldable pub feed : Option Adapter → String → Text → Emitter → Emitter
  feed none stream bytes e = e
  feed (some adapter) stream bytes e =
      if str_eq stream "stdout" then feed_stdout loads adapter bytes e else e

  -- The chunks of a turn, each with its stream.
  unfoldable pub feed_all : Option Adapter → List (String × Text) → Emitter → Emitter
  feed_all a [] e = e
  feed_all a ((stream, bytes) ∷ chunks) e = feed_all a chunks (feed a stream bytes e)
