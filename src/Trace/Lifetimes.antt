-- ===== src/Trace/Lifetimes.antt =====
-- The spans that a turn's trace opens.
use agent_on_demand.Prelude.{
  ℕ, zero, suc, ◌≡◌, refl, Option, none, some, List, [], ◌∷◌, String, all, count, arith, Bool-cases,
  Option-cases, inl, inr,
}
use text.Mathlib.Text.{◌==◌ as str_eq}
use agent_on_demand.Prelude.Text.{Text}
use agent_on_demand.Json.{Json, null, bool, int, str, arr, obj}
use agent_on_demand.Trace.{
  TraceAction, event, tool_start, tool_end, Adapter, Call, Spans, Emitter, clean_attrs, open_span,
  set_attributes, apply_action, apply_actions, abandon, finish, first_line, handle_value,
  handle_line, handle_lines, feed_stdout, feed, feed_all, fresh, extended, is_blank_byte,
}
use agent_on_demand.Trace.Balance.{
  starts, ends, IsWellUsed, IsBalanced, IsTracked, end-IsBalanced, start-IsTracked, end-IsTracked,
  event-IsTracked,
}

apply_action-IsTracked : (a : TraceAction) (e : Spans) → IsTracked e → IsTracked (apply_action a e)
unfolding apply_action count
apply_action-IsTracked (event name attrs) e i = event-IsTracked e name (clean_attrs attrs) i
apply_action-IsTracked (tool_start id name attrs) e i =
    elim (Option-cases (open_span id e.open_tool_spans)) [
      | inr (s, h) ↦ rw h i
      | inl h ↦ elim (Bool-cases (str_eq id "")) [
        | inl k ↦ rw (h, k) i
        | inr k ↦ rw (h, k) (start-IsTracked e id name (clean_attrs attrs) i)
      ]
    ]
apply_action-IsTracked (tool_end id attrs) e i =
    elim (Option-cases (open_span id e.open_tool_spans)) [
      | inl h ↦ rw h i
      | inr (s, h) ↦ rw h (end-IsTracked e id s attrs i h)
    ]

apply_actions-IsTracked :
    (actions : List TraceAction) (e : Spans) → IsTracked e → IsTracked (apply_actions actions e)
unfolding apply_actions
apply_actions-IsTracked [] e i = i
apply_actions-IsTracked (a ∷ actions) e i =
    apply_actions-IsTracked actions (apply_action a e) (apply_action-IsTracked a e i)

module _ (loads : Text → Option Json) (adapter : Adapter) where
  handle_value-IsTracked :
      (v : Option Json) (e : Spans) → IsTracked e → IsTracked (handle_value loads adapter v e)
  handle_value-IsTracked none e i = i
  handle_value-IsTracked (some (obj fields)) e i = elim (Option-cases (adapter fields)) [
    | inl h ↦ rw h i
    | inr (actions, h) ↦ rw h (apply_actions-IsTracked actions e i)
  ]
  handle_value-IsTracked (some null) e i = i
  handle_value-IsTracked (some (bool b)) e i = i
  handle_value-IsTracked (some (int n)) e i = i
  handle_value-IsTracked (some (str s)) e i = i
  handle_value-IsTracked (some (arr vs)) e i = i

  handle_line-IsTracked :
      (line : Text) (e : Spans) → IsTracked e → IsTracked (handle_line loads adapter line e)
  unfolding handle_line
  handle_line-IsTracked line e i = elim (Bool-cases (all is_blank_byte line)) [
    | inl h ↦ rw h i
    | inr h ↦ rw h (handle_value-IsTracked (loads line) e i)
  ]

  handle_lines-IsTracked :
      (n : ℕ) (e : Emitter) → IsTracked e.spans → IsTracked (handle_lines loads adapter n e).spans
  unfolding handle_lines
  handle_lines-IsTracked zero e i = i
  handle_lines-IsTracked (suc n) e i = elim (Option-cases (first_line e.line_buf)) [
    | inl h ↦ rw h i
    | inr ((l, r), h) ↦ rw h (
        handle_lines-IsTracked n
          record { line_buf = r; spans = handle_line loads adapter l e.spans }
          (handle_line-IsTracked l e.spans i))
  ]

module _ (loads : Text → Option Json) where
  feed-IsTracked :
      (a : Option Adapter) (stream : String) (bytes : Text) (e : Emitter)
      → IsTracked e.spans
      → IsTracked (feed loads a stream bytes e).spans
  unfolding feed feed_stdout
  feed-IsTracked none stream bytes e i = i
  feed-IsTracked (some a) stream bytes e i = elim (Bool-cases (str_eq stream "stdout")) [
    | inr h ↦ rw h i
    | inl h ↦ rw h (handle_lines-IsTracked loads a _ (extended bytes e) i)
  ]

  feed_all-IsTracked :
      (a : Option Adapter) (chunks : List (String × Text)) (e : Emitter)
      → IsTracked e.spans
      → IsTracked (feed_all loads a chunks e).spans
  unfolding feed_all
  feed_all-IsTracked a [] e i = i
  feed_all-IsTracked a ((stream, bytes) ∷ chunks) e i =
      feed_all-IsTracked a chunks (feed loads a stream bytes e) (feed-IsTracked a stream bytes e i)

abandon-IsBalanced :
    (o : List (String × ℕ)) (calls : List Call)
    → IsBalanced o calls
    → IsBalanced [] (abandon o calls)
unfolding abandon count set_attributes
abandon-IsBalanced [] calls b = b
abandon-IsBalanced ((id, s) ∷ rest) calls b = abandon-IsBalanced rest _ (
    end-IsBalanced ((id, s) ∷ rest) rest calls s (("aod.tool_status", str "abandoned") ∷ []) b
      (λ t. refl))

fresh-IsTracked : IsTracked fresh.spans
unfolding count
fresh-IsTracked = record {
  balanced = record { used = tt; balance = λ s. omega arith; single = λ s. omega arith };
  unused = λ s h. refl;
}

-- Whatever a turn writes and however its runtime's adapter reads it: once the emitter has finished, no
-- span is open, none was started twice, attributes were set only on spans that were started and not yet
-- ended, and every span was ended as often as it was started.
pub finish-IsWellUsed :
    (loads : Text → Option Json) (adapter : Option Adapter) (chunks : List (String × Text)) (s : ℕ)
    → IsWellUsed (finish (feed_all loads adapter chunks fresh)).spans.calls
      × (starts s (finish (feed_all loads adapter chunks fresh)).spans.calls
          ≡ ends s (finish (feed_all loads adapter chunks fresh)).spans.calls)
      × ((finish (feed_all loads adapter chunks fresh)).spans.open_tool_spans ≡ [])
unfolding finish count
finish-IsWellUsed loads adapter chunks s =
    let tracked = feed_all-IsTracked loads adapter chunks fresh fresh-IsTracked in
    let b = abandon-IsBalanced _ _ tracked.balanced in (b.used, omega (arith, b.balance s), refl)
