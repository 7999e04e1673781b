-- ===== src/Trace/Claude.antt =====
-- `_claude_adapter`, and the table _ADAPTERS. `none` is an exception: of `.get` on what is no dict, of
-- `len` or a loop on what has none.
use text.Mathlib.Text.{◌==◌ as str_eq}
use Prim.Native.String.{◌++◌ as str_append}
use agent_on_demand.Prelude.{
  ℕ, String, pos, false, Option, none, some, List, [], ◌∷◌, ◌++◌, length, if◌then◌else◌,
}
use agent_on_demand.Prelude.Text.{codes}
use agent_on_demand.Json.{
  Json, null, bool, int, str, arr, obj, nil, items, Fields, end, fields, lookup, or_default,
}
use agent_on_demand.Mcp.{truthy, is_text}
use agent_on_demand.Trace.{Attributes, TraceAction, event, tool_start, tool_end, Adapter, is_null}

-- `d.get(k)`, and `d.get(k) or default`.
abbrev pub get : String → Fields → Json
get k d = or_default null (lookup k d)

abbrev pub get_or : String → Json → Fields → Json
get_or k default d = if truthy (get k d) then get k d else default

abbrev pub size : Json → Option ℕ
size (str s) = some (length (codes s))
size (arr vs) = some (length (items vs))
size (obj fs) = some (length (fields fs))
size _ = none

-- What a loop over a value sees, as far as it holds dicts: a string and a dict give strings.
abbrev pub dicts : List Json → List Fields
dicts [] = []
dicts (obj d ∷ vs) = d ∷ dicts vs
dicts (v ∷ vs) = dicts vs

abbrev pub blocks : Json → Option (List Fields)
blocks (arr vs) = some (dicts (items vs))
blocks (str s) = some []
blocks (obj fs) = some []
blocks _ = none

-- `message.get("content") or []`.
abbrev pub content : Json → Option (List Fields)
content (obj message) = blocks (get_or "content" (arr nil) message)
content _ = none

abbrev sized : String → Option ℕ → Option (List TraceAction)
sized name none = none
sized name (some n) = some (event name (("aod.length", int (pos n)) ∷ []) ∷ [])

-- The generator's actions one after another; the first exception loses them all.
unfoldable pub chained :
    (Fields → Option (List TraceAction)) → List Fields → Option (List TraceAction)
chained f [] = some []
chained f (b ∷ bs) =
    let rest = chained f bs in
    elim (f b) [ none ↦ none | some xs ↦ elim rest [ none ↦ none | some ys ↦ some (xs ++ ys) ] ]

module _ (as_str : Json → String) where
  abbrev tool_of : String → Fields → List TraceAction
  tool_of id block =
      if str_eq id ""
      then []
      else tool_start id "runtime.tool_use" (
          ("aod.tool_name", str (as_str (get_or "name" (str "?") block)))
          ∷ ("aod.tool_id", str id)
          ∷ [])
        ∷ []

  unfoldable pub assistant_block : Fields → Option (List TraceAction)
  assistant_block block =
      if is_text "text" (get "type" block)
      then sized "claude.assistant_text" (size (get_or "text" (str "") block))
      else if is_text "thinking" (get "type" block)
      then sized "claude.thinking" (size (get_or "thinking" (str "") block))
      else if is_text "tool_use" (get "type" block)
      then some (tool_of (as_str (get_or "id" (str "") block)) block)
      else some []

  abbrev result_of : String → Fields → List TraceAction
  result_of id block =
      if str_eq id ""
      then []
      else tool_end id
          (("aod.is_error", bool (truthy (or_default (bool false) (lookup "is_error" block)))) ∷ [])
        ∷ []

  unfoldable pub user_block : Fields → Option (List TraceAction)
  user_block block =
      if is_text "tool_result" (get "type" block)
      then some (result_of (as_str (get_or "tool_use_id" (str "") block)) block)
      else some []

  abbrev init_attrs : String → Fields → Option ℕ → Option (List TraceAction)
  init_attrs subtype d none = none
  init_attrs subtype d (some n) = some (
      event (str_append "claude.system." subtype) (
        ("aod.subtype", str subtype)
        ∷ ("aod.model", get "model" d)
        ∷ ("aod.tools_count", int (pos n))
        ∷ [])
      ∷ [])

  unfoldable pub system_event : String → Fields → Option (List TraceAction)
  system_event subtype d =
      if str_eq subtype "init"
      then init_attrs subtype d (size (get_or "tools" (arr nil) d))
      else some
          (event (str_append "claude.system." subtype) (("aod.subtype", str subtype) ∷ []) ∷ [])

  abbrev measured : String → String → Fields → Attributes
  measured name key d = if is_null (get key d) then [] else (name, get key d) ∷ []

  unfoldable pub result_event : Fields → TraceAction
  result_event d = event "claude.result" (
      ("aod.subtype", str (as_str (get_or "subtype" (str "") d)))
      ∷ (measured "aod.duration_ms" "duration_ms" d
          ++ (measured "aod.num_turns" "num_turns" d
              ++ measured "aod.total_cost_usd" "total_cost_usd" d)))

  abbrev each_block :
      (Fields → Option (List TraceAction)) → Option (List Fields) → Option (List TraceAction)
  each_block f none = none
  each_block f (some bs) = chained f bs

  unfoldable pub claude_adapter : Adapter
  claude_adapter d =
      if is_text "system" (get "type" d)
      then system_event (as_str (get_or "subtype" (str "unknown") d)) d
      else if is_text "assistant" (get "type" d)
      then each_block assistant_block (content (get_or "message" (obj end) d))
      else if is_text "user" (get "type" d)
      then each_block user_block (content (get_or "message" (obj end) d))
      else if is_text "result" (get "type" d)
      then some (result_event d ∷ [])
      else some []

  -- _ADAPTERS.
  unfoldable pub adapter_named : String → Option Adapter
  adapter_named runtime = if str_eq runtime "claude" then some claude_adapter else none
