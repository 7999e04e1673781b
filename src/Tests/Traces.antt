-- ===== src/Tests/Traces.antt =====
-- The trace of a turn with one tool call.
use agent_on_demand.Prelude.{String, ◌≡◌, Option, none, some, List, [], ◌∷◌, ◌++◌, if◌then◌else◌}
use agent_on_demand.Prelude.Text.{Text, codes, text_eq}
use agent_on_demand.Json.{Json, str, arr, cons, nil, obj, Fields, end, field}
use agent_on_demand.Trace.{Adapter, feed_all, feed, finish, fresh}
use agent_on_demand.Trace.Claude.{adapter_named}
use agent_on_demand.Trace.Chunks.{stdout_of, feed_all_once}
use agent_on_demand.Trace.Lifetimes.{finish-IsWellUsed}
use agent_on_demand.Trace.Balance.{IsWellUsed, starts, ends}

abbrev message : String → Fields → Json
message kind block = obj (
    field "type" (str kind)
      (field "message" (obj (field "content" (arr (cons (obj block) nil)) end)) end))

abbrev loads : Text → Option Json
loads line =
    if text_eq line (codes "use")
    then some (message "assistant" (field "type" (str "tool_use") (field "id" (str "t1") end)))
    else if text_eq line (codes "result")
    then some
        (message "user" (field "type" (str "tool_result") (field "tool_use_id" (str "t1") end)))
    else none

abbrev as_str : Json → String
as_str (str s) = s
as_str v = "?"

abbrev claude : Option Adapter
claude = adapter_named as_str "claude"

abbrev chunks : List (String × Text)
chunks =
    ("stdout", codes "us")
    ∷ ("stderr", codes "use")
    ∷ ("stdout", b'e' ∷ b'\n' ∷ codes "resu")
    ∷ ("stdout", codes "lt" ++ b'\n' ∷ [])
    ∷ []

feed_all_once_example :
    feed_all loads claude chunks fresh ≡ feed loads claude "stdout" (stdout_of chunks) fresh
feed_all_once_example = feed_all_once loads claude chunks

finish-IsWellUsed_example :
    IsWellUsed (finish (feed_all loads claude chunks fresh)).spans.calls
    × (starts 0 (finish (feed_all loads claude chunks fresh)).spans.calls
        ≡ ends 0 (finish (feed_all loads claude chunks fresh)).spans.calls)
    × ((finish (feed_all loads claude chunks fresh)).spans.open_tool_spans ≡ [])
finish-IsWellUsed_example = finish-IsWellUsed loads claude chunks 0
