-- ===== src/Mcp/Transport.antt =====
-- How each CLI understands an entry of its file, written from the documentation of the three modules: what
-- the entry of a server means, apart from how it is spelled.
use text.Mathlib.TextEquality.{eq_iff}
use agent_on_demand.Prelude.{
  String, ◌≡◌, refl, true, false, Option, none, some, if◌then◌else◌, Bool-cases, inl, inr, ◌⊎◌,
}
use agent_on_demand.Prelude.Result.{Result, ok}
use agent_on_demand.Json.{Json, str, bool, arr, obj, Items, cons, Fields, end, lookup, or_default}
use agent_on_demand.Specs.{McpServerSpec}
use agent_on_demand.Mcp.{
  TypeError, truthy, is_text, with_field, claude_entry, gemini_entry, opencode_entry, JsonRuntime,
  claude_http, claude_stdio, gemini_http, gemini_stdio, opencode_remote, opencode_local,
}

pub data Transport : Type 0 where
  -- The URL with its headers; the command, its arguments and its environment.
  http : Json → Json → Transport
  stdio : Json → Json → Json → Transport

-- A table that is not given is empty.
abbrev pub table : Option Json → Json
table v = or_default (obj end) v

-- An empty table, and anything else that counts as false, is no table.
abbrev pub filled : Json → Json
filled v = if truthy v then v else obj end

unfoldable pub transport : McpServerSpec → Option Transport
transport s =
    if is_text "url" s.type
    then some (http s.url (filled s.headers))
    else if is_text "stdio" s.type
    then some (stdio s.command s.args (filled s.env))
    else none

abbrev both : Option Json → (Json → Transport) → Option Transport
both none f = none
both (some v) f = some (f v)

-- `type` says which.
abbrev claude_by : Option Json → Fields → Option Transport
claude_by (some (str t)) e =
    if is_text "http" (str t)
    then both (lookup "url" e) (λ u. http u (table (lookup "headers" e)))
    else if is_text "stdio" (str t)
    then both (lookup "command" e) (λ c. stdio c (table (lookup "args" e)) (table (lookup "env" e)))
    else none
claude_by _ e = none

-- A server that is not trusted asks for each call.
abbrev gemini_by : Option Json → Option Json → Fields → Option Transport
gemini_by (some u) (some (bool true)) e = some (http u (table (lookup "headers" e)))
gemini_by none (some (bool true)) e =
    both (lookup "command" e) (λ c. stdio c (table (lookup "args" e)) (table (lookup "env" e)))
gemini_by _ _ e = none

abbrev command_line : Option Json → Fields → Option Transport
command_line (some (arr (cons c args))) e =
    some (stdio c (arr args) (table (lookup "environment" e)))
command_line _ e = none

-- A server that is not enabled is not started.
abbrev opencode_by : Option Json → Option Json → Fields → Option Transport
opencode_by (some (str t)) (some (bool true)) e =
    if is_text "remote" (str t)
    then both (lookup "url" e) (λ u. http u (table (lookup "headers" e)))
    else if is_text "local" (str t)
    then command_line (lookup "command" e) e
    else none
opencode_by _ _ e = none

unfoldable pub understood : JsonRuntime → Fields → Option Transport
understood JsonRuntime.claude e = claude_by (lookup "type" e) e
understood JsonRuntime.gemini e = gemini_by (lookup "httpUrl" e) (lookup "trust" e) e
understood JsonRuntime.opencode e = opencode_by (lookup "type" e) (lookup "enabled" e) e

abbrev pub entry_of : JsonRuntime → McpServerSpec → Result TypeError (Option Fields)
entry_of JsonRuntime.claude = claude_entry
entry_of JsonRuntime.gemini = gemini_entry
entry_of JsonRuntime.opencode = opencode_entry

-- What opencode joins to the command has to be a list.
abbrev pub Fits : JsonRuntime → McpServerSpec → Type 0
Fits JsonRuntime.opencode s = (args : Items) × (s.args ≡ arr args)
Fits _ s = Unit {0}

abbrev pub HasType : McpServerSpec → Type 0
HasType s = (is_text "url" s.type ≡ true) ⊎ (is_text "stdio" s.type ≡ true)

abbrev pub Read : JsonRuntime → McpServerSpec → Type 0
Read r s = (e : Fields) × (entry_of r s ≡ ok (some e)) × (understood r e ≡ transport s)

is_text_other : (v : Json) → is_text "stdio" v ≡ true → is_text "url" v ≡ false
unfolding is_text
is_text_other (str s) h = rw ((eq_iff s "stdio").0 h) refl
is_text_other v h = absurd (cc h)

table-with_field : (k : String) (v : Json) → table (lookup k (with_field k v)) ≡ filled v
unfolding lookup
table-with_field k v = elim (Bool-cases (truthy v)) [
  | inl t ↦ rw (t, (eq_iff k k).1 refl) refl
  | inr t ↦ rw t refl
]

no_url : (v : Json) → lookup "httpUrl" (with_field "env" v) ≡ none
unfolding lookup
no_url v = elim (Bool-cases (truthy v)) [ inl t ↦ rw t refl | inr t ↦ rw t refl ]

claude_case : (s : McpServerSpec) → HasType s → Read JsonRuntime.claude s
unfolding claude_entry transport understood lookup is_text
claude_case s (inl h) =
    (claude_http s, rw h refl, rw (h, table-with_field "headers" s.headers) refl)
claude_case s (inr h) =
    let other : is_text "url" s.type ≡ false = is_text_other s.type h in
    (claude_stdio s, rw (other, h) refl, rw (other, h, table-with_field "env" s.env) refl)

gemini_case : (s : McpServerSpec) → HasType s → Read JsonRuntime.gemini s
unfolding gemini_entry transport understood lookup is_text
gemini_case s (inl h) =
    (gemini_http s, rw h refl, rw (h, table-with_field "headers" s.headers) refl)
gemini_case s (inr h) =
    let other : is_text "url" s.type ≡ false = is_text_other s.type h in
    (
      gemini_stdio s,
      rw (other, h) refl,
      rw (other, h, no_url s.env, table-with_field "env" s.env) refl,
    )

opencode_case :
    (s : McpServerSpec) → HasType s → Fits JsonRuntime.opencode s → Read JsonRuntime.opencode s
unfolding opencode_entry transport understood lookup is_text
opencode_case s (inl h) f =
    (opencode_remote s, rw h refl, rw (h, table-with_field "headers" s.headers) refl)
opencode_case s (inr h) (args, e) =
    let other : is_text "url" s.type ≡ false = is_text_other s.type h in
    (
      opencode_local s args,
      rw (other, h, e) refl,
      rw (other, h, e, table-with_field "environment" s.env) refl,
    )

-- The entry that a file gets is understood as the server that was meant.
pub entry-understood : (r : JsonRuntime) (s : McpServerSpec) → HasType s → Fits r s → Read r s
entry-understood JsonRuntime.claude s t f = claude_case s t
entry-understood JsonRuntime.gemini s t f = gemini_case s t
entry-understood JsonRuntime.opencode s t f = opencode_case s t f
