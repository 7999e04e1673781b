-- ===== src/Mcp.antt =====
-- The MCP servers of a session as the JSON files of three runtimes: claude_config.py, gemini_config.py and
-- opencode_config.py of src/agent_on_demand/runtimes, with `write_config` of claude.py, gemini.py and
-- opencode.py up to `json.dumps`. A dict is its list of rows, in the order of insertion.
pub mod Transport
pub mod Accepted
pub mod Rendered
pub mod Raises
use text.Mathlib.Text.{◌==◌ as str_eq}
use Prim.Native.String
use agent_on_demand.Prelude.{
  ℕ, zero, String, ℤ, pos, Bool, true, false, Option, none, some, List, [], ◌∷◌, if◌then◌else◌,
}
use agent_on_demand.Prelude.Result.{Result, ok, err, ◌>>=◌}
use agent_on_demand.Json.{
  Json, null, bool, int, str, arr, obj, Items, nil, cons, Fields, end, field, json_eq,
}
use agent_on_demand.Validation.Servers.{is_hashable}
use agent_on_demand.Specs.{McpServerSpec}

-- TypeError.
pub data TypeError : Type 0 where
  type_error : TypeError

abbrev pub Config : Type 0
Config = List (Json × Fields)

-- `if v:`.
unfoldable pub truthy : Json → Bool
truthy null = false
truthy (bool b) = b
truthy (int (pos zero)) = false
truthy (str String.[]) = false
truthy (arr nil) = false
truthy (obj end) = false
truthy _ = true

-- `v == t`.
unfoldable pub is_text : String → Json → Bool
is_text t (str s) = str_eq s t
is_text t _ = false

-- `config[name] = entry`.
unfoldable pub put : Json → Fields → Config → Config
put name entry [] = (name, entry) ∷ []
put name entry ((n, e) ∷ rest) =
    let others = put name entry rest in
    if json_eq n name then (n, entry) ∷ rest else (n, e) ∷ others

abbrev pub assign : Json → Fields → Config → Result TypeError Config
assign name entry config =
    if is_hashable name then ok (put name entry config) else err TypeError.type_error

-- A field that is written last, where it is not empty.
abbrev pub with_field : String → Json → Fields
with_field k v = if truthy v then field k v end else end

abbrev pub claude_http : McpServerSpec → Fields
claude_http s = field "type" (str "http") (field "url" s.url (with_field "headers" s.headers))

abbrev pub claude_stdio : McpServerSpec → Fields
claude_stdio s =
    field "type" (str "stdio")
      (field "command" s.command (field "args" s.args (with_field "env" s.env)))

unfoldable pub claude_entry : McpServerSpec → Result TypeError (Option Fields)
claude_entry s =
    if is_text "url" s.type
    then ok (some (claude_http s))
    else if is_text "stdio" s.type
    then ok (some (claude_stdio s))
    else ok none

abbrev pub gemini_http : McpServerSpec → Fields
gemini_http s = field "httpUrl" s.url (field "trust" (bool true) (with_field "headers" s.headers))

abbrev pub gemini_stdio : McpServerSpec → Fields
gemini_stdio s =
    field "command" s.command
      (field "args" s.args (field "trust" (bool true) (with_field "env" s.env)))

unfoldable pub gemini_entry : McpServerSpec → Result TypeError (Option Fields)
gemini_entry s =
    if is_text "url" s.type
    then ok (some (gemini_http s))
    else if is_text "stdio" s.type
    then ok (some (gemini_stdio s))
    else ok none

-- `*v`: a string gives its characters and a dict its keys.
unfoldable pub characters : String → Items
characters String.[] = nil
characters (String.◌∷◌ c s) = cons (str (String.◌∷◌ c String.[])) (characters s)

unfoldable pub keys : Fields → Items
keys end = nil
keys (field k v fs) = cons (str k) (keys fs)

abbrev pub unpacked : Json → Result TypeError Items
unpacked (arr vs) = ok vs
unpacked (str s) = ok (characters s)
unpacked (obj fs) = ok (keys fs)
unpacked _ = err TypeError.type_error

abbrev pub opencode_remote : McpServerSpec → Fields
opencode_remote s =
    field "type" (str "remote")
      (field "url" s.url (field "enabled" (bool true) (with_field "headers" s.headers)))

abbrev pub opencode_local : McpServerSpec → Items → Fields
opencode_local s args = field "type" (str "local") (
    field "command" (arr (cons s.command args))
      (field "enabled" (bool true) (with_field "environment" s.env)))

unfoldable pub opencode_entry : McpServerSpec → Result TypeError (Option Fields)
opencode_entry s =
    if is_text "url" s.type
    then ok (some (opencode_remote s))
    else if is_text "stdio" s.type
    then (unpacked s.args >>= λ args. ok (some (opencode_local s args)))
    else ok none

-- The loop that the three share; a server of another type is skipped.
abbrev pub stored : Json → Option Fields → Config → Result TypeError Config
stored name none config = ok config
stored name (some entry) config = assign name entry config

unfoldable pub render :
    (McpServerSpec → Result TypeError (Option Fields))
    → Config
    → List McpServerSpec
    → Result TypeError Config
render entry config [] = ok config
render entry config (s ∷ ss) =
    entry s >>= λ e. stored s.name e config >>= λ next. render entry next ss

-- `if not config: return None`.
abbrev pub unless_empty : Config → Option Config
unless_empty [] = none
unless_empty (r ∷ rs) = some (r ∷ rs)

unfoldable pub render_claude_mcp_config : List McpServerSpec → Result TypeError (Option Config)
render_claude_mcp_config servers =
    render claude_entry [] servers >>= λ config. ok (unless_empty config)

unfoldable pub render_gemini_mcp_config : List McpServerSpec → Result TypeError (Option Config)
render_gemini_mcp_config servers =
    render gemini_entry [] servers >>= λ config. ok (unless_empty config)

unfoldable pub render_opencode_mcp_config : List McpServerSpec → Result TypeError (Option Config)
render_opencode_mcp_config servers =
    render opencode_entry [] servers >>= λ config. ok (unless_empty config)

-- The file that `write_config` writes, if any: its path, and the key that wraps the servers.
pub data ConfigFile : Type 0 where
  nothing : ConfigFile
  file : String → String → Config → ConfigFile

abbrev pub file_at : String → String → Option Config → Result TypeError ConfigFile
file_at path key none = ok ConfigFile.nothing
file_at path key (some config) = ok (ConfigFile.file path key config)

pub data JsonRuntime : Type 0 where
  claude gemini opencode : JsonRuntime

unfoldable pub write_config : JsonRuntime → List McpServerSpec → Result TypeError ConfigFile
write_config JsonRuntime.claude servers =
    render_claude_mcp_config servers >>= file_at "/home/sprite/.claude.json" "mcpServers"
write_config JsonRuntime.gemini servers =
    render_gemini_mcp_config servers >>= file_at "/home/sprite/.gemini/settings.json" "mcpServers"
write_config JsonRuntime.opencode servers =
    render_opencode_mcp_config servers
    >>= file_at "/home/sprite/.config/opencode/opencode.json" "mcp"
