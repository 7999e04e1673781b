-- ===== src/Runtimes/Codex.antt =====
-- src/agent_on_demand/runtimes/codex.py, codex_auth.py and codex_config.py: the key and the TOML text
-- that Codex reads. A dict is its items, a server the McpServerSpec of session_service/specs/types.py.
use agent_on_demand.Prelude.{
  ℕ, ◌+◌, ◌==◌, Option, none, some, List, [], ◌∷◌, ◌++◌, map, if◌then◌else◌,
}
use agent_on_demand.Prelude.Result.{Result, ok, err, ◌>>=◌}
use agent_on_demand.Prelude.Text.{Text, codes, text_eq, within, strip, join}
use agent_on_demand.Scripts.{Env, Spec}

-- `d.get(key)`.
unfoldable pub value_of : Text → List (Text × Text) → Option Text
value_of k [] = none
value_of k ((j, v) ∷ xs) = if text_eq j k then some v else value_of k xs

-- `v or None`.
abbrev pub truthy : Option Text → Option Text
truthy none = none
truthy (some []) = none
truthy (some (c ∷ cs)) = some (c ∷ cs)

abbrev pub api_key_name : Text
api_key_name = codes "OPENAI_API_KEY"

abbrev pub env_key : Option Env → Option Text
env_key none = none
env_key (some e) = truthy (value_of api_key_name e.env_vars)

abbrev pub or_else : Option Text → Option Text → Option Text
or_else none o = o
or_else (some t) o = some t

unfoldable pub openai_api_key : Spec → Option Text
openai_api_key spec =
    or_else (truthy (value_of api_key_name spec.secret_env_vars)) (env_key spec.environment)

pub record Server : Type 0 where
  pub name : Text
  pub type : Text
  pub url : Text
  pub headers : List (Text × Text)
  pub command : Text
  pub args : List Text
  pub env : List (Text × Text)

-- The three ProvisionErrors.
pub data ConfigError : Type 0 where
  literal_bearer : Text → ConfigError
  unsupported_header : Text → Text → ConfigError
  unsupported_type : Text → Text → ConfigError

-- `key.lower()`, as far as the comparison with an ASCII word can tell.
abbrev pub lower : ℕ → ℕ
lower c = if within b'A' b'Z' c then c + 32 else c

-- `s.removeprefix(p)`, if `s` starts with `p`.
unfoldable pub after_prefix : Text → Text → Option Text
after_prefix [] s = some s
after_prefix (c ∷ cs) [] = none
after_prefix (c ∷ cs) (d ∷ ds) = if c == d then after_prefix cs ds else none

-- `s[:-1]`, if `s` ends with `c`.
unfoldable pub before_last : ℕ → Text → Option Text
before_last c [] = none
before_last c (d ∷ []) = if d == c then some [] else none
before_last c (d ∷ e ∷ es) = elim (before_last c (e ∷ es)) [ none ↦ none | some t ↦ some (d ∷ t) ]

abbrev pub closed_name : Option Text → Option Text
closed_name none = none
closed_name (some rest) = before_last b'}' rest

-- `token[2:-1]`, if the token is `${…}`.
unfoldable pub variable_of : Text → Option Text
variable_of token = closed_name (after_prefix (codes "${") token)

abbrev pub quoted : Text → Text
quoted t = b'"' ∷ (t ++ b'"' ∷ [])

abbrev pub bearer_line : Text → Option Text → Result ConfigError Text
bearer_line name none = err (ConfigError.literal_bearer name)
bearer_line name (some var) = ok (codes "bearer_token_env_var = " ++ quoted var)

abbrev pub authorization_line : Text → Text → Option Text → Result ConfigError Text
authorization_line name key none = err (ConfigError.unsupported_header name key)
authorization_line name key (some rest) = bearer_line name (variable_of (strip rest))

unfoldable pub header_line : Text → Text × Text → Result ConfigError Text
header_line name (key, val) =
    if text_eq (map lower key) (codes "authorization")
    then authorization_line name key (after_prefix (codes "Bearer ") val)
    else err (ConfigError.unsupported_header name key)

unfoldable pub header_lines : Text → List (Text × Text) → Result ConfigError (List Text)
header_lines name [] = ok []
header_lines name (h ∷ hs) =
    header_line name h >>= λ line. header_lines name hs >>= λ lines. ok (line ∷ lines)

unfoldable pub args_line : List Text → List Text
args_line [] = []
args_line (a ∷ more) =
    (codes "args = [" ++ (join (codes ", ") (map quoted (a ∷ more)) ++ b']' ∷ [])) ∷ []

abbrev env_line : Text × Text → Text
env_line (key, val) = key ++ (codes " = " ++ quoted val)

abbrev env_lines : Text → List (Text × Text) → List Text
env_lines name [] = []
env_lines name (e ∷ es) = (codes "[mcp_servers." ++ (name ++ codes ".env]")) ∷ map env_line (e ∷ es)

abbrev pub url_lines : Text → List Text → List Text
url_lines url hs = (codes "url = " ++ quoted url) ∷ (hs ++ codes "required = true" ∷ [])

unfoldable pub server_lines : Server → Result ConfigError (List Text)
server_lines s =
    if text_eq s.type (codes "url")
    then (header_lines s.name s.headers >>= λ hs. ok (url_lines s.url hs))
    else if text_eq s.type (codes "stdio")
    then ok
        ((codes "command = " ++ quoted s.command) ∷ (args_line s.args ++ env_lines s.name s.env))
    else err (ConfigError.unsupported_type s.name s.type)

abbrev pub section_lines : Server → List Text → List Text
section_lines s ls = (codes "[mcp_servers." ++ (s.name ++ b']' ∷ [])) ∷ (ls ++ [] ∷ [])

unfoldable pub all_lines : List Server → Result ConfigError (List Text)
all_lines [] = ok []
all_lines (s ∷ ss) =
    server_lines s >>= λ ls. all_lines ss >>= λ rest. ok (section_lines s ls ++ rest)

unfoldable pub render_codex_mcp_config : List Server → Result ConfigError Text
render_codex_mcp_config ss = all_lines ss >>= λ lines. ok (join (b'\n' ∷ []) lines)

abbrev config_text : List Server → Result ConfigError (Option Text)
config_text [] = ok none
config_text (s ∷ ss) = render_codex_mcp_config (s ∷ ss) >>= λ body. ok (some body)

-- The key that goes into auth.json, with its mode 600, and what goes into config.toml. The first is
-- written before the second can raise.
unfoldable pub write_config : Spec → List Server → Option Text × Result ConfigError (Option Text)
write_config spec ss = (openai_api_key spec, config_text ss)
