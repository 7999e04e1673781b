-- ===== src/Validation/Servers.antt =====
-- src/agent_on_demand/validation/mcp_server_validation.py, on JSON values. An error keeps the index of the
-- server; the other words of the messages are left out.
use text.Mathlib.Text.{◌==◌ as str_eq}
use agent_on_demand.Prelude.{
  ℕ, ◌+◌, ltb, Bool, true, false, Option, none, some, List, [], ◌∷◌, any, length, if◌then◌else◌,
}
use agent_on_demand.Prelude.Result.{Result, ok, err, ◌>>=◌, ◌>>◌}
use agent_on_demand.Json.{Json, str, arr, obj, Items, items, Fields, lookup, json_eq, or_default}
use agent_on_demand.Validation.Skills.{is_present}

-- The ValueErrors, and the TypeError of a list or a dict that is looked up in a set.
pub data ServerError : Type 0 where
  too_many unhashable : ServerError
  not_an_object no_name unknown_type no_url no_command duplicate : ℕ → ServerError

abbrev pub is_hashable : Json → Bool
is_hashable (arr vs) = false
is_hashable (obj fs) = false
is_hashable _ = true

-- `server.get("type", "url")`.
abbrev pub type_of : Option Json → Json
type_of v = or_default (str "url") v

abbrev pub checked_type : ℕ → Json → Fields → Result ServerError (Unit {0})
checked_type i (str t) server =
    if str_eq t "url"
    then (if is_present (lookup "url" server) then ok tt else err (ServerError.no_url i))
    else if str_eq t "stdio"
    then (if is_present (lookup "command" server) then ok tt else err (ServerError.no_command i))
    else err (ServerError.unknown_type i)
checked_type i (arr vs) server = err ServerError.unhashable
checked_type i (obj fs) server = err ServerError.unhashable
checked_type i _ server = err (ServerError.unknown_type i)

abbrev pub named : ℕ → Option Json → Result ServerError Json
named i none = err (ServerError.no_name i)
named i (some v) = ok v

abbrev pub unique : ℕ → List Json → Json → Result ServerError Json
unique i names name =
    if is_hashable name
    then (if any (λ n. json_eq n name) names then err (ServerError.duplicate i) else ok name)
    else err ServerError.unhashable

-- One round of the loop: the name that joins `names`.
unfoldable pub validate_server : ℕ → List Json → Json → Result ServerError Json
validate_server i names (obj server) = named i (lookup "name" server) >>= λ name.
    checked_type i (type_of (lookup "type" server)) server >> unique i names name
validate_server i names _ = err (ServerError.not_an_object i)

unfoldable pub validate_each : ℕ → List Json → List Json → Result ServerError (Unit {0})
validate_each i names [] = ok tt
validate_each i names (s ∷ ss) =
    validate_server i names s >>= λ name. validate_each (i + 1) (name ∷ names) ss

unfoldable pub validate_mcp_servers : Items → Result ServerError (Unit {0})
validate_mcp_servers servers =
    validate_each 0 [] (items servers)
    >> (if ltb 20 (length (items servers)) then err ServerError.too_many else ok tt)
