-- ===== src/Validation/Networking.antt =====
-- `validate_networking` of environment_validation.py, on the fields of a JSON object.
use text.Mathlib.Text.{◌==◌ as str_eq}
use agent_on_demand.Prelude.{Option, none, some, if◌then◌else◌}
use agent_on_demand.Prelude.Result.{Result, ok, err}
use agent_on_demand.Json.{Json, str, arr, obj, Fields, lookup, or_default}

-- The ValueErrors, and the TypeError of a list or a dict that is looked up in a set.
pub data NetworkingError : Type 0 where
  unknown_type hosts_not_a_list unhashable : NetworkingError

abbrev pub checked_hosts : Option Json → Result NetworkingError (Unit {0})
checked_hosts none = ok tt
checked_hosts (some (arr hosts)) = ok tt
checked_hosts (some _) = err NetworkingError.hosts_not_a_list

abbrev pub checked_type : Json → Fields → Result NetworkingError (Unit {0})
checked_type (str t) v =
    if str_eq t "limited"
    then checked_hosts (lookup "allowed_hosts" v)
    else if str_eq t "unrestricted"
    then ok tt
    else err NetworkingError.unknown_type
checked_type (arr vs) v = err NetworkingError.unhashable
checked_type (obj fs) v = err NetworkingError.unhashable
checked_type _ v = err NetworkingError.unknown_type

unfoldable pub validate_networking : Fields → Result NetworkingError (Unit {0})
validate_networking v = checked_type (or_default (str "unrestricted") (lookup "type" v)) v
