-- ===== src/Mcp/Accepted.antt =====
-- mcp_server_validation.py and the spec factory together: the servers that are accepted.
use text.Mathlib.Text.{◌==◌ as str_eq}
use agent_on_demand.Prelude.{
  ℕ, ◌+◌, ◌≡◌, refl, subst, true, false, Option, none, some, List, [], ◌∷◌, map, any, All, ◌⊎◌,
  arith, Bool-cases, inl, inr, if◌then◌else◌,
}
use agent_on_demand.Prelude.Result.{ok, bind_ok}
use agent_on_demand.Json.{
  Json, null, bool, int, str, arr, nil, obj, Items, Fields, lookup, json_eq, or_default,
}
use agent_on_demand.Validation.Servers.{
  is_hashable, type_of, checked_type, named, unique, validate_server, validate_each,
}
use agent_on_demand.Specs.{McpServerSpec, mcp_server_spec, each}
use agent_on_demand.Mcp.{JsonRuntime, is_text}
use agent_on_demand.Mcp.Transport.{Transport, http, stdio, table, filled, transport, Fits, HasType}

-- The server that a request means, under its name.
pub wanted : Json → Json × Option Transport
wanted (obj d) = (
  or_default null (lookup "name" d),
  (if is_text "url" (type_of (lookup "type" d))
      then some (http (or_default (str "") (lookup "url" d)) (filled (table (lookup "headers" d))))
      else if is_text "stdio" (type_of (lookup "type" d))
      then some (
          stdio (or_default (str "") (lookup "command" d)) (or_default (arr nil) (lookup "args" d))
            (filled (table (lookup "env" d))))
      else none),
)
wanted _ = (null, none)

-- For opencode, `args` is a list where it is given.
unfoldable pub FitsRequest : JsonRuntime → Json → Type 0
FitsRequest JsonRuntime.opencode (obj d) =
    (args : Items) × (or_default (arr nil) (lookup "args" d) ≡ arr args)
FitsRequest _ v = Unit {0}

abbrev pub meant : McpServerSpec → Json × Option Transport
meant s = (s.name, transport s)

-- Names that a set takes, none of them seen before.
abbrev pub Apart : List Json → List McpServerSpec → Type 0
Apart names [] = Unit
Apart names (s ∷ ss) =
    (is_hashable s.name ≡ true)
    × (any (λ n. json_eq n s.name) names ≡ false)
    × Apart (s.name ∷ names) ss

unique_ok :
    (i : ℕ) (names : List Json) (n name : Json)
    → unique i names n ≡ ok name
    → (n ≡ name) × (is_hashable n ≡ true) × (any (λ m. json_eq m n) names ≡ false)
unique_ok i names n name e = elim (Bool-cases (is_hashable n)) [
  | inr h ↦ absurd (ground (arith, e, h))
  | inl h ↦ elim (Bool-cases (any (λ m. json_eq m n) names)) [
    | inl k ↦ absurd (ground (arith, e, h, k))
    | inr k ↦ (ground (arith, e, h, k), h, k)
  ]
]

checked_type_ok :
    (i : ℕ) (t : Json) (d : Fields)
    → checked_type i t d ≡ ok tt
    → (is_text "url" t ≡ true) ⊎ (is_text "stdio" t ≡ true)
unfolding is_text
checked_type_ok i (str t) d e = elim (Bool-cases (str_eq t "url")) [
  | inl h ↦ inl h
  | inr h ↦ elim (Bool-cases (str_eq t "stdio")) [
    | inl k ↦ inr k
    | inr k ↦ absurd (ground (arith, e, h, k))
  ]
]
checked_type_ok i null d e = absurd (cc e)
checked_type_ok i (bool b) d e = absurd (cc e)
checked_type_ok i (int n) d e = absurd (cc e)
checked_type_ok i (arr vs) d e = absurd (cc e)
checked_type_ok i (obj fs) d e = absurd (cc e)

named_ok : (i : ℕ) (v : Option Json) (n : Json) → named i v ≡ ok n → v ≡ some n
named_ok i (some m) n e = cc e
named_ok i none n e = absurd (cc e)

-- The spec of an object whose name is there.
abbrev pub spec_of : Fields → Json → McpServerSpec
spec_of d name = record {
  name = name;
  type = type_of (lookup "type" d);
  url = or_default (str "") (lookup "url" d);
  headers = table (lookup "headers" d);
  command = or_default (str "") (lookup "command" d);
  args = or_default (arr nil) (lookup "args" d);
  env = table (lookup "env" d);
}

mcp_server_spec_lem :
    (d : Fields) (name : Json)
    → lookup "name" d ≡ some name
    → (mcp_server_spec (obj d) ≡ ok (spec_of d name)) × (meant (spec_of d name) ≡ wanted (obj d))
unfolding mcp_server_spec wanted transport
mcp_server_spec_lem d name e = (rw e refl, rw e refl)

-- What the factory makes of an accepted server.
abbrev pub Made : JsonRuntime → List Json → Json → Json → Type 0
Made r names v name =
    (s : McpServerSpec) × (mcp_server_spec v ≡ ok s)
    × HasType s
    × Fits r s
    × (s.name ≡ name)
    × (is_hashable name ≡ true)
    × (any (λ n. json_eq n name) names ≡ false)
    × (meant s ≡ wanted v)

fits :
    (r : JsonRuntime) (d : Fields) (name : Json) → FitsRequest r (obj d) → Fits r (spec_of d name)
unfolding FitsRequest
fits JsonRuntime.claude d name f = tt
fits JsonRuntime.gemini d name f = tt
fits JsonRuntime.opencode d name f = f

validate_server-Made :
    (r : JsonRuntime) (i : ℕ) (names : List Json) (v name : Json)
    → validate_server i names v ≡ ok name
    → FitsRequest r v
    → Made r names v name
unfolding validate_server
validate_server-Made r i names (obj d) name e f =
    let (n, en, e1) = bind_ok (named i (lookup "name" d)) _ name e in
    let (u, eu, e2) = bind_ok (checked_type i (type_of (lookup "type" d)) d) _ name e1 in
    let (same, hash, fresh) = unique_ok i names n name e2 in
    let has : lookup "name" d ≡ some name = rw (named_ok i (lookup "name" d) n en, same) refl in
    let (made, means) = mcp_server_spec_lem d name has in
    (
      spec_of d name,
      made,
      checked_type_ok i (type_of (lookup "type" d)) d eu,
      fits r d name f,
      refl,
      subst (λ x. is_hashable x ≡ true) same hash,
      subst (λ x. any (λ m. json_eq m x) names ≡ false) same fresh,
      means,
    )
validate_server-Made r i names null name e f = absurd (cc e)
validate_server-Made r i names (bool b) name e f = absurd (cc e)
validate_server-Made r i names (int n) name e f = absurd (cc e)
validate_server-Made r i names (str s) name e f = absurd (cc e)
validate_server-Made r i names (arr vs) name e f = absurd (cc e)

abbrev pub AllMade : JsonRuntime → List Json → List Json → Type 0
AllMade r names vs =
    (ss : List McpServerSpec) × (each mcp_server_spec vs ≡ ok ss)
    × All HasType ss
    × All (Fits r) ss
    × Apart names ss
    × (map meant ss ≡ map wanted vs)

pub validate_each-AllMade :
    (r : JsonRuntime) (i : ℕ) (names : List Json) (vs : List Json)
    → validate_each i names vs ≡ ok tt
    → All (FitsRequest r) vs
    → AllMade r names vs
unfolding validate_each each
validate_each-AllMade r i names [] e f = ([], refl, tt, tt, tt, refl)
validate_each-AllMade r i names (v ∷ vs) e f =
    let (n, en, e1) = bind_ok (validate_server i names v) _ tt e in
    let (s, es, typed, fit, same, hash, fresh, means) = validate_server-Made r i names v n en f.0 in
    let (ss, ess, types, fit_all, apart, all_mean) =
      validate_each-AllMade r (i + 1) (n ∷ names) vs e1 f.1 in
    (
      s ∷ ss,
      rw (es, ess) refl,
      (typed, types),
      (fit, fit_all),
      (rw same hash, rw same fresh, rw same apart),
      rw (means, all_mean) refl,
    )

-- Claude takes what is accepted.
pub any_fits : (vs : List Json) → All (FitsRequest JsonRuntime.claude) vs
unfolding FitsRequest
any_fits [] = tt
any_fits (v ∷ vs) = (tt, any_fits vs)
