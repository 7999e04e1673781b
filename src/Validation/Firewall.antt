-- ===== src/Validation/Firewall.antt =====
-- From the networking of a request to the rules of its sandbox.
use text.Mathlib.Text.{◌==◌ as str_eq}
use text.Mathlib.TextEquality.{eq_iff}
use agent_on_demand.Prelude.{
  ℕ, ◌≡◌, refl, sym, ap, subst, false, Option, none, some, String, List, [], ◌∷◌, ◌++◌, map,
  Bool-cases, Option-cases, inl, inr, if◌then◌else◌,
}
use agent_on_demand.Prelude.Result.{ok}
use agent_on_demand.Json.{
  Json, null, bool, int, str, arr, obj, Items, items, nil, Fields, end, field, lookup, without,
}
use agent_on_demand.Environments.{CreateRequest, type_in, new_row}
use agent_on_demand.Provisioning.{build_network_policy, hosts_in}
use agent_on_demand.Validation.Networking.{checked_hosts, checked_type, validate_networking}

-- What is asked for: the hosts that are allowed, where the networking is limited.
pub data Asked : Type 0 where
  unrestricted : Asked
  limited_to : Items → Asked

abbrev pub allowed : Option Json → Items
allowed (some (arr hosts)) = hosts
allowed _ = nil

pub asked : Fields → Option Json → Asked
asked v (some (str t)) =
    if str_eq t "limited" then limited_to (allowed (lookup "allowed_hosts" v)) else unrestricted
asked v _ = unrestricted

-- The rules: one for each host, and everything else is denied.
pub rules_for : Asked → Option (List (Json × String))
rules_for unrestricted = none
rules_for (limited_to hosts) =
    some (map (λ host. (host, "allow")) (items hosts) ++ (str "*", "deny") ∷ [])

lookup-without :
    (k j : String) (fs : Fields) → str_eq j k ≡ false → lookup k (without j fs) ≡ lookup k fs
unfolding lookup without
lookup-without k j end n = refl
lookup-without k j (field i v fs) n = elim (Bool-cases (str_eq i j)) [
  | inl h ↦
      let other : str_eq i k ≡ false = subst (λ x. str_eq x k ≡ false) (sym ((eq_iff i j).0 h)) n in
      rw (h, other) (lookup-without k j fs n)
  | inr h ↦ rw h (ap (λ r. if str_eq i k then some v else r) (lookup-without k j fs n))
]

hosts_in_lem : (v : Option Json) → checked_hosts v ≡ ok tt → hosts_in v ≡ items (allowed v)
hosts_in_lem none e = refl
hosts_in_lem (some (arr hosts)) e = refl
hosts_in_lem (some null) e = refl
hosts_in_lem (some (bool b)) e = refl
hosts_in_lem (some (int n)) e = refl
hosts_in_lem (some (str s)) e = refl
hosts_in_lem (some (obj fs)) e = refl

-- The policy by the two columns of an environment.
abbrev policy : String → Option Json → Option (List (Json × String))
policy type hosts =
    if str_eq type "limited"
    then some (map (λ host. (host, "allow")) (hosts_in hosts) ++ (str "*", "deny") ∷ [])
    else none

by_type :
    (n : Fields) (t : Json)
    → checked_type t n ≡ ok tt
    → policy (type_in (some t)) (lookup "allowed_hosts" (without "type" n))
      ≡ rules_for (asked n (some t))
unfolding rules_for asked
by_type n (str t) e = elim (Bool-cases (str_eq t "limited")) [
  | inl h ↦
      rw
        (
          h,
          lookup-without "allowed_hosts" "type" n refl,
          hosts_in_lem (lookup "allowed_hosts" n) (rw h at e),
        )
        refl
  | inr h ↦ rw h refl
]
by_type n null e = absurd (cc e)
by_type n (bool b) e = absurd (cc e)
by_type n (int i) e = absurd (cc e)
by_type n (arr vs) e = absurd (cc e)
by_type n (obj fs) e = absurd (cc e)

-- If the networking of a request for an environment is accepted, then a session of that environment gets
-- the rules that were asked for: one that allows each of the hosts, in their order, and then one that
-- denies everything, where it is limited, and none where it is unrestricted or has no type.
pub build_network_policy-rules_for :
    (user : ℕ) (req : CreateRequest)
    → validate_networking req.networking ≡ ok tt
    → build_network_policy (some (new_row user req).content)
      ≡ rules_for (asked req.networking (lookup "type" req.networking))
unfolding build_network_policy rules_for asked validate_networking
build_network_policy-rules_for user req e = elim (Option-cases (lookup "type" req.networking)) [
  | inl h ↦ rw h refl
  | inr (t, h) ↦ rw h (by_type req.networking t (rw h at e))
]
