-- ===== src/Metadata.antt =====
-- src/agent_on_demand/validation/metadata_merge.py. A dict is the fields of an object.
use text.Mathlib.Text.{◌==◌ as str_eq}
use text.Mathlib.TextEquality.{eq_iff}
use agent_on_demand.Prelude.{
  ◌≡◌, refl, subst, String, Bool, false, Option, none, some, arith, if◌then◌else◌, Bool-cases, inl,
  inr,
}
use agent_on_demand.Json.{Json, str, Fields, end, field, lookup, without}

-- `v == ""`.
abbrev pub is_blank : Json → Bool
is_blank (str s) = str_eq s ""
is_blank _ = false

-- `merged[k] = v`: a key that is there keeps its place.
unfoldable pub put : String → Json → Fields → Fields
put k v end = field k v end
put k v (field j w fs) =
    let rest = put k v fs in if str_eq j k then field j v fs else field j w rest

abbrev pub merge_entry : String → Json → Fields → Fields
merge_entry k v merged = if is_blank v then without k merged else put k v merged

-- The loop over the patch.
unfoldable pub merge_metadata : Fields → Fields → Fields
merge_metadata current end = current
merge_metadata current (field k v patch) = merge_metadata (merge_entry k v current) patch

-- No key twice, as in any dict.
abbrev pub IsDict : Fields → Type 0
IsDict end = Unit {0}
IsDict (field k v fs) = (lookup k fs ≡ none) × IsDict fs

lookup-without :
    (k j : String) (fs : Fields)
    → lookup k (without j fs) ≡ (if str_eq j k then none else lookup k fs)
unfolding lookup without
lookup-without k j end = ground arith
lookup-without k j (field i v fs) = elim (Bool-cases (str_eq i j)) [
  | inl e ↦ ground (arith, lookup-without k j fs, eq_iff i k, eq_iff j k, eq_iff i j)
  | inr e ↦ ground (arith, lookup-without k j fs, eq_iff i k, eq_iff j k, eq_iff i j)
]

lookup-put :
    (k j : String) (v : Json) (fs : Fields)
    → lookup k (put j v fs) ≡ (if str_eq j k then some v else lookup k fs)
unfolding lookup put
lookup-put k j v end = ground arith
lookup-put k j v (field i w fs) =
    ground (arith, lookup-put k j v fs, eq_iff i k, eq_iff j k, eq_iff i j)

without-IsDict : (k : String) (fs : Fields) → IsDict fs → IsDict (without k fs)
unfolding without
without-IsDict k end h = tt
without-IsDict k (field i v fs) h = elim (Bool-cases (str_eq i k)) [
  | inl e ↦ rw e (without-IsDict k fs h.1)
  | inr e ↦ rw e (ground (arith, lookup-without i k fs, h.0), without-IsDict k fs h.1)
]

put-IsDict : (k : String) (v : Json) (fs : Fields) → IsDict fs → IsDict (put k v fs)
unfolding put lookup
put-IsDict k v end h = (refl, tt)
put-IsDict k v (field i w fs) h = elim (Bool-cases (str_eq i k)) [
  | inl e ↦ rw e h
  | inr e ↦
      rw e (ground (arith, lookup-put i k v fs, h.0, eq_iff i k, eq_iff k i), put-IsDict k v fs h.1)
]

merge_entry-IsDict : (k : String) (v : Json) (fs : Fields) → IsDict fs → IsDict (merge_entry k v fs)
merge_entry-IsDict k v fs h = elim (Bool-cases (is_blank v)) [
  | inl e ↦ rw e (without-IsDict k fs h)
  | inr e ↦ rw e (put-IsDict k v fs h)
]

-- What the patch says of a key, and what is there.
abbrev pub patched : Option Json → Option Json → Option Json
patched none old = old
patched (some v) old = if is_blank v then none else some v

lookup-merge_entry :
    (k j : String) (v : Json) (fs : Fields)
    → lookup k (merge_entry j v fs) ≡ (if str_eq j k then patched (some v) none else lookup k fs)
lookup-merge_entry k j v fs = ground (arith, lookup-without k j fs, lookup-put k j v fs)

-- A merge of dicts is a dict. A key that the patch does not have keeps its value, one that the patch
-- gives "" is gone, and any other key of the patch has the patch's value.
pub merge_metadata_lem :
    (current patch : Fields)
    → IsDict current
    → IsDict patch
    → IsDict (merge_metadata current patch)
      × ((k : String)
          → lookup k (merge_metadata current patch) ≡ patched (lookup k patch) (lookup k current))
unfolding merge_metadata lookup
merge_metadata_lem current end h d = (h, λ k. refl)
merge_metadata_lem current (field j v patch) h d =
    let rest =
      merge_metadata_lem (merge_entry j v current) patch (merge_entry-IsDict j v current h) d.1 in
    (
      rest.0,
      λ k. elim (Bool-cases (str_eq j k)) [
        | inl e ↦
            let absent = subst (λ i. lookup i patch ≡ none) ((eq_iff j k).0 e) d.0 in
            ground (arith, rest.1 k, lookup-merge_entry k j v current, absent)
        | inr e ↦ ground (arith, rest.1 k, lookup-merge_entry k j v current)
      ],
    )
