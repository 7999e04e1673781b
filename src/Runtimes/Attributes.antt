-- ===== src/Runtimes/Attributes.antt =====
-- Reading OTEL_RESOURCE_ATTRIBUTES, the text that runtimes/claude_otel.py builds: pairs KEY=value with
-- commas between them.
use mathlib.Core.List.{append-nil, append_assoc}
use agent_on_demand.Prelude.{
  ℕ, ◌==◌, ◌≡◌, refl, sym, ap, ◌∙◌, false, Option, none, some, List, [], ◌∷◌, ◌++◌, map, select,
  any, All, All-append, arith, Bool-cases, inl, inr, if◌then◌else◌,
}
use agent_on_demand.Prelude.Text.{Text, codes, join}
use agent_on_demand.Scripts.{Env, Spec, is_blank}
use agent_on_demand.Runtimes.Otel.{
  is_forbidden, is_safe_attribute_value, candidates, candidate, session_candidate,
  environment_candidate, has_safe_value, pair_text, build_resource_attributes,
}

-- The pairs that are read, the key of the pair that is being read, once its `=` is passed, and the
-- characters since then.
record Pairs : Type 0 where
  done : List (Text × Text)
  key : Option Text
  word : Text

abbrev end_key : Option Text → Pairs → Option Pairs
end_key none s = some (record s { key = some s.word; word = [] })
end_key (some k) s = none

abbrev end_pair : Option Text → Pairs → Option Pairs
end_pair none s = none
end_pair (some k) s = some (record { done = s.done ++ (k, s.word) ∷ []; key = none; word = [] })

abbrev read_step : ℕ → Pairs → Option Pairs
read_step c s =
    if c == b'='
    then end_key s.key s
    else if c == b','
    then end_pair s.key s
    else some (record s { word = s.word ++ c ∷ [] })

abbrev then_read :
    Option Pairs → (Pairs → Option (List (Text × Text))) → Option (List (Text × Text))
then_read none f = none
then_read (some s) f = f s

abbrev at_end : Option Text → Pairs → Option (List (Text × Text))
at_end none s = if is_blank s.word then some s.done else none
at_end (some k) s = some (s.done ++ (k, s.word) ∷ [])

read_pairs : Text → Pairs → Option (List (Text × Text))
read_pairs [] s = at_end s.key s
read_pairs (c ∷ cs) s = then_read (read_step c s) (read_pairs cs)

-- The pairs of a text; `none` where it is not such a text.
pub read_attributes : Text → Option (List (Text × Text))
unfolding read_pairs
read_attributes t = read_pairs t (record { done = []; key = none; word = [] })

read_plain :
    (s rest : Text) (done : List (Text × Text)) (key : Option Text) (word : Text)
    → any is_forbidden s ≡ false
    → read_pairs (s ++ rest) (record { done = done; key = key; word = word })
      ≡ read_pairs rest (record { done = done; key = key; word = word ++ s })
unfolding read_pairs any is_forbidden
read_plain [] rest done key word h = rw append-nil
read_plain (c ∷ cs) rest done key word h = ground (
  arith,
  read_plain cs rest done key (word ++ c ∷ []) (ground arith),
  append_assoc word (c ∷ []) cs,
)

abbrev Plain : Text × Text → Type 0
Plain (k, v) = (any is_forbidden k ≡ false) × (any is_forbidden v ≡ false)

read_pair :
    (k v rest : Text) (done : List (Text × Text))
    → Plain (k, v)
    → read_pairs (pair_text (k, v) ++ rest) (record { done = done; key = none; word = [] })
      ≡ read_pairs rest (record { done = done; key = some k; word = v })
unfolding read_pairs
read_pair k v rest done h =
    ap (λ t. read_pairs t (record { done = done; key = none; word = [] }))
      (append_assoc k (b'=' ∷ v) rest)
    ∙ read_plain k (b'=' ∷ (v ++ rest)) done none [] h.0
    ∙ read_plain v rest done (some k) [] h.1

read_joined :
    (x : Text × Text) (xs done : List (Text × Text))
    → All Plain (x ∷ xs)
    → read_pairs
        (join (b',' ∷ []) (map pair_text (x ∷ xs)))
        (record { done = done; key = none; word = [] })
      ≡ some (done ++ (x ∷ xs))
unfolding read_pairs join
read_joined (k, v) [] done h =
    ap (λ t. read_pairs t (record { done = done; key = none; word = [] }))
      (sym (append-nil (pair_text (k, v))))
    ∙ read_pair k v [] done h.0
read_joined (k, v) (y ∷ ys) done h =
    read_pair k v (b',' ∷ join (b',' ∷ []) (map pair_text (y ∷ ys))) done h.0
    ∙ read_joined y ys (done ++ (k, v) ∷ []) h.1
    ∙ ap some (append_assoc done ((k, v) ∷ []) (y ∷ ys))

abbrev PlainKey : Text × Text → Type 0
PlainKey (k, v) = any is_forbidden k ≡ false

select-Plain : (xs : List (Text × Text)) → All PlainKey xs → All Plain (select has_safe_value xs)
unfolding select is_safe_attribute_value
select-Plain [] h = tt
select-Plain ((k, v) ∷ xs) h = elim (Bool-cases (is_safe_attribute_value v)) [
  | inl e ↦ rw e ((h.0, ground (arith, e)), select-Plain xs h.1)
  | inr e ↦ rw e (select-Plain xs h.1)
]

candidate_plain : (k : Text) (o : Option Text) → PlainKey (k, []) → All PlainKey (candidate k o)
candidate_plain k none h = tt
candidate_plain k (some v) h = (h, tt)

session_plain : (o : Option Text) → All PlainKey (session_candidate o)
unfolding any is_forbidden
session_plain none = tt
session_plain (some []) = tt
session_plain (some (c ∷ cs)) = (refl, tt)

environment_plain : (o : Option Env) → All PlainKey (environment_candidate o)
unfolding any is_forbidden
environment_plain none = tt
environment_plain (some e) = candidate_plain (codes "aod.environment_id") e.id refl

candidates_plain : (spec : Spec) → All PlainKey (candidates spec)
unfolding any is_forbidden
candidates_plain spec = (
  refl,
  (
    refl,
    All-append PlainKey (session_candidate spec.runtime_session_id) _
        (session_plain spec.runtime_session_id)
        (All-append PlainKey (candidate (codes "aod.user_id") spec.user_id) _
          (candidate_plain (codes "aod.user_id") spec.user_id refl)
          (environment_plain spec.environment)),
  ),
)

read_back :
    (xs : List (Text × Text))
    → All Plain xs
    → read_attributes (join (b',' ∷ []) (map pair_text xs)) ≡ some xs
unfolding read_attributes read_pairs join
read_back [] h = refl
read_back (x ∷ xs) h = read_joined x xs [] h

-- The resource attributes of Claude's telemetry, read as pairs KEY=value with commas between them, are
-- exactly the candidates whose values are safe, in their order: a value that could be taken for a
-- separator never reaches the text.
pub read-build_resource_attributes :
    (spec : Spec)
    → read_attributes (build_resource_attributes spec)
      ≡ some (select has_safe_value (candidates spec))
unfolding build_resource_attributes
read-build_resource_attributes spec =
    read_back (select has_safe_value (candidates spec))
      (select-Plain (candidates spec) (candidates_plain spec))
