-- ===== src/Runtimes/Keys.antt =====
-- What Codex finds in its two files: its key against the environment file, and the texts of its
-- configuration.
use mathlib.Core.List.{append_assoc}
use agent_on_demand.Prelude.{
  ℕ, ◌≡◌, ◌≢◌, refl, sym, ap, subst, ◌∙◌, Bool, true, false, Option, none, some, List, [], ◌∷◌,
  ◌++◌, Bool-cases, inl, inr,
}
use agent_on_demand.Prelude.Text.{Text, codes, text_eq, text_eq_iff, text_le, join}
use agent_on_demand.Scripts.{
  Env, Spec, insert_item, sorted_items, assignments, given, given_some, env_items,
}
use agent_on_demand.Runtimes.{Runtime}
use agent_on_demand.Runtimes.Otel.{static_env}
use agent_on_demand.Runtimes.Codex.{
  value_of, truthy, api_key_name, env_key, or_else, openai_api_key, Server, args_line, server_lines,
  all_lines, render_codex_mcp_config,
}

-- The value that a variable has after these assignments: the last one counts.
abbrev later : Bool → Text → Option Text → Option Text
later hit v (some w) = some w
later true v none = some v
later false v none = none

unfoldable pub assigned_value : Text → List (Text × Text) → Option Text
assigned_value k [] = none
assigned_value k ((j, v) ∷ xs) = later (text_eq j k) v (assigned_value k xs)

abbrev pub last_of : Option Text → Option Text → Option Text
last_of a none = a
last_of a (some v) = some v

assigned_value-append :
    (k : Text) (xs ys : List (Text × Text))
    → assigned_value k (xs ++ ys) ≡ last_of (assigned_value k xs) (assigned_value k ys)
unfolding assigned_value
assigned_value-append k [] ys = elim (assigned_value k ys) as (λ o. o ≡ last_of none o) [
  | none ↦ refl
  | some v ↦ refl
]
assigned_value-append k ((j, v) ∷ xs) ys =
    ap (later (text_eq j k) v) (assigned_value-append k xs ys)
    ∙ regroup (text_eq j k) v (assigned_value k xs) (assigned_value k ys)
  where
    regroup :
        (b : Bool) (v : Text) (o p : Option Text)
        → later b v (last_of o p) ≡ last_of (later b v o) p
    regroup b v o (some w) = refl
    regroup b v o none = refl

-- No key twice, as in any dict.
abbrev pub IsDict : List (Text × Text) → Type 0
IsDict [] = Unit {0}
IsDict ((k, v) ∷ xs) = (value_of k xs ≡ none) × IsDict xs

true_or : {b : Bool} → b ≡ true → ¬ (b ≡ false)
true_or h k = absurd (cc (h, k))

swap :
    (a b : Bool) (v w : Text) (o : Option Text)
    → ¬ ((a ≡ true) × (b ≡ true))
    → later a w (later b v o) ≡ later b v (later a w o)
swap a b v w (some x) h = refl
swap true true v w none h = absurd (h (refl, refl))
swap true false v w none h = refl
swap false true v w none h = refl
swap false false v w none h = refl

later-none : (a : Bool) (v : Text) (o : Option Text) → later a v o ≡ none → (a ≡ false) × (o ≡ none)
later-none a v (some x) h = absurd (cc h)
later-none true v none h = absurd (cc h)
later-none false v none h = (refl, refl)

same_key : (i j k : Text) → text_eq i k ≡ true → text_eq j k ≡ true → text_eq i j ≡ true
same_key i j k a b = (text_eq_iff i j).1 ((text_eq_iff i k).0 a ∙ sym ((text_eq_iff j k).0 b))

assigned_value-insert_item :
    (k j v : Text) (ys : List (Text × Text))
    → assigned_value j ys ≡ none
    → assigned_value k (insert_item (j, v) ys) ≡ later (text_eq j k) v (assigned_value k ys)
unfolding assigned_value insert_item
assigned_value-insert_item k j v [] h = refl
assigned_value-insert_item k j v ((i, w) ∷ ys) h =
    let (other, absent) = later-none (text_eq i j) w (assigned_value j ys) h in
    elim (Bool-cases (text_le j i)) [
      | inl e ↦ rw e refl
      | inr e ↦ rw e (
          ap (later (text_eq i k) w) (assigned_value-insert_item k j v ys absent)
          ∙ swap (text_eq i k) (text_eq j k) v w (assigned_value k ys)
              (λ b. absurd (true_or (same_key i j k b.0 b.1) other)))
    ]

assigned_value-sorted_items :
    (k : Text) (xs : List (Text × Text))
    → IsDict xs
    → assigned_value k (sorted_items xs) ≡ value_of k xs
unfolding assigned_value sorted_items value_of
assigned_value-sorted_items k [] h = refl
assigned_value-sorted_items k ((j, v) ∷ xs) h =
    let rest = assigned_value-sorted_items k xs h.1 in
    assigned_value-insert_item k j v (sorted_items xs) (assigned_value-sorted_items j xs h.1 ∙ h.0)
    ∙ ap (later (text_eq j k) v) rest
    ∙ elim (Bool-cases (text_eq j k)) [
      | inl e ↦ rw e (ap (later true v) (absent ((text_eq_iff j k).0 e)))
      | inr e ↦ rw e (settled (value_of k xs))
    ]
  where
    absent : j ≡ k → value_of k xs ≡ none
    absent e = subst (λ i. value_of i xs ≡ none) e h.0

    settled : (o : Option Text) → later false v o ≡ o
    settled none = refl
    settled (some x) = refl

abbrev pub IsDictOf : Option Env → Type 0
IsDictOf none = Unit {0}
IsDictOf (some e) = IsDict e.env_vars

abbrev env_value : Option Env → Option Text
env_value none = none
env_value (some e) = value_of api_key_name e.env_vars

env_lem : (o : Option Env) → IsDictOf o → assigned_value api_key_name (env_items o) ≡ env_value o
unfolding assigned_value
env_lem none h = refl
env_lem (some e) h = assigned_value-sorted_items api_key_name e.env_vars h

given-none :
    (k t : Text) → text_eq k api_key_name ≡ false → assigned_value api_key_name (given k t) ≡ none
unfolding assigned_value
given-none k [] h = refl
given-none k (c ∷ cs) h = rw h refl

given_some-none :
    (k : Text) (o : Option Text)
    → text_eq k api_key_name ≡ false
    → assigned_value api_key_name (given_some k o) ≡ none
unfolding assigned_value
given_some-none k none h = refl
given_some-none k (some t) h = given-none k t h

-- The entries of the environment file of a Codex session: `write_env_file` passes no credentials.
abbrev pub codex_assignments : Option Text → Spec → List (Text × Text)
codex_assignments api_key spec = assignments [] (static_env api_key Runtime.codex) spec

-- The key that the environment file leaves.
file_key :
    (api_key : Option Text) (spec : Spec)
    → IsDictOf spec.environment
    → IsDict spec.secret_env_vars
    → assigned_value api_key_name (codex_assignments api_key spec)
      ≡ last_of (env_value spec.environment) (value_of api_key_name spec.secret_env_vars)
unfolding assignments static_env text_eq
file_key api_key spec d h =
    assigned_value-append api_key_name (given_some (codes "AOD_SESSION_ID") spec.runtime_session_id)
      (given (codes "AOD_MODEL") spec.model
        ++ (env_items spec.environment ++ sorted_items spec.secret_env_vars))
    ∙ rw
        (
          given_some-none (codes "AOD_SESSION_ID") spec.runtime_session_id refl,
          assigned_value-append api_key_name (given (codes "AOD_MODEL") spec.model),
          assigned_value-append api_key_name (env_items spec.environment),
          given-none (codes "AOD_MODEL") spec.model refl,
          env_lem spec.environment d,
          assigned_value-sorted_items api_key_name spec.secret_env_vars h,
        )
        (outer (env_value spec.environment) (value_of api_key_name spec.secret_env_vars))
  where
    outer : (a b : Option Text) → last_of none (last_of none (last_of a b)) ≡ last_of a b
    outer a (some v) = refl
    outer none none = refl
    outer (some v) none = refl

env_key_lem : (o : Option Env) → env_key o ≡ truthy (env_value o)
env_key_lem none = refl
env_key_lem (some e) = refl

-- Unless the session has an empty secret of that name, the key of auth.json is the value that the
-- environment file leaves in OPENAI_API_KEY, and there is no key where that is empty or unset.
pub openai_api_key_lem :
    (api_key : Option Text) (spec : Spec)
    → IsDictOf spec.environment
    → IsDict spec.secret_env_vars
    → value_of api_key_name spec.secret_env_vars ≢ some []
    → openai_api_key spec ≡ truthy (assigned_value api_key_name (codex_assignments api_key spec))
unfolding openai_api_key
openai_api_key_lem api_key spec d h k =
    ap (or_else (truthy (value_of api_key_name spec.secret_env_vars)))
      (env_key_lem spec.environment)
    ∙ choose (env_value spec.environment) (value_of api_key_name spec.secret_env_vars) k
    ∙ sym (ap truthy (file_key api_key spec d h))
  where
    choose :
        (a b : Option Text) → b ≢ some [] → or_else (truthy b) (truthy a) ≡ truthy (last_of a b)
    choose a none k = refl
    choose a (some []) k = absurd (k refl)
    choose a (some (c ∷ cs)) k = refl

-- If the session has an empty secret OPENAI_API_KEY and the environment a key, then the environment
-- file leaves the variable empty, but auth.json gets the environment's key: the override of the
-- session is not mirrored.
pub empty_secret_ignored :
    (api_key : Option Text) (spec : Spec) (e : Env) (c : ℕ) (cs : Text)
    → IsDictOf spec.environment
    → IsDict spec.secret_env_vars
    → value_of api_key_name spec.secret_env_vars ≡ some []
    → spec.environment ≡ some e
    → value_of api_key_name e.env_vars ≡ some (c ∷ cs)
    → (assigned_value api_key_name (codex_assignments api_key spec) ≡ some [])
      × (openai_api_key spec ≡ some (c ∷ cs))
unfolding openai_api_key
empty_secret_ignored api_key spec e c cs d h empty env key = (
  file_key api_key spec d h ∙ ap (last_of (env_value spec.environment)) empty,
  rw (empty, env) (ap truthy key),
)

args_alike : (a b : Text) → args_line ((a ++ (codes "\", \"" ++ b)) ∷ []) ≡ args_line (a ∷ b ∷ [])
unfolding args_line join
args_alike a b = simp append_assoc

-- A double quote in an argument is not escaped: a server with the one argument `a", "b` and the same
-- server with the two arguments `a` and `b` are rendered to the same text, so Codex is started with
-- other arguments than the agent's.
pub args_ambiguous :
    (a b : Text) (s : Server) (ss : List Server)
    → render_codex_mcp_config (record s { args = (a ++ (codes "\", \"" ++ b)) ∷ [] } ∷ ss)
      ≡ render_codex_mcp_config (record s { args = a ∷ b ∷ [] } ∷ ss)
unfolding render_codex_mcp_config all_lines server_lines
args_ambiguous a b s ss = rw (args_alike a b) refl
