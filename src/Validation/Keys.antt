-- ===== src/Validation/Keys.antt =====
-- What environment_validation.py promises to the environment file.
use agent_on_demand.Prelude.{
  ◌≡◌, none, List, [], ◌∷◌, All, arith, Bool-cases, Option-cases, inl, inr,
}
use agent_on_demand.Prelude.Result.{ok}
use agent_on_demand.Prelude.Text.{Text}
use agent_on_demand.Scripts.EnvFile.{IsKey}
use agent_on_demand.Validation.{is_env_var_key, first_bad_key, validate_env_vars}

good_keys : (xs : List (Text × Text)) → first_bad_key xs ≡ none → All IsKey xs
unfolding first_bad_key
good_keys [] h = tt
good_keys ((k, v) ∷ xs) h = elim (Bool-cases (is_env_var_key k)) [
  | inl e ↦ (e, good_keys xs (ground (arith, h, e)))
  | inr e ↦ absurd (ground (arith, h, e))
]

-- If the env_vars of a request are accepted, then they are kept as they are, and each of their keys is the
-- name of a variable: the condition under which the environment file is read back.
pub validate_env_vars-IsKey :
    (xs ys : List (Text × Text)) → validate_env_vars xs ≡ ok ys → (ys ≡ xs) × All IsKey xs
unfolding validate_env_vars
validate_env_vars-IsKey xs ys e = elim (Option-cases (first_bad_key xs)) [
  | inl h ↦ (ground (arith, e, h), good_keys xs h)
  | inr (k, h) ↦ absurd (ground (arith, e, h))
]
