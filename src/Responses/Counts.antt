-- ===== src/Responses/Counts.antt =====
-- What the JSON of a session says of its turns and of its repositories.
use Prim.Native.Nat.{max}
use agent_on_demand.Prelude.{
  ℕ, zero, suc, ◌≡◌, refl, sym, ap, ◌∙◌, String, Option, none, some, List, [], ◌∷◌, select, length,
  arith, Option-cases, inl, inr, count_down, pos,
}
use agent_on_demand.Prelude.Table.{Table}
use agent_on_demand.Json.{Json, null, int, lookup}
use agent_on_demand.Store.{Session, Turn, Resource, Agent, Store}
use agent_on_demand.Responses.{
  serialize_session, serialize_resources, serialize_resource, latest_turn, newer, turn_count,
  or_null,
}
use agent_on_demand.Requests.Prompt.{max_turn_number}
use agent_on_demand.World.{turn_numbers, Reach}
use agent_on_demand.World.Numbers.{Numbered, next_number, Reach-Numbered}

turn_count_lem : (id : ℕ) (ts : Table Turn) → turn_count id ts ≡ length (turn_numbers id ts)
unfolding turn_count turn_numbers select
turn_count_lem id [] = refl
turn_count_lem id ((k, t) ∷ ts) = ground (arith, turn_count_lem id ts)

length-count_down : (n : ℕ) → length (count_down n) ≡ n
length-count_down zero = refl
length-count_down (suc n) = omega (arith, length-count_down n)

latest_number : Option Turn → ℕ
latest_number none = 0
latest_number (some t) = t.turn_number

latest_number-newer :
    (t : Turn) (o : Option Turn) → (newer t o).turn_number ≡ max t.turn_number (latest_number o)
unfolding newer latest_number
latest_number-newer t none = omega arith
latest_number-newer t (some u) = ground arith

latest_number_lem :
    (id : ℕ) (ts : Table Turn) → latest_number (latest_turn id ts) ≡ max_turn_number id ts
unfolding latest_turn max_turn_number latest_number
latest_number_lem id [] = refl
latest_number_lem id ((k, t) ∷ ts) =
    ground (arith, latest_number_lem id ts, latest_number-newer t (latest_turn id ts))

latest_turn-none : (id : ℕ) (ts : Table Turn) → latest_turn id ts ≡ none → turn_numbers id ts ≡ []
unfolding latest_turn turn_numbers
latest_turn-none id [] e = refl
latest_turn-none id ((k, t) ∷ ts) e = ground (arith, latest_turn-none id ts)

latest_turn-some :
    (id : ℕ) (ts : Table Turn) (u : Turn) → latest_turn id ts ≡ some u → ¬ (turn_numbers id ts ≡ [])
unfolding latest_turn turn_numbers
latest_turn-some id [] u e = ground arith
latest_turn-some id ((k, t) ∷ ts) u e = ground (arith, latest_turn-some id ts u)

-- `n`, and null for 0.
abbrev pub current : ℕ → Json
current zero = null
current (suc n) = int (pos (suc n))

latest_turn-current :
    (id n : ℕ) (ts : Table Turn)
    → turn_numbers id ts ≡ count_down n
    → max_turn_number id ts ≡ n
    → or_null (λ t. int (pos t.turn_number)) (latest_turn id ts) ≡ current n
unfolding latest_number
latest_turn-current id zero ts e m = elim (Option-cases (latest_turn id ts)) [
  | inl empty ↦ rw empty refl
  | inr (u, is) ↦ absurd (latest_turn-some id ts u is e)
]
latest_turn-current id (suc n) ts e m = elim (Option-cases (latest_turn id ts)) [
  | inl empty ↦ absurd (grind (arith, e, latest_turn-none id ts empty))
  | inr (u, is) ↦ rw is (ap (λ k. int (pos k)) (number u is))
]
  where
    number : (u : Turn) → latest_turn id ts ≡ some u → u.turn_number ≡ suc n
    number u is = sym (ap latest_number is) ∙ latest_number_lem id ts ∙ m

-- Every history of requests and job steps keeps this: the JSON of a session gives the number n of its turns
-- as `turn_count` and the same number as `current_turn`, which is null exactly where there is no turn; the
-- turns are those numbered n, …, 1.
pub serialize_session-current :
    (uuid_str isoformat : ℕ → String) {w u : Store}
    → Numbered w
    → Reach w u
    → (id : ℕ) (session : Session) (agent : Option Agent) (created_at updated_at : ℕ)
    → (n : ℕ) × (turn_numbers id u.turns ≡ count_down n)
      × (lookup "turn_count"
            (serialize_session uuid_str isoformat id session agent created_at updated_at u)
          ≡ some (int (pos n)))
      × (lookup "current_turn"
            (serialize_session uuid_str isoformat id session agent created_at updated_at u)
          ≡ some (current n))
unfolding serialize_session lookup
serialize_session-current uuid_str isoformat {w} {u} v r id session agent created_at updated_at =
    (n, e, counted, ap some (latest_turn-current id n u.turns e (next_number after id n e)))
  where
    after : Numbered u
    after = Reach-Numbered v r

    n : ℕ
    n = (after.consecutive id).0

    e : turn_numbers id u.turns ≡ count_down n
    e = (after.consecutive id).1

    counted : some (int (pos (turn_count id u.turns))) ≡ some (int (pos n))
    counted =
        ap (λ k. some (int (pos k))) (turn_count_lem id u.turns ∙ ap length e ∙ length-count_down n)

-- The token of a repository, and whether there is one, does not show: the JSON is the same when all the
-- tokens are taken away.
forgotten : List Resource → List Resource
forgotten [] = []
forgotten (sr ∷ srs) = record sr { encrypted_token = none } ∷ forgotten srs

serialize_resources-forgotten :
    (id : ℕ) (srs : List Resource)
    → serialize_resources id (forgotten srs) ≡ serialize_resources id srs
unfolding serialize_resources serialize_resource forgotten
serialize_resources-forgotten id [] = refl
serialize_resources-forgotten id (sr ∷ srs) = rw (serialize_resources-forgotten id srs) refl
