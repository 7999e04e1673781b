-- ===== src/World/Numbers.antt =====
-- The numbers that send_prompt draws by Max("turn_number") + 1 under the row lock.
use Prim.Native.Nat.{max}
use agent_on_demand.Prelude.{
  ℕ, zero, suc, ◌==◌, ◌≡◌, refl, none, List, [], ◌∷◌, arith, if◌then◌else◌, Option-cases,
  Bool-cases, ap, inl, inr, count_down,
}
use agent_on_demand.Prelude.Table.{Table, get, get-modify, get-remove}
use agent_on_demand.Store.{Turn, Job, Store}
use agent_on_demand.Requests.Create.{create_rows}
use agent_on_demand.Requests.Prompt.{prompt_rows, re_armed, max_turn_number}
use agent_on_demand.Requests.End.{delete_rows, without_turns, terminated_row}
use agent_on_demand.Requests.Cases.{create_cases, prompt_cases, terminate_cases, delete_cases}
use agent_on_demand.Worker.{Progress}
use agent_on_demand.World.{turn_numbers, moved, Step, Reach}
use agent_on_demand.World.Effects.{Effect, Behaves}
use agent_on_demand.World.Jobs.{advance-Behaves}

-- The turns of a session are numbered without a gap from 1; a session that has no row has no turns.
pub record Numbered (w : Store) : Type 0 where
  pub consecutive : (id : ℕ) → (n : ℕ) × (turn_numbers id w.turns ≡ count_down n)
  pub no_orphans : (id : ℕ) → get id w.sessions ≡ none → turn_numbers id w.turns ≡ []

max_of : List ℕ → ℕ
max_of [] = 0
max_of (n ∷ ns) = max n (max_of ns)

max_turn_number_lem :
    (id : ℕ) (ts : Table Turn) → max_turn_number id ts ≡ max_of (turn_numbers id ts)
unfolding max_turn_number turn_numbers max_of
max_turn_number_lem id [] = refl
max_turn_number_lem id ((k, t) ∷ ts) = ground (arith, max_turn_number_lem id ts)

max_of-count_down : (n : ℕ) → max_of (count_down n) ≡ n
unfolding max_of
max_of-count_down zero = refl
max_of-count_down (suc n) = omega (arith, max_of-count_down n)

turn_numbers-without_turns :
    (id k : ℕ) (ts : Table Turn)
    → turn_numbers id (without_turns k ts) ≡ (if k == id then [] else turn_numbers id ts)
unfolding turn_numbers without_turns
turn_numbers-without_turns id k [] = ground arith
turn_numbers-without_turns id k ((i, t) ∷ ts) = ground (arith, turn_numbers-without_turns id k ts)

module _ {w : Store} (v : Numbered w) where
  -- The next number of a session whose numbers are n, …, 1 is n + 1.
  pub next_number :
      (id n : ℕ) → turn_numbers id w.turns ≡ count_down n → max_turn_number id w.turns ≡ n
  next_number id n e = rw (max_turn_number_lem id w.turns, e) (max_of-count_down n)

  moved-Numbered :
      (i : ℕ) (j : Job) (p : Progress)
      → Behaves j.point j w p
      → Effect j.point j w p
      → Numbered (moved p i j)
  unfolding moved
  moved-Numbered i j p b (Effect.leaves kept _) = record {
    consecutive = λ id. ((v.consecutive id).0, rw (b.numbers_kept id) (v.consecutive id).1);
    no_orphans = λ id e. rw (b.numbers_kept id) (v.no_orphans id (rw kept at e));
  }
  moved-Numbered i j p b (Effect.writes f kept _ _ _ _ _ _) = record {
    consecutive = λ id. ((v.consecutive id).0, rw (b.numbers_kept id) (v.consecutive id).1);
    no_orphans = λ id e. rw (b.numbers_kept id) (
        v.no_orphans id (
          ground (
            arith,
            get-modify id j.session f w.sessions,
            ap (get id) kept,
            Option-cases (get id w.sessions),
          )));
  }

  Step-Numbered : {u : Store} → Step w u → Numbered u
  unfolding create_rows prompt_rows delete_rows get turn_numbers
  Step-Numbered (Step.creates cfg user draw req p fresh e) = rw e (
      create_cases Numbered w cfg user draw req p
        (record { consecutive = v.consecutive; no_orphans = v.no_orphans })
        λ room. record {
          consecutive = λ id. elim (Bool-cases (draw.id == id)) [
            | inl same ↦ (1, ground (arith, v.no_orphans draw.id fresh.no_row))
            | inr other ↦ ((v.consecutive id).0, ground (arith, (v.consecutive id).1))
          ];
          no_orphans = λ id h. ground (arith, v.no_orphans id);
        })
  Step-Numbered (Step.prompts id req e) = rw e (
      prompt_cases Numbered w id req v λ s old done. record {
        consecutive = λ k. elim (Bool-cases (id == k)) [
          | inl same ↦ (
            suc (v.consecutive k).0,
            ground (arith, (v.consecutive k).1, next_number k (v.consecutive k).0),
          )
          | inr other ↦ ((v.consecutive k).0, ground (arith, (v.consecutive k).1))
        ];
        no_orphans =
            λ k h. ground (arith, v.no_orphans k, get-modify k id (re_armed req) w.sessions);
      })
  Step-Numbered (Step.terminates user id e) = rw e (
      terminate_cases Numbered w user id v λ s old alive. record {
        consecutive = v.consecutive;
        no_orphans = λ k h. v.no_orphans k (
            ground
              (arith, get-modify k id terminated_row w.sessions, Option-cases (get k w.sessions)));
      })
  Step-Numbered (Step.deletes user id e) = rw e (
      delete_cases Numbered w user id v λ s old a b. record {
        consecutive = λ k. elim (Bool-cases (id == k)) [
          | inl same ↦ (0, ground (arith, turn_numbers-without_turns k id w.turns))
          | inr other ↦ (
            (v.consecutive k).0,
            ground (arith, (v.consecutive k).1, turn_numbers-without_turns k id w.turns),
          )
        ];
        no_orphans = λ k h. ground (
          arith,
          v.no_orphans k,
          get-remove k id w.sessions,
          turn_numbers-without_turns k id w.turns,
        );
      })
  Step-Numbered (Step.works i now r j at_i e) =
      let b = advance-Behaves j w now r j.point in rw e (moved-Numbered i j _ b b.effect)

-- Every history of requests and job steps keeps the turns of each session numbered n, …, 1 with no
-- gap and no number twice, and leaves no turn of a session that has no row.
pub Reach-Numbered : {w u : Store} → Numbered w → Reach w u → Numbered u
Reach-Numbered v Reach.here = v
Reach-Numbered v (Reach.next r st) = Step-Numbered (Reach-Numbered v r) st
