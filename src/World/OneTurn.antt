-- ===== src/World/OneTurn.antt =====
-- A session runs one turn at a time: the row lock and the checks of src/agent_on_demand/views/sessions
-- against the unlocked saves of the worker.
use mathlib.Core.Option
use agent_on_demand.Prelude.{
  ℕ, ◌+◌, ◌≤◌, ◌==◌, ◌≡◌, refl, inl, inr, true, false, some, List, [], ◌∷◌, ◌++◌, arith,
  if◌then◌else◌, Option-cases, Bool-cases, length, get_elem?, set, count, count-append, count-set,
  count-le-length, All, ap,
}
use agent_on_demand.Prelude.Table.{get, get-modify, get-remove}
use agent_on_demand.State.{Status}
use agent_on_demand.Store.{Session, Job, Store}
use agent_on_demand.Requests.Create.{create_rows}
use agent_on_demand.Requests.Prompt.{prompt_rows, re_armed}
use agent_on_demand.Requests.End.{delete_rows, terminated_row}
use agent_on_demand.Worker.{Progress}
use agent_on_demand.Requests.Cases.{create_cases, prompt_cases, terminate_cases, delete_cases}
use agent_on_demand.World.{is_live_of, live_count, moved, Step, Reach}
use agent_on_demand.World.Effects.{live_ℕ, Effect, Behaves}
use agent_on_demand.World.Jobs.{advance-Behaves}

-- At most one job of a session is live, and none while the session is completed.
pub record OneTurn (w : Store) : Type 0 where
  pub at_most_one : (id : ℕ) → live_count id w.jobs ≤ 1
  pub idle :
      (id : ℕ) (s : Session)
      → get id w.sessions ≡ some s
      → s.status ≡ Status.completed
      → live_count id w.jobs ≡ 0

-- Deferred jobs of another session do not count.
count_own :
    (id own : ℕ) (js : List Job)
    → All (λ (d : Job). d.session ≡ own) js
    → (own == id) ≡ false
    → live_count id js ≡ 0
unfolding live_count count
count_own id own [] a h = refl
count_own id own (d ∷ js) a h = ground (arith, count_own id own js a.1 h)

live_count-queue :
    (id : ℕ) (js : List Job) (job : Job)
    → live_count id (js ++ job ∷ []) ≡ live_count id js + (if is_live_of id job then 1 else 0)
unfolding live_count count
live_count-queue id js job = ground (arith, count-append (is_live_of id) js (job ∷ []))

module _ {w : Store} {j : Job} {p : Progress} (i : ℕ) (at_i : get_elem? w.jobs i ≡ some j)
    (b : Behaves j.point j w p) where
  pub live-moved_own :
      live_count j.session (moved p i j).jobs + live_ℕ j.point
      ≤ live_count j.session w.jobs + live_ℕ p.point + length p.deferred
  unfolding moved live_count
  live-moved_own = rw b.jobs_kept (
      ground (
        arith,
        b.live_le,
        count-append (is_live_of j.session) (set w.jobs i next) p.deferred,
        count-set (is_live_of j.session) w.jobs i next j at_i,
        count-le-length (is_live_of j.session) p.deferred,
      ))
    where
      next : Job
      next = record j { point = p.point }

  live-moved_other :
      (id : ℕ) → (j.session == id) ≡ false → live_count id (moved p i j).jobs ≡ live_count id w.jobs
  unfolding moved live_count
  live-moved_other id h = rw b.jobs_kept (
      ground (
        arith,
        count-append (is_live_of id) (set w.jobs i next) p.deferred,
        count-set (is_live_of id) w.jobs i next j at_i,
        count_own id j.session p.deferred b.deferred_own h,
      ))
    where
      next : Job
      next = record j { point = p.point }

  idle-moved :
      (id : ℕ) (s : Session)
      → OneTurn w
      → get id p.store.sessions ≡ some s
      → s.status ≡ Status.completed
      → (j.session == id) ≡ true
      → Effect j.point j w p
      → live_count id (moved p i j).jobs ≡ 0
  idle-moved id s v e c same (Effect.leaves kept _) =
      let before : live_count id w.jobs ≡ 0 = v.idle id s (rw kept at e) c in
      ground (arith, live-moved_own, b.live_le)
  idle-moved id s v e c same (Effect.writes f kept live alone _ last _ _) =
      elim (Option-cases (get id w.sessions)) [
        | inl gone ↦ absurd (cc (was, gone))
        | inr (s0, e0) ↦
            let same_row : f s0 ≡ s = ground (arith, was, e0) in
            let over : live_ℕ p.point ≡ 0 = last s0 (rw same_row c) in
            ground (arith, live-moved_own, ap length alone, v.at_most_one id)
      ]
    where
      was : Option.map f (get id w.sessions) ≡ some s
      was = ground (arith, get-modify id j.session f w.sessions, ap (get id) kept)

  untouched-row :
      (id : ℕ) (s : Session)
      → get id p.store.sessions ≡ some s
      → (j.session == id) ≡ false
      → Effect j.point j w p
      → get id w.sessions ≡ some s
  untouched-row id s e other (Effect.leaves kept _) = rw kept at e
  untouched-row id s e other (Effect.writes f kept live alone _ last _ _) =
      ground (arith, get-modify id j.session f w.sessions, ap (get id) kept)

  works-OneTurn : OneTurn w → OneTurn (moved p i j)
  unfolding moved
  works-OneTurn v = record {
    at_most_one = λ id. elim (Bool-cases (j.session == id)) [
      | inl same ↦ ground (arith, live-moved_own, b.live_le, v.at_most_one id)
      | inr other ↦ rw (live-moved_other id other) (v.at_most_one id)
    ];
    idle = λ id s e c. elim (Bool-cases (j.session == id)) [
      | inl same ↦ idle-moved id s v e c same b.effect
      | inr other ↦
          rw (live-moved_other id other) (v.idle id s (untouched-row id s e other b.effect) c)
    ];
  }

module _ {w : Store} (v : OneTurn w) where
  -- A commit that leaves the queue and completes no session.
  kept-OneTurn :
      (u : Store)
      → u.jobs ≡ w.jobs
      → ((id : ℕ) (s : Session)
          → get id u.sessions ≡ some s
          → s.status ≡ Status.completed
          → get id w.sessions ≡ some s)
      → OneTurn u
  kept-OneTurn u e old = record {
    at_most_one = λ id. rw e (v.at_most_one id);
    idle = λ id s g c. rw e (v.idle id s (old id s g c) c);
  }

  -- A commit that queues one job for a session that has no live one.
  queued-OneTurn :
      (u : Store) (job : Job)
      → u.jobs ≡ w.jobs ++ job ∷ []
      → live_count job.session w.jobs ≡ 0
      → ((id : ℕ) (s : Session)
          → get id u.sessions ≡ some s
          → s.status ≡ Status.completed
          → ((job.session == id) ≡ false) × (get id w.sessions ≡ some s))
      → OneTurn u
  queued-OneTurn u job e none_yet old = record {
    at_most_one = λ id. rw (e, count_job id) (ground (arith, v.at_most_one id));
    idle = λ id s g c.
        rw (e, count_job id) (ground (arith, (old id s g c).0, v.idle id s (old id s g c).1 c));
  }
    where
      count_job :
          (id : ℕ)
          → live_count id (w.jobs ++ job ∷ [])
            ≡ live_count id w.jobs + (if is_live_of id job then 1 else 0)
      count_job id = ground (arith, live_count-queue id w.jobs job)

  pub Step-OneTurn : {u : Store} → Step w u → OneTurn u
  unfolding create_rows prompt_rows delete_rows get
  Step-OneTurn (Step.creates cfg user draw req p fresh e) = rw e (
      create_cases OneTurn w cfg user draw req p (kept-OneTurn _ refl (λ id s g c. g))
        λ room. queued-OneTurn _ _ refl fresh.no_job (λ id s g c. ground arith))
  Step-OneTurn (Step.prompts id req e) = rw e (
      prompt_cases OneTurn w id req v λ s old done.
        queued-OneTurn _ _ refl (v.idle id s old done)
          λ k r g c. ground (arith, get-modify k id (re_armed req) w.sessions))
  Step-OneTurn (Step.terminates user id e) = rw e (
      terminate_cases OneTurn w user id v λ s old live.
        kept-OneTurn _ refl λ k r g c. ground (arith, get-modify k id terminated_row w.sessions))
  Step-OneTurn (Step.deletes user id e) = rw e (
      delete_cases OneTurn w user id v
        λ s old a b. kept-OneTurn _ refl λ k r g c. ground (arith, get-remove k id w.sessions))
  Step-OneTurn (Step.works i now r j at_i e) =
      rw e (works-OneTurn i at_i (advance-Behaves j w now r j.point) v)

pub Reach-OneTurn : {w u : Store} → OneTurn w → Reach w u → OneTurn u
Reach-OneTurn v Reach.here = v
Reach-OneTurn v (Reach.next r st) = Step-OneTurn (Reach-OneTurn v r) st

pub idle-OneTurn : {w : Store} → w.jobs ≡ [] → OneTurn w
unfolding live_count count
idle-OneTurn {w} e = record { at_most_one = λ id. rw e (omega arith); idle = λ id s g c. rw e refl }

-- Let the queue be empty at the start. Whatever requests and job steps follow, in any interleaving,
-- each session has at most one job that may still run its command or write its row, and none while
-- its row is completed.
pub one_turn : {w u : Store} → w.jobs ≡ [] → Reach w u → OneTurn u
one_turn e r = Reach-OneTurn (idle-OneTurn e) r
