-- ===== src/World/Alone.antt =====
-- A job that works without others in between: execute_turn of session_service/tasks.py with
-- TurnExecutor.run, when the outside answers.
use agent_on_demand.Prelude.{
  ℕ, zero, suc, ◌≡◌, refl, sym, subst, none, some, List, [], ◌∷◌, ◌++◌, get_elem?, set,
}
use agent_on_demand.Prelude.Table.{get}
use agent_on_demand.Store.{Session, Turn, Point, Job, Store}
use agent_on_demand.Worker.{Reply, Progress, at}
use agent_on_demand.Worker.Advance.{advance}
use agent_on_demand.World.{moved}

-- The job at position `i` makes one step for each answer, and no other job and no request commits.
unfoldable pub run_alone : ℕ → List (ℕ × Reply) → Store → Store
run_alone i [] w = w
run_alone i ((now, r) ∷ rs) w = elim (get_elem? w.jobs i) [
  | none ↦ w
  | some j ↦ run_alone i rs (moved (advance now r j.point j w) i j)
]

abbrev pub job_at : Job → Point → Job
job_at j pt = record j { point = pt }

-- The job stands at `pt`, and its rows are `s` and `t`.
pub record Holds (i : ℕ) (j : Job) (pt : Point) (s : Session) (t : Turn) (w : Store) : Type 0 where
  pub job : get_elem? w.jobs i ≡ some (job_at j pt)
  pub session : get j.session w.sessions ≡ some s
  pub turn : get j.turn w.turns ≡ some t

get_elem?-set :
    {A : Type 0} (xs ys : List A) (i : ℕ) (x v : A)
    → get_elem? xs i ≡ some x
    → get_elem? (set xs i v ++ ys) i ≡ some v
get_elem?-set [] ys i x v h = absurd (cc h)
get_elem?-set (y ∷ xs) ys zero x v h = refl
get_elem?-set (y ∷ xs) ys (suc i) x v h = get_elem?-set xs ys i x v h

module _ (i : ℕ) (j : Job) where
  -- One step, and what it keeps.
  step_alone :
      (pt : Point) (s : Session) (t : Turn) (w : Store) (now : ℕ) (r : Reply)
      (rs : List (ℕ × Reply)) (p : Progress)
      → Holds i j pt s t w
      → advance now r pt (job_at j pt) w ≡ p
      → run_alone i ((now, r) ∷ rs) w ≡ run_alone i rs (moved p i (job_at j pt))
  unfolding run_alone
  step_alone pt s t w now r rs p h e = rw (run_alone, h.job, e) refl

  Holds-moved :
      (pt : Point) (s t' : Session) (t u : Turn) (w : Store) (p : Progress)
      → Holds i j pt s t w
      → p.store.jobs ≡ w.jobs
      → get j.session p.store.sessions ≡ some t'
      → get j.turn p.store.turns ≡ some u
      → Holds i j p.point t' u (moved p i (job_at j pt))
  unfolding moved
  Holds-moved pt s t' t u w p h jobs sessions turns = record {
    job = get_elem?-set p.store.jobs p.deferred i (job_at j pt) (job_at j p.point) (rw jobs h.job);
    session = sessions;
    turn = turns;
  }

  -- A step to the store `u` at point `q`, which defers nothing.
  pub onward :
      {pt : Point} {s s' : Session} {t t' : Turn} {w : Store} (now : ℕ) (r : Reply)
      (rs : List (ℕ × Reply)) (Q : Store → Type 0) (q : Point) (u : Store)
      → Holds i j pt s t w
      → advance now r pt (job_at j pt) w ≡ at u q
      → u.jobs ≡ w.jobs
      → get j.session u.sessions ≡ some s'
      → get j.turn u.turns ≡ some t'
      → ((v : Store) → Holds i j q s' t' v → Q (run_alone i rs v))
      → Q (run_alone i ((now, r) ∷ rs) w)
  onward {pt} {s} {s'} {t} {t'} {w} now r rs Q q u h e jobs sessions turns next =
      subst Q (sym (step_alone pt s t w now r rs (at u q) h e)) (
        next (moved (at u q) i (job_at j pt))
          (Holds-moved pt s s' t t' w (at u q) h jobs sessions turns))
