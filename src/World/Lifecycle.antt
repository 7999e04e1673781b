-- ===== src/World/Lifecycle.antt =====
-- The moves of a session's status over every history: the module comment of session_state.py, against
-- the code of the requests and of the worker.
use mathlib.Core.Option
use agent_on_demand.Prelude.{
  ℕ, ◌==◌, ◌≡◌, refl, true, false, some, [], arith, Option-cases, Bool-cases, get_elem?, set, All,
  All-append, All-set, All-map, All-none, All-set_only, All-get_elem?, All-zip, ap, inl, inr,
}
use agent_on_demand.Prelude.Table.{Table, get, modify, get-modify, get-remove}
use agent_on_demand.State.{Status}
use agent_on_demand.Store.{Session, Job, Point, Store}
use agent_on_demand.Requests.Create.{create_rows}
use agent_on_demand.Requests.Prompt.{prompt_rows, re_armed}
use agent_on_demand.Requests.End.{delete_rows, terminated_row}
use agent_on_demand.Requests.Cases.{create_cases, prompt_cases, terminate_cases, delete_cases}
use agent_on_demand.Worker.{Progress}
use agent_on_demand.World.{is_live, is_live_of, live_count, fits, Edge, moved, Step, Reach}
use agent_on_demand.World.Effects.{Effect, Behaves}
use agent_on_demand.World.Jobs.{advance-Behaves}
use agent_on_demand.World.OneTurn.{OneTurn, idle-OneTurn, Reach-OneTurn}

-- The row of the job's session, where there is one, has a status that fits where the job stands.
abbrev Fits : Table Session → Job → Type 0
Fits t j = (s : Session) → get j.session t ≡ some s → fits j.point s.status ≡ true

pub record Tracks (w : Store) : Type 0 where
  pub jobs_fit : All (Fits w.sessions) w.jobs

dead-fits : (p : Point) (s : Status) → is_live p ≡ false → fits p s ≡ true
dead-fits (Point.fail_turn p) s h = refl
dead-fits (Point.final_turn c e t) s h = refl
dead-fits Point.finished s h = refl
dead-fits _ s h = absurd (cc h)

terminated-fits : (p : Point) → fits p Status.terminated ≡ true
terminated-fits Point.finished = refl
terminated-fits _ = refl

-- The jobs that are not live ones of `id` still fit if only its row changes.
Fits-other :
    (t u : Table Session) (id : ℕ)
    → ((k : ℕ) → (id == k) ≡ false → get k u ≡ get k t)
    → (j : Job) → Fits t j
    → is_live_of id j ≡ false
    → Fits u j
Fits-other t u id others j f h s e = elim (Bool-cases (id == j.session)) [
  | inl same ↦ dead-fits j.point s.status (ground arith)
  | inr other ↦ f s (ground (arith, others j.session other))
]

module _ {w : Store} {j : Job} {p : Progress} (i : ℕ) (at_i : get_elem? w.jobs i ≡ some j)
    (b : Behaves j.point j w p) (one : OneTurn w) (v : Tracks w) where
  own : Fits w.sessions j
  own = All-get_elem? (Fits w.sessions) w.jobs i j v.jobs_fit at_i

  -- The row that `f` has rewritten.
  written-fits :
      (f : Session → Session)
      → ((s : Session) → fits p.point (f s).status ≡ true)
      → Fits (modify j.session f w.sessions) (record j { point = p.point })
  written-fits f fit s e = elim (Option-cases (get j.session w.sessions)) [
    | inl gone ↦ absurd (cc (was, gone))
    | inr (s0, e0) ↦ let same_row : f s0 ≡ s = ground (arith, was, e0) in rw (← same_row) (fit s0)
  ]
    where
      was : Option.map f (get j.session w.sessions) ≡ some s
      was = ground (arith, get-modify j.session j.session f w.sessions)

  moved-Tracks : Effect j.point j w p → Tracks (moved p i j)
  unfolding moved
  moved-Tracks (Effect.leaves kept fit) = record {
    jobs_fit =
        rw (b.jobs_kept, kept)
          (All-append (Fits w.sessions) (set w.jobs i (record j { point = p.point })) p.deferred
            (All-set (Fits w.sessions) w.jobs i _ v.jobs_fit (λ s e. fit s.status (own s e)))
            (All-zip (λ d mine k s e. k s.status (own s (rw mine at e))) p.deferred b.deferred_own
              b.deferred_fits));
  }
  moved-Tracks (Effect.writes f kept live alone _ last edge fit) = record {
    jobs_fit =
        rw (b.jobs_kept, kept, alone)
          (All-append (Fits (modify j.session f w.sessions))
            (set w.jobs i (record j { point = p.point })) []
            (All-set_only (is_live_of j.session)
              (Fits-other w.sessions _ j.session
                λ k h. ground (arith, get-modify k j.session f w.sessions))
              w.jobs i j _ at_i (ground arith) (unfold live_count in one.at_most_one j.session)
              v.jobs_fit (written-fits f fit))
            tt);
  }

module _ {w : Store} (one : OneTurn w) (v : Tracks w) where
  Step-Tracks : {u : Store} → Step w u → Tracks u
  unfolding create_rows prompt_rows delete_rows get live_count
  Step-Tracks (Step.creates cfg user draw req p fresh e) = rw e (
      create_cases Tracks w cfg user draw req p (record { jobs_fit = v.jobs_fit })
        λ room. record {
          jobs_fit =
              All-append _ w.jobs _
                (All-none (is_live_of draw.id)
                  (Fits-other w.sessions (create_rows cfg user draw req p w).sessions draw.id
                    λ k h. ground arith)
                  w.jobs fresh.no_job v.jobs_fit)
                (λ s g. ground arith, tt);
        })
  Step-Tracks (Step.prompts id req e) = rw e (
      prompt_cases Tracks w id req v λ s old done. record {
        jobs_fit =
            All-append _ w.jobs _
              (All-none (is_live_of id)
                (Fits-other w.sessions (prompt_rows id req w).sessions id
                  λ k h. ground (arith, get-modify k id (re_armed req) w.sessions))
                w.jobs (one.idle id s old done) v.jobs_fit)
              (λ r g. ground (arith, get-modify id id (re_armed req) w.sessions), tt);
      })
  Step-Tracks (Step.terminates user id e) = rw e (
      terminate_cases Tracks w user id v λ s old alive. record {
        jobs_fit =
            All-map
              (λ j f r g. ground (
                arith,
                get-modify j.session id terminated_row w.sessions,
                terminated-fits j.point,
                Option-cases (get j.session w.sessions),
                f r,
              ))
              w.jobs v.jobs_fit;
      })
  Step-Tracks (Step.deletes user id e) = rw e (
      delete_cases Tracks w user id v λ s old a c. record {
        jobs_fit =
            All-map (λ j f r g. f r (ground (arith, get-remove j.session id w.sessions))) w.jobs
              v.jobs_fit;
      })
  Step-Tracks (Step.works i now r j at_i e) =
      let b = advance-Behaves j w now r j.point in rw e (moved-Tracks i at_i b one v b.effect)

Edge-of : (a b : Status) {a' b' : Status} → Edge a' b' → a ≡ a' → b ≡ b' → Edge a b
Edge-of a b m e f = rw (e, f) m

Edge_same : (s t : Session) → some s ≡ some t → Edge s.status t.status
Edge_same s t e = Edge-of s.status t.status (Edge.stays {s = s.status}) refl (ground arith)

module _ {w : Store} (v : Tracks w) (id : ℕ) (s t : Session)
    (before : get id w.sessions ≡ some s) where
  moved-Edge :
      (i : ℕ) (j : Job) (p : Progress)
      → get_elem? w.jobs i ≡ some j
      → Effect j.point j w p
      → get id p.store.sessions ≡ some t
      → Edge s.status t.status
  moved-Edge i j p at_i (Effect.leaves kept _) after =
      Edge_same s t (ground (arith, ap (get id) kept))
  moved-Edge i j p at_i (Effect.writes f kept _ _ _ _ edge _) after =
      elim (Bool-cases (j.session == id)) [
        | inl same ↦
            let new : f s ≡ t =
              ground (arith, get-modify id j.session f w.sessions, ap (get id) kept) in
            let fit : fits j.point s.status ≡ true =
              All-get_elem? (Fits w.sessions) w.jobs i j v.jobs_fit at_i s (ground arith) in
            Edge-of s.status t.status (edge s fit) refl (ground arith)
        | inr other ↦
            Edge_same s t (ground (arith, get-modify id j.session f w.sessions, ap (get id) kept))
      ]

  Step-Edge : {u : Store} → Step w u → get id u.sessions ≡ some t → Edge s.status t.status
  unfolding create_rows prompt_rows delete_rows get moved
  Step-Edge (Step.creates cfg user draw req p fresh e) = rw e (
      create_cases (λ u. get id u.sessions ≡ some t → Edge s.status t.status) w cfg user draw req p
        (λ after. Edge_same s t (ground arith))
        λ room after. Edge_same s t (ground (arith, fresh.no_row)))
  Step-Edge (Step.prompts k req e) = rw e (
      prompt_cases (λ u. get id u.sessions ≡ some t → Edge s.status t.status) w k req
        (λ after. Edge_same s t (ground arith))
        λ r old done after. elim (Bool-cases (k == id)) [
          | inl same ↦
              Edge-of s.status t.status Edge.prompted (ground arith)
                (ground (arith, get-modify id k (re_armed req) w.sessions))
          | inr other ↦ Edge_same s t (ground (arith, get-modify id k (re_armed req) w.sessions))
        ])
  Step-Edge (Step.terminates user k e) = rw e (
      terminate_cases (λ u. get id u.sessions ≡ some t → Edge s.status t.status) w user k
        (λ after. Edge_same s t (ground arith))
        λ r old alive after. elim (Bool-cases (k == id)) [
          | inl same ↦
              Edge-of s.status t.status (Edge.ends {s = s.status}) refl
                (ground (arith, get-modify id k terminated_row w.sessions))
          | inr other ↦ Edge_same s t (ground (arith, get-modify id k terminated_row w.sessions))
        ])
  Step-Edge (Step.deletes user k e) = rw e (
      delete_cases (λ u. get id u.sessions ≡ some t → Edge s.status t.status) w user k
        (λ after. Edge_same s t (ground arith))
        λ r old a b after. Edge_same s t (ground (arith, get-remove id k w.sessions)))
  Step-Edge (Step.works i now r j at_i e) =
      rw e (λ after. moved-Edge i j _ at_i (advance-Behaves j w now r j.point).effect after)

Reach-Tracks : {w u : Store} → OneTurn w → Tracks w → Reach w u → Tracks u
Reach-Tracks one v Reach.here = v
Reach-Tracks one v (Reach.next r st) = Step-Tracks (Reach-OneTurn one r) (Reach-Tracks one v r) st

idle-Tracks : {w : Store} → w.jobs ≡ [] → Tracks w
idle-Tracks {w} e = record { jobs_fit = rw e tt }

-- Let the queue be empty at the start. Whatever requests and job steps follow, in any interleaving,
-- the next commit moves the status of a session only along the edges: stays, pending to running or
-- failed, running to completed or failed, completed to pending, anything to terminated; and away from
-- terminated only to running, completed or failed.
pub status_moves :
    {w u v : Store} (id : ℕ) (s t : Session)
    → w.jobs ≡ []
    → Reach w u
    → Step u v
    → get id u.sessions ≡ some s
    → get id v.sessions ≡ some t
    → Edge s.status t.status
status_moves id s t e r st before after =
    Step-Edge (Reach-Tracks (idle-OneTurn e) (idle-Tracks e) r) id s t before st after
