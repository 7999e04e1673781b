-- ===== src/World/Effects.antt =====
-- What a step of a job may do to the queue, the session rows and the turns, and what its database operations
-- do to them.
use agent_on_demand.Prelude.{
  ℕ, ◌+◌, ◌≤◌, ◌≡◌, refl, Bool, true, false, Option, none, some, List, [], ◌∷◌, arith, is_some,
  if◌then◌else◌, length, All, ap,
}
use agent_on_demand.Prelude.Table.{Table, modify, get}
use agent_on_demand.State.{Status}
use agent_on_demand.Outcome.{FinalStatus, session_status}
use agent_on_demand.Store.{Session, Turn, Job, Point, Store}
use agent_on_demand.Worker.{NewLog, Progress, at, add_logs, insert_logs, save_session, save_turn}
use agent_on_demand.World.{turn_numbers, Edge, fits, is_early, is_late, is_live}

abbrev pub live_ℕ : Point → ℕ
live_ℕ p = if is_live p then 1 else 0

-- A step leaves all session rows, or is live and writes the row of its own session: it keeps the user,
-- follows an edge, and writes `completed` only as its last write.
pub data Effect (pt : Point) (j : Job) (w : Store) (p : Progress) : Type 0 where
  leaves :
      p.store.sessions ≡ w.sessions
      → ((s : Status) → fits pt s ≡ true → fits p.point s ≡ true)
      → Effect pt j w p
  writes :
      (f : Session → Session)
      → p.store.sessions ≡ modify j.session f w.sessions
      → live_ℕ pt ≡ 1
      → p.deferred ≡ []
      → ((s : Session) → (f s).user ≡ s.user)
      → ((s : Session) → (f s).status ≡ Status.completed → live_ℕ p.point ≡ 0)
      → ((s : Session) → fits pt s.status ≡ true → Edge s.status (f s).status)
      → ((s : Session) → fits p.point (f s).status ≡ true)
      → Effect pt j w p

-- A step at `pt` takes no other job from the queue, and leaves at most as much live work as it was.
pub record Behaves (pt : Point) (j : Job) (w : Store) (p : Progress) : Type 0 where
  pub jobs_kept : p.store.jobs ≡ w.jobs
  pub numbers_kept : (id : ℕ) → turn_numbers id p.store.turns ≡ turn_numbers id w.turns
  pub live_le : live_ℕ p.point + length p.deferred ≤ live_ℕ pt
  pub deferred_own : All (λ (d : Job). d.session ≡ j.session) p.deferred
  -- A deferred job stands where its session's row fits it as it fitted the step.
  pub deferred_fits :
      All (λ (d : Job). (s : Status) → fits pt s ≡ true → fits d.point s ≡ true) p.deferred
  pub effect : Effect pt j w p

-- A write that keeps the session and the number of every turn.
pub turn_numbers-modify :
    (id k : ℕ) (f : Turn → Turn) (ts : Table Turn)
    → ((t : Turn) → (f t).session ≡ t.session)
    → ((t : Turn) → (f t).turn_number ≡ t.turn_number)
    → turn_numbers id (modify k f ts) ≡ turn_numbers id ts
unfolding turn_numbers modify
turn_numbers-modify id k f [] e g = refl
turn_numbers-modify id k f ((i, t) ∷ ts) e g =
    ground (arith, e t, g t, turn_numbers-modify id k f ts e g)

module _ {pt : Point} {j : Job} {w : Store} where
  -- A step that leaves jobs and sessions.
  pub keeping :
      (u : Store) (p : Point)
      → u.jobs ≡ w.jobs
      → u.sessions ≡ w.sessions
      → ((id : ℕ) → turn_numbers id u.turns ≡ turn_numbers id w.turns)
      → live_ℕ p ≤ live_ℕ pt
      → ((s : Status) → fits pt s ≡ true → fits p s ≡ true)
      → Behaves pt j w (at u p)
  keeping u p e f n h k = record {
    jobs_kept = e;
    numbers_kept = n;
    live_le = omega arith;
    deferred_own = tt;
    deferred_fits = tt;
    effect = Effect.leaves f k;
  }

  -- And the turns.
  pub quiet :
      (u : Store) (p : Point)
      → u.jobs ≡ w.jobs
      → u.sessions ≡ w.sessions
      → u.turns ≡ w.turns
      → live_ℕ p ≤ live_ℕ pt
      → ((s : Status) → fits pt s ≡ true → fits p s ≡ true)
      → Behaves pt j w (at u p)
  quiet u p e f g h k = keeping u p e f (λ id. ap (turn_numbers id) g) h k

  pub over :
      (u : Store)
      → u.jobs ≡ w.jobs
      → u.sessions ≡ w.sessions
      → u.turns ≡ w.turns
      → Behaves pt j w (at u Point.finished)
  over u e f g = quiet u Point.finished e f g (omega arith) (λ s k. refl)

  pub choose :
      (b : Bool) {p q : Progress}
      → Behaves pt j w p
      → Behaves pt j w q
      → Behaves pt j w (if b then p else q)
  choose true h k = h
  choose false h k = k

  -- A read of a row, and what follows from what it finds.
  pub found :
      {A : Type 0} (o : Option A) (q : Progress) (p : A → Progress)
      → Behaves pt j w q
      → ((a : A) → Behaves pt j w (p a))
      → Behaves pt j w (elim o [ none ↦ q | some a ↦ p a ])
  found none q p h k = h
  found (some a) q p h k = k a

  pub logs-Behaves :
      (session : ℕ) (ls : List NewLog) (p : Point)
      → live_ℕ p ≤ live_ℕ pt
      → ((s : Status) → fits pt s ≡ true → fits p s ≡ true)
      → Behaves pt j w (insert_logs session ls p w)
  logs-Behaves session ls p h k =
      choose (is_some (get session w.sessions)) (quiet (add_logs session ls w) p refl refl refl h k)
        (over w refl refl refl)

  pub save_turn-Behaves :
      (id : ℕ) (f : Turn → Turn) (p : Point)
      → ((t : Turn) → (f t).session ≡ t.session)
      → ((t : Turn) → (f t).turn_number ≡ t.turn_number)
      → live_ℕ p ≤ live_ℕ pt
      → ((s : Status) → fits pt s ≡ true → fits p s ≡ true)
      → Behaves pt j w (save_turn id f p w)
  save_turn-Behaves id f p e g h k =
      choose (is_some (get id w.turns))
        (keeping (record w { turns = modify id f w.turns }) p refl refl
          (λ n. turn_numbers-modify n id f w.turns e g) h k)
        (over w refl refl refl)

  pub save_session-Behaves :
      (f : Session → Session) (p : Point)
      → live_ℕ pt ≡ 1
      → ((s : Session) → (f s).user ≡ s.user)
      → ((s : Session) → (f s).status ≡ Status.completed → live_ℕ p ≡ 0)
      → ((s : Session) → fits pt s.status ≡ true → Edge s.status (f s).status)
      → ((s : Session) → fits p (f s).status ≡ true)
      → Behaves pt j w (save_session j.session f p w)
  save_session-Behaves f p h u c k l =
      choose (is_some (get j.session w.sessions))
        (record {
          jobs_kept = refl;
          numbers_kept = λ id. refl;
          live_le = ground (arith, h);
          deferred_own = tt;
          deferred_fits = tt;
          effect = Effect.writes f refl h refl u c k l;
        })
        (over w refl refl refl)

pub failing : (s : Status) → is_early s ≡ true → Edge s Status.failed
failing Status.pending h = Edge.fails_early
failing Status.terminated h = Edge.overwritten (λ e. cc)
failing Status.running h = absurd (cc)
failing Status.completed h = absurd (cc)
failing Status.failed h = absurd (cc)

pub starting : (s : Status) → is_early s ≡ true → Edge s Status.running
starting Status.pending h = Edge.starts
starting Status.terminated h = Edge.overwritten (λ e. cc)
starting Status.running h = absurd (cc)
starting Status.completed h = absurd (cc)
starting Status.failed h = absurd (cc)

pub closing : (f : FinalStatus) (s : Status) → is_late s ≡ true → Edge s (session_status f)
closing FinalStatus.completed Status.running h = Edge.completes
closing FinalStatus.completed Status.terminated h = Edge.overwritten (λ e. cc)
closing FinalStatus.failed Status.running h = Edge.fails
closing FinalStatus.failed Status.terminated h = Edge.overwritten (λ e. cc)
closing f Status.pending h = absurd (cc)
closing f Status.completed h = absurd (cc)
closing f Status.failed h = absurd (cc)
