-- ===== src/World.antt =====
-- Histories of the service: its requests and the steps of its jobs, in any interleaving.
pub mod Effects
pub mod Jobs
pub mod OneTurn
pub mod Lifecycle
pub mod Races
pub mod Numbers
pub mod Alone
pub mod Ends
pub mod Finishes
use agent_on_demand.Prelude.{
  ℕ, ◌==◌, ◌≡◌, ◌≢◌, Bool, true, false, ◌&&◌, Option, none, some, List, [], ◌∷◌, ◌++◌,
  if◌then◌else◌, get_elem?, set, count,
}
use agent_on_demand.Prelude.Table.{Table, get}
use agent_on_demand.State.{Status}
use agent_on_demand.Store.{Turn, Job, Point, Store}
use agent_on_demand.Requests.Create.{Settings, Draw, RunRequest, Plan, create_locked}
use agent_on_demand.Requests.Prompt.{PromptRequest, prompt_locked}
use agent_on_demand.Requests.End.{terminate_session, delete_session}
use agent_on_demand.Worker.{Reply, Progress}
use agent_on_demand.Worker.Advance.{advance}

-- The job may still write to the row of its session, or run the session's command.
abbrev pub is_live : Point → Bool
is_live (Point.fail_turn p) = false
is_live (Point.final_turn s c ended) = false
is_live Point.finished = false
is_live _ = true

abbrev pub is_early : Status → Bool
is_early Status.pending = true
is_early Status.terminated = true
is_early _ = false

abbrev pub is_late : Status → Bool
is_late Status.running = true
is_late Status.terminated = true
is_late _ = false

-- The statuses that the row of a live job's session may have at its point.
abbrev pub fits : Point → Status → Bool
fits Point.finished s = true
fits (Point.fail_turn p) s = true
fits (Point.final_turn c e t) s = true
fits (Point.abort_log t) s = true
fits (Point.abort_turn t) s = true
fits (Point.mark_turn t) s = is_late s
fits Point.emit_start s = is_late s
fits Point.drain s = is_late s
fits (Point.finalize c e) s = is_late s
fits (Point.final_session seen c e t) s = is_late s
fits _ s = is_early s

-- The moves of a session's status. `overwritten` is the save of a job that read the status before a
-- terminate committed.
pub data Edge : Status → Status → Type 0 where
  stays : {s : Status} → Edge s s
  starts : Edge Status.pending Status.running
  fails_early : Edge Status.pending Status.failed
  completes : Edge Status.running Status.completed
  fails : Edge Status.running Status.failed
  ends : {s : Status} → Edge s Status.terminated
  prompted : Edge Status.completed Status.pending
  overwritten : {s : Status} → s ≢ Status.pending → Edge Status.terminated s

abbrev pub is_live_of : ℕ → Job → Bool
is_live_of id j = j.session == id && is_live j.point

unfoldable pub live_count : ℕ → List Job → ℕ
live_count id = count (is_live_of id)

-- The numbers of a session's turns, the newest first.
unfoldable pub turn_numbers : ℕ → Table Turn → List ℕ
turn_numbers id [] = []
turn_numbers id ((k, t) ∷ ts) =
    if t.session == id then t.turn_number ∷ turn_numbers id ts else turn_numbers id ts

-- A step of the job at position `i`: it moves on, and what it deferred joins the queue.
unfoldable pub moved : Progress → ℕ → Job → Store
moved p i j = record p.store {
  jobs = set p.store.jobs i (record j { point = p.point }) ++ p.deferred;
}

-- A uuid4 key that no row and no job has.
pub record IsFresh (id : ℕ) (w : Store) : Type 0 where
  pub no_row : get id w.sessions ≡ none
  pub no_job : live_count id w.jobs ≡ 0

-- One commit. Of a request it is the transaction; what the request checks before that, on an earlier
-- store, only decides whether it comes to it.
pub data Step (w u : Store) : Type 0 where
  creates :
      (cfg : Settings) (user : ℕ) (draw : Draw) (req : RunRequest) (p : Plan)
      → IsFresh draw.id w
      → u ≡ (create_locked cfg user draw req p w).0
      → Step w u
  prompts : (id : ℕ) (req : PromptRequest) → u ≡ (prompt_locked id req w).0 → Step w u
  terminates : (user id : ℕ) → u ≡ (terminate_session user id w).0 → Step w u
  deletes : (user id : ℕ) → u ≡ (delete_session user id w).0 → Step w u
  works :
      (i now : ℕ) (r : Reply) (j : Job)
      → get_elem? w.jobs i ≡ some j
      → u ≡ moved (advance now r j.point j w) i j
      → Step w u

pub data Reach (w : Store) : Store → Type 0 where
  here : Reach w w
  next : {u v : Store} → Reach w u → Step u v → Reach w v
