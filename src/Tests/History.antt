-- ===== src/Tests/History.antt =====
-- A service with two users: session 7 of user 1 is completed, session 8 of user 1 is running.
use agent_on_demand.Prelude.{
  count_down, count, Bool-cases, ◌==◌, ◌⊎◌, ℕ, ◌≡◌, refl, false, none, some, [], ◌∷◌, pos, arith,
  inl, inr, ◌+◌, ◌≤◌,
}
use agent_on_demand.Prelude.Table.{get, modify}
use agent_on_demand.Prelude.Result.{ok}
use agent_on_demand.Http.{error, accepted, limit_reached, code}
use agent_on_demand.State.{
  Status, TurnStatus, check_can_accept_prompt, check_can_terminate, check_can_delete,
}
use agent_on_demand.Store.{Session, Turn, Mode, Point, Job, Store}
use agent_on_demand.Store.Quota.{active_session_count_for}
use agent_on_demand.Providers.{runtime_for_provider}
use agent_on_demand.Requests.{get_owned}
use agent_on_demand.Requests.Create.{
  Settings, Draw, RunRequest, Plan, plan, find_agent, find_environment, locked_max, ensure_quota,
  create_rows, create_locked, create_session,
}
use agent_on_demand.Requests.Prompt.{PromptRequest, prompt_locked, prompt_rows, max_turn_number}
use agent_on_demand.Requests.End.{terminate_session, delete_session, terminated_row}
use agent_on_demand.Requests.Limits.{create_limited, prompt_unlimited}
use agent_on_demand.Worker.{proceed, raises}
use agent_on_demand.Worker.Execute.{turn_check, execute_fetch, execute_attach, mark_session_running}
use agent_on_demand.Worker.Advance.{advance}
use agent_on_demand.World.{live_count, moved, turn_numbers, Step, Reach, Edge}
use agent_on_demand.World.OneTurn.{OneTurn, one_turn}
use agent_on_demand.World.Lifecycle.{status_moves}
use agent_on_demand.World.Numbers.{Numbered, Reach-Numbered}
use agent_on_demand.World.Races.{terminate_overwritten, raise_strands}

abbrev pub row : ℕ → Status → Session
row user status = record {
  user = user;
  agent = none;
  environment = none;
  runtime = "claude";
  prompt = "hi";
  backend_handle = "aod-1";
  runtime_session_id = "r";
  status = status;
  exit_code = none;
}

abbrev first_turn : ℕ → Turn
first_turn id = record {
  session = id;
  turn_number = 1;
  prompt = "hi";
  status = TurnStatus.completed;
  exit_code = some (pos 0);
  started_at = some 1;
  ended_at = some 2;
}

abbrev pub before : Store
before = record {
  agents =
      (
        3,
        record {
          user = 1;
          provider = "anthropic";
          system = "Be brief.";
          environment = none;
          is_archived = false;
        },
      )
      ∷ [];
  environments = [];
  sessions = (7, row 1 Status.completed) ∷ [];
  turns = (1, first_turn 7) ∷ [];
  next_turn = 2;
  logs = [];
  next_log = 1;
  resources = [];
  secrets = [];
  quotas = (1, some 0) ∷ [];
  jobs = [];
  destroys = [];
}

abbrev again : PromptRequest
again = record { prompt = "more"; timeout = 60 }

abbrev prompted : Store
prompted = (prompt_locked 7 again before).0

abbrev next_job : Point → Job
next_job p = record {
  session = 7;
  turn = 2;
  prompt = "more";
  mode = Mode.continue;
  timeout = 60;
  point = p;
}

-- What the runs below compute with.
runs : Unit {0}
unfolding prompt_locked prompt_rows check_can_accept_prompt max_turn_number get modify get_owned
    advance execute_fetch mark_session_running turn_check terminate_session check_can_terminate
    delete_session check_can_delete execute_attach moved turn_numbers count live_count plan
    find_agent find_environment runtime_for_provider create_locked locked_max ensure_quota
    active_session_count_for create_rows create_session
runs = tt

-- The queued turn of `prompted` is fetched.
abbrev pub fetched : Store
fetched =
    moved (advance 5 proceed Point.execute_queued (next_job Point.execute_queued) prompted) 0
      (next_job Point.execute_queued)

prompted_runs : prompted.jobs ≡ next_job Point.execute_queued ∷ []
unfolding runs
prompted_runs = refl

pub history : Reach before fetched
unfolding runs
history =
    Reach.next (Reach.next Reach.here (Step.prompts 7 again refl))
      (Step.works 0 5 proceed (next_job Point.execute_queued) refl refl)

one_turn_example : OneTurn fetched
one_turn_example = one_turn refl history

status_moves_example : Edge Status.completed Status.pending
unfolding runs
status_moves_example =
    status_moves {w = before} {u = before} {v = prompted} 7 (row 1 Status.completed)
      (record (row 1 Status.pending) { prompt = "more" }) refl Reach.here
      (Step.prompts 7 again refl) refl refl

pub before-Numbered : Numbered before
unfolding turn_numbers get
before-Numbered = record { consecutive = numbered; no_orphans = λ id h. ground arith }
  where
    numbered : (id : ℕ) → (n : ℕ) × (turn_numbers id before.turns ≡ count_down n)
    numbered id = elim (Bool-cases (7 == id)) [
      | inl same ↦ (1, ground arith)
      | inr other ↦ (0, ground arith)
    ]

Reach-Numbered_example : Numbered fetched
Reach-Numbered_example = Reach-Numbered before-Numbered history

abbrev settings : Settings
settings = record {
  sprites_api_key = some "key";
  sprite_name_prefix = "aod";
  default_max_concurrent_sessions = 1;
}

abbrev draw : Draw
draw = record { id = 9; hex = "0a1b"; runtime_session_id = "s" }

abbrev request : RunRequest
request = record {
  agent_id = 3;
  prompt = "go";
  timeout = 600;
  environment_id = none;
  resources = [];
  secret_env_vars = ("TOKEN", "t") ∷ [];
}

abbrev claude_plan : Plan
claude_plan = record {
  agent = record {
    user = 1;
    provider = "anthropic";
    system = "Be brief.";
    environment = none;
    is_archived = false;
  };
  environment = none;
  runtime = "claude";
}

create_runs :
    ((create_session settings 1 draw (ok request) before before).1 ≡ accepted 9 1)
    × ((create_session settings 1 draw (ok request) before prompted).1 ≡ limit_reached 1 1)
    × ((create_session settings 2 draw (ok request) before before).1 ≡ error 404 "Agent not found")
unfolding runs
create_runs = (refl, refl, refl)

create_limited_example :
    ((1 ≤ 1)
      × (limit_reached 1 1 ≡ limit_reached 1 1)
      × (prompted.sessions ≡ prompted.sessions)
      × (prompted.jobs ≡ prompted.jobs))
    ⊎ ((limit_reached 1 1 ≡ accepted 9 1)
        × (active_session_count_for 1 prompted.sessions ≡ 1 + 1)
        × (active_session_count_for 1 prompted.sessions ≤ 1))
unfolding runs
create_limited_example = create_limited settings 1 draw request claude_plan prompted

prompt_unlimited_example :
    (code (prompt_locked 7 again before).1 ≡ 202)
    × (active_session_count_for 1 (prompt_locked 7 again before).0.sessions
        ≡ active_session_count_for 1 before.sessions + 1)
unfolding runs
prompt_unlimited_example =
    prompt_unlimited 1 7 again before (row 1 Status.completed) refl refl refl refl

-- The session is pending when its job refreshes it, and the user terminates it then.
abbrev waiting : Job
waiting = next_job Point.turn_refresh

terminate_overwritten_example :
    ((turn_check 5 waiting prompted).point ≡ Point.mark_session 5)
    × (get 7 (terminate_session 1 7 prompted).0.sessions
        ≡ some (terminated_row (record (row 1 Status.pending) { prompt = "more" })))
    × (get 7 (mark_session_running 5 waiting (terminate_session 1 7 prompted).0).store.sessions
        ≡ some (record (row 1 Status.running) { prompt = "more"; backend_handle = "" }))
unfolding runs
terminate_overwritten_example =
    terminate_overwritten prompted waiting 5 1 (record (row 1 Status.pending) { prompt = "more" })
      refl refl

abbrev attaching : Store
attaching = record prompted { jobs = next_job (Point.execute_resume "aod-1") ∷ [] }

abbrev stranded : Store
stranded =
    moved
      (advance 5 raises (Point.execute_resume "aod-1") (next_job (Point.execute_resume "aod-1"))
        attaching)
      0 (next_job (Point.execute_resume "aod-1"))

attaching-OneTurn : OneTurn attaching
unfolding runs
attaching-OneTurn = record { at_most_one = λ id. ground arith; idle = λ id s e c. ground arith }

raise_strands_example :
    (get 7 stranded.sessions ≡ some (record (row 1 Status.pending) { prompt = "more" }))
    × (live_count 7 stranded.jobs ≡ 0)
    × (code (prompt_locked 7 again stranded).1 ≡ 409)
    × (code (delete_session 1 7 stranded).1 ≡ 409)
    × (code (terminate_session 1 7 stranded).1 ≡ 200)
unfolding runs
raise_strands_example =
    raise_strands attaching 0 5 1 (next_job (Point.execute_resume "aod-1"))
      (record (row 1 Status.pending) { prompt = "more" }) again attaching-OneTurn refl
      (inl ("aod-1", refl)) refl refl
