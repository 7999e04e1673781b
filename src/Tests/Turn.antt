-- ===== src/Tests/Turn.antt =====
-- A queued turn of a pending session, whose command writes one line and exits with 3.
use agent_on_demand.Prelude.{◌≡◌, refl, none, some, List, [], ◌∷◌, pos, arith}
use agent_on_demand.Prelude.Table.{get}
use agent_on_demand.State.{Status, TurnStatus}
use agent_on_demand.Outcome.{HolderEntry, exit}
use agent_on_demand.Store.{Session, Turn, LogKind, Mode, Point, Job, Store}
use agent_on_demand.Worker.{NewLog, proceed, spec_built, resumed}
use agent_on_demand.Worker.Execute.{execute_fetch, execute_build, execute_attach, turn_check}
use agent_on_demand.Worker.Advance.{advance}
use agent_on_demand.World.Alone.{run_alone}
use agent_on_demand.World.Ends.{Ended, answers, execute_turn_ends}
use agent_on_demand.World.Finishes.{Visits, visit, visited, answered, job_finishes}

abbrev session : Session
session = record {
  user = 1;
  agent = none;
  environment = none;
  runtime = "claude";
  prompt = "hi";
  backend_handle = "aod-1";
  runtime_session_id = "r";
  status = Status.pending;
  exit_code = none;
}

abbrev turn : Turn
turn = record {
  session = 8;
  turn_number = 1;
  prompt = "hi";
  status = TurnStatus.pending;
  exit_code = none;
  started_at = none;
  ended_at = none;
}

abbrev job : Job
job = record {
  session = 8;
  turn = 5;
  prompt = "hi";
  mode = Mode.run;
  timeout = 600;
  point = Point.execute_queued;
}

abbrev store : Store
store = record {
  agents = [];
  environments = [];
  sessions = (8, session) ∷ [];
  turns = (5, turn) ∷ [];
  next_turn = 6;
  logs = [];
  next_log = 1;
  resources = [];
  secrets = [];
  destroys = [];
  quotas = [];
  jobs = job ∷ [];
}

abbrev line : NewLog
line = record {
  turn = some 5;
  kind = LogKind.output;
  stream = "stdout";
  text = "done";
  stage = "";
  state = "";
  duration_ms = none;
}

abbrev exit_3 : List HolderEntry
exit_3 = exit (pos 3) ∷ []

execute_turn_ends_example :
    Ended 0 job session turn 100 107 exit_3
      (run_alone 0 (answers 0 job session turn 100 107 exit_3 ((line ∷ []) ∷ [])) store)
unfolding get
execute_turn_ends_example =
    execute_turn_ends 0 job session turn 100 107 exit_3 ((line ∷ []) ∷ []) store refl
      (record { job = refl; session = refl; turn = refl })

-- The session's row and the turn's are gone after the second operation.
abbrev gone : Store
gone = record store { sessions = []; turns = [] }

abbrev visits : Visits
visits =
    (1, proceed, store)
    ∷ (2, spec_built, store)
    ∷ (3, resumed, store)
    ∷ (4, proceed, gone)
    ∷ (5, proceed, gone)
    ∷ (5, proceed, gone)
    ∷ (5, proceed, gone)
    ∷ (5, proceed, gone)
    ∷ (5, proceed, gone)
    ∷ (5, proceed, gone)
    ∷ (5, proceed, gone)
    ∷ []

job_finishes_example : (visited visits job).point ≡ Point.finished
unfolding answered visit advance execute_fetch execute_build execute_attach turn_check get
job_finishes_example = job_finishes visits job (omega arith)
