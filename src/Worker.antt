-- ===== src/Worker.antt =====
-- The jobs of src/agent_on_demand/session_service/tasks.py and turn_executor.py, one database operation
-- at a time. A save of a row that is gone, and a log row for a session that is gone, raise.
pub mod Provision
pub mod Execute
pub mod Advance
use agent_on_demand.Prelude.{
  ℕ, ◌+◌, String, Option, none, some, List, [], ◌∷◌, ◌++◌, is_some, if◌then◌else◌, ℤ,
}
use agent_on_demand.Prelude.Table.{get, modify}
use agent_on_demand.Outcome.{HolderEntry}
use agent_on_demand.Store.{Session, Turn, Log, LogKind, Job, Point, Store}

-- A row that the drain loop flushes or a stage event, before it has its key.
pub record NewLog : Type 0 where
  pub turn : Option ℕ
  pub kind : LogKind
  pub stream : String
  pub text : String
  pub stage : String
  pub state : String
  pub duration_ms : Option ℕ

-- What the code outside the database answers at a step; `proceed` where nothing is asked.
pub data Reply : Type 0 where
  proceed : Reply
  -- build_spec_for_session, in either task.
  spec_built : Reply
  spec_raised : String → Reply
  -- provision_session: a stage row, the end, the three kinds of exception.
  stage_event : NewLog → Reply
  provisioned : Reply
  no_credentials provision_error unexpected : String → Reply
  -- resume_session: the handle, SessionHandleNotFound, any other exception.
  resumed : Reply
  handle_not_found : String → Reply
  -- Any other exception out of the task: resume_session without a token, the argv builder, a flush
  -- whose retries are exhausted.
  raises : Reply
  -- The drain loop: a batch of rows, the sentinel with what the command thread left.
  flushes : List NewLog → Reply
  drained : List HolderEntry → Reply

-- What a step of a job leaves: the store, where the job stands, the jobs that it has deferred.
pub record Progress : Type 0 where
  pub store : Store
  pub point : Point
  pub deferred : List Job

abbrev pub at : Store → Point → Progress
at w p = record { store = w; point = p; deferred = [] }

-- `AgentSessionLog.objects.create(…)` and `bulk_create`: the rows get the next keys, in order.
unfoldable pub numbered : ℕ → ℕ → List NewLog → List Log
numbered id session [] = []
numbered id session (l ∷ ls) =
    record {
      id = id;
      session = session;
      turn = l.turn;
      kind = l.kind;
      stream = l.stream;
      text = l.text;
      stage = l.stage;
      state = l.state;
      duration_ms = l.duration_ms;
    }
    ∷ numbered (id + 1) session ls

unfoldable pub advance_key : ℕ → List NewLog → ℕ
advance_key id [] = id
advance_key id (l ∷ ls) = advance_key (id + 1) ls

abbrev pub add_logs : ℕ → List NewLog → Store → Store
add_logs session ls w = record w {
  logs = w.logs ++ numbered w.next_log session ls;
  next_log = advance_key w.next_log ls;
}

-- A log insert: the foreign key is checked.
abbrev pub insert_logs : ℕ → List NewLog → Point → Store → Progress
insert_logs session ls p w =
    if is_some (get session w.sessions) then at (add_logs session ls w) p else at w Point.finished

abbrev pub stderr_log : ℕ → String → NewLog
stderr_log turn text = record {
  turn = some turn;
  kind = LogKind.output;
  stream = "stderr";
  text = text;
  stage = "";
  state = "";
  duration_ms = none;
}

-- `session.save(update_fields=…)`, then on to `p`.
abbrev pub save_session : ℕ → (Session → Session) → Point → Store → Progress
save_session id f p w =
    if is_some (get id w.sessions)
    then at (record w { sessions = modify id f w.sessions }) p
    else at w Point.finished

-- `turn.save(update_fields=…)`. Of a row that is gone it raises, and the job ends there too.
abbrev pub save_turn : ℕ → (Turn → Turn) → Point → Store → Progress
save_turn id f p w =
    if is_some (get id w.turns)
    then at (record w { turns = modify id f w.turns }) p
    else at w Point.finished
