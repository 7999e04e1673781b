-- ===== src/Store.antt =====
-- The rows of src/agent_on_demand/models (sessions.py, quota.py) and the queue of worker jobs. A job in
-- flight is kept with the point that its code has reached, so that other requests and jobs can be
-- interleaved with it between any two of its database operations.
pub mod Quota
use agent_on_demand.Prelude.{ℕ, String, Bool, true, false, Option, List, ℤ}
use agent_on_demand.Prelude.Table.{Table}
use agent_on_demand.State.{Status, TurnStatus}
use agent_on_demand.Outcome.{FinalStatus}

pub record Session : Type 0 where
  pub user : ℕ
  pub agent : Option ℕ
  pub environment : Option ℕ
  pub runtime : String
  pub prompt : String
  pub backend_handle : String
  pub runtime_session_id : String
  pub status : Status
  pub exit_code : Option ℤ

pub record Turn : Type 0 where
  pub session : ℕ
  pub turn_number : ℕ
  pub prompt : String
  pub status : TurnStatus
  pub exit_code : Option ℤ
  pub started_at : Option ℕ
  pub ended_at : Option ℕ

pub data LogKind : Type 0 where
  output stage : LogKind

-- `text` is the column `data`.
pub record Log : Type 0 where
  pub id : ℕ
  pub session : ℕ
  pub turn : Option ℕ
  pub kind : LogKind
  pub stream : String
  pub text : String
  pub stage : String
  pub state : String
  pub duration_ms : Option ℕ

-- A ciphertext of src/agent_on_demand/crypto.py, seen through its key.
pub data Encrypted (A : Type 0) : Type 0 where
  encrypt : A → Encrypted A

pub record Resource : Type 0 where
  pub session : ℕ
  pub resource_type : String
  pub url : String
  pub mount_path : String
  pub encrypted_token : Option (Encrypted String)

pub record SecretEnvVars : Type 0 where
  pub session : ℕ
  pub encrypted_env_vars : Encrypted (List (String × String))

-- The columns of an Agent and of an Environment that session creation reads.
pub record Agent : Type 0 where
  pub user : ℕ
  pub provider : String
  pub system : String
  pub environment : Option ℕ
  pub is_archived : Bool

pub record Environment : Type 0 where
  pub user : ℕ
  pub is_archived : Bool

pub data Mode : Type 0 where
  run continue : Mode

-- Where a job's code stands. The arguments are the local variables that the rest of it reads.
pub data Point : Type 0 where
  -- provision_session_task: queued; past the fetch; past the spec.
  provision_queued provision_spec provision_backend : Point
  -- _mark_provision_failed (true) and _fail_pending_turn (false): the log row, with the message; the
  -- refresh; the session's row, with the status that was read; the turn's row.
  fail_log : Bool → String → Point
  fail_refresh fail_turn : Bool → Point
  fail_session : Bool → Status → Point
  -- execute_turn: queued; past the fetch, with the handle that was read; past the spec.
  execute_queued : Point
  execute_spec execute_resume : String → Point
  -- TurnExecutor.run, with its start time: the refresh; the aborted turn's log and row; the two rows
  -- marked running; the stage event; the command and the drain loop.
  turn_refresh : Point
  abort_log abort_turn mark_session mark_turn : ℕ → Point
  emit_start drain : Point
  -- TurnExecutor._finalize, with the outcome and the end time: the refresh; the two rows.
  finalize : FinalStatus → Option ℤ → Point
  final_session : Status → FinalStatus → Option ℤ → ℕ → Point
  final_turn : FinalStatus → Option ℤ → ℕ → Point
  -- The job has returned or raised.
  finished : Point

pub record Job : Type 0 where
  pub session : ℕ
  pub turn : ℕ
  pub prompt : String
  pub mode : Mode
  pub timeout : ℕ
  pub point : Point

pub record Store : Type 0 where
  pub agents : Table Agent
  pub environments : Table Environment
  pub sessions : Table Session
  pub turns : Table Turn
  pub next_turn : ℕ
  -- Oldest first, as the primary keys are drawn.
  pub logs : List Log
  pub next_log : ℕ
  pub resources : List Resource
  pub secrets : List SecretEnvVars
  -- UserQuota.max_concurrent_sessions by user.
  pub quotas : Table (Option ℕ)
  pub jobs : List Job
  -- The handles of the queued destroy_session_task jobs, newest first.
  pub destroys : List String
