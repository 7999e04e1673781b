-- ===== src/Requests/Prompt.antt =====
-- `send_prompt` of src/agent_on_demand/views/sessions/lifecycle.py.
use Prim.Native.Nat.{max}
use agent_on_demand.Prelude.{ℕ, ◌+◌, ◌==◌, String, none, some, [], ◌∷◌, ◌++◌, if◌then◌else◌}
use agent_on_demand.Prelude.Result.{Result, ok, err, ◌>>=◌}
use agent_on_demand.Prelude.Table.{Table, get, modify}
use agent_on_demand.Http.{Response, error, accepted}
use agent_on_demand.State.{Status, TurnStatus, check_can_accept_prompt, is_pending}
use agent_on_demand.Store.{Session, Turn, Mode, Point, Job, Store}
use agent_on_demand.Requests.{get_owned}

pub record PromptRequest : Type 0 where
  pub prompt : String
  pub timeout : ℕ

-- What `session_service.resume_session` does with the handle.
pub data Resume : Type 0 where
  resumed handle_not_found : Resume
  no_credentials : String → Resume

-- `aggregate(n=Max("turn_number"))["n"] or 0`.
unfoldable pub max_turn_number : ℕ → Table Turn → ℕ
max_turn_number id [] = 0
max_turn_number id ((k, t) ∷ ts) =
    if t.session == id then max t.turn_number (max_turn_number id ts) else max_turn_number id ts

abbrev pub re_armed : PromptRequest → Session → Session
re_armed req s = record s { prompt = req.prompt; status = Status.pending; exit_code = none }

-- The rows that the transaction writes below its checks, and the job.
unfoldable pub prompt_rows : ℕ → PromptRequest → Store → Store
prompt_rows id req w = record w {
  sessions = modify id (re_armed req) w.sessions;
  turns = (w.next_turn, turn) ∷ w.turns;
  next_turn = w.next_turn + 1;
  jobs = w.jobs ++ job ∷ [];
}
  where
    turn : Turn
    turn = record {
      session = id;
      turn_number = max_turn_number id w.turns + 1;
      prompt = req.prompt;
      status = TurnStatus.pending;
      exit_code = none;
      started_at = none;
      ended_at = none;
    }

    job : Job
    job = record {
      session = id;
      turn = w.next_turn;
      prompt = req.prompt;
      mode = Mode.continue;
      timeout = req.timeout;
      point = Point.execute_queued;
    }

-- The checks on the locked row's status.
abbrev pub prompt_checked : ℕ → PromptRequest → Store → Status → Store × Response
prompt_checked id req w status = elim (check_can_accept_prompt status) [
  | some r ↦ (w, r)
  | none ↦
      if is_pending status
      then (w, error 409 "Session already has a pending turn")
      else (prompt_rows id req w, accepted id (max_turn_number id w.turns + 1))
]

-- The transaction.
unfoldable pub prompt_locked : ℕ → PromptRequest → Store → Store × Response
prompt_locked id req w = elim (get id w.sessions) [
  | none ↦ (w, error 404 "Session not found")
  | some s ↦ prompt_checked id req w s.status
]

-- What is checked before the transaction, on the store `pre` of the request's start.
unfoldable pub prompt_accepted :
    ℕ → ℕ → Result Response PromptRequest → Resume → Store → Result Response PromptRequest
prompt_accepted user id body resume pre = elim (get_owned user id pre.sessions) [
  | none ↦ err (error 404 "Session not found")
  | some s ↦ elim (check_can_accept_prompt s.status) [
    | some r ↦ err r
    | none ↦ do
      req ← body
      elim resume [
        | resumed ↦ ok req
        | handle_not_found ↦
            err (error 409 "Session backend is no longer available; start a new session.")
        | no_credentials e ↦ err (error 503 e)
      ]
  ]
]

-- Other requests and jobs may commit between `pre` and the store `w` of the transaction.
unfoldable pub send_prompt :
    ℕ → ℕ → Result Response PromptRequest → Resume → Store → Store → Store × Response
send_prompt user id body resume pre w = elim (prompt_accepted user id body resume pre) [
  | err r ↦ (w, r)
  | ok req ↦ prompt_locked id req w
]
