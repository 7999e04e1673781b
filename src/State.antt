-- ===== src/State.antt =====
-- src/agent_on_demand/session_state.py, and the status choices of src/agent_on_demand/models/sessions.py.
use agent_on_demand.Prelude.{Bool, true, false, Option, none, some}
use agent_on_demand.Http.{Response, error}

pub data Status : Type 0 where
  pending running completed failed terminated : Status

-- Turns have no `terminated`.
pub data TurnStatus : Type 0 where
  pending running completed failed : TurnStatus

unfoldable pub check_can_accept_prompt : Status → Option Response
check_can_accept_prompt Status.running = some (error 409 "Session is already running")
check_can_accept_prompt Status.terminated = some (error 409 "Session has been terminated")
check_can_accept_prompt Status.failed =
    some (error 409 "Session has failed and cannot be resumed. Start a new session.")
check_can_accept_prompt Status.pending = none
check_can_accept_prompt Status.completed = none

unfoldable pub check_can_terminate : Status → Option Response
check_can_terminate Status.terminated = some (error 409 "Session is already terminated")
check_can_terminate _ = none

unfoldable pub check_can_delete : Status → Option Response
check_can_delete Status.running = some (error 409 "Cannot delete an active session")
check_can_delete Status.pending = some (error 409 "Cannot delete an active session")
check_can_delete _ = none

-- `status == "terminated"`.
abbrev pub is_terminated : Status → Bool
is_terminated Status.terminated = true
is_terminated _ = false

-- `status == "pending"`.
abbrev pub is_pending : Status → Bool
is_pending Status.pending = true
is_pending _ = false

-- `status in ACTIVE_SESSION_STATUSES` of models/quota.py.
abbrev pub is_active : Status → Bool
is_active Status.pending = true
is_active Status.running = true
is_active _ = false
