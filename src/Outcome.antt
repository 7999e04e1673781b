-- ===== src/Outcome.antt =====
-- src/agent_on_demand/session_service/turn/outcome.py.
use agent_on_demand.Prelude.{String, Option, none, some, List, [], ◌∷◌, ℤ, pos, negsuc, zero, suc}
use agent_on_demand.State.{Status, TurnStatus}

-- An entry of `result_holder`: ("exit", value) or ("error", message); a value of the wrong type is
-- the `isinstance` guard's case.
pub data HolderEntry : Type 0 where
  exit : ℤ → HolderEntry
  exit_malformed : HolderEntry
  raised : String → HolderEntry

pub data FinalStatus : Type 0 where
  completed failed : FinalStatus

unfoldable pub compute_final_status : List HolderEntry → FinalStatus × Option ℤ
compute_final_status [] = (FinalStatus.failed, none)
compute_final_status (exit (pos zero) ∷ rest) = (FinalStatus.completed, some (pos 0))
compute_final_status (exit (pos (suc n)) ∷ rest) = (FinalStatus.failed, some (pos (suc n)))
compute_final_status (exit (negsuc n) ∷ rest) = (FinalStatus.failed, some (negsuc n))
compute_final_status (exit_malformed ∷ rest) = (FinalStatus.failed, none)
compute_final_status (raised message ∷ rest) = (FinalStatus.failed, none)

-- The same word as a session's status and as a turn's.
abbrev pub session_status : FinalStatus → Status
session_status FinalStatus.completed = Status.completed
session_status FinalStatus.failed = Status.failed

abbrev pub turn_status : FinalStatus → TurnStatus
turn_status FinalStatus.completed = TurnStatus.completed
turn_status FinalStatus.failed = TurnStatus.failed
