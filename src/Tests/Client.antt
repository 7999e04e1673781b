-- ===== src/Tests/Client.antt =====
-- A client whose first connection drops behind the turn_start event of row 11, and one that finds no
-- server.
use agent_on_demand.Prelude.{◌≡◌, refl, none, some, List, [], ◌∷◌, All, pos, arith}
use agent_on_demand.Store.{LogKind}
use agent_on_demand.Stream.{LogRow, Event, turn_start_event}
use agent_on_demand.State.{Status}
use agent_on_demand.Stream.Tail.{Round}
use agent_on_demand.Client.{start, tailed, dropped, Connection, Outcome, stream_resumable}
use agent_on_demand.Client.Served.{served, received, IsOther}
use agent_on_demand.Client.Resumes.{stream_resumable_skips}

abbrev first_row : LogRow
first_row = record {
  id = 11;
  kind = LogKind.output;
  stream = "stdout";
  text = "hi";
  stage = "";
  state = "";
  duration_ms = none;
  turn_id = some 4;
  turn_number = some 1;
}

abbrev later_rows : List LogRow
later_rows = record first_row { id = 12 } ∷ []

-- The rows are there at once, and the session ends between the two connections.
abbrev running_round : Round
running_round = record {
  rows = first_row ∷ later_rows;
  session = some (Status.running, none);
  chunk_time = 5;
  now = 5;
}

abbrev ended_round : Round
ended_round = record running_round { session = some (Status.completed, some (pos 0)) }

stream_resumable_skips_example :
    (more : List Event) × (outcome : Outcome) × (stream_resumable 3 0
        (served (running_round ∷ []) 5 (some 1)
          ∷ served (ended_round ∷ ended_round ∷ []) 6 none
          ∷ [])
        none
      ≡ (start ∷ tailed (turn_start_event first_row) ∷ start ∷ received more, outcome))
    × All (IsOther 11) more
stream_resumable_skips_example =
    stream_resumable_skips running_round [] (ended_round ∷ ended_round ∷ []) 5 6 none first_row
      later_rows 4 refl (omega arith) refl refl

abbrev unreachable : Connection
unreachable = λ cursor. ([], dropped)
