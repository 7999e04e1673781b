-- ===== src/Tests/Streams.antt =====
-- A session with two rows, streamed to its end.
use agent_on_demand.Prelude.{ℕ, ◌≡◌, refl, none, some, List, [], ◌∷◌, pos, select, arith}
use agent_on_demand.State.{Status}
use agent_on_demand.Store.{LogKind}
use agent_on_demand.Stream.{LogRow, stage_payload, format_chunk_events, format_terminal_event}
use agent_on_demand.Stream.Tail.{Round, Cursor, after, emit, round, tail, breaks}
use agent_on_demand.Stream.Sse.{frames, cursors}
use agent_on_demand.Stream.Lossless.{Delivers, tail_lossless}

abbrev out_row : ℕ → LogRow
out_row id = record {
  id = id;
  kind = LogKind.output;
  stream = "stdout";
  text = "hi";
  stage = "";
  state = "";
  duration_ms = none;
  turn_id = some 4;
  turn_number = some 1;
}

abbrev rows : List LogRow
rows = out_row 11 ∷ out_row 12 ∷ []

abbrev at_time : ℕ → Round
at_time t = record {
  rows = rows;
  session = some (Status.completed, some (pos 0));
  chunk_time = t;
  now = t;
}

abbrev from_start : Cursor
from_start = record { last_id = 0; last_turn_id = none; last_heartbeat = 0; last_chunk_time = 0 }

abbrev two_rounds : List Round
two_rounds = at_time 1 ∷ at_time 2 ∷ []

-- The rows once each, then the exit event under the last id; the turn_start carries no cursor.
tail_runs :
    (cursors (frames (tail two_rounds from_start).0) ≡ 11 ∷ 12 ∷ 12 ∷ [])
    × ((tail two_rounds from_start).1 ≡ breaks)
unfolding tail round after select emit format_chunk_events format_terminal_event stage_payload
    frames cursors
tail_runs = (refl, refl)

tail_lossless_example :
    Delivers rows from_start (tail two_rounds from_start).0 (tail two_rounds from_start).1
tail_lossless_example =
    tail_lossless rows (omega arith) two_rounds from_start (([], refl), (([], refl), tt))
