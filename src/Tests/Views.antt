-- ===== src/Tests/Views.antt =====
-- The JSON of session 7 once its queued turn is fetched.
use agent_on_demand.Prelude.{ℕ, ◌≡◌, String, none, some, pos, count_down}
use agent_on_demand.Json.{int, lookup}
use agent_on_demand.Responses.{serialize_session}
use agent_on_demand.Responses.Counts.{current, serialize_session-current}
use agent_on_demand.State.{Status}
use agent_on_demand.World.{turn_numbers}
use agent_on_demand.Tests.History.{row, fetched, before-Numbered, history}

abbrev shown : ℕ → String
shown n = "x"

serialize_session-current_example :
    (n : ℕ) × (turn_numbers 7 fetched.turns ≡ count_down n)
    × (lookup "turn_count" (serialize_session shown shown 7 (row 1 Status.pending) none 1 2 fetched)
        ≡ some (int (pos n)))
    × (lookup "current_turn"
          (serialize_session shown shown 7 (row 1 Status.pending) none 1 2 fetched)
        ≡ some (current n))
serialize_session-current_example =
    serialize_session-current shown shown before-Numbered history 7 (row 1 Status.pending) none 1 2
