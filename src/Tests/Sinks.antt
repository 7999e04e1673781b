-- ===== src/Tests/Sinks.antt =====
-- Small drains and pipes.
use agent_on_demand.Prelude.{ℕ, ◌≡◌, refl, String, false, some, List, [], ◌∷◌}
use agent_on_demand.LogSink.{
  StreamName, stdout, stderr, Chunk, Row, Sink, returned, flush_buffer, flush_rows, flush_attempts,
  Got, chunk, sentinel, empty, drain,
}
use agent_on_demand.LogSink.Drain.{Ends, drain_lossless}
use agent_on_demand.LogSink.Queue.{Balanced, moves, writes, gets, start, every_write_accounted}

-- A decoder that writes "x" for any bytes.
abbrev decode : List ℕ → String
decode bytes = "x"

abbrev said : StreamName → Chunk
said stream = record { stream = stream; bytes = 104 ∷ 105 ∷ [] }

abbrev line : Row
line = record { stream = stdout; text = "x" }

abbrev quiet : Sink
quiet = record { buffer = []; batches = []; slept = 0; exhausted = []; span_events = []; fed = [] }

abbrev gets_two : List Got
gets_two = chunk (said stdout) ∷ empty ∷ chunk (said stderr) ∷ sentinel ∷ []

-- The idle timeout flushes the first chunk, on its second attempt.
drain_runs :
    drain decode gets_two quiet (false ∷ [])
    ≡ some (
        returned
          (record {
            buffer = [];
            batches = (line ∷ []) ∷ (record line { stream = stderr } ∷ []) ∷ [];
            slept = 100;
            exhausted = [];
            span_events = (stdout, 2) ∷ (stderr, 2) ∷ [];
            fed = said stdout ∷ said stderr ∷ [];
          })
          [])
unfolding drain flush_buffer flush_rows flush_attempts
drain_runs = refl

drain_lossless_example : Ends decode quiet gets_two (drain decode gets_two quiet (false ∷ []))
drain_lossless_example = drain_lossless decode gets_two quiet (false ∷ [])

abbrev full : Sink
full = record quiet { buffer = line ∷ [] }

every_write_accounted_example :
    Balanced (moves (writes stdout (1 ∷ []) ∷ gets ∷ gets ∷ writes stderr [] ∷ []) start)
every_write_accounted_example =
    every_write_accounted (writes stdout (1 ∷ []) ∷ gets ∷ gets ∷ writes stderr [] ∷ [])
