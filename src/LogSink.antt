-- ===== src/LogSink.antt =====
-- src/agent_on_demand/session_service/log_sink.py. `queue.Queue` is a list with its bound; whether a get
-- times out and whether a bulk_create raises is the environment's, as a list of answers.
pub mod Flush
pub mod Drain
pub mod Queue
use agent_on_demand.Prelude.{
  ℕ, suc, ◌+◌, leb, ltb, String, Bool, true, false, Option, none, some, List, [], ◌∷◌, ◌++◌,
  if◌then◌else◌, length,
}

pub data StreamName : Type 0 where
  stdout stderr : StreamName

-- TaggedChunk, with its bytes.
pub record Chunk : Type 0 where
  pub stream : StreamName
  pub bytes : List ℕ

-- The columns of an AgentSessionLog row that vary; `text` is `data`.
pub record Row : Type 0 where
  pub stream : StreamName
  pub text : String

abbrev pub flush_size : ℕ
flush_size = 20

-- BULK_CREATE_DELAYS, in milliseconds.
abbrev pub bulk_create_delays : List ℕ
bulk_create_delays = 100 ∷ 300 ∷ 1000 ∷ []

abbrev pub queue_maxsize : ℕ
queue_maxsize = 4096

pub record Sink : Type 0 where
  pub buffer : List Row
  -- The arguments of the bulk_create calls that succeeded, oldest first.
  pub batches : List (List Row)
  -- Milliseconds slept between attempts.
  pub slept : ℕ
  -- `dropped_chunks` of the log_write_retry_exhausted events.
  pub exhausted : List ℕ
  -- The span events: stream and byte count.
  pub span_events : List (StreamName × ℕ)
  -- What the trace emitter was fed.
  pub fed : List Chunk

-- A call that returns or raises, with the answers that it has not used.
pub data Outcome : Type 0 where
  returned raised : Sink → List Bool → Outcome

abbrev pub sink_of : Outcome → Sink
sink_of (returned s db) = s
sink_of (raised s db) = s

-- The loop of `_flush_buffer` over its delays. An answer `true` is a bulk_create that succeeds; where
-- the list has run out they all do.
unfoldable pub flush_attempts : List ℕ → Sink → List Bool → Outcome
flush_attempts [] s db = returned s db
flush_attempts (delay ∷ delays) s [] =
    returned (record s { buffer = []; batches = s.batches ++ s.buffer ∷ [] }) []
flush_attempts (delay ∷ delays) s (true ∷ db) =
    returned (record s { buffer = []; batches = s.batches ++ s.buffer ∷ [] }) db
flush_attempts (delay ∷ []) s (false ∷ db) =
    raised (record s { exhausted = s.exhausted ++ length s.buffer ∷ [] }) db
flush_attempts (delay ∷ next ∷ delays) s (false ∷ db) =
    flush_attempts (next ∷ delays) (record s { slept = s.slept + delay }) db

unfoldable pub flush_rows : List Row → Sink → List Bool → Outcome
flush_rows [] s db = returned s db
flush_rows (r ∷ rs) s db = flush_attempts bulk_create_delays s db

-- `_flush_buffer`.
unfoldable pub flush_buffer : Sink → List Bool → Outcome
unfolding flush_rows
flush_buffer s db = flush_rows s.buffer s db

-- What `self._queue.get(timeout=…)` does: a chunk, the sentinel, or queue.Empty.
pub data Got : Type 0 where
  chunk : Chunk → Got
  sentinel empty : Got

infixl 5 ◌then◌
abbrev pub ◌then◌ : Outcome → (Sink → List Bool → Option Outcome) → Option Outcome
returned s db then k = k s db
raised s db then k = some (raised s db)

-- `bytes.decode("utf-8", errors="replace")`.
module _ (decode : List ℕ → String) where
  abbrev pub row_of : Chunk → Row
  row_of c = record { stream = c.stream; text = decode c.bytes }

  -- A chunk is buffered, recorded as a span event and fed to the trace emitter.
  abbrev pub take_chunk : Chunk → Sink → Sink
  take_chunk c s = record s {
    buffer = s.buffer ++ row_of c ∷ [];
    span_events = s.span_events ++ (c.stream, length c.bytes) ∷ [];
    fed = s.fed ++ c ∷ [];
  }

  abbrev pub flush_if_full : Sink → List Bool → Outcome
  flush_if_full s db = if leb flush_size (length s.buffer) then flush_buffer s db else returned s db

  -- `drain`, by the answers of its gets; `none` while the sentinel has not come.
  unfoldable pub drain : List Got → Sink → List Bool → Option Outcome
  drain [] s db = none
  drain (empty ∷ gs) s db = flush_buffer s db then drain gs
  drain (sentinel ∷ gs) s db = some (flush_buffer s db)
  drain (chunk c ∷ gs) s db = flush_if_full (take_chunk c s) db then drain gs
