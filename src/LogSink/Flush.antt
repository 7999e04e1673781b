-- ===== src/LogSink/Flush.antt =====
-- One flush: what is written, and when it gives up.
use mathlib.Core.List.{append-nil, append_assoc}
use agent_on_demand.Prelude.{
  ℕ, suc, ◌+◌, ◌≡◌, refl, ◌⊎◌, Bool, true, false, List, [], ◌∷◌, ◌++◌, arith, length,
}
use agent_on_demand.LogSink.{
  Row, Sink, Outcome, returned, raised, sink_of, flush_attempts, flush_rows, flush_buffer,
}

abbrev pub concat : List (List Row) → List Row
concat [] = []
concat (b ∷ bs) = b ++ concat bs

pub concat-snoc : (bs : List (List Row)) (b : List Row) → concat (bs ++ b ∷ []) ≡ concat bs ++ b
concat-snoc [] b = append-nil b
concat-snoc (c ∷ bs) b = rw (concat-snoc bs b) (ground (arith, append_assoc c (concat bs) b))

-- All rows so far, written or buffered, in order.
abbrev pub all_rows : Sink → List Row
all_rows s = concat s.batches ++ s.buffer

-- What a flush may do to a sink: write the whole buffer as one batch, or give up and keep it.
pub data Flushed (s : Sink) : Outcome → Type 0 where
  nothing : (db : List Bool) → s.buffer ≡ [] → Flushed s (returned s db)
  written :
      (t : Sink) (db : List Bool)
      → t.buffer ≡ []
      → t.batches ≡ s.batches ++ s.buffer ∷ []
      → t.span_events ≡ s.span_events
      → t.fed ≡ s.fed
      → Flushed s (returned t db)
  gave_up :
      (t : Sink) (db : List Bool)
      → t.buffer ≡ s.buffer
      → t.batches ≡ s.batches
      → t.span_events ≡ s.span_events
      → t.fed ≡ s.fed
      → Flushed s (raised t db)

attempts-Flushed :
    (delay : ℕ) (delays : List ℕ) (s t : Sink) (db : List Bool)
    → t.buffer ≡ s.buffer
    → t.batches ≡ s.batches
    → t.span_events ≡ s.span_events
    → t.fed ≡ s.fed
    → Flushed s (flush_attempts (delay ∷ delays) t db)
unfolding flush_attempts
attempts-Flushed delay delays s t [] a b c d = Flushed.written _ [] refl (ground arith) c d
attempts-Flushed delay delays s t (true ∷ db) a b c d = Flushed.written _ db refl (ground arith) c d
attempts-Flushed delay [] s t (false ∷ db) a b c d = Flushed.gave_up _ db a b c d
attempts-Flushed delay (next ∷ delays) s t (false ∷ db) a b c d =
    attempts-Flushed next delays s (record t { slept = t.slept + delay }) db a b c d

flush_rows-Flushed :
    (rows : List Row) (s : Sink) (db : List Bool)
    → s.buffer ≡ rows
    → Flushed s (flush_rows rows s db)
unfolding flush_rows
flush_rows-Flushed [] s db e = Flushed.nothing db e
flush_rows-Flushed (r ∷ rs) s db e = attempts-Flushed 100 _ s s db refl refl refl refl

pub flush_buffer-Flushed : (s : Sink) (db : List Bool) → Flushed s (flush_buffer s db)
unfolding flush_buffer
flush_buffer-Flushed s db = flush_rows-Flushed s.buffer s db refl

abbrev pub has_raised : Outcome → Bool
has_raised (returned t db) = false
has_raised (raised t db) = true

-- A flush of a buffer that is not empty calls bulk_create until it succeeds, three times at most: it
-- raises exactly when the first three calls fail. Then it has slept 100 and 300 milliseconds, reports
-- the number of rows that it could not write, and has written nothing.
pub flush_exhausted :
    (r : Row) (rs : List Row) (s : Sink) (a b c : Bool) (db : List Bool)
    → s.buffer ≡ r ∷ rs
    → let tries = flush_buffer s (a ∷ b ∷ c ∷ db) in
      (((a ≡ true) ⊎ ((b ≡ true) ⊎ (c ≡ true)))
        × (has_raised tries ≡ false)
        × ((sink_of tries).buffer ≡ [])
        × ((sink_of tries).batches ≡ s.batches ++ (r ∷ rs) ∷ []))
      ⊎ ((a ≡ false)
          × (b ≡ false)
          × (c ≡ false)
          × (tries
              ≡ raised
                  (record s {
                    slept = s.slept + 100 + 300;
                    exhausted = s.exhausted ++ suc (length rs) ∷ [];
                  })
                  db))
unfolding flush_buffer flush_rows flush_attempts
flush_exhausted r rs s a b c db e = ground arith
