-- ===== src/LogSink/Drain.antt =====
-- The drain loop: no chunk is lost, repeated or reordered on the way to the database.
use mathlib.Core.List.{append-nil, append_assoc}
use agent_on_demand.Prelude.{
  ℕ, suc, ◌≤◌, ◌<◌, ◌≡◌, refl, sym, ◌∙◌, Bool, true, false, String, Option, none, some, List, [],
  ◌∷◌, ◌++◌, map, arith, leb, if◌then◌else◌, length, length-append, take, All, All-append,
}
use agent_on_demand.LogSink.{
  Chunk, Row, Sink, Outcome, returned, raised, sink_of, flush_size, flush_buffer, Got, chunk,
  sentinel, empty, row_of, take_chunk, drain, ◌then◌,
}
use agent_on_demand.LogSink.Flush.{
  concat, concat-snoc, all_rows, Flushed, nothing, written, gave_up, flush_buffer-Flushed,
}

-- The chunks that come before the sentinel, and whether it comes.
abbrev pub chunks : List Got → List Chunk
chunks [] = []
chunks (chunk c ∷ gs) = c ∷ chunks gs
chunks (empty ∷ gs) = chunks gs
chunks (sentinel ∷ gs) = []

abbrev pub has_sentinel : List Got → Bool
has_sentinel [] = false
has_sentinel (chunk c ∷ gs) = has_sentinel gs
has_sentinel (empty ∷ gs) = has_sentinel gs
has_sentinel (sentinel ∷ gs) = true

all_rows_of_Flushed : (s : Sink) (o : Outcome) → Flushed s o → all_rows (sink_of o) ≡ all_rows s
all_rows_of_Flushed s _ (nothing db e) = refl
all_rows_of_Flushed s _ (written t db a b c d) =
    rw (a, b) (append-nil _ ∙ concat-snoc s.batches s.buffer)
all_rows_of_Flushed s _ (gave_up t db a b c d) = rw (a, b)

module _ (decode : List ℕ → String) where
  abbrev pub rows_of : List Chunk → List Row
  rows_of = map (row_of decode)

  -- How a drain from `s` over `gs` ends: it waits; it returns with all rows written; or it raises with
  -- the rows of the first `k` chunks written or still in the buffer.
  abbrev pub Ends : Sink → List Got → Option Outcome → Type 0
  Ends s gs none = has_sentinel gs ≡ false
  Ends s gs (some (returned t db)) =
      (has_sentinel gs ≡ true)
      × (t.buffer ≡ [])
      × (concat t.batches ≡ all_rows s ++ rows_of (chunks gs))
      × (t.fed ≡ s.fed ++ chunks gs)
  Ends s gs (some (raised t db)) =
      (k : ℕ) × (all_rows t ≡ all_rows s ++ rows_of (take k (chunks gs)))

  -- The last flush, after the sentinel.
  last-Ends :
      (s : Sink) (gs : List Got) (o : Outcome) → Flushed s o → Ends s (sentinel ∷ gs) (some o)
  last-Ends s gs _ (nothing db e) =
      (refl, e, rw e (sym (append-nil _ ∙ append-nil _)), sym (append-nil _))
  last-Ends s gs _ (written t db a b c d) =
      (refl, a, rw b (concat-snoc s.batches s.buffer ∙ sym (append-nil _)), d ∙ sym (append-nil _))
  last-Ends s gs _ (gave_up t db a b c d) = (0, rw (a, b) (sym (append-nil _)))

  -- A flush, and then the rest of the loop.
  then-Ends :
      (s : Sink) (gs : List Got) (o : Outcome)
      → Flushed s o
      → ((t : Sink) (db : List Bool) → Ends t gs (drain decode gs t db))
      → Ends s gs (o then drain decode gs)
  then-Ends s gs _ (nothing db e) rest = rest s db
  then-Ends s gs _ (written t db a b c d) rest =
      same_rows (drain decode gs t db) (all_rows_of_Flushed s _ (written t db a b c d)) d
        (rest t db)
    where
      same_rows :
          (r : Option Outcome) → all_rows t ≡ all_rows s → t.fed ≡ s.fed → Ends t gs r → Ends s gs r
      same_rows none e f h = h
      same_rows (some (returned u db)) e f h = (h.0, h.1, rw (← e) h.2, rw (← f) h.3)
      same_rows (some (raised u db)) e f (k, h) = (k, rw (← e) h)
  then-Ends s gs _ (gave_up t db a b c d) rest = (0, rw (a, b) (sym (append-nil _)))

  grow :
      (c : Chunk) (s : Sink) (rs : List Row)
      → all_rows (take_chunk decode c s) ++ rs ≡ all_rows s ++ row_of decode c ∷ rs
  grow c s rs = simp append_assoc

  -- The rest of a loop that has taken a chunk.
  chunk-Ends :
      (c : Chunk) (s : Sink) (gs : List Got) (r : Option Outcome)
      → Ends (take_chunk decode c s) gs r
      → Ends s (chunk c ∷ gs) r
  chunk-Ends c s gs none h = h
  chunk-Ends c s gs (some (returned t db)) h = (
    h.0,
    h.1,
    h.2 ∙ grow c s (rows_of (chunks gs)),
    h.3 ∙ append_assoc s.fed (c ∷ []) (chunks gs),
  )
  chunk-Ends c s gs (some (raised t db)) (k, h) =
      (suc k, h ∙ grow c s (rows_of (take k (chunks gs))))

  full-Ends :
      (s : Sink) (gs : List Got) (db : List Bool) (b : Bool)
      → ((t : Sink) (db : List Bool) → Ends t gs (drain decode gs t db))
      → Ends s gs ((if b then flush_buffer s db else returned s db) then drain decode gs)
  full-Ends s gs db true rest = then-Ends s gs (flush_buffer s db) (flush_buffer-Flushed s db) rest
  full-Ends s gs db false rest = rest s db

  -- A drain waits exactly while the sentinel has not come. If it returns, the database holds the rows
  -- that were written or buffered before and then one row for each chunk before the sentinel, in
  -- order; the trace emitter was fed the same chunks. If it raises, the rows in the database and in
  -- the buffer are those of a prefix of the chunks.
  pub drain_lossless :
      (gs : List Got) (s : Sink) (db : List Bool) → Ends s gs (drain decode gs s db)
  unfolding drain
  drain_lossless [] s db = refl
  drain_lossless (empty ∷ gs) s db =
      then-Ends s gs (flush_buffer s db) (flush_buffer-Flushed s db) (drain_lossless gs)
  drain_lossless (sentinel ∷ gs) s db =
      last-Ends s gs (flush_buffer s db) (flush_buffer-Flushed s db)
  drain_lossless (chunk c ∷ gs) s db = chunk-Ends c s gs _ (
      full-Ends (take_chunk decode c s) gs db
        (leb flush_size (length (s.buffer ++ row_of decode c ∷ []))) (drain_lossless gs))

-- No bulk_create call is given more than FLUSH_SIZE rows.
abbrev pub IsSmall : List Row → Type 0
IsSmall b = length b ≤ flush_size

batches-Flushed :
    (s : Sink) (o : Outcome)
    → Flushed s o
    → All IsSmall s.batches
    → length s.buffer ≤ flush_size
    → All IsSmall (sink_of o).batches
batches-Flushed s _ (nothing db e) h k = h
batches-Flushed s _ (written t db a b c d) h k =
    rw b (All-append IsSmall s.batches (s.buffer ∷ []) h (k, tt))
batches-Flushed s _ (gave_up t db a b c d) h k = rw b h

module _ (decode : List ℕ → String) where
  abbrev pub AllSmall : Option Outcome → Type 0
  AllSmall none = Unit
  AllSmall (some o) = All IsSmall (sink_of o).batches

  then-small :
      (s : Sink) (gs : List Got) (o : Outcome)
      → Flushed s o
      → All IsSmall s.batches
      → length s.buffer ≤ flush_size
      → ((t : Sink) (db : List Bool)
          → All IsSmall t.batches
          → length t.buffer < flush_size
          → AllSmall (drain decode gs t db))
      → AllSmall (o then drain decode gs)
  then-small s gs _ (nothing db e) h k rest = rest s db h (rw e (omega arith))
  then-small s gs _ (written t db a b c d) h k rest =
      rest t db (batches-Flushed s _ (written t db a b c d) h k) (rw a (omega arith))
  then-small s gs _ (gave_up t db a b c d) h k rest = rw b h

  full-small :
      (s : Sink) (gs : List Got) (db : List Bool)
      → All IsSmall s.batches
      → length s.buffer ≤ flush_size
      → ((t : Sink) (db : List Bool)
          → All IsSmall t.batches
          → length t.buffer < flush_size
          → AllSmall (drain decode gs t db))
      → (b : Bool) → leb flush_size (length s.buffer) ≡ b
      → AllSmall ((if b then flush_buffer s db else returned s db) then drain decode gs)
  full-small s gs db h k rest true e =
      then-small s gs (flush_buffer s db) (flush_buffer-Flushed s db) h k rest
  full-small s gs db h k rest false e = rest s db h (ground arith)

  -- Every bulk_create call of a drain that starts with fewer than FLUSH_SIZE rows in the buffer gets
  -- at most FLUSH_SIZE rows, however it ends.
  pub drain_batches :
      (gs : List Got) (s : Sink) (db : List Bool)
      → All IsSmall s.batches
      → length s.buffer < flush_size
      → AllSmall (drain decode gs s db)
  unfolding drain
  drain_batches [] s db h k = tt
  drain_batches (empty ∷ gs) s db h k =
      then-small s gs (flush_buffer s db) (flush_buffer-Flushed s db) h (omega arith)
        (drain_batches gs)
  drain_batches (sentinel ∷ gs) s db h k =
      batches-Flushed s (flush_buffer s db) (flush_buffer-Flushed s db) h (omega arith)
  drain_batches (chunk c ∷ gs) s db h k =
      full-small (take_chunk decode c s) gs db h
        (omega (arith, length-append s.buffer (row_of decode c ∷ []))) (drain_batches gs) _ refl
