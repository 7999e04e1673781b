-- ===== src/LogSink/Queue.antt =====
-- TaggingQueueWriter against the bounded queue: the two writers, the sentinel and the drain's gets.
use agent_on_demand.Prelude.{
  ℕ, ◌+◌, ◌≤◌, ◌≡◌, refl, Bool, Option, none, some, List, [], ◌∷◌, ◌++◌, arith, ltb, leb,
  if◌then◌else◌, length, length-append,
}
use agent_on_demand.LogSink.{StreamName, stdout, stderr, Chunk, queue_maxsize}

pub data Item : Type 0 where
  tagged : Chunk → Item
  sentinel : Item

pub record Pipe : Type 0 where
  pub queue : List Item
  pub stdout_drops : ℕ
  pub stderr_drops : ℕ

-- A put: of a queue that is full it waits, and its last try before the timeout is the one seen here.
abbrev pub has_room : Pipe → Bool
has_room p = ltb (length p.queue) queue_maxsize

abbrev pub count_drop : StreamName → Pipe → Pipe
count_drop stdout p = record p { stdout_drops = p.stdout_drops + 1 }
count_drop stderr p = record p { stderr_drops = p.stderr_drops + 1 }

-- `write`: the bytes count as written also where the chunk is dropped.
unfoldable pub write : StreamName → List ℕ → Pipe → Pipe × ℕ
write stream bytes p = (
  (if has_room p
      then record p { queue = p.queue ++ tagged (record { stream = stream; bytes = bytes }) ∷ [] }
      else count_drop stream p),
  length bytes,
)

-- `put_sentinel` has no timeout: it happens once there is room.
unfoldable pub put_sentinel : Pipe → Option Pipe
put_sentinel p = if has_room p then some (record p { queue = p.queue ++ sentinel ∷ [] }) else none

-- `get`: `none` is queue.Empty.
unfoldable pub get_item : Pipe → Option (Item × Pipe)
get_item p = elim p.queue [ [] ↦ none | i ∷ is ↦ some (i, record p { queue = is }) ]

unfoldable pub total_drop_count : Pipe → ℕ
total_drop_count p = p.stdout_drops + p.stderr_drops

-- `report_drops`: the dropped_count of its event, if it sends one.
unfoldable pub report_drops : Pipe → Option ℕ
unfolding total_drop_count
report_drops p = if leb (total_drop_count p) 0 then none else some (total_drop_count p)

-- The moves of the command thread and of the drain thread, in the order of the queue's lock.
pub data Move : Type 0 where
  writes : StreamName → List ℕ → Move
  gets : Move

-- The pipe with what the drain has got, and the number of writes.
pub record Trace : Type 0 where
  pub pipe : Pipe
  pub got : List Item
  pub writes : ℕ

unfoldable pub move : Move → Trace → Trace
unfolding write get_item
move (writes stream bytes) t = record t {
  pipe = (write stream bytes t.pipe).0;
  writes = t.writes + 1;
}
move gets t = elim (get_item t.pipe) [
  | none ↦ t
  | some (i, p) ↦ record t { pipe = p; got = t.got ++ i ∷ [] }
]

unfoldable pub moves : List Move → Trace → Trace
moves [] t = t
moves (m ∷ ms) t = moves ms (move m t)

abbrev pub start : Trace
start = record {
  pipe = record { queue = []; stdout_drops = 0; stderr_drops = 0 };
  got = [];
  writes = 0;
}

pub record Balanced (t : Trace) : Type 0 where
  pub bounded : length t.pipe.queue ≤ queue_maxsize
  pub accounted : t.writes ≡ length t.got + length t.pipe.queue + total_drop_count t.pipe

move-Balanced : (m : Move) (t : Trace) → Balanced t → Balanced (move m t)
unfolding move total_drop_count
move-Balanced (writes stdout bytes) t b =
    ground
      (arith, length-append t.pipe.queue (tagged (record { stream = stdout; bytes = bytes }) ∷ []))
move-Balanced (writes stderr bytes) t b =
    ground
      (arith, length-append t.pipe.queue (tagged (record { stream = stderr; bytes = bytes }) ∷ []))
move-Balanced gets t b = gets-Balanced t t.pipe.queue b refl
  where
    gets-Balanced :
        (t : Trace) (q : List Item) → Balanced t → t.pipe.queue ≡ q → Balanced (move gets t)
    gets-Balanced t [] b e = ground arith
    gets-Balanced t (i ∷ is) b e = ground (arith, length-append t.got (i ∷ []))

moves-Balanced : (ms : List Move) (t : Trace) → Balanced t → Balanced (moves ms t)
unfolding moves
moves-Balanced [] t b = b
moves-Balanced (m ∷ ms) t b = moves-Balanced ms (move m t) (move-Balanced m t b)

-- In any interleaving of writes and gets the queue holds at most QUEUE_MAXSIZE chunks, and each write
-- is accounted for once: got by the drain, still queued, or counted as dropped.
pub every_write_accounted : (ms : List Move) → Balanced (moves ms start)
unfolding total_drop_count
every_write_accounted ms =
    moves-Balanced ms start (record { bounded = omega arith; accounted = refl })
