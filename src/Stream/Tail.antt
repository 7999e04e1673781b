-- ===== src/Stream/Tail.antt =====
-- The polling loop of src/agent_on_demand/stream.py: each round sees the rows, the session and the clock
-- of its moment.
use agent_on_demand.Prelude.{
  ℕ, ◌-◌, ltb, leb, Bool, true, false, ◌&&◌, Option, none, some, List, [], ◌∷◌, ◌++◌, ℤ,
  if◌then◌else◌, select, take,
}
use agent_on_demand.State.{Status}
use agent_on_demand.Json.{str}
use agent_on_demand.Stream.{
  LogRow, Event, EventType, format_event, format_chunk_events, format_terminal_event,
}

abbrev pub stream_idle_limit : ℕ
stream_idle_limit = 600

abbrev pub page : ℕ
page = 100

-- What one round reads: the session's rows by id, its status and exit code (`none` if the row is
-- gone), and the clock in seconds, first where chunks are noted and then for `now`.
pub record Round : Type 0 where
  pub rows : List LogRow
  pub session : Option (Status × Option ℤ)
  pub chunk_time : ℕ
  pub now : ℕ

pub record Cursor : Type 0 where
  pub last_id : ℕ
  pub last_turn_id : Option ℕ
  pub last_heartbeat : ℕ
  pub last_chunk_time : ℕ

-- What the generator yields; "" is a heartbeat.
pub data Yield : Type 0 where
  event : Event → Yield
  heartbeat : Yield

-- `filter(id__gt=last_id).order_by("id")`.
unfoldable pub after : ℕ → List LogRow → List LogRow
after last rows = select (λ r. ltb last r.id) rows

-- The inner loop: the events of the rows, and the id and turn of the last.
unfoldable pub emit : List LogRow → ℕ → Option ℕ → List Event × ℕ × Option ℕ
emit [] last_id last_turn = ([], last_id, last_turn)
emit (c ∷ cs) last_id last_turn =
    let here = format_chunk_events c last_turn in
    let rest = emit cs c.id here.1 in (here.0 ++ rest.0, rest.1, rest.2)

abbrev pub yields : List Event → List Yield
yields [] = []
yields (e ∷ es) = event e ∷ yields es

-- `status in ("completed", "failed", "terminated")`.
abbrev pub is_final : Status → Bool
is_final Status.completed = true
is_final Status.failed = true
is_final Status.terminated = true
is_final _ = false

abbrev pub is_empty : List LogRow → Bool
is_empty [] = true
is_empty (c ∷ cs) = false

-- How a round ends: sleep and go on, break, or raise (the row is gone, or the assert failed).
pub data Next : Type 0 where
  goes_on : Cursor → Next
  breaks raises : Next

abbrev stale_event : ℕ → Event
stale_event last_id =
    format_event EventType.stale last_id (("message", str "No output for 600s") ∷ [])

-- The checks of a round below the session's status.
abbrev pub idle_checks : Round → Cursor → List Yield × Next
idle_checks r c =
    if ltb stream_idle_limit (r.now - c.last_chunk_time)
    then (event (stale_event c.last_id) ∷ [], breaks)
    else if leb 15 (r.now - c.last_heartbeat)
    then (heartbeat ∷ [], goes_on (record c { last_heartbeat = r.now }))
    else ([], goes_on c)

-- The terminal event; the assert that there is one.
abbrev pub closing_event : Option Event → List Yield × Next
closing_event none = ([], raises)
closing_event (some e) = (event e ∷ [], breaks)

abbrev pub end_checks : Option (Status × Option ℤ) → Bool → Round → Cursor → List Yield × Next
end_checks none no_chunks r c = ([], raises)
end_checks (some (status, exit_code)) no_chunks r c =
    if is_final status && no_chunks
    then closing_event (format_terminal_event status exit_code c.last_id)
    else idle_checks r c

-- The cursor past the chunks of a round.
abbrev pub advanced : Round → Cursor → List LogRow → Cursor
advanced r c chunks =
    let out = emit chunks c.last_id c.last_turn_id in
    record c {
      last_id = out.1;
      last_turn_id = out.2;
      last_chunk_time = if is_empty chunks then c.last_chunk_time else r.chunk_time;
    }

unfoldable pub round : Round → Cursor → List Yield × Next
round r c =
    let chunks = take page (after c.last_id r.rows) in
    let (out, next) = end_checks r.session (is_empty chunks) r (advanced r c chunks) in
    (yields (emit chunks c.last_id c.last_turn_id).0 ++ out, next)

-- The `while True` over the rounds that are seen.
unfoldable pub tail : List Round → Cursor → List Yield × Next
tail [] c = ([], goes_on c)
tail (r ∷ rs) c = elim (round r c).1 [
  | goes_on d ↦ let rest = tail rs d in ((round r c).0 ++ rest.0, rest.1)
  | breaks ↦ ((round r c).0, breaks)
  | raises ↦ ((round r c).0, raises)
]
