-- ===== src/Client/Served.antt =====
-- What a client of views/sessions/stream.py receives over the tail of src/agent_on_demand/stream.py.
use agent_on_demand.Prelude.{
  ℕ, zero, suc, ◌<◌, ◌≤◌, ltb, leb, ◌-◌, ◌&&◌, Bool, ℤ, ◌≡◌, refl, ap, ◌∙◌, Option, none, some,
  List, [], ◌∷◌, ◌++◌, take, All, All-append, arith, Bool-cases, inl, inr, select,
}
use agent_on_demand.State.{Status}
use agent_on_demand.Store.{LogKind}
use agent_on_demand.Stream.{
  LogRow, Event, EventType, format_terminal_event, format_chunk_events, format_by_kind, starts_turn,
  turn_start_event, output_event,
}
use agent_on_demand.Stream.Tail.{
  after, emit, Round, Cursor, Yield, event, heartbeat, Next, goes_on, breaks, raises, tail, round,
  yields, page, end_checks, idle_checks, closing_event, advanced, is_empty, is_final,
  stream_idle_limit,
}
use agent_on_demand.Stream.Resume.{Above, after_all}
use agent_on_demand.Client.{Received, start, tailed, End, closed, dropped, Connection}

-- `max(0, int(raw))` of views/sessions/stream.py.
abbrev pub since : Option ℕ → ℕ
since none = 0
since (some n) = n

abbrev pub received : List Event → List Received
received [] = []
received (e ∷ es) = tailed e ∷ received es

-- The events of what the server yields; a heartbeat is a comment to the client.
abbrev pub events_of : List Yield → List Event
events_of [] = []
events_of (event e ∷ ys) = e ∷ events_of ys
events_of (heartbeat ∷ ys) = events_of ys

-- The tail's cursor at a connection, `now` on the clock.
abbrev pub fresh : ℕ → ℕ → Cursor
fresh now since = record {
  last_id = since;
  last_turn_id = none;
  last_heartbeat = now;
  last_chunk_time = now;
}

-- A response ends properly where the generator breaks; one that raises or is cut off drops.
abbrev pub end_of : Next → End
end_of breaks = closed
end_of raises = dropped
end_of (goes_on c) = dropped

-- The server's answer over the rounds that its loop sees: the start event, and the events of the tail from
-- the client's cursor, the closing one included. `some n` is a connection that drops behind `n` of them.
unfoldable pub served : List Round → ℕ → Option ℕ → Connection
served rs now none cursor =
    let (ys, next) = tail rs (fresh now (since cursor)) in
    (start ∷ received (events_of ys), end_of next)
served rs now (some n) cursor =
    (start ∷ received (take n (events_of (tail rs (fresh now (since cursor))).0)), dropped)

-- It is no output of the row with this id.
abbrev pub IsOther : ℕ → Event → Type 0
IsOther id e = ¬ ((e.type ≡ EventType.output) × (e.id ≡ id))

pub All-take : {A : Type 0} (P : A → Type 0) (n : ℕ) (xs : List A) → All P xs → All P (take n xs)
All-take P zero xs h = tt
All-take P (suc n) [] h = tt
All-take P (suc n) (x ∷ xs) h = (h.0, All-take P n xs h.1)

events_of-append : (xs ys : List Yield) → events_of (xs ++ ys) ≡ events_of xs ++ events_of ys
events_of-append [] ys = refl
events_of-append (event e ∷ xs) ys = ap (λ es. e ∷ es) (events_of-append xs ys)
events_of-append (heartbeat ∷ xs) ys = events_of-append xs ys

events_of-yields : (es : List Event) → events_of (yields es) ≡ es
events_of-yields [] = refl
events_of-yields (e ∷ es) = ap (λ t. e ∷ t) (events_of-yields es)

-- All rows stand after the id.
abbrev Later : ℕ → List LogRow → Type 0
Later id rs = All (λ (r : LogRow). id < r.id) rs

after-Later : (id last : ℕ) (rs : List LogRow) → id ≤ last → Later id (after last rs)
unfolding after select
after-Later id last [] h = tt
after-Later id last (r ∷ rs) h = elim (Bool-cases (ltb last r.id)) [
  | inl e ↦ rw e (ground (arith, h, e), after-Later id last rs h)
  | inr e ↦ rw e (after-Later id last rs h)
]

kind-IsOther :
    (id : ℕ) (t : Option ℕ) (r : LogRow) (kind : LogKind)
    → id < r.id
    → All (IsOther id) (format_by_kind kind r t).0
kind-IsOther id t r LogKind.stage h = ((λ p. omega (arith, h, p.1)), tt)
kind-IsOther id t r LogKind.output h = elim (Bool-cases (starts_turn r.turn_id t)) [
  | inl e ↦ rw e ((λ p. omega (arith, h, p.1)), ((λ p. omega (arith, h, p.1)), tt))
  | inr e ↦ rw e ((λ p. omega (arith, h, p.1)), tt)
]

emit-IsOther :
    (id last : ℕ) (t : Option ℕ) (rs : List LogRow)
    → Later id rs
    → id ≤ last
    → All (IsOther id) (emit rs last t).0 × (id ≤ (emit rs last t).1)
unfolding emit format_chunk_events
emit-IsOther id last t [] a h = (tt, h)
emit-IsOther id last t (r ∷ rs) a h =
    let rest = emit-IsOther id r.id (format_by_kind r.kind r t).1 rs a.1 (omega (arith, a.0)) in
    (
      All-append (IsOther id) (format_by_kind r.kind r t).0 _ (kind-IsOther id t r r.kind a.0)
          rest.0,
      rest.1,
    )

-- Where the loop goes on, it stands at the id or past it.
abbrev Kept : ℕ → Next → Type 0
Kept id (goes_on d) = id ≤ d.last_id
Kept id breaks = Unit {0}
Kept id raises = Unit {0}

abbrev Passed : ℕ → List Yield × Next → Type 0
Passed id (ys, next) = All (IsOther id) (events_of ys) × Kept id next

terminal-Passed :
    (id last : ℕ) (status : Status) (code : Option ℤ)
    → Passed id (closing_event (format_terminal_event status code last))
unfolding format_terminal_event
terminal-Passed id last Status.terminated code = (((λ p. absurd (cc (p.0))), tt), tt)
terminal-Passed id last Status.failed none = (((λ p. absurd (cc (p.0))), tt), tt)
terminal-Passed id last Status.failed (some c) = (((λ p. absurd (cc (p.0))), tt), tt)
terminal-Passed id last Status.completed code = (((λ p. absurd (cc (p.0))), tt), tt)
terminal-Passed id last Status.pending code = (tt, tt)
terminal-Passed id last Status.running code = (tt, tt)

idle-Passed : (id : ℕ) (r : Round) (c : Cursor) → id ≤ c.last_id → Passed id (idle_checks r c)
idle-Passed id r c h = elim (Bool-cases (ltb stream_idle_limit (r.now - c.last_chunk_time))) [
  | inl e ↦ rw e (((λ p. absurd (cc (p.0))), tt), tt)
  | inr e ↦ elim (Bool-cases (leb 15 (r.now - c.last_heartbeat))) [
    | inl b ↦ rw (e, b) (tt, h)
    | inr b ↦ rw (e, b) (tt, h)
  ]
]

end-Passed :
    (id : ℕ) (o : Option (Status × Option ℤ)) (no_chunks : Bool) (r : Round) (c : Cursor)
    → id ≤ c.last_id
    → Passed id (end_checks o no_chunks r c)
end-Passed id none no_chunks r c h = (tt, tt)
end-Passed id (some (status, code)) no_chunks r c h =
    elim (Bool-cases (is_final status && no_chunks)) [
      | inl e ↦ rw e (terminal-Passed id c.last_id status code)
      | inr e ↦ rw e (idle-Passed id r c h)
    ]

round-Passed : (id : ℕ) (r : Round) (c : Cursor) → id ≤ c.last_id → Passed id (round r c)
unfolding round
round-Passed id r c h =
    let chunks = take page (after c.last_id r.rows) in
    let rows =
      All-take (λ (r : LogRow). id < r.id) page (after c.last_id r.rows)
        (after-Later id c.last_id r.rows h) in
    let (others, reached) = emit-IsOther id c.last_id c.last_turn_id chunks rows h in
    let end = end-Passed id r.session (is_empty chunks) r (advanced r c chunks) reached in
    (
      rw
          (
            events_of-append (yields (emit chunks c.last_id c.last_turn_id).0)
                (end_checks r.session (is_empty chunks) r (advanced r c chunks)).0,
            events_of-yields (emit chunks c.last_id c.last_turn_id).0,
          )
          (All-append (IsOther id) (emit chunks c.last_id c.last_turn_id).0 _ others end.0),
      end.1,
    )

-- What the tail makes of a round, by how the round ends.
abbrev followed : List Round → List Yield → Next → List Yield × Next
followed rs ys (goes_on d) = let rest = tail rs d in (ys ++ rest.0, rest.1)
followed rs ys breaks = (ys, breaks)
followed rs ys raises = (ys, raises)

followed-IsOther :
    (id : ℕ) (rs : List Round) (ys : List Yield) (next : Next)
    → ((d : Cursor) → id ≤ d.last_id → All (IsOther id) (events_of (tail rs d).0))
    → Passed id (ys, next)
    → All (IsOther id) (events_of (followed rs ys next).0)
followed-IsOther id rs ys (goes_on d) later p =
    rw (events_of-append ys (tail rs d).0)
      (All-append (IsOther id) (events_of ys) _ p.0 (later d p.1))
followed-IsOther id rs ys breaks later p = p.0
followed-IsOther id rs ys raises later p = p.0

-- From a row's id on, the tail sends no output of that row.
pub tail-IsOther :
    (id : ℕ) (rs : List Round) (c : Cursor)
    → id ≤ c.last_id
    → All (IsOther id) (events_of (tail rs c).0)
unfolding tail
tail-IsOther id [] c h = tt
tail-IsOther id (r ∷ rs) c h =
    followed-IsOther id rs (round r c).0 (round r c).1 (tail-IsOther id rs) (round-Passed id r c h)

turn_events :
    (c : LogRow) (t : ℕ)
    → c.kind ≡ LogKind.output
    → c.turn_id ≡ some t
    → (format_chunk_events c none).0 ≡ turn_start_event c ∷ output_event c ∷ []
unfolding format_chunk_events
turn_events c t k h = rw (k, h) refl

first_emitted :
    (c : LogRow) (rest : List LogRow) (t : ℕ)
    → c.kind ≡ LogKind.output
    → c.turn_id ≡ some t
    → (more : List Event) × ((emit (c ∷ rest) 0 none).0 ≡ turn_start_event c ∷ more)
unfolding emit
first_emitted c rest t k h =
    let later = (emit rest c.id (format_chunk_events c none).1).0 in
    (output_event c ∷ later, ap (λ es. es ++ later) (turn_events c t k h))

first_followed :
    (rs : List Round) (ys : List Yield) (next : Next) (e : Event) (more : List Event)
    → events_of ys ≡ e ∷ more
    → take 1 (events_of (followed rs ys next).0) ≡ e ∷ []
first_followed rs ys (goes_on d) e more h = rw (events_of-append ys (tail rs d).0, h) refl
first_followed rs ys breaks e more h = rw h refl
first_followed rs ys raises e more h = rw h refl

-- The first event of a tail from the beginning, where the first row starts a turn.
pub first_event :
    (first : Round) (rs : List Round) (now : ℕ) (c : LogRow) (rest : List LogRow) (t : ℕ)
    → first.rows ≡ c ∷ rest
    → Above 0 (c ∷ rest)
    → c.kind ≡ LogKind.output
    → c.turn_id ≡ some t
    → take 1 (events_of (tail (first ∷ rs) (fresh now 0)).0) ≡ turn_start_event c ∷ []
unfolding round tail
first_event first rs now c rest t rows a k h =
    let chunks = take page (after 0 first.rows) in
    let seen : chunks ≡ c ∷ take 99 rest =
      ap (λ rows. take page (after 0 rows)) rows ∙ ap (take page) (after_all 0 (c ∷ rest) a) in
    let (more, begins) = first_emitted c (take 99 rest) t k h in
    let out =
      (end_checks first.session (is_empty chunks) first (advanced first (fresh now 0) chunks)).0 in
    first_followed rs (round first (fresh now 0)).0 (round first (fresh now 0)).1
      (turn_start_event c) (more ++ events_of out)
      (events_of-append (yields (emit chunks 0 none).0) out
        ∙ ap (λ es. es ++ events_of out)
            (events_of-yields (emit chunks 0 none).0
              ∙ ap (λ rows. (emit rows 0 none).0) seen
              ∙ begins))
