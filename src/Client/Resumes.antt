-- ===== src/Client/Resumes.antt =====
-- A client of clients/python/src/aod that reconnects to the tail of src/agent_on_demand/stream.py.
use mathlib.Core.List.{append-nil}
use agent_on_demand.Prelude.{
  ℕ, ◌+◌, ltb, ◌≡◌, refl, ap, ◌∙◌, true, false, Option, none, some, List, [], ◌∷◌, ◌++◌, take,
  length, All, arith, if◌then◌else◌,
}
use agent_on_demand.Store.{LogKind}
use agent_on_demand.Stream.{LogRow, Event, turn_start_event}
use agent_on_demand.Stream.Tail.{Round, tail}
use agent_on_demand.Stream.Resume.{Above}
use agent_on_demand.Client.{
  Received, start, tailed, End, closed, dropped, Connection, remembered, failures, Outcome,
  returned, raised, waiting, prepend, stream_resumable,
}
use agent_on_demand.Client.Served.{
  received, served, events_of, fresh, end_of, IsOther, All-take, tail-IsOther, first_event,
}

-- A connection that drops before its first event, whatever the cursor.
abbrev pub Silent : Connection → Type 0
Silent k = (cursor : Option ℕ) → k cursor ≡ ([], dropped)

connected :
    (max attempt : ℕ) (k : Connection) (ks : List Connection) (cursor : Option ℕ)
    (p : List Received × End)
    → k cursor ≡ p
    → stream_resumable max attempt (k ∷ ks) cursor ≡ (elim p.1 as (λ x. List Received × Outcome) [
      | closed ↦ (p.0, returned)
      | dropped ↦
          if ltb max (failures p.0 attempt + 1)
          then (p.0, raised)
          else prepend p.0
              (stream_resumable max (failures p.0 attempt + 1) ks (remembered p.0 cursor))
    ])
unfolding stream_resumable remembered
connected max attempt k ks cursor p h =
    ap
      (λ (p : List Received × End). elim p.1 as (λ x. List Received × Outcome) [
        | closed ↦ (p.0, returned)
        | dropped ↦
            if ltb max (failures p.0 attempt + 1)
            then (p.0, raised)
            else prepend p.0
                (stream_resumable max (failures p.0 attempt + 1) ks (remembered p.0 cursor))
      ])
      h

silent_step :
    (max attempt : ℕ) (k : Connection) (ks : List Connection) (cursor : Option ℕ)
    → k cursor ≡ ([], dropped)
    → stream_resumable max attempt (k ∷ ks) cursor ≡ (
        if ltb max (attempt + 1)
        then ([], raised)
        else prepend [] (stream_resumable max (attempt + 1) ks cursor))
unfolding remembered
silent_step max attempt k ks cursor h = connected max attempt k ks cursor ([], dropped) h

-- After `attempt` failures in a row, as many further connections without an event as are left make the
-- client raise, and not one earlier: with all but the last of them it still waits.
pub stream_resumable_raises :
    (max attempt : ℕ) (ks : List Connection) (k : Connection) (cursor : Option ℕ)
    → All Silent ks
    → Silent k
    → length ks + attempt ≡ max
    → (stream_resumable max attempt (ks ++ k ∷ []) cursor ≡ ([], raised))
      × (stream_resumable max attempt ks cursor ≡ ([], waiting))
unfolding stream_resumable
stream_resumable_raises max attempt [] k cursor hs h e =
    let over : ltb max (attempt + 1) ≡ true = ground arith in
    (silent_step max attempt k [] cursor (h cursor) ∙ rw over refl, refl)
stream_resumable_raises max attempt (q ∷ qs) k cursor hs h e =
    let rest = stream_resumable_raises max (attempt + 1) qs k cursor hs.1 h (omega arith) in
    let goes : ltb max (attempt + 1) ≡ false = ground arith in
    (
      silent_step max attempt q (qs ++ k ∷ []) cursor (hs.0 cursor)
          ∙ rw goes (ap (prepend []) rest.0),
      silent_step max attempt q qs cursor (hs.0 cursor) ∙ rw goes (ap (prepend []) rest.1),
    )

-- The last of the connections: a client that has not used up its retries.
outcome_of : End → Outcome
outcome_of closed = returned
outcome_of dropped = waiting

last_connection :
    (k : Connection) (cursor : Option ℕ) (es : List Event) (end : End)
    → k cursor ≡ (start ∷ received es, end)
    → stream_resumable 3 1 (k ∷ []) cursor ≡ (start ∷ received es, outcome_of end)
unfolding stream_resumable outcome_of
last_connection k cursor es closed h = connected 3 1 k [] cursor _ h
last_connection k cursor es dropped h = connected 3 1 k [] cursor _ h ∙ rw append-nil refl

-- What a connection from a row's id brings.
second_served :
    (id : ℕ) (qs : List Round) (later : ℕ) (cut : Option ℕ)
    → (more : List Event) × (end : End) × (served qs later cut (some id)
        ≡ (start ∷ received more, end))
      × All (IsOther id) more
unfolding served
second_served id qs later none =
    let others = tail-IsOther id qs (fresh later id) (omega arith) in
    (events_of (tail qs (fresh later id)).0, end_of (tail qs (fresh later id)).1, refl, others)
second_served id qs later (some n) =
    let others = tail-IsOther id qs (fresh later id) (omega arith) in
    let es = events_of (tail qs (fresh later id)).0 in
    (take n es, dropped, refl, All-take (IsOther id) n es others)

-- The first row `c` of a session is output that starts a turn, so the server sends a `turn_start` event and
-- an `output` event, both with the id of `c`. If the connection drops between the two, the client
-- reconnects with that id, and then no output with this id comes: the output of `c` is lost, whatever the
-- server's loop sees from then on, and whether the second connection is closed by it or drops anywhere.
pub stream_resumable_skips :
    (first : Round) (rs qs : List Round) (now later : ℕ) (cut : Option ℕ) (c : LogRow)
    (rest : List LogRow) (t : ℕ)
    → first.rows ≡ c ∷ rest
    → Above 0 (c ∷ rest)
    → c.kind ≡ LogKind.output
    → c.turn_id ≡ some t
    → (more : List Event) × (outcome : Outcome) × (stream_resumable 3 0
          (served (first ∷ rs) now (some 1) ∷ served qs later cut ∷ [])
          none
        ≡ (start ∷ tailed (turn_start_event c) ∷ start ∷ received more, outcome))
      × All (IsOther c.id) more
unfolding served remembered
stream_resumable_skips first rs qs now later cut c rest t rows a k h =
    let (more, end, second, others) = second_served c.id qs later cut in
    (
      more,
      outcome_of end,
      connected 3 0 (served (first ∷ rs) now (some 1)) (served qs later cut ∷ []) none _ (
            ap (λ es. (start ∷ received es, dropped))
              (first_event first rs now c rest t rows a k h))
          ∙ ap (prepend (start ∷ tailed (turn_start_event c) ∷ []))
              (last_connection (served qs later cut) (some c.id) more end second),
      others,
    )
