-- ===== src/Client.antt =====
-- The Python SDK's side of an event stream: clients/python/src/aod/stream.py and `stream_resumable` of
-- clients/python/src/aod/resources/sessions.py. A connection is what the server's response makes of the
-- cursor: the events that arrive, and whether it then closes or drops with one of the four exceptions
-- of the HTTP library that the loop catches.
pub mod Mounts
pub mod Served
pub mod Resumes
use agent_on_demand.Prelude.{
  ℕ, ◌+◌, ltb, Bool, true, false, Option, none, some, List, [], ◌∷◌, ◌++◌, if◌then◌else◌,
}
use agent_on_demand.Stream.{Event}

-- A StreamEvent: the opening `start` event, which has no id, or an event of the tail.
pub data Received : Type 0 where
  start : Received
  tailed : Event → Received

abbrev pub id_of : Received → Option ℕ
id_of start = none
id_of (tailed e) = some e.id

pub data End : Type 0 where
  closed dropped : End

abbrev pub Connection : Type 0
Connection = Option ℕ → List Received × End

-- `if event.id is not None: cursor = event.id`, for each event.
abbrev pub seen : Option ℕ → Option ℕ → Option ℕ
seen none cursor = cursor
seen (some id) cursor = some id

unfoldable pub remembered : List Received → Option ℕ → Option ℕ
remembered [] cursor = cursor
remembered (e ∷ es) cursor = remembered es (seen (id_of e) cursor)

-- An event resets the number of consecutive failures.
abbrev pub failures : List Received → ℕ → ℕ
failures [] attempt = attempt
failures (e ∷ es) attempt = 0

pub data Outcome : Type 0 where
  returned raised waiting : Outcome

abbrev pub prepend : List Received → List Received × Outcome → List Received × Outcome
prepend es (more, o) = (es ++ more, o)

-- The loop over the connections that are made; `waiting` when no more are given.
unfoldable pub stream_resumable : ℕ → ℕ → List Connection → Option ℕ → List Received × Outcome
stream_resumable max_retries attempt [] cursor = ([], waiting)
stream_resumable max_retries attempt (k ∷ ks) cursor =
    let (es, end) = k cursor in
    let attempt = failures es attempt + 1 in
    let rest = stream_resumable max_retries attempt ks (remembered es cursor) in
    elim end [
      | closed ↦ (es, returned)
      | dropped ↦ if ltb max_retries attempt then (es, raised) else prepend es rest
    ]
