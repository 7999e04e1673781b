-- ===== src/Stream/Sse.antt =====
-- `event_generator` of src/agent_on_demand/views/sessions/stream.py: the frames on the wire.
use agent_on_demand.Prelude.{
  ℕ, Bool, true, false, List, [], ◌∷◌, ◌++◌, if◌then◌else◌, ◌&&◌, not, ◌==◌,
}
use agent_on_demand.Stream.{Event, EventType}
use agent_on_demand.Stream.Tail.{Yield, event, heartbeat}

pub data Frame : Type 0 where
  -- `: heartbeat`, `id: …`, `data: …`.
  comment : Frame
  id_line : ℕ → Frame
  data_line : Event → Frame

abbrev pub is_turn_start : EventType → Bool
is_turn_start EventType.turn_start = true
is_turn_start _ = false

unfoldable pub frames : List Yield → List Frame
frames [] = []
frames (heartbeat ∷ ys) = comment ∷ frames ys
frames (event e ∷ ys) =
    (if not (e.id == 0) && not (is_turn_start e.type)
      then id_line e.id ∷ data_line e ∷ []
      else data_line e ∷ [])
    ++ frames ys

-- The cursors that a client remembers for Last-Event-ID.
unfoldable pub cursors : List Frame → List ℕ
cursors [] = []
cursors (id_line n ∷ fs) = n ∷ cursors fs
cursors (_ ∷ fs) = cursors fs
