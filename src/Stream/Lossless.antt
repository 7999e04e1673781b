-- ===== src/Stream/Lossless.antt =====
-- Over all rounds of src/agent_on_demand/stream.py, and over reconnects.
use mathlib.Core.List.{append-nil, append_assoc, map-append}
use agent_on_demand.Prelude.{
  ℕ, ◌≤◌, ltb, leb, ◌-◌, ◌≡◌, ◌&&◌, ℤ, refl, ◌∙◌, ap, Bool, true, false, Option, none, some, List,
  [], ◌∷◌, ◌++◌, arith, if◌then◌else◌, take, length, All, Bool-cases, inl, inr,
}
use agent_on_demand.State.{Status}
use agent_on_demand.Stream.{LogRow, Event, format_terminal_event}
use agent_on_demand.Stream.Tail.{
  after, emit, yields, Yield, Round, Cursor, Next, goes_on, breaks, raises, is_empty, is_final,
  advanced, closing_event, idle_checks, end_checks, round, tail, page, stream_idle_limit,
}
use agent_on_demand.Stream.Sse.{frames, cursors}
use agent_on_demand.Stream.Resume.{
  Above, ids, last_of, pages, take-drop, emit-last_of, emit-cursors, after-append, Above-after,
  frames-append,
}

-- A round sees a first part of the rows that are there in the end.
abbrev pub Sees : List LogRow → Round → Type 0
Sees all r = (later : List LogRow) × (all ≡ r.rows ++ later)

-- What a stream from cursor `c` has delivered when it yields `out`: if it goes on, the cursors of its
-- frames are the ids after `c`, in order, up to those that come after its new cursor; if it ends, they
-- are a first part of them, and then at most one event follows that is no row's.
abbrev pub Delivers : List LogRow → Cursor → List Yield → Next → Type 0
Delivers all c out (goes_on d) =
    ids (after c.last_id all) ≡ cursors (frames out) ++ ids (after d.last_id all)
Delivers all c out _ =
    (body : List Yield) × (closing : List Yield) × (rest : List ℕ) × (out ≡ body ++ closing)
    × (length closing ≤ 1)
    × (ids (after c.last_id all) ≡ cursors (frames body) ++ rest)

page_of : Round → Cursor → List LogRow
page_of r c = take page (after c.last_id r.rows)

module _ (all : List LogRow) (rising : Above 0 all) where
  -- The rows of a page, and those that remain.
  page-after :
      (r : Round) (c : Cursor)
      → Sees all r
      → after c.last_id all ≡ page_of r c ++ after (last_of c.last_id (page_of r c)) all
  unfolding page_of
  page-after r c (later, e) =
      let (rest, d) = take-drop page (after c.last_id r.rows) in
      pages c.last_id all (page_of r c) (rest ++ after c.last_id later) rising (
        rw (e, after-append c.last_id r.rows later)
          (ap (λ (xs : List LogRow). xs ++ after c.last_id later) d
            ∙ append_assoc (page_of r c) rest (after c.last_id later)))

  page-cursors :
      (r : Round) (c : Cursor)
      → Sees all r
      → cursors (frames (yields (emit (page_of r c) c.last_id c.last_turn_id).0))
        ≡ ids (page_of r c)
  page-cursors r c s = emit-cursors (page_of r c) c.last_id c.last_id c.last_turn_id (
      Above-left c.last_id (page_of r c) _
        (rw (page-after r c s) at (Above-after c.last_id 0 all rising)))
    where
      Above-left : (k : ℕ) (xs ys : List LogRow) → Above k (xs ++ ys) → Above k xs
      Above-left k [] ys a = tt
      Above-left k (x ∷ xs) ys a = (a.0, Above-left x.id xs ys a.1)

-- The end of a round at cursor `c`: to go on it yields a heartbeat at most and keeps the cursor's id;
-- else it yields one event at most.
abbrev Closes : Cursor → List Yield → Next → Type 0
Closes c out (goes_on d) = (cursors (frames out) ≡ []) × (d.last_id ≡ c.last_id)
Closes c out _ = length out ≤ 1

idle_checks-Closes : (r : Round) (c : Cursor) → Closes c (idle_checks r c).0 (idle_checks r c).1
unfolding frames cursors
idle_checks-Closes r c = elim (Bool-cases (ltb stream_idle_limit (r.now - c.last_chunk_time))) [
  | inl stale ↦ rw stale (omega arith)
  | inr fresh ↦ rw fresh (elim (Bool-cases (leb 15 (r.now - c.last_heartbeat))) [
    | inl due ↦ rw due (refl, refl)
    | inr early ↦ rw early (refl, refl)
  ])
]

closing-Closes : (c : Cursor) (o : Option Event) → Closes c (closing_event o).0 (closing_event o).1
closing-Closes c none = omega arith
closing-Closes c (some e) = omega arith

end_checks-Closes :
    (o : Option (Status × Option ℤ)) (no_chunks : Bool) (r : Round) (c : Cursor)
    → Closes c (end_checks o no_chunks r c).0 (end_checks o no_chunks r c).1
end_checks-Closes none no_chunks r c = omega arith
end_checks-Closes (some (status, code)) no_chunks r c = branches (is_final status && no_chunks)
  where
    branches :
        (b : Bool)
        → let e =
            if b
            then closing_event (format_terminal_event status code c.last_id)
            else idle_checks r c in
          Closes c e.0 e.1
    branches true = closing-Closes c (format_terminal_event status code c.last_id)
    branches false = idle_checks-Closes r c

module _ (all : List LogRow) (rising : Above 0 all) where
  round-Delivers :
      (r : Round) (c : Cursor) → Sees all r → Delivers all c (round r c).0 (round r c).1
  unfolding round page_of
  round-Delivers r c s =
      joined _ _
        (end_checks-Closes r.session (is_empty (page_of r c)) r (advanced r c (page_of r c)))
    where
      chunk_yields : List Yield
      chunk_yields = yields (emit (page_of r c) c.last_id c.last_turn_id).0

      delivered :
          ids (after c.last_id all)
          ≡ cursors (frames chunk_yields) ++ ids (after (last_of c.last_id (page_of r c)) all)
      delivered =
          rw (page-cursors all rising r c s)
            (ap ids (page-after all rising r c s) ∙ map-append _ (page_of r c) _)

      joined :
          (out : List Yield) (next : Next)
          → Closes (advanced r c (page_of r c)) out next
          → Delivers all c (chunk_yields ++ out) next
      joined out (goes_on d) (quiet, same) =
          rw
            (
              frames-append chunk_yields out,
              quiet,
              append-nil (cursors (frames chunk_yields)),
              same,
              emit-last_of (page_of r c) c.last_id c.last_turn_id,
            )
            delivered
      joined out breaks h = (chunk_yields, out, _, refl, h, delivered)
      joined out raises h = (chunk_yields, out, _, refl, h, delivered)

  -- What follows a round that goes on.
  followed :
      (c d : Cursor) (out more : List Yield) (next : Next)
      → Delivers all c out (goes_on d)
      → Delivers all d more next
      → Delivers all c (out ++ more) next
  followed c d out more (goes_on e) h k =
      rw
        (
          frames-append out more,
          append_assoc (cursors (frames out)) (cursors (frames more)) (ids (after e.last_id all)),
          ← k,
        )
        h
  followed c d out _ breaks h (body, closing, rest, e, short, k) = (
    out ++ body,
    closing,
    rest,
    rw (e, append_assoc out body closing) refl,
    short,
    rw
        (
          frames-append out body,
          append_assoc (cursors (frames out)) (cursors (frames body)) rest,
          ← k,
        )
        h,
  )
  followed c d out _ raises h (body, closing, rest, e, short, k) = (
    out ++ body,
    closing,
    rest,
    rw (e, append_assoc out body closing) refl,
    short,
    rw
        (
          frames-append out body,
          append_assoc (cursors (frames out)) (cursors (frames body)) rest,
          ← k,
        )
        h,
  )

  -- Let `all` be the rows that are there in the end, with rising ids, and let each round see a first
  -- part of them. Then the frames of a stream from any cursor carry the ids of the rows after it, each
  -- once and in order, up to the cursor where the stream goes on; if it breaks or raises, up to some
  -- row, before at most one closing event.
  pub tail_lossless :
      (rs : List Round) (c : Cursor)
      → All (Sees all) rs
      → Delivers all c (tail rs c).0 (tail rs c).1
  unfolding tail
  tail_lossless [] c s = unfold frames cursors in refl
  tail_lossless (r ∷ rs) c s =
      stepped (round r c).0 (round r c).1 (round-Delivers r c s.0) (λ d. tail_lossless rs d s.1)
    where
      stepped :
          (out : List Yield) (next : Next)
          → Delivers all c out next
          → ((d : Cursor) → Delivers all d (tail rs d).0 (tail rs d).1)
          → let all_out : List Yield × Next = elim next [
            | goes_on d ↦ (out ++ (tail rs d).0, (tail rs d).1)
            | breaks ↦ (out, breaks)
            | raises ↦ (out, raises)
          ] in
            Delivers all c all_out.0 all_out.1
      stepped out (goes_on d) h rest = followed c d out _ (tail rs d).1 h (rest d)
      stepped out breaks h rest = h
      stepped out raises h rest = h
