-- ===== src/Stream/Resume.antt =====
-- The stream delivers each row once and in order, over all rounds, and a client that reconnects with
-- its last cursor misses none.
use agent_on_demand.Prelude.{
  ℕ, zero, suc, ◌≤◌, ◌<◌, ltb, ◌≡◌, refl, sym, ◌∙◌, ap, Option, List, [], ◌∷◌, ◌++◌, map, arith,
  select, take,
}
use agent_on_demand.Stream.{LogRow, Event, format_chunk_events}
use agent_on_demand.Stream.Tail.{after, emit, yields, Yield, event, heartbeat}
use agent_on_demand.Stream.Sse.{frames, cursors}

-- Ids rise along the list, from above the bound: the order of the query.
abbrev pub Above : ℕ → List LogRow → Type 0
Above lo [] = Unit
Above lo (r ∷ rs) = (lo < r.id) × Above r.id rs

-- The id of the last row, or the one before.
abbrev pub last_of : ℕ → List LogRow → ℕ
last_of k [] = k
last_of k (r ∷ rs) = last_of r.id rs

pub Above-mono : (lo hi : ℕ) (rs : List LogRow) → lo ≤ hi → Above hi rs → Above lo rs
Above-mono lo hi [] h a = tt
Above-mono lo hi (r ∷ rs) h a = (omega arith, a.1)

pub after_all : (k : ℕ) (rs : List LogRow) → Above k rs → after k rs ≡ rs
unfolding after select
after_all k [] a = refl
after_all k (r ∷ rs) a = ground (arith, after_all k rs, Above-mono k r.id rs)

after-after : (k l : ℕ) (rs : List LogRow) → k ≤ l → after l (after k rs) ≡ after l rs
unfolding after select
after-after k l [] h = refl
after-after k l (r ∷ rs) h = ground (arith, after-after k l rs)

pub after-append : (k : ℕ) (xs ys : List LogRow) → after k (xs ++ ys) ≡ after k xs ++ after k ys
unfolding after select
after-append k [] ys = refl
after-append k (x ∷ xs) ys = ground (arith, after-append k xs ys)

Above-sub : (k lo : ℕ) (rs : List LogRow) → Above lo rs → Above lo (after k rs)
unfolding after select
Above-sub k lo [] a = tt
Above-sub k lo (r ∷ rs) a =
    ground (arith, Above-sub k r.id rs a.1, Above-mono lo r.id (select (λ x. ltb k x.id) rs))

pub Above-after : (k lo : ℕ) (rs : List LogRow) → Above lo rs → Above k (after k rs)
unfolding after select
Above-after k lo [] a = tt
Above-after k lo (r ∷ rs) a = ground (arith, Above-sub k r.id rs a.1, Above-after k r.id rs a.1)

last_of-ge : (lo : ℕ) (xs ys : List LogRow) → Above lo (xs ++ ys) → lo ≤ last_of lo xs
last_of-ge lo [] ys a = omega arith
last_of-ge lo (x ∷ xs) ys a = omega (arith, a.0, last_of-ge x.id xs ys a.1)

-- What comes after the last row of a first part is the second part.
after-last_of :
    (lo : ℕ) (xs ys : List LogRow) → Above lo (xs ++ ys) → after (last_of lo xs) (xs ++ ys) ≡ ys
unfolding after select
after-last_of lo [] ys a = after_all lo ys a
after-last_of lo (x ∷ xs) ys a =
    ground (arith, after-last_of x.id xs ys a.1, last_of-ge x.id xs ys a.1)

-- A page of what comes after the cursor, and what comes after the page.
pub pages :
    (k : ℕ) (all cs zs : List LogRow)
    → Above 0 all
    → after k all ≡ cs ++ zs
    → after k all ≡ cs ++ after (last_of k cs) all
pages k all cs zs a e =
    let sorted : Above k (cs ++ zs) = rw e at (Above-after k 0 all a) in
    let rest : after (last_of k cs) all ≡ zs =
      sym (after-after k (last_of k cs) all (last_of-ge k cs zs sorted))
      ∙ (ap (after (last_of k cs)) e ∙ after-last_of k cs zs sorted) in
    rw rest e

pub take-drop : (n : ℕ) (xs : List LogRow) → (ys : List LogRow) × (xs ≡ take n xs ++ ys)
take-drop zero xs = (xs, refl)
take-drop (suc n) [] = ([], refl)
take-drop (suc n) (x ∷ xs) = let (ys, e) = take-drop n xs in (ys, ap (◌∷◌ x) e)

pub emit-last_of : (cs : List LogRow) (k : ℕ) (t : Option ℕ) → (emit cs k t).1 ≡ last_of k cs
unfolding emit
emit-last_of [] k t = refl
emit-last_of (c ∷ cs) k t = emit-last_of cs c.id (format_chunk_events c t).1

pub frames-append :
    (xs ys : List Yield) → cursors (frames (xs ++ ys)) ≡ cursors (frames xs) ++ cursors (frames ys)
unfolding frames cursors
frames-append [] ys = refl
frames-append (heartbeat ∷ xs) ys = frames-append xs ys
frames-append (event e ∷ xs) ys = ground (arith, frames-append xs ys)

yields-append : (xs ys : List Event) → yields (xs ++ ys) ≡ yields xs ++ yields ys
yields-append [] ys = refl
yields-append (e ∷ xs) ys = rw (yields-append xs ys)

abbrev pub ids : List LogRow → List ℕ
ids = map (λ r. r.id)

-- The frames of one row carry its id as a cursor once: a turn_start before it carries none.
row_cursor :
    (c : LogRow) (t : Option ℕ)
    → 0 < c.id
    → cursors (frames (yields (format_chunk_events c t).0)) ≡ c.id ∷ []
unfolding format_chunk_events frames cursors
row_cursor c t h = ground arith

pub emit-cursors :
    (cs : List LogRow) (k lo : ℕ) (t : Option ℕ)
    → Above lo cs
    → cursors (frames (yields (emit cs k t).0)) ≡ ids cs
unfolding emit
emit-cursors [] k lo t a = unfold frames cursors in refl
emit-cursors (c ∷ cs) k lo t a =
    let here = format_chunk_events c t in
    let rest = emit cs c.id here.1 in
    rw (
      yields-append here.0 rest.0,
      frames-append (yields here.0) (yields rest.0),
      row_cursor c t (omega (arith, a.0)),
      emit-cursors cs c.id c.id here.1 a.1,
    )
