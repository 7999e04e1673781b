-- ===== src/Trace/Chunks.antt =====
-- How the output is cut into chunks makes no difference to the trace.
use text.Mathlib.Text.{◌==◌ as str_eq}
use mathlib.Core.List.{append-nil, append_assoc}
use agent_on_demand.Prelude.{
  ℕ, String, zero, suc, ◌==◌, ◌≤◌, ◌≡◌, refl, sym, ap, ◌∙◌, Option, none, some, List, [], ◌∷◌, ◌++◌,
  length, length-append, arith, Bool-cases, Option-cases, inl, inr, if◌then◌else◌,
}
use agent_on_demand.Prelude.Text.{Text}
use agent_on_demand.Json.{Json}
use agent_on_demand.Trace.{
  Adapter, Emitter, first_line, handle_line, after_line, handle_lines, extended, feed_stdout, feed,
  feed_all, fresh,
}

-- A line that is there is found whatever follows, and what is behind it is shorter.
first_line-append :
    (b d l r : Text)
    → first_line b ≡ some (l, r)
    → (first_line (b ++ d) ≡ some (l, r ++ d)) × (suc (length r) ≤ length b)
unfolding first_line
first_line-append [] d l r e = absurd (cc e)
first_line-append (c ∷ cs) d l r e = elim (Bool-cases (c == b'\n')) [
  | inl h ↦
      let same : ◌≡◌ {A = Option (Text × Text)} (some ([], cs)) (some (l, r)) = rw h at e in
      let tail : cs ≡ r = cc same in
      let front : [] ≡ l = cc same in (rw (h, ← tail, ← front) refl, rw (← tail) (omega arith))
  | inr h ↦ elim (Option-cases (first_line cs)) [
    | inl f ↦ absurd (cc (rw (h, f) at e))
    | inr ((k, t), f) ↦
        let (found, shorter) = first_line-append cs d k t f in
        let same : ◌≡◌ {A = Option (Text × Text)} (some (c ∷ k, t)) (some (l, r)) =
          rw (h, f) at e in
        let tail : t ≡ r = cc same in
        let front : c ∷ k ≡ l = cc same in
        (rw (h, found, ← tail, ← front) refl, rw (← tail) (omega (arith, shorter)))
  ]
]

module _ (loads : Text → Option Json) (adapter : Adapter) where
  abbrev lines : ℕ → Emitter → Emitter
  lines n e = handle_lines loads adapter n e

  -- The emitter behind a line.
  abbrev next : Text → Text → Emitter → Emitter
  next l r e = record { line_buf = r; spans = handle_line loads adapter l e.spans }

  line_missing : (n : ℕ) (e : Emitter) → first_line e.line_buf ≡ none → lines n e ≡ e
  unfolding handle_lines
  line_missing zero e h = refl
  line_missing (suc n) e h = ap (λ o. after_line loads adapter o (handle_lines loads adapter n) e) h

  line_there :
      (n : ℕ) (e : Emitter) (l r : Text)
      → first_line e.line_buf ≡ some (l, r)
      → lines (suc n) e ≡ lines n (next l r e)
  unfolding handle_lines
  line_there n e l r h = ap (λ o. after_line loads adapter o (handle_lines loads adapter n) e) h

  shorter : (b l r : Text) → first_line b ≡ some (l, r) → suc (length r) ≤ length b
  shorter b l r h = (first_line-append b [] l r h).1

  no_line : (b : Text) → length b ≤ 0 → first_line b ≡ none
  unfolding first_line
  no_line [] h = refl
  no_line (c ∷ cs) h = absurd (omega (arith, h))

  lines_enough :
      (n m : ℕ) (e : Emitter)
      → length e.line_buf ≤ n
      → length e.line_buf ≤ m
      → lines n e ≡ lines m e
  lines_enough zero m e h k =
      let none_left = no_line e.line_buf h in
      line_missing zero e none_left ∙ sym (line_missing m e none_left)
  lines_enough (suc n) zero e h k =
      let none_left = no_line e.line_buf k in
      line_missing (suc n) e none_left ∙ sym (line_missing zero e none_left)
  lines_enough (suc n) (suc m) e h k = elim (Option-cases (first_line e.line_buf)) [
    | inl f ↦ line_missing (suc n) e f ∙ sym (line_missing (suc m) e f)
    | inr ((l, r), f) ↦
        let less = shorter e.line_buf l r f in
        line_there n e l r f
        ∙ lines_enough n m (next l r e) (omega (arith, less, h)) (omega (arith, less, k))
        ∙ sym (line_there m e l r f)
  ]

  -- With enough fuel, what comes later may as well be in the buffer before.
  lines-extended :
      (n m p : ℕ) (e : Emitter) (d : Text)
      → length e.line_buf ≤ n
      → length (e.line_buf ++ d) ≤ m
      → length ((lines n e).line_buf ++ d) ≤ p
      → lines m (extended d e) ≡ lines p (extended d (lines n e))
  unfolding handle_lines
  lines-extended zero m p e d h k j = lines_enough m p (extended d e) k j
  lines-extended (suc n) zero p e d h k j =
      let empty : length e.line_buf ≤ 0 = omega (arith, k, length-append e.line_buf d) in
      let none_left = line_missing (suc n) e (no_line e.line_buf empty) in
      rw none_left (lines_enough 0 p (extended d e) k (rw none_left at j))
  lines-extended (suc n) (suc m) p e d h k j = elim (Option-cases (first_line e.line_buf)) [
    | inl f ↦
        let none_left = line_missing (suc n) e f in
        rw none_left (lines_enough (suc m) p (extended d e) k (rw none_left at j))
    | inr ((l, r), f) ↦
        let less = shorter e.line_buf l r f in
        let some_left = line_there n e l r f in
        let (found, less_d) = first_line-append e.line_buf d l r f in
        let longer_d : length (r ++ d) ≤ m =
          omega (arith, length-append e.line_buf d, length-append r d, k, less) in
        line_there m (extended d e) l (r ++ d) found
        ∙ lines-extended n m p (next l r e) d (omega (arith, less, h)) longer_d (rw some_left at j)
        ∙ ap (λ e'. lines p (extended d e')) (sym some_left)
  ]

  -- Two chunks are one.
  feed_stdout-append :
      (b d : Text) (e : Emitter)
      → feed_stdout loads adapter d (feed_stdout loads adapter b e)
        ≡ feed_stdout loads adapter (b ++ d) e
  unfolding feed_stdout
  feed_stdout-append b d e =
      let same = append_assoc e.line_buf b d in
      let total : length ((e.line_buf ++ b) ++ d) ≤ length (e.line_buf ++ (b ++ d)) =
        omega (arith, ap (λ (t : Text). length t) same) in
      sym (
        lines-extended (length (e.line_buf ++ b)) (length (e.line_buf ++ (b ++ d))) _ (extended b e)
          d (omega arith) total (omega arith))
      ∙ ap (λ t. lines (length (e.line_buf ++ (b ++ d))) record { line_buf = t; spans = e.spans })
          same

-- What a turn writes to its standard output.
pub stdout_of : List (String × Text) → Text
stdout_of [] = []
stdout_of ((stream, bytes) ∷ chunks) =
    if str_eq stream "stdout" then bytes ++ stdout_of chunks else stdout_of chunks

module _ (loads : Text → Option Json) where
  from_prefix :
      (adapter : Adapter) (b : Text) (chunks : List (String × Text))
      → feed_all loads (some adapter) chunks (feed_stdout loads adapter b fresh)
        ≡ feed_stdout loads adapter (b ++ stdout_of chunks) fresh
  unfolding feed_all feed stdout_of
  from_prefix adapter b [] = ap (λ t. feed_stdout loads adapter t fresh) (sym (append-nil b))
  from_prefix adapter b ((stream, bytes) ∷ chunks) = elim (Bool-cases (str_eq stream "stdout")) [
    | inr h ↦ rw h (from_prefix adapter b chunks)
    | inl h ↦
        rw (h, feed_stdout-append loads adapter b bytes fresh)
          (from_prefix adapter (b ++ bytes) chunks
            ∙ ap (λ t. feed_stdout loads adapter t fresh) (append_assoc b bytes (stdout_of chunks)))
  ]

  -- The trace of a turn is the same however its output is cut into chunks, and whatever comes on the
  -- other streams: it is what one chunk with all of the standard output gives. This holds for every
  -- adapter, and for a runtime that has none.
  pub feed_all_once :
      (adapter : Option Adapter) (chunks : List (String × Text))
      → feed_all loads adapter chunks fresh ≡ feed loads adapter "stdout" (stdout_of chunks) fresh
  unfolding feed feed_all feed_stdout handle_lines
  feed_all_once none [] = refl
  feed_all_once none ((stream, bytes) ∷ chunks) = feed_all_once none chunks
  feed_all_once (some adapter) chunks = from_prefix adapter [] chunks
