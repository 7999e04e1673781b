-- ===== src/Shell/RoundTrip.antt =====
-- What the reader makes of quoted texts, with any rest behind them.
use mathlib.Core.List.{append-nil, append_assoc}
use agent_on_demand.Prelude.{
  ℕ, ◌≡◌, refl, ◌∙◌, true, Option, none, some, List, [], ◌∷◌, ◌++◌, arith, Bool-cases, inl, inr,
  all,
}
use agent_on_demand.Prelude.Text.{Text, join}
use agent_on_demand.Shell.{is_safe, escape_quotes, quote, join_quoted}
use agent_on_demand.Shell.Reader.{Mode, Reader, text_of, grow, step, ◌and_then◌, run, between}

-- In the middle of a word.
abbrev pub in_word : Text → List Text → List (List Text) → Reader
in_word w ws done = record { mode = Mode.bare; word = some w; command = ws; done = done }

pub run-append : (s t : Text) (r : Reader) → run (s ++ t) r ≡ (run s r and_then run t)
unfolding run
run-append [] t r = refl
run-append (c ∷ cs) t r = after (step r.mode c r) (run-append cs t)
  where
    after :
        (o : Option Reader)
        → ((q : Reader) → run (cs ++ t) q ≡ (run cs q and_then run t))
        → (o and_then run (cs ++ t)) ≡ ((o and_then run cs) and_then run t)
    after none h = refl
    after (some q) h = h q

run-is_safe :
    (c : ℕ) (rest : Text) (r : Reader)
    → r.mode ≡ Mode.bare
    → is_safe c ≡ true
    → run (c ∷ rest) r ≡ run rest (grow c r)
unfolding run step is_safe
run-is_safe c rest r m h = ground arith

run_all_safe :
    (w s rest : Text) (ws : List Text) (done : List (List Text))
    → all is_safe s ≡ true
    → run (s ++ rest) (in_word w ws done) ≡ run rest (in_word (w ++ s) ws done)
unfolding all
run_all_safe w [] rest ws done h = rw append-nil
run_all_safe w (c ∷ cs) rest ws done h =
    run-is_safe c (cs ++ rest) (in_word w ws done) refl (ground (arith, h))
    ∙ run_all_safe (w ++ c ∷ []) cs rest ws done (ground (arith, h))
    ∙ rw append_assoc

run_escaped :
    (w s rest : Text) (ws : List Text) (done : List (List Text))
    → run
        (escape_quotes s ++ b'\'' ∷ rest)
        (record { mode = Mode.single; word = some w; command = ws; done = done })
      ≡ run rest (in_word (w ++ s) ws done)
unfolding escape_quotes run step
run_escaped w [] rest ws done = rw append-nil
run_escaped w (c ∷ cs) rest ws done =
    ground (arith, run_escaped (w ++ c ∷ []) cs rest ws done, append_assoc w (c ∷ []) cs)

all_cons :
    (c : ℕ) (cs : Text) → all is_safe (c ∷ cs) ≡ true → (is_safe c ≡ true) × (all is_safe cs ≡ true)
unfolding all
all_cons c cs h = ground arith

-- A quoted text goes on the word that is read, whatever it holds.
pub run-quote_on :
    (s rest : Text) (o : Option Text) (ws : List Text) (done : List (List Text))
    → run (quote s ++ rest) (record { mode = Mode.bare; word = o; command = ws; done = done })
      ≡ run rest (in_word (text_of o ++ s) ws done)
unfolding quote
run-quote_on [] rest o ws done = rw append-nil (unfold run step in refl)
run-quote_on (c ∷ cs) rest o ws done = elim (Bool-cases (all is_safe (c ∷ cs))) [
  | inl h ↦ rw h (
      run-is_safe c (cs ++ rest) (record { mode = Mode.bare; word = o; command = ws; done = done })
        refl (all_cons c cs h).0
      ∙ run_all_safe (text_of o ++ c ∷ []) cs rest ws done (all_cons c cs h).1
      ∙ rw append_assoc refl)
  | inr h ↦ rw (h, append_assoc) (unfold run step in run_escaped (text_of o) (c ∷ cs) rest ws done)
]

pub run-quote :
    (s rest : Text) (ws : List Text) (done : List (List Text))
    → run (quote s ++ rest) (between ws done) ≡ run rest (in_word s ws done)
run-quote s rest ws done = run-quote_on s rest none ws done

-- Safe characters are read as they stand.
pub run-safe_word :
    (c : ℕ) (cs rest : Text) (ws : List Text) (done : List (List Text))
    → all is_safe (c ∷ cs) ≡ true
    → run ((c ∷ cs) ++ rest) (between ws done) ≡ run rest (in_word (c ∷ cs) ws done)
run-safe_word c cs rest ws done h =
    run-is_safe c (cs ++ rest) (between ws done) refl (all_cons c cs h).0
    ∙ run_all_safe (c ∷ []) cs rest ws done (all_cons c cs h).1

pub next_word :
    (w rest : Text) (ws : List Text) (done : List (List Text))
    → run (b' ' ∷ rest) (in_word w ws done) ≡ run rest (between (ws ++ w ∷ []) done)
unfolding run step
next_word w rest ws done = refl

pub next_line :
    (w rest : Text) (ws : List Text) (done : List (List Text))
    → run (b'\n' ∷ rest) (in_word w ws done) ≡ run rest (between [] (done ++ (ws ++ w ∷ []) ∷ []))
unfolding run step
next_line w rest ws done = refl

-- Quoted texts with spaces between them are those words.
pub run-join_quoted :
    (p : Text) (ps : List Text) (rest : Text) (ws : List Text) (done : List (List Text))
    → run (join_quoted (p ∷ ps) ++ b'\n' ∷ rest) (between ws done)
      ≡ run rest (between [] (done ++ (ws ++ p ∷ ps) ∷ []))
unfolding join_quoted join
run-join_quoted p [] rest ws done = run-quote p (b'\n' ∷ rest) ws done ∙ next_line p rest ws done
run-join_quoted p (q ∷ ps) rest ws done = rw append_assoc (
    run-quote p (b' ' ∷ (join_quoted (q ∷ ps) ++ b'\n' ∷ rest)) ws done
    ∙ next_word p (join_quoted (q ∷ ps) ++ b'\n' ∷ rest) ws done
    ∙ run-join_quoted q ps rest (ws ++ p ∷ []) done
    ∙ rw append_assoc refl)
