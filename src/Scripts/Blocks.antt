-- ===== src/Scripts/Blocks.antt =====
-- Lines of a script that read as commands, and blocks of them that end with an empty line.
use mathlib.Core.List.{append-nil, append_assoc}
use agent_on_demand.Prelude.{◌≡◌, refl, sym, ap, ◌∙◌, ◌⊎◌, inl, inr, List, [], ◌∷◌, ◌++◌}
use agent_on_demand.Prelude.Text.{Text, join}
use agent_on_demand.Shell.Reader.{step, run, between}

-- Each line with its newline.
abbrev pub unlines : List Text → Text
unlines [] = []
unlines (l ∷ ls) = l ++ (b'\n' ∷ unlines ls)

pub unlines-append : (xs ys : List Text) → unlines (xs ++ ys) ≡ unlines xs ++ unlines ys
unlines-append [] ys = refl
unlines-append (x ∷ xs) ys =
    ap (λ t. x ++ (b'\n' ∷ t)) (unlines-append xs ys)
    ∙ sym (append_assoc x (b'\n' ∷ unlines xs) (unlines ys))

-- `"\n".join` of lines of which the last is empty.
pub join-unlines : (ls : List Text) → join (b'\n' ∷ []) (ls ++ [] ∷ []) ≡ unlines ls
unfolding join
join-unlines [] = refl
join-unlines (l ∷ []) = refl
join-unlines (l ∷ k ∷ ls) = ap (λ t. l ++ (b'\n' ∷ t)) (join-unlines (k ∷ ls))

-- The lines read as these commands, whatever follows.
pub record Runs (ls : List Text) (cmds : List (List Text)) : Type 0 where
  pub runs :
      (rest : Text) (done : List (List Text))
      → run (unlines ls ++ rest) (between [] done) ≡ run rest (between [] (done ++ cmds))

pub nothing-Runs : Runs [] []
nothing-Runs = record { runs = λ rest done. rw append-nil refl }

pub blank-Runs : Runs ([] ∷ []) []
unfolding run step
blank-Runs = record { runs = λ rest done. rw append-nil refl }

pub Runs-append :
    {ls ks : List Text} {cs ds : List (List Text)}
    → Runs ls cs
    → Runs ks ds
    → Runs (ls ++ ks) (cs ++ ds)
Runs-append {ls} {ks} {cs} {ds} p q = record {
  runs = λ rest done.
      rw (unlines-append, append_assoc)
        (p.runs (unlines ks ++ rest) done ∙ q.runs rest (done ++ cs) ∙ rw append_assoc refl);
}

pub Runs-cons :
    {l : Text} {ks : List Text} {cs ds : List (List Text)}
    → Runs (l ∷ []) cs
    → Runs ks ds
    → Runs (l ∷ ks) (cs ++ ds)
Runs-cons p q = Runs-append p q

-- The lines and an empty one.
pub record Closed (ls : List Text) (cmds : List (List Text)) : Type 0 where
  pub init : List Text
  pub shape : ls ≡ init ++ [] ∷ []
  pub reads : Runs init cmds

-- Two closed blocks, of which the second may be missing.
pub Closed-append :
    {ls ks : List Text} {cs ds : List (List Text)}
    → Closed ls cs
    → ((ks ≡ []) × (ds ≡ [])) ⊎ Closed ks ds
    → Closed (ls ++ ks) (cs ++ ds)
Closed-append {ls} {ks} {cs} {ds} a (inl (e, f)) = rw (e, f, append-nil, append-nil) a
Closed-append {ls} {ks} {cs} {ds} a (inr b) = record {
  init = a.init ++ ([] ∷ b.init);
  shape =
      rw (a.shape, b.shape)
        (append_assoc a.init ([] ∷ []) (b.init ++ [] ∷ [])
          ∙ sym (append_assoc a.init ([] ∷ b.init) ([] ∷ [])));
  reads = Runs-append a.reads (Runs-append blank-Runs b.reads);
}
