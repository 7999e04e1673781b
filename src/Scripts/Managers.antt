-- ===== src/Scripts/Managers.antt =====
-- The commands of single lines and of the package managers.
use mathlib.Core.List.{append_assoc}
use agent_on_demand.Prelude.{◌≡◌, refl, ◌∙◌, some, List, [], ◌∷◌, ◌++◌, map, All, if◌then◌else◌}
use agent_on_demand.Prelude.Text.{Text, codes, text_eq}
use agent_on_demand.Shell.{quote}
use agent_on_demand.Shell.Reader.{step, run, between}
use agent_on_demand.Shell.RoundTrip.{run-quote, next_word, next_line, run-join_quoted}
use agent_on_demand.Scripts.{package_commands}
use agent_on_demand.Scripts.Blocks.{Runs, nothing-Runs, Runs-append}
use agent_on_demand.Scripts.Provision.{
  package_manager_order, packages_of, manager_lines, managers_lines,
}

-- The words of a command.
abbrev pub say : List Text → List (List Text)
say ws = ws ∷ []

-- What each manager is asked, one command for the batch or one for each package.
abbrev pub installs : Text → List Text → List (List Text)
installs m ps =
    if text_eq m (codes "apt")
    then (codes "apt-get" ∷ codes "update" ∷ codes "-qq" ∷ [])
      ∷ (codes "apt-get" ∷ codes "install" ∷ codes "-y" ∷ ps)
      ∷ []
    else if text_eq m (codes "pip")
    then say (codes "pip" ∷ codes "install" ∷ ps)
    else if text_eq m (codes "npm")
    then say (codes "npm" ∷ codes "install" ∷ codes "--global" ∷ ps)
    else if text_eq m (codes "cargo")
    then map (λ p. codes "cargo" ∷ codes "install" ∷ p ∷ []) ps
    else if text_eq m (codes "gem")
    then say (codes "gem" ∷ codes "install" ∷ ps)
    else map (λ p. codes "go" ∷ codes "install" ∷ p ∷ []) ps

pub one_word :
    (a rest : Text) (ws : List Text) (done : List (List Text))
    → run (quote a ++ b'\n' ∷ rest) (between ws done)
      ≡ run rest (between [] (done ++ say (ws ++ a ∷ [])))
one_word a rest ws done = run-quote a (b'\n' ∷ rest) ws done ∙ next_line a rest ws done

pub two_words :
    (a b rest : Text) (ws : List Text) (done : List (List Text))
    → run ((quote a ++ (b' ' ∷ quote b)) ++ b'\n' ∷ rest) (between ws done)
      ≡ run rest (between [] (done ++ say ((ws ++ a ∷ []) ++ b ∷ [])))
two_words a b rest ws done = rw append_assoc (
    run-quote a (b' ' ∷ (quote b ++ b'\n' ∷ rest)) ws done
    ∙ next_word a (quote b ++ b'\n' ∷ rest) ws done
    ∙ one_word b rest (ws ++ a ∷ []) done)

pub one_line :
    (l : Text) (cmds : List (List Text))
    → ((rest : Text) (done : List (List Text))
        → run (l ++ b'\n' ∷ rest) (between [] done) ≡ run rest (between [] (done ++ cmds)))
    → Runs (l ∷ []) cmds
one_line l cmds h = record { runs = λ rest done. rw append_assoc (h rest done) }

pub map-Runs :
    {A : Type 0} (f : A → Text) (g : A → List Text)
    → ((x : A) → Runs (f x ∷ []) (say (g x)))
    → (xs : List A) → Runs (map f xs) (map g xs)
map-Runs f g h [] = nothing-Runs
map-Runs f g h (x ∷ xs) = Runs-append (h x) (map-Runs f g h xs)

-- What a manager is asked for its packages; nothing without any.
abbrev pub asked : Text → List Text → List (List Text)
asked m [] = []
asked m (p ∷ ps) = installs m (p ∷ ps)

pub IsManaged : Text → Type 0
IsManaged m =
    (ps : List Text) → (ls : List Text) × (manager_lines m ps ≡ some ls) × Runs ls (asked m ps)

apt-IsManaged : IsManaged (codes "apt")
unfolding IsManaged package_commands text_eq run step
apt-IsManaged [] = ([], refl, nothing-Runs)
apt-IsManaged (p ∷ ps) = (
  _,
  refl,
  one_line _ _ λ rest done.
      run-join_quoted p ps rest (codes "apt-get" ∷ codes "install" ∷ codes "-y" ∷ [])
        (done ++ say (codes "apt-get" ∷ codes "update" ∷ codes "-qq" ∷ []))
      ∙ rw append_assoc refl,
)

pip-IsManaged : IsManaged (codes "pip")
unfolding IsManaged package_commands text_eq run step
pip-IsManaged [] = ([], refl, nothing-Runs)
pip-IsManaged (p ∷ ps) = (
  _,
  refl,
  one_line _ _ λ rest done. run-join_quoted p ps rest (codes "pip" ∷ codes "install" ∷ []) done,
)

npm-IsManaged : IsManaged (codes "npm")
unfolding IsManaged package_commands text_eq run step
npm-IsManaged [] = ([], refl, nothing-Runs)
npm-IsManaged (p ∷ ps) = (
  _,
  refl,
  one_line _ _ λ rest done.
      run-join_quoted p ps rest (codes "npm" ∷ codes "install" ∷ codes "--global" ∷ []) done,
)

gem-IsManaged : IsManaged (codes "gem")
unfolding IsManaged package_commands text_eq run step
gem-IsManaged [] = ([], refl, nothing-Runs)
gem-IsManaged (p ∷ ps) = (
  _,
  refl,
  one_line _ _ λ rest done. run-join_quoted p ps rest (codes "gem" ∷ codes "install" ∷ []) done,
)

cargo-IsManaged : IsManaged (codes "cargo")
unfolding IsManaged package_commands text_eq run step
cargo-IsManaged [] = ([], refl, nothing-Runs)
cargo-IsManaged (p ∷ ps) = (
  _,
  refl,
  map-Runs (λ (q : Text). codes "cargo install " ++ quote q)
      (λ q. codes "cargo" ∷ codes "install" ∷ q ∷ [])
      (λ q. one_line _ _ λ rest done. one_word q rest (codes "cargo" ∷ codes "install" ∷ []) done)
      (p ∷ ps),
)

go-IsManaged : IsManaged (codes "go")
unfolding IsManaged package_commands text_eq run step
go-IsManaged [] = ([], refl, nothing-Runs)
go-IsManaged (p ∷ ps) = (
  _,
  refl,
  map-Runs (λ (q : Text). codes "go install " ++ quote q)
      (λ q. codes "go" ∷ codes "install" ∷ q ∷ [])
      (λ q. one_line _ _ λ rest done. one_word q rest (codes "go" ∷ codes "install" ∷ []) done)
      (p ∷ ps),
)

unfoldable pub all_asked : List Text → List (Text × List Text) → List (List Text)
all_asked [] packages = []
all_asked (m ∷ ms) packages = asked m (packages_of m packages) ++ all_asked ms packages

managers-Runs :
    (ms : List Text) (packages : List (Text × List Text))
    → All IsManaged ms
    → (ls : List Text) × (managers_lines ms packages ≡ some ls) × Runs ls (all_asked ms packages)
unfolding managers_lines all_asked IsManaged
managers-Runs [] packages h = ([], refl, nothing-Runs)
managers-Runs (m ∷ ms) packages h =
    let (ls, e, r) = h.0 (packages_of m packages) in
    let (ks, f, q) = managers-Runs ms packages h.1 in (ls ++ ks, rw (e, f) refl, Runs-append r q)

-- Whatever the packages are, the managers are asked for theirs in the canonical order.
pub order-Runs :
    (packages : List (Text × List Text))
    → (ls : List Text) × (managers_lines package_manager_order packages ≡ some ls)
      × Runs ls (all_asked package_manager_order packages)
order-Runs packages = managers-Runs package_manager_order packages (
  apt-IsManaged,
  (cargo-IsManaged, (gem-IsManaged, (go-IsManaged, (npm-IsManaged, (pip-IsManaged, tt))))),
)
