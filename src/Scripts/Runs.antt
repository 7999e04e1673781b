-- ===== src/Scripts/Runs.antt =====
-- The commands that the provision script runs.
use mathlib.Core.List.{append-nil, append_assoc}
use agent_on_demand.Prelude.{
  ◌≡◌, refl, sym, ap, ◌∙◌, ◌⊎◌, inl, inr, Bool, true, false, Option, none, some, List, [], ◌∷◌,
  ◌++◌, map, any,
}
use agent_on_demand.Prelude.Text.{Text, codes, join, sorted}
use agent_on_demand.Shell.{join_quoted}
use agent_on_demand.Shell.Reader.{step, run, between}
use agent_on_demand.Shell.RoundTrip.{run-join_quoted}
use agent_on_demand.Scripts.{Repo, Env, Spec}
use agent_on_demand.Scripts.Blocks.{
  unlines, unlines-append, join-unlines, Runs, nothing-Runs, Runs-append, Closed, Closed-append,
}
use agent_on_demand.Scripts.Managers.{
  say, one_word, two_words, one_line, map-Runs, all_asked, order-Runs,
}
use agent_on_demand.Scripts.Provision.{
  directories_for_post_script_writes, env_file_path, git_creds_path, package_manager_order,
  has_token, mkdir_lines, chmod_line, chmod_lines, package_lines, env_package_lines,
  credential_lines, clone_line, git_lines, script_lines, user_script, head_lines,
  build_provision_script,
}

abbrev clone : Repo → List Text
clone r =
    codes "git" ∷ codes "clone" ∷ codes "--depth=1" ∷ codes "--quiet" ∷ r.url ∷ r.mount_path ∷ []

clone-Runs : (r : Repo) → Runs (clone_line r ∷ []) (say (clone r))
unfolding run step
clone-Runs r = one_line _ _ λ rest done.
    two_words r.url r.mount_path rest
      (codes "git" ∷ codes "clone" ∷ codes "--depth=1" ∷ codes "--quiet" ∷ []) done

-- A block that may be missing.
Maybe : List Text → List (List Text) → Type 0
Maybe ls cmds = ((ls ≡ []) × (cmds ≡ [])) ⊎ Closed ls cmds

abbrev mkdir_commands : List Text → List (List Text)
mkdir_commands [] = []
mkdir_commands (d ∷ ds) = say (codes "mkdir" ∷ codes "-p" ∷ d ∷ ds)

mkdir-Maybe : (ds : List Text) → Maybe (mkdir_lines ds) (mkdir_commands ds)
unfolding Maybe run step
mkdir-Maybe [] = inl (refl, refl)
mkdir-Maybe (d ∷ ds) = inr (record {
  init = (codes "mkdir -p " ++ join_quoted (d ∷ ds)) ∷ [];
  shape = refl;
  reads =
      one_line _ _ λ rest done. run-join_quoted d ds rest (codes "mkdir" ∷ codes "-p" ∷ []) done;
})

abbrev chmod : Text → List Text
chmod path = codes "chmod" ∷ codes "600" ∷ path ∷ []

chmod-Runs : (path : Text) → Runs (chmod_line path ∷ []) (say (chmod path))
unfolding run step
chmod-Runs path =
    one_line _ _ λ rest done. one_word path rest (codes "chmod" ∷ codes "600" ∷ []) done

abbrev chmod_commands : Bool → List (List Text)
chmod_commands true = chmod env_file_path ∷ chmod git_creds_path ∷ []
chmod_commands false = chmod env_file_path ∷ []

chmod-Closed : (tokens : Bool) → Closed (chmod_lines tokens) (chmod_commands tokens)
chmod-Closed true = record {
  init = chmod_line env_file_path ∷ chmod_line git_creds_path ∷ [];
  shape = refl;
  reads = Runs-append (chmod-Runs env_file_path) (chmod-Runs git_creds_path);
}
chmod-Closed false = record {
  init = chmod_line env_file_path ∷ [];
  shape = refl;
  reads = chmod-Runs env_file_path;
}

abbrev package_requests : List (Text × List Text) → List (List Text)
package_requests [] = []
package_requests (x ∷ xs) = all_asked package_manager_order (x ∷ xs)

abbrev env_requests : Option Env → List (List Text)
env_requests none = []
env_requests (some e) = package_requests e.packages

packages-Maybe :
    (packages : List (Text × List Text))
    → (ls : List Text) × (package_lines packages ≡ some ls) × Maybe ls (package_requests packages)
unfolding Maybe
packages-Maybe [] = ([], refl, inl (refl, refl))
packages-Maybe (x ∷ xs) =
    let (ls, e, r) = order-Runs (x ∷ xs) in
    (ls ++ [] ∷ [], rw e refl, inr (record { init = ls; shape = refl; reads = r }))

env-Maybe :
    (env : Option Env)
    → (ls : List Text) × (env_package_lines env ≡ some ls) × Maybe ls (env_requests env)
unfolding Maybe
env-Maybe none = ([], refl, inl (refl, refl))
env-Maybe (some e) = packages-Maybe e.packages

abbrev credential_commands : Bool → List (List Text)
credential_commands true = say (
    codes "git"
    ∷ codes "config"
    ∷ codes "--global"
    ∷ codes "credential.helper"
    ∷ (codes "store --file=" ++ git_creds_path)
    ∷ [])
credential_commands false = []

credentials-Runs : (tokens : Bool) → Runs (credential_lines tokens) (credential_commands tokens)
unfolding run step
credentials-Runs true = one_line _ _ λ rest done.
    one_word (codes "store --file=" ++ git_creds_path) rest
      (codes "git" ∷ codes "config" ∷ codes "--global" ∷ codes "credential.helper" ∷ []) done
credentials-Runs false = nothing-Runs

abbrev git_commands : Bool → List Repo → List (List Text)
git_commands tokens [] = []
git_commands tokens (r ∷ rs) = credential_commands tokens ++ map clone (r ∷ rs)

git-Maybe : (tokens : Bool) (rs : List Repo) → Maybe (git_lines tokens rs) (git_commands tokens rs)
unfolding Maybe
git-Maybe tokens [] = inl (refl, refl)
git-Maybe tokens (r ∷ rs) = inr (record {
  init = credential_lines tokens ++ map clone_line (r ∷ rs);
  shape = sym (append_assoc (credential_lines tokens) (map clone_line (r ∷ rs)) ([] ∷ []));
  reads = Runs-append (credentials-Runs tokens) (map-Runs clone_line clone clone-Runs (r ∷ rs));
})

head-Closed : Closed head_lines (say (codes "set" ∷ codes "-e" ∷ []))
unfolding run step
head-Closed = record {
  init = codes "#!/bin/bash" ∷ codes "set -e" ∷ [];
  shape = refl;
  reads = record { runs = λ rest done. refl };
}

-- The commands of the service's own part, in their order: the arguments are the spec's texts.
abbrev pub provision_commands : Spec → List (List Text)
provision_commands spec =
    let tokens = any has_token spec.repos in
    (((say (codes "set" ∷ codes "-e" ∷ [])
          ++ mkdir_commands (sorted (directories_for_post_script_writes spec)))
        ++ chmod_commands tokens)
      ++ env_requests spec.environment)
    ++ git_commands tokens spec.repos

-- The setup script with the newline behind it.
abbrev pub script_tail : Text → Text
script_tail [] = []
script_tail (c ∷ cs) = (c ∷ cs) ++ b'\n' ∷ []

joined-Closed :
    {ls : List Text} {cmds : List (List Text)}
    → Closed ls cmds
    → (user : Text)
    → run (join (b'\n' ∷ []) (ls ++ script_lines user)) (between [] [])
      ≡ run (script_tail user) (between [] cmds)
unfolding run step
joined-Closed {ls} {cmds} c [] =
    rw (append-nil, c.shape, join-unlines c.init)
      (ap (λ t. run t (between [] [])) (sym (append-nil (unlines c.init))) ∙ c.reads.runs [] [])
joined-Closed {ls} {cmds} c (u ∷ us) =
    let lines = (c.init ++ [] ∷ []) ++ (u ∷ us) ∷ [] in
    ap (λ t. run t (between [] []))
      (ap (λ xs. join (b'\n' ∷ []) (xs ++ (u ∷ us) ∷ [] ∷ [])) c.shape
        ∙ ap (join (b'\n' ∷ [])) (sym (append_assoc (c.init ++ [] ∷ []) ((u ∷ us) ∷ []) ([] ∷ [])))
        ∙ join-unlines lines
        ∙ unlines-append (c.init ++ [] ∷ []) ((u ∷ us) ∷ [])
        ∙ ap (λ t. t ++ unlines ((u ∷ us) ∷ [])) (unlines-append c.init ([] ∷ []))
        ∙ append_assoc (unlines c.init) (b'\n' ∷ []) (unlines ((u ∷ us) ∷ [])))
    ∙ c.reads.runs (b'\n' ∷ unlines ((u ∷ us) ∷ [])) []

regroup :
    (a b c d e f : List Text)
    → ((((a ++ b) ++ c) ++ d) ++ e) ++ f ≡ a ++ (b ++ (c ++ (d ++ (e ++ f))))
regroup a b c d e f = simp append_assoc

-- The script is always built. A shell reads its own part as exactly the commands of
-- `provision_commands`, with the package names, directories, URLs and paths of the spec as whole
-- arguments, whatever characters they hold; then it goes on with the user's setup script.
pub script_runs :
    (spec : Spec)
    → (script : Text) × (build_provision_script spec ≡ some script)
      × (run script (between [] [])
          ≡ run (script_tail (user_script spec.environment)) (between [] (provision_commands spec)))
unfolding build_provision_script Maybe
script_runs spec =
    let tokens = any has_token spec.repos in
    let dirs = sorted (directories_for_post_script_writes spec) in
    let (packages, e, p) = env-Maybe spec.environment in
    let all_lines =
      Closed-append
        (Closed-append
          (Closed-append (Closed-append head-Closed (mkdir-Maybe dirs)) (inr (chmod-Closed tokens)))
          p)
        (git-Maybe tokens spec.repos) in
    (
      _,
      rw (e, build_provision_script) refl,
      ap (λ ls. run (join (b'\n' ∷ []) ls) (between [] []))
            (sym (
              regroup head_lines (mkdir_lines dirs) (chmod_lines tokens) packages
                (git_lines tokens spec.repos) (script_lines (user_script spec.environment))))
          ∙ joined-Closed all_lines (user_script spec.environment),
    )
