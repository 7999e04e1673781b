-- ===== src/Scripts/EnvFile.antt =====
-- The environment file and the skills command, read by a shell.
use mathlib.Core.List.{append-nil, append_assoc}
use agent_on_demand.Prelude.{
  ℕ, ◌==◌, false, if◌then◌else◌, ◌≡◌, refl, sym, ap, ◌∙◌, true, Option, none, some, List, [], ◌∷◌,
  ◌++◌, map, all, All, arith,
}
use agent_on_demand.Prelude.Text.{Text, codes, join}
use agent_on_demand.Shell.{is_safe, quote}
use agent_on_demand.Shell.Reader.{step, run, between, read_commands, finish}
use agent_on_demand.Shell.RoundTrip.{in_word, run-quote_on, run-quote, run-safe_word, next_line}
use agent_on_demand.Validation.{is_key_start, is_key_char, is_env_var_key}
use agent_on_demand.Scripts.{
  Spec, assignments, assignment, build_env_file_body, skill_option, build_skills_install_command,
}

-- A name of a variable, which the shell takes for an assignment's.
abbrev pub IsKey : Text × Text → Type 0
IsKey (k, v) = is_env_var_key k ≡ true

-- The word of an assignment: KEY=value.
abbrev pub assigned : Text × Text → List Text
assigned (k, v) = (k ++ (b'=' ∷ v)) ∷ []

-- A word at its first `=`.
unfoldable pub split_at_eq : Text → Option (Text × Text)
split_at_eq [] = none
split_at_eq (c ∷ cs) =
    let rest = split_at_eq cs in
    if c == b'=' then some ([], cs) else elim rest [ none ↦ none | some kv ↦ some (c ∷ kv.0, kv.1) ]

-- A shell assigns a variable where a command is one word, with a name before its first `=`.
unfoldable pub read_assignment : List Text → Option (Text × Text)
read_assignment (w ∷ []) = elim (split_at_eq w) [
  | none ↦ none
  | some kv ↦ if is_env_var_key kv.0 then some kv else none
]
read_assignment _ = none

-- What the commands assign; `none` if one of them is no assignment.
unfoldable pub read_assignments : List (List Text) → Option (List (Text × Text))
read_assignments [] = some []
read_assignments (ws ∷ rest) =
    let more = read_assignments rest in
    elim (read_assignment ws) [
      | none ↦ none
      | some kv ↦ elim more [ none ↦ none | some kvs ↦ some (kv ∷ kvs) ]
    ]

-- What a shell assigns that sources a file.
unfoldable pub read_env_file : Text → Option (List (Text × Text))
read_env_file body = elim (read_commands body) [ none ↦ none | some cs ↦ read_assignments cs ]

safe_char : (c : ℕ) → is_key_char c ≡ true → is_safe c ≡ true
unfolding is_key_char is_key_start is_safe
safe_char c h = ground (arith, h)

safe_chars : (cs : Text) → all is_key_char cs ≡ true → all is_safe cs ≡ true
unfolding all
safe_chars [] h = refl
safe_chars (c ∷ cs) h = ground (arith, h, safe_char c, safe_chars cs)

key_chars : (k : Text) → is_env_var_key k ≡ true → all is_key_char k ≡ true
unfolding is_env_var_key all is_key_char
key_chars [] h = refl
key_chars (c ∷ cs) h = ground (arith, h)

safe_key : (k : Text) → is_env_var_key k ≡ true → all is_safe k ≡ true
safe_key k h = safe_chars k (key_chars k h)

no_eq : (c : ℕ) → is_key_char c ≡ true → c == b'=' ≡ false
unfolding is_key_char is_key_start
no_eq c h = ground (arith, h)

split_at_eq-key :
    (k v : Text) → all is_key_char k ≡ true → split_at_eq (k ++ (b'=' ∷ v)) ≡ some (k, v)
unfolding split_at_eq all
split_at_eq-key [] v h = refl
split_at_eq-key (c ∷ cs) v h =
    rw (split_at_eq-key cs v (ground (arith, h)), no_eq c (ground (arith, h))) refl

-- The words KEY=value are read as the pairs that they are made of.
pub read_assignments-assigned :
    (xs : List (Text × Text)) → All IsKey xs → read_assignments (map assigned xs) ≡ some xs
unfolding read_assignments read_assignment
read_assignments-assigned [] h = refl
read_assignments-assigned ((k, v) ∷ xs) h =
    rw
      (
        read_assignments,
        read_assignment,
        split_at_eq-key k v (key_chars k h.0),
        h.0,
        read_assignments-assigned xs h.1,
      )
      refl

all-snoc : (k : Text) → all is_safe k ≡ true → all is_safe (k ++ b'=' ∷ []) ≡ true
unfolding all is_safe
all-snoc [] h = refl
all-snoc (c ∷ cs) h = ground (arith, h, all-snoc cs)

key_word :
    (k rest : Text) (done : List (List Text))
    → all is_safe k ≡ true
    → run ((k ++ b'=' ∷ []) ++ rest) (between [] done) ≡ run rest (in_word (k ++ b'=' ∷ []) [] done)
key_word [] rest done h = run-safe_word b'=' [] rest [] done (all-snoc [] h)
key_word (c ∷ cs) rest done h = run-safe_word c (cs ++ b'=' ∷ []) rest [] done (all-snoc (c ∷ cs) h)

pub run-assignment :
    (x : Text × Text) (rest : Text) (done : List (List Text))
    → IsKey x
    → run (assignment x ++ rest) (between [] done)
      ≡ run rest (in_word (x.0 ++ (b'=' ∷ x.1)) [] done)
run-assignment (k, v) rest done h =
    ap (λ t. run t (between [] done))
      (append_assoc k (b'=' ∷ quote v) rest ∙ sym (append_assoc k (b'=' ∷ []) (quote v ++ rest)))
    ∙ key_word k (quote v ++ rest) done (safe_key k h)
    ∙ run-quote_on v rest (some (k ++ b'=' ∷ [])) [] done
    ∙ ap (λ w. run rest (in_word w [] done)) (append_assoc k (b'=' ∷ []) v)

line-assignment :
    (x : Text × Text) (rest : Text) (done : List (List Text))
    → IsKey x
    → run (assignment x ++ b'\n' ∷ rest) (between [] done)
      ≡ run rest (between [] (done ++ assigned x ∷ []))
line-assignment (k, v) rest done h =
    run-assignment (k, v) (b'\n' ∷ rest) done h ∙ next_line (k ++ (b'=' ∷ v)) rest [] done

run-assignments :
    (x : Text × Text) (xs : List (Text × Text)) (done : List (List Text))
    → All IsKey (x ∷ xs)
    → run (join (b'\n' ∷ []) (map assignment (x ∷ xs)) ++ b'\n' ∷ []) (between [] done)
      ≡ some (between [] (done ++ map assigned (x ∷ xs)))
unfolding join
run-assignments x [] done h = line-assignment x [] done h.0 ∙ (unfold run in refl)
run-assignments x (y ∷ ys) done h =
    ap (λ t. run t (between [] done))
      (append_assoc (assignment x) (b'\n' ∷ join (b'\n' ∷ []) (map assignment (y ∷ ys)))
        (b'\n' ∷ []))
    ∙ line-assignment x (join (b'\n' ∷ []) (map assignment (y ∷ ys)) ++ b'\n' ∷ []) done h.0
    ∙ run-assignments y ys (done ++ assigned x ∷ []) h.1
    ∙ ap (λ d. some (between [] d)) (append_assoc done (assigned x ∷ []) (map assigned (y ∷ ys)))

read_lines :
    (xs : List (Text × Text))
    → All IsKey xs
    → read_commands (join (b'\n' ∷ []) (map assignment xs) ++ b'\n' ∷ []) ≡ some (map assigned xs)
unfolding read_commands
read_lines [] h = unfold run step join in refl
read_lines (x ∷ xs) h = ap finish (run-assignments x xs [] h)

-- If every key is the name of a variable, then a shell that sources the environment file assigns exactly the
-- entries, in their order, each name with its value, whatever characters the value holds.
pub read-build_env_file_body :
    (credentials static : List (Text × Text)) (spec : Spec)
    → All IsKey (assignments credentials static spec)
    → read_env_file (build_env_file_body credentials static spec)
      ≡ some (assignments credentials static spec)
unfolding build_env_file_body read_env_file
read-build_env_file_body credentials static spec h =
    rw (read_env_file, read_lines (assignments credentials static spec) h)
      (read_assignments-assigned (assignments credentials static spec) h)

abbrev skill_words : Option Text → List Text
skill_words none = []
skill_words (some []) = []
skill_words (some (c ∷ cs)) = codes "--skill" ∷ (c ∷ cs) ∷ []

-- The command that a shell reads.
abbrev pub install_words : Text → Text → Option Text → List Text
install_words source agent_id name =
    codes "npx"
    ∷ codes "-y"
    ∷ codes "skills@latest"
    ∷ codes "add"
    ∷ source
    ∷ codes "--global"
    ∷ codes "--agent"
    ∷ agent_id
    ∷ codes "--yes"
    ∷ skill_words name

option_words :
    (a : Text) (name : Option Text) (ws : List Text)
    → finish (run (codes " --yes" ++ skill_option name) (in_word a ws []))
      ≡ some ((((ws ++ a ∷ []) ++ codes "--yes" ∷ []) ++ skill_words name) ∷ [])
unfolding run step
option_words a none ws = rw append-nil refl
option_words a (some []) ws = rw append-nil refl
option_words a (some (c ∷ cs)) ws =
    let words = ((ws ++ a ∷ []) ++ codes "--yes" ∷ []) ++ codes "--skill" ∷ [] in
    ap (λ q. finish (run q (between words []))) (sym (append-nil (quote (c ∷ cs))))
    ∙ ap finish (run-quote (c ∷ cs) [] words [])
    ∙ ap (λ ws. some (ws ∷ []))
        (append_assoc ((ws ++ a ∷ []) ++ codes "--yes" ∷ []) (codes "--skill" ∷ []) ((c ∷ cs) ∷ []))

-- A shell reads the install command as one command of which the source, the agent and the name, if
-- there is one, are whole arguments, whatever characters they hold: nothing can be injected.
pub read-build_skills_install_command :
    (source agent_id : Text) (name : Option Text)
    → read_commands (build_skills_install_command source agent_id name)
      ≡ some (install_words source agent_id name ∷ [])
unfolding read_commands build_skills_install_command run step
read-build_skills_install_command source agent_id name =
    ap finish (
      run-quote source
        (codes " --global --agent " ++ (quote agent_id ++ (codes " --yes" ++ skill_option name)))
        head []
      ∙ run-quote agent_id (codes " --yes" ++ skill_option name)
          ((head ++ source ∷ []) ++ codes "--global" ∷ codes "--agent" ∷ []) [])
    ∙ option_words agent_id name ((head ++ source ∷ []) ++ codes "--global" ∷ codes "--agent" ∷ [])
  where
    head : List Text
    head = codes "npx" ∷ codes "-y" ∷ codes "skills@latest" ∷ codes "add" ∷ []
