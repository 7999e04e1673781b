-- ===== src/Runtimes/Shim.antt =====
-- What bash makes of the shim of session_service/turn/argv.py.
use mathlib.Core.List.{append_assoc}
use agent_on_demand.Prelude.{
  ◌≡◌, refl, sym, subst, ap, ◌∙◌, Option, none, some, List, [], ◌∷◌, ◌++◌, map, all, All,
  All-append, arith, Bool-cases, inl, inr,
}
use agent_on_demand.Prelude.Result.{Result, ok, err}
use agent_on_demand.Prelude.Text.{Text, codes, text_le, join}
use agent_on_demand.Validation.{is_env_var_key, is_key_char, is_key_start}
use agent_on_demand.Shell.Reader.{run, step, between}
use agent_on_demand.Shell.RoundTrip.{in_word}
use agent_on_demand.Scripts.{Spec, assignment, insert_item, sorted_items}
use agent_on_demand.Scripts.EnvFile.{
  IsKey, assigned, run-assignment, read_assignments, read_assignments-assigned,
}
use agent_on_demand.Runtimes.{Runtime, ArgvError, build_command}
use agent_on_demand.Runtimes.Otel.{otel_env, traced, has_key, build_claude_otel_env}
use agent_on_demand.Runtimes.Argv.{build_env_source_shim, is_mode, shimmed, build_turn_argv}

insert_item-All :
    (x : Text × Text) (ys : List (Text × Text))
    → IsKey x
    → All IsKey ys
    → All IsKey (insert_item x ys)
unfolding insert_item
insert_item-All x [] h hs = (h, hs)
insert_item-All (k, v) ((j, w) ∷ ys) h hs = elim (Bool-cases (text_le k j)) [
  | inl e ↦ rw e (h, hs)
  | inr e ↦ rw e (hs.0, insert_item-All (k, v) ys h hs.1)
]

sorted_items-All : (xs : List (Text × Text)) → All IsKey xs → All IsKey (sorted_items xs)
unfolding sorted_items
sorted_items-All [] h = h
sorted_items-All (x ∷ xs) h = insert_item-All x (sorted_items xs) h.0 (sorted_items-All xs h.1)

join-more :
    (sep t u : Text) (ts us : List Text)
    → join sep (t ∷ (ts ++ u ∷ us)) ≡ t ++ (sep ++ join sep (ts ++ u ∷ us))
unfolding join
join-more sep t u [] us = refl
join-more sep t u (s ∷ ts) us = refl

next_command :
    (w rest : Text) (ws : List Text) (done : List (List Text))
    → run (codes "; " ++ rest) (in_word w ws done)
      ≡ run rest (between [] (done ++ (ws ++ w ∷ []) ∷ []))
unfolding run step
next_command w rest ws done = refl

abbrev pub exec : Text
exec = codes "exec \"$@\""

abbrev set_off : List Text
set_off = codes "set" ∷ codes "+a" ∷ []

-- The script from the assignments on, without its last command.
abbrev assigning : List (Text × Text) → Text
assigning [] = codes "set +a; "
assigning (x ∷ xs) = assignment x ++ (codes "; " ++ assigning xs)

join-assigning :
    (xs : List (Text × Text))
    → join (codes "; ") (map assignment xs ++ codes "set +a" ∷ exec ∷ []) ≡ assigning xs ++ exec
join-assigning [] = unfold join in refl
join-assigning (x ∷ xs) =
    join-more (codes "; ") (assignment x) (codes "set +a") (map assignment xs) (exec ∷ [])
    ∙ ap (λ t. assignment x ++ (codes "; " ++ t)) (join-assigning xs)
    ∙ sym (append_assoc (assignment x) (codes "; " ++ assigning xs) exec)

set_off_runs :
    (done : List (List Text))
    → run (codes "set +a; ") (between [] done) ≡ some (between [] (done ++ set_off ∷ []))
unfolding run step
set_off_runs done = refl

assignments_run :
    (xs : List (Text × Text)) (done : List (List Text))
    → All IsKey xs
    → run (assigning xs) (between [] done)
      ≡ some (between [] (done ++ (map assigned xs ++ set_off ∷ [])))
assignments_run [] done h = set_off_runs done
assignments_run (x ∷ xs) done h =
    run-assignment x (codes "; " ++ assigning xs) done h.0
    ∙ next_command (x.0 ++ (b'=' ∷ x.1)) (assigning xs) [] done
    ∙ assignments_run xs (done ++ assigned x ∷ []) h.1
    ∙ ap (λ d. some (between [] d))
        (append_assoc done (assigned x ∷ []) (map assigned xs ++ set_off ∷ []))

-- What runs before the CLI: the environment file is sourced and the extra variables are assigned
-- between `set -a` and `set +a`.
abbrev pub shim_commands : List (Text × Text) → List (List Text)
shim_commands extra =
    (codes "set" ∷ codes "-a" ∷ [])
    ∷ (codes "source" ∷ codes "/tmp/aod-env" ∷ [])
    ∷ (map assigned (sorted_items extra) ++ set_off ∷ [])

abbrev sourced : List (List Text)
sourced = (codes "set" ∷ codes "-a" ∷ []) ∷ (codes "source" ∷ codes "/tmp/aod-env" ∷ []) ∷ []

sourced_runs :
    (rest : Text)
    → run
        (codes "set -a" ++ (codes "; " ++ (codes "source /tmp/aod-env" ++ (codes "; " ++ rest))))
        (between [] [])
      ≡ run rest (between [] sourced)
unfolding run step
sourced_runs rest = refl

-- The script without its last command.
abbrev before_exec : List (Text × Text) → Text
before_exec extra =
    codes "set -a"
    ++ (codes "; "
        ++ (codes "source /tmp/aod-env" ++ (codes "; " ++ assigning (sorted_items extra))))

shim_shape : (extra : List (Text × Text)) → build_env_source_shim extra ≡ before_exec extra ++ exec
unfolding build_env_source_shim join
shim_shape extra =
    let xs = sorted_items extra in
    ap (λ t. codes "set -a" ++ (codes "; " ++ t))
      (join-more (codes "; ") (codes "source /tmp/aod-env") (codes "set +a") (map assignment xs)
          (exec ∷ [])
        ∙ ap (λ t. codes "source /tmp/aod-env" ++ (codes "; " ++ t)) (join-assigning xs))

before_runs :
    (extra : List (Text × Text))
    → All IsKey extra
    → run (before_exec extra) (between [] []) ≡ some (between [] (shim_commands extra))
before_runs extra h =
    let xs = sorted_items extra in
    sourced_runs (assigning xs) ∙ assignments_run xs sourced (sorted_items-All extra h)

traced-IsKey : (k : Text) (o : Option Text) → IsKey (k, []) → All IsKey (traced k o)
traced-IsKey k none h = tt
traced-IsKey k (some []) h = tt
traced-IsKey k (some (c ∷ cs)) h = (h, tt)

claude_keys :
    (api_key : Option Text) (spec : Spec) (traceparent tracestate : Option Text)
    → All IsKey (build_claude_otel_env api_key spec traceparent tracestate)
unfolding build_claude_otel_env all is_env_var_key is_key_char is_key_start
claude_keys api_key spec traceparent tracestate = elim (Bool-cases (has_key api_key)) [
  | inl e ↦ rw e (
    refl,
    (
      refl,
      (
        refl,
        (
          refl,
          (
            refl,
            (
              refl,
              (
                refl,
                (
                  refl,
                  All-append IsKey (traced (codes "TRACEPARENT") traceparent)
                      (traced (codes "TRACESTATE") tracestate)
                      (traced-IsKey (codes "TRACEPARENT") traceparent refl)
                      (traced-IsKey (codes "TRACESTATE") tracestate refl),
                ),
              ),
            ),
          ),
        ),
      ),
    ),
  )
  | inr e ↦ rw e tt
]

otel_env-All :
    (api_key : Option Text) (r : Runtime) (spec : Spec) (traceparent tracestate : Option Text)
    → All IsKey (otel_env api_key r spec traceparent tracestate)
unfolding otel_env
otel_env-All api_key Runtime.claude spec traceparent tracestate =
    claude_keys api_key spec traceparent tracestate
otel_env-All api_key Runtime.codex spec traceparent tracestate = tt
otel_env-All api_key Runtime.gemini spec traceparent tracestate = tt
otel_env-All api_key Runtime.opencode spec traceparent tracestate = tt

-- What an argv of a turn is: bash with a script, and behind `--` the runtime's own command.
abbrev pub Argv : Runtime → Spec → Text → Text → List Text → Type 0
Argv r spec mode shim argv =
    (command : List Text) × (build_command r spec mode ≡ ok command)
    × (argv ≡ codes "bash" ∷ codes "-lc" ∷ shim ∷ codes "--" ∷ command)

shimmed_shape :
    (extra : List (Text × Text)) (o : Result ArgvError (List Text)) (argv : List Text)
    → shimmed extra o ≡ ok argv
    → (command : List Text) × (o ≡ ok command)
      × (argv ≡ codes "bash" ∷ codes "-lc" ∷ build_env_source_shim extra ∷ codes "--" ∷ command)
shimmed_shape extra (err x) argv e = absurd (cc e)
shimmed_shape extra (ok command) argv e = (command, refl, cc e)

build_turn_argv-Argv :
    (r : Runtime) (spec : Spec) (mode : Text) (extra : List (Text × Text)) (argv : List Text)
    → build_turn_argv r spec mode extra ≡ ok argv
    → Argv r spec mode (build_env_source_shim extra) argv
unfolding build_turn_argv
build_turn_argv-Argv r spec mode extra argv e = elim (Bool-cases (is_mode mode)) [
  | inl m ↦ shimmed_shape extra (build_command r spec mode) argv (ground (arith, e, m))
  | inr m ↦ absurd (ground (arith, e, m))
]

-- If the argv of a turn is built with the runtime's telemetry variables, then it is bash with a script
-- and, behind `--`, the runtime's command unchanged. The script ends in `exec "$@"`, and what stands before
-- that is read by bash as exactly these commands: `set -a`, the sourcing of the environment file, one
-- assignment for each variable, and `set +a`. The assignments are those of the variables in the order of
-- their names, each with its value, whatever the value holds.
pub build_turn_argv-otel_env :
    (api_key : Option Text) (r : Runtime) (spec : Spec) (traceparent tracestate : Option Text)
    (mode : Text) (argv : List Text)
    → let extra = otel_env api_key r spec traceparent tracestate in
      build_turn_argv r spec mode extra ≡ ok argv
      → (before : Text) × Argv r spec mode (before ++ exec) argv
        × (run before (between [] []) ≡ some (between [] (shim_commands extra)))
        × (read_assignments (map assigned (sorted_items extra)) ≡ some (sorted_items extra))
build_turn_argv-otel_env api_key r spec traceparent tracestate mode argv e =
    let extra = otel_env api_key r spec traceparent tracestate in
    let keys = otel_env-All api_key r spec traceparent tracestate in
    (
      before_exec extra,
      subst (λ shim. Argv r spec mode shim argv) (shim_shape extra)
          (build_turn_argv-Argv r spec mode extra argv e),
      before_runs extra keys,
      read_assignments-assigned (sorted_items extra) (sorted_items-All extra keys),
    )
