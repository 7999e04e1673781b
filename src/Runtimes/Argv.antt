-- ===== src/Runtimes/Argv.antt =====
-- src/agent_on_demand/session_service/turn/argv.py. `extra` are the items of `extra_env`; None and an
-- empty dict are the same to the shim.
use agent_on_demand.Prelude.{Bool, ◌||◌, List, [], ◌∷◌, ◌++◌, map, if◌then◌else◌}
use agent_on_demand.Prelude.Result.{Result, ok, err}
use agent_on_demand.Prelude.Text.{Text, codes, text_eq, join}
use agent_on_demand.Scripts.{Spec, assignment, sorted_items}
use agent_on_demand.Runtimes.{Runtime, ArgvError, build_command}

unfoldable pub build_env_source_shim : List (Text × Text) → Text
build_env_source_shim extra = join (codes "; ") (
    codes "set -a"
    ∷ codes "source /tmp/aod-env"
    ∷ (map assignment (sorted_items extra) ++ codes "set +a" ∷ codes "exec \"$@\"" ∷ []))

abbrev pub is_mode : Text → Bool
is_mode mode = text_eq mode (codes "run") || text_eq mode (codes "continue")

abbrev pub shimmed :
    List (Text × Text) → Result ArgvError (List Text) → Result ArgvError (List Text)
shimmed extra (err e) = err e
shimmed extra (ok argv) =
    ok (codes "bash" ∷ codes "-lc" ∷ build_env_source_shim extra ∷ codes "--" ∷ argv)

unfoldable pub build_turn_argv :
    Runtime → Spec → Text → List (Text × Text) → Result ArgvError (List Text)
build_turn_argv runtime spec mode extra =
    if is_mode mode
    then shimmed extra (build_command runtime spec mode)
    else err (ArgvError.bad_mode mode)
