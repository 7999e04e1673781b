-- ===== src/Provisioning/Session.antt =====
-- The last stages of src/agent_on_demand/session_service/provisioning/stages.py, and
-- `provision_session` of orchestrator.py with `best_effort_delete` of client.py.
use Prim.Native.String.{◌++◌ as str_append}
use agent_on_demand.Prelude.{
  String, Bool, true, false, Option, none, some, List, [], ◌∷◌, ◌++◌, if◌then◌else◌,
}
use agent_on_demand.Prelude.Result.{ok, err}
use agent_on_demand.Environments.{Content}
use agent_on_demand.Provisioning.{
  create_sprite, provision_setup, runtime_config, skills, Raised, no_credentials, provision,
  exception, Kind, backend_error, other_error, Answer, does, raises, Ran, exits, run_raises, Act,
  and_then, stage_timer, calls, install, apply_network_policy, write_env_file, RepoSpec,
  write_git_credentials,
}

-- The tail of the script's stderr; `none` where it is blank.
abbrev detail : String → Option String → String
detail m none = m
detail m (some tail) = str_append m (str_append "\nstderr:\n" tail)

abbrev setup_raised : Option String → Kind → String → Raised
setup_raised tail backend_error m =
    provision (detail (str_append "Provisioning script failed: " m) tail) (some provision_setup)
setup_raised tail k m = exception k m

-- `cmd.run()`: its exit code is dropped.
abbrev pub run_script : Option String → Ran → Act
run_script tail (exits code) t = (t, ok tt)
run_script tail (run_raises k m) t = (t, err (setup_raised tail k m))

abbrev pub write_script : Option String → Answer → Act
write_script tail does t = (t, ok tt)
write_script tail (raises k m) t = (t, err (setup_raised none k m))

unfoldable pub run_provision_setup : Answer → Ran → Option String → Act
run_provision_setup write run tail =
    stage_timer provision_setup λ t. and_then (write_script tail write t) (run_script tail run)

unfoldable pub write_runtime_config : Answer → Act
write_runtime_config a =
    stage_timer runtime_config (calls true "Failed to write runtime config: " runtime_config a)

-- Exactly one of `content` and `source` is set by the validators.
pub record SkillSpec : Type 0 where
  pub name : Option String
  pub content : Option String
  pub source : Option String

-- A write of a SKILL.md under its directory, or a run of the skills CLI.
pub data SkillCall : Type 0 where
  write_skill : String → String → SkillCall
  add_skill : String → String → Option String → SkillCall

abbrev inline_call : String → Option String → Option String → List SkillCall
inline_call root (some name) (some content) =
    write_skill (str_append root (str_append "/" (str_append name "/SKILL.md"))) content ∷ []
inline_call root _ _ = []

abbrev github_call : String → Option String → Option String → List SkillCall
github_call agent name none = []
github_call agent name (some source) = add_skill source agent name ∷ []

unfoldable pub inline_calls : Option String → List SkillSpec → List SkillCall
inline_calls none ss = []
inline_calls (some root) [] = []
inline_calls (some root) (s ∷ ss) = inline_call root s.name s.content ++ inline_calls (some root) ss

unfoldable pub github_calls : Option String → List SkillSpec → List SkillCall
github_calls none ss = []
github_calls (some agent) [] = []
github_calls (some agent) (s ∷ ss) =
    github_call agent s.name s.source ++ github_calls (some agent) ss

-- The calls with their answers; an exit code is dropped here too. The rest succeed where the answers
-- have run out.
unfoldable pub run_skill_calls : List SkillCall → List Answer → Act
run_skill_calls [] answers t = (t, ok tt)
run_skill_calls (c ∷ cs) [] t = (t, ok tt)
run_skill_calls (c ∷ cs) (a ∷ answers) t =
    and_then (calls false "Failed to write skills: " skills a t) (run_skill_calls cs answers)

pub record SessionSpec : Type 0 where
  pub environment : Option Content
  pub repos : List RepoSpec
  pub skills : List SkillSpec
  pub skills_root : Option String
  pub skills_sh_agent : Option String

unfoldable pub write_skills : SessionSpec → List Answer → Act
write_skills spec answers = elim spec.skills [
  | [] ↦ λ t. (t, ok tt)
  | s ∷ ss ↦ stage_timer skills (
      run_skill_calls
        (inline_calls spec.skills_root (s ∷ ss) ++ github_calls spec.skills_sh_agent (s ∷ ss))
        answers)
]

-- What the backend answers in a provisioning.
pub record Answers : Type 0 where
  pub client : Bool
  pub create : Answer
  pub install : Answer
  pub policy : Answer
  pub env_file : Answer
  pub credentials : Answer
  pub script : Answer
  pub run : Ran
  pub stderr_tail : Option String
  pub config : Answer
  pub skills : List Answer
  pub destroy : Answer

-- A sandbox that `client.provision` has made.
unfoldable pub create : Answer → Act
create does t = (record t { alive = true }, ok tt)
create (raises backend_error m) t =
    (t, err (provision (str_append "Failed to create Sprite: " m) (some create_sprite)))
create (raises k m) t = (t, err (exception k m))

-- The seven stages of the `try`.
unfoldable pub run_stages : SessionSpec → Answers → Act
run_stages spec a t = and_then (install a.install t) λ t.
    and_then (apply_network_policy spec.environment a.policy t) λ t.
      and_then (write_env_file a.env_file t) λ t.
        and_then (write_git_credentials spec.repos a.credentials t) λ t.
          and_then (run_provision_setup a.script a.run a.stderr_tail t)
            λ t. and_then (write_runtime_config a.config t) (write_skills spec a.skills)

-- `best_effort_delete`, then `raise e`: a BackendError is logged, any other exception takes e's place.
abbrev delete_and_raise : Raised → Answer → Act
delete_and_raise e does t = (record t { alive = false }, err e)
delete_and_raise e (raises backend_error m) t = (t, err e)
delete_and_raise e (raises k m) t = (t, err (exception k m))

-- The two `except` clauses below the stages; other exceptions pass.
abbrev pub cleaned : Answer → Raised → Act
cleaned destroy (provision m s) t = delete_and_raise (provision m s) destroy t
cleaned destroy (exception other_error m) t = (t, err (exception other_error m))
cleaned destroy (exception k m) t =
    delete_and_raise (provision (str_append "Failed to prepare Sprite: " m) none) destroy t
cleaned destroy no_credentials t = (t, err no_credentials)

unfoldable pub guarded : SessionSpec → Answers → Act
guarded spec a t =
    let (u, r) = run_stages spec a t in elim r [ ok x ↦ (u, ok x) | err e ↦ cleaned a.destroy e u ]

unfoldable pub provision_session : SessionSpec → Answers → Act
provision_session spec a t =
    if a.client
    then and_then (stage_timer create_sprite (create a.create) t) (guarded spec a)
    else (t, err no_credentials)
