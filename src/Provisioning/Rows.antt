-- ===== src/Provisioning/Rows.antt =====
-- The stage rows that a provisioning writes.
use mathlib.Core.List.{append-nil, append_assoc}
use agent_on_demand.Prelude.{
  ◌≡◌, refl, sym, ap, ◌∙◌, String, Bool, true, false, Option, List, [], ◌∷◌, ◌++◌, Option-cases,
  inl, inr,
}
use agent_on_demand.Prelude.Result.{Result, ok, err}
use agent_on_demand.Environments.{Content}
use agent_on_demand.Provisioning.{
  StageEvent, started, done, failed, closed, emit, git_credentials, Stage, create_sprite, skills,
  Raised, no_credentials, provision, exception, backend_error, sprite_error, other_error, message,
  Answer, does, raises, Ran, exits, run_raises, Site, Act, and_then, stage_timer, calls, install,
  apply_network_policy, write_env_file, RepoSpec, write_git_credentials, build_network_policy,
  build_git_credentials_lines,
}
use agent_on_demand.Provisioning.Session.{
  run_script, write_script, SkillSpec, inline_calls, github_calls, run_provision_setup,
  write_runtime_config, SkillCall, run_skill_calls, SessionSpec, write_skills, Answers, create,
  run_stages, guarded, provision_session, cleaned,
}

-- The rows of stages that are done one after the other; where the code raises (false), the last stage
-- has failed instead.
pub data Paired : List StageEvent → Bool → Type 0 where
  nothing : Paired [] true
  finished :
      (s : Stage) {es : List StageEvent} {b : Bool}
      → Paired es b
      → Paired (started s ∷ done s ∷ es) b
  broken : (s : Stage) (m : String) → Paired (started s ∷ failed s m ∷ []) false

abbrev pub has_returned : Result Raised (Unit {0}) → Bool
has_returned (ok x) = true
has_returned (err e) = false

-- The rows that a result has on top of those of `t`.
abbrev pub Adds : Site → Site × Result Raised (Unit {0}) → Type 0
Adds t (u, r) = (es : List StageEvent) × (u.events ≡ t.events ++ es) × Paired es (has_returned r)

Writes : Act → Type 0
Writes f = (t : Site) → Adds t (f t)

IsSilent : Act → Type 0
IsSilent f = (t : Site) → (f t).0.events ≡ t.events

Paired-append :
    {es fs : List StageEvent} {b : Bool} → Paired es true → Paired fs b → Paired (es ++ fs) b
Paired-append Paired.nothing q = q
Paired-append (Paired.finished s p) q = Paired.finished s (Paired-append p q)

skip-Writes : Writes (λ t. (t, ok tt))
unfolding Writes
skip-Writes t = ([], sym (append-nil t.events), Paired.nothing)

both-Writes : (f g : Act) → Writes f → Writes g → Writes (λ t. and_then (f t) g)
unfolding Writes
both-Writes f g h k t = go (f t) (h t)
  where
    go : (p : Site × Result Raised (Unit {0})) → Adds t p → Adds t (and_then p g)
    go (u, ok x) (es, e, p) =
        let (fs, e', q) = k u in
        (es ++ fs, e' ∙ ap (λ xs. xs ++ fs) e ∙ append_assoc t.events es fs, Paired-append p q)
    go (u, err x) h = h

timer-Writes : (s : Stage) (f : Act) → IsSilent f → Writes (stage_timer s f)
unfolding stage_timer Writes IsSilent
timer-Writes s f h t = go (f (emit (started s) t)) (h (emit (started s) t))
  where
    go :
        (p : Site × Result Raised (Unit {0}))
        → p.0.events ≡ t.events ++ started s ∷ []
        → Adds t (closed s p)
    go (u, ok x) e = (
      started s ∷ done s ∷ [],
      ap (λ xs. xs ++ done s ∷ []) e ∙ append_assoc t.events (started s ∷ []) (done s ∷ []),
      Paired.finished s Paired.nothing,
    )
    go (u, err x) e = (
      started s ∷ failed s (message x) ∷ [],
      ap (λ xs. xs ++ failed s (message x) ∷ []) e
          ∙ append_assoc t.events (started s ∷ []) (failed s (message x) ∷ []),
      Paired.broken s (message x),
    )

calls-IsSilent : (b : Bool) (p : String) (s : Stage) (a : Answer) → IsSilent (calls b p s a)
unfolding calls IsSilent
calls-IsSilent b p s does t = refl
calls-IsSilent b p s (raises k m) t = refl

create-IsSilent : (a : Answer) → IsSilent (create a)
unfolding create IsSilent
create-IsSilent does t = refl
create-IsSilent (raises backend_error m) t = refl
create-IsSilent (raises sprite_error m) t = refl
create-IsSilent (raises other_error m) t = refl

both-IsSilent : (f g : Act) → IsSilent f → IsSilent g → IsSilent (λ t. and_then (f t) g)
unfolding IsSilent
both-IsSilent f g h k t = go (f t) ∙ h t
  where
    go : (p : Site × Result Raised (Unit {0})) → (and_then p g).0.events ≡ p.0.events
    go (u, ok x) = k u
    go (u, err x) = refl

script-IsSilent : (tail : Option String) (r : Ran) → IsSilent (run_script tail r)
unfolding IsSilent
script-IsSilent tail (exits c) t = refl
script-IsSilent tail (run_raises k m) t = refl

write_script-IsSilent : (tail : Option String) (a : Answer) → IsSilent (write_script tail a)
unfolding IsSilent
write_script-IsSilent tail does t = refl
write_script-IsSilent tail (raises k m) t = refl

skills_run-IsSilent : (cs : List SkillCall) (xs : List Answer) → IsSilent (run_skill_calls cs xs)
unfolding run_skill_calls IsSilent
skills_run-IsSilent [] xs t = refl
skills_run-IsSilent (c ∷ cs) [] t = refl
skills_run-IsSilent (c ∷ cs) (a ∷ xs) t =
    both-IsSilent (calls false "Failed to write skills: " skills a) (run_skill_calls cs xs)
      (calls-IsSilent _ _ _ a) (skills_run-IsSilent cs xs) t

policy-Writes : (env : Option Content) (a : Answer) → Writes (apply_network_policy env a)
unfolding apply_network_policy Writes
policy-Writes env a t = elim (Option-cases (build_network_policy env)) [
  | inl e ↦ rw (e, apply_network_policy) (skip-Writes t)
  | inr (rules, e) ↦ rw (e, apply_network_policy) (timer-Writes _ _ (calls-IsSilent _ _ _ a) t)
]

credentials-Writes : (repos : List RepoSpec) (a : Answer) → Writes (write_git_credentials repos a)
unfolding write_git_credentials Writes
credentials-Writes repos a t = go (build_git_credentials_lines repos)
  where
    go :
        (ls : List String)
        → Adds t (
            elim ls as (λ _. Act) [
              | [] ↦ λ t. (t, ok tt)
              | l ∷ ls ↦
                  stage_timer git_credentials
                    (calls false "Failed to prepare Sprite: " git_credentials a)
            ]
              t)
    go [] = skip-Writes t
    go (l ∷ ls) = timer-Writes _ _ (calls-IsSilent _ _ _ a) t

skills-Writes : (spec : SessionSpec) (xs : List Answer) → Writes (write_skills spec xs)
unfolding write_skills Writes
skills-Writes spec xs t = go spec.skills
  where
    go :
        (ss : List SkillSpec)
        → Adds t (
            elim ss as (λ _. Act) [
              | [] ↦ λ t. (t, ok tt)
              | s ∷ rest ↦ stage_timer skills (
                  run_skill_calls
                    (inline_calls spec.skills_root (s ∷ rest)
                      ++ github_calls spec.skills_sh_agent (s ∷ rest))
                    xs)
            ]
              t)
    go [] = skip-Writes t
    go (s ∷ rest) = timer-Writes _ _ (skills_run-IsSilent _ xs) t

setup-Writes : (w : Answer) (r : Ran) (tail : Option String) → Writes (run_provision_setup w r tail)
unfolding run_provision_setup Writes
setup-Writes w r tail =
    timer-Writes _ _ (both-IsSilent _ _ (write_script-IsSilent tail w) (script-IsSilent tail r))

stages-Writes : (spec : SessionSpec) (a : Answers) → Writes (run_stages spec a)
unfolding run_stages install write_env_file write_runtime_config
stages-Writes spec a = both-Writes _ _ (timer-Writes _ _ (calls-IsSilent _ _ _ a.install)) (
    both-Writes _ _ (policy-Writes spec.environment a.policy) (
      both-Writes _ _ (timer-Writes _ _ (calls-IsSilent _ _ _ a.env_file)) (
        both-Writes _ _ (credentials-Writes spec.repos a.credentials) (
          both-Writes _ _ (setup-Writes a.script a.run a.stderr_tail) (
            both-Writes _ _ (timer-Writes _ _ (calls-IsSilent _ _ _ a.config))
              (skills-Writes spec a.skills))))))

-- The cleanup raises again and writes no row.
cleaned-Adds : (d : Answer) (x : Raised) (t u : Site) → Adds t (u, err x) → Adds t (cleaned d x u)
cleaned-Adds does (provision m s) t u h = h
cleaned-Adds (raises backend_error n) (provision m s) t u h = h
cleaned-Adds (raises sprite_error n) (provision m s) t u h = h
cleaned-Adds (raises other_error n) (provision m s) t u h = h
cleaned-Adds d (exception other_error m) t u h = h
cleaned-Adds does (exception backend_error m) t u h = h
cleaned-Adds (raises backend_error n) (exception backend_error m) t u h = h
cleaned-Adds (raises sprite_error n) (exception backend_error m) t u h = h
cleaned-Adds (raises other_error n) (exception backend_error m) t u h = h
cleaned-Adds does (exception sprite_error m) t u h = h
cleaned-Adds (raises backend_error n) (exception sprite_error m) t u h = h
cleaned-Adds (raises sprite_error n) (exception sprite_error m) t u h = h
cleaned-Adds (raises other_error n) (exception sprite_error m) t u h = h
cleaned-Adds d no_credentials t u h = h

guarded-Writes : (spec : SessionSpec) (a : Answers) → Writes (guarded spec a)
unfolding guarded Writes
guarded-Writes spec a t = go (run_stages spec a t) (stages-Writes spec a t)
  where
    go :
        (p : Site × Result Raised (Unit {0}))
        → Adds t p
        → Adds t (elim p.1 as (λ _. Site × Result Raised (Unit {0})) [
          | ok x ↦ (p.0, ok x)
          | err x ↦ cleaned a.destroy x p.0
        ])
    go (u, ok x) h = h
    go (u, err x) h = cleaned-Adds a.destroy x t u h

-- With a backend that is configured, a provisioning adds to the session's rows a started and a done row
-- for each stage that it gets through, one stage after the other. If it returns, that is all; if it
-- raises, the last rows are a started and a failed one. This holds whatever the backend answers, also
-- in the cleanup.
pub stage_rows_paired :
    (spec : SessionSpec) (a : Answers) (t : Site)
    → a.client ≡ true
    → Adds t (provision_session spec a t)
unfolding provision_session Writes
stage_rows_paired spec a t c = rw c (
    both-Writes (stage_timer create_sprite (create a.create))
      (guarded spec (record a { client = true }))
      (timer-Writes create_sprite (create a.create) (create-IsSilent a.create))
      (guarded-Writes spec (record a { client = true })) t)
