-- ===== src/Provisioning/Cleanup.antt =====
-- What is left of a provisioning: the sandbox on the backend and the stage rows.
use agent_on_demand.Prelude.{
  ◌≡◌, ◌⊎◌, refl, String, Bool, true, false, Option, List, [], ◌∷◌, ◌++◌, Option-cases, ◌∙◌, inl,
  inr,
}
use agent_on_demand.Prelude.Result.{Result, ok, err}
use agent_on_demand.Environments.{Content}
use agent_on_demand.Provisioning.{
  started, done, closed, emit, git_credentials, Stage, create_sprite, skills, Raised,
  no_credentials, provision, exception, backend_error, sprite_error, other_error, Answer, does,
  raises, Ran, exits, run_raises, Site, Act, and_then, stage_timer, calls, install,
  apply_network_policy, write_env_file, RepoSpec, write_git_credentials, build_network_policy,
  build_git_credentials_lines,
}
use agent_on_demand.Provisioning.Session.{
  run_script, write_script, SkillSpec, inline_calls, github_calls, run_provision_setup,
  write_runtime_config, SkillCall, run_skill_calls, SessionSpec, write_skills, Answers, create,
  run_stages, guarded, provision_session, cleaned,
}

-- The act leaves the sandbox as it is.
KeepsAlive : Act → Type 0
KeepsAlive f = (t : Site) → (f t).0.alive ≡ t.alive

calls-alive : (b : Bool) (p : String) (s : Stage) (a : Answer) → KeepsAlive (calls b p s a)
unfolding calls KeepsAlive
calls-alive b p s does t = refl
calls-alive b p s (raises k m) t = refl

and_then-alive :
    (r : Site × Result Raised (Unit {0})) (k : Act)
    → KeepsAlive k
    → (and_then r k).0.alive ≡ r.0.alive
unfolding KeepsAlive
and_then-alive (t, ok x) k h = h t
and_then-alive (t, err e) k h = refl

closed-alive : (s : Stage) (r : Site × Result Raised (Unit {0})) → (closed s r).0.alive ≡ r.0.alive
closed-alive s (t, ok x) = refl
closed-alive s (t, err e) = refl

timer-alive : (s : Stage) (f : Act) → KeepsAlive f → KeepsAlive (stage_timer s f)
unfolding stage_timer KeepsAlive
timer-alive s f h t = closed-alive s (f (emit (started s) t)) ∙ h (emit (started s) t)

policy-alive : (env : Option Content) (a : Answer) → KeepsAlive (apply_network_policy env a)
unfolding apply_network_policy KeepsAlive
policy-alive env a t = elim (Option-cases (build_network_policy env)) [
  | inl e ↦ rw (e, apply_network_policy) refl
  | inr (rules, e) ↦ rw (e, apply_network_policy) (timer-alive _ _ (calls-alive _ _ _ a) t)
]

credentials-alive :
    (repos : List RepoSpec) (a : Answer) → KeepsAlive (write_git_credentials repos a)
unfolding write_git_credentials KeepsAlive
credentials-alive repos a t = go (build_git_credentials_lines repos)
  where
    go :
        (ls : List String)
        → (elim ls as (λ _. Act) [
          | [] ↦ λ t. (t, ok tt)
          | l ∷ ls ↦
              stage_timer git_credentials
                (calls false "Failed to prepare Sprite: " git_credentials a)
        ]
            t).0.alive
          ≡ t.alive
    go [] = refl
    go (l ∷ ls) = timer-alive _ _ (calls-alive _ _ _ a) t

setup-alive :
    (w : Answer) (r : Ran) (tail : Option String) → KeepsAlive (run_provision_setup w r tail)
unfolding run_provision_setup KeepsAlive
setup-alive w r tail = timer-alive _ _ λ t. two w r t
  where
    run : (r : Ran) → KeepsAlive (run_script tail r)
    run (exits c) t = refl
    run (run_raises k m) t = refl

    two :
        (w : Answer) (r : Ran)
        → KeepsAlive (λ t. and_then (write_script tail w t) (run_script tail r))
    two does r t = run r t
    two (raises k m) r t = refl

skills_run-alive : (cs : List SkillCall) (xs : List Answer) → KeepsAlive (run_skill_calls cs xs)
unfolding run_skill_calls KeepsAlive
skills_run-alive [] xs t = refl
skills_run-alive (c ∷ cs) [] t = refl
skills_run-alive (c ∷ cs) (a ∷ xs) t =
    and_then-alive (calls false "Failed to write skills: " skills a t) (run_skill_calls cs xs)
      (skills_run-alive cs xs)
    ∙ calls-alive _ _ _ a t

skills-alive : (spec : SessionSpec) (xs : List Answer) → KeepsAlive (write_skills spec xs)
unfolding write_skills KeepsAlive
skills-alive spec xs t = go spec.skills
  where
    go :
        (ss : List SkillSpec)
        → (elim ss as (λ _. Act) [
          | [] ↦ λ t. (t, ok tt)
          | s ∷ rest ↦ stage_timer skills (
              run_skill_calls
                (inline_calls spec.skills_root (s ∷ rest)
                  ++ github_calls spec.skills_sh_agent (s ∷ rest))
                xs)
        ]
            t).0.alive
          ≡ t.alive
    go [] = refl
    go (s ∷ rest) = timer-alive _ _ (skills_run-alive _ xs) t

both-alive : (f g : Act) → KeepsAlive f → KeepsAlive g → KeepsAlive (λ t. and_then (f t) g)
unfolding KeepsAlive
both-alive f g h k t = and_then-alive (f t) g k ∙ h t

stages-alive : (spec : SessionSpec) (a : Answers) → KeepsAlive (run_stages spec a)
unfolding run_stages install write_env_file write_runtime_config
stages-alive spec a = both-alive _ _ (timer-alive _ _ (calls-alive _ _ _ a.install)) (
    both-alive _ _ (policy-alive spec.environment a.policy) (
      both-alive _ _ (timer-alive _ _ (calls-alive _ _ _ a.env_file)) (
        both-alive _ _ (credentials-alive spec.repos a.credentials) (
          both-alive _ _ (setup-alive a.script a.run a.stderr_tail) (
            both-alive _ _ (timer-alive _ _ (calls-alive _ _ _ a.config))
              (skills-alive spec a.skills))))))

abbrev pub is_provision_error : Raised → Bool
is_provision_error (provision m s) = true
is_provision_error _ = false

-- A provisioning returns with its sandbox, raises a ProvisionError without one, or raises something else
-- and leaves it.
abbrev pub Settled : Site × Result Raised (Unit {0}) → Type 0
Settled (u, r) =
    ((r ≡ ok tt) × (u.alive ≡ true))
    ⊎ (((e : Raised) × (r ≡ err e) × (is_provision_error e ≡ true) × (u.alive ≡ false))
        ⊎ ((e : Raised) × (r ≡ err e) × (is_provision_error e ≡ false) × (u.alive ≡ true)))

settled :
    (u : Site) (r : Result Raised (Unit {0}))
    → u.alive ≡ true
    → Settled (elim r as (λ _. Site × Result Raised (Unit {0})) [
      | ok x ↦ (u, ok x)
      | err e ↦ cleaned does e u
    ])
settled u (ok x) h = inl (refl, h)
settled u (err (provision m s)) h = inr (inl (provision m s, refl, refl, refl))
settled u (err (exception backend_error m)) h = inr (inl (_, refl, refl, refl))
settled u (err (exception sprite_error m)) h = inr (inl (_, refl, refl, refl))
settled u (err (exception other_error m)) h = inr (inr (_, refl, refl, h))
settled u (err no_credentials) h = inr (inr (_, refl, refl, h))

-- Let the backend be configured, the creation of the sandbox succeed and its deletion work. Then a
-- provisioning returns and the sandbox is there, or it raises a ProvisionError and the sandbox is
-- gone, or it raises any other exception and the sandbox is left behind, whatever the stages' calls
-- answer.
pub provision_settles :
    (spec : SessionSpec) (a : Answers) (t : Site)
    → a.client ≡ true
    → a.create ≡ does
    → a.destroy ≡ does
    → Settled (provision_session spec a t)
unfolding provision_session guarded stage_timer create KeepsAlive run_stages
provision_settles spec a t c made gone =
    rw (c, made, gone)
      (settled (run_stages spec a _).0 (run_stages spec a _).1 (
        stages-alive spec a
          (emit (done create_sprite) (record (emit (started create_sprite) t) { alive = true }))))
