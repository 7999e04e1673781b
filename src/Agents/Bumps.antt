-- ===== src/Agents/Bumps.antt =====
-- What an update of src/agent_on_demand/views/agents.py leaves.
use agent_on_demand.Prelude.{
  ℕ, ◌∷◌, ◌+◌, ◌==◌, ◌≡◌, ◌≢◌, refl, sym, ap, ◌∙◌, false, Option, none, some, arith, Bool-cases,
  Option-cases, inl, inr, ◌⊎◌,
}
use agent_on_demand.Prelude.Result.{Result, ok, err}
use agent_on_demand.Prelude.Table.{Table, get, get-modify}
use agent_on_demand.Prelude.Text.{Text}
use agent_on_demand.Http.{mismatch}
use agent_on_demand.Environments
use agent_on_demand.Environments.{check_version_match}
use agent_on_demand.Agents.{
  Content, Agent, Agents, UpdateAgentRequest, Refusal, normalize_provider_model,
  resolve_environment,
}
use agent_on_demand.Agents.Update.{
  find_agent, or_stored, apply_update, bumped, save_version, update_normalized, update_locked,
  wanted, agent_update,
}

-- What an update may do to the store `w`: nothing, or a new version of the user's agent `id`, which
-- was not archived and had the version of the request.
pub data Outcome (user id : ℕ) (req : UpdateAgentRequest) (w : Agents)
    : Agents × Result Refusal Agent → Type 0 where
  refused : (e : Refusal) → Outcome user id req w (w, err e)
  unchanged : (a : Agent) → find_agent user id w.rows ≡ some a → Outcome user id req w (w, ok a)
  saved :
      (a s : Agent) (u : Agents)
      → find_agent user id w.rows ≡ some a
      → a.is_archived ≡ false
      → req.version ≡ a.version
      → (s.user ≡ a.user) × (s.is_archived ≡ false) × (s.version ≡ a.version + 1)
      → get id u.rows ≡ some s
      → ((k : ℕ) → k == id ≡ false → get k u.rows ≡ get k w.rows)
      → u.versions ≡ record { agent = id; version = s.version; content = s.content } ∷ w.versions
      → Outcome user id req w (u, ok s)

saved_outcome :
    (user id : ℕ) (req : UpdateAgentRequest) (w : Agents) (a : Agent) (c : Content)
    → find_agent user id w.rows ≡ some a
    → a.is_archived ≡ false
    → req.version ≡ a.version
    → Outcome user id req w (save_version id c a w, ok (bumped c a))
unfolding find_agent save_version
saved_outcome user id req w a c f x v =
    Outcome.saved a (bumped c a) (save_version id c a w) f x v (refl, x, refl)
      (ground (arith, f, get-modify id id (λ old. bumped c a) w.rows))
      (λ k other. ground (arith, get-modify k id (λ old. bumped c a) w.rows)) refl

normalized_outcome :
    (user id : ℕ) (req : UpdateAgentRequest) (w : Agents) (a : Agent) (pm : Text × Text)
    → find_agent user id w.rows ≡ some a
    → a.is_archived ≡ false
    → req.version ≡ a.version
    → Outcome user id req w (update_normalized id req a pm w)
unfolding update_normalized
normalized_outcome user id req w a pm f x v = elim (Bool-cases (apply_update req pm a.content).1) [
  | inl e ↦ rw e (saved_outcome user id req w a (apply_update req pm a.content).0 f x v)
  | inr e ↦ rw e (Outcome.unchanged a f)
]

pub Result-cases :
    {E A : Type 0} (r : Result E A) → ((e : E) × (r ≡ err e)) ⊎ ((a : A) × (r ≡ ok a))
Result-cases (ok a) = inr (a, refl)
Result-cases (err e) = inl (e, refl)

same_version : (m n : ℕ) → check_version_match m n ≡ none → m ≡ n
unfolding check_version_match
same_version m n e = ground (arith, e)

locked_outcome :
    (user id : ℕ) (req : UpdateAgentRequest) (w : Agents)
    → Outcome user id req w (update_locked user id req w)
unfolding update_locked
locked_outcome user id req w = elim (Option-cases (find_agent user id w.rows)) [
  | inl f ↦ rw (update_locked, f) (Outcome.refused _)
  | inr (a, f) ↦ elim (Bool-cases a.is_archived) [
    | inl x ↦ rw (update_locked, f, x) (Outcome.refused _)
    | inr x ↦ elim (Option-cases (check_version_match req.version a.version)) [
      | inr (e, v) ↦ rw (update_locked, f, x, v) (Outcome.refused _)
      | inl v ↦
          elim (Result-cases (
            normalize_provider_model (or_stored req.provider a.content.provider)
              (or_stored req.model a.content.model))) [
                | inl (e, n) ↦ rw (update_locked, f, x, v, n) (Outcome.refused _)
                | inr (pm, n) ↦
                    rw (update_locked, f, x, v, n)
                      (normalized_outcome user id req w a pm f x
                        (same_version req.version a.version v))
              ]
    ]
  ]
]

-- On every branch an update leaves the store as it is, or it saves one new version of the user's own
-- agent: only if the agent is not archived and the request has its version. Then the row has the next
-- version, its newest snapshot the same version and content, and no other agent's row has changed.
pub agent_update_outcome :
    (user id : ℕ) (req : UpdateAgentRequest) (envs : Table Environments.Row) (w : Agents)
    → Outcome user id req w (agent_update user id req envs w)
unfolding agent_update
agent_update_outcome user id req envs w =
    elim (Result-cases (resolve_environment user (wanted req.environment_id) envs)) [
      | inl (e, r) ↦ rw (agent_update, r) (Outcome.refused e)
      | inr (o, r) ↦ rw (agent_update, r) (locked_outcome user id req w)
    ]

-- A row with the same owner is found as well.
found_saved :
    (user id : ℕ) (w u : Agents) (a s : Agent)
    → find_agent user id w.rows ≡ some a
    → s.user ≡ a.user
    → get id u.rows ≡ some s
    → find_agent user id u.rows ≡ some s
unfolding find_agent
found_saved user id w u a s f same g = ground (arith, f, g, same)

stale :
    (user id : ℕ) (again : UpdateAgentRequest) (u : Agents) (b : Agent) (n : ℕ)
    → find_agent user id u.rows ≡ some b
    → b.is_archived ≡ false
    → b.version ≡ n + 1
    → again.version ≡ n
    → update_locked user id again u ≡ (u, err (Refusal.refused (mismatch (n + 1) n)))
unfolding update_locked check_version_match
stale user id again u b n f x v same = rw (update_locked, f, x, v, same) (ground arith)

owned :
    (user id : ℕ) (w : Agents) (a b : Agent)
    → get id w.rows ≡ some a
    → find_agent user id w.rows ≡ some b
    → b ≡ a
unfolding find_agent
owned user id w a b g f = ground (arith, g, f)

ok_same : (x y : Agent) → Path (Result Refusal Agent) (ok x) (ok y) → x ≡ y
ok_same x y e = cc e

resolved :
    (user id : ℕ) (req : UpdateAgentRequest) (envs : Table Environments.Row) (w : Agents)
    (o : Option ℕ)
    → resolve_environment user (wanted req.environment_id) envs ≡ ok o
    → agent_update user id req envs w ≡ update_locked user id req w
unfolding agent_update
resolved user id req envs w o h = rw (agent_update, h) refl

once_after :
    (user id : ℕ) (req again : UpdateAgentRequest) (w : Agents) (a s : Agent)
    (p : Agents × Result Refusal Agent)
    → Outcome user id req w p
    → get id w.rows ≡ some a
    → p.1 ≡ ok s
    → s.version ≢ a.version
    → again.version ≡ req.version
    → update_locked user id again p.0
      ≡ (p.0, err (Refusal.refused (mismatch (a.version + 1) req.version)))
once_after user id req again w a s _ (Outcome.refused e) g done moved same = absurd (cc done)
once_after user id req again w a s _ (Outcome.unchanged b f) g done moved same =
    absurd (
      moved
        (sym (ap Agent.version (ok_same b s done)) ∙ ap Agent.version (owned user id w a b g f)))
once_after user id req again w a s _ (Outcome.saved b t u f x v kept there others top) g done moved
      same =
    let at : a.version ≡ req.version = sym (v ∙ ap Agent.version (owned user id w a b g f)) in
    stale user id again u t req.version (found_saved user id w u b t f kept.0 there) kept.1
      (kept.2 ∙ ap (λ n. n + 1) (sym v)) same
    ∙ ap (λ n. (u, err (Refusal.refused (mismatch (n + 1) req.version)))) (sym at)

-- If an update changes an agent's version, then any later update of the same user with the same
-- version, whose environment is found, is refused as a mismatch with the next version, and writes
-- nothing: no update is lost.
pub agent_update_once :
    (user id : ℕ) (req again : UpdateAgentRequest) (envs later : Table Environments.Row)
    (w : Agents) (a s : Agent) (o : Option ℕ)
    → get id w.rows ≡ some a
    → (agent_update user id req envs w).1 ≡ ok s
    → s.version ≢ a.version
    → again.version ≡ req.version
    → resolve_environment user (wanted again.environment_id) later ≡ ok o
    → let u = (agent_update user id req envs w).0 in
      agent_update user id again later u
      ≡ (u, err (Refusal.refused (mismatch (a.version + 1) req.version)))
agent_update_once user id req again envs later w a s o found done moved same there =
    resolved user id again later (agent_update user id req envs w).0 o there
    ∙ once_after user id req again w a s (agent_update user id req envs w)
        (agent_update_outcome user id req envs w) found done moved same
