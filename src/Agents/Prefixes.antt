-- ===== src/Agents/Prefixes.antt =====
-- What `normalize_provider_model` of src/agent_on_demand/providers.py makes of a model that it has
-- made.
use agent_on_demand.Prelude.{
  ℕ, ◌≡◌, refl, ap, subst, ◌∙◌, true, false, Option, none, some, [], ◌∷◌, ◌++◌, arith, Bool-cases,
  inl, inr, ◌⊎◌, ◌≢◌,
}
use agent_on_demand.Prelude.Result.{Result, ok, err}
use agent_on_demand.Prelude.Table.{Table, get}
use agent_on_demand.Prelude.Text.{Text, codes, text_eq, strip, lstrip, rstrip, is_space, keep}
use agent_on_demand.Scripts.{is_blank}
use agent_on_demand.Environments
use agent_on_demand.Environments.{check_version_match}
use agent_on_demand.Agents.{
  ModelError, partition, is_supported, is_known_prefix, named_model, unprefixed,
  normalize_provider_model, Agent, Agents, insert_agent, new_agent, CreateAgentRequest,
  UpdateAgentRequest, Refusal, agents_create, resolve_environment,
}
use agent_on_demand.Agents.Update.{find_agent, update_locked, agent_update, wanted}
use agent_on_demand.Agents.Bumps.{Result-cases}
use agent_on_demand.Http.{Response}

prefix_dropped :
    (c : ℕ) (cs : Text)
    → rstrip (c ∷ cs) ≡ c ∷ cs
    → normalize_provider_model (codes "anthropic") (codes "anthropic/openai/" ++ (c ∷ cs))
      ≡ ok (codes "anthropic", codes "openai/" ++ (c ∷ cs))
unfolding normalize_provider_model strip lstrip rstrip is_space partition is_supported
    is_known_prefix text_eq
prefix_dropped c cs h = rw (h, h) refl

prefix_refused :
    (c : ℕ) (cs : Text)
    → rstrip (c ∷ cs) ≡ c ∷ cs
    → normalize_provider_model (codes "anthropic") (codes "openai/" ++ (c ∷ cs))
      ≡ err (ModelError.other_prefix (codes "openai") (codes "anthropic"))
unfolding normalize_provider_model strip lstrip rstrip is_space partition is_supported
    is_known_prefix text_eq
prefix_refused c cs h = rw h refl

same_version : (n : ℕ) → check_version_match n n ≡ none
unfolding check_version_match
same_version n = ground arith

-- What a refusal is: 422 for the model, or else the version is stale or the update names an environment.
abbrev pub Reason : UpdateAgentRequest → ℕ → ModelError → Refusal → Type 0
Reason req version e x =
    (x ≡ Refusal.unprocessable e)
    ⊎ ((req.version ≢ version) ⊎ ((k : ℕ) × (req.environment_id ≡ some (some k))))

named :
    (user : ℕ) (o : Option (Option ℕ)) (later : Table Environments.Row) (x : Refusal)
    → resolve_environment user (wanted o) later ≡ err x
    → (k : ℕ) × (o ≡ some (some k))
unfolding resolve_environment
named user none later x e = absurd (cc e)
named user (some none) later x e = absurd (cc e)
named user (some (some k)) later x e = (k, refl)

module _ (user id : ℕ) (again : UpdateAgentRequest) (w : Agents) (a : Agent) (e : ModelError)
    (found : find_agent user id w.rows ≡ some a) (active : a.is_archived ≡ false)
    (refused : normalize_provider_model a.content.provider a.content.model ≡ err e)
    (no_provider : again.provider ≡ none) (no_model : again.model ≡ none) where
  locked_refused :
      (o : Option Response)
      → check_version_match again.version a.version ≡ o
      → (x : Refusal) × (update_locked user id again w ≡ (w, err x)) × Reason again a.version e x
  unfolding update_locked
  locked_refused (some r) m = (
    Refusal.refused r,
    rw (update_locked, found, active, m) refl,
    inr (
        inl λ same. absurd (
          cc (
            m,
            subst (λ v. check_version_match again.version v ≡ none) same
                (same_version again.version),
          ))),
  )
  locked_refused none m = (
    Refusal.unprocessable e,
    rw (update_locked, found, active, m, no_provider, no_model) (rw refused refl),
    inl refl,
  )

  update_refused :
      (later : Table Environments.Row)
      → (x : Refusal) × (agent_update user id again later w ≡ (w, err x))
        × Reason again a.version e x
  unfolding agent_update
  update_refused later =
      elim (Result-cases (resolve_environment user (wanted again.environment_id) later)) [
        | inl (x, h) ↦
            (x, rw (agent_update, h) refl, inr (inr (named user again.environment_id later x h)))
        | inr (o, h) ↦
            let (x, same, reason) =
              locked_refused (check_version_match again.version a.version) refl in
            (x, rw (agent_update, h) same, reason)
      ]

stored :
    (user id c : ℕ) (cs : Text) (req : CreateAgentRequest) (envs : Table Environments.Row)
    (environment : Option ℕ) (w : Agents)
    → rstrip (c ∷ cs) ≡ c ∷ cs
    → req.provider ≡ codes "anthropic"
    → req.model ≡ codes "anthropic/openai/" ++ (c ∷ cs)
    → resolve_environment user req.environment_id envs ≡ ok environment
    → agents_create user id req envs w
      ≡ insert_agent id
          (new_agent user req (codes "anthropic") (codes "openai/" ++ (c ∷ cs)) environment)
          w
unfolding agents_create
stored user id c cs req envs environment w h p m e =
    rw (agents_create, p, m) (rw (prefix_dropped c cs h, e) refl)

found_new :
    (user id : ℕ) (a : Agent) (rest : Table Agent)
    → a.user ≡ user
    → find_agent user id ((id, a) ∷ rest) ≡ some a
unfolding find_agent get
found_new user id a rest h = ground (arith, h)

-- If an Anthropic agent is created with the model `anthropic/openai/…`, then it is stored with the model
-- `openai/…` as version 1. Every update of it that gives neither a model nor a provider is refused and
-- changes nothing: with 422, because the stored model is normalized again, unless the update has another
-- version than 1 or names an environment, which may refuse it first.
pub prefixed_agent_frozen :
    (user id c : ℕ) (cs : Text) (req : CreateAgentRequest) (again : UpdateAgentRequest)
    (envs later : Table Environments.Row) (environment : Option ℕ) (w : Agents)
    → rstrip (c ∷ cs) ≡ c ∷ cs
    → req.provider ≡ codes "anthropic"
    → req.model ≡ codes "anthropic/openai/" ++ (c ∷ cs)
    → resolve_environment user req.environment_id envs ≡ ok environment
    → again.provider ≡ none
    → again.model ≡ none
    → let u = (agents_create user id req envs w).0 in
      (find_agent user id u.rows
        ≡ some (new_agent user req (codes "anthropic") (codes "openai/" ++ (c ∷ cs)) environment))
      × ((x : Refusal) × (agent_update user id again later u ≡ (u, err x))
          × Reason again 1 (ModelError.other_prefix (codes "openai") (codes "anthropic")) x)
prefixed_agent_frozen user id c cs req again envs later environment w h p m e no_provider no_model =
    let a = new_agent user req (codes "anthropic") (codes "openai/" ++ (c ∷ cs)) environment in
    let there = found_new user id a w.rows refl in
    rw (stored user id c cs req envs environment w h p m e) (
      there,
      update_refused user id again (insert_agent id a w).0 a
          (ModelError.other_prefix (codes "openai") (codes "anthropic")) there refl
          (prefix_refused c cs h) no_provider no_model later,
    )

rstrip-rstrip : (s : Text) → rstrip (rstrip s) ≡ rstrip s
unfolding rstrip
rstrip-rstrip [] = refl
rstrip-rstrip (c ∷ cs) = kept c (rstrip cs) (rstrip-rstrip cs)
  where
    kept : (c : ℕ) (t : Text) → rstrip t ≡ t → rstrip (keep c t) ≡ keep c t
    kept c [] h = elim (Bool-cases (is_space c)) [ inl e ↦ rw e refl | inr e ↦ rw e (rw e refl) ]
    kept c (d ∷ ds) h = ap (keep c) h

-- It does not begin with a space.
Begun : Text → Type 0
Begun [] = Unit {0}
Begun (c ∷ cs) = is_space c ≡ false

lstrip-Begun : (s : Text) → Begun (lstrip s)
unfolding lstrip Begun
lstrip-Begun [] = tt
lstrip-Begun (c ∷ cs) = elim (Bool-cases (is_space c)) [
  | inl e ↦ rw e (lstrip-Begun cs)
  | inr e ↦ rw e e
]

lstrip-of_Begun : (s : Text) → Begun s → lstrip s ≡ s
unfolding lstrip Begun
lstrip-of_Begun [] h = refl
lstrip-of_Begun (c ∷ cs) h = rw h refl

rstrip-Begun : (s : Text) → Begun s → Begun (rstrip s)
unfolding rstrip Begun
rstrip-Begun [] h = tt
rstrip-Begun (c ∷ cs) h = kept c (rstrip cs) h
  where
    kept : (c : ℕ) (t : Text) → is_space c ≡ false → Begun (keep c t)
    kept c [] h = rw h h
    kept c (d ∷ ds) h = h

strip-strip : (s : Text) → strip (strip s) ≡ strip s
unfolding strip
strip-strip s =
    ap rstrip (lstrip-of_Begun (rstrip (lstrip s)) (rstrip-Begun (lstrip s) (lstrip-Begun s)))
    ∙ rstrip-rstrip (lstrip s)

-- What normalizing gives: a supported provider, and a model that is not blank, both without spaces
-- around them.
abbrev pub IsNormal : Text × Text → Type 0
IsNormal (provider, model) =
    (strip provider ≡ provider)
    × (strip model ≡ model)
    × (is_supported provider ≡ true)
    × (is_blank model ≡ false)

ok_IsNormal :
    (p s : Text) (qm : Text × Text)
    → is_supported (strip p) ≡ true
    → is_blank (strip s) ≡ false
    → Path (Result ModelError (Text × Text)) (ok (strip p, strip s)) (ok qm)
    → IsNormal qm
ok_IsNormal p s qm h b e = subst IsNormal same (strip-strip p, strip-strip s, h, b)
  where
    same : (strip p, strip s) ≡ qm
    same = cc e

named_model-IsNormal :
    (p s : Text) (qm : Text × Text)
    → is_supported (strip p) ≡ true
    → named_model (strip p) (strip s) ≡ ok qm
    → IsNormal qm
named_model-IsNormal p s qm h e = elim (Bool-cases (is_blank (strip s))) [
  | inl b ↦ absurd (ground (arith, e, b))
  | inr b ↦ ok_IsNormal p s qm h b (ground (arith, e, b))
]

unprefixed-IsNormal :
    (p m : Text) (part : Text × Option Text) (qm : Text × Text)
    → is_supported (strip p) ≡ true
    → is_blank (strip m) ≡ false
    → unprefixed (strip p) (strip m) part ≡ ok qm
    → IsNormal qm
unprefixed-IsNormal p m (prefix, none) qm h b e = ok_IsNormal p m qm h b e
unprefixed-IsNormal p m (prefix, some suffix) qm h b e =
    elim (Bool-cases (is_known_prefix prefix)) [
      | inr k ↦ ok_IsNormal p m qm h b (ground (arith, e, k))
      | inl k ↦ elim (Bool-cases (text_eq prefix (strip p))) [
        | inl t ↦ named_model-IsNormal p suffix qm h (ground (arith, e, k, t))
        | inr t ↦ absurd (ground (arith, e, k, t))
      ]
    ]

normalize-IsNormal :
    (p m : Text) (qm : Text × Text) → normalize_provider_model p m ≡ ok qm → IsNormal qm
unfolding normalize_provider_model
normalize-IsNormal p m qm e = elim (Bool-cases (is_supported (strip p))) [
  | inr h ↦ absurd (ground (arith, e, h))
  | inl h ↦ elim (Bool-cases (is_blank (strip m))) [
    | inl b ↦ absurd (ground (arith, e, h, b))
    | inr b ↦ unprefixed-IsNormal p m (partition (strip m)) qm h b (ground (arith, e, h, b))
  ]
]

unprefixed-same :
    (p m : Text) (part : Text × Option Text)
    → is_known_prefix part.0 ≡ false
    → unprefixed p m part ≡ ok (p, m)
unprefixed-same p m (prefix, none) k = refl
unprefixed-same p m (prefix, some suffix) k = rw k refl

normalize-again :
    (q s : Text)
    → IsNormal (q, s)
    → is_known_prefix (partition s).0 ≡ false
    → normalize_provider_model q s ≡ ok (q, s)
unfolding normalize_provider_model
normalize-again q s n k =
    rw (normalize_provider_model, n.0, n.1, n.2, n.3) (unprefixed-same q s (partition s) k)

-- If a provider and a model are accepted, then the result is a supported provider and a model that is
-- not blank, without spaces around them; and either the part of this model before the first slash is
-- again a known provider, or normalizing the result gives it again.
pub normalize_provider_model-IsNormal :
    (p m q s : Text)
    → normalize_provider_model p m ≡ ok (q, s)
    → IsNormal (q, s)
      × ((is_known_prefix (partition s).0 ≡ true) ⊎ (normalize_provider_model q s ≡ ok (q, s)))
normalize_provider_model-IsNormal p m q s e =
    let n = normalize-IsNormal p m (q, s) e in
    (
      n,
      elim (Bool-cases (is_known_prefix (partition s).0)) [
        | inl k ↦ inl k
        | inr k ↦ inr (normalize-again q s n k)
      ],
    )
