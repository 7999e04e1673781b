-- ===== src/Requests/Limits.antt =====
-- The concurrent session quota of create.py and models/quota.py.
use agent_on_demand.Prelude.{
  ℕ, ◌+◌, ◌≤◌, ◌<◌, ◌==◌, ◌≡◌, refl, ◌⊎◌, Bool, some, [], ◌∷◌, arith, count, Bool-cases, inl, inr,
}
use agent_on_demand.Prelude.Table.{Table, get, modify}
use agent_on_demand.Http.{code, limit_reached, accepted}
use agent_on_demand.State.{Status, check_can_accept_prompt}
use agent_on_demand.Store.{Session, Store}
use agent_on_demand.Store.Quota.{active_session_count_for}
use agent_on_demand.Requests.Create.{
  Settings, Draw, RunRequest, Plan, ensure_quota, locked_max, create_rows, create_locked,
}
use agent_on_demand.Requests.Prompt.{PromptRequest, re_armed, prompt_rows, prompt_locked}

-- The transaction of a creation answers 429 exactly when the user's active sessions have reached the
-- limit; then it creates no session and no job. Otherwise it answers 202, and the user has one active
-- session more, within the limit.
pub create_limited :
    (cfg : Settings) (user : ℕ) (draw : Draw) (req : RunRequest) (p : Plan) (w : Store)
    → let active = active_session_count_for user w.sessions in
      let limit = locked_max cfg user w in
      let (u, r) = create_locked cfg user draw req p w in
      ((limit ≤ active)
        × (r ≡ limit_reached active limit)
        × (u.sessions ≡ w.sessions)
        × (u.jobs ≡ w.jobs))
      ⊎ ((r ≡ accepted draw.id 1)
          × (active_session_count_for user u.sessions ≡ active + 1)
          × (active_session_count_for user u.sessions ≤ limit))
unfolding create_locked create_rows active_session_count_for
create_limited cfg user draw req p w = ground arith

abbrev pub has_key : ℕ → ℕ × Session → Bool
has_key id row = row.0 == id

modify-no_key :
    (id : ℕ) (f : Session → Session) (t : Table Session)
    → count (has_key id) t ≡ 0
    → modify id f t ≡ t
unfolding modify count
modify-no_key id f [] e = refl
modify-no_key id f ((k, r) ∷ t) e = ground (arith, modify-no_key id f t)

active-re_armed :
    (user id : ℕ) (req : PromptRequest) (t : Table Session) (s : Session)
    → count (has_key id) t ≡ 1
    → get id t ≡ some s
    → s.user ≡ user
    → s.status ≡ Status.completed
    → active_session_count_for user (modify id (re_armed req) t)
      ≡ active_session_count_for user t + 1
unfolding active_session_count_for modify get count
active-re_armed user id req [] s u e a b = absurd (cc e)
active-re_armed user id req ((k, r) ∷ t) s u e a b = elim (Bool-cases (k == id)) [
  | inl same ↦ ground (arith, modify-no_key id (re_armed req) t)
  | inr other ↦ ground (arith, active-re_armed user id req t s)
]

-- `send_prompt` looks at no quota: for a completed session of the user, whose key is unique, its
-- transaction answers 202 and the user has one active session more, whatever the limit is. So a user
-- at the limit goes over it.
pub prompt_unlimited :
    (user id : ℕ) (req : PromptRequest) (w : Store) (s : Session)
    → count (has_key id) w.sessions ≡ 1
    → get id w.sessions ≡ some s
    → s.user ≡ user
    → s.status ≡ Status.completed
    → let (u, r) = prompt_locked id req w in
      (code r ≡ 202)
      × (active_session_count_for user u.sessions ≡ active_session_count_for user w.sessions + 1)
unfolding prompt_locked check_can_accept_prompt prompt_rows
prompt_unlimited user id req w s u e a b = ground (arith, active-re_armed user id req w.sessions s)

-- A quota row of 0 does not block its user: the limit is the default.
pub zero_quota_is_default :
    (cfg : Settings) (user : ℕ) (draw : Draw) (req : RunRequest) (p : Plan) (w : Store)
    → get user w.quotas ≡ some (some 0)
    → active_session_count_for user w.sessions < cfg.default_max_concurrent_sessions
    → (create_locked cfg user draw req p w).1 ≡ accepted draw.id 1
unfolding create_locked locked_max ensure_quota
zero_quota_is_default cfg user draw req p w e h = ground arith
