-- ===== src/Requests/Cases.antt =====
-- The branches of the requests' transactions: each leaves the store, or commits its rows where its
-- checks have passed.
use agent_on_demand.Prelude.{
  ℕ, leb, ◌<◌, ◌≡◌, refl, ◌≢◌, inl, inr, none, some, arith, Option-cases, Bool-cases,
}
use agent_on_demand.Prelude.Table.{get, modify}
use agent_on_demand.State.{Status, check_can_accept_prompt, check_can_terminate, check_can_delete}
use agent_on_demand.Store.{Session, Store}
use agent_on_demand.Store.Quota.{active_session_count_for}
use agent_on_demand.Requests.{get_owned}
use agent_on_demand.Requests.Create.{
  Settings, Draw, RunRequest, Plan, locked_max, ensure_quota, create_rows, create_locked,
}
use agent_on_demand.Requests.Prompt.{PromptRequest, prompt_rows, prompt_checked, prompt_locked}
use agent_on_demand.Requests.End.{
  terminated_row, defer_destroy, terminate_session, delete_rows, delete_session,
}

pub get-of_get_owned :
    (user id : ℕ) (w : Store) (s : Session)
    → get_owned user id w.sessions ≡ some s
    → (get id w.sessions ≡ some s) × (s.user ≡ user)
unfolding get_owned
get-of_get_owned user id w s e = ground arith

abbrev pub terminate_rows : ℕ → Session → Store → Store
terminate_rows id s w = record w {
  sessions = modify id terminated_row w.sessions;
  destroys = defer_destroy s.backend_handle w.destroys;
}

module _ {ℓ} (P : Store → Type ℓ) (w : Store) where
  pub create_cases :
      (cfg : Settings) (user : ℕ) (draw : Draw) (req : RunRequest) (p : Plan)
      → P (record w { quotas = ensure_quota user w.quotas })
      → (active_session_count_for user w.sessions < locked_max cfg user w
          → P (create_rows cfg user draw req p w))
      → P (create_locked cfg user draw req p w).0
  unfolding create_locked
  create_cases cfg user draw req p full room =
      elim (Bool-cases (leb (locked_max cfg user w) (active_session_count_for user w.sessions))) [
        | inl e ↦ rw (e, create_locked) full
        | inr e ↦ rw (e, create_locked) (room (ground arith))
      ]

  checked_cases :
      (id : ℕ) (req : PromptRequest) (status : Status)
      → P w
      → (status ≡ Status.completed → P (prompt_rows id req w))
      → P (prompt_checked id req w status).0
  unfolding check_can_accept_prompt
  checked_cases id req Status.completed kept moved = moved refl
  checked_cases id req Status.pending kept moved = kept
  checked_cases id req Status.running kept moved = kept
  checked_cases id req Status.failed kept moved = kept
  checked_cases id req Status.terminated kept moved = kept

  pub prompt_cases :
      (id : ℕ) (req : PromptRequest)
      → P w
      → ((s : Session)
          → get id w.sessions ≡ some s
          → s.status ≡ Status.completed
          → P (prompt_rows id req w))
      → P (prompt_locked id req w).0
  unfolding prompt_locked
  prompt_cases id req kept moved = elim (Option-cases (get id w.sessions)) [
    | inl gone ↦ rw (gone, prompt_locked) kept
    | inr (s, e) ↦ rw (e, prompt_locked) (checked_cases id req s.status kept (moved s e))
  ]

  pub terminate_cases :
      (user id : ℕ)
      → P w
      → ((s : Session)
          → get id w.sessions ≡ some s
          → s.status ≢ Status.terminated
          → P (terminate_rows id s w))
      → P (terminate_session user id w).0
  unfolding terminate_session check_can_terminate
  terminate_cases user id kept moved = elim (Option-cases (get_owned user id w.sessions)) [
    | inl gone ↦ rw (gone, terminate_session) kept
    | inr (s, e) ↦ elim (Option-cases (check_can_terminate s.status)) [
      | inl fine ↦
          rw (e, fine, terminate_session)
            (moved s (get-of_get_owned user id w s e).0 (ground arith))
      | inr (r, refused) ↦ rw (e, refused, terminate_session) kept
    ]
  ]

  pub delete_cases :
      (user id : ℕ)
      → P w
      → ((s : Session)
          → get id w.sessions ≡ some s
          → s.status ≢ Status.pending
          → s.status ≢ Status.running
          → P (delete_rows id s w))
      → P (delete_session user id w).0
  unfolding delete_session check_can_delete
  delete_cases user id kept moved = elim (Option-cases (get_owned user id w.sessions)) [
    | inl gone ↦ rw (gone, delete_session) kept
    | inr (s, e) ↦ elim (Option-cases (check_can_delete s.status)) [
      | inl fine ↦
          rw (e, fine, delete_session)
            (moved s (get-of_get_owned user id w s e).0 (inactive s.status fine).0
              (inactive s.status fine).1)
      | inr (r, refused) ↦ rw (e, refused, delete_session) kept
    ]
  ]
    where
      inactive :
          (s : Status) → check_can_delete s ≡ none → (s ≢ Status.pending) × (s ≢ Status.running)
      inactive s fine = ground arith
