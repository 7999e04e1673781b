-- ===== src/Requests/End.antt =====
-- `terminate_session` and `delete_session` of src/agent_on_demand/views/sessions/lifecycle.py, with the
-- pre_delete signal of src/agent_on_demand/signals.py.
use text.Mathlib.Text.{◌==◌ as str_eq}
use agent_on_demand.Prelude.{ℕ, ◌==◌, String, not, none, some, List, [], ◌∷◌, if◌then◌else◌, select}
use agent_on_demand.Prelude.Table.{Table, modify, remove}
use agent_on_demand.Http.{Response, error, ended, deleted}
use agent_on_demand.State.{Status, check_can_terminate, check_can_delete}
use agent_on_demand.Store.{Session, Turn, Store}
use agent_on_demand.Requests.{get_owned}

-- `if handle: destroy_session_task.defer(handle=handle)`.
abbrev pub defer_destroy : String → List String → List String
defer_destroy handle queue = if str_eq handle "" then queue else handle ∷ queue

abbrev pub terminated_row : Session → Session
terminated_row s = record s { status = Status.terminated; backend_handle = "" }

unfoldable pub terminate_session : ℕ → ℕ → Store → Store × Response
terminate_session user id w = elim (get_owned user id w.sessions) [
  | none ↦ (w, error 404 "Session not found")
  | some s ↦ elim (check_can_terminate s.status) [
    | some r ↦ (w, r)
    | none ↦ (
      record w {
        sessions = modify id terminated_row w.sessions;
        destroys = defer_destroy s.backend_handle w.destroys;
      },
      ended id,
    )
  ]
]

-- ON DELETE CASCADE of the turns of a session.
unfoldable pub without_turns : ℕ → Table Turn → Table Turn
without_turns id [] = []
without_turns id ((k, t) ∷ ts) =
    if t.session == id then without_turns id ts else (k, t) ∷ without_turns id ts

-- `session.delete()`: the signal, the row, and the cascades.
unfoldable pub delete_rows : ℕ → Session → Store → Store
delete_rows id s w = record w {
  sessions = remove id w.sessions;
  turns = without_turns id w.turns;
  logs = select (λ l. not (l.session == id)) w.logs;
  resources = select (λ r. not (r.session == id)) w.resources;
  secrets = select (λ v. not (v.session == id)) w.secrets;
  destroys = defer_destroy s.backend_handle w.destroys;
}

unfoldable pub delete_session : ℕ → ℕ → Store → Store × Response
delete_session user id w = elim (get_owned user id w.sessions) [
  | none ↦ (w, error 404 "Session not found")
  | some s ↦ elim (check_can_delete s.status) [
    | some r ↦ (w, r)
    | none ↦ (delete_rows id s w, deleted id)
  ]
]
