-- ===== src/Http.antt =====
-- The JSON responses of src/agent_on_demand/views: an error carries its status code and `detail`.
use agent_on_demand.Prelude.{ℕ, String}

pub data Response : Type 0 where
  -- `{"detail": …}` with a status code.
  error : ℕ → String → Response
  -- 409 of the version check: the current version and the requested one.
  mismatch : ℕ → ℕ → Response
  -- 429 of session creation: `active` and `limit`.
  limit_reached : ℕ → ℕ → Response
  -- 202: the session and its current turn.
  accepted : ℕ → ℕ → Response
  -- 200 of a terminate and of a delete.
  ended deleted : ℕ → Response

abbrev pub code : Response → ℕ
code (error n detail) = n
code (mismatch expected got) = 409
code (limit_reached active limit) = 429
code (accepted id turn) = 202
code (ended id) = 200
code (deleted id) = 200
