-- ===== src/Tests/Access.antt =====
-- A key that is made and used, and a session's sprite that is destroyed.
use agent_on_demand.Prelude.{
  ℕ, String, ◌≡◌, ◌⊎◌, ◌↔◌, refl, Bool, true, false, none, some, List, [], ◌∷◌, any, inl,
}
use agent_on_demand.Prelude.Result.{Result, ok, err}
use agent_on_demand.Prelude.Text.{Text, codes, text_eq}
use agent_on_demand.Http.{Response, error, ended}
use agent_on_demand.Auth.{ApiKey, check_api_key_sync, require_api_key, create_key}
use agent_on_demand.Auth.Access.{Unique, Grants, check_api_key_sync-Grants}
use agent_on_demand.Auth.Keys.{create_key_opens, require_api_key_guards}
use agent_on_demand.Backends.{
  SdkError, not_found, Sdk, SdkRun, ServiceError, destroy_session, resume_session,
}
use agent_on_demand.Backends.Destroy.{Lawful, destroy_session_final}

-- A hash that tells these keys apart.
abbrev hash : Text → Text
hash t = t

abbrev old : ApiKey
old = record {
  user = 2;
  key_hash = codes "aod_old";
  key_prefix = codes "aod_old";
  name = "ci";
  is_active = true;
  expires_at = some 50;
}

abbrev keys : List ApiKey
keys = old ∷ []

check_api_key_sync-Grants_example :
    (check_api_key_sync hash (codes "Bearer aod_old") 49 keys ≡ ok old)
    ↔ Grants hash (codes "Bearer aod_old") 49 keys old
check_api_key_sync-Grants_example =
    check_api_key_sync-Grants hash (codes "Bearer aod_old") 49 keys old (tt, tt)

abbrev made : ApiKey
made = record {
  user = 3;
  key_hash = codes "aod_new";
  key_prefix = codes "aod_new";
  name = "me";
  is_active = true;
  expires_at = none;
}

create_key_opens_example :
    Unique (made ∷ keys)
    × ((k : ApiKey) × (check_api_key_sync hash (codes "Bearer aod_new") 60 (made ∷ keys) ≡ ok k)
        × (k.user ≡ 3))
    × ((hash (codes "aod_old") ≡ hash (codes "aod_new"))
        ⊎ (check_api_key_sync hash (codes "Bearer aod_old") 60 (made ∷ keys)
            ≡ check_api_key_sync hash (codes "Bearer aod_old") 60 keys))
unfolding create_key any text_eq
create_key_opens_example =
    create_key_opens hash 3 60 "me" none (codes "new") (codes "aod_old") keys (made ∷ keys)
      (codes "aod_new") (tt, tt) refl refl

abbrev view : ℕ → ℕ → ℕ × Response
view user s = (user, ended s)

require_api_key_guards_example :
    ((k : ApiKey) × Grants hash (codes "Bearer aod_old") 49 keys k
      × (require_api_key hash true view (codes "Bearer aod_old") 49 keys 7 ≡ view k.user 7))
    ⊎ ((detail : String) × (require_api_key hash true view (codes "Bearer aod_old") 49 keys 7
          ≡ (7, error 401 detail)))
require_api_key_guards_example =
    require_api_key_guards hash true view (codes "Bearer aod_old") 49 keys 7 (tt, tt)

-- A service with one sprite, which is there or not.
abbrev answer : String → Bool → Result SdkError (Unit {0})
answer n true = ok tt
answer n false = err (not_found n)

abbrev service : Sdk Bool
service = record {
  create_sprite = λ n s. (true, ok tt);
  get_sprite = λ n s. (s, answer n s);
  delete_sprite = λ n s. (false, answer n s);
  sdk_write_text = λ n p t s. (s, answer n s);
  sdk_chmod = λ n p m s. (s, answer n s);
  update_network_policy = λ n r s. (s, answer n s);
  run_command = λ n a s. (s, SdkRun.exits);
}

service-Lawful : Lawful service (λ n s. s)
service-Lawful = record {
  deleted = λ n s t e. cc e;
  absent = λ n m s t e. cc e;
  missing = λ n s e. (n, rw e refl);
}

destroy_session_final_example :
    ((destroy_session "token" service "s1" true).1 ≡ ok tt)
    × ((m : String) × ((resume_session "token" service "s1"
            (destroy_session "token" service "s1" true).0).1
          ≡ err (ServiceError.handle_not_found m)))
destroy_session_final_example =
    destroy_session_final "token" service (λ n s. s) service-Lawful "s1" true refl refl (inl refl)
