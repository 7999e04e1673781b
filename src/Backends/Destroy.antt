-- ===== src/Backends/Destroy.antt =====
-- Cleaning up behind a session.
use text.Mathlib.Text.{◌==◌ as str_eq}
use Prim.Native.String.{◌++◌ as str_append}
use agent_on_demand.Prelude.{String, ◌≡◌, ◌⊎◌, ◌↔◌, refl, ap, Bool, false, inl, inr}
use agent_on_demand.Prelude.Result.{Result, ok, err}
use agent_on_demand.Backends.{
  SdkError, not_found, sprite_error, other, Sdk, native, ServiceError, translated, as_not_found,
  get, destroy, swallowed, best_effort_delete, is_registered, get_client, require_client, lifted,
  resume_session, destroy_session,
}

-- The documented behaviour of the service: a sprite that is deleted, or not found for the deletion, is not
-- found afterwards.
pub record Lawful {S : Type 0} (sdk : Sdk S) (alive : String → S → Bool) : Type 0 where
  pub deleted : (n : String) (s t : S) → sdk.delete_sprite n s ≡ (t, ok tt) → alive n t ≡ false
  pub absent :
      (n m : String) (s t : S) → sdk.delete_sprite n s ≡ (t, err (not_found m)) → alive n t ≡ false
  pub missing :
      (n : String) (s : S)
      → alive n s ≡ false
      → (m : String) × (sdk.get_sprite n s ≡ (s, err (not_found m)))

module _ (token : String) {S : Type 0} (sdk : Sdk S) where
  destroy_session_lem :
      (handle : String) (s : S)
      → str_eq token "" ≡ false
      → str_eq handle "" ≡ false
      → destroy_session token sdk handle s
        ≡ lifted (swallowed (translated as_not_found (sdk.delete_sprite handle s)))
  unfolding destroy_session get_client is_registered best_effort_delete destroy
  destroy_session_lem handle s t h = rw (h, t) refl

  -- With a token, the destruction of a session raises exactly when the SDK raises what is no
  -- SpriteError; a missing sprite and every other SpriteError are logged only.
  pub destroy_session_raises :
      (handle : String) (s : S)
      → str_eq token "" ≡ false
      → str_eq handle "" ≡ false
      → (e : ServiceError)
      → ((destroy_session token sdk handle s).1 ≡ err e) ↔ (
          (m : String) × ((sdk.delete_sprite handle s).1 ≡ err (other m))
          × (e ≡ ServiceError.raised (native m)))
  destroy_session_raises handle s t h e =
      rw (destroy_session_lem handle s t h) (by_answer (sdk.delete_sprite handle s) e)
    where
      by_answer :
          (a : S × Result SdkError (Unit {0})) (x : ServiceError)
          → ((lifted (swallowed (translated as_not_found a))).1 ≡ err x)
            ↔ ((m : String) × (a.1 ≡ err (other m)) × (x ≡ ServiceError.raised (native m)))
      by_answer (u, ok v) x = ((λ q. absurd (cc q)), (λ p. absurd (cc (p.1))))
      by_answer (u, err (not_found m)) x = ((λ q. absurd (cc q)), (λ p. absurd (cc (p.1))))
      by_answer (u, err (sprite_error m)) x = ((λ q. absurd (cc q)), (λ p. absurd (cc (p.1))))
      by_answer (u, err (other m)) x = ((λ q. (m, refl, cc q)), (λ p. cc (p.1, p.2)))

  resume_session_lem :
      (handle m : String) (s : S)
      → str_eq token "" ≡ false
      → sdk.get_sprite handle s ≡ (s, err (not_found m))
      → resume_session token sdk handle s
        ≡ (s, err (ServiceError.handle_not_found (str_append "Sprite not found: " m)))
  unfolding resume_session require_client get_client is_registered get
  resume_session_lem handle m s t e = rw (t, e) refl

  final :
      (handle m : String) (s u : S)
      → str_eq token "" ≡ false
      → str_eq handle "" ≡ false
      → destroy_session token sdk handle s ≡ (u, ok tt)
      → sdk.get_sprite handle u ≡ (u, err (not_found m))
      → ((destroy_session token sdk handle s).1 ≡ ok tt)
        × ((n : String) × ((resume_session token sdk handle
                (destroy_session token sdk handle s).0).1
              ≡ err (ServiceError.handle_not_found n)))
  final handle m s u t h e missing = rw e (
    refl,
    (str_append "Sprite not found: " m, ap (λ p. p.1) (resume_session_lem handle m u t missing)),
  )

  -- On a service that behaves as documented: where the SDK deletes the sprite of a session or does not
  -- find it, the destruction raises nothing, and the session cannot be resumed afterwards.
  pub destroy_session_final :
      (alive : String → S → Bool) (law : Lawful sdk alive) (handle : String) (s : S)
      → str_eq token "" ≡ false
      → str_eq handle "" ≡ false
      → ((sdk.delete_sprite handle s).1 ≡ ok tt)
        ⊎ ((m : String) × ((sdk.delete_sprite handle s).1 ≡ err (not_found m)))
      → ((destroy_session token sdk handle s).1 ≡ ok tt)
        × ((m : String) × ((resume_session token sdk handle
                (destroy_session token sdk handle s).0).1
              ≡ err (ServiceError.handle_not_found m)))
  destroy_session_final alive law handle s t h (inl d) =
      let u = (sdk.delete_sprite handle s).0 in
      let answer : sdk.delete_sprite handle s ≡ (u, ok tt) = λ i. (u, d i) in
      let (m, missing) = law.missing handle u (law.deleted handle s u answer) in
      final handle m s u t h (rw (destroy_session_lem handle s t h, answer) refl) missing
  destroy_session_final alive law handle s t h (inr (n, d)) =
      let u = (sdk.delete_sprite handle s).0 in
      let answer : sdk.delete_sprite handle s ≡ (u, err (not_found n)) = λ i. (u, d i) in
      let (m, missing) = law.missing handle u (law.absent handle n s u answer) in
      final handle m s u t h (rw (destroy_session_lem handle s t h, answer) refl) missing
