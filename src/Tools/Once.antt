-- ===== src/Tools/Once.antt =====
-- What a run of the revert script opens.
use agent_on_demand.Prelude.{
  ℕ, zero, suc, ◌≤◌, ◌≡◌, ◌≢◌, ◌⊎◌, refl, sym, ap, subst, ◌∙◌, Bool, true, false, ◌&&◌, Option,
  none, some, List, [], ◌∷◌, ◌++◌, any, all, count, get_elem?, All, All-map, All-append, arith,
  Bool-cases, Option-cases, inl, inr,
}
use mathlib.Core.List.{append_assoc}
use agent_on_demand.Prelude.Result.{Result, ok, err}
use agent_on_demand.Prelude.Text.{Text, codes, text_eq, text_eq_iff, strip}
use agent_on_demand.Json.{Json}
use agent_on_demand.Auth.Access.{after_prefix-append}
use agent_on_demand.Auth.{after_prefix}
use agent_on_demand.Tools.Revert.{
  Fault, FailedDeploy, PullRequest, Command, fetch, checkout, revert, push, create, short_sha,
  migrations_prefix, starts_with, branch_of, pull_of, is_revert_commit, commit_touches_migrations,
  existing_revert_pr_exists, open_revert_pr, is_due, acted, process_deploy, process_deploys,
}

-- The pull requests that the script opens for a short SHA: by their branch and title.
pub is_for : Text → PullRequest → Bool
is_for t p =
    text_eq p.head (codes "auto-revert/" ++ t) && starts_with (codes "Auto-revert: " ++ t) p.title

zero_or_more : (n : ℕ) → (n ≡ 0) ⊎ (1 ≤ n)
zero_or_more zero = inl refl
zero_or_more (suc n) = inr (omega arith)

module _ (as_str : Json → Text) (subject : Text → Option Text) (files : Text → Option (List Text))
    (search : Text → List PullRequest → Option Bool) (succeeds : Command → Bool) where
  -- An opened pull request of these deploys.
  abbrev pub Justified : Bool → List FailedDeploy → PullRequest → Type 0
  Justified dry_run ds p =
      (dry_run ≡ false)
      × ((i : ℕ) × (d : FailedDeploy) × (get_elem? ds i ≡ some d)
          × (p ≡ pull_of as_str d p.draft p.draft)
          × ((s : Text) × (subject d.commit_sha ≡ some s)
              × (starts_with (codes "Revert ") (strip s) ≡ false))
          × ((ls : List Text) × (files d.commit_sha ≡ some ls)
              × (p.draft ≡ any (starts_with migrations_prefix) ls)))

  -- What a revert that is due has passed.
  due :
      (d : FailedDeploy) (pulls : List PullRequest) (t : Bool)
      → is_due as_str subject files search succeeds d pulls ≡ ok (some t)
      → ((s : Text) × (subject d.commit_sha ≡ some s)
          × (starts_with (codes "Revert ") (strip s) ≡ false))
        × (search (short_sha d.commit_sha) pulls ≡ some false)
        × ((ls : List Text) × (files d.commit_sha ≡ some ls)
            × (t ≡ any (starts_with migrations_prefix) ls))
  unfolding is_due is_revert_commit existing_revert_pr_exists commit_touches_migrations
  due d pulls t e = elim (Option-cases (subject d.commit_sha)) [
    | inl h ↦ absurd (ground (arith, e, h))
    | inr (s, h) ↦ elim (Bool-cases (starts_with (codes "Revert ") (strip s))) [
      | inl r ↦ absurd (ground (arith, e, h, r))
      | inr r ↦ elim (Option-cases (search (short_sha d.commit_sha) pulls)) [
        | inl k ↦ absurd (ground (arith, e, h, r, k))
        | inr (found, k) ↦ elim (Option-cases (files d.commit_sha)) [
          | inl f ↦ absurd (ground (arith, e, h, r, k, f))
          | inr (ls, f) ↦
              ((s, h, r), ground (arith, e, h, r, k, f), (ls, f, ground (arith, e, h, r, k, f)))
        ]
      ]
    ]
  ]

  opened :
      (d : FailedDeploy) (t : Bool) (pulls : List PullRequest)
      → ((open_revert_pr as_str subject files search succeeds d t t pulls).0 ≡ pulls)
        ⊎ ((open_revert_pr as_str subject files search succeeds d t t pulls).0
            ≡ pull_of as_str d t t ∷ pulls)
  unfolding open_revert_pr
  opened d t pulls =
      elim (Bool-cases (
        all succeeds (
          fetch
          ∷ checkout (branch_of d.commit_sha)
          ∷ revert d.commit_sha
          ∷ push (branch_of d.commit_sha)
          ∷ create (pull_of as_str d t t)
          ∷ []))) [ inl h ↦ inr (rw h refl) | inr h ↦ inl (rw h refl) ]

  acted_cases :
      (r : Result Fault (Option Bool)) (d : FailedDeploy) (dry_run : Bool)
      (pulls : List PullRequest)
      → ((acted as_str subject files search succeeds r d dry_run pulls).0 ≡ pulls)
        ⊎ ((t : Bool) × ((acted as_str subject files search succeeds r d dry_run pulls).0
              ≡ pull_of as_str d t t ∷ pulls)
            × (r ≡ ok (some t))
            × (dry_run ≡ false))
  acted_cases (err e) d dry_run pulls = inl refl
  acted_cases (ok none) d dry_run pulls = inl refl
  acted_cases (ok (some t)) d true pulls = inl refl
  acted_cases (ok (some t)) d false pulls = elim (opened d t pulls) [
    | inl h ↦ inl h
    | inr h ↦ inr (t, h, refl, refl)
  ]

  later :
      (dry_run : Bool) (d : FailedDeploy) (ds : List FailedDeploy) (p : PullRequest)
      → Justified dry_run ds p
      → Justified dry_run (d ∷ ds) p
  later dry_run d ds p (n, (i, e, at, is, s, f)) = (n, (suc i, e, at, is, s, f))

  -- A run leaves every pull request as it is and opens new ones, none of them in a dry run. Each is that
  -- of one of the failed deploys: the subject of its commit does not start with `Revert `, and it is a
  -- draft exactly when the commit touches the migrations. This holds whatever git and the search answer.
  pub process_deploys-Justified :
      (dry_run : Bool) (seen : List Text) (ds : List FailedDeploy) (pulls : List PullRequest)
      → (new : List PullRequest) × (process_deploys as_str subject files search succeeds dry_run
            seen ds pulls
          ≡ new ++ pulls)
        × All (Justified dry_run ds) new
  unfolding process_deploys process_deploy
  process_deploys-Justified dry_run seen [] pulls = ([], refl, tt)
  process_deploys-Justified dry_run seen (d ∷ ds) pulls =
      elim (Bool-cases (any (text_eq d.commit_sha) seen)) [
        | inl h ↦
            let (new, e, j) = process_deploys-Justified dry_run seen ds pulls in
            (new, rw h e, All-map (later dry_run d ds) new j)
        | inr h ↦
            elim (acted_cases (is_due as_str subject files search succeeds d pulls) d dry_run
              pulls) [
                | inl k ↦
                    let (new, e, j) =
                      process_deploys-Justified dry_run (d.commit_sha ∷ seen) ds pulls in
                    (new, rw (h, k) e, All-map (later dry_run d ds) new j)
                | inr (t, k, r, n) ↦
                    let p = pull_of as_str d t t in
                    let (new, e, j) =
                      process_deploys-Justified dry_run (d.commit_sha ∷ seen) ds (p ∷ pulls) in
                    let (s, f, ls) = due d pulls t r in
                    (
                      new ++ p ∷ [],
                      rw (h, k) (e ∙ sym (append_assoc new (p ∷ []) pulls)),
                      All-append (Justified dry_run (d ∷ ds)) new (p ∷ [])
                          (All-map (later dry_run d ds) new j) ((n, (0, d, refl, refl, s, ls)), tt),
                    )
              ]
      ]

  -- The search finds the pull requests that the script has opened, or fails.
  abbrev pub Finds : Type 0
  Finds =
      (t : Text) (pulls : List PullRequest)
      → 1 ≤ count (is_for t) pulls
      → search t pulls ≢ some false

  same_short :
      (t : Text) (d : FailedDeploy) (x : Bool)
      → is_for t (pull_of as_str d x x) ≡ true
      → short_sha d.commit_sha ≡ t
  unfolding is_for
  same_short t d x h =
      let same_head : codes "auto-revert/" ++ short_sha d.commit_sha ≡ codes "auto-revert/" ++ t =
        (text_eq_iff (branch_of d.commit_sha) (codes "auto-revert/" ++ t)).0 (ground (arith, h)) in
      let same : some (short_sha d.commit_sha) ≡ some t =
        sym (after_prefix-append (codes "auto-revert/") (short_sha d.commit_sha))
        ∙ ap (after_prefix (codes "auto-revert/")) same_head
        ∙ after_prefix-append (codes "auto-revert/") t in
      cc same

  one_more :
      (t : Text) (d : FailedDeploy) (x : Bool) (pulls : List PullRequest)
      → Finds
      → search (short_sha d.commit_sha) pulls ≡ some false
      → count (is_for t) pulls ≤ 1
      → count (is_for t) (pull_of as_str d x x ∷ pulls) ≤ 1
  unfolding count
  one_more t d x pulls finds absent b = elim (Bool-cases (is_for t (pull_of as_str d x x))) [
    | inr h ↦ ground (arith, h, b)
    | inl h ↦ elim (zero_or_more (count (is_for t) pulls)) [
      | inr some_there ↦ absurd (
          finds t pulls some_there
            (subst (λ s. search s pulls ≡ some false) (same_short t d x h) absent))
      | inl none_there ↦ ground (arith, h, none_there)
    ]
  ]

  at_most_one :
      (finds : Finds) (t : Text) (dry_run : Bool) (seen : List Text) (ds : List FailedDeploy)
      (pulls : List PullRequest)
      → count (is_for t) pulls ≤ 1
      → count
          (is_for t)
          (process_deploys as_str subject files search succeeds dry_run seen ds pulls)
        ≤ 1
  unfolding process_deploys process_deploy
  at_most_one finds t dry_run seen [] pulls b = b
  at_most_one finds t dry_run seen (d ∷ ds) pulls b =
      elim (Bool-cases (any (text_eq d.commit_sha) seen)) [
        | inl h ↦ rw h (at_most_one finds t dry_run seen ds pulls b)
        | inr h ↦
            elim (acted_cases (is_due as_str subject files search succeeds d pulls) d dry_run
              pulls) [
                | inl k ↦ rw (h, k) (at_most_one finds t dry_run (d.commit_sha ∷ seen) ds pulls b)
                | inr (x, k, r, n) ↦
                    let absent = (due d pulls x r).1 in
                    rw (h, k)
                      (at_most_one finds t dry_run (d.commit_sha ∷ seen) ds
                        (pull_of as_str d x x ∷ pulls) (one_more t d x pulls finds absent b))
              ]
      ]

  -- If the search on GitHub finds the pull requests that the script has opened, or fails, and there is at most
  -- one for a short SHA before a run, then there is at most one after it, however often the SHA's deploy is
  -- listed.
  pub process_deploys_once :
      (finds : (t : Text) (pulls : List PullRequest)
        → 1 ≤ count (is_for t) pulls
        → search t pulls ≢ some false)
      (t : Text) (dry_run : Bool) (seen : List Text) (ds : List FailedDeploy)
      (pulls : List PullRequest)
      → count (is_for t) pulls ≤ 1
      → count
          (is_for t)
          (process_deploys as_str subject files search succeeds dry_run seen ds pulls)
        ≤ 1
  process_deploys_once finds t dry_run seen ds pulls b = at_most_one finds t dry_run seen ds pulls b
