-- ===== src/Tools/Revert.antt =====
-- scripts/auto_revert.py: which failed deploys get a revert. The answer of the deploys API is a JSON value; git,
-- the search on GitHub and `str` are parameters. The pull requests are the state, newest first.
use text.Mathlib.Text.{◌==◌ as str_eq}
use agent_on_demand.Prelude.{
  String, Bool, true, false, Option, none, some, List, [], ◌∷◌, ◌++◌, take, any, all, if◌then◌else◌,
}
use agent_on_demand.Prelude.Result.{Result, ok, err, ◌>>=◌}
use agent_on_demand.Prelude.Text.{Text, codes, text_eq, join, strip}
use agent_on_demand.Json.{Json, null, str, arr, obj, Fields, lookup, or_default}
use agent_on_demand.Mcp.{truthy}
use agent_on_demand.Auth.{after_prefix}

-- An exception of the reading, and CalledProcessError.
pub data Fault : Type 0 where
  malformed called_process_error : Fault

pub record FailedDeploy : Type 0 where
  pub deploy_id : Json
  pub commit_sha : Text
  pub status : Text
  pub finished_at : Json
  pub service_id : Text

pub record PullRequest : Type 0 where
  pub title : Text
  pub head : Text
  pub body : Text
  pub draft : Bool

-- `d.get(k)`, and `d.get(k) or d.get(j, "")`.
abbrev pub field_of : String → Fields → Json
field_of k d = or_default null (lookup k d)

abbrev finished : Fields → Json
finished d =
    if truthy (field_of "finishedAt" d)
    then field_of "finishedAt" d
    else or_default (str "") (lookup "createdAt" d)

-- FAILED_STATUSES. A list or an object there is unhashable.
abbrev pub failed_status : Json → Result Fault (Option Text)
failed_status (str s) =
    if str_eq s "build_failed"
    then ok (some (codes s))
    else if str_eq s "update_failed"
    then ok (some (codes s))
    else ok none
failed_status (arr vs) = err Fault.malformed
failed_status (obj fs) = err Fault.malformed
failed_status _ = ok none

-- `commit.get("id")` of what the deploy holds under `commit`, if it counts as true.
abbrev sha_value : Json → Result Fault (Option Text)
sha_value (str s) = if str_eq s "" then ok none else ok (some (codes s))
sha_value v = if truthy v then err Fault.malformed else ok none

abbrev sha_of : Json → Result Fault (Option Text)
sha_of (obj commit) = sha_value (field_of "id" commit)
sha_of v = if truthy v then err Fault.malformed else ok none

abbrev made : Text → Text → Fields → Option Json → Option Text → Result Fault (Option FailedDeploy)
made service status d id none = ok none
made service status d none (some sha) = err Fault.malformed
made service status d (some id) (some sha) = ok (
    some record {
      deploy_id = id;
      commit_sha = sha;
      status = status;
      finished_at = finished d;
      service_id = service;
    })

abbrev with_status : Text → Fields → Option Text → Result Fault (Option FailedDeploy)
with_status service d none = ok none
with_status service d (some status) =
    sha_of (field_of "commit" d) >>= λ sha. made service status d (lookup "id" d) sha

unfoldable pub failed_deploy : Text → Json → Result Fault (Option FailedDeploy)
failed_deploy service (obj d) = failed_status (field_of "status" d) >>= with_status service d
failed_deploy service _ = err Fault.malformed

-- `entry["deploy"] if "deploy" in entry else entry`.
abbrev unwrapped : Json → Json
unwrapped (obj entry) = or_default (obj entry) (lookup "deploy" entry)
unwrapped v = v

abbrev consed : Option FailedDeploy → List FailedDeploy → List FailedDeploy
consed none ds = ds
consed (some d) ds = d ∷ ds

unfoldable pub failed_deploys : Text → List Json → Result Fault (List FailedDeploy)
failed_deploys service [] = ok []
failed_deploys service (entry ∷ entries) = failed_deploy service (unwrapped entry) >>= λ d.
    failed_deploys service entries >>= λ ds. ok (consed d ds)

abbrev pub short_sha : Text → Text
short_sha sha = take 12 sha

abbrev pub migrations_prefix : Text
migrations_prefix = codes "src/agent_on_demand/migrations/"

unfoldable pub starts_with : Text → Text → Bool
starts_with p s = elim (after_prefix p s) [ none ↦ false | some r ↦ true ]

unfoldable pub title_of : FailedDeploy → Text
title_of d =
    codes "Auto-revert: " ++ (short_sha d.commit_sha ++ (codes " (" ++ (d.status ++ codes ")")))

abbrev pub branch_of : Text → Text
branch_of sha = codes "auto-revert/" ++ short_sha sha

abbrev warning : List Text
warning =
    (codes "## " ++ (0x26a0 ∷ 0xfe0f ∷ codes " Migration touched"))
    ∷ []
    ∷ codes
        "This commit modified files under `src/agent_on_demand/migrations/`. Reverting the code alone does **not** undo the migration. Decide on a follow-up:"
    ∷ []
    ∷ codes "- If the migration was additive and harmless, merge this PR as-is."
    ∷ codes
        "- If the migration must be reversed, add a new rollback migration to this PR before merging."
    ∷ codes "- If the deploy is acceptable and the failure was transient, close this PR."
    ∷ []
    ∷ []

abbrev advice : List Text
advice =
    codes "## What to do"
    ∷ []
    ∷ codes "1. Verify the failed deploy in the Render dashboard."
    ∷ codes "2. If the revert is correct, **merge** this PR."
    ∷ codes "3. If the failure was a flake or you've already hotfixed forward, **close** this PR."
    ∷ []
    ∷ codes "Generated by `.github/workflows/auto-revert.yml`."
    ∷ []

-- The commands that have to succeed, in their order.
pub data Command : Type 0 where
  fetch : Command
  checkout revert push : Text → Command
  create : PullRequest → Command

module _ (as_str : Json → Text) where
  unfoldable pub render_pr_body : FailedDeploy → Bool → Text
  render_pr_body d touched =
      let head =
        (codes "Auto-opened by `scripts/auto_revert.py` after Render deploy `"
          ++ (as_str d.deploy_id ++ (codes "` finished as `" ++ (d.status ++ codes "`."))))
        ∷ []
        ∷ (codes "- **Service**: `" ++ (d.service_id ++ codes "`"))
        ∷ (codes "- **Failed commit**: `"
            ++ (short_sha d.commit_sha ++ (codes "` (full: `" ++ (d.commit_sha ++ codes "`)"))))
        ∷ (codes "- **Finished at**: " ++ as_str d.finished_at)
        ∷ []
        ∷ [] in
      join (b'\n' ∷ []) (head ++ ((if touched then warning else []) ++ advice))

  abbrev pub pull_of : FailedDeploy → Bool → Bool → PullRequest
  pull_of d draft touched = record {
    title = title_of d;
    head = branch_of d.commit_sha;
    body = render_pr_body d touched;
    draft = draft;
  }

-- What git and GitHub answer: the subject of a commit, its files, whether the search finds a pull
-- request, and whether a command succeeds; `none` is a command that fails.
module _ (as_str : Json → Text) (subject : Text → Option Text) (files : Text → Option (List Text))
    (search : Text → List PullRequest → Option Bool) (succeeds : Command → Bool) where
  unfoldable pub is_revert_commit : Text → Result Fault Bool
  is_revert_commit sha = elim (subject sha) [
    | none ↦ err Fault.called_process_error
    | some s ↦ ok (starts_with (codes "Revert ") (strip s))
  ]

  unfoldable pub commit_touches_migrations : Text → Result Fault Bool
  commit_touches_migrations sha = elim (files sha) [
    | none ↦ err Fault.called_process_error
    | some ls ↦ ok (any (starts_with migrations_prefix) ls)
  ]

  unfoldable pub existing_revert_pr_exists : Text → List PullRequest → Result Fault Bool
  existing_revert_pr_exists sha pulls = elim (search (short_sha sha) pulls) [
    | none ↦ err Fault.called_process_error
    | some found ↦ ok found
  ]

  -- The label of a draft changes nothing here.
  unfoldable pub open_revert_pr :
      FailedDeploy → Bool → Bool → List PullRequest → List PullRequest × Result Fault Bool
  open_revert_pr d draft touched pulls =
      if all succeeds (
        fetch
        ∷ checkout (branch_of d.commit_sha)
        ∷ revert d.commit_sha
        ∷ push (branch_of d.commit_sha)
        ∷ create (pull_of as_str d draft touched)
        ∷ [])
      then (pull_of as_str d draft touched ∷ pulls, ok true)
      else (pulls, err Fault.called_process_error)

  -- The tests before a revert: whether one is due, and whether the commit touches migrations.
  unfoldable pub is_due : FailedDeploy → List PullRequest → Result Fault (Option Bool)
  is_due d pulls = is_revert_commit d.commit_sha >>= λ reverts.
      if reverts
      then ok none
      else (existing_revert_pr_exists d.commit_sha pulls >>= λ exists.
          if exists
          then ok none
          else (commit_touches_migrations d.commit_sha >>= λ touched. ok (some touched)))

  abbrev pub acted :
      Result Fault (Option Bool)
      → FailedDeploy
      → Bool
      → List PullRequest
      → List PullRequest × Result Fault Bool
  acted (err e) d dry_run pulls = (pulls, err e)
  acted (ok none) d dry_run pulls = (pulls, ok false)
  acted (ok (some touched)) d dry_run pulls =
      if dry_run then (pulls, ok false) else open_revert_pr d touched touched pulls

  unfoldable pub process_deploy :
      FailedDeploy → Bool → List PullRequest → List PullRequest × Result Fault Bool
  process_deploy d dry_run pulls = acted (is_due d pulls) d dry_run pulls

  -- The loop of `main`: a deploy that fails is reported, and the others go on.
  unfoldable pub process_deploys :
      Bool → List Text → List FailedDeploy → List PullRequest → List PullRequest
  process_deploys dry_run seen [] pulls = pulls
  process_deploys dry_run seen (d ∷ ds) pulls =
      process_deploys dry_run
        (if any (text_eq d.commit_sha) seen then seen else d.commit_sha ∷ seen) ds
        (if any (text_eq d.commit_sha) seen then pulls else (process_deploy d dry_run pulls).0)
