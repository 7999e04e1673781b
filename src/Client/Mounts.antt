-- ===== src/Client/Mounts.antt =====
-- The mount path of src/clients/python/src/aod/models.py, GithubRepoResource, beside the server's.
use agent_on_demand.Prelude.{
  ◌≡◌, refl, Bool, true, not, ◌||◌, Option, none, some, [], arith, Bool-cases, inl, inr,
  if◌then◌else◌,
}
use agent_on_demand.Prelude.Result.{Result, ok, err}
use agent_on_demand.Prelude.Text.{Text, codes, text_eq, text_eq_iff}
use agent_on_demand.Validation.{
  ValueError, is_absolute, is_reserved, rstrip_slash, validate_mount_path,
}

-- `v.rstrip("/") in {"", "/home/sprite"}`.
unfoldable pub is_root : Text → Bool
is_root v = text_eq (rstrip_slash v) [] || text_eq (rstrip_slash v) (codes "/home/sprite")

unfoldable pub sdk_mount_path : Option Text → Result ValueError (Option Text)
sdk_mount_path none = ok none
sdk_mount_path (some v) =
    if not (is_absolute v)
    then err ValueError.not_absolute
    else if is_root v
    then err ValueError.at_the_root
    else ok (some v)

is_reserved-is_root : (v : Text) → is_reserved v ≡ true → is_root v ≡ true
unfolding is_reserved is_root rstrip_slash text_eq
is_reserved-is_root v e = elim (Bool-cases (text_eq v (codes "/"))) [
  | inl slash ↦ rw ((text_eq_iff v (codes "/")).0 slash) refl
  | inr other ↦ rw ((text_eq_iff v (codes "/home/sprite")).0 (ground (arith, e, other))) refl
]

-- A path that the SDK lets through is one that the server takes as it is.
pub sdk_mount_path-validate_mount_path :
    (path q : Option Text) → sdk_mount_path path ≡ ok q → validate_mount_path path ≡ ok q
unfolding sdk_mount_path validate_mount_path
sdk_mount_path-validate_mount_path none q e = e
sdk_mount_path-validate_mount_path (some v) q e = ground (arith, e, is_reserved-is_root v)
