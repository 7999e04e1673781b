-- ===== src/Tests/Validators.antt =====
-- Requests that the validators accept, one of them with a newline behind its URL.
use agent_on_demand.Prelude.{◌≡◌, refl, some, List, [], ◌∷◌}
use agent_on_demand.Prelude.Result.{ok}
use agent_on_demand.Prelude.Text.{Text, codes, text_eq}
use agent_on_demand.Prelude.{none, any}
use agent_on_demand.Prelude.Result.{err}
use agent_on_demand.Json.{str, arr, cons, nil, field, end, lookup}
use agent_on_demand.Environments.{CreateRequest, new_row}
use agent_on_demand.Provisioning.{build_network_policy}
use agent_on_demand.Validation.Networking.{validate_networking}
use agent_on_demand.Validation.Firewall.{asked, rules_for, build_network_policy-rules_for}
use agent_on_demand.Validation.{
  ValueError, validate_github_url, is_github_url, behind, owner, owner_rest, repo, repo_rest,
  is_name_char, removesuffix, resolved_mount_path, last_segment, rstrip_slash, validate_packages,
  unknown, is_package_manager,
}
use agent_on_demand.Validation.{is_key_start, is_key_char, validate_mount_path, is_reserved}

abbrev vars : List (Text × Text)
vars = (codes "A_1", codes "x") ∷ (codes "_b", []) ∷ []

-- The root with a slash behind it is no reserved path.
slash_behind :
    validate_mount_path (some (codes "/home/sprite/")) ≡ ok (some (codes "/home/sprite/"))
unfolding validate_mount_path is_reserved text_eq
slash_behind = refl

abbrev paths : List Text
paths = codes "/workspace/a" ∷ codes "/workspace/b" ∷ []

-- A repository named `..` is accepted, and its default path is the root.
parent_accepted :
    validate_github_url (codes "https://github.com/org/..") ≡ ok (codes "https://github.com/org/..")
unfolding validate_github_url is_github_url behind owner owner_rest repo repo_rest is_name_char
    is_key_char is_key_start removesuffix text_eq
parent_accepted = refl

parent_mounted :
    resolved_mount_path (codes "https://github.com/org/..") none ≡ codes "/workspace/.."
unfolding resolved_mount_path last_segment rstrip_slash
parent_mounted = refl

slash_dropped :
    resolved_mount_path (codes "https://github.com/org/repo/") (some []) ≡ codes "/workspace/repo"
unfolding resolved_mount_path last_segment rstrip_slash
slash_dropped = refl

abbrev pip_and_brew : List (Text × List Text)
pip_and_brew = (codes "pip", []) ∷ (codes "brew", []) ∷ []

brew_unknown : validate_packages pip_and_brew ≡ err (ValueError.unknown_manager (codes "brew"))
unfolding validate_packages unknown is_package_manager any text_eq
brew_unknown = refl

abbrev walled : CreateRequest
walled = record {
  name = "ci";
  packages = end;
  env_vars = end;
  setup_script = "";
  networking =
      field "type" (str "limited") (field "allowed_hosts" (arr (cons (str "pypi.org") nil)) end);
}

build_network_policy-rules_for_example :
    build_network_policy (some (new_row 3 walled).content)
    ≡ rules_for (asked walled.networking (lookup "type" walled.networking))
unfolding validate_networking lookup
build_network_policy-rules_for_example = build_network_policy-rules_for 3 walled refl
