-- ===== src/Environments.antt =====
-- src/agent_on_demand/views/environments.py and versioning.py: the versioned rows of
-- src/agent_on_demand/models/environments.py. A response that shows a row is that row. The columns that
-- a snapshot copies are a record of their own; the JSON columns are the fields of an object.
pub mod Change
pub mod Cases
pub mod Current
pub mod Versions
pub mod Documents
pub mod Shown
pub mod Refined
pub mod Listing
use text.Mathlib.Text.{◌==◌ as str_eq}
use Prim.Native.String.{◌++◌ as str_append}
use agent_on_demand.Prelude.{
  ℕ, ◌+◌, ◌==◌, String, Bool, true, false, not, ◌&&◌, ◌||◌, Option, none, some, List, [], ◌∷◌,
  select, any, if◌then◌else◌,
}
use agent_on_demand.Prelude.Result.{Result, ok, err}
use agent_on_demand.Prelude.Table.{Table, get, modify, remove}
use agent_on_demand.Http.{Response, error, mismatch, deleted}
use agent_on_demand.Json.{Json, str, obj, Fields, lookup, without, json_eq}

pub record Content : Type 0 where
  pub name : String
  pub packages : Fields
  pub env_vars : Fields
  pub setup_script : String
  pub networking_type : String
  pub networking_config : Fields

pub record Row : Type 0 where
  pub user : ℕ
  pub content : Content
  pub version : ℕ
  pub is_archived : Bool

-- EnvironmentVersion.
pub record Snapshot : Type 0 where
  pub environment : ℕ
  pub version : ℕ
  pub content : Content

-- The two tables, the snapshots newest first, and the `environment` columns of the session rows.
pub record Registry : Type 0 where
  pub rows : Table Row
  pub snapshots : List Snapshot
  pub sessions : List (Option ℕ)

-- The bodies that have passed their validators.
pub record CreateRequest : Type 0 where
  pub name : String
  pub packages : Fields
  pub env_vars : Fields
  pub setup_script : String
  pub networking : Fields

pub record UpdateRequest : Type 0 where
  pub version : ℕ
  pub name : Option String
  pub packages : Option Fields
  pub env_vars : Option Fields
  pub setup_script : Option String
  pub networking : Option Fields

-- `networking.get("type", "unrestricted")`; the validator lets no other value through than a string.
abbrev pub type_in : Option Json → String
type_in (some (str t)) = t
type_in _ = "unrestricted"

abbrev pub networking_type_of : Fields → String
networking_type_of networking = type_in (lookup "type" networking)

abbrev fields_eq : Fields → Fields → Bool
fields_eq a b = json_eq (obj a) (obj b)

unfoldable pub check_version_match : ℕ → ℕ → Option Response
check_version_match request_version current_version =
    if request_version == current_version
    then none
    else some (mismatch current_version request_version)

-- `Environment.objects.get(pk=id, user=user)`.
unfoldable pub find_owned : ℕ → ℕ → Table Row → Option Row
find_owned user id t = elim (get id t) [
  | none ↦ none
  | some r ↦ if r.user == user then some r else none
]

-- `_snapshot_environment_version`.
abbrev pub snapshot : ℕ → Row → Snapshot
snapshot id r = record { environment = id; version = r.version; content = r.content }

-- unique_active_environment_name: an active row of this user with this name under another key.
abbrev pub is_named : ℕ → String → ℕ → ℕ × Row → Bool
is_named user name id (k, r) =
    not (k == id) && r.user == user && not r.is_archived && str_eq r.content.name name

unfoldable pub is_taken : ℕ → String → ℕ → Table Row → Bool
is_taken user name id t = any (is_named user name id) t

-- The message names the request's name, also where a PUT carries none.
abbrev pub name_conflict : String → Response
name_conflict shown =
    error 409 (str_append "An active environment named " (str_append shown " already exists"))

abbrev pub new_row : ℕ → CreateRequest → Row
new_row user req = record {
  user = user;
  content = record {
    name = req.name;
    packages = req.packages;
    env_vars = req.env_vars;
    setup_script = req.setup_script;
    networking_type = networking_type_of req.networking;
    networking_config = without "type" req.networking;
  };
  version = 1;
  is_archived = false;
}

-- POST. The message shows the name by the parameter `repr`.
module _ (repr : Option String → String) where
  unfoldable pub environments_create :
      ℕ → ℕ → CreateRequest → Registry → Registry × Result Response Row
  environments_create user id req w =
      if is_taken user req.name id w.rows
      then (w, err (name_conflict (repr (some req.name))))
      else (
        record w {
          rows = (id, new_row user req) ∷ w.rows;
          snapshots = snapshot id (new_row user req) ∷ w.snapshots;
        },
        ok (new_row user req),
      )

-- `if v is not None and v != old`.
abbrev pub apply {ℓ} : {A : Type ℓ} → (A → A → Bool) → Option A → A → A × Bool
apply eq none old = (old, false)
apply eq (some v) old = if eq v old then (old, false) else (v, true)

abbrev pub apply_networking : Option Fields → String → Fields → String × Fields × Bool
apply_networking none type config = (type, config, false)
apply_networking (some n) type config =
    if str_eq (networking_type_of n) type && fields_eq (without "type" n) config
    then (type, config, false)
    else (networking_type_of n, without "type" n, true)

-- The columns after the tests of PUT, and `changed`.
unfoldable pub apply_update : UpdateRequest → Content → Content × Bool
apply_update req c =
    let name = apply str_eq req.name c.name in
    let packages = apply fields_eq req.packages c.packages in
    let env_vars = apply fields_eq req.env_vars c.env_vars in
    let script = apply str_eq req.setup_script c.setup_script in
    let net = apply_networking req.networking c.networking_type c.networking_config in
    (
      record {
        name = name.0;
        packages = packages.0;
        env_vars = env_vars.0;
        setup_script = script.0;
        networking_type = net.0;
        networking_config = net.1;
      },
      name.1 || packages.1 || env_vars.1 || script.1 || net.2,
    )

abbrev pub bumped : Content → Row → Row
bumped c r = record r { content = c; version = r.version + 1 }
