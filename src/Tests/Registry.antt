-- ===== src/Tests/Registry.antt =====
-- An environment that is created, updated twice with one version, archived and deleted.
use agent_on_demand.Prelude.{◌≡◌, refl, String, Option, none, some, [], ◌∷◌, any}
use agent_on_demand.Prelude.Table.{get, modify}
use agent_on_demand.Json.{str, Fields, end, field, json_eq, lookup, without}
use agent_on_demand.Environments.{
  Registry, CreateRequest, UpdateRequest, environments_create, apply_update, find_owned,
  check_version_match, is_taken,
}
use agent_on_demand.Environments.Change.{
  update_locked, update_rows, environment_update, environment_archive, environment_delete, Change,
  Changes,
}
use agent_on_demand.Environments.Current.{snapshots_of, versions, Current, Changes-Current}
use agent_on_demand.Environments.Documents.{Steps, documents, requests}
use agent_on_demand.Environments.Versions.{environment_versions}
use agent_on_demand.Environments.Listing.{listing, Changes-Documents}

abbrev repr : Option String → String
repr none = "None"
repr (some name) = name

abbrev limited : Fields
limited = field "type" (str "limited") end

abbrev empty : Registry
empty = record { rows = []; snapshots = []; sessions = none ∷ [] }

abbrev body : CreateRequest
body = record {
  name = "ci";
  packages = end;
  env_vars = end;
  setup_script = "";
  networking = limited;
}

abbrev rename : UpdateRequest
rename = record {
  version = 1;
  name = some "ci2";
  packages = none;
  env_vars = some end;
  setup_script = none;
  networking = some limited;
}

abbrev made : Registry
made = (environments_create repr 3 7 body empty).0

abbrev changed : Registry
changed = (environment_update repr 3 7 rename made).0

abbrev archived : Registry
archived = (environment_archive 3 7 made changed).0

changed_versions : versions (snapshots_of 7 changed.snapshots) ≡ 2 ∷ 1 ∷ []
unfolding environments_create environment_update update_locked update_rows find_owned
    check_version_match is_taken apply_update snapshots_of json_eq lookup without get modify any
changed_versions = refl

empty-Current : Current empty
unfolding get snapshots_of
empty-Current = record { current = λ id. refl }

kept_history : Changes repr empty archived
unfolding get
kept_history =
    Changes.next
      (Changes.next (Changes.next Changes.here (Change.creates 3 7 body refl refl))
        (Change.updates 3 7 rename refl))
      (Change.archives 3 7 made refl)

history : Changes repr empty (environment_delete 3 7 archived).0
history = Changes.next kept_history (Change.deletes 3 7 refl)

Changes-Current_example : Current (environment_delete 3 7 archived).0
Changes-Current_example = Changes-Current repr empty-Current history

Changes-Documents_example :
    Steps (documents empty) (documents archived) (requests kept_history)
    × (environment_versions 3 7 archived ≡ listing 3 7 (documents archived 7))
Changes-Documents_example = Changes-Documents repr 3 7 empty-Current kept_history
