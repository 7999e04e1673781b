-- ===== src/Tests/Merges.antt =====
-- A merge that changes one key, deletes one and adds one.
use agent_on_demand.Prelude.{String, ◌≡◌, refl}
use agent_on_demand.Json.{str, Fields, end, field, lookup, without}
use agent_on_demand.Metadata.{merge_metadata, put, IsDict, patched, merge_metadata_lem}

abbrev stored : Fields
stored = field "team" (str "a") (field "tier" (str "1") end)

abbrev patch : Fields
patch = field "tier" (str "") (field "team" (str "b") (field "new" (str "x") end))

merged : merge_metadata stored patch ≡ field "team" (str "b") (field "new" (str "x") end)
unfolding merge_metadata put without
merged = refl

merge_metadata_lem_example :
    IsDict (merge_metadata stored patch)
    × ((k : String)
        → lookup k (merge_metadata stored patch) ≡ patched (lookup k patch) (lookup k stored))
unfolding lookup
merge_metadata_lem_example =
    merge_metadata_lem stored patch (refl, (refl, tt)) (refl, (refl, (refl, tt)))
