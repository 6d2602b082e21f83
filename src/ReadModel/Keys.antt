-- ===== src/ReadModel/Keys.antt =====
-- The keys of the cache. `fmt` is not involved: a key is put together by `+`.
use second_brain.Prelude.{Text, codes, if◌then◌else◌, is_nil, trim, ◌++◌}

abbrev pub owner_of : Text → Text
owner_of owner_id = if is_nil (trim owner_id) then codes "default" else trim owner_id

unfoldable pub key : Text → Text → Text
key owner_id suffix = codes "sb:v1:" ++ (owner_of owner_id ++ (codes ":" ++ suffix))

unfoldable pub manifest_key : Text → Text
manifest_key owner_id = key owner_id (codes "manifest")

unfoldable pub app_state_key : Text → Text → Text
app_state_key owner_id run_id = key owner_id (codes "app-state:" ++ run_id)

unfoldable pub latest_run_key : Text → Text → Text
latest_run_key owner_id run_id = key owner_id (codes "run:" ++ (run_id ++ codes ":latest"))

unfoldable pub run_meta_key : Text → Text → Text
run_meta_key owner_id run_id = key owner_id (codes "run:" ++ (run_id ++ codes ":meta"))

unfoldable pub view_key : Text → Text → Text → Text
view_key owner_id run_id view = key owner_id (codes "view:" ++ (run_id ++ (codes ":" ++ view)))

unfoldable pub digests_key : Text → Text → Text
digests_key owner_id run_id = key owner_id (codes "digests:" ++ (run_id ++ codes ":list"))

unfoldable pub refresh_status_key : Text → Text
refresh_status_key owner_id = key owner_id (codes "refresh:status")

unfoldable pub source_materials_key : Text → Text
source_materials_key owner_id = key owner_id (codes "source-materials")

unfoldable pub graph_key : Text → Text → Text
graph_key owner_id run_id = key owner_id (codes "graph:" ++ (run_id ++ codes ":read-model"))

unfoldable pub ask_context_key : Text → Text → Text
ask_context_key owner_id run_id = key owner_id (codes "ask:context:" ++ run_id)
