-- ===== src/Tests/Fields.antt =====
-- Runs of the static field.
use mcp_session_router.Base.{◌≡◌, refl, true}
use mcp_session_router.Base.{some, none, [], ◌∷◌, ok}
use mcp_session_router.Base.Dict.{lookup}
use mcp_session_router.Json.{Json, str, obj, Fields, field, end}
use mcp_session_router.Static.{
  StaticEntry, StaticField, empty_entry, entry_at, variables, revert_entry, secret_no_history,
}
use mcp_session_router.Static.Codec.{to_dict, from_dict}
use mcp_session_router.Static.Roundtrip.{static_roundtrip}
use mcp_session_router.StaticStore.{StaticUpdate, update_static, save_static}
use mcp_session_router.StaticStore.Writes.{
  IsSecure, static_tools-IsSecure, none-IsSecure, saved-IsSecure,
}
use mcp_session_router.Tests.{json_text}

abbrev old_path : StaticEntry
old_path = record {
  value = str "src";
  source = "user";
  updated_at = "day 2";
  prev_value = str "lib";
  prev_updated_at = "day 1";
}

abbrev token : StaticEntry
token = record {
  value = str "t1";
  source = "user";
  updated_at = "day 2";
  prev_value = Json.null;
  prev_updated_at = "day 1";
}

abbrev fields : StaticField
fields = record {
  project_context = empty_entry;
  conventions = empty_entry;
  project_map = ("code", old_path) ∷ [];
  variables = ("TOKEN", token) ∷ [];
  updated_at = "day 2";
}

static_roundtrip_example : from_dict (to_dict fields) ≡ ok fields
static_roundtrip_example = static_roundtrip fields

abbrev flat : Fields
flat = field "updated_at" (str "day 1") (
    field "project_context" (str "a router") (
      field "conventions" (str "") (
        field "project_map" (obj (field "code" (str "src") end))
          (field "variables" (obj end) end))))

secret_answer : (revert_entry (some variables) (some "TOKEN") "day 3" fields).1 ≡ secret_no_history
unfolding revert_entry entry_at lookup
secret_answer = refl

abbrev update : StaticUpdate
update = record {
  new_context = some "a router";
  new_conventions = none;
  new_map = none;
  new_variables = some (("TOKEN", str "t2") ∷ []);
}

fields-IsSecure : IsSecure json_text (save_static json_text fields)
fields-IsSecure = saved-IsSecure json_text fields true none (refl, tt) (none-IsSecure json_text)

static_tools-IsSecure_example :
    IsSecure json_text
      (update_static json_text "day 3" update "user" (save_static json_text fields)).1
static_tools-IsSecure_example =
    (static_tools-IsSecure json_text "day 3" "user" "variables" update (some "TOKEN")
      (save_static json_text fields) fields-IsSecure).0
