-- ===== src/Static.antt =====
-- src/session_manager/models/fields.py: the project's static field and the operations on it.
-- The readings of the clock within one call are its argument `now`.
pub mod Codec
pub mod Roundtrip
pub mod Merge
pub mod History
pub mod Secrets
use mcp_session_router.Base.{String, ◌<>◌, Bool, true, false, not, ◌==◌, ◌&&◌, ◌||◌, if◌then◌else◌}
use mcp_session_router.Base.{Option, none, some, List, [], ◌∷◌, ◌++◌}
use mcp_session_router.Base.Dict.{Dict, lookup, insert, erase}
use mcp_session_router.Json.{Json, null, str}
use mcp_session_router.Json.Equal.{json_eq}

-- `prev_value` is None, here `null`, where no history is kept.
pub record StaticEntry : Type 0 where
  pub value : Json
  pub source : String
  pub updated_at : String
  pub prev_value : Json
  pub prev_updated_at : String

abbrev pub empty_entry : StaticEntry
empty_entry = record {
  value = str "";
  source = "auto";
  updated_at = "";
  prev_value = null;
  prev_updated_at = "";
}

-- StaticEntry.set: the new entry, and whether it changed.
unfoldable pub set_entry : Json → String → Bool → String → StaticEntry → StaticEntry × Bool
set_entry value source keep_prev now e = if json_eq value e.value then (e, false) else (
  record {
    value = value;
    source = source;
    updated_at = now;
    prev_value = if keep_prev then e.value else null;
    prev_updated_at = e.updated_at;
  },
  true,
)

-- StaticEntry.revert
unfoldable pub swap_entry : String → String → StaticEntry → StaticEntry
swap_entry source now e = record {
  value = e.prev_value;
  source = source;
  updated_at = now;
  prev_value = e.value;
  prev_updated_at = e.updated_at;
}

-- StaticEntry.migrated
abbrev pub migrated : Json → String → StaticEntry
migrated value updated_at = record empty_entry { value = value; updated_at = updated_at }

-- The dataclass's ==
abbrev pub entry_eq : StaticEntry → StaticEntry → Bool
entry_eq a b =
    json_eq a.value b.value
    && a.source == b.source
    && a.updated_at == b.updated_at
    && json_eq a.prev_value b.prev_value
    && a.prev_updated_at == b.prev_updated_at

pub record StaticField : Type 0 where
  pub project_context : StaticEntry
  pub conventions : StaticEntry
  pub project_map : Dict StaticEntry
  pub variables : Dict StaticEntry
  pub updated_at : String

-- StaticField.new
abbrev pub new_static : String → StaticField
new_static now = record {
  project_context = empty_entry;
  conventions = empty_entry;
  project_map = [];
  variables = [];
  updated_at = now;
}

abbrev pub touch_static : String → StaticField → StaticField
touch_static now f = record f { updated_at = now }

unfoldable pub set_project_context :
    String → String → String → StaticField → StaticField × List String
set_project_context value source now f =
    let (e, changed) = set_entry (str value) source true now f.project_context in
    (record f { project_context = e }, if changed then "project_context" ∷ [] else [])

unfoldable pub set_conventions : String → String → String → StaticField → StaticField × List String
set_conventions value source now f =
    let (e, changed) = set_entry (str value) source true now f.conventions in
    (record f { conventions = e }, if changed then "conventions" ∷ [] else [])

-- entries.setdefault(key, StaticEntry())
abbrev pub entry_or_empty : Option StaticEntry → StaticEntry
entry_or_empty none = empty_entry
entry_or_empty (some e) = e

-- The loop of _merge: the entries and the names of the changed ones.
unfoldable pub merge :
    String → String → Bool → String → Dict Json → Dict StaticEntry → Dict StaticEntry × List String
merge field_name source keep_prev now [] entries = (entries, [])
merge field_name source keep_prev now ((key, value) ∷ mapping) entries =
    let (e, changed) = set_entry value source keep_prev now (entry_or_empty (lookup key entries)) in
    let (entries', names) = merge field_name source keep_prev now mapping (insert key e entries) in
    (entries', if changed then (field_name <> "." <> key) ∷ names else names)

unfoldable pub merge_project_map :
    Dict Json → String → String → StaticField → StaticField × List String
merge_project_map mapping source now f =
    let (entries, names) = merge "project_map" source true now mapping f.project_map in
    (record f { project_map = entries }, names)

unfoldable pub merge_variables :
    Dict Json → String → String → StaticField → StaticField × List String
merge_variables mapping source now f =
    let (entries, names) = merge "variables" source false now mapping f.variables in
    (record f { variables = entries }, names)

-- The four names of fields that an entry can be addressed by.
pub data FieldName : Type 0 where
  project_context conventions project_map variables : FieldName

-- Which field a text names; `none` is a text outside STATIC_FIELDS.
unfoldable pub parse_field : String → Option FieldName
parse_field s =
    if s == "project_context"
    then some project_context
    else if s == "conventions"
    then some conventions
    else if s == "project_map"
    then some project_map
    else if s == "variables"
    then some variables
    else none

-- _entry_at
unfoldable pub entry_at : Option FieldName → Option String → StaticField → Option StaticEntry
entry_at (some project_context) key f = some f.project_context
entry_at (some conventions) key f = some f.conventions
entry_at (some project_map) (some key) f = lookup key f.project_map
entry_at (some variables) (some key) f = lookup key f.variables
entry_at _ _ f = none

abbrev is_some : Option StaticEntry → Bool
is_some none = false
is_some (some e) = true

-- The new field, and whether an entry was removed.
unfoldable pub delete_entry : Option FieldName → Option String → StaticField → StaticField × Bool
delete_entry (some project_context) key f =
    if entry_eq f.project_context empty_entry
    then (f, false)
    else (record f { project_context = empty_entry }, true)
delete_entry (some conventions) key f =
    if entry_eq f.conventions empty_entry
    then (f, false)
    else (record f { conventions = empty_entry }, true)
delete_entry (some project_map) (some key) f =
    (record f { project_map = erase key f.project_map }, is_some (lookup key f.project_map))
delete_entry (some variables) (some key) f =
    (record f { variables = erase key f.variables }, is_some (lookup key f.variables))
delete_entry _ _ f = (f, false)

pub data Reverted : Type 0 where
  reverted no_history secret_no_history not_found : Reverted

-- Puts an entry back to where `entry_at` found it.
abbrev pub put_entry : Option FieldName → Option String → StaticEntry → StaticField → StaticField
put_entry (some project_context) key e f = record f { project_context = e }
put_entry (some conventions) key e f = record f { conventions = e }
put_entry (some project_map) (some key) e f = record f { project_map = insert key e f.project_map }
put_entry (some variables) (some key) e f = record f { variables = insert key e f.variables }
put_entry _ _ e f = f

abbrev pub is_variables : Option FieldName → Bool
is_variables (some variables) = true
is_variables _ = false

-- revert_entry after the entry was found.
revert_found :
    Option FieldName
    → Option String
    → String
    → StaticEntry
    → StaticField
    → StaticField × Reverted × String
revert_found field_name key now e f =
    let back = swap_entry "user" now e in
    if is_variables field_name
    then (f, secret_no_history, e.prev_updated_at)
    else if e.prev_updated_at == ""
    then (f, no_history, "")
    else (put_entry field_name key back f, reverted, back.prev_updated_at)

unfoldable pub revert_entry :
    Option FieldName → Option String → String → StaticField → StaticField × Reverted × String
unfolding revert_found
revert_entry field_name key now f = elim (entry_at field_name key f) [
  | none ↦ (f, not_found, "")
  | some e ↦ revert_found field_name key now e f
]
