-- ===== src/Static/Codec.antt =====
-- The to_dict and from_dict methods of models/fields.py, and the masked listing.
use Prim.Native.String.{count}
use mcp_session_router.Base.{String, ◌<>◌, if◌then◌else◌, [], ◌∷◌}
use mcp_session_router.Base.{Bool, true, false, Result, ok, err, unsupported_schema, ◌>>=◌}
use mcp_session_router.Base.Int.{pos}
use mcp_session_router.Base.Dict.{Dict, map_values}
use mcp_session_router.Base.Decimal.{decimal}
use mcp_session_router.Json.{Json, null, bool, int, float, str, arr, obj, Fields, get_or}
use mcp_session_router.Json.{as_str, as_object, entries, fields}
use mcp_session_router.Json.Equal.{json_eq}
use mcp_session_router.Static.{StaticEntry, StaticField, empty_entry, migrated}

unfoldable pub entry_to_dict : StaticEntry → Json
entry_to_dict e = obj (
    fields (
      ("value", e.value)
      ∷ ("source", str e.source)
      ∷ ("updated_at", str e.updated_at)
      ∷ ("prev_value", e.prev_value)
      ∷ ("prev_updated_at", str e.prev_updated_at)
      ∷ []))

unfoldable pub entry_from_dict : Fields → Result StaticEntry
entry_from_dict d = do
  source ← as_str (get_or "source" (str "auto") d)
  updated_at ← as_str (get_or "updated_at" (str "") d)
  prev_updated_at ← as_str (get_or "prev_updated_at" (str "") d)
  ok (record {
    value = get_or "value" (str "") d;
    source = source;
    updated_at = updated_at;
    prev_value = get_or "prev_value" null d;
    prev_updated_at = prev_updated_at;
  })

-- _entry_from_value, where a missing value is None.
unfoldable pub entry_from_value : Json → String → Result StaticEntry
entry_from_value (obj d) at = entry_from_dict d
entry_from_value null at = ok empty_entry
entry_from_value v at = ok (migrated v at)

-- One value of a dict field: an entry, or a flat value that is wrapped.
unfoldable pub map_entry_from_value : Json → String → Result StaticEntry
map_entry_from_value (obj d) at = entry_from_dict d
map_entry_from_value v at = ok (migrated v at)

unfoldable pub entry_map_loop : String → Bool → Dict Json → Result (Dict StaticEntry)
entry_map_loop at migrate [] = ok []
entry_map_loop at migrate ((key, v) ∷ d) = do
  e ← if migrate then ok (migrated v at) else map_entry_from_value v at
  rest ← entry_map_loop at migrate d
  ok ((key, e) ∷ rest)

-- _entry_map_from_dict
unfoldable pub entry_map_from_dict : Json → String → Bool → Result (Dict StaticEntry)
entry_map_from_dict (obj d) at migrate = entry_map_loop at migrate (entries d)
entry_map_from_dict v at migrate = ok []

unfoldable pub to_dict : StaticField → Json
to_dict f = obj (
    fields (
      ("schema", int (pos 2))
      ∷ ("project_context", entry_to_dict f.project_context)
      ∷ ("conventions", entry_to_dict f.conventions)
      ∷ ("project_map", obj (fields (map_values entry_to_dict f.project_map)))
      ∷ ("variables", obj (fields (map_values entry_to_dict f.variables)))
      ∷ ("updated_at", str f.updated_at)
      ∷ []))

-- The format of a file by its marker: the flat one, the current one, or one that is refused.
pub data Schema : Type 0 where
  flat current unknown : Schema

unfoldable pub schema_of : Json → Schema
schema_of null = flat
schema_of v = if json_eq v (int (pos 2)) then current else unknown

-- The rest of from_dict, once the marker has been read.
unfoldable pub from_fields : Schema → Fields → Result StaticField
from_fields unknown d = err unsupported_schema
from_fields flat d = do
  at ← as_str (get_or "updated_at" (str "") d)
  project_map ← entry_map_from_dict (get_or "project_map" null d) at true
  variables ← entry_map_from_dict (get_or "variables" null d) at true
  ok (record {
    project_context = migrated (get_or "project_context" (str "") d) at;
    conventions = migrated (get_or "conventions" (str "") d) at;
    project_map = project_map;
    variables = variables;
    updated_at = at;
  })
from_fields current d = do
  at ← as_str (get_or "updated_at" (str "") d)
  project_context ← entry_from_value (get_or "project_context" null d) at
  conventions ← entry_from_value (get_or "conventions" null d) at
  project_map ← entry_map_from_dict (get_or "project_map" null d) at false
  variables ← entry_map_from_dict (get_or "variables" null d) at false
  ok (record {
    project_context = project_context;
    conventions = conventions;
    project_map = project_map;
    variables = variables;
    updated_at = at;
  })

unfoldable pub from_dict : Json → Result StaticField
from_dict v = do d ← as_object v; from_fields (schema_of (get_or "schema" null d)) d

-- _shape_tag: the length of a text, and the type alone of any other value.
unfoldable pub shape_tag : Json → String
shape_tag (str s) = "<str, " <> decimal (count s) <> "자>"
shape_tag null = "<NoneType>"
shape_tag (bool b) = "<bool>"
shape_tag (int n) = "<int>"
shape_tag (float n k) = "<float>"
shape_tag (arr xs) = "<list>"
shape_tag (obj d) = "<dict>"

-- {**entry.to_dict(), "value": tag}
unfoldable pub masked_entry : StaticEntry → Json
masked_entry e = obj (
    fields (
      ("value", str (shape_tag e.value))
      ∷ ("source", str e.source)
      ∷ ("updated_at", str e.updated_at)
      ∷ ("prev_value", e.prev_value)
      ∷ ("prev_updated_at", str e.prev_updated_at)
      ∷ []))

unfoldable pub to_masked_dict : StaticField → Json
to_masked_dict f = obj (
    fields (
      ("schema", int (pos 2))
      ∷ ("project_context", entry_to_dict f.project_context)
      ∷ ("conventions", entry_to_dict f.conventions)
      ∷ ("project_map", obj (fields (map_values entry_to_dict f.project_map)))
      ∷ ("variables", obj (fields (map_values masked_entry f.variables)))
      ∷ ("updated_at", str f.updated_at)
      ∷ []))
