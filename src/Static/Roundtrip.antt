-- ===== src/Static/Roundtrip.antt =====
-- The files of the static field by their schema marker: StaticField.from_dict of models/fields.py.
use mcp_session_router.Base.{
  String, ◌≡◌, refl, true, false, ok, err, unsupported_schema, [], ◌∷◌, none, some, ◌≢◌, arith,
}
use mcp_session_router.Base.Int.{pos}
use mcp_session_router.Base.Dict.{Dict, map_values}
use mcp_session_router.Json.{
  Json, null, str, int, obj, Fields, get, entries, fields, entries-fields,
}
use mcp_session_router.Json.Equal.{json_eq}
use mcp_session_router.Static.{StaticEntry, StaticField, migrated}
use mcp_session_router.Static.Codec.{
  entry_to_dict, entry_from_dict, entry_from_value, map_entry_from_value, entry_map_loop,
  entry_map_from_dict, to_dict, from_dict, from_fields, schema_of,
}

entry_roundtrip : (e : StaticEntry) (at : String) → entry_from_value (entry_to_dict e) at ≡ ok e
unfolding entry_to_dict entry_from_value entry_from_dict
entry_roundtrip e at = refl

map_entry_roundtrip :
    (e : StaticEntry) (at : String) → map_entry_from_value (entry_to_dict e) at ≡ ok e
unfolding entry_to_dict map_entry_from_value entry_from_dict
map_entry_roundtrip e at = refl

entry_map_loop_roundtrip :
    (at : String) (m : Dict StaticEntry)
    → entry_map_loop at false (map_values entry_to_dict m) ≡ ok m
unfolding entry_map_loop map_values
entry_map_loop_roundtrip at [] = refl
entry_map_loop_roundtrip at ((key, e) ∷ m) = rw (map_entry_roundtrip, entry_map_loop_roundtrip at m)

entry_map_roundtrip :
    (at : String) (m : Dict StaticEntry)
    → entry_map_from_dict (obj (fields (map_values entry_to_dict m))) at false ≡ ok m
unfolding entry_map_from_dict
entry_map_roundtrip at m = rw entries-fields (entry_map_loop_roundtrip at m)

-- A static field that was encoded is decoded unchanged.
pub static_roundtrip : (f : StaticField) → from_dict (to_dict f) ≡ ok f
unfolding to_dict from_dict from_fields schema_of json_eq
static_roundtrip f = simp (entry_roundtrip, entry_map_roundtrip)

migrate_loop :
    (at : String) (d : Dict Json)
    → entry_map_loop at true d ≡ ok (map_values (λ v. migrated v at) d)
unfolding entry_map_loop map_values
migrate_loop at [] = refl
migrate_loop at ((key, v) ∷ d) = rw (migrate_loop at d)

pub from_dict_flat :
    (d : Fields) (at : String) (context conventions : Json) (paths variables : Fields)
    → get "schema" d ≡ none
    → get "updated_at" d ≡ some (str at)
    → get "project_context" d ≡ some context
    → get "conventions" d ≡ some conventions
    → get "project_map" d ≡ some (obj paths)
    → get "variables" d ≡ some (obj variables)
    → from_dict (obj d)
      ≡ ok (record {
        project_context = migrated context at;
        conventions = migrated conventions at;
        project_map = map_values (λ v. migrated v at) (entries paths);
        variables = map_values (λ v. migrated v at) (entries variables);
        updated_at = at;
      })
unfolding from_dict from_fields schema_of entry_map_from_dict
from_dict_flat d at context conventions paths variables s u c n p v =
    ground (arith, migrate_loop at (entries paths), migrate_loop at (entries variables))

pub from_dict_unknown :
    (d : Fields) (v : Json)
    → get "schema" d ≡ some v
    → v ≢ null
    → json_eq v (int (pos 2)) ≡ false
    → from_dict (obj d) ≡ err unsupported_schema
unfolding from_dict from_fields schema_of
from_dict_unknown d v s n e = ground arith
