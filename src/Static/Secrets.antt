-- ===== src/Static/Secrets.antt =====
-- What the static field keeps, and shows, of the values of `variables`.
use mcp_session_router.Base.{String, ◌≡◌, refl, false, arith}
use mcp_session_router.Base.{Option, some, [], ◌∷◌}
use mcp_session_router.Base.Dict.{Dict, lookup, insert, erase, map_values}
use mcp_session_router.Json.{Json, null}
use mcp_session_router.Static.{
  StaticEntry, StaticField, entry_or_empty, set_entry, merge, set_project_context, set_conventions,
  merge_project_map, merge_variables, delete_entry, revert_entry, FieldName, project_context,
  conventions, project_map, variables,
}
use mcp_session_router.Static.Codec.{shape_tag, masked_entry, to_masked_dict}

-- No entry keeps an old value.
abbrev pub NoHistory : Dict StaticEntry → Type 0
NoHistory [] = Unit
NoHistory ((k, e) ∷ d) = (e.prev_value ≡ null) × NoHistory d

insert-NoHistory :
    (k : String) (e : StaticEntry) (d : Dict StaticEntry)
    → e.prev_value ≡ null
    → NoHistory d
    → NoHistory (insert k e d)
unfolding insert
insert-NoHistory k e [] p h = (p, tt)
insert-NoHistory k e ((j, x) ∷ d) p h = ground (arith, insert-NoHistory k e d p h.1)

erase-NoHistory : (k : String) (d : Dict StaticEntry) → NoHistory d → NoHistory (erase k d)
unfolding erase
erase-NoHistory k [] h = tt
erase-NoHistory k ((j, x) ∷ d) h = ground (arith, erase-NoHistory k d h.1)

lookup-NoHistory :
    (k : String) (d : Dict StaticEntry)
    → NoHistory d
    → (entry_or_empty (lookup k d)).prev_value ≡ null
unfolding lookup
lookup-NoHistory k [] h = refl
lookup-NoHistory k ((j, x) ∷ d) h = ground (arith, lookup-NoHistory k d h.1)

set_entry-NoHistory :
    (v : Json) (source now : String) (e : StaticEntry)
    → e.prev_value ≡ null
    → (set_entry v source false now e).0.prev_value ≡ null
unfolding set_entry
set_entry-NoHistory v source now e h = ground arith

-- A merge that keeps no previous value leaves none behind, of new keys and of overwritten ones.
merge-NoHistory :
    (name source now : String) (m : Dict Json) (d : Dict StaticEntry)
    → NoHistory d
    → NoHistory (merge name source false now m d).0
unfolding merge
merge-NoHistory name source now [] d h = h
merge-NoHistory name source now ((k, v) ∷ m) d h = merge-NoHistory name source now m _ (
    insert-NoHistory k _ d
      (set_entry-NoHistory v source now (entry_or_empty (lookup k d)) (lookup-NoHistory k d h)) h)

-- The calls by which the tools change a static field.
pub data Change : Type 0 where
  context_text conventions_text : String → Change
  map_paths map_variables : Dict Json → Change
  delete revert : Option FieldName → Option String → Change

unfoldable pub change : Change → String → String → StaticField → StaticField
change (context_text v) source now f = (set_project_context v source now f).0
change (conventions_text v) source now f = (set_conventions v source now f).0
change (map_paths m) source now f = (merge_project_map m source now f).0
change (map_variables m) source now f = (merge_variables m source now f).0
change (delete a key) source now f = (delete_entry a key f).0
change (revert a key) source now f = (revert_entry a key now f).0

pub delete-NoHistory :
    (a : Option FieldName) (key : Option String) (f : StaticField)
    → NoHistory f.variables
    → NoHistory (delete_entry a key f).0.variables
unfolding delete_entry
delete-NoHistory (some project_context) key f h = ground arith
delete-NoHistory (some conventions) key f h = ground arith
delete-NoHistory (some variables) (some key) f h = erase-NoHistory key f.variables h
delete-NoHistory (some project_map) (some key) f h = h
delete-NoHistory _ _ f h = h

-- A revert never writes to `variables`.
pub revert-variables :
    (a : Option FieldName) (key : Option String) (now : String) (f : StaticField)
    → (revert_entry a key now f).0.variables ≡ f.variables
unfolding revert_entry
revert-variables a key now f = ground arith

pub change-NoHistory :
    (c : Change) (source now : String) (f : StaticField)
    → NoHistory f.variables
    → NoHistory (change c source now f).variables
unfolding change set_project_context set_conventions merge_project_map merge_variables
change-NoHistory (context_text v) source now f h = h
change-NoHistory (conventions_text v) source now f h = h
change-NoHistory (map_paths m) source now f h = h
change-NoHistory (map_variables m) source now f h =
    merge-NoHistory "variables" source now m f.variables h
change-NoHistory (delete a key) source now f h = delete-NoHistory a key f h
change-NoHistory (revert a key) source now f h = rw revert-variables h

-- The same keys in the same order, with the same provenance and values of the same shape.
abbrev pub SameShape : Dict StaticEntry → Dict StaticEntry → Type 0
SameShape [] [] = Unit
SameShape ((k, a) ∷ d) ((j, b) ∷ e) =
    (k ≡ j)
    × (shape_tag a.value ≡ shape_tag b.value)
    × (a.source ≡ b.source)
    × (a.updated_at ≡ b.updated_at)
    × (a.prev_updated_at ≡ b.prev_updated_at)
    × SameShape d e
SameShape d e = ⊥

masked_same :
    (d e : Dict StaticEntry)
    → NoHistory d
    → NoHistory e
    → SameShape d e
    → map_values masked_entry d ≡ map_values masked_entry e
unfolding map_values masked_entry
masked_same [] [] h g s = refl
masked_same [] (y ∷ e) h g s = absurd s
masked_same (x ∷ d) [] h g s = absurd s
masked_same ((k, a) ∷ d) ((j, b) ∷ e) h g s = ground (arith, masked_same d e h.1 g.1 s.5)

pub to_masked_dict_hides :
    (f : StaticField) (other : Dict StaticEntry)
    → NoHistory f.variables
    → NoHistory other
    → SameShape f.variables other
    → to_masked_dict f ≡ to_masked_dict (record f { variables = other })
unfolding to_masked_dict
to_masked_dict_hides f other h g s = rw (masked_same f.variables other h g s)
