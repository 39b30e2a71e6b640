-- ===== src/Static/History.antt =====
-- Setting and reverting an entry.
use mcp_session_router.Base.{String, ◌≡◌, ◌≢◌, refl, Bool, true, false, ◌==◌, if◌then◌else◌, arith}
use mcp_session_router.Base.{Option, none, some}
use mcp_session_router.Base.Dict.{lookup-insert_self}
use mcp_session_router.Json.{Json}
use mcp_session_router.Json.Equal.{json_eq}
use mcp_session_router.Static.{
  StaticEntry, StaticField, set_entry, swap_entry, FieldName, project_context, conventions,
  project_map, variables, entry_at, put_entry, revert_entry, is_variables, Reverted, reverted,
  no_history, secret_no_history, not_found,
}

pub swap_entry-set_entry :
    (v : Json) (source source' now now' : String) (e : StaticEntry)
    → json_eq v e.value ≡ false
    → ((swap_entry source' now' (set_entry v source true now e).0).value ≡ e.value)
      × ((swap_entry source' now' (set_entry v source true now e).0).prev_value ≡ v)
unfolding swap_entry set_entry
swap_entry-set_entry v source source' now now' e h = ground arith

-- An entry that was found is the one that is put back.
entry_at-put_entry :
    (a : Option FieldName) (key : Option String) (e e' : StaticEntry) (f : StaticField)
    → entry_at a key f ≡ some e
    → entry_at a key (put_entry a key e' f) ≡ some e'
unfolding entry_at
entry_at-put_entry (some project_context) key e e' f h = refl
entry_at-put_entry (some conventions) key e e' f h = refl
entry_at-put_entry (some project_map) (some k) e e' f h = lookup-insert_self k e' f.project_map
entry_at-put_entry (some variables) (some k) e e' f h = lookup-insert_self k e' f.variables
entry_at-put_entry _ _ e e' f h = cc

-- The answer of `revert_entry`, by the entry that is addressed.
abbrev pub answer : Bool → String → Option StaticEntry → Reverted × String
answer secret now none = (not_found, "")
answer secret now (some e) =
    if secret
    then (secret_no_history, e.prev_updated_at)
    else if e.prev_updated_at == ""
    then (no_history, "")
    else (reverted, e.updated_at)

-- The answer depends on the addressed entry alone.
pub revert_entry-answer :
    (a : Option FieldName) (key : Option String) (now : String) (f : StaticField)
    → ((revert_entry a key now f).1 ≡ (answer (is_variables a) now (entry_at a key f)).0)
      × ((revert_entry a key now f).2 ≡ (answer (is_variables a) now (entry_at a key f)).1)
unfolding revert_entry swap_entry
revert_entry-answer a key now f = ground arith

pub revert_entry_unchanged :
    (a : Option FieldName) (key : Option String) (now : String) (f : StaticField)
    → (revert_entry a key now f).1 ≢ reverted
    → (revert_entry a key now f).0 ≡ f
unfolding revert_entry
revert_entry_unchanged a key now f h = ground arith

-- An addressed entry with a history, not one of `variables`, is swapped in its place.
pub revert_entry-entry_at :
    (a : Option FieldName) (key : Option String) (now : String) (f : StaticField) (e : StaticEntry)
    → entry_at a key f ≡ some e
    → is_variables a ≡ false
    → (e.prev_updated_at == "") ≡ false
    → entry_at a key (revert_entry a key now f).0 ≡ some (swap_entry "user" now e)
unfolding revert_entry
revert_entry-entry_at a key now f e h v p =
    ground (arith, entry_at-put_entry a key e (swap_entry "user" now e) f)

pub revert_twice :
    (a : Option FieldName) (key : Option String) (now now' : String) (f : StaticField)
    (e : StaticEntry)
    → entry_at a key f ≡ some e
    → is_variables a ≡ false
    → (e.prev_updated_at == "") ≡ false
    → (e.updated_at == "") ≡ false
    → (e' : StaticEntry) × (entry_at a key (revert_entry a key now' (revert_entry a key now f).0).0
        ≡ some e')
      × (e'.value ≡ e.value)
      × (e'.prev_value ≡ e.prev_value)
unfolding swap_entry
revert_twice a key now now' f e h v p u = (
  swap_entry "user" now' (swap_entry "user" now e),
  revert_entry-entry_at a key now' (revert_entry a key now f).0 (swap_entry "user" now e)
      (revert_entry-entry_at a key now f e h v p) v u,
  refl,
  refl,
)
