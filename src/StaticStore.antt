-- ===== src/StaticStore.antt =====
-- src/session_manager/storage/file_store.py, FieldStore, and the tools of
-- src/session_manager/server.py on the static field. The file is a text or is missing; a mutation
-- under the file's lock is one step.
pub mod Writes
use mcp_session_router.Base.{
  String, Bool, true, false, ◌==◌, ◌||◌, if◌then◌else◌, List, [], ◌∷◌, ◌++◌,
}
use mcp_session_router.Base.{Option, none, some, Result, ok, err, unsupported_schema, ◌>>=◌}
use mcp_session_router.Base.Dict.{Dict}
use mcp_session_router.Json.{Json}
use mcp_session_router.Store.{TextFormat, load_json}
use mcp_session_router.Static.{
  StaticField, new_static, touch_static, set_project_context, set_conventions, merge_project_map,
  merge_variables, FieldName, project_map, variables, parse_field, delete_entry, Reverted, reverted,
  revert_entry,
}
use mcp_session_router.Static.Codec.{to_dict, from_dict, to_masked_dict}

-- The optional arguments of update_static.
pub record StaticUpdate : Type 0 where
  pub new_context : Option String
  pub new_conventions : Option String
  pub new_map : Option (Dict Json)
  pub new_variables : Option (Dict Json)

-- source in VALID_SOURCES
abbrev pub is_valid_source : String → Bool
is_valid_source source = source == "auto" || source == "user"

-- `if argument is not None: changed.extend(...)`
abbrev pub then_set {ℓ} :
    {A : Type ℓ}
    → Option A
    → (A → StaticField → StaticField × List String)
    → StaticField × List String
    → StaticField × List String
then_set none set (f, changed) = (f, changed)
then_set (some v) set (f, changed) = let (f', names) = set v f in (f', changed ++ names)

-- The four steps of update_static's `apply`: the field and the names in `changed`.
unfoldable pub apply_update :
    StaticUpdate → String → String → StaticField → StaticField × List String
apply_update u source now f =
    then_set u.new_variables (λ m. merge_variables m source now)
      (then_set u.new_map (λ m. merge_project_map m source now)
        (then_set u.new_conventions (λ v. set_conventions v source now)
          (then_set u.new_context (λ v. set_project_context v source now) (f, []))))

-- What a mutator leaves: the field, whether to save it, and what it reports.
abbrev pub Mutation {ℓ} : Type ℓ → Type ℓ
Mutation A = StaticField × Bool × A

abbrev pub touch_changed : String → StaticField × List String → Mutation (List String)
touch_changed now (f, []) = (f, false, [])
touch_changed now (f, name ∷ names) = (touch_static now f, true, name ∷ names)

abbrev pub touch_deleted : String → StaticField × Bool → Mutation Bool
touch_deleted now (f, true) = (touch_static now f, true, true)
touch_deleted now (f, false) = (f, false, false)

abbrev pub touch_reverted : String → StaticField × Reverted × String → Mutation (Reverted × String)
touch_reverted now (f, reverted, at) = (touch_static now f, true, (reverted, at))
touch_reverted now (f, outcome, at) = (f, false, (outcome, at))

-- _validate_entry_address: a text that names no field, or a dict field without a key.
pub data Address : Type 0 where
  invalid_field key_required : Address
  valid : FieldName → Address

abbrev key_for : FieldName → Option String → Address
key_for project_map none = key_required
key_for project_map (some key) = if key == "" then key_required else valid project_map
key_for variables none = key_required
key_for variables (some key) = if key == "" then key_required else valid variables
key_for name key = valid name

unfoldable pub validate_entry_address : String → Option String → Address
validate_entry_address field key = elim (parse_field field) [
  | none ↦ invalid_field
  | some name ↦ key_for name key
]

-- The answers of the tools, with what the call reports.
pub data Reply {ℓ} (A : Type ℓ) : Type ℓ where
  invalid_source : Reply A
  invalid_address : Address → Reply A
  refused_schema : Reply A
  done : A → Reply A

module _ (F : TextFormat) where
  abbrev pub StaticFile : Type 0
  StaticFile = Option F.Text

  unfoldable pub load_static : String → StaticFile → Result StaticField
  load_static now none = ok (new_static now)
  load_static now (some text) = load_json F text >>= from_dict

  unfoldable pub save_static : StaticField → StaticFile
  save_static f = some (F.dumps (to_dict f))

  module _ {ℓ} {A : Type ℓ} where
    abbrev pub write_static : Mutation A → StaticFile → Result (StaticField × A) × StaticFile
    write_static (f, save, a) file = (ok (f, a), if save then save_static f else file)

    abbrev pub mutate_loaded :
        (StaticField → Mutation A)
        → StaticFile
        → Result StaticField
        → Result (StaticField × A) × StaticFile
    mutate_loaded mutator file (err e) = (err e, file)
    mutate_loaded mutator file (ok f) = write_static (mutator f) file

    unfoldable pub mutate_static :
        String → (StaticField → Mutation A) → StaticFile → Result (StaticField × A) × StaticFile
    mutate_static now mutator file = mutate_loaded mutator file (load_static now file)

    -- except UnsupportedStaticSchemaError
    abbrev pub reply : Result (StaticField × A) → Result (Reply (StaticField × A))
    reply (ok r) = ok (done r)
    reply (err unsupported_schema) = ok refused_schema
    reply (err e) = err e

    abbrev pub call :
        String
        → (StaticField → Mutation A)
        → StaticFile
        → Result (Reply (StaticField × A)) × StaticFile
    call now mutator file = let (r, file') = mutate_static now mutator file in (reply r, file')

  -- The reply's field gives `updated_at`.
  unfoldable pub update_static :
      String
      → StaticUpdate
      → String
      → StaticFile
      → Result (Reply (StaticField × List String)) × StaticFile
  update_static now u source file =
      if is_valid_source source
      then call now (λ f. touch_changed now (apply_update u source now f)) file
      else (ok invalid_source, file)

  abbrev at_address {ℓ} :
      {A : Type ℓ}
      → String
      → (FieldName → StaticField → Mutation A)
      → Address
      → StaticFile
      → Result (Reply (StaticField × A)) × StaticFile
  at_address now mutator (valid name) file = call now (mutator name) file
  at_address now mutator a file = (ok (invalid_address a), file)

  unfoldable pub delete_static_entry :
      String
      → String
      → Option String
      → StaticFile
      → Result (Reply (StaticField × Bool)) × StaticFile
  delete_static_entry now field key file =
      at_address now (λ name f. touch_deleted now (delete_entry (some name) key f))
        (validate_entry_address field key) file

  unfoldable pub revert_static_entry :
      String
      → String
      → Option String
      → StaticFile
      → Result (Reply (StaticField × (Reverted × String))) × StaticFile
  revert_static_entry now field key file =
      at_address now (λ name f. touch_reverted now (revert_entry (some name) key now f))
        (validate_entry_address field key) file

  abbrev masked : Result StaticField → Result (Reply Json)
  masked (ok f) = ok (done (to_masked_dict f))
  masked (err unsupported_schema) = ok refused_schema
  masked (err e) = err e

  unfoldable pub get_static_all : String → StaticFile → Result (Reply Json)
  get_static_all now file = masked (load_static now file)
