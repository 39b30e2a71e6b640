-- ===== src/Store.antt =====
-- src/session_manager/storage/file_store.py: the session files of a project. A directory maps a
-- file's stem to its text. The text format is a parameter: what the code relies on of `json` is
-- that reading what was written gives it back. A mutation holds the file's lock from the read to
-- the write, so it is one step here; lock files and the directory's creation are left out.
pub mod Sorted
pub mod Laws
pub mod ByName
use Prim.Native.Nat.{Ordering}
use Prim.Native.String.{compare}
use mcp_session_router.Base.{String, ◌<>◌, ◌≡◌, Bool, true, false, ◌==◌, if◌then◌else◌}
use mcp_session_router.Base.{
  Option, none, some, List, [], ◌∷◌, Result, ok, err, value_error, ◌>>=◌, map_result,
}
use mcp_session_router.Base.Dict.{Dict, lookup, insert, erase}
use mcp_session_router.Json.{Json}
use mcp_session_router.Session.{SessionMetadata}
use mcp_session_router.Session.Codec.{to_dict, from_dict}

-- `json.dumps` and `json.loads`; `none` is a JSONDecodeError, which is a ValueError.
pub record TextFormat : Type 1 where
  pub Text : Type 0
  pub dumps : Json → Text
  pub loads : Text → Option Json
  pub loads-dumps : (v : Json) → loads (dumps v) ≡ some v

-- Path order of two file names.
abbrev pub name_le : String → String → Bool
name_le a b = elim (compare (a <> ".json") (b <> ".json")) [ Ordering.gt ↦ false | _ ↦ true ]

module _ {ℓ} {V : Type ℓ} where
  abbrev pub insert_sorted : String → V → Dict V → Dict V
  insert_sorted k v [] = (k, v) ∷ []
  insert_sorted k v ((j, w) ∷ d) =
      let rest = insert_sorted k v d in if name_le k j then (k, v) ∷ (j, w) ∷ d else (j, w) ∷ rest

  -- sorted(directory.glob("*.json"))
  abbrev pub sort_files : Dict V → Dict V
  sort_files [] = []
  sort_files ((k, v) ∷ d) = insert_sorted k v (sort_files d)

  abbrev pub texts : Dict V → List V
  texts [] = []
  texts ((k, v) ∷ d) = v ∷ texts d

-- The first session of a name.
unfoldable pub find_by_name : String → List SessionMetadata → Option SessionMetadata
find_by_name name [] = none
find_by_name name (s ∷ ss) = if s.name == name then some s else find_by_name name ss

module _ (F : TextFormat) where
  abbrev pub Directory : Type 0
  Directory = Dict F.Text

  abbrev pub load_json : F.Text → Result Json
  load_json text = elim (F.loads text) [ none ↦ err value_error | some v ↦ ok v ]

  unfoldable pub decode : F.Text → Result SessionMetadata
  decode text = load_json text >>= from_dict

  unfoldable pub save_session : SessionMetadata → Directory → Directory
  save_session s dir = insert s.session_id (F.dumps (to_dict s)) dir

  abbrev found : SessionMetadata → Result (Option SessionMetadata)
  found s = ok (some s)

  unfoldable pub load_session : String → Directory → Result (Option SessionMetadata)
  unfolding decode
  load_session session_id dir = elim (lookup session_id dir) [
    | none ↦ ok none
    | some text ↦ decode text >>= found
  ]

  unfoldable pub list_sessions : Directory → Result (List SessionMetadata)
  list_sessions dir = map_result decode (texts (sort_files dir))

  unfoldable pub load_session_by_name : String → Directory → Result (Option SessionMetadata)
  load_session_by_name name dir = do sessions ← list_sessions dir; ok (find_by_name name sessions)

  -- The session after the mutation, if there is one, and the directory.
  abbrev pub Mutated : Type 0
  Mutated = Option SessionMetadata × Directory

  abbrev write_mutated :
      (SessionMetadata → SessionMetadata) → Directory → Option SessionMetadata → Mutated
  write_mutated mutator dir none = (none, dir)
  write_mutated mutator dir (some s) = let s' = mutator s in (some s', save_session s' dir)

  unfoldable pub mutate_session :
      String → (SessionMetadata → SessionMetadata) → Directory → Result Mutated
  mutate_session session_id mutator dir = do
    session ← load_session session_id dir
    ok (write_mutated mutator dir session)

  abbrev mutate_found :
      (SessionMetadata → SessionMetadata) → Directory → Option SessionMetadata → Result Mutated
  mutate_found mutator dir none = ok (none, dir)
  mutate_found mutator dir (some s) = mutate_session s.session_id mutator dir

  unfoldable pub mutate_session_by_name :
      String → (SessionMetadata → SessionMetadata) → Directory → Result Mutated
  mutate_session_by_name name mutator dir = do
    session ← load_session_by_name name dir
    mutate_found mutator dir session

  unfoldable pub delete_session : String → Directory → Directory
  delete_session session_id dir = erase session_id dir
