-- ===== src/Static/Merge.antt =====
-- The merge of a mapping into a dict field, against a description key by key.
use mcp_session_router.Base.{String, ◌<>◌, ◌≡◌, refl, Bool, if◌then◌else◌, eq_iff, arith}
use mcp_session_router.Base.{Option, none, some, List, [], ◌∷◌}
use mcp_session_router.Base.Dict.{Dict, lookup, insert, lookup-insert}
use mcp_session_router.Json.{Json}
use mcp_session_router.Json.Equal.{json_eq}
use mcp_session_router.Static.{StaticEntry, set_entry, entry_or_empty, merge}

-- The keys of a mapping stand once each, as in every dict.
abbrev pub NodupKeys : Dict Json → Type 0
NodupKeys [] = Unit
NodupKeys ((k, v) ∷ d) = (lookup k d ≡ none) × NodupKeys d

-- What one key holds after the merge.
abbrev pub merged : String → Bool → String → Option Json → Option StaticEntry → Option StaticEntry
merged source keep_prev now none old = old
merged source keep_prev now (some v) old =
    some (set_entry v source keep_prev now (entry_or_empty old)).0

pub lookup-merge :
    (name source : String) (keep_prev : Bool) (now k : String) (m : Dict Json)
    (entries : Dict StaticEntry)
    → NodupKeys m
    → lookup k (merge name source keep_prev now m entries).0
      ≡ merged source keep_prev now (lookup k m) (lookup k entries)
unfolding merge lookup
lookup-merge name source keep_prev now k [] entries u = refl
lookup-merge name source keep_prev now k ((j, v) ∷ m) entries u = ground (
  arith,
  eq_iff j k,
  lookup-insert j k (set_entry v source keep_prev now (entry_or_empty (lookup j entries))).0
      entries,
  lookup-merge name source keep_prev now k m
      (insert j (set_entry v source keep_prev now (entry_or_empty (lookup j entries))).0 entries)
      u.1,
)

-- The names of the keys whose value differs from the one stored, or from the empty text.
abbrev pub changed_names : String → Dict Json → Dict StaticEntry → List String
changed_names name [] entries = []
changed_names name ((k, v) ∷ m) entries =
    let rest = changed_names name m entries in
    if json_eq v (entry_or_empty (lookup k entries)).value then rest else (name <> "." <> k) ∷ rest

changed_names-insert :
    (name k : String) (e : StaticEntry) (m : Dict Json) (entries : Dict StaticEntry)
    → lookup k m ≡ none
    → changed_names name m (insert k e entries) ≡ changed_names name m entries
unfolding lookup
changed_names-insert name k e [] entries fresh = refl
changed_names-insert name k e ((j, v) ∷ m) entries fresh = ground (
  arith,
  eq_iff j k,
  eq_iff k j,
  lookup-insert k j e entries,
  changed_names-insert name k e m entries,
)

pub merge-changed_names :
    (name source : String) (keep_prev : Bool) (now : String) (m : Dict Json)
    (entries : Dict StaticEntry)
    → NodupKeys m
    → (merge name source keep_prev now m entries).1 ≡ changed_names name m entries
unfolding merge set_entry
merge-changed_names name source keep_prev now [] entries u = refl
merge-changed_names name source keep_prev now ((k, v) ∷ m) entries (fresh, u) =
    let e : StaticEntry =
      (set_entry v source keep_prev now (entry_or_empty (lookup k entries))).0 in
    ground (
      arith,
      merge-changed_names name source keep_prev now m (insert k e entries) u,
      changed_names-insert name k e m entries fresh,
    )
