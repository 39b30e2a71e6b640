-- ===== src/Store/Sorted.antt =====
-- The order of the listing of storage/file_store.py.
use mcp_session_router.Base.{String, Bool-cases, inl, inr}
use mcp_session_router.Base.{[], ◌∷◌}
use mcp_session_router.Base.Dict.{Dict, Entries}
use mcp_session_router.Store.{name_le, insert_sorted, sort_files}

module _ {ℓ κ} {V : Type ℓ} (P : String → V → Type κ) where
  Entries-insert_sorted :
      (k : String) (v : V) (d : Dict V) → P k v → Entries P d → Entries P (insert_sorted k v d)
  Entries-insert_sorted k v [] p h = (p, tt)
  Entries-insert_sorted k v ((j, w) ∷ d) p h = elim (Bool-cases (name_le k j)) [
    | inl e ↦ rw e (p, h)
    | inr n ↦ rw n (h.0, Entries-insert_sorted k v d p h.1)
  ]

  pub Entries-sort_files : (d : Dict V) → Entries P d → Entries P (sort_files d)
  Entries-sort_files [] h = tt
  Entries-sort_files ((k, v) ∷ d) h =
      Entries-insert_sorted k v (sort_files d) h.0 (Entries-sort_files d h.1)
