-- ===== src/Store/Laws.antt =====
-- A directory as a map from session ids to sessions.
use mcp_session_router.Base.{String, ◌≡◌, refl, false, ◌==◌, eq_iff, if◌then◌else◌, arith}
use mcp_session_router.Base.{Option, none, some, ok, ◌>>=◌, Option-cases, ◌⊎◌, inl, inr}
use mcp_session_router.Base.Dict.{
  lookup, NodupKeys, Entries, lookup-insert, lookup-erase, insert-NodupKeys, erase-NodupKeys,
  Entries-insert, Entries-erase, Entries-lookup,
}
use mcp_session_router.Session.{SessionMetadata}
use mcp_session_router.Session.Codec.{to_dict}
use mcp_session_router.Session.Roundtrip.{session_roundtrip}
use mcp_session_router.Store.{
  TextFormat, Directory, decode, save_session, load_session, mutate_session, delete_session,
}

module _ (F : TextFormat) where
  -- The text of a file reads as a session with the file's own id.
  abbrev pub Reads : String → F.Text → Type 0
  Reads k text = (s : SessionMetadata) × (decode F text ≡ ok s) × (s.session_id ≡ k)

  pub record IsConsistent (dir : Directory F) : Type 0 where
    pub nodup : NodupKeys dir
    pub reads : Entries Reads dir

  pub decode-dumps : (s : SessionMetadata) → decode F (F.dumps (to_dict s)) ≡ ok s
  unfolding decode
  decode-dumps s = ground (arith, F.loads-dumps (to_dict s), session_roundtrip s)

  pub load_session-save_session :
      (k : String) (s : SessionMetadata) (dir : Directory F)
      → load_session F k (save_session F s dir)
        ≡ (if s.session_id == k then ok (some s) else load_session F k dir)
  unfolding load_session save_session
  load_session-save_session k s dir =
      ground (arith, lookup-insert s.session_id k (F.dumps (to_dict s)) dir, decode-dumps s)

  pub load_session-delete_session :
      (k j : String) (dir : Directory F)
      → load_session F j (delete_session F k dir)
        ≡ (if k == j then ok none else load_session F j dir)
  unfolding load_session delete_session
  load_session-delete_session k j dir = ground (arith, lookup-erase k j dir)

  -- In a consistent directory no load raises.
  pub load_session_total :
      (k : String) (dir : Directory F)
      → IsConsistent dir
      → (load_session F k dir ≡ ok none)
        ⊎ ((s : SessionMetadata) × (load_session F k dir ≡ ok (some s)) × (s.session_id ≡ k))
  unfolding load_session
  load_session_total k dir c = elim (Option-cases (lookup k dir)) [
    | inl e ↦ inl (rw (e, load_session) refl)
    | inr (text, e) ↦
        let (s, d, i) = Entries-lookup Reads k text dir c.reads e in inr (s, ground arith, i)
  ]

  pub save_session-IsConsistent :
      (s : SessionMetadata) (dir : Directory F)
      → IsConsistent dir
      → IsConsistent (save_session F s dir)
  unfolding save_session
  save_session-IsConsistent s dir c = record {
    nodup = insert-NodupKeys s.session_id (F.dumps (to_dict s)) dir c.nodup;
    reads = Entries-insert Reads s.session_id _ dir (s, decode-dumps s, refl) c.reads;
  }

  pub delete_session-IsConsistent :
      (k : String) (dir : Directory F) → IsConsistent dir → IsConsistent (delete_session F k dir)
  unfolding delete_session
  delete_session-IsConsistent k dir c = record {
    nodup = erase-NodupKeys k dir c.nodup;
    reads = Entries-erase Reads k dir c.reads;
  }

  -- What a mutation leaves under each id.
  abbrev pub mutated :
      (SessionMetadata → SessionMetadata) → Option SessionMetadata → Option SessionMetadata
  mutated mutator none = none
  mutated mutator (some s) = some (mutator s)

  abbrev pub KeepsId : (SessionMetadata → SessionMetadata) → Type 0
  KeepsId mutator = (s : SessionMetadata) → (mutator s).session_id ≡ s.session_id

  pub mutate_session_lem :
      (k : String) (mutator : SessionMetadata → SessionMetadata) (dir : Directory F)
      → KeepsId mutator
      → IsConsistent dir
      → (s : Option SessionMetadata) × (dir' : Directory F) × (load_session F k dir ≡ ok s)
        × (mutate_session F k mutator dir ≡ ok (mutated mutator s, dir'))
        × (load_session F k dir' ≡ ok (mutated mutator s))
        × ((j : String) → (k == j) ≡ false → load_session F j dir' ≡ load_session F j dir)
        × IsConsistent dir'
  unfolding mutate_session
  mutate_session_lem k mutator dir keeps c = elim (load_session_total k dir c) [
    | inl e ↦ (none, dir, e, rw (e, ◌>>=◌) refl, e, λ j _. refl, c)
    | inr (s, e, i) ↦ (
      some s,
      save_session F (mutator s) dir,
      e,
      rw (e, ◌>>=◌) refl,
      rw load_session-save_session (ground (arith, eq_iff (mutator s).session_id k, keeps s)),
      λ j n. rw load_session-save_session (ground (arith, keeps s)),
      save_session-IsConsistent (mutator s) dir c,
    )
  ]
