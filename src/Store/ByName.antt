-- ===== src/Store/ByName.antt =====
-- The listing of a consistent directory, and what is found and mutated by name.
use mcp_session_router.Base.{
  String, ◌≡◌, refl, Bool, true, false, ◌==◌, eq_iff, ◌||◌, if◌then◌else◌, arith, ap, ◌∙◌,
}
use mcp_session_router.Base.{
  Option, none, some, ok, ◌>>=◌, Option-cases, inl, inr, List, [], ◌∷◌, contains, All, map_result,
  Bool-cases,
}
use mathlib.Core.Path.{subst}
use mathlib.Core.Option.{some-injective}
use mcp_session_router.Base.Dict.{Dict, lookup, Entries, Entries-lookup_self}
use mcp_session_router.Session.{SessionMetadata}
use mcp_session_router.Store.{
  TextFormat, Directory, decode, load_session, mutate_session_by_name, load_session_by_name,
  list_sessions, find_by_name, insert_sorted, sort_files, texts,
}
use mcp_session_router.Store.Sorted.{Entries-sort_files}
use mcp_session_router.Store.Laws.{Reads, IsConsistent, mutated, KeepsId, mutate_session_lem}

module _ {ℓ} {V : Type ℓ} where
  abbrev pub keys : Dict V → List String
  keys [] = []
  keys ((k, v) ∷ d) = k ∷ keys d

  contains-insert_sorted :
      (k : String) (v : V) (d : Dict V) (j : String)
      → contains (keys (insert_sorted k v d)) j ≡ (j == k || contains (keys d) j)
  contains-insert_sorted k v [] j = refl
  contains-insert_sorted k v ((i, w) ∷ d) j = ground (arith, contains-insert_sorted k v d j)

  -- The order of the listing adds no file and loses none.
  pub contains-sort_files :
      (d : Dict V) (j : String) → contains (keys (sort_files d)) j ≡ contains (keys d) j
  contains-sort_files [] j = refl
  contains-sort_files ((k, v) ∷ d) j =
      contains-insert_sorted k v (sort_files d) j ∙ ap (λ b. j == k || b) (contains-sort_files d j)

  pub contains-keys :
      (d : Dict V) (k : String) (v : V) → lookup k d ≡ some v → contains (keys d) k ≡ true
  unfolding lookup
  contains-keys [] k v h = cc
  contains-keys ((j, w) ∷ d) k v h = ground (arith, contains-keys d k v, eq_iff j k, eq_iff k j)

  and_Entries {κ μ} :
      (P : String → V → Type κ) (Q : String → V → Type μ) (d : Dict V)
      → Entries P d
      → Entries Q d
      → Entries (λ k v. P k v × Q k v) d
  and_Entries P Q [] p q = tt
  and_Entries P Q ((k, v) ∷ d) p q = ((p.0, q.0), and_Entries P Q d p.1 q.1)

abbrev pub ids : List SessionMetadata → List String
ids [] = []
ids (s ∷ ss) = s.session_id ∷ ids ss

pub name-find_by_name :
    (name : String) (ss : List SessionMetadata) (s : SessionMetadata)
    → find_by_name name ss ≡ some s
    → s.name ≡ name
unfolding find_by_name
name-find_by_name name [] s h = cc
name-find_by_name name (x ∷ ss) s h =
    ground (arith, name-find_by_name name ss s, eq_iff x.name name)

found-All {κ} :
    (P : SessionMetadata → Type κ) (name : String) (ss : List SessionMetadata) (s : SessionMetadata)
    → find_by_name name ss ≡ some s
    → All P ss
    → P s
unfolding find_by_name
found-All P name [] s h a = cc
found-All P name (x ∷ ss) s h a = elim (Bool-cases (x.name == name)) [
  | inl e ↦ subst P (some-injective x s (rw e at h)) a.0
  | inr n ↦ found-All P name ss s (rw n at h) a.1
]

module _ (F : TextFormat) where
  abbrev Stored : Directory F → SessionMetadata → Type 0
  Stored dir s = load_session F s.session_id dir ≡ ok (some s)

  stored :
      (dir : Directory F) (k : String) (text : F.Text)
      → Reads F k text × (lookup k dir ≡ some text)
      → (s : SessionMetadata) × (decode F text ≡ ok s) × (s.session_id ≡ k) × Stored dir s
  unfolding load_session
  stored dir k text (r, e) = let (s, d, i) = r in (s, d, i, ground arith)

  read-All :
      (dir d : Directory F)
      → Entries (λ k text. Reads F k text × (lookup k dir ≡ some text)) d
      → (ss : List SessionMetadata) × (map_result (decode F) (texts d) ≡ ok ss)
        × (ids ss ≡ keys d)
        × All (Stored dir) ss
  read-All dir [] h = ([], refl, refl, tt)
  read-All dir ((k, text) ∷ d) h =
      let (s, e, i, l) = stored dir k text h.0 in
      let (ss, es, is, ls) = read-All dir d h.1 in
      (s ∷ ss, rw (e, es) refl, rw (i, is) refl, (l, ls))

  pub list_sessions_lem :
      (dir : Directory F)
      → IsConsistent F dir
      → (ss : List SessionMetadata) × (list_sessions F dir ≡ ok ss)
        × (ids ss ≡ keys (sort_files dir))
        × All (Stored dir) ss
  unfolding list_sessions
  list_sessions_lem dir c =
      read-All dir (sort_files dir)
        (Entries-sort_files _ dir (and_Entries _ _ dir c.reads (Entries-lookup_self dir c.nodup)))

  pub contains_loaded :
      (dir : Directory F) (k : String) (s : SessionMetadata)
      → load_session F k dir ≡ ok (some s)
      → contains (keys dir) k ≡ true
  unfolding load_session
  contains_loaded dir k s h = elim (Option-cases (lookup k dir)) [
    | inl n ↦ absurd (ground arith)
    | inr (text, e) ↦ contains-keys dir k text e
  ]

  -- Whether a mutation of a found session touches the file of an id.
  abbrev pub touches : Option SessionMetadata → String → Bool
  touches none j = false
  touches (some s) j = s.session_id == j

  -- In a consistent directory and for a mutator that keeps the id, a mutation by name applies it
  -- to the first listed session of that name, changes that session's file alone, or none without
  -- such a session, and does not raise.
  pub mutate_session_by_name_lem :
      (name : String) (mutator : SessionMetadata → SessionMetadata) (dir : Directory F)
      → KeepsId F mutator
      → IsConsistent F dir
      → (s : Option SessionMetadata) × (dir' : Directory F) × (load_session_by_name F name dir
          ≡ ok s)
        × (mutate_session_by_name F name mutator dir ≡ ok (mutated F mutator s, dir'))
        × ((j : String)
            → load_session F j dir'
              ≡ (if touches s j then ok (mutated F mutator s) else load_session F j dir))
        × IsConsistent F dir'
  unfolding mutate_session_by_name load_session_by_name
  mutate_session_by_name_lem name mutator dir keeps c =
      let (ss, e, _, a) = list_sessions_lem dir c in
      elim (Option-cases (find_by_name name ss)) [
        | inl n ↦
            (none, dir, rw (e, ◌>>=◌) (rw n refl), rw (e, ◌>>=◌) (rw (n, ◌>>=◌) refl), λ j. refl, c)
        | inr (s, f) ↦
            let (s', dir', l, m, at, other, c') =
              mutate_session_lem F s.session_id mutator dir keeps c in
            (
              some s,
              dir',
              rw (e, ◌>>=◌) (rw f refl),
              ground (arith, e, f, m, l, found-All (Stored dir) name ss s f a),
              λ j. ground (
                arith,
                eq_iff s.session_id j,
                at,
                l,
                other j,
                found-All (Stored dir) name ss s f a,
              ),
              c',
            )
      ]
