-- ===== src/State/Resolve.antt =====
-- Which session the inference answers.
use mcp_session_router.Base.{
  ℕ, String, ◌≡◌, refl, true, false, ◌==◌, if◌then◌else◌, ltb, any, Bool, Bool-cases, Option-cases,
  arith, ◌≢◌, ◌⊎◌, inl, inr, ap, ◌∙◌,
}
use mcp_session_router.Base.{Option, none, some, List, [], ◌∷◌, ok, All}
use mathlib.Core.Path.{subst, sym}
use mcp_session_router.Base.Times.{Time, aware}
use mcp_session_router.Session.{SessionMetadata, is_active}
use mcp_session_router.State.{
  is_owner, find_owner, living, or_all, latest_from, latest, latest_name, given, resolve_from_store,
}

-- Membership with the place kept.
abbrev pub In : SessionMetadata → List SessionMetadata → Type 0
In a [] = ⊥
In a (x ∷ xs) = (a ≡ x) ⊎ In a xs

pub find_owner_sound :
    (conv_id : String) (ss : List SessionMetadata) (s : SessionMetadata)
    → find_owner conv_id ss ≡ some s
    → In s ss × (is_owner conv_id s ≡ true)
unfolding find_owner
find_owner_sound conv_id [] s h = cc
find_owner_sound conv_id (x ∷ ss) s h = elim (Bool-cases (is_owner conv_id x)) [
  | inl o ↦
      let e : x ≡ s = ground arith in (inl (sym e), subst (λ y. is_owner conv_id y ≡ true) e o)
  | inr n ↦ let (i, o) = find_owner_sound conv_id ss s (ground arith) in (inr i, o)
]

find_owner_complete :
    (conv_id : String) (ss : List SessionMetadata)
    → find_owner conv_id ss ≡ none
    → any (is_owner conv_id) ss ≡ false
unfolding find_owner
find_owner_complete conv_id [] h = refl
find_owner_complete conv_id (x ∷ ss) h = ground (arith, find_owner_complete conv_id ss)

In-living :
    (s : SessionMetadata) (ss : List SessionMetadata)
    → In s (living ss)
    → In s ss × (is_active s.status ≡ true)
In-living s [] h = absurd h
In-living s (x ∷ ss) h = elim (Bool-cases (is_active x.status)) [
  | inl a ↦ elim (rw a at h) as (λ _. In s (x ∷ ss) × (is_active s.status ≡ true)) [
    | inl e ↦ (inl e, ap (λ (y : SessionMetadata). is_active y.status) e ∙ a)
    | inr i ↦ (inr (In-living s ss i).0, (In-living s ss i).1)
  ]
  | inr n ↦ (inr (In-living s ss (rw n at h)).0, (In-living s ss (rw n at h)).1)
]

nil_or_cons :
    (ss : List SessionMetadata)
    → (ss ≡ []) ⊎ ((x : SessionMetadata) × (xs : List SessionMetadata) × (ss ≡ x ∷ xs))
nil_or_cons [] = inl refl
nil_or_cons (x ∷ xs) = inr (x, xs, refl)

living_nonempty :
    (ss : List SessionMetadata) → any (λ x. is_active x.status) ss ≡ true → living ss ≢ []
living_nonempty [] h e = cc
living_nonempty (x ∷ ss) h e = ground (arith, living_nonempty ss)

given_sound :
    (conv : Option String) (ss : List SessionMetadata) (s : SessionMetadata)
    → given conv ss ≡ some s
    → In s ss × (is_active s.status ≡ true)
given_sound none ss s h = cc
given_sound (some conv_id) ss s h = elim (Bool-cases (conv_id == "")) [
  | inl e ↦ absurd (ground arith)
  | inr n ↦ let (i, o) = find_owner_sound conv_id ss s (ground arith) in (i, ground arith)
]

picked :
    (time : String → Option Time) (best : SessionMetadata) (t : ℕ) (s : SessionMetadata) (v : ℕ)
    (ss : List SessionMetadata)
    → ((b : SessionMetadata) (u : ℕ)
        → (r : SessionMetadata) × (latest_from time b (aware u) ss ≡ ok r))
    → (later : Bool)
    → (r : SessionMetadata) × (latest_from time
          (if later then s else best)
          (if later then aware v else aware t)
          ss
        ≡ ok r)
picked time best t s v ss rest true = rest s v
picked time best t s v ss rest false = rest best t

module _ (time : String → Option Time) where
  -- Where every stored time has a zone, the search for the latest session returns one.
  latest_from_total :
      (best : SessionMetadata) (t : ℕ) (ss : List SessionMetadata)
      → All (λ s. (v : ℕ) × (time s.last_accessed ≡ some (aware v))) ss
      → (r : SessionMetadata) × (latest_from time best (aware t) ss ≡ ok r)
  unfolding latest_from
  latest_from_total best t [] h = (best, refl)
  latest_from_total best t (s ∷ ss) ((v, p), h) =
      let (r, e) = picked time best t s v ss (λ b u. latest_from_total b u ss h) (ltb t v) in
      (r, ground (arith, p, e))

  -- The pool of the search by time.
  abbrev pub pool : List SessionMetadata → List SessionMetadata
  pool ss = or_all (living ss) ss

  pub resolve_from_store-owner :
      (ss : List SessionMetadata) (conv_id : String)
      → (conv_id == "") ≡ false
      → any (is_owner conv_id) ss ≡ true
      → (s : SessionMetadata) × In s ss
        × (is_owner conv_id s ≡ true)
        × (resolve_from_store time ss (some conv_id) ≡ ok (some s.name))
  unfolding resolve_from_store
  resolve_from_store-owner [] conv_id c h = cc
  resolve_from_store-owner (x ∷ xs) conv_id c h =
      elim (Option-cases (find_owner conv_id (x ∷ xs))) [
        | inl e ↦ absurd (ground (arith, find_owner_complete conv_id (x ∷ xs) e))
        | inr (s, e) ↦ let (i, o) = find_owner_sound conv_id (x ∷ xs) s e in (s, i, o, ground arith)
      ]

  Parses : SessionMetadata → Type 0
  Parses s = (v : ℕ) × (time s.last_accessed ≡ some (aware v))

  All-living : (ss : List SessionMetadata) → All Parses ss → All Parses (living ss)
  All-living [] h = tt
  All-living (x ∷ ss) (p, h) = elim (Bool-cases (is_active x.status)) [
    | inl a ↦ rw a (p, All-living ss h)
    | inr n ↦ rw n (All-living ss h)
  ]

  latest_name_total :
      (ss : List SessionMetadata)
      → ss ≢ []
      → All Parses ss
      → (n : String) × (latest_name time ss ≡ ok (some n))
  unfolding latest Parses
  latest_name_total [] h a = absurd (h refl)
  latest_name_total (s ∷ ss) h ((t, p), a) =
      let (r, e) = latest_from_total s t ss a in (r.name, ground (arith, p, e))

  pool-All : (ss : List SessionMetadata) → All Parses ss → All Parses (pool ss)
  pool-All ss h = elim (nil_or_cons (living ss)) [
    | inl e ↦ rw e h
    | inr (x, xs, e) ↦ rw e (subst (All Parses) e (All-living ss h))
  ]

  pool_nonempty : (ss : List SessionMetadata) → ss ≢ [] → pool ss ≢ []
  pool_nonempty ss h = elim (nil_or_cons (living ss)) [
    | inl e ↦ rw e h
    | inr (x, xs, e) ↦ rw e (λ p. cc)
  ]

  -- If sessions are stored and every stored time parses and has a zone, the inference of the
  -- current session answers a name.
  pub resolve_from_store_total :
      (ss : List SessionMetadata) (conv : Option String)
      → ss ≢ []
      → All (λ s. (v : ℕ) × (time s.last_accessed ≡ some (aware v))) ss
      → (n : String) × (resolve_from_store time ss conv ≡ ok (some n))
  unfolding resolve_from_store Parses
  resolve_from_store_total [] conv h a = absurd (h refl)
  resolve_from_store_total (x ∷ xs) conv h a = elim (Option-cases (given conv (x ∷ xs))) [
    | inl e ↦
        let (n, r) =
          latest_name_total (pool (x ∷ xs)) (pool_nonempty (x ∷ xs) h) (pool-All (x ∷ xs) a) in
        (n, ground arith)
    | inr (s, e) ↦ (s.name, ground arith)
  ]
