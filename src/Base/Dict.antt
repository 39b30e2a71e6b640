-- ===== src/Base/Dict.antt =====
-- Python's dict with string keys, in insertion order.
use mathlib.Core.Path.{◌≡◌, refl, subst₂}
use mathlib.Core.Logic.{inl, inr}
use mathlib.Core.Option.{Option, none, some, some-injective}
use mathlib.Core.List.{List, [], ◌∷◌}
use native.Mathlib.Omega.{arith}
use Prim.Native.String.{String}
use text.Mathlib.Text.{◌==◌}
use text.Mathlib.TextEquality.{eq_iff}
use text.Mathlib.TextPositions.{eq_refl}
use mcp_session_router.Base.Tests.{if◌then◌else◌, Bool-cases}

abbrev pub Dict {ℓ} : Type ℓ → Type ℓ
Dict V = List (String × V)

module _ {ℓ} {V : Type ℓ} where
  -- d.get(k)
  unfoldable pub lookup : String → Dict V → Option V
  lookup k [] = none
  lookup k ((j, v) ∷ d) = if j == k then some v else lookup k d

  -- d[k] = v
  unfoldable pub insert : String → V → Dict V → Dict V
  insert k v [] = (k, v) ∷ []
  insert k v ((j, w) ∷ d) = if j == k then (j, v) ∷ d else (j, w) ∷ insert k v d

  -- d.pop(k, None)
  unfoldable pub erase : String → Dict V → Dict V
  erase k [] = []
  erase k ((j, w) ∷ d) = let rest = erase k d in if j == k then rest else (j, w) ∷ rest

  pub lookup-insert :
      (k j : String) (v : V) (d : Dict V)
      → lookup j (insert k v d) ≡ (if k == j then some v else lookup j d)
  unfolding lookup insert
  lookup-insert k j v [] = refl
  lookup-insert k j v ((i, w) ∷ d) =
      ground (arith, eq_iff k j, eq_iff i k, eq_iff i j, lookup-insert k j v d)

  pub lookup-erase :
      (k j : String) (d : Dict V) → lookup j (erase k d) ≡ (if k == j then none else lookup j d)
  unfolding lookup erase
  lookup-erase k j [] = ground arith
  lookup-erase k j ((i, w) ∷ d) =
      ground (arith, lookup-erase k j d, eq_iff i k, eq_iff i j, eq_iff k j)

  pub lookup-insert_self : (k : String) (v : V) (d : Dict V) → lookup k (insert k v d) ≡ some v
  lookup-insert_self k v d = simp (lookup-insert, eq_refl)

-- {k: f(v) for k, v in d.items()}
unfoldable pub map_values {ℓ κ} : {V : Type ℓ} {W : Type κ} → (V → W) → Dict V → Dict W
map_values f [] = []
map_values f ((k, v) ∷ d) = (k, f v) ∷ map_values f d

pub lookup-map_values {ℓ κ} :
    {V : Type ℓ} {W : Type κ} (f : V → W) (k : String) (d : Dict V)
    → lookup k (map_values f d) ≡ elim (lookup k d) [ none ↦ none | some v ↦ some (f v) ]
unfolding lookup map_values
lookup-map_values f k [] = refl
lookup-map_values f k ((j, v) ∷ d) = ground (arith, lookup-map_values f k d)

module _ {ℓ} {V : Type ℓ} where
  -- No key stands twice, as in every dict.
  abbrev pub NodupKeys : Dict V → Type ℓ
  NodupKeys [] = Unit
  NodupKeys ((k, v) ∷ d) = (lookup k d ≡ none) × NodupKeys d

  -- Every entry satisfies `P`.
  abbrev pub Entries {κ} : (String → V → Type κ) → Dict V → Type κ
  Entries P [] = Unit
  Entries P ((k, v) ∷ d) = P k v × Entries P d

  pub insert-NodupKeys : (k : String) (v : V) (d : Dict V) → NodupKeys d → NodupKeys (insert k v d)
  unfolding insert lookup
  insert-NodupKeys k v [] u = (refl, tt)
  insert-NodupKeys k v ((j, w) ∷ d) u =
      ground (arith, insert-NodupKeys k v d u.1, lookup-insert k j v d, eq_iff j k, eq_iff k j)

  pub erase-NodupKeys : (k : String) (d : Dict V) → NodupKeys d → NodupKeys (erase k d)
  unfolding erase
  erase-NodupKeys k [] u = tt
  erase-NodupKeys k ((j, w) ∷ d) u = ground (arith, erase-NodupKeys k d u.1, lookup-erase k j d)

  pub Entries-insert {κ} :
      (P : String → V → Type κ) (k : String) (v : V) (d : Dict V)
      → P k v
      → Entries P d
      → Entries P (insert k v d)
  unfolding insert
  Entries-insert P k v [] p h = (p, tt)
  Entries-insert P k v ((j, w) ∷ d) p h = elim (Bool-cases (j == k)) [
    | inl e ↦ rw e (rw ((eq_iff j k).0 e) p, h.1)
    | inr n ↦ rw n (h.0, Entries-insert P k v d p h.1)
  ]

  pub Entries-erase {κ} :
      (P : String → V → Type κ) (k : String) (d : Dict V) → Entries P d → Entries P (erase k d)
  unfolding erase
  Entries-erase P k [] h = tt
  Entries-erase P k ((j, w) ∷ d) h = elim (Bool-cases (j == k)) [
    | inl e ↦ rw e (Entries-erase P k d h.1)
    | inr n ↦ rw n (h.0, Entries-erase P k d h.1)
  ]

  pub Entries-lookup {κ} :
      (P : String → V → Type κ) (k : String) (v : V) (d : Dict V)
      → Entries P d
      → lookup k d ≡ some v
      → P k v
  unfolding lookup
  Entries-lookup P k v [] h e = cc
  Entries-lookup P k v ((j, w) ∷ d) h e = elim (Bool-cases (j == k)) [
    | inl s ↦ subst₂ P ((eq_iff j k).0 s) (some-injective w v (rw s at e)) h.0
    | inr n ↦ Entries-lookup P k v d h.1 (rw n at e)
  ]

  Entries-map {κ} :
      (P Q : String → V → Type κ)
      → ((k : String) (v : V) → P k v → Q k v)
      → (d : Dict V) → Entries P d
      → Entries Q d
  Entries-map P Q f [] h = tt
  Entries-map P Q f ((k, v) ∷ d) h = (f k v h.0, Entries-map P Q f d h.1)

  found_later :
      (j : String) (w : V) (d : Dict V) (k : String) (v : V)
      → lookup j d ≡ none
      → lookup k d ≡ some v
      → lookup k ((j, w) ∷ d) ≡ some v
  unfolding lookup
  found_later j w d k v h e = ground (arith, eq_iff j k)

  -- With keys that stand once, every entry is the one that its key finds.
  pub Entries-lookup_self : (d : Dict V) → NodupKeys d → Entries (λ k v. lookup k d ≡ some v) d
  unfolding lookup
  Entries-lookup_self [] u = tt
  Entries-lookup_self ((j, w) ∷ d) u = (
    ground (arith, eq_refl j),
    Entries-map _ _ (λ k v. found_later j w d k v u.0) d (Entries-lookup_self d u.1),
  )
