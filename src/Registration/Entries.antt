-- ===== src/Registration/Entries.antt =====
-- What an added entry does to the hooks of a settings file.
use mcp_session_router.Base.{bind-ok, ok_injective}
use mcp_session_router.Base.{
  String, ◌==◌, eq_iff, ◌≡◌, refl, sym, ap, ◌∙◌, ◌⊎◌, inl, inr, arith, Bool-cases, if◌then◌else◌,
}
use mcp_session_router.Base.{Option, none, some, Result, ok, err, Bool, true, false, List, [], ◌∷◌}
use mcp_session_router.Base.Text.{has_part}
use mathlib.Core.Path.{subst}
use mcp_session_router.Json.{
  Json, null, bool, int, float, str, arr, obj, Fields, Items, nil, cons, end, field, get,
}
use mcp_session_router.Registration.{
  ManagedHook, put, append_item, or_later, entry_has, entries_have, of_entries, entry_of, appended,
  add_entry, add_entries,
}

pub get-put :
    (k j : String) (v : Json) (d : Fields)
    → get j (put k v d) ≡ (if k == j then some v else get j d)
get-put k j v end = refl
get-put k j v (field i w d) = ground (arith, eq_iff k j, eq_iff i k, eq_iff i j, get-put k j v d)

-- A test that did not raise.
abbrev pub IsKnown : Result Bool → Type 0
IsKnown r = (r ≡ ok true) ⊎ (r ≡ ok false)

abbrev pub has : Fields → String → String → Result Bool
has hooks event script = of_entries script (get event hooks)

entry_has-entry_of :
    (s c : String) (m : Option String) → entry_has s (entry_of m c) ≡ ok (has_part s c)
entry_has-entry_of s c none = elim (Bool-cases (has_part s c)) [
  | inl y ↦ rw y refl
  | inr n ↦ rw n refl
]
entry_has-entry_of s c (some m) = elim (Bool-cases (has_part s c)) [
  | inl y ↦ rw y refl
  | inr n ↦ rw n refl
]

or_later-false : (b : Bool) → or_later (ok b) (ok false) ≡ ok b
or_later-false true = refl
or_later-false false = refl

or_later_assoc :
    (a b : Result Bool) (c : Result Bool) → or_later a (or_later b c) ≡ or_later (or_later a b) c
or_later_assoc (ok true) b c = refl
or_later_assoc (ok false) b c = refl
or_later_assoc (err e) b c = refl

entries_have-append_item :
    (s c : String) (m : Option String) (es : Items)
    → entries_have s (append_item es (entry_of m c))
      ≡ or_later (entries_have s es) (ok (has_part s c))
entries_have-append_item s c m nil =
    ap (λ r. or_later r (ok false)) (entry_has-entry_of s c m) ∙ or_later-false (has_part s c)
entries_have-append_item s c m (cons e es) =
    ap (or_later (entry_has s e)) (entries_have-append_item s c m es)
    ∙ or_later_assoc (entry_has s e) (entries_have s es) (ok (has_part s c))

-- What a test answers after an entry was added for an event.
abbrev tested : String → String → String → String → Fields → Result Bool
tested event c e s hooks =
    if event == e then or_later (has hooks e s) (ok (has_part s c)) else has hooks e s

same_key : (k j : String) (hooks : Fields) → (k == j) ≡ true → get j hooks ≡ get k hooks
same_key k j hooks h = ap (λ x. get x hooks) (ground (arith, eq_iff k j))

put-tested :
    (event c e s : String) (m : Option String) (o : Option Json) (v : Json) (hooks : Fields)
    → get event hooks ≡ o
    → of_entries s (some v) ≡ or_later (of_entries s o) (ok (has_part s c))
    → has (put event v hooks) e s ≡ tested event c e s hooks
put-tested event c e s m o v hooks h t = elim (Bool-cases (event == e)) [
  | inl y ↦
      ap (of_entries s) (get-put event e v hooks)
      ∙ rw y (
          t
          ∙ ap (λ x. or_later (of_entries s x) (ok (has_part s c)))
              (sym h ∙ sym (same_key event e hooks y)))
  | inr n ↦ ap (of_entries s) (get-put event e v hooks) ∙ rw n refl
]

appended-tested :
    (event c e s : String) (m : Option String) (o : Option Json) (hooks hooks' : Fields)
    → get event hooks ≡ o
    → appended event (entry_of m c) o hooks ≡ ok hooks'
    → has hooks' e s ≡ tested event c e s hooks
appended-tested event c e s m none hooks hooks' h a =
    subst (λ x. has x e s ≡ tested event c e s hooks) (ok_injective a)
      (put-tested event c e s m none (arr (cons (entry_of m c) nil)) hooks h
        (entries_have-append_item s c m nil))
appended-tested event c e s m (some (arr es)) hooks hooks' h a =
    subst (λ x. has x e s ≡ tested event c e s hooks) (ok_injective a)
      (put-tested event c e s m (some (arr es)) (arr (append_item es (entry_of m c))) hooks h
        (entries_have-append_item s c m es))
appended-tested event c e s m (some null) hooks hooks' h a = absurd cc
appended-tested event c e s m (some (bool b)) hooks hooks' h a = absurd cc
appended-tested event c e s m (some (int n)) hooks hooks' h a = absurd cc
appended-tested event c e s m (some (float n k)) hooks hooks' h a = absurd cc
appended-tested event c e s m (some (str t)) hooks hooks' h a = absurd cc
appended-tested event c e s m (some (obj d)) hooks hooks' h a = absurd cc

-- An entry is added for an event whose command has a script.
abbrev pub Adds : String → String → List (ManagedHook × String) → Type 0
Adds e s [] = ⊥
Adds e s ((h, c) ∷ ps) = (((h.event == e) ≡ true) × (has_part s c ≡ true)) ⊎ Adds e s ps

tested-IsKnown :
    (event c e s : String) (hooks : Fields)
    → IsKnown (has hooks e s)
    → IsKnown (tested event c e s hooks)
tested-IsKnown event c e s hooks (inl y) = elim (Bool-cases (event == e)) [
  | inl t ↦ rw (t, y) (inl refl)
  | inr n ↦ rw n (inl y)
]
tested-IsKnown event c e s hooks (inr y) = elim (Bool-cases (event == e)) [
  | inl t ↦ elim (Bool-cases (has_part s c)) [
    | inl p ↦ rw (t, y, p) (inl refl)
    | inr n ↦ rw (t, y, n) (inr refl)
  ]
  | inr n ↦ rw n (inr y)
]

or_later-true : (r : Result Bool) → IsKnown r → or_later r (ok true) ≡ ok true
or_later-true r (inl y) = ap (λ x. or_later x (ok true)) y
or_later-true r (inr y) = ap (λ x. or_later x (ok true)) y

still_true :
    (event c e s : String) (hooks : Fields)
    → has hooks e s ≡ ok true
    → tested event c e s hooks ≡ ok true
still_true event c e s hooks y = elim (Bool-cases (event == e)) [
  | inl t ↦ rw (t, y) refl
  | inr n ↦ rw n y
]

now_true :
    (event c e s : String) (hooks : Fields)
    → IsKnown (has hooks e s)
    → ((event == e) ≡ true) × (has_part s c ≡ true)
    → tested event c e s hooks ≡ ok true
now_true event c e s hooks k (t, p) = rw (t, p) (or_later-true (has hooks e s) k)

pub add_entries-has :
    (ps : List (ManagedHook × String)) (hooks hooks' : Fields) (e s : String)
    → add_entries ps hooks ≡ ok hooks'
    → IsKnown (has hooks e s)
    → (has hooks e s ≡ ok true) ⊎ Adds e s ps
    → has hooks' e s ≡ ok true
unfolding add_entries
add_entries-has [] hooks hooks' e s a k (inl y) = ap (λ x. has x e s) (sym (ok_injective a)) ∙ y
add_entries-has [] hooks hooks' e s a k (inr n) = absurd n
add_entries-has ((h, c) ∷ ps) hooks hooks' e s a k w =
    let (mid, f, rest) = bind-ok (add_entry (h, c) hooks) (add_entries ps) hooks' a in
    let t = appended-tested h.event c e s h.matcher (get h.event hooks) hooks mid refl f in
    let known = subst IsKnown (sym t) (tested-IsKnown h.event c e s hooks k) in
    add_entries-has ps mid hooks' e s rest known (elim w [
      | inl y ↦ inl (t ∙ still_true h.event c e s hooks y)
      | inr (inl q) ↦ inl (t ∙ now_true h.event c e s hooks k q)
      | inr (inr q) ↦ inr q
    ])
