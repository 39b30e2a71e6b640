-- ===== src/Registration/Registers.antt =====
-- Which hooks are there after the missing ones were added.
use mcp_session_router.Base.{bind-ok, ok_injective}
use mcp_session_router.Base.{
  String, ◌==◌, eq_refl, ◌≡◌, refl, sym, ap, ◌∙◌, ◌⊎◌, inl, inr, ◌>>=◌, All,
}
use mcp_session_router.Base.{Option, none, some, ok, Bool, true, false, List, [], ◌∷◌}
use mcp_session_router.Base.Text.{has_part}
use mathlib.Core.Path.{subst}
use mcp_session_router.Json.{Json, null, bool, int, float, str, arr, obj, Fields, get}
use mcp_session_router.Registration.{
  ManagedHook, put, of_hooks, event_has_script, keep_missing, missing_hooks, found_command,
  find_commands, default_hooks, add_entries, register_hooks,
}
use mcp_session_router.Registration.Entries.{get-put, IsKnown, has, Adds, add_entries-has}

some_same {ℓ} : {A : Type ℓ} {a b : A} → some a ≡ some b → a ≡ b
some_same h = cc

abbrev pub OneOf : ManagedHook → List ManagedHook → Type 0
OneOf h [] = ⊥
OneOf h (k ∷ ks) = (k ≡ h) ⊎ OneOf h ks

-- A hook was tested, and is there or missing.
abbrev pub IsTested : Fields → List ManagedHook → ManagedHook → Type 0
IsTested settings ms h =
    IsKnown (event_has_script settings h.event h.script_name)
    × ((event_has_script settings h.event h.script_name ≡ ok true) ⊎ OneOf h ms)

kept-OneOf :
    (k h : ManagedHook) (b : Bool) (ms : List ManagedHook)
    → OneOf h ms
    → OneOf h (keep_missing k b ms)
kept-OneOf k h true ms o = o
kept-OneOf k h false ms o = inr o

kept-IsTested :
    (settings : Fields) (k : ManagedHook) (b : Bool) (ms hs : List ManagedHook)
    → All (IsTested settings ms) hs
    → All (IsTested settings (keep_missing k b ms)) hs
kept-IsTested settings k b ms [] a = tt
kept-IsTested settings k b ms (h ∷ hs) ((known, w), a) = (
  (known, elim w [ inl y ↦ inl y | inr o ↦ inr (kept-OneOf k h b ms o) ]),
  kept-IsTested settings k b ms hs a,
)

first-IsTested :
    (settings : Fields) (h : ManagedHook) (b : Bool) (ms : List ManagedHook)
    → event_has_script settings h.event h.script_name ≡ ok b
    → IsTested settings (keep_missing h b ms) h
first-IsTested settings h true ms e = (inl e, inl e)
first-IsTested settings h false ms e = (inr e, inr (inl refl))

pub missing_hooks-IsTested :
    (settings : Fields) (hs ms : List ManagedHook)
    → missing_hooks settings hs ≡ ok ms
    → All (IsTested settings ms) hs
unfolding missing_hooks
missing_hooks-IsTested settings [] ms a = tt
missing_hooks-IsTested settings (h ∷ hs) ms a =
    let (b, f, a') =
      bind-ok (event_has_script settings h.event h.script_name)
        (λ b. missing_hooks settings hs >>= λ ks. ok (keep_missing h b ks)) ms a in
    let (ks, g, kept) =
      bind-ok (missing_hooks settings hs) (λ ks. ok (keep_missing h b ks)) ms a' in
    subst (λ m. All (IsTested settings m) (h ∷ hs)) (ok_injective kept)
      (
        first-IsTested settings h b ks f,
        kept-IsTested settings h b ks hs (missing_hooks-IsTested settings hs ks g),
      )

abbrev pub IsThere : Fields → ManagedHook → Type 0
IsThere settings h = event_has_script settings h.event h.script_name ≡ ok true

pub missing_hooks-none :
    (settings : Fields) (hs : List ManagedHook)
    → All (IsThere settings) hs
    → missing_hooks settings hs ≡ ok []
unfolding missing_hooks
missing_hooks-none settings [] a = refl
missing_hooks-none settings (h ∷ hs) (y, a) = rw (y, missing_hooks-none settings hs a) refl

module _ (which : String → Option String)
    (named : (s c : String) → which s ≡ some c → has_part s c ≡ true) where
  found_command-Adds :
      (k h : ManagedHook) (ks : List ManagedHook) (ps : List (ManagedHook × String))
      (c : Option String) (rest : Option (List (ManagedHook × String)))
      → which k.script_name ≡ c
      → ((qs : List (ManagedHook × String))
          → rest ≡ some qs
          → OneOf h ks
          → Adds h.event h.script_name qs)
      → found_command k c rest ≡ some ps
      → OneOf h (k ∷ ks)
      → Adds h.event h.script_name ps
  found_command-Adds k h ks ps none none w later g o = absurd cc
  found_command-Adds k h ks ps none (some rest) w later g o = absurd cc
  found_command-Adds k h ks ps (some c) none w later g o = absurd cc
  found_command-Adds k h ks ps (some c) (some rest) w later g (inl e) =
      subst (Adds h.event h.script_name) (some_same g) (
        inl (
          sym (ap (λ x. k.event == x.event) e) ∙ eq_refl k.event,
          sym (ap (λ x. has_part x.script_name c) e) ∙ named k.script_name c w,
        ))
  found_command-Adds k h ks ps (some c) (some rest) w later g (inr o) =
      subst (Adds h.event h.script_name) (some_same g) (inr (later rest refl o))

  pub find_commands-Adds :
      (ms : List ManagedHook) (ps : List (ManagedHook × String)) (h : ManagedHook)
      → find_commands which ms ≡ some ps
      → OneOf h ms
      → Adds h.event h.script_name ps
  find_commands-Adds [] ps h f o = absurd o
  find_commands-Adds (k ∷ ks) ps h f o =
      found_command-Adds k h ks ps (which k.script_name) (find_commands which ks) refl
        (λ qs. find_commands-Adds ks qs h) f o

default_hooks-has :
    (o : Option Json) (settings hooks : Fields) (e s : String)
    → get "hooks" settings ≡ o
    → default_hooks o ≡ ok hooks
    → event_has_script settings e s ≡ has hooks e s
default_hooks-has none settings hooks e s g h =
    ap (of_hooks e s) g ∙ ap (λ x. has x e s) (ok_injective h)
default_hooks-has (some (obj d)) settings hooks e s g h =
    ap (of_hooks e s) g ∙ ap (λ x. has x e s) (ok_injective h)
default_hooks-has (some null) settings hooks e s g h = absurd cc
default_hooks-has (some (bool b)) settings hooks e s g h = absurd cc
default_hooks-has (some (int n)) settings hooks e s g h = absurd cc
default_hooks-has (some (float n k)) settings hooks e s g h = absurd cc
default_hooks-has (some (str t)) settings hooks e s g h = absurd cc
default_hooks-has (some (arr vs)) settings hooks e s g h = absurd cc

put_hooks :
    (settings hooks : Fields) (e s : String)
    → event_has_script (put "hooks" (obj hooks) settings) e s ≡ has hooks e s
put_hooks settings hooks e s = ap (of_hooks e s) (get-put "hooks" "hooks" (obj hooks) settings)

-- What a registration that did not raise went through.
pub register_hooks-ok :
    (settings after : Fields) (ps : List (ManagedHook × String))
    → register_hooks settings ps ≡ ok after
    → (hooks : Fields) × (hooks' : Fields) × (default_hooks (get "hooks" settings) ≡ ok hooks)
      × (add_entries ps hooks ≡ ok hooks')
      × (put "hooks" (obj hooks') settings ≡ after)
unfolding register_hooks
register_hooks-ok settings after ps r =
    let (hooks, f, r') =
      bind-ok (default_hooks (get "hooks" settings))
        (λ k. add_entries ps k >>= λ j. ok (put "hooks" (obj j) settings)) after r in
    let (hooks', g, e) =
      bind-ok (add_entries ps hooks) (λ j. ok (put "hooks" (obj j) settings)) after r' in
    (hooks, hooks', f, g, ok_injective e)

register_hooks-IsThere :
    (settings after : Fields) (ms : List ManagedHook) (ps : List (ManagedHook × String))
    (h : ManagedHook)
    → register_hooks settings ps ≡ ok after
    → IsTested settings ms h
    → (OneOf h ms → Adds h.event h.script_name ps)
    → IsThere after h
unfolding register_hooks
register_hooks-IsThere settings after ms ps h r (known, w) adds =
    let (hooks, hooks', f, g, e) = register_hooks-ok settings after ps r in
    let same =
      default_hooks-has (get "hooks" settings) settings hooks h.event h.script_name refl f in
    subst (λ x. IsThere x h) e
      (put_hooks settings hooks' h.event h.script_name
        ∙ add_entries-has ps hooks hooks' h.event h.script_name g (subst IsKnown same known)
            (elim w [ inl y ↦ inl (sym same ∙ y) | inr o ↦ inr (adds o) ]))

pub All-IsThere :
    (settings after : Fields) (ms hs : List ManagedHook) (ps : List (ManagedHook × String))
    → register_hooks settings ps ≡ ok after
    → ((h : ManagedHook) → OneOf h ms → Adds h.event h.script_name ps)
    → All (IsTested settings ms) hs
    → All (IsThere after) hs
All-IsThere settings after ms [] ps r adds a = tt
All-IsThere settings after ms (h ∷ hs) ps r adds (t, a) = (
  register_hooks-IsThere settings after ms ps h r t (adds h),
  All-IsThere settings after ms hs ps r adds a,
)
