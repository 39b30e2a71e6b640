-- ===== src/Registration/Settled.antt =====
-- What a registration leaves for the next one.
use mcp_session_router.Base.{
  String, ◌==◌, ◌≡◌, refl, sym, ap, ◌∙◌, ◌⊎◌, inl, inr, Bool-cases, if◌then◌else◌,
}
use mcp_session_router.Base.{Option, none, some, Result, ok, err, Bool, true, false, List, [], ◌∷◌}
use mcp_session_router.Base.Text.{has_part}
use mathlib.Core.Path.{subst}
use mcp_session_router.Json.{obj, Fields, get}
use mcp_session_router.Store.{TextFormat}
use mcp_session_router.Registration.{
  ManagedHook, managed_hooks, missing_hooks, find_commands, register_hooks, already_registered,
  registered, consents, Project, as_settings, decided, unless_declined, load_settings, was_declined,
  written, answered, with_commands, with_missing, with_settings, ensure_hook_registered,
}
use mcp_session_router.Registration.Entries.{get-put}
use mcp_session_router.Registration.Registers.{
  register_hooks-ok, missing_hooks-IsTested, missing_hooks-none, find_commands-Adds, All-IsThere,
}

module _ (F : TextFormat) where
  module _ (which : String → Option String) (answer : Option String) where
    -- What was found where the settings were written.
    abbrev Wrote : Project F → Project F → Type 0
    Wrote p p' =
        (settings : Fields) × (ms : List ManagedHook) × (ps : List (ManagedHook × String))
        × (after : Fields) × (load_settings F p.settings ≡ some settings)
        × (missing_hooks settings managed_hooks ≡ ok ms)
        × (find_commands which ms ≡ some ps)
        × (register_hooks settings ps ≡ ok after)
        × (p' ≡ record p { settings = some (F.dumps (obj after)) })

    written-Wrote :
        (p : Project F) (r : Result Fields)
        → (written F which answer p r).0 ≡ registered
        → (after : Fields) × (r ≡ ok after)
          × ((written F which answer p r).1 ≡ record p { settings = some (F.dumps (obj after)) })
    written-Wrote p (err e) h = absurd cc
    written-Wrote p (ok after) h = (after, refl, refl)

    decided-Wrote :
        (key : String) (p : Project F) (r : Result Fields) (b : Bool)
        → (decided F which answer key p r b).0 ≡ registered
        → (after : Fields) × (r ≡ ok after)
          × ((decided F which answer key p r b).1
              ≡ record p { settings = some (F.dumps (obj after)) })
    decided-Wrote key p r true h = written-Wrote p r h
    decided-Wrote key p r false h = absurd cc

    answered-Wrote :
        (key : String) (p : Project F) (o : Option String) (r : Result Fields)
        → (answered F which answer key p o r).0 ≡ registered
        → (after : Fields) × (r ≡ ok after)
          × ((answered F which answer key p o r).1
              ≡ record p { settings = some (F.dumps (obj after)) })
    answered-Wrote key p none r h = absurd cc
    answered-Wrote key p (some text) r h = decided-Wrote key p r (consents text) h

    abbrev WroteFor : Project F → Fields → List ManagedHook → Project F → Type 0
    WroteFor p settings ms p' =
        (ps : List (ManagedHook × String)) × (after : Fields) × (find_commands which ms ≡ some ps)
        × (register_hooks settings ps ≡ ok after)
        × (p' ≡ record p { settings = some (F.dumps (obj after)) })

    with_commands-Wrote :
        (p : Project F) (settings : Fields) (ms : List ManagedHook)
        (o : Option (List (ManagedHook × String)))
        → find_commands which ms ≡ o
        → (with_commands F which answer p settings o).0 ≡ registered
        → WroteFor p settings ms (with_commands F which answer p settings o).1
    with_commands-Wrote p settings ms none f h = absurd cc
    with_commands-Wrote p settings ms (some ps) f h =
        let (after, r, q) =
          answered-Wrote "hook_registration_declined" p answer (register_hooks settings ps) h in
        (ps, after, f, r, q)

    unless_declined-Wrote :
        (p : Project F) (settings : Fields) (ms : List ManagedHook) (b : Bool)
        → (unless_declined F which answer p settings ms b).0 ≡ registered
        → WroteFor p settings ms (unless_declined F which answer p settings ms b).1
    unless_declined-Wrote p settings ms true h = absurd cc
    unless_declined-Wrote p settings ms false h =
        with_commands-Wrote p settings ms (find_commands which ms) refl h

    with_missing-Wrote :
        (p : Project F) (settings : Fields) (r : Result (List ManagedHook))
        → (with_missing F which answer p settings r).0 ≡ registered
        → (ms : List ManagedHook) × (r ≡ ok ms)
          × WroteFor p settings ms (with_missing F which answer p settings r).1
    with_missing-Wrote p settings (err e) h = absurd cc
    with_missing-Wrote p settings (ok []) h = absurd cc
    with_missing-Wrote p settings (ok (m ∷ ms)) h = (
      m ∷ ms,
      refl,
      unless_declined-Wrote p settings (m ∷ ms)
          (was_declined F "hook_registration_declined" p.config) h,
    )

    with_settings-Wrote :
        (p : Project F) (o : Option Fields)
        → load_settings F p.settings ≡ o
        → (with_settings F which answer p o).0 ≡ registered
        → Wrote p (with_settings F which answer p o).1
    with_settings-Wrote p none l h = absurd cc
    with_settings-Wrote p (some settings) l h =
        let (ms, m, (ps, after, f, r, q)) =
          with_missing-Wrote p settings (missing_hooks settings managed_hooks) h in
        (settings, ms, ps, after, l, m, f, r, q)

  -- The next registration finds the hooks, whatever the commands are and the user answers; the keys
  -- of the settings but `hooks` are as they were.
  abbrev pub IsSettled :
      (String → Option String) → Option String → String → Project F → Project F → Type 0
  IsSettled which answer k p p' =
      (settings : Fields) × (after : Fields) × (load_settings F p.settings ≡ some settings)
      × (load_settings F p'.settings ≡ some after)
      × ((("hooks" == k) ≡ true) ⊎ (get k after ≡ get k settings))
      × (ensure_hook_registered F which answer p' ≡ (already_registered, p'))

  load_settings-dumps : (d : Fields) → load_settings F (some (F.dumps (obj d))) ≡ some d
  unfolding load_settings
  load_settings-dumps d = ap (as_settings F) (F.loads-dumps (obj d))

  settled :
      (which : String → Option String) (answer : Option String) (p : Project F) (after : Fields)
      → load_settings F p.settings ≡ some after
      → missing_hooks after managed_hooks ≡ ok []
      → ensure_hook_registered F which answer p ≡ (already_registered, p)
  unfolding ensure_hook_registered
  settled which answer p after l m =
      ap (with_settings F which answer p) l ∙ ap (with_missing F which answer p after) m

  register_hooks-get :
      (settings after : Fields) (ps : List (ManagedHook × String)) (k : String)
      → register_hooks settings ps ≡ ok after
      → (("hooks" == k) ≡ true) ⊎ (get k after ≡ get k settings)
  unfolding register_hooks
  register_hooks-get settings after ps k r =
      let (hooks, hooks', f, g, e) = register_hooks-ok settings after ps r in
      elim (Bool-cases ("hooks" == k)) [
        | inl y ↦ inl y
        | inr n ↦ inr (
            ap (get k) (sym e)
            ∙ get-put "hooks" k (obj hooks') settings
            ∙ ap (λ b. if b then some (obj hooks') else get k settings) n)
      ]

  -- If every command that is found contains its script's name, a registration of the hooks that
  -- succeeds leaves settings in which all keys but `hooks` are as they were and the next
  -- registration finds every hook, whatever is found and answered then.
  pub ensure_hook_registered-IsSettled :
      (which which' : String → Option String) (answer answer' : Option String) (k : String)
      (p : Project F)
      → ((s c : String) → which s ≡ some c → has_part s c ≡ true)
      → (ensure_hook_registered F which answer p).0 ≡ registered
      → IsSettled which' answer' k p (ensure_hook_registered F which answer p).1
  unfolding ensure_hook_registered
  ensure_hook_registered-IsSettled which which' answer answer' k p named h =
      let (settings, ms, ps, after, l, m, f, r, q) =
        with_settings-Wrote which answer p (load_settings F p.settings) refl h in
      let there =
        All-IsThere settings after ms managed_hooks ps r
          (λ j. find_commands-Adds which named ms ps j f)
          (missing_hooks-IsTested settings managed_hooks ms m) in
      subst (IsSettled which' answer' k p) (sym q) (
        settings,
        after,
        l,
        load_settings-dumps after,
        register_hooks-get settings after ps k r,
        settled which' answer' (record p { settings = some (F.dumps (obj after)) }) after
            (load_settings-dumps after) (missing_hooks-none after managed_hooks there),
      )
