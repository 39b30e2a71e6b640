-- ===== src/Registration/Keeps.antt =====
-- Which files a registration changes.
use mcp_session_router.Base.{
  String, ◌≡◌, refl, ◌⊎◌, inl, inr, Bool-cases, Bool, true, false, List, [], ◌∷◌,
}
use mcp_session_router.Base.{Option, none, some, Result, ok, err}
use mcp_session_router.Json.{Json, null, bool, int, float, str, arr, obj, Fields, get}
use mcp_session_router.Store.{TextFormat}
use mcp_session_router.Registration.{
  ManagedHook, managed_hooks, put, command_hook, names_script, missing_hooks, find_commands,
  register_hooks, Status, registered, declined, consents, Project, load_settings, was_declined,
  written, decided, answered, with_commands, unless_declined, with_missing, with_settings,
  ensure_hook_registered, statusline_with, statusline_asked, statusline_for, statusline_of,
  ensure_statusline_registered,
}

module _ (F : TextFormat) where
  -- The settings change by a registration alone, and the configuration by a refusal alone.
  abbrev pub Keeps : Project F → Status × Project F → Type 0
  Keeps p (st, p') =
      ((st ≡ registered) ⊎ (p'.settings ≡ p.settings)) × ((st ≡ declined) ⊎ (p'.config ≡ p.config))

  module _ (which : String → Option String) (answer : Option String) where
    written-Keeps : (p : Project F) (r : Result Fields) → Keeps p (written F which answer p r)
    written-Keeps p (err e) = (inr refl, inr refl)
    written-Keeps p (ok after) = (inl refl, inr refl)

    decided-Keeps :
        (key : String) (p : Project F) (r : Result Fields) (b : Bool)
        → Keeps p (decided F which answer key p r b)
    decided-Keeps key p r true = written-Keeps p r
    decided-Keeps key p r false = (inr refl, inl refl)

    answered-Keeps :
        (key : String) (p : Project F) (o : Option String) (r : Result Fields)
        → Keeps p (answered F which answer key p o r)
    answered-Keeps key p none r = (inr refl, inr refl)
    answered-Keeps key p (some text) r = decided-Keeps key p r (consents text)

    with_commands-Keeps :
        (p : Project F) (settings : Fields) (o : Option (List (ManagedHook × String)))
        → Keeps p (with_commands F which answer p settings o)
    with_commands-Keeps p settings none = (inr refl, inr refl)
    with_commands-Keeps p settings (some ps) =
        answered-Keeps "hook_registration_declined" p answer (register_hooks settings ps)

    unless_declined-Keeps :
        (p : Project F) (settings : Fields) (ms : List ManagedHook) (b : Bool)
        → Keeps p (unless_declined F which answer p settings ms b)
    unless_declined-Keeps p settings ms true = (inr refl, inr refl)
    unless_declined-Keeps p settings ms false =
        with_commands-Keeps p settings (find_commands which ms)

    with_missing-Keeps :
        (p : Project F) (settings : Fields) (r : Result (List ManagedHook))
        → Keeps p (with_missing F which answer p settings r)
    with_missing-Keeps p settings (err e) = (inr refl, inr refl)
    with_missing-Keeps p settings (ok []) = (inr refl, inr refl)
    with_missing-Keeps p settings (ok (m ∷ ms)) =
        unless_declined-Keeps p settings (m ∷ ms)
          (was_declined F "hook_registration_declined" p.config)

    with_settings-Keeps :
        (p : Project F) (o : Option Fields) → Keeps p (with_settings F which answer p o)
    with_settings-Keeps p none = (inr refl, inr refl)
    with_settings-Keeps p (some settings) =
        with_missing-Keeps p settings (missing_hooks settings managed_hooks)

    statusline_with-Keeps :
        (p : Project F) (settings : Fields) (o : Option String)
        → Keeps p (statusline_with F which answer p settings o)
    statusline_with-Keeps p settings none = (inr refl, inr refl)
    statusline_with-Keeps p settings (some command) =
        answered-Keeps "statusline_registration_declined" p answer
          (ok (put "statusLine" (command_hook command) settings))

    statusline_asked-Keeps :
        (p : Project F) (settings : Fields) (b : Bool)
        → Keeps p (statusline_asked F which answer p settings b)
    statusline_asked-Keeps p settings true = (inr refl, inr refl)
    statusline_asked-Keeps p settings false =
        statusline_with-Keeps p settings (which "ccode-statusline")

    statusline_for-Keeps :
        (p : Project F) (settings : Fields) (o : Option Json)
        → Keeps p (statusline_for F which answer p settings o)
    statusline_for-Keeps p settings (some (obj d)) =
        elim (Bool-cases (names_script "ccode-statusline" (get "command" d))) [
          | inl y ↦ rw y (inr refl, inr refl)
          | inr n ↦ rw n (inr refl, inr refl)
        ]
    statusline_for-Keeps p settings none = statusline_asked-Keeps p settings _
    statusline_for-Keeps p settings (some null) = statusline_asked-Keeps p settings _
    statusline_for-Keeps p settings (some (bool b)) = statusline_asked-Keeps p settings _
    statusline_for-Keeps p settings (some (int n)) = statusline_asked-Keeps p settings _
    statusline_for-Keeps p settings (some (float n k)) = statusline_asked-Keeps p settings _
    statusline_for-Keeps p settings (some (str t)) = statusline_asked-Keeps p settings _
    statusline_for-Keeps p settings (some (arr vs)) = statusline_asked-Keeps p settings _

    statusline_of-Keeps :
        (p : Project F) (o : Option Fields) → Keeps p (statusline_of F which answer p o)
    statusline_of-Keeps p none = (inr refl, inr refl)
    statusline_of-Keeps p (some settings) =
        statusline_for-Keeps p settings (get "statusLine" settings)

    -- The registrations of the hooks and of the status line change the settings only if they
    -- answer `registered`, and the configuration only if they answer `declined`.
    pub registrations-Keeps :
        (p : Project F)
        → Keeps p (ensure_hook_registered F which answer p)
          × Keeps p (ensure_statusline_registered F which answer p)
    unfolding ensure_hook_registered ensure_statusline_registered
    registrations-Keeps p = (
      with_settings-Keeps p (load_settings F p.settings),
      statusline_of-Keeps p (load_settings F p.settings),
    )
