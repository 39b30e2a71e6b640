-- ===== src/Registration.antt =====
-- src/session_manager/hooks/registration.py: the hooks and the status line that ccode writes into
-- a project's settings. A file is its text, or missing; failed writes are left out, and so are the
-- notices to the user and the debug log.
pub mod Entries
pub mod Registers
pub mod Settled
pub mod Keeps
use mcp_session_router.Base.{
  String, Bool, true, false, ◌==◌, ◌&&◌, if◌then◌else◌, List, [], ◌∷◌, any,
}
use mcp_session_router.Base.{Option, none, some, Result, ok, err, bad_type, ◌>>=◌}
use mcp_session_router.Base.Text.{strip, has_part}
use mcp_session_router.Json.{
  Json, bool, str, arr, obj, Fields, Items, nil, cons, end, field, get, get_or, truthy,
}
use mcp_session_router.Store.{TextFormat}

pub record ManagedHook : Type 0 where
  pub event : String
  pub matcher : Option String
  pub script_name : String

-- MANAGED_HOOKS
abbrev pub managed_hooks : List ManagedHook
managed_hooks =
    record {
      event = "UserPromptSubmit";
      matcher = none;
      script_name = "ccode-hook-user-prompt-submit";
    }
    ∷ record {
      event = "PreToolUse";
      matcher = some "Read|Bash";
      script_name = "ccode-hook-pre-tool-use";
    }
    ∷ record { event = "PreCompact"; matcher = none; script_name = "ccode-hook-pre-compact" }
    ∷ record { event = "Stop"; matcher = none; script_name = "ccode-hook-stop" }
    ∷ []

-- d[key] = value
abbrev pub put : String → Json → Fields → Fields
put k v end = field k v end
put k v (field j w d) = let rest = put k v d in if j == k then field j v d else field j w rest

abbrev pub append_item : Items → Json → Items
append_item nil v = cons v nil
append_item (cons w ws) v = cons w (append_item ws v)

-- isinstance(command, str) and script_name in command
abbrev pub names_script : String → Option Json → Bool
names_script script (some (str command)) = has_part script command
names_script script _ = false

abbrev pub is_script_hook : String → Json → Bool
is_script_hook script (obj hook) = names_script script (get "command" hook)
is_script_hook script _ = false

abbrev pub any_hook : String → Items → Bool
any_hook script nil = false
any_hook script (cons hook hooks) =
    let rest = any_hook script hooks in if is_script_hook script hook then true else rest

-- The values that `for hook in value or []` goes through; a text's and a dict's are texts.
abbrev pub looped : Json → Result Items
looped (arr vs) = ok vs
looped (str s) = ok nil
looped (obj d) = ok nil
looped v = if truthy v then err bad_type else ok nil

abbrev pub entry_has : String → Json → Result Bool
entry_has script (obj entry) = do
  hooks ← looped (get_or "hooks" (arr nil) entry)
  ok (any_hook script hooks)
entry_has script _ = ok false

-- The loop returns at the first entry that has the script.
abbrev pub or_later : Result Bool → Result Bool → Result Bool
or_later (ok true) later = ok true
or_later (ok false) later = later
or_later (err e) later = err e

abbrev pub entries_have : String → Items → Result Bool
entries_have script nil = ok false
entries_have script (cons entry entries) =
    or_later (entry_has script entry) (entries_have script entries)

abbrev pub of_entries : String → Option Json → Result Bool
of_entries script (some (arr entries)) = entries_have script entries
of_entries script _ = ok false

abbrev pub of_hooks : String → String → Option Json → Result Bool
of_hooks event script (some (obj hooks)) = of_entries script (get event hooks)
of_hooks event script _ = ok false

abbrev pub event_has_script : Fields → String → String → Result Bool
event_has_script settings event script = of_hooks event script (get "hooks" settings)

abbrev pub keep_missing : ManagedHook → Bool → List ManagedHook → List ManagedHook
keep_missing h true rest = rest
keep_missing h false rest = h ∷ rest

-- The comprehension over the managed hooks
unfoldable pub missing_hooks : Fields → List ManagedHook → Result (List ManagedHook)
missing_hooks settings [] = ok []
missing_hooks settings (h ∷ hs) = do
  has ← event_has_script settings h.event h.script_name
  rest ← missing_hooks settings hs
  ok (keep_missing h has rest)

-- commands[script_name] of each missing hook, if shutil.which finds them all.
abbrev pub found_command :
    ManagedHook
    → Option String
    → Option (List (ManagedHook × String))
    → Option (List (ManagedHook × String))
found_command h (some command) (some rest) = some ((h, command) ∷ rest)
found_command h _ _ = none

abbrev pub find_commands :
    (String → Option String) → List ManagedHook → Option (List (ManagedHook × String))
find_commands which [] = some []
find_commands which (h ∷ hs) = found_command h (which h.script_name) (find_commands which hs)

abbrev pub command_hook : String → Json
command_hook command = obj (field "type" (str "command") (field "command" (str command) end))

abbrev pub entry_of : Option String → String → Json
entry_of none command = obj (field "hooks" (arr (cons (command_hook command) nil)) end)
entry_of (some matcher) command =
    obj (field "matcher" (str matcher) (field "hooks" (arr (cons (command_hook command) nil)) end))

-- hooks.setdefault(event, []).append(entry)
abbrev pub appended : String → Json → Option Json → Fields → Result Fields
appended event entry none hooks = ok (put event (arr (cons entry nil)) hooks)
appended event entry (some (arr entries)) hooks =
    ok (put event (arr (append_item entries entry)) hooks)
appended event entry (some v) hooks = err bad_type

abbrev pub add_entry : ManagedHook × String → Fields → Result Fields
add_entry (h, command) hooks =
    appended h.event (entry_of h.matcher command) (get h.event hooks) hooks

-- The loop of _register
unfoldable pub add_entries : List (ManagedHook × String) → Fields → Result Fields
add_entries [] hooks = ok hooks
add_entries (p ∷ ps) hooks = do hooks' ← add_entry p hooks; add_entries ps hooks'

-- settings.setdefault("hooks", {})
abbrev pub default_hooks : Option Json → Result Fields
default_hooks none = ok end
default_hooks (some (obj hooks)) = ok hooks
default_hooks (some v) = err bad_type

unfoldable pub register_hooks : Fields → List (ManagedHook × String) → Result Fields
register_hooks settings missing = do
  hooks ← default_hooks (get "hooks" settings)
  hooks' ← add_entries missing hooks
  ok (put "hooks" (obj hooks') settings)

pub data Status : Type 0 where
  broken_settings already_registered declined_previously script_not_found : Status
  non_interactive declined registered foreign_statusline failed : Status

-- "y" and "yes" in any case
abbrev yes_answers : List String
yes_answers = "y" ∷ "Y" ∷ "yes" ∷ "yeS" ∷ "yEs" ∷ "yES" ∷ "Yes" ∷ "YeS" ∷ "YEs" ∷ "YES" ∷ []

abbrev pub consents : String → Bool
consents answer = any (λ yes. strip answer == yes) yes_answers

abbrev pub is_true : Option Json → Bool
is_true (some (bool b)) = b
is_true _ = false

module _ (F : TextFormat) where
  -- settings.json and config.json
  pub record Project : Type 0 where
    pub settings : Option F.Text
    pub config : Option F.Text

  abbrev pub as_settings : Option Json → Option Fields
  as_settings (some (obj d)) = some d
  as_settings _ = none

  unfoldable pub load_settings : Option F.Text → Option Fields
  load_settings none = some end
  load_settings (some text) = as_settings (F.loads text)

  abbrev pub has_declined : String → Option Json → Bool
  has_declined key (some (obj d)) = is_true (get key d)
  has_declined key _ = false

  unfoldable pub was_declined : String → Option F.Text → Bool
  was_declined key none = false
  was_declined key (some text) = has_declined key (F.loads text)

  abbrev pub declined_config : String → F.Text → Option Json → F.Text
  declined_config key text (some (obj d)) = F.dumps (obj (put key (bool true) d))
  declined_config key text _ = text

  unfoldable pub record_declined : String → Option F.Text → Option F.Text
  record_declined key none = some (F.dumps (obj (put key (bool true) end)))
  record_declined key (some text) = some (declined_config key text (F.loads text))

  -- shutil.which, and what the user answers, if there is a terminal to ask at.
  module _ (which : String → Option String) (answer : Option String) where
    abbrev pub written : Project → Result Fields → Status × Project
    written p (err e) = (failed, p)
    written p (ok settings) = (registered, record p { settings = some (F.dumps (obj settings)) })

    abbrev pub decided : String → Project → Result Fields → Bool → Status × Project
    decided key p settings true = written p settings
    decided key p settings false = (declined, record p { config = record_declined key p.config })

    abbrev pub answered : String → Project → Option String → Result Fields → Status × Project
    answered key p none settings = (non_interactive, p)
    answered key p (some text) settings = decided key p settings (consents text)

    abbrev pub with_commands :
        Project → Fields → Option (List (ManagedHook × String)) → Status × Project
    with_commands p settings none = (script_not_found, p)
    with_commands p settings (some missing) =
        answered "hook_registration_declined" p answer (register_hooks settings missing)

    abbrev pub unless_declined : Project → Fields → List ManagedHook → Bool → Status × Project
    unless_declined p settings missing true = (declined_previously, p)
    unless_declined p settings missing false =
        with_commands p settings (find_commands which missing)

    abbrev pub with_missing : Project → Fields → Result (List ManagedHook) → Status × Project
    with_missing p settings (err e) = (failed, p)
    with_missing p settings (ok []) = (already_registered, p)
    with_missing p settings (ok (h ∷ hs)) =
        unless_declined p settings (h ∷ hs) (was_declined "hook_registration_declined" p.config)

    abbrev pub with_settings : Project → Option Fields → Status × Project
    with_settings p none = (broken_settings, p)
    with_settings p (some settings) = with_missing p settings (missing_hooks settings managed_hooks)

    unfoldable pub ensure_hook_registered : Project → Status × Project
    ensure_hook_registered p = with_settings p (load_settings p.settings)

    abbrev pub statusline_with : Project → Fields → Option String → Status × Project
    statusline_with p settings none = (script_not_found, p)
    statusline_with p settings (some command) =
        answered "statusline_registration_declined" p answer
          (ok (put "statusLine" (command_hook command) settings))

    abbrev pub statusline_asked : Project → Fields → Bool → Status × Project
    statusline_asked p settings true = (declined_previously, p)
    statusline_asked p settings false = statusline_with p settings (which "ccode-statusline")

    abbrev pub statusline_for : Project → Fields → Option Json → Status × Project
    statusline_for p settings (some (obj existing)) =
        if names_script "ccode-statusline" (get "command" existing)
        then (already_registered, p)
        else (foreign_statusline, p)
    statusline_for p settings _ =
        statusline_asked p settings (was_declined "statusline_registration_declined" p.config)

    abbrev pub statusline_of : Project → Option Fields → Status × Project
    statusline_of p none = (broken_settings, p)
    statusline_of p (some settings) = statusline_for p settings (get "statusLine" settings)

    unfoldable pub ensure_statusline_registered : Project → Status × Project
    ensure_statusline_registered p = statusline_of p (load_settings p.settings)
