-- ===== src/StateFile.antt =====
-- src/session_manager/wrapper/wrapper_state.py: state.json, which keeps the last transition and the
-- current session for a later wrapper. `writable` tells whether a save succeeds; one that does not
-- is logged and dropped.
pub mod Keys
use mcp_session_router.Base.{String, Bool, true, false, ◌==◌, ◌||◌, ◌&&◌, not, if◌then◌else◌}
use mcp_session_router.Base.{Option, none, some, List, [], ◌∷◌}
use mcp_session_router.Base.Dict.{Dict, lookup, insert, erase}
use mcp_session_router.Json.{Json, str, obj, Fields, fields, entries, get}
use mcp_session_router.Store.{TextFormat}

abbrev pub last_transition_key : String
last_transition_key = "last_transition"

abbrev pub current_session_key : String
current_session_key = "current_session"

-- The last transition: what the wrapper reads of its dict. A prompt that is no text is read as "".
pub record Transition : Type 0 where
  pub from_session : String
  pub to_session : String
  pub user_prompt : String

abbrev pub transition_fields : Transition → String → Fields
transition_fields t now = fields (
    ("from", str t.from_session)
    ∷ ("to", str t.to_session)
    ∷ ("user_prompt", str t.user_prompt)
    ∷ ("at", str now)
    ∷ [])

-- isinstance(v, str) and v
abbrev pub text_given : Option Json → Option String
text_given (some (str s)) = if s == "" then none else some s
text_given _ = none

abbrev text_or_empty : Option Json → String
text_or_empty (some (str s)) = s
text_or_empty _ = ""

abbrev with_names : Option String → Option String → Fields → Option Transition
with_names (some from_session) (some to_session) d = some (record {
  from_session = from_session;
  to_session = to_session;
  user_prompt = text_or_empty (get "user_prompt" d);
})
with_names _ _ d = none

-- Both names must be non-empty texts.
abbrev pub read_transition : Option Json → Option Transition
read_transition (some (obj d)) = with_names (text_given (get "from" d)) (text_given (get "to" d)) d
read_transition _ = none

module _ (F : TextFormat) where
  abbrev pub StateFile : Type 0
  StateFile = Option F.Text

  abbrev dict_or_empty : Option Json → Dict Json
  dict_or_empty (some (obj d)) = entries d
  dict_or_empty _ = []

  -- _load_state: a missing or corrupt file is an empty state.
  unfoldable pub load_state : StateFile → Dict Json
  load_state none = []
  load_state (some text) = dict_or_empty (F.loads text)

  unfoldable pub save_state : Bool → Dict Json → StateFile → StateFile
  save_state writable state file = if writable then some (F.dumps (obj (fields state))) else file

  unfoldable pub save_last_transition : Bool → String → Transition → StateFile → StateFile
  save_last_transition writable now t file =
      save_state writable
        (insert last_transition_key (obj (transition_fields t now)) (load_state file)) file

  unfoldable pub load_last_transition : StateFile → Option Transition
  load_last_transition file = read_transition (lookup last_transition_key (load_state file))

  unfoldable pub clear_last_transition : Bool → StateFile → StateFile
  clear_last_transition writable file = elim (lookup last_transition_key (load_state file)) [
    | none ↦ file
    | some v ↦ save_state writable (erase last_transition_key (load_state file)) file
  ]

  -- `elif CURRENT_SESSION_KEY in state`
  abbrev forget_session : Bool → StateFile → StateFile
  forget_session writable file = elim (lookup current_session_key (load_state file)) [
    | none ↦ file
    | some v ↦ save_state writable (erase current_session_key (load_state file)) file
  ]

  unfoldable pub save_current_session : Bool → Option String → StateFile → StateFile
  save_current_session writable none file = forget_session writable file
  save_current_session writable (some name) file =
      if name == ""
      then forget_session writable file
      else save_state writable (insert current_session_key (str name) (load_state file)) file

  unfoldable pub load_current_session : StateFile → Option String
  load_current_session file = text_given (lookup current_session_key (load_state file))
