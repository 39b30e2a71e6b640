-- ===== src/Moves.antt =====
-- src/session_manager/wrapper/pty_wrapper.py: the child that is started for a transition, /back, and
-- the session commands that the user types.
pub mod Back
use mcp_session_router.Base.{
  ◌<>◌, String, Bool, true, false, not, ◌==◌, if◌then◌else◌, List, [], ◌∷◌, ◌++◌, contains, any,
}
use mcp_session_router.Base.{Option, none, some, Result, ok, err, ◌||◌}
use mcp_session_router.Base.Exec.{Exec, pure, ◌>>=◌, ◌>>◌}
use mcp_session_router.Base.Text.{strip, first_line}
use mcp_session_router.Json.{Json, str, bool, Fields, field, end}
use mcp_session_router.Session.{SessionMetadata, new_precedent, drop_precedents_for}
use mcp_session_router.Store.{TextFormat, Directory, list_sessions, mutate_session_by_name}
use mcp_session_router.Decisions.{append_label}
use mcp_session_router.StateFile.{
  Transition, save_last_transition, load_last_transition, clear_last_transition,
}
use mcp_session_router.ChildArgs.{first_args, respawn_args, parse_session_id_arg}
use mcp_session_router.Wrapper.{
  Wrapper, Action, Host, PendingRespawn, RespawnKind, plain, undo, rollover_request, rollover_swap,
  Phase, writing, HandoffRequest, Message, session_command, modify, send, push_active_conversation,
  forget_conversation, execute_transition, resolve_resume_conv, enqueue_active_summary,
}

-- The commands of wrapper/command_matcher.py, with the argument of /resume.
pub data SessionCommand : Type 0 where
  resume : String → SessionCommand
  exit rename new : SessionCommand

abbrev pub command_name : SessionCommand → String
command_name (resume arg) = "resume"
command_name exit = "exit"
command_name rename = "rename"
command_name new = "new"

abbrev pub command_args : SessionCommand → String
command_args (resume arg) = arg
command_args _ = ""

abbrev pub is_rename : SessionCommand → Bool
is_rename rename = true
is_rename _ = false

-- The gist of the precedent that /back records.
abbrev pub back_gist : String → String
back_gist user_prompt =
    let gist = first_line (strip user_prompt) in if gist == "" then "(재주입 프롬프트 없음)" else gist

module _ (F : TextFormat) (host : Host) where
  -- isinstance(name, str) and name
  abbrev pub non_empty : Option String → Option String
  non_empty none = none
  non_empty (some s) = if s == "" then none else some s

  abbrev pub remember : Option String → Option String → String → Wrapper F → Wrapper F
  remember (some from_session) (some to_session) user_prompt w =
      let t : Transition = record {
        from_session = from_session;
        to_session = to_session;
        user_prompt = user_prompt;
      } in
      record w {
        last_transition = some t;
        state_file = save_last_transition F host.state_writable host.now t w.state_file;
      }
  remember _ _ user_prompt w = w

  unfoldable pub record_last_transition : Option String → String → String → Wrapper F → Wrapper F
  record_last_transition from_name to_name user_prompt =
      remember (non_empty from_name) (non_empty (some to_name)) user_prompt

  -- The child's command line, and the conversation that is assigned to it.
  abbrev pub launch : List String × Option String → Wrapper F → Wrapper F
  launch (args, conv) w = record w { assigned_conv_id = conv; launched = w.launched ++ (args ∷ []) }

  -- _reset_child_detection_state, as far as it is modelled
  abbrev pub reset_child_detection_state : Wrapper F → Wrapper F
  reset_child_detection_state w =
      push_active_conversation F (record w { active_conv_from_hook = none })

  abbrev pub start_writing : Option HandoffRequest → Option HandoffRequest
  start_writing none = none
  start_writing (some r) = some (record r { phase = writing })

  abbrev pub check_entry : Option String → Wrapper F → Wrapper F
  check_entry none w = w
  check_entry (some conv_id) w = record w { entry_check_conv_id = some conv_id }

  -- What the start of the child means for the transition that it was started for.
  abbrev pub settle : PendingRespawn → RespawnKind → Wrapper F → Wrapper F
  settle p rollover_request w =
      let r = w.rollover in record w { rollover = record r { request = start_writing r.request } }
  settle p rollover_swap w = w
  settle p undo w = check_entry p.resume_conv (record w {
    last_transition = none;
    state_file = clear_last_transition F host.state_writable w.state_file;
  })
  settle p plain w =
      check_entry p.resume_conv (record_last_transition p.from_name p.target p.user_prompt w)

  -- The first child, and a respawn's.
  abbrev pub spawn_for : Option PendingRespawn → List String → Wrapper F → Wrapper F
  spawn_for none claude_args w = reset_child_detection_state (
      launch (first_args claude_args host.fresh_conv host.flags (parse_session_id_arg claude_args))
        w)
  spawn_for (some p) claude_args w =
      let w' = settle p p.kind (
        reset_child_detection_state
          (launch (respawn_args claude_args host.fresh_conv host.flags p.resume_conv) w)) in
      record w' { pending = none }

  -- `claude_args` are the user's own arguments.
  unfoldable pub spawn_child : List String → Wrapper F → Wrapper F
  spawn_child claude_args w = spawn_for w.pending claude_args w

  -- `screen_busy` is _screen_busy; the child is sent SIGTERM.
  abbrev pub terminate : Bool → Option PendingRespawn → Wrapper F → Wrapper F
  terminate screen_busy none w = w
  terminate screen_busy (some p) w =
      if p.terminated || screen_busy
      then w
      else record w { pending = some (record p { terminated = true }) }

  abbrev pub maybe_terminate_for_respawn : Bool → Wrapper F → Wrapper F
  maybe_terminate_for_respawn screen_busy w = terminate screen_busy w.pending w

  abbrev pub saved_sessions : Wrapper F → Result (Option SessionMetadata × Directory F) → Wrapper F
  saved_sessions w (err e) = w
  saved_sessions w (ok (s, dir)) = record w { sessions = dir }

  -- An exception is only logged.
  unfoldable pub record_back_precedent : Transition → Wrapper F → Wrapper F
  record_back_precedent t w =
      let precedent =
        new_precedent (back_gist t.user_prompt) t.from_session t.to_session host.now in
      saved_sessions w (
        mutate_session_by_name F t.from_session
          (λ s. record s { precedents = s.precedents ++ (precedent ∷ []) }) w.sessions)

  abbrev pub back_handoff : Transition → Fields
  back_handoff t = field "from" (str t.to_session) (
      field "back" (bool true)
        (field "message" (str ("/back — " <> t.to_session <> " 로의 직전 전환을 되돌려 복귀")) end))

  abbrev pub label_back : Transition → Wrapper F → Wrapper F
  label_back t w = record w {
    decisions =
        append_label host.log_writable t.to_session "reject" "back" (some t.from_session) host.now
          w.decisions;
  }

  abbrev pub undo_to : Transition → Option String → Action F (Unit {0})
  undo_to t none = pure tt
  undo_to t (some resume_conv) = do
    modify F (record_back_precedent t)
    modify F (label_back t)
    execute_transition F host t.from_session (some resume_conv) (back_handoff t) t.user_prompt undo
    modify F (send F (session_command "back" ""))

  abbrev pub back_to : Option Transition → Action F (Unit {0})
  back_to none w = (ok tt, w)
  back_to (some t) w = undo_to t (resolve_resume_conv F host t.from_session w) w

  -- `self._last_transition or load_last_transition(...)`
  abbrev pub transition_to_undo : Wrapper F → Option Transition
  transition_to_undo w = elim w.last_transition [
    | none ↦ load_last_transition F w.state_file
    | some t ↦ some t
  ]

  abbrev pub back_unless : Option PendingRespawn → Action F (Unit {0})
  back_unless none w = back_to (transition_to_undo w) w
  back_unless (some p) w = (ok tt, w)

  unfoldable pub handle_back_command : Action F (Unit {0})
  handle_back_command w = back_unless w.pending w

  -- The first session of that name or with that conversation.
  abbrev pub session_named : String → List SessionMetadata → Option String
  session_named arg [] = none
  session_named arg (s ∷ ss) =
      if arg == s.name || contains s.claude_conversation_ids arg
      then some s.name
      else session_named arg ss

  abbrev pub drop_for : String → Option String → Wrapper F → Wrapper F
  drop_for kept_in none w = w
  drop_for kept_in (some target) w =
      if target == kept_in
      then w
      else saved_sessions w
          (mutate_session_by_name F kept_in (λ s. drop_precedents_for target s) w.sessions)

  abbrev pub moved_to : String → Result (List SessionMetadata) → Option String
  moved_to arg (err e) = none
  moved_to arg (ok ss) = session_named (strip arg) ss

  abbrev pub drop_on_move : Option String → String → Wrapper F → Wrapper F
  drop_on_move none arg w = w
  drop_on_move (some kept_in) arg w = drop_for kept_in (moved_to arg (list_sessions F w.sessions)) w

  unfoldable pub drop_precedents_on_manual_move : String → Wrapper F → Wrapper F
  drop_precedents_on_manual_move arg w = drop_on_move w.current_session_name arg w

  abbrev pub drop_if_resumed : SessionCommand → Wrapper F → Wrapper F
  drop_if_resumed (resume arg) w = if arg == "" then w else drop_precedents_on_manual_move arg w
  drop_if_resumed _ w = w

  unfoldable pub observe_session_command : SessionCommand → Action F (Unit {0})
  observe_session_command command = do
    modify F (λ w. if is_rename command then w else forget_conversation F w)
    enqueue_active_summary F host
    modify F (drop_if_resumed command)
    modify F (send F (session_command (command_name command) (command_args command)))
