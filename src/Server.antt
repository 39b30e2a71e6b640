-- ===== src/Server.antt =====
-- src/session_manager/server.py: the tools that a model calls on sessions, and the wrapper's
-- messages.
pub mod Switch
pub mod Ending
pub mod Rejection
pub mod Creation
pub mod Registration
use mcp_session_router.Base.{
  ℕ, String, Bool, true, false, not, ◌==◌, if◌then◌else◌, keep_if, List, [], ◌∷◌, ◌++◌,
}
use mcp_session_router.Base.{Option, none, some, Result, ok, err, Error, not_connected}
use mcp_session_router.Base.Exec.{Exec, pure, raise, ◌>>=◌, ◌>>◌}
use mcp_session_router.Json.{Fields, end, field, bool, str}
use mcp_session_router.Session.{
  SessionMetadata, SessionStatus, active, archived, is_active, new_session, new_transition,
  new_precedent, touch, link_conversation, drop_precedents_for,
}
use mcp_session_router.Store.{
  TextFormat, Directory, save_session, list_sessions, mutate_session_by_name,
}
use mcp_session_router.State
use mcp_session_router.State.{ManagerState}
use mcp_session_router.Base.Times.{Time}
use mcp_session_router.Cleanup.{Settings, cleanup_by_settings}
use mcp_session_router.Decisions.{Line, append_label}
use mcp_session_router.Queue.{QueueDir, SummaryTask, kind_active, kind_rooting_check, enqueue}
use mcp_session_router.Context.{
  Handoff, Signal, current_session, back, switch, new, Env, link_known, retitle, renamed, is_known,
  first_known, leave_for, outgoing, end_now, hand_off, remember_rejection, task, App, Tool,
  get_current_session, send_signal, point_to, set_current_session, mutate_by_name, mutate_current,
}

-- The answers of reject_switch, with the session kept in and whether a refresh was queued.
pub data RejectResult : Type 0 where
  no_current_session : RejectResult
  session_not_found : RejectResult
  recorded : String → Bool → RejectResult

-- The answer of check_session, which shows six of the fields of each session.
pub record CheckedSessions : Type 0 where
  pub current : Option String
  pub conversation_id : Option String
  pub sessions : List SessionMetadata

-- The wrapper's messages: its conversation, and a command that makes the pointer stale.
pub data WrapperMessage : Type 0 where
  active_conversation : Option String → WrapperMessage
  session_command : WrapperMessage
  other : WrapperMessage

module _ (F : TextFormat) where
  module _ (env : Env) where
    -- _active_conversation_id
    abbrev pub active_conversation_id : Tool F (Option String)
    active_conversation_id app = (ok (first_known env app.state.active_conversation_id), app)

    unfoldable pub log_label : String → String → String → Option String → Tool F (Unit {0})
    log_label target label source kept_in app = (
      ok tt,
      record app {
        decisions = append_label env.writable target label source kept_in env.now app.decisions;
      },
    )

    -- The rest of session_switch, from the session that is left and the conversation's id.
    abbrev pub switch_from :
        String → String → String → Option String → Option String → Option String → Tool F String
    switch_from target summary user_prompt updated_title current_name conv = do
      mutate_current F current_name (outgoing env current_name target summary updated_title conv)
      log_label target "accept" "session_switch" current_name
      send_signal F (
          switch target
            (record { from_session = current_name; message = summary; new_session_title = none })
            user_prompt)
      set_current_session F (some target)
      pure target

    unfoldable pub session_switch : String → String → String → Option String → Tool F String
    session_switch target summary user_prompt updated_title = do
      current_name ← get_current_session F
      conv ← active_conversation_id
      switch_from target summary user_prompt updated_title current_name conv

    abbrev pub save_new : SessionMetadata → Tool F (Unit {0})
    save_new s app = (ok tt, record app { sessions = save_session F s app.sessions })

    -- `session_id` is the new uuid.
    unfoldable pub session_register :
        String → String → String → Option String → Tool F SessionMetadata
    session_register session_id name title summary = do
      conv ← active_conversation_id
      let session = link_known conv (new_session session_id name title summary env.now)
      save_new session
      set_current_session F (some name)
      pure session

    unfoldable pub session_back : Tool F (Unit {0})
    session_back = send_signal F back

    abbrev pub end_from : String → Option String → Option String → Tool F (Option String)
    end_from summary current_name conv = do
      mutate_current F current_name (end_now env summary conv)
      set_current_session F none
      pure current_name

    unfoldable pub session_end : String → Tool F (Option String)
    session_end summary = do
      current_name ← get_current_session F
      conv ← active_conversation_id
      end_from summary current_name conv

    abbrev pub after_cleanup :
        App F → Result (List String) × Directory F → Result (Unit {0}) × App F
    after_cleanup app (err e, dir) = (err e, record app { sessions = dir })
    after_cleanup app (ok deleted, dir) = (ok tt, record app { sessions = dir })

    -- The cleanup's readings of the clock, of the settings and of the transcripts are arguments.
    unfoldable pub cleanup :
        (String → Option Time) → (List String → Option ℕ) → ℕ → Settings → Tool F (Unit {0})
    cleanup time activity now settings app =
        after_cleanup app (cleanup_by_settings F time activity now settings app.sessions)

    -- The rest of session_create, from the session that is left and the conversation's id.
    abbrev pub create_from :
        String → String → String → String → Option String → Option String → Tool F (Option String)
    create_from new_session_name title handoff_summary user_prompt current_name conv = do
      saved ← mutate_current F current_name (hand_off env handoff_summary conv)
      let rename_current = renamed current_name saved
      send_signal F (
          new rename_current new_session_name
            (record {
              from_session = current_name;
              message = handoff_summary;
              new_session_title = some title;
            })
            user_prompt)
      set_current_session F (some new_session_name)
      pure rename_current

    -- The result is `rename_current`.
    unfoldable pub session_create :
        (String → Option Time)
        → (List String → Option ℕ)
        → ℕ
        → Settings
        → String
        → String
        → String
        → String
        → Tool F (Option String)
    session_create time activity now settings new_session_name title handoff_summary user_prompt =
        do
          cleanup time activity now settings
          current_name ← get_current_session F
          conv ← active_conversation_id
          create_from new_session_name title handoff_summary user_prompt current_name conv

    abbrev after_enqueue : App F → Result (Bool × QueueDir F) → Result (Unit {0}) × App F
    after_enqueue app (err e) = (err e, app)
    after_enqueue app (ok (written, dir)) = (ok tt, record app { queue = dir })

    unfoldable pub enqueue_task : String → SummaryTask → Tool F (Unit {0})
    enqueue_task stem t app = after_enqueue app (enqueue F env.now stem t app.queue)

    -- `stem` and `stem'` are the new uuids of the two task files.
    abbrev pub enqueue_both : String → String → String → String → Option String → Tool F (Unit {0})
    enqueue_both stem stem' current_name prompt_gist none = pure tt
    enqueue_both stem stem' current_name prompt_gist (some conv_id) = do
      enqueue_task stem
          (task env current_name conv_id kind_active (field "from_reject" (bool true) end))
      enqueue_task stem' (
          task env current_name conv_id kind_rooting_check
            (field "rejected_topic" (str prompt_gist) end))

    abbrev reject_found :
        String → String → String → String → Option SessionMetadata → Tool F RejectResult
    reject_found stem stem' current_name prompt_gist none = pure session_not_found
    reject_found stem stem' current_name prompt_gist (some s) = do
      conv ← active_conversation_id
      enqueue_both stem stem' current_name prompt_gist conv
      pure (recorded current_name (is_known conv))

    abbrev pub reject_current :
        String → String → String → String → Option String → Tool F RejectResult
    reject_current stem stem' rejected_target prompt_gist none = pure no_current_session
    reject_current stem stem' rejected_target prompt_gist (some current_name) = do
      log_label rejected_target "reject" "reject_switch" (some current_name)
      saved ←
          mutate_by_name F current_name
            (remember_rejection env current_name rejected_target prompt_gist)
      reject_found stem stem' current_name prompt_gist saved

    unfoldable pub reject_switch : String → String → String → String → Tool F RejectResult
    reject_switch stem stem' rejected_target prompt_gist = do
      current_name ← get_current_session F
      reject_current stem stem' rejected_target prompt_gist current_name

    abbrev listing : Result (List SessionMetadata) → App F → Result CheckedSessions
    listing (err e) app = err e
    listing (ok ss) app = ok (record {
      current = app.state.current_session_name;
      conversation_id = first_known env app.state.active_conversation_id;
      sessions = keep_if (λ s. is_active s.status) ss;
    })

    unfoldable pub check_session : Tool F CheckedSessions
    check_session app = (listing (list_sessions F app.sessions) app, app)

  abbrev pub non_empty : Option String → Option String
  non_empty none = none
  non_empty (some s) = if s == "" then none else some s

  unfoldable pub handle_wrapper_message : WrapperMessage → App F → App F
  handle_wrapper_message (active_conversation conv_id) app = record app {
    state = State.set_active_conversation_id (non_empty conv_id) app.state;
  }
  handle_wrapper_message session_command app = point_to F none app
  handle_wrapper_message other app = app
