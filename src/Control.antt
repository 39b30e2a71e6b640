-- ===== src/Control.antt =====
-- src/session_manager/wrapper/pty_wrapper.py: what the wrapper does at the end of a turn, on a signal
-- of the MCP server, and in its loop, as actions by event.
pub mod Spec
pub mod Frame
pub mod Stages
pub mod Finishing
pub mod Checks
pub mod Moving
pub mod Children
pub mod Refines
pub mod Invariants
pub mod Completion
use mcp_session_router.Base.{
  ℕ, ◌+◌, String, Bool, true, false, not, ◌==◌, ◌&&◌, ◌||◌, nat_eq, if◌then◌else◌, List, [], ◌∷◌,
  ◌++◌, keep_if, contains,
}
use mcp_session_router.Base.{Option, none, some, Result, ok, err}
use mcp_session_router.Base.Exec.{◌>>=◌, ◌>>◌}
use mcp_session_router.Base.Int.{ℤ, pos, add, int_le}
use mcp_session_router.Base.Text.{strip}
use mcp_session_router.Json.{Json, str, Fields, field, end}
use mcp_session_router.Session.{SessionMetadata}
use mcp_session_router.Store.{TextFormat, list_sessions, load_session_by_name, find_by_name}
use mcp_session_router.Handoffs.{write_notice, file_pending}
use mcp_session_router.Excerpts.{excerpt_max_chars}
use mcp_session_router.ContextMonitor.{ContextUsage, check_context_usage, read_first_usage}
use mcp_session_router.Wrapper.{
  Wrapper, Action, Host, PendingRespawn, plain, Phase, requested, writing, HandoffRequest,
  ReadyHandoff, SwapState, modify, is_conv_eq, last_id, push_active_conversation, current_conv_id,
  set_current_session, execute_transition, resolve_resume_conv, enqueue_active_summary,
  handle_handshake_request,
}
use mcp_session_router.Moves.{
  SessionCommand, spawn_child, maybe_terminate_for_respawn, handle_back_command,
  observe_session_command,
}
use mcp_session_router.Rollovers.{
  Texts, TurnStatus, missing, answered, with_rollover, conclude_handoff_attempt,
  finish_handoff_turn, advance_rollover, finalize_rollover, poll_rollover_finalize,
}

-- What a handler reads of files: the configuration, the status line's record, the tail and the
-- whole of a conversation's transcript, the characters of its dialogue, and the answer to the
-- request that it was sent since a time.
pub record Readings : Type 0 where
  pub config_file : Option Json
  pub status_record : Option Json
  pub tail : String → List (Option Json)
  pub whole : String → List (Option Json)
  pub dialogue_chars : String → ℕ
  pub turn : String → String → TurnStatus

-- What happens to the wrapper. A message of an unexpected form is not an event.
pub data Event : Type 0 where
  turn_end : String → Option String → Event
  context_update : Event
  switch_signal : String → Fields → String → Event
  new_signal : String → Fields → String → Event
  back_signal : Event
  rollover_signal : Option String → Event
  current_session_signal : Option String → Event
  handshake_request : Option String → Event
  typed : SessionCommand → Event
  transcript_changed : Event
  loop_poll : Bool → Event
  child_exit : List String → Event

abbrev pub occurrences : String → List String → ℕ
occurrences x [] = 0
occurrences x (y ∷ ys) = (if y == x then 1 else 0) + occurrences x ys

-- owner_counts.get(conv_id, 0)
abbrev pub owner_count : String → List SessionMetadata → ℕ
owner_count conv_id [] = 0
owner_count conv_id (s ∷ ss) =
    occurrences conv_id s.claude_conversation_ids + owner_count conv_id ss

abbrev pub sole_ids : SessionMetadata → List SessionMetadata → List String
sole_ids s ss = keep_if (λ c. nat_eq (owner_count c ss) 1) s.claude_conversation_ids

abbrev pub stale_notice : String → String → String → Fields
stale_notice session conv_id latest = field "type" (str "stale_conversation") (
    field "session" (str session)
      (field "conv_id" (str conv_id) (field "latest_conv" (str latest) end)))

module _ (F : TextFormat) (host : Host) (texts : Texts) (readings : Readings) where
  abbrev pub warn : String → String → String → Wrapper F → Wrapper F
  warn session conv_id latest w = record w {
    stale_conv_warned = conv_id ∷ w.stale_conv_warned;
    stale_notice_conv = some conv_id;
    notice_file = write_notice F (stale_notice session conv_id latest) host.now w.notice_file;
  }

  -- An own conversation of the session that is not its latest one.
  abbrev pub warn_unless_latest : String → String → List String → Wrapper F → Wrapper F
  warn_unless_latest session conv_id sole w = elim (last_id sole) [
    | none ↦ w
    | some latest ↦
        if contains sole conv_id && not (conv_id == latest)
        then warn session conv_id latest w
        else w
  ]

  abbrev pub warn_for :
      String → String → Option SessionMetadata → List SessionMetadata → Wrapper F → Wrapper F
  warn_for session conv_id none ss w = w
  warn_for session conv_id (some s) ss w = warn_unless_latest session conv_id (sole_ids s ss) w

  abbrev pub warn_in :
      Option String → String → Result (List SessionMetadata) → Wrapper F → Wrapper F
  warn_in (some session) conv_id (ok ss) w = warn_for session conv_id (find_by_name session ss) ss w
  warn_in _ conv_id _ w = w

  abbrev pub is_idle :
      Option HandoffRequest → Option SwapState → Option ReadyHandoff → Option PendingRespawn → Bool
  is_idle none none none none = true
  is_idle _ _ _ _ = false

  unfoldable pub check_stale_conv_entry : String → Wrapper F → Wrapper F
  check_stale_conv_entry conv_id w =
      if is_idle w.rollover.request w.rollover.swap w.rollover.ready w.pending
        && not (contains w.stale_conv_warned conv_id)
      then warn_in w.current_session_name conv_id (list_sessions F w.sessions) w
      else w

  abbrev pub baseline : SessionMetadata → String → ℤ
  baseline s conv_id =
      if is_conv_eq s.summary_dialogue_conversation_id (some conv_id)
      then s.summary_dialogue_chars
      else pos 0

  -- growth >= EXCERPT_MAX_CHARS
  abbrev pub has_grown : SessionMetadata → String → Bool
  has_grown s conv_id =
      int_le (add (baseline s conv_id) (pos excerpt_max_chars))
        (pos (readings.dialogue_chars conv_id))

  abbrev pub refresh_session : String → Result (Option SessionMetadata) → Action F (Unit {0})
  refresh_session conv_id (err e) w = (err e, w)
  refresh_session conv_id (ok none) w = (ok tt, w)
  refresh_session conv_id (ok (some s)) w =
      if has_grown s conv_id then enqueue_active_summary F host w else (ok tt, w)

  abbrev pub refresh_for : Option String → Option String → Action F (Unit {0})
  refresh_for (some session) (some conv_id) w =
      refresh_session conv_id (load_session_by_name F session w.sessions) w
  refresh_for _ _ w = (ok tt, w)

  unfoldable pub check_summary_refresh : Action F (Unit {0})
  check_summary_refresh w = refresh_for w.current_session_name (current_conv_id F host w) w

  abbrev pub entry_checked : Wrapper F → Wrapper F
  entry_checked w = record w { entry_check_conv_id = none }

  abbrev pub with_birth : String → ℤ → Option ℤ → Wrapper F → Wrapper F
  with_birth conv_id trigger none w = w
  with_birth conv_id trigger (some birth) w =
      if int_le trigger birth
      then with_rollover F (λ r. record r { suppressed_conv_id = some conv_id }) (entry_checked w)
      else with_rollover F (λ r. record r { pending_conv_id = some conv_id }) (entry_checked w)

  -- A rollover becomes due once for a conversation, and never for one that was born too full.
  abbrev pub judge_usage : String → Option ContextUsage → Wrapper F → Wrapper F
  judge_usage conv_id none w = w
  judge_usage conv_id (some usage) w =
      if not usage.exceeded
        || is_conv_eq w.rollover.pending_conv_id (some conv_id)
        || is_conv_eq w.rollover.suppressed_conv_id (some conv_id)
      then entry_checked w
      else with_birth conv_id usage.trigger_tokens (read_first_usage (readings.whole conv_id)) w

  -- What was due, or to be checked, of another conversation is dropped.
  abbrev pub drop_others : String → Wrapper F → Wrapper F
  drop_others conv_id w =
      let w' =
        if is_conv_eq w.rollover.pending_conv_id (some conv_id)
        then w
        else with_rollover F (λ r. record r { pending_conv_id = none }) w in
      if is_conv_eq w'.entry_check_conv_id (some conv_id) then w' else entry_checked w'

  abbrev pub usage_of : String → Option ContextUsage
  usage_of conv_id =
      check_context_usage readings.config_file readings.status_record (readings.tail conv_id)
        conv_id

  abbrev pub check_usage_of : Option String → Wrapper F → Wrapper F
  check_usage_of none w = w
  check_usage_of (some conv_id) w =
      if is_conv_eq w.stale_notice_conv (some conv_id)
      then w
      else judge_usage conv_id (usage_of conv_id) (drop_others conv_id w)

  -- The wrapper's own _check_context_usage.
  unfoldable pub check_usage : Wrapper F → Wrapper F
  check_usage w = check_usage_of (current_conv_id F host w) w

  -- The three checks after a turn.
  abbrev pub after_turn : Action F (Unit {0})
  after_turn = do
    check_summary_refresh
    modify F check_usage
    advance_rollover F host texts readings.turn

  abbrev pub stale_entry_of : Option String → Wrapper F → Wrapper F
  stale_entry_of none w = w
  stale_entry_of (some conv_id) w = check_stale_conv_entry conv_id w

  unfoldable pub on_turn_end : Action F (Unit {0})
  on_turn_end = do modify F (λ w. stale_entry_of (current_conv_id F host w) w); after_turn

  abbrev pub clear_delivered : Option String → Wrapper F → Wrapper F
  clear_delivered none w = w
  clear_delivered (some conv_id) w =
      if file_pending F w.notice_file then w else record w { stale_notice_conv = none }

  -- The hook's conversation is adopted, and a delivered notice forgotten.
  abbrev pub adopt : String → Wrapper F → Wrapper F
  adopt conv_id w =
      let w' = push_active_conversation F (record w { active_conv_from_hook = some conv_id }) in
      clear_delivered w'.stale_notice_conv w'

  abbrev pub status_of : Option String → TurnStatus
  status_of none = missing
  status_of (some text) = if strip text == "" then missing else answered text

  abbrev pub ordinary_end : String → Option SwapState → Action F (Unit {0})
  ordinary_end conv_id (some swap) w = finalize_rollover F host texts conv_id w
  ordinary_end conv_id none w = after_turn (check_stale_conv_entry conv_id w)

  abbrev pub is_writing : Phase → Bool
  is_writing writing = true
  is_writing requested = false

  abbrev pub end_turn : String → Option String → Option HandoffRequest → Action F (Unit {0})
  end_turn conv_id text none w = ordinary_end conv_id w.rollover.swap w
  end_turn conv_id text (some state) w =
      if is_writing state.phase && state.conv_id == conv_id
      then conclude_handoff_attempt F host texts state (status_of text) w
      else ordinary_end conv_id w.rollover.swap w

  unfoldable pub handle_turn_end_signal : String → Option String → Action F (Unit {0})
  handle_turn_end_signal conv_id text w =
      if conv_id == ""
      then (ok tt, w)
      else (let w' = adopt conv_id w in end_turn conv_id text w'.rollover.request w')

  abbrev pub mark_due : Option String → Wrapper F → Wrapper F
  mark_due none w = w
  mark_due (some conv_id) w = with_rollover F (λ r. record r { pending_conv_id = some conv_id }) w

  abbrev pub given_or_current : Option String → Wrapper F → Option String
  given_or_current none w = current_conv_id F host w
  given_or_current (some conv_id) w =
      if conv_id == "" then current_conv_id F host w else some conv_id

  -- While a transition is under way, a name that is not its target is stale.
  abbrev pub adopt_session : Option PendingRespawn → Option String → Wrapper F → Wrapper F
  adopt_session none name w = set_current_session F host name w
  adopt_session (some p) name w =
      if is_conv_eq name (some p.target) then set_current_session F host name w else w

  abbrev pub respawn_if : Option PendingRespawn → List String → Wrapper F → Wrapper F
  respawn_if none claude_args w = w
  respawn_if (some p) claude_args w = spawn_child F host claude_args w

  abbrev pub poll_transcript : Option HandoffRequest → Action F (Unit {0})
  poll_transcript none w = (ok tt, w)
  poll_transcript (some state) w =
      if is_writing state.phase
      then finish_handoff_turn F host texts readings.turn state w
      else (ok tt, w)

  unfoldable pub handle : Event → Action F (Unit {0})
  handle (turn_end conv_id text) w = handle_turn_end_signal conv_id text w
  handle context_update w = on_turn_end w
  handle (switch_signal target handoff user_prompt) w =
      execute_transition F host target (resolve_resume_conv F host target w) handoff user_prompt
        plain w
  handle (new_signal name handoff user_prompt) w =
      execute_transition F host name none handoff user_prompt plain w
  handle back_signal w = handle_back_command F host w
  handle (rollover_signal conv_id) w = (ok tt, mark_due (given_or_current conv_id w) w)
  handle (current_session_signal name) w = (ok tt, adopt_session w.pending name w)
  handle (handshake_request initial_session_name) w =
      (ok tt, handle_handshake_request F initial_session_name w)
  handle (typed command) w = observe_session_command F host command w
  handle transcript_changed w = poll_transcript w.rollover.request w
  handle (loop_poll screen_busy) w =
      poll_rollover_finalize F host texts (maybe_terminate_for_respawn F host screen_busy w)
  handle (child_exit claude_args) w = (ok tt, respawn_if w.pending claude_args w)

-- A moment: what the handler reads, and what happens.
pub record Moment : Type 0 where
  pub host : Host
  pub texts : Texts
  pub readings : Readings
  pub event : Event

module _ (F : TextFormat) where
  -- A sequence of events; a handler that raises leaves what it wrote.
  unfoldable pub run : List Moment → Wrapper F → Wrapper F
  run [] w = w
  run (m ∷ ms) w = run ms (handle F m.host m.texts m.readings m.event w).1
