-- ===== src/Tests/Moves.antt =====
-- Runs of the wrapper, and of the files that it shares with the hook.
use mcp_session_router.Base.{◌≡◌, refl, ap, inl, true, false, arith}
use mcp_session_router.Base.{none, some, List, [], ◌∷◌, Option}
use mcp_session_router.Base.Int.{pos}
use mcp_session_router.Base.Decimal.{decimal}
use mcp_session_router.Json.{Json, str, int, obj, Fields, field, end}
use mcp_session_router.Handoffs.Spec
use mcp_session_router.Handoffs.Spec.{write, take}
use mcp_session_router.Handoffs.Mailbox
use mcp_session_router.Handoffs.Mailbox.{run-message, message}
use mcp_session_router.StateFile.{Transition, save_last_transition, load_last_transition}
use mcp_session_router.StateFile.Keys.{load_last_transition-save}
use mcp_session_router.ContextMonitor.{
  ContextUsage, transcript, mapping, read_tail_usage_and_model, trigger_for, window_for_model,
  total_tokens, load_rollover_config, check_context_usage,
}
use mcp_session_router.ContextMonitor.Trigger.{WithinLimits, check_context_usage_lem}
use mcp_session_router.Wrapper.{
  Wrapper, Host, PendingRespawn, plain, undo, HandoffRequest, writing, execute_transition,
  resolve_resume_conv,
}
use mcp_session_router.Wrapper.Transitions.{Executes, execute_transition_lem}
use mcp_session_router.Moves.{spawn_child, handle_back_command}
use mcp_session_router.Moves.Back.{GoesBack, undoable, back_after_switch, back_after_back}
use mcp_session_router.Rollovers.{validate_handoff_text, Texts, missing, conclude_handoff_attempt}
use mcp_session_router.Control.{Readings, Moment, turn_end, child_exit, run}
use mcp_session_router.Wrapper.{rollover_request}
use mcp_session_router.Control.{handle}
use mcp_session_router.Control.Completion.{rollover_completes}
use mcp_session_router.Control.Spec.{Reaches, Exclusive, Stuck, AtMostOne}
use mcp_session_router.Control.Frame.{progress}
use mcp_session_router.Control.Refines.{run-Reaches}
use mcp_session_router.Control.Invariants.{run-Exclusive, run-Stuck}
use mcp_session_router.Session.Codec
use mcp_session_router.Store.{
  load_session_by_name, list_sessions, save_session, load_session, find_by_name,
}
use mcp_session_router.Base.Dict.{insert, lookup}
use mcp_session_router.Tests.{json_text, two_sessions}

abbrev pub host : Host
host = record {
  now = "day 3";
  task_stem = "t1";
  fresh_conv = "c9";
  flags = [];
  guess = none;
  has_transcript = λ c. true;
  log_writable = true;
  state_writable = true;
}

abbrev texts : Texts
texts = record {
  build_request = λ session n conv requirements. "write the handoff";
  build_fallback_handoff = λ session n conv. "excerpt";
  successor_prompt = λ session n. "read the handoff";
  glob = λ pattern names. [];
  number_of = λ suffix. none;
}

abbrev readings : Readings
readings = record {
  config_file = none;
  status_record = none;
  tail = λ c. [];
  whole = λ c. [];
  dialogue_chars = λ c. 0;
  turn = λ c t. missing;
}

-- In the session "planning", with nothing under way.
abbrev pub idle : Wrapper json_text
idle = record {
  pending = none;
  current_session_name = some "planning";
  active_conv_from_hook = some "c1";
  assigned_conv_id = some "c1";
  pushed_conv_id = some "c1";
  entry_check_conv_id = none;
  stale_conv_warned = [];
  stale_notice_conv = none;
  last_transition = none;
  rollover = record {
    pending_conv_id = some "c1";
    suppressed_conv_id = none;
    request = none;
    ready = none;
    swap = none;
  };
  sent = [];
  launched = [];
  sessions = two_sessions;
  decisions = [];
  queue = [];
  pending_file = none;
  notice_file = none;
  state_file = none;
  documents = [];
}

abbrev to_coding : PendingRespawn
to_coding = record {
  target = "coding";
  resume_conv = none;
  from_name = some "planning";
  user_prompt = "fix the parser";
  kind = plain;
  terminated = false;
}

abbrev first_attempt : HandoffRequest
first_attempt = record {
  session = "planning";
  number = 1;
  conv_id = "c1";
  attempts = 1;
  phase = writing;
  request_at = "day 3";
}

abbrev asked : Wrapper json_text
asked = record idle { rollover = record idle.rollover { request = some first_attempt } }

-- A switch was signalled while the document is being written.
abbrev interrupted : Wrapper json_text
interrupted = record asked { pending = some to_coding }

abbrev handoff : Fields
handoff = field "from" (str "planning") end

abbrev moment : Moment
moment = record { host = host; texts = texts; readings = readings; event = turn_end "c1" none }

run-Reaches_example :
    Reaches
      (progress json_text asked)
      (progress json_text (run json_text (moment ∷ moment ∷ []) asked))
run-Reaches_example = run-Reaches json_text (moment ∷ moment ∷ []) asked

run-Exclusive_example : Exclusive (progress json_text (run json_text (moment ∷ moment ∷ []) asked))
unfolding progress Exclusive AtMostOne
run-Exclusive_example = run-Exclusive json_text (moment ∷ moment ∷ []) asked (inl refl)

run-Stuck_example : Stuck (
    progress json_text (
      run json_text
        (record moment { event = child_exit [] } ∷ moment ∷ [])
        (conclude_handoff_attempt json_text host texts first_attempt missing interrupted).1))
run-Stuck_example =
    run-Stuck json_text host texts first_attempt to_coding interrupted
      (record moment { event = child_exit [] } ∷ moment ∷ []) (omega arith) refl tt

execute_transition_lem_example :
    let x = execute_transition json_text host "coding" none handoff "fix the parser" plain idle in
    Executes json_text host "coding" none handoff "fix the parser" plain none x.0 idle x.1
execute_transition_lem_example =
    execute_transition_lem json_text host "coding" none handoff "fix the parser" plain idle

back_after_switch_example :
    let v = spawn_child json_text host [] (record idle { pending = some to_coding }) in
    let x = handle_back_command json_text host v in
    GoesBack json_text host (undoable json_text host "planning" to_coding) "c1" x.0 v x.1
unfolding resolve_resume_conv load_session_by_name list_sessions save_session insert lookup
    load_session Codec.from_dict Codec.to_dict Codec.parse_status find_by_name
back_after_switch_example =
    back_after_switch json_text host "planning" "c1" to_coding []
      (record idle { pending = some to_coding }) refl refl refl refl refl refl

back_after_back_example :
    let v =
      spawn_child json_text host []
        (record idle { pending = some (record to_coding { kind = undo }) }) in
    (handle_back_command json_text host v).1 ≡ v
back_after_back_example =
    ap (λ r. r.1)
      (back_after_back json_text host (record to_coding { kind = undo }) []
        (record idle { pending = some (record to_coding { kind = undo }) }) refl refl refl)

run-message_example :
    let (answers, last) = Mailbox.run json_text (write handoff ∷ take ∷ take ∷ []) none in
    ◌≡◌ {A = List (Option Fields) × Option Fields}
      (answers, message json_text last)
      (none ∷ some handoff ∷ none ∷ [], none)
unfolding Spec.run Spec.act message
run-message_example = run-message json_text (write handoff ∷ take ∷ take ∷ []) none

abbrev there : Transition
there = record { from_session = "planning"; to_session = "coding"; user_prompt = "fix" }

load_last_transition-save_example :
    load_last_transition json_text (save_last_transition json_text true "day 3" there none)
    ≡ some there
load_last_transition-save_example =
    (load_last_transition-save json_text "day 3" there none refl refl).0

abbrev answer_line : Json
answer_line = obj (
    field "type" (str "assistant") (
      field "message"
        (obj (
          field "model" (str "claude-opus")
            (field "usage" (obj (field "input_tokens" (int (pos 130000)) end)) end)))
        end))

abbrev answer : ContextUsage
answer = record {
  used_tokens = pos 130000;
  window_tokens = some (pos 200000);
  trigger_tokens = pos 120000;
  exceeded = true;
  numerator_source = transcript;
  denominator_source = mapping;
}

check_context_usage_lem_example : WithinLimits (load_rollover_config none) answer
unfolding check_context_usage read_tail_usage_and_model trigger_for window_for_model total_tokens
    load_rollover_config
check_context_usage_lem_example =
    check_context_usage_lem none none (some answer_line ∷ []) "c1" answer refl

abbrev asking_again : PendingRespawn
asking_again = record to_coding {
  target = "planning";
  resume_conv = some "c1";
  kind = rollover_request;
}

rollover_completes_example :
    let w = record asked { pending = some asking_again } in
    let u = (handle json_text host texts readings (child_exit []) w).1 in
    (handle json_text host texts readings (turn_end "c1" (some "## 1. a\n## 2. b")) u).1.documents
    ≡ ("planning-1.md", "## 1. a\n## 2. b") ∷ []
unfolding validate_handoff_text decimal insert
rollover_completes_example =
    (rollover_completes json_text host texts readings asking_again first_attempt []
      "## 1. a\n## 2. b" (record asked { pending = some asking_again }) refl refl refl refl refl).0
