-- ===== src/Rollovers.antt =====
-- src/session_manager/wrapper/pty_wrapper.py, the steps of a rollover, with the numbers and the
-- validation of src/session_manager/rollover.py. A rollover asks the full conversation for a handoff
-- document in a turn of its own, at most twice, and then goes on in a new conversation. The texts of
-- the request, of the fallback and of the successor's prompt are arguments, as are the reads of
-- other files, pathlib's glob and the reading of a number. A glob that raises and a suffix for
-- which isdigit holds and int() raises are left out.
pub mod Outcome
use Prim.Native.String.{slice}
use mcp_session_router.Base.{
  ℕ, suc, ◌+◌, map, ◌<>◌, String, Bool, true, false, not, ◌==◌, ◌&&◌, ◌||◌, ltb, if◌then◌else◌,
  List, [], ◌∷◌, ◌++◌,
}
use mcp_session_router.Base.{Option, none, some, Result, ok, err}
use mcp_session_router.Base.Exec.{Exec, pure, ◌>>=◌, ◌>>◌}
use mcp_session_router.Base.Text.{strip, has_heading, chars}
use mcp_session_router.Base.Decimal.{decimal}
use mcp_session_router.Base.Dict.{Dict, insert}
use mcp_session_router.Json.{Json, nil, cons, str, arr, Fields, field, end}
use mcp_session_router.Session.{SessionMetadata, link_conversation, clear_precedents}
use mcp_session_router.Store.{TextFormat, Directory, load_session_by_name, mutate_session_by_name}
use mcp_session_router.Wrapper.{
  Wrapper, Action, Host, PendingRespawn, RespawnKind, rollover_request, rollover_swap, Phase,
  requested, writing, HandoffRequest, ReadyHandoff, SwapState, Rollover, modify, is_conv_eq,
  current_conv_id, execute_transition, enqueue_active_summary,
}

-- The texts of a rollover, by session and number: the request with the conversation and the
-- requirements, the fallback document with the conversation, and the successor's prompt. Then
-- pathlib's glob, the stems of the names in the handoffs directory that match a pattern, and the
-- number that a text of digits reads as, none for another text.
pub record Texts : Type 0 where
  pub build_request : String → ℕ → String → List String → String
  pub build_fallback_handoff : String → ℕ → String → String
  pub successor_prompt : String → ℕ → String
  pub glob : String → List String → List String
  pub number_of : String → Option ℕ

-- handoff_path, within the handoffs directory
abbrev pub handoff_name : String → ℕ → String
handoff_name session n = session <> "-" <> decimal n <> ".md"

-- str(handoff_path(...).relative_to(...))
abbrev pub handoff_relpath : String → ℕ → String
handoff_relpath session n = ".session-manager/handoffs/" <> handoff_name session n

abbrev larger : ℕ → ℕ → ℕ
larger a b = if ltb a b then b else a

abbrev larger_or : ℕ → Option ℕ → ℕ
larger_or highest none = highest
larger_or highest (some n) = larger highest n

-- The loop over the stems that the glob gave, from the largest number so far.
unfoldable pub highest : (String → Option ℕ) → String → ℕ → List String → ℕ
highest number_of session so_far [] = so_far
highest number_of session so_far (stem ∷ stems) =
    highest number_of session
      (larger_or so_far (number_of (slice stem (chars session + 1) (chars stem)))) stems

unfoldable pub next_handoff_number : Texts → String → Dict String → ℕ
next_handoff_number texts session documents =
    suc (
      highest texts.number_of session 0
        (texts.glob (session <> "-*.md") (map (λ d. d.0) documents)))

-- Both of the required sections, in a text that is not blank.
unfoldable pub validate_handoff_text : String → Bool
validate_handoff_text text =
    not (strip text == "") && has_heading "1." text && has_heading "2." text

-- check_trigger_turn's answer
pub data TurnStatus : Type 0 where
  waiting missing : TurnStatus
  answered : String → TurnStatus

module _ (F : TextFormat) where
  abbrev pub with_rollover : (Rollover → Rollover) → Wrapper F → Wrapper F
  with_rollover f w = record w { rollover = f w.rollover }

module _ (F : TextFormat) (host : Host) (texts : Texts) where
  abbrev pub write_handoff : String → ℕ → String → Wrapper F → Wrapper F
  write_handoff session number text w = record w {
    documents = insert (handoff_name session number) text w.documents;
  }

  -- An exception is read as no session.
  abbrev requirements_of : Result (Option SessionMetadata) → List String
  requirements_of (ok (some s)) = s.requirements
  requirements_of _ = []

  abbrev pub request_handoff : String → Fields
  request_handoff session =
      field "kind" (str "rollover_handoff_request") (field "from" (str session) end)

  unfoldable pub start_handoff_turn : String → String → ℕ → Action F (Unit {0})
  start_handoff_turn session conv_id attempts w =
      let number = next_handoff_number texts session w.documents in
      let request =
        texts.build_request session number conv_id
          (requirements_of (load_session_by_name F session w.sessions)) in
      let asked : HandoffRequest = record {
        session = session;
        number = number;
        conv_id = conv_id;
        attempts = attempts;
        phase = requested;
        request_at = host.now;
      } in
      execute_transition F host session (some conv_id) (request_handoff session) request
        rollover_request (with_rollover F (λ r. record r { request = some asked }) w)

  abbrev pub successor_handoff : String → ℕ → Fields
  successor_handoff session number =
      let path = handoff_relpath session number in
      field "kind" (str "rollover") (
        field "from" (str session) (
          field "handoff_file" (str path) (
            field "read"
              (arr (
                cons (str path) (
                  cons (str ".session-manager/static-field.json")
                    (cons (str ".session-manager/project-context.md") nil))))
              end)))

  abbrev swap_from : ReadyHandoff → Action F (Unit {0})
  swap_from ready w =
      let swap : SwapState = record {
        session = ready.session;
        number = ready.number;
        predecessor_conv = ready.conv_id;
      } in
      execute_transition F host ready.session none (successor_handoff ready.session ready.number)
        (texts.successor_prompt ready.session ready.number) rollover_swap
        (with_rollover F (λ r. record r { ready = none; swap = some swap }) w)

  -- Not while a transition is under way.
  abbrev pub swap_if : Option ReadyHandoff → Option PendingRespawn → Action F (Unit {0})
  swap_if (some ready) none w = swap_from ready w
  swap_if _ _ w = (ok tt, w)

  unfoldable pub start_rollover_swap : Action F (Unit {0})
  start_rollover_swap w = swap_if w.rollover.ready w.pending w

  abbrev pub accept_document : HandoffRequest → String → Action F (Unit {0})
  accept_document state text w =
      let ready : ReadyHandoff = record {
        session = state.session;
        number = state.number;
        conv_id = state.conv_id;
      } in
      start_rollover_swap (
        with_rollover F (λ r. record r { request = none; ready = some ready })
          (write_handoff state.session state.number text w))

  -- A first attempt is repeated, a second one falls back to an excerpt.
  abbrev pub reject_document : HandoffRequest → Action F (Unit {0})
  reject_document state w =
      if ltb state.attempts 2
      then start_handoff_turn state.session state.conv_id 2
          (with_rollover F (λ r. record r { request = none }) w)
      else accept_document state
          (texts.build_fallback_handoff state.session state.number state.conv_id) w

  unfoldable pub conclude_handoff_attempt : HandoffRequest → TurnStatus → Action F (Unit {0})
  conclude_handoff_attempt state (answered text) w =
      if validate_handoff_text text then accept_document state text w else reject_document state w
  conclude_handoff_attempt state status w = reject_document state w

  abbrev pub finish_with : HandoffRequest → TurnStatus → Action F (Unit {0})
  finish_with state waiting w = (ok tt, w)
  finish_with state status w = conclude_handoff_attempt state status w

  -- `turn` is check_trigger_turn on the transcript of a conversation, from a time on.
  module _ (turn : String → String → TurnStatus) where
    abbrev pub finish_handoff_turn : HandoffRequest → Action F (Unit {0})
    finish_handoff_turn state = finish_with state (turn state.conv_id state.request_at)

    abbrev pub begin_if : Option String → Option String → Action F (Unit {0})
    begin_if (some conv_id) (some session) w =
        if is_conv_eq (some conv_id) (current_conv_id F host w)
        then start_handoff_turn session conv_id 1 w
        else (ok tt, w)
    begin_if _ _ w = (ok tt, w)

    abbrev pub begin_unless : Option SwapState → Option PendingRespawn → Action F (Unit {0})
    begin_unless none none w = begin_if w.rollover.pending_conv_id w.current_session_name w
    begin_unless _ _ w = (ok tt, w)

    abbrev pub swap_or_begin : Option ReadyHandoff → Action F (Unit {0})
    swap_or_begin (some ready) w = start_rollover_swap w
    swap_or_begin none w = begin_unless w.rollover.swap w.pending w

    abbrev pub advance_phase : HandoffRequest → Phase → Action F (Unit {0})
    advance_phase state writing w = finish_handoff_turn state w
    advance_phase state requested w = (ok tt, w)

    abbrev pub advance_from : Option HandoffRequest → Action F (Unit {0})
    advance_from (some state) w = advance_phase state state.phase w
    advance_from none w = swap_or_begin w.rollover.ready w

    unfoldable pub advance_rollover : Action F (Unit {0})
    advance_rollover w = advance_from w.rollover.request w

  abbrev pub link_both : String → String → SessionMetadata → SessionMetadata
  link_both predecessor successor s =
      clear_precedents (link_conversation successor (link_conversation predecessor s))

  -- A failed link is only logged.
  abbrev pub relinked : Wrapper F → Result (Option SessionMetadata × Directory F) → Wrapper F
  relinked w (err e) = w
  relinked w (ok (s, dir)) = record w { sessions = dir }

  abbrev pub link_successor : SwapState → String → Wrapper F → Wrapper F
  link_successor state conv_id w =
      relinked w (
        mutate_session_by_name F state.session (link_both state.predecessor_conv conv_id)
          w.sessions)

  abbrev pub end_swap : Wrapper F → Wrapper F
  end_swap = with_rollover F (λ r. record r { swap = none; pending_conv_id = none })

  abbrev pub finalize_swap : Option SwapState → String → Action F (Unit {0})
  finalize_swap none conv_id = pure tt
  finalize_swap (some state) conv_id = if conv_id == state.predecessor_conv then pure tt else (do
    modify F (link_successor state conv_id)
    enqueue_active_summary F host
    modify F end_swap)

  unfoldable pub finalize_rollover : String → Action F (Unit {0})
  finalize_rollover conv_id w = finalize_swap w.rollover.swap conv_id w

  -- The successor that was only assigned counts once its transcript is there.
  abbrev pub still_assigned : String → Wrapper F → Bool
  still_assigned conv_id w =
      is_conv_eq (some conv_id) w.assigned_conv_id
      && elim w.active_conv_from_hook [ none ↦ true | some c ↦ c == "" ]
      && not (host.has_transcript conv_id)

  abbrev pub poll_with : Option String → Option SwapState → Action F (Unit {0})
  poll_with (some conv_id) (some state) w =
      if conv_id == state.predecessor_conv || still_assigned conv_id w
      then (ok tt, w)
      else finalize_rollover conv_id w
  poll_with _ _ w = (ok tt, w)

  unfoldable pub poll_rollover_finalize : Action F (Unit {0})
  poll_rollover_finalize w = poll_with (current_conv_id F host w) w.rollover.swap w
