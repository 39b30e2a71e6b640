-- ===== src/Rollovers/Outcome.antt =====
-- How an attempt at a handoff document ends when nothing else is under way.
use mcp_session_router.Base.{String, Bool-cases, inl, inr, ◌≡◌, refl, ap, ltb, if◌then◌else◌}
use mcp_session_router.Base.{Option, none, some, Result, ok, err}
use mcp_session_router.Base.Dict.{insert}
use mcp_session_router.Json.{Fields}
use mcp_session_router.Session.{SessionMetadata}
use mcp_session_router.Store.{TextFormat, Directory}
use mcp_session_router.Wrapper.{
  Wrapper, Host, PendingRespawn, rollover_request, rollover_swap, requested, HandoffRequest,
  ReadyHandoff, after_reactivate, reactivate_target, transition_unless, execute_transition,
}
use mcp_session_router.Wrapper.Transitions.{registered}
use mcp_session_router.Rollovers.{
  Texts, TurnStatus, waiting, missing, answered, next_handoff_number, handoff_name,
  validate_handoff_text, successor_handoff, with_rollover, start_handoff_turn, start_rollover_swap,
  swap_if, accept_document, reject_document, conclude_handoff_attempt,
}

module _ (F : TextFormat) (host : Host) where
  -- A transition within a session, by the fields that a rollover reads.
  abbrev Within : PendingRespawn → Wrapper F → Wrapper F → Type 0
  Within p w v = (v.pending ≡ some p) × (v.rollover ≡ w.rollover) × (v.documents ≡ w.documents)

  reactivated :
      (w : Wrapper F) (r : Result (Option SessionMetadata × Directory F))
      → let v = after_reactivate F host w r in
        (v.rollover ≡ w.rollover) × (v.documents ≡ w.documents)
  reactivated w (ok r) = (refl, refl)
  reactivated w (err e) = (refl, refl)

  module _ (target : String) (conv : Option String) (handoff : Fields) (prompt : String) where
    request_unless :
        (o : Option PendingRespawn) (w : Wrapper F)
        → o ≡ none
        → Within
            (registered F host target conv handoff prompt rollover_request)
            w
            (transition_unless F host o target conv handoff prompt rollover_request w).1
    unfolding reactivate_target
    request_unless none w e = let (a, b) = reactivated w _ in (refl, a, b)
    request_unless (some p) w e = cc

    swap_unless :
        (o : Option PendingRespawn) (w : Wrapper F)
        → o ≡ none
        → Within
            (registered F host target conv handoff prompt rollover_swap)
            w
            (transition_unless F host o target conv handoff prompt rollover_swap w).1
    unfolding reactivate_target
    swap_unless none w e = let (a, b) = reactivated w _ in (refl, a, b)
    swap_unless (some p) w e = cc

    request-Within :
        (w : Wrapper F)
        → w.pending ≡ none
        → Within
            (registered F host target conv handoff prompt rollover_request)
            w
            (execute_transition F host target conv handoff prompt rollover_request w).1
    unfolding execute_transition
    request-Within w e = request_unless w.pending w e

    swap-Within :
        (w : Wrapper F)
        → w.pending ≡ none
        → Within
            (registered F host target conv handoff prompt rollover_swap)
            w
            (execute_transition F host target conv handoff prompt rollover_swap w).1
    unfolding execute_transition
    swap-Within w e = swap_unless w.pending w e

module _ (F : TextFormat) (host : Host) (texts : Texts) (state : HandoffRequest) where
  -- The text that an attempt puts into the document, or none when it is to be repeated.
  abbrev pub fallback_of : Option String
  fallback_of =
      if ltb state.attempts 2
      then none
      else some (texts.build_fallback_handoff state.session state.number state.conv_id)

  unfoldable pub document_of : TurnStatus → Option String
  document_of (answered text) = if validate_handoff_text text then some text else fallback_of
  document_of status = fallback_of

  -- A document is written once, and its successor is awaited; or the same conversation is asked
  -- again, for the next number.
  abbrev pub Concludes : Option String → Wrapper F → Wrapper F → Type 0
  Concludes (some text) w v =
      (v.documents ≡ insert (handoff_name state.session state.number) text w.documents)
      × (v.rollover.request ≡ none)
      × (v.rollover.ready ≡ none)
      × (v.rollover.swap
          ≡ some (record {
            session = state.session;
            number = state.number;
            predecessor_conv = state.conv_id;
          }))
      × (v.pending
          ≡ some (
              registered F host state.session none
                (successor_handoff F host texts state.session state.number)
                (texts.successor_prompt state.session state.number) rollover_swap))
  Concludes none w v =
      (v.documents ≡ w.documents)
      × (v.rollover.request
          ≡ some (record {
            session = state.session;
            number = next_handoff_number texts state.session w.documents;
            conv_id = state.conv_id;
            attempts = 2;
            phase = requested;
            request_at = host.now;
          }))

  swap_if-Concludes :
      (text : String) (ready : ReadyHandoff) (o : Option PendingRespawn) (w : Wrapper F)
      → w.pending ≡ none
      → o ≡ none
      → let v = (swap_if F host texts (some ready) o w).1 in
        (v.documents ≡ w.documents)
        × (v.rollover ≡ record w.rollover {
          ready = none;
          swap = some (record {
            session = ready.session;
            number = ready.number;
            predecessor_conv = ready.conv_id;
          });
        })
        × (v.pending
            ≡ some (
                registered F host ready.session none
                  (successor_handoff F host texts ready.session ready.number)
                  (texts.successor_prompt ready.session ready.number)
                  rollover_swap))
  swap_if-Concludes text ready (some p) w n e = cc
  swap_if-Concludes text ready none w n e =
      let (a, b, c) = swap-Within F host ready.session none _ _ _ n in (c, b, a)

  accept_document-Concludes :
      (text : String) (w : Wrapper F)
      → w.pending ≡ none
      → Concludes (some text) w (accept_document F host texts state text w).1
  unfolding start_rollover_swap
  accept_document-Concludes text w n =
      let (a, b, c) = swap_if-Concludes text _ w.pending _ n n in
      (a, ap (λ r. r.request) b, ap (λ r. r.ready) b, ap (λ r. r.swap) b, c)

  again-Concludes :
      (w : Wrapper F)
      → w.pending ≡ none
      → Concludes none w
          (start_handoff_turn F host texts state.session state.conv_id 2
            (with_rollover F (λ r. record r { request = none }) w)).1
  unfolding start_handoff_turn
  again-Concludes w n =
      let (a, b, c) = request-Within F host state.session (some state.conv_id) _ _ _ n in
      (c, ap (λ r. r.request) b)

  reject_document-Concludes :
      (w : Wrapper F)
      → w.pending ≡ none
      → Concludes fallback_of w (reject_document F host texts state w).1
  reject_document-Concludes w n = elim (Bool-cases (ltb state.attempts 2)) [
    | inl y ↦ rw y (again-Concludes w n)
    | inr z ↦ rw z (accept_document-Concludes _ w n)
  ]

  pub conclude_handoff_attempt_lem :
      (status : TurnStatus) (w : Wrapper F)
      → w.pending ≡ none
      → Concludes (document_of status) w (conclude_handoff_attempt F host texts state status w).1
  unfolding document_of conclude_handoff_attempt
  conclude_handoff_attempt_lem (answered text) w n =
      elim (Bool-cases (validate_handoff_text text)) [
        | inl y ↦ rw y (accept_document-Concludes text w n)
        | inr z ↦ rw z (reject_document-Concludes w n)
      ]
  conclude_handoff_attempt_lem waiting w n = reject_document-Concludes w n
  conclude_handoff_attempt_lem missing w n = reject_document-Concludes w n
