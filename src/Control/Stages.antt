-- ===== src/Control/Stages.antt =====
-- What the steps of a rollover mean for the progress.
use mcp_session_router.Base.{
  ℕ, ◌<◌, String, ◌≡◌, refl, sym, Bool-cases, inl, inr, ltb, ltb→lt, lt→ltb, Option-cases,
}
use mcp_session_router.Base.{Option, none, some}
use mcp_session_router.Store.{TextFormat}
use mcp_session_router.Wrapper.{
  Wrapper, Host, PendingRespawn, rollover_request, Phase, requested, writing, HandoffRequest,
  ReadyHandoff, SwapState, is_conv_eq, current_conv_id,
}
use mcp_session_router.Rollovers.{
  Texts, TurnStatus, waiting, missing, answered, start_handoff_turn, with_rollover, swap_if,
  start_rollover_swap, accept_document, reject_document, conclude_handoff_attempt,
  validate_handoff_text, finish_with, finish_handoff_turn, begin_if, begin_unless, swap_or_begin,
  advance_phase, advance_from, advance_rollover,
}
use mcp_session_router.Control.Spec.{
  Progress, at, ask, ask_again, ask_in_vain, accept, accept_later, swap, Reaches, here, one,
  reaches_of, reaches_trans, over,
}
use mcp_session_router.Control.Frame.{progress}
use mcp_session_router.Control.Moving.{request-progress, swap-progress, busy-progress}

module _ (F : TextFormat) (host : Host) (texts : Texts) where
  -- A state with another attempt.
  abbrev pub asking : Option (ℕ × Phase) → Progress → Progress
  asking a (at pending asked ready swapping) = at pending a ready swapping

  start_idle :
      (session conv_id : String) (n : ℕ) (w : Wrapper F)
      → w.pending ≡ none
      → progress F (start_handoff_turn F host texts session conv_id n w).1
        ≡ over (some rollover_request) (asking (some (n, requested)) (progress F w))
  unfolding start_handoff_turn progress
  start_idle session conv_id n w e = request-progress F host session _ _ _ _ e

  start_busy :
      (session conv_id : String) (n : ℕ) (p : PendingRespawn) (w : Wrapper F)
      → w.pending ≡ some p
      → progress F (start_handoff_turn F host texts session conv_id n w).1
        ≡ asking (some (n, requested)) (progress F w)
  unfolding start_handoff_turn progress
  start_busy session conv_id n p w e = busy-progress F host session _ _ _ rollover_request p _ e

  reattempt :
      (state : HandoffRequest) (w : Wrapper F)
      → w.rollover.request ≡ some state
      → state.phase ≡ writing
      → state.attempts < 2
      → Reaches (progress F w) (
          progress F
            (start_handoff_turn F host texts state.session state.conv_id 2
              (with_rollover F (λ r. record r { request = none }) w)).1)
  unfolding progress
  reattempt state w e p l = elim (Option-cases w.pending) [
    | inr (q, f) ↦ reaches_trans (one (rw (f, e, p) (ask_in_vain l))) (
        reaches_of (
          sym (
            start_busy state.session state.conv_id 2 q
              (with_rollover F (λ r. record r { request = none }) w) f)))
    | inl n ↦ reaches_trans (one (rw (n, e, p) (ask_again l))) (
        reaches_of (
          sym (
            start_idle state.session state.conv_id 2
              (with_rollover F (λ r. record r { request = none }) w) n)))
  ]

  swap_idle :
      (ready : Option ReadyHandoff) (pending : Option PendingRespawn) (w : Wrapper F)
      → w.rollover.ready ≡ ready
      → w.rollover.request ≡ none
      → w.pending ≡ pending
      → Reaches (progress F w) (progress F (swap_if F host texts ready pending w).1)
  unfolding progress
  swap_idle none pending w r e f = here
  swap_idle (some ready) (some p) w r e f = here
  swap_idle (some ready) none w r e f =
      reaches_trans (one (rw (r, e, f) swap))
        (reaches_of (sym (swap-progress F host ready.session _ _ _ _ f)))

  pub start_rollover_swap-Reaches :
      (w : Wrapper F)
      → w.rollover.request ≡ none
      → Reaches (progress F w) (progress F (start_rollover_swap F host texts w).1)
  unfolding start_rollover_swap
  start_rollover_swap-Reaches w e = swap_idle w.rollover.ready w.pending w refl e refl

  accepted-Reaches :
      (state : HandoffRequest) (ready : ReadyHandoff) (pending : Option PendingRespawn)
      (w : Wrapper F)
      → w.pending ≡ pending
      → w.rollover.request ≡ some state
      → state.phase ≡ writing
      → Reaches (progress F w) (
          progress F
            (swap_if F host texts
              (some ready)
              pending
              (with_rollover F (λ r. record r { request = none; ready = some ready }) w)).1)
  unfolding progress
  accepted-Reaches state ready (some p) w f e g = one (rw (f, e, g) accept_later)
  accepted-Reaches state ready none w f e g =
      reaches_trans (one (rw (f, e, g) accept))
        (reaches_of (sym (swap-progress F host ready.session _ _ _ _ f)))

  accept_document-Reaches :
      (state : HandoffRequest) (text : String) (w : Wrapper F)
      → w.rollover.request ≡ some state
      → state.phase ≡ writing
      → Reaches (progress F w) (progress F (accept_document F host texts state text w).1)
  unfolding start_rollover_swap progress
  accept_document-Reaches state text w e g = accepted-Reaches state _ w.pending _ refl e g

  reject_document-Reaches :
      (state : HandoffRequest) (w : Wrapper F)
      → w.rollover.request ≡ some state
      → state.phase ≡ writing
      → Reaches (progress F w) (progress F (reject_document F host texts state w).1)
  reject_document-Reaches state w e g = elim (Bool-cases (ltb state.attempts 2)) [
    | inl y ↦ rw y (reattempt state w e g (ltb→lt state.attempts 2 y))
    | inr n ↦ rw n (accept_document-Reaches state _ w e g)
  ]

  -- A first attempt that fails while another transition is under way.
  pub rejected_in_vain :
      (state : HandoffRequest) (p : PendingRespawn) (w : Wrapper F)
      → state.attempts < 2
      → w.pending ≡ some p
      → progress F (conclude_handoff_attempt F host texts state missing w).1
        ≡ asking (some (2, requested)) (progress F w)
  unfolding conclude_handoff_attempt progress
  rejected_in_vain state p w l f = rw (lt→ltb state.attempts 2 l) (
      start_busy state.session state.conv_id 2 p
        (with_rollover F (λ r. record r { request = none }) w) f)

  pub conclude_handoff_attempt-Reaches :
      (state : HandoffRequest) (status : TurnStatus) (w : Wrapper F)
      → w.rollover.request ≡ some state
      → state.phase ≡ writing
      → Reaches (progress F w) (progress F (conclude_handoff_attempt F host texts state status w).1)
  unfolding conclude_handoff_attempt
  conclude_handoff_attempt-Reaches state (answered text) w e g =
      elim (Bool-cases (validate_handoff_text text)) [
        | inl y ↦ rw y (accept_document-Reaches state text w e g)
        | inr n ↦ rw n (reject_document-Reaches state w e g)
      ]
  conclude_handoff_attempt-Reaches state waiting w e g = reject_document-Reaches state w e g
  conclude_handoff_attempt-Reaches state missing w e g = reject_document-Reaches state w e g

  finish_with-Reaches :
      (state : HandoffRequest) (status : TurnStatus) (w : Wrapper F)
      → w.rollover.request ≡ some state
      → state.phase ≡ writing
      → Reaches (progress F w) (progress F (finish_with F host texts state status w).1)
  finish_with-Reaches state waiting w e g = here
  finish_with-Reaches state missing w e g = conclude_handoff_attempt-Reaches state missing w e g
  finish_with-Reaches state (answered text) w e g =
      conclude_handoff_attempt-Reaches state (answered text) w e g

  module _ (turn : String → String → TurnStatus) where
    pub finish_handoff_turn-Reaches :
        (state : HandoffRequest) (w : Wrapper F)
        → w.rollover.request ≡ some state
        → state.phase ≡ writing
        → Reaches (progress F w) (progress F (finish_handoff_turn F host texts turn state w).1)
    finish_handoff_turn-Reaches state w e g = finish_with-Reaches state _ w e g

    first_attempt :
        (session conv_id : String) (w : Wrapper F)
        → w.rollover.request ≡ none
        → w.rollover.ready ≡ none
        → w.rollover.swap ≡ none
        → w.pending ≡ none
        → Reaches
            (progress F w)
            (progress F (start_handoff_turn F host texts session conv_id 1 w).1)
    unfolding progress
    first_attempt session conv_id w e r s n =
        reaches_trans (one (rw (e, r, s, n) ask))
          (reaches_of (sym (start_idle session conv_id 1 w n)))

    begin_if-Reaches :
        (conv session : Option String) (w : Wrapper F)
        → w.rollover.request ≡ none
        → w.rollover.ready ≡ none
        → w.rollover.swap ≡ none
        → w.pending ≡ none
        → Reaches (progress F w) (progress F (begin_if F host texts turn conv session w).1)
    begin_if-Reaches (some conv_id) (some session) w e r s n =
        elim (Bool-cases (is_conv_eq (some conv_id) (current_conv_id F host w))) [
          | inl y ↦ rw y (first_attempt session conv_id w e r s n)
          | inr y ↦ rw y here
        ]
    begin_if-Reaches (some conv_id) none w e r s n = here
    begin_if-Reaches none session w e r s n = here

    begin_unless-Reaches :
        (o : Option SwapState) (pending : Option PendingRespawn) (w : Wrapper F)
        → w.rollover.request ≡ none
        → w.rollover.ready ≡ none
        → w.rollover.swap ≡ o
        → w.pending ≡ pending
        → Reaches (progress F w) (progress F (begin_unless F host texts turn o pending w).1)
    begin_unless-Reaches none none w e r s n = begin_if-Reaches _ _ w e r s n
    begin_unless-Reaches none (some p) w e r s n = here
    begin_unless-Reaches (some o) pending w e r s n = here

    swap_or_begin-Reaches :
        (ready : Option ReadyHandoff) (w : Wrapper F)
        → w.rollover.request ≡ none
        → w.rollover.ready ≡ ready
        → Reaches (progress F w) (progress F (swap_or_begin F host texts turn ready w).1)
    swap_or_begin-Reaches (some ready) w e r = start_rollover_swap-Reaches w e
    swap_or_begin-Reaches none w e r = begin_unless-Reaches _ _ w e r refl refl

    advance_phase-Reaches :
        (state : HandoffRequest) (phase : Phase) (w : Wrapper F)
        → w.rollover.request ≡ some state
        → state.phase ≡ phase
        → Reaches (progress F w) (progress F (advance_phase F host texts turn state phase w).1)
    advance_phase-Reaches state writing w e g = finish_handoff_turn-Reaches state w e g
    advance_phase-Reaches state requested w e g = here

    advance_from-Reaches :
        (o : Option HandoffRequest) (w : Wrapper F)
        → w.rollover.request ≡ o
        → Reaches (progress F w) (progress F (advance_from F host texts turn o w).1)
    advance_from-Reaches (some state) w e = advance_phase-Reaches state state.phase w e refl
    advance_from-Reaches none w e = swap_or_begin-Reaches _ w e refl

    pub advance_rollover-Reaches :
        (w : Wrapper F)
        → Reaches (progress F w) (progress F (advance_rollover F host texts turn w).1)
    unfolding advance_rollover
    advance_rollover-Reaches w = advance_from-Reaches _ w refl
