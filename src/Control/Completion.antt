-- ===== src/Control/Completion.antt =====
-- A rollover from its request to the registered swap.
use mcp_session_router.Base.{
  String, Bool-cases, true, false, inl, inr, ◌==◌, ◌≡◌, refl, ◌∙◌, ap, eq_refl, arith, List,
}
use mcp_session_router.Base.{Option, none, some}
use mcp_session_router.Base.Text.{strip}
use mcp_session_router.Base.Dict.{insert}
use mathlib.Core.Path.{subst, sym}
use mcp_session_router.Store.{TextFormat}
use mcp_session_router.Handoffs.{file_pending}
use mcp_session_router.Wrapper.{
  Wrapper, Host, PendingRespawn, RespawnKind, plain, undo, rollover_request, rollover_swap,
  HandoffRequest, writing, push_active_conversation, is_conv_eq, reported_conv_id,
}
use mcp_session_router.Moves
use mcp_session_router.Rollovers.{
  handoff_name, Texts, answered, validate_handoff_text, conclude_handoff_attempt,
}
use mcp_session_router.Rollovers.Outcome.{Concludes, document_of, conclude_handoff_attempt_lem}
use mcp_session_router.Control
use mcp_session_router.Control.{Readings, turn_end, child_exit, handle, handle_turn_end_signal}

module _ (F : TextFormat) (host : Host) (texts : Texts) (readings : Readings) where
  -- What a rollover reads of the wrapper.
  abbrev Same : Wrapper F → Wrapper F → Type 0
  Same w v = (v.pending ≡ w.pending) × (v.rollover ≡ w.rollover) × (v.documents ≡ w.documents)

  push-Same : (w : Wrapper F) → Same w (push_active_conversation F w)
  unfolding push_active_conversation
  push-Same w = elim (Bool-cases (is_conv_eq (reported_conv_id F w) w.pushed_conv_id)) [
    | inl e ↦ rw e (refl, refl, refl)
    | inr n ↦ rw n (refl, refl, refl)
  ]

  clear_delivered-Same :
      (o : Option String) (w : Wrapper F)
      → Same w (Control.clear_delivered F host texts readings o w)
  clear_delivered-Same none w = (refl, refl, refl)
  clear_delivered-Same (some c) w = elim (Bool-cases (file_pending F w.notice_file)) [
    | inl y ↦ rw y (refl, refl, refl)
    | inr n ↦ rw n (refl, refl, refl)
  ]

  adopt-Same :
      (conv_id : String) (w : Wrapper F) → Same w (Control.adopt F host texts readings conv_id w)
  adopt-Same conv_id w =
      let u = record w { active_conv_from_hook = some conv_id } in
      let w' = push_active_conversation F u in
      let (a, b, c) = clear_delivered-Same w'.stale_notice_conv w' in
      let (d, e, f) = push-Same u in (a ∙ d, b ∙ e, c ∙ f)

  abbrev writes : HandoffRequest → HandoffRequest
  writes state = record state { phase = writing }

  settled :
      (p : PendingRespawn) (kind : RespawnKind) (state : HandoffRequest)
      (line : List String × Option String) (w : Wrapper F)
      → kind ≡ rollover_request
      → w.rollover.request ≡ some state
      → let v =
          Moves.settle F host p kind
            (Moves.reset_child_detection_state F host (Moves.launch F host line w)) in
        (v.rollover.request ≡ some (writes state)) × (v.documents ≡ w.documents)
  settled p rollover_request state line w k r =
      let (a, b, c) =
        push-Same (record (Moves.launch F host line w) { active_conv_from_hook = none }) in
      (ap (λ x. Moves.start_writing F host x.request) b ∙ rw r refl, c)
  settled p plain state line w k r = cc
  settled p undo state line w k r = cc
  settled p rollover_swap state line w k r = cc

  spawned :
      (p : PendingRespawn) (state : HandoffRequest) (args : List String) (w : Wrapper F)
      → w.pending ≡ some p
      → p.kind ≡ rollover_request
      → w.rollover.request ≡ some state
      → let v = (handle F host texts readings (child_exit args) w).1 in
        (v.pending ≡ none)
        × (v.rollover.request ≡ some (writes state))
        × (v.documents ≡ w.documents)
  unfolding handle Moves.spawn_child
  spawned p state args w n k r =
      subst
        (λ o.
          let v = Control.respawn_if F host texts readings o args w in
          (v.pending ≡ none)
          × (v.rollover.request ≡ some (writes state))
          × (v.documents ≡ w.documents))
        (sym n)
        (subst
          (λ o.
            let v = Moves.spawn_for F host o args w in
            (v.pending ≡ none)
            × (v.rollover.request ≡ some (writes state))
            × (v.documents ≡ w.documents))
          (sym n) (let (a, b) = settled p p.kind state _ w k r in (refl, a, b)))

  concluded :
      (state : HandoffRequest) (text : String) (w v : Wrapper F)
      → validate_handoff_text text ≡ true
      → v.pending ≡ none
      → v.documents ≡ w.documents
      → Concludes F host texts state
          (some text)
          w
          (conclude_handoff_attempt F host texts state (answered text) v).1
  unfolding document_of
  concluded state text w v y n d =
      let same : document_of F host texts state (answered text) ≡ some text = rw y refl in
      let (a, b, c, s, q) =
        subst
          (λ o.
            Concludes F host texts state o v
              (conclude_handoff_attempt F host texts state (answered text) v).1)
          same (conclude_handoff_attempt_lem F host texts state (answered text) v n) in
      (a ∙ ap (λ ds. insert (handoff_name state.session state.number) text ds) d, b, c, s, q)

  given_text : (text : String) → validate_handoff_text text ≡ true → (strip text == "") ≡ false
  unfolding validate_handoff_text
  given_text text y = elim (Bool-cases (strip text == "")) [
    | inl b ↦ absurd (ground arith)
    | inr n ↦ n
  ]

  ended :
      (state : HandoffRequest) (text : String) (o : Option HandoffRequest) (w v : Wrapper F)
      → o ≡ some (writes state)
      → validate_handoff_text text ≡ true
      → v.pending ≡ none
      → v.documents ≡ w.documents
      → Concludes F host texts
          (writes state)
          (some text)
          w
          (Control.end_turn F host texts readings state.conv_id (some text) o v).1
  ended state text o w v r y n d =
      subst
        (λ q.
          Concludes F host texts (writes state) (some text) w
            (Control.end_turn F host texts readings state.conv_id (some text) q v).1)
        (sym r)
        (rw (eq_refl state.conv_id, given_text text y) (concluded (writes state) text w v y n d))

  -- When a rollover's request in a conversation with a non-empty id is pending, the start of its
  -- child and the end of that child's turn with a valid answer write the answer as the document,
  -- end the attempt and register the swap to a new conversation.
  pub rollover_completes :
      (p : PendingRespawn) (state : HandoffRequest) (args : List String) (text : String)
      (w : Wrapper F)
      → w.pending ≡ some p
      → p.kind ≡ rollover_request
      → w.rollover.request ≡ some state
      → (state.conv_id == "") ≡ false
      → validate_handoff_text text ≡ true
      → let u = (handle F host texts readings (child_exit args) w).1 in
        Concludes F host texts
          (writes state)
          (some text)
          w
          (handle F host texts readings (turn_end state.conv_id (some text)) u).1
  unfolding handle handle_turn_end_signal
  rollover_completes p state args text w n k r c y =
      let u = (handle F host texts readings (child_exit args) w).1 in
      let v = Control.adopt F host texts readings state.conv_id u in
      let (a, b, d) = spawned p state args w n k r in
      let (e, f, g) = adopt-Same state.conv_id u in
      rw c (ended state text v.rollover.request w v (ap (λ x. x.request) f ∙ b) y (e ∙ a) (g ∙ d))
