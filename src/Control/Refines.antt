-- ===== src/Control/Refines.antt =====
-- Every handler takes the progress along the steps of the abstract view.
use mcp_session_router.Base.{
  String, ◌≡◌, refl, ◌∙◌, sym, Bool, Bool-cases, inl, inr, true, ◌&&◌, ◌==◌, List, [], ◌∷◌,
}
use mcp_session_router.Base.{Option, none, some, Result, ok, err}
use mcp_session_router.Base.Exec.{continue, ◌>>◌}
use mathlib.Core.Path.{subst}
use mcp_session_router.Store.{TextFormat}
use mcp_session_router.Handoffs.{file_pending}
use mcp_session_router.Wrapper.{
  Wrapper, Host, PendingRespawn, plain, Phase, requested, writing, HandoffRequest, SwapState,
  modify, is_conv_eq, current_conv_id, handle_handshake_request, push_active_conversation,
}
use mcp_session_router.Moves.{spawn_child, spawn_for}
use mcp_session_router.Rollovers.{Texts, advance_rollover}
use mcp_session_router.Control
use mcp_session_router.Control.{
  Readings, Event, turn_end, context_update, switch_signal, new_signal, back_signal,
  rollover_signal, current_session_signal, handshake_request, typed, transcript_changed, loop_poll,
  child_exit, check_summary_refresh, check_usage, after_turn, on_turn_end, adopt,
  handle_turn_end_signal, handle, Moment, run,
}
use mcp_session_router.Control.Spec.{Reaches, here, reaches_of, reaches_trans}
use mcp_session_router.Control.Frame.{progress, push-progress}
use mcp_session_router.Control.Moving.{execute_transition-Reaches}
use mcp_session_router.Control.Children.{
  spawn_for-Reaches, maybe_terminate-progress, handle_back_command-Reaches,
  observe_session_command-progress,
}
use mcp_session_router.Control.Stages.{
  conclude_handoff_attempt-Reaches, finish_handoff_turn-Reaches, advance_rollover-Reaches,
}
use mcp_session_router.Control.Finishing.{finalize_rollover-Reaches, poll_rollover_finalize-Reaches}
use mcp_session_router.Control.Checks.{
  Kept, check_usage-Kept, check_summary_refresh-progress, check_stale_conv_entry-Kept,
}

module _ (F : TextFormat) (host : Host) (texts : Texts) (readings : Readings) where
  advanced-Reaches :
      (r : Result (Unit {0})) (v : Wrapper F)
      → Reaches (progress F v) (
          progress F
            (continue r
              (λ x.
                modify F (check_usage F host texts readings)
                >> advance_rollover F host texts readings.turn)
              v).1)
  advanced-Reaches (err e) v = here
  advanced-Reaches (ok x) v =
      reaches_trans (reaches_of (sym (check_usage-Kept F host texts readings v)))
        (advance_rollover-Reaches F host texts readings.turn (check_usage F host texts readings v))

  after_turn-Reaches :
      (w : Wrapper F) → Reaches (progress F w) (progress F (after_turn F host texts readings w).1)
  after_turn-Reaches w =
      let x = check_summary_refresh F host texts readings w in
      reaches_trans (reaches_of (sym (check_summary_refresh-progress F host texts readings w)))
        (advanced-Reaches x.0 x.1)

  stale_entry-Kept :
      (o : Option String)
      → Kept F host texts readings (Control.stale_entry_of F host texts readings o)
  stale_entry-Kept none w = refl
  stale_entry-Kept (some conv_id) w = check_stale_conv_entry-Kept F host texts readings conv_id w

  on_turn_end-Reaches :
      (w : Wrapper F) → Reaches (progress F w) (progress F (on_turn_end F host texts readings w).1)
  unfolding on_turn_end
  on_turn_end-Reaches w =
      let v = Control.stale_entry_of F host texts readings (current_conv_id F host w) w in
      reaches_trans (reaches_of (sym (stale_entry-Kept (current_conv_id F host w) w)))
        (after_turn-Reaches v)

  clear_delivered-Kept :
      (o : Option String)
      → Kept F host texts readings (Control.clear_delivered F host texts readings o)
  unfolding progress
  clear_delivered-Kept none w = refl
  clear_delivered-Kept (some conv_id) w = elim (Bool-cases (file_pending F w.notice_file)) [
    | inl y ↦ rw y refl
    | inr n ↦ rw n refl
  ]

  adopt-Kept : (conv_id : String) → Kept F host texts readings (adopt F host texts readings conv_id)
  unfolding progress
  adopt-Kept conv_id w =
      let v = record w { active_conv_from_hook = some conv_id } in
      let w' = push_active_conversation F v in
      clear_delivered-Kept w'.stale_notice_conv w' ∙ push-progress F v

  ordinary_end-Reaches :
      (conv_id : String) (o : Option SwapState) (w : Wrapper F)
      → Reaches
          (progress F w)
          (progress F (Control.ordinary_end F host texts readings conv_id o w).1)
  ordinary_end-Reaches conv_id (some s) w = finalize_rollover-Reaches F host texts conv_id w
  ordinary_end-Reaches conv_id none w =
      reaches_trans (reaches_of (sym (check_stale_conv_entry-Kept F host texts readings conv_id w)))
        (after_turn-Reaches _)

  is_writing→writing :
      (phase : Phase) (b : Bool)
      → Control.is_writing F host texts readings phase && b ≡ true
      → phase ≡ writing
  is_writing→writing writing b e = refl
  is_writing→writing requested b e = cc

  writes : (phase : Phase) → Control.is_writing F host texts readings phase ≡ true → phase ≡ writing
  writes writing e = refl
  writes requested e = cc

  end_turn-Reaches :
      (conv_id : String) (text : Option String) (o : Option HandoffRequest) (w : Wrapper F)
      → w.rollover.request ≡ o
      → Reaches
          (progress F w)
          (progress F (Control.end_turn F host texts readings conv_id text o w).1)
  end_turn-Reaches conv_id text none w e = ordinary_end-Reaches conv_id w.rollover.swap w
  end_turn-Reaches conv_id text (some state) w e =
      elim (Bool-cases
        (Control.is_writing F host texts readings state.phase && state.conv_id == conv_id)) [
          | inl y ↦ rw y (
              conclude_handoff_attempt-Reaches F host texts state
                (Control.status_of F host texts readings text) w e (is_writing→writing _ _ y))
          | inr n ↦ rw n (ordinary_end-Reaches conv_id w.rollover.swap w)
        ]

  handle_turn_end_signal-Reaches :
      (conv_id : String) (text : Option String) (w : Wrapper F)
      → Reaches
          (progress F w)
          (progress F (handle_turn_end_signal F host texts readings conv_id text w).1)
  unfolding handle_turn_end_signal
  handle_turn_end_signal-Reaches conv_id text w = elim (Bool-cases (conv_id == "")) [
    | inl y ↦ rw y here
    | inr n ↦
        let w' = adopt F host texts readings conv_id w in
        rw n (
          reaches_trans (reaches_of (sym (adopt-Kept conv_id w)))
            (end_turn-Reaches conv_id text w'.rollover.request w' refl))
  ]

  mark_due-Kept :
      (o : Option String) → Kept F host texts readings (Control.mark_due F host texts readings o)
  unfolding progress
  mark_due-Kept none w = refl
  mark_due-Kept (some conv_id) w = refl

  adopt_session-Kept :
      (o : Option PendingRespawn) (name : Option String)
      → Kept F host texts readings (Control.adopt_session F host texts readings o name)
  unfolding progress
  adopt_session-Kept none name w = refl
  adopt_session-Kept (some p) name w = elim (Bool-cases (is_conv_eq name (some p.target))) [
    | inl y ↦ rw y refl
    | inr n ↦ rw n refl
  ]

  respawn_if-Reaches :
      (o : Option PendingRespawn) (args : List String) (w : Wrapper F)
      → w.pending ≡ o
      → Reaches (progress F w) (progress F (Control.respawn_if F host texts readings o args w))
  unfolding spawn_child
  respawn_if-Reaches none args w e = here
  respawn_if-Reaches (some p) args w e =
      subst (λ q. Reaches (progress F w) (progress F (spawn_for F host q args w))) (sym e)
        (spawn_for-Reaches F host p args w e)

  poll_transcript-Reaches :
      (o : Option HandoffRequest) (w : Wrapper F)
      → w.rollover.request ≡ o
      → Reaches (progress F w) (progress F (Control.poll_transcript F host texts readings o w).1)
  poll_transcript-Reaches none w e = here
  poll_transcript-Reaches (some state) w e =
      elim (Bool-cases (Control.is_writing F host texts readings state.phase)) [
        | inl y ↦ rw y (
            finish_handoff_turn-Reaches F host texts readings.turn state w e (writes state.phase y))
        | inr n ↦ rw n here
      ]

  handshake-Kept :
      (name : Option String) → Kept F host texts readings (handle_handshake_request F name)
  unfolding handle_handshake_request progress
  handshake-Kept name w = refl

  -- PLACEHOLDER
  pub handle-Reaches :
      (event : Event) (w : Wrapper F)
      → Reaches (progress F w) (progress F (handle F host texts readings event w).1)
  unfolding handle
  handle-Reaches (turn_end conv_id text) w = handle_turn_end_signal-Reaches conv_id text w
  handle-Reaches context_update w = on_turn_end-Reaches w
  handle-Reaches (switch_signal target handoff prompt) w =
      execute_transition-Reaches F host target _ handoff prompt plain w tt
  handle-Reaches (new_signal name handoff prompt) w =
      execute_transition-Reaches F host name none handoff prompt plain w tt
  handle-Reaches back_signal w = handle_back_command-Reaches F host w
  handle-Reaches (rollover_signal conv) w = reaches_of (sym (mark_due-Kept _ w))
  handle-Reaches (current_session_signal name) w =
      reaches_of (sym (adopt_session-Kept w.pending name w))
  handle-Reaches (handshake_request name) w = reaches_of (sym (handshake-Kept name w))
  handle-Reaches (typed c) w = reaches_of (sym (observe_session_command-progress F host c w))
  handle-Reaches transcript_changed w = poll_transcript-Reaches w.rollover.request w refl
  handle-Reaches (loop_poll busy) w =
      reaches_trans (reaches_of (sym (maybe_terminate-progress F host busy w)))
        (poll_rollover_finalize-Reaches F host texts _)
  handle-Reaches (child_exit args) w = respawn_if-Reaches w.pending args w refl

module _ (F : TextFormat) where
  -- Any sequence of events takes what is under way in the wrapper (the pending transition, the
  -- attempt at a handoff document, the ready document and the awaited successor) along steps of
  -- the abstract machine.
  pub run-Reaches :
      (ms : List Moment) (w : Wrapper F) → Reaches (progress F w) (progress F (run F ms w))
  unfolding run
  run-Reaches [] w = here
  run-Reaches (m ∷ ms) w =
      reaches_trans (handle-Reaches F m.host m.texts m.readings m.event w) (run-Reaches ms _)
