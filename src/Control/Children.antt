-- ===== src/Control/Children.antt =====
-- What a child's start and end, /back and a typed command mean for the progress.
use mcp_session_router.Base.{
  String, ◌≡◌, refl, ◌∙◌, sym, ap, Bool, Bool-cases, inl, inr, true, false, ◌||◌, ◌==◌,
  if◌then◌else◌, List,
}
use mcp_session_router.Base.{Option, none, some, Result, ok, err}
use mcp_session_router.Base.Exec.{continue, ◌>>◌}
use mcp_session_router.Session.{SessionMetadata}
use mcp_session_router.Store.{TextFormat, Directory}
use mcp_session_router.StateFile.{Transition}
use mcp_session_router.Wrapper.{
  Wrapper, Host, PendingRespawn, RespawnKind, plain, undo, rollover_request, rollover_swap, modify,
  execute_transition, HandoffRequest, session_command, send, forget_conversation,
  enqueue_active_summary,
}
use mcp_session_router.Moves.{
  SessionCommand, resume, exit, rename, new, is_rename, command_name, command_args,
  record_last_transition, non_empty, remember, start_writing, check_entry, settle, launch,
  reset_child_detection_state, spawn_for, terminate, maybe_terminate_for_respawn, saved_sessions,
  record_back_precedent, label_back, undo_to, back_to, back_unless, transition_to_undo,
  handle_back_command, drop_for, drop_on_move, drop_if_resumed, drop_precedents_on_manual_move,
  observe_session_command, back_handoff,
}
use mcp_session_router.Control.Spec.{
  Progress, at, spawn, started, Reaches, here, one, reaches_of, reaches_trans,
}
use mcp_session_router.Control.Frame.{
  progress, attempt, KeepsProgress, push-progress, forget-progress, enqueue_summary-progress,
}
use mcp_session_router.Control.Moving.{execute_transition-Reaches}

module _ (F : TextFormat) (host : Host) where
  -- The progress once the child has been started.
  abbrev spawned : RespawnKind → Progress → Progress
  spawned kind (at pending asked ready swapping) = at none (started kind asked) ready swapping

  remember-progress :
      (a b : Option String) (prompt : String) (w : Wrapper F)
      → progress F (remember F host a b prompt w) ≡ progress F w
  unfolding progress
  remember-progress (some a) (some b) prompt w = refl
  remember-progress (some a) none prompt w = refl
  remember-progress none b prompt w = refl

  check_entry-progress :
      (conv : Option String) (w : Wrapper F) → progress F (check_entry F host conv w) ≡ progress F w
  unfolding progress
  check_entry-progress (some conv_id) w = refl
  check_entry-progress none w = refl

  written-attempt :
      (o : Option HandoffRequest)
      → attempt (start_writing F host o) ≡ started rollover_request (attempt o)
  written-attempt none = refl
  written-attempt (some r) = refl

  without_pending : Progress → Progress
  without_pending (at pending asked ready swapping) = at none asked ready swapping

  settle-progress :
      (p : PendingRespawn) (kind : RespawnKind) (w : Wrapper F)
      → progress F (record (settle F host p kind w) { pending = none })
        ≡ spawned kind (progress F w)
  unfolding progress without_pending record_last_transition
  settle-progress p rollover_request w = rw (written-attempt w.rollover.request) refl
  settle-progress p rollover_swap w = refl
  settle-progress p undo w = ap without_pending (check_entry-progress p.resume_conv _)
  settle-progress p plain w = ap without_pending (
      check_entry-progress p.resume_conv _
      ∙ remember-progress (non_empty F host p.from_name) (non_empty F host (some p.target))
          p.user_prompt w)

  reset-progress :
      (w : Wrapper F) → progress F (reset_child_detection_state F host w) ≡ progress F w
  unfolding progress
  reset-progress w = push-progress F _

  child-Reaches :
      (p : PendingRespawn) (line : List String × Option String) (w : Wrapper F)
      → w.pending ≡ some p
      → Reaches (progress F w) (
          progress F
            (record (settle F host p p.kind
              (reset_child_detection_state F host (launch F host line w))) { pending = none }))
  unfolding progress
  child-Reaches p line w e =
      let v = reset_child_detection_state F host (launch F host line w) in
      reaches_trans {q = spawned p.kind (progress F w)} (one (rw e spawn)) (
        reaches_of (
          sym (
            settle-progress p p.kind v
            ∙ ap (spawned p.kind) (reset-progress (launch F host line w)))))

  pub spawn_for-Reaches :
      (p : PendingRespawn) (args : List String) (w : Wrapper F)
      → w.pending ≡ some p
      → Reaches (progress F w) (progress F (spawn_for F host (some p) args w))
  spawn_for-Reaches p args w e = child-Reaches p _ w e

  terminate-progress :
      (busy : Bool) (o : Option PendingRespawn) (w : Wrapper F)
      → w.pending ≡ o
      → progress F (terminate F host busy o w) ≡ progress F w
  unfolding progress
  terminate-progress busy none w e = refl
  terminate-progress busy (some p) w e = elim (Bool-cases (p.terminated || busy)) [
    | inl y ↦ rw y refl
    | inr n ↦ rw n (rw e refl)
  ]

  pub maybe_terminate-progress :
      (busy : Bool) (w : Wrapper F)
      → progress F (maybe_terminate_for_respawn F host busy w) ≡ progress F w
  maybe_terminate-progress busy w = terminate-progress busy w.pending w refl

  saved-progress :
      (w : Wrapper F) (r : Result (Option SessionMetadata × Directory F))
      → progress F (saved_sessions F host w r) ≡ progress F w
  unfolding progress
  saved-progress w (ok r) = refl
  saved-progress w (err e) = refl

  precedent-progress :
      (t : Transition) (w : Wrapper F)
      → progress F (record_back_precedent F host t w) ≡ progress F w
  unfolding record_back_precedent
  precedent-progress t w = saved-progress w _

  sent-progress :
      (r : Result (Unit {0})) (v : Wrapper F)
      → progress F (continue r (λ x. modify F (send F (session_command "back" ""))) v).1
        ≡ progress F v
  unfolding progress
  sent-progress (ok x) v = refl
  sent-progress (err e) v = refl

  labelled-progress :
      (t : Transition) (w : Wrapper F) → progress F (label_back F host t w) ≡ progress F w
  unfolding progress
  labelled-progress t w = refl

  undo_to-Reaches :
      (t : Transition) (o : Option String) (w : Wrapper F)
      → Reaches (progress F w) (progress F (undo_to F host t o w).1)
  undo_to-Reaches t none w = here
  undo_to-Reaches t (some conv) w =
      let v = label_back F host t (record_back_precedent F host t w) in
      let x =
        execute_transition F host t.from_session (some conv) (back_handoff F host t) t.user_prompt
          undo v in
      reaches_trans
        (reaches_of
          (sym (labelled-progress t (record_back_precedent F host t w) ∙ precedent-progress t w)))
        (reaches_trans
          (execute_transition-Reaches F host t.from_session (some conv) (back_handoff F host t)
            t.user_prompt undo v tt)
          (reaches_of (sym (sent-progress x.0 x.1))))

  back_to-Reaches :
      (o : Option Transition) (w : Wrapper F)
      → Reaches (progress F w) (progress F (back_to F host o w).1)
  back_to-Reaches none w = here
  back_to-Reaches (some t) w = undo_to-Reaches t _ w

  back_unless-Reaches :
      (o : Option PendingRespawn) (w : Wrapper F)
      → Reaches (progress F w) (progress F (back_unless F host o w).1)
  back_unless-Reaches (some p) w = here
  back_unless-Reaches none w = back_to-Reaches (transition_to_undo F host w) w

  pub handle_back_command-Reaches :
      (w : Wrapper F) → Reaches (progress F w) (progress F (handle_back_command F host w).1)
  unfolding handle_back_command
  handle_back_command-Reaches w = back_unless-Reaches w.pending w

  drop_for-progress :
      (kept_in : String) (o : Option String) (w : Wrapper F)
      → progress F (drop_for F host kept_in o w) ≡ progress F w
  drop_for-progress kept_in none w = refl
  drop_for-progress kept_in (some target) w = elim (Bool-cases (target == kept_in)) [
    | inl y ↦ rw y refl
    | inr n ↦ rw n (saved-progress w _)
  ]

  drop_on_move-progress :
      (o : Option String) (arg : String) (w : Wrapper F)
      → progress F (drop_on_move F host o arg w) ≡ progress F w
  drop_on_move-progress none arg w = refl
  drop_on_move-progress (some kept_in) arg w = drop_for-progress kept_in _ w

  drop_if_resumed-progress :
      (c : SessionCommand) (w : Wrapper F) → progress F (drop_if_resumed F host c w) ≡ progress F w
  unfolding drop_precedents_on_manual_move
  drop_if_resumed-progress (resume arg) w = elim (Bool-cases (arg == "")) [
    | inl y ↦ rw y refl
    | inr n ↦ rw n (drop_on_move-progress w.current_session_name arg w)
  ]
  drop_if_resumed-progress exit w = refl
  drop_if_resumed-progress rename w = refl
  drop_if_resumed-progress new w = refl

  forgotten-progress :
      (b : Bool) (w : Wrapper F)
      → progress F (if b then w else forget_conversation F w) ≡ progress F w
  forgotten-progress true w = refl
  forgotten-progress false w = forget-progress F w

  observed-progress :
      (c : SessionCommand) (r : Result (Unit {0})) (v : Wrapper F)
      → progress F
          (continue r
            (λ x.
              modify F (drop_if_resumed F host c)
              >> modify F (send F (session_command (command_name c) (command_args c))))
            v).1
        ≡ progress F v
  unfolding progress
  observed-progress c (ok x) v = drop_if_resumed-progress c v
  observed-progress c (err e) v = refl

  pub observe_session_command-progress :
      (c : SessionCommand) → KeepsProgress F (observe_session_command F host c)
  unfolding observe_session_command
  observe_session_command-progress c w =
      let v = if is_rename c then w else forget_conversation F w in
      let x = enqueue_active_summary F host v in
      observed-progress c x.0 x.1
      ∙ (enqueue_summary-progress F host _ _ _ v ∙ forgotten-progress (is_rename c) w)
