-- ===== src/Moves/Back.antt =====
-- /back after a switch, and after itself.
use mcp_session_router.Base.{
  String, true, false, ◌≡◌, refl, ◌∙◌, sym, ap, ◌==◌, List, Bool-cases, inl, inr,
}
use mcp_session_router.Base.{Option, none, some, Result, ok, err}
use mcp_session_router.Base.Exec.{continue}
use mathlib.Core.Path.{subst}
use mcp_session_router.Session.{SessionMetadata}
use mcp_session_router.Store.{TextFormat, Directory}
use mcp_session_router.StateFile.{Transition, load_last_transition, clear_last_transition}
use mcp_session_router.StateFile.Keys.{load_last_transition-clear}
use mcp_session_router.Wrapper.{
  Wrapper, Host, PendingRespawn, RespawnKind, plain, undo, rollover_request, rollover_swap, modify,
  send, session_command, execute_transition, resolve_resume_conv, push_active_conversation,
  is_conv_eq, reported_conv_id,
}
use mcp_session_router.Wrapper.Transitions.{Same, Executes, execute_transition_lem}
use mcp_session_router.Moves

module _ (F : TextFormat) (host : Host) where
  saved-Same :
      (w : Wrapper F) (r : Result (Option SessionMetadata × Directory F))
      → Same F host w (Moves.saved_sessions F host w r)
  saved-Same w (ok r) = (refl, refl, refl)
  saved-Same w (err e) = (refl, refl, refl)

  recorded-Same :
      (t : Transition) (w : Wrapper F)
      → Same F host w (Moves.label_back F host t (Moves.record_back_precedent F host t w))
  unfolding Moves.record_back_precedent
  recorded-Same t w = saved-Same w _

  module _ (t : Transition) (conv : String) where
    -- The transition that goes back.
    abbrev pub GoesBack : Result (Unit {0}) → Wrapper F → Wrapper F → Type 0
    GoesBack r w w' =
        Executes F host t.from_session (some conv) (Moves.back_handoff F host t) t.user_prompt undo
          none r w w'

    sent-GoesBack :
        (r : Result (Unit {0})) (w u v : Wrapper F)
        → Same F host w u
        → GoesBack r u v
        → let x = continue r (λ y. modify F (send F (session_command "back" ""))) v in
          GoesBack x.0 w x.1
    sent-GoesBack (ok y) w u v s g = g
    sent-GoesBack (err e) w u v (a, b, c) (d, f, g) = (d ∙ a, f ∙ b, g ∙ c)

    undo_to-GoesBack :
        (w : Wrapper F)
        → w.pending ≡ none
        → let x = Moves.undo_to F host t (some conv) w in GoesBack x.0 w x.1
    undo_to-GoesBack w n =
        let u = Moves.label_back F host t (Moves.record_back_precedent F host t w) in
        let s = recorded-Same t w in
        let x =
          execute_transition F host t.from_session (some conv) (Moves.back_handoff F host t)
            t.user_prompt undo u in
        sent-GoesBack x.0 w u x.1 s (
          subst
            (λ o.
              Executes F host t.from_session (some conv) (Moves.back_handoff F host t) t.user_prompt
                undo o x.0 u x.1)
            (s.0 ∙ n)
            (execute_transition_lem F host t.from_session (some conv) (Moves.back_handoff F host t)
              t.user_prompt undo u))

    pub back_lem :
        (w : Wrapper F)
        → w.pending ≡ none
        → Moves.transition_to_undo F host w ≡ some t
        → resolve_resume_conv F host t.from_session w ≡ some conv
        → let x = Moves.handle_back_command F host w in GoesBack x.0 w x.1
    unfolding Moves.handle_back_command
    back_lem w n l r =
        subst (λ p. let x = Moves.back_unless F host p w in GoesBack x.0 w x.1) (sym n)
          (subst (λ o. let x = Moves.back_to F host o w in GoesBack x.0 w x.1) (sym l)
            (subst (λ c. let x = Moves.undo_to F host t c w in GoesBack x.0 w x.1) (sym r)
              (undo_to-GoesBack w n)))

  -- The transition that a switch leaves behind.
  abbrev pub undoable : String → PendingRespawn → Transition
  undoable origin p = record {
    from_session = origin;
    to_session = p.target;
    user_prompt = p.user_prompt;
  }

  push-sessions : (w : Wrapper F) → (push_active_conversation F w).sessions ≡ w.sessions
  unfolding push_active_conversation
  push-sessions w = elim (Bool-cases (is_conv_eq (reported_conv_id F w) w.pushed_conv_id)) [
    | inl e ↦ rw e refl
    | inr n ↦ rw n refl
  ]

  check_entry-fields :
      (conv : Option String) (w : Wrapper F)
      → let v = Moves.check_entry F host conv w in
        (v.last_transition ≡ w.last_transition)
        × (v.sessions ≡ w.sessions)
        × (v.state_file ≡ w.state_file)
  check_entry-fields (some c) w = (refl, refl, refl)
  check_entry-fields none w = (refl, refl, refl)

  settled_plain :
      (origin : String) (p : PendingRespawn) (w : Wrapper F)
      → p.from_name ≡ some origin
      → (origin == "") ≡ false
      → (p.target == "") ≡ false
      → let v = Moves.settle F host p plain w in
        (v.last_transition ≡ some (undoable origin p)) × (v.sessions ≡ w.sessions)
  unfolding Moves.record_last_transition
  settled_plain origin p w f o t =
      let (a, b, c) =
        check_entry-fields p.resume_conv
          (Moves.record_last_transition F host p.from_name p.target p.user_prompt w) in
      (a ∙ rw (f, o, t) refl, b ∙ rw (f, o, t) refl)

  spawned_plain :
      (origin : String) (p : PendingRespawn) (kind : RespawnKind)
      (line : List String × Option String) (w : Wrapper F)
      → kind ≡ plain
      → p.from_name ≡ some origin
      → (origin == "") ≡ false
      → (p.target == "") ≡ false
      → let v =
          Moves.settle F host p kind
            (Moves.reset_child_detection_state F host (Moves.launch F host line w)) in
        (v.last_transition ≡ some (undoable origin p)) × (v.sessions ≡ w.sessions)
  spawned_plain origin p plain line w k f o t =
      let (a, b) =
        settled_plain origin p
          (Moves.reset_child_detection_state F host (Moves.launch F host line w)) f o t in
      (a, b ∙ push-sessions _)
  spawned_plain origin p undo line w k f o t = cc
  spawned_plain origin p rollover_request line w k f o t = cc
  spawned_plain origin p rollover_swap line w k f o t = cc

  pub spawn_child-transition :
      (origin : String) (p : PendingRespawn) (args : List String) (w : Wrapper F)
      → w.pending ≡ some p
      → p.kind ≡ plain
      → p.from_name ≡ some origin
      → (origin == "") ≡ false
      → (p.target == "") ≡ false
      → let v = Moves.spawn_child F host args w in
        (v.pending ≡ none)
        × (v.last_transition ≡ some (undoable origin p))
        × (v.sessions ≡ w.sessions)
  unfolding Moves.spawn_child
  spawn_child-transition origin p args w n k f o t =
      subst
        (λ q.
          let v = Moves.spawn_for F host q args w in
          (v.pending ≡ none)
          × (v.last_transition ≡ some (undoable origin p))
          × (v.sessions ≡ w.sessions))
        (sym n) (let (a, b) = spawned_plain origin p p.kind _ w k f o t in (refl, a, b))

  -- Once the child of a switch between two non-empty names, from a session that can be resumed,
  -- has been started, /back resumes that session with the switch's prompt, as a transition of the
  -- undo kind with its target as the current session and its handoff in the file, unless it
  -- raises.
  pub back_after_switch :
      (origin conv : String) (p : PendingRespawn) (args : List String) (w : Wrapper F)
      → w.pending ≡ some p
      → p.kind ≡ plain
      → p.from_name ≡ some origin
      → (origin == "") ≡ false
      → (p.target == "") ≡ false
      → resolve_resume_conv F host origin w ≡ some conv
      → let v = Moves.spawn_child F host args w in
        let x = Moves.handle_back_command F host v in GoesBack (undoable origin p) conv x.0 v x.1
  unfolding resolve_resume_conv
  back_after_switch origin conv p args w n k f o t r =
      let (a, b, c) = spawn_child-transition origin p args w n k f o t in
      back_lem (undoable origin p) conv (Moves.spawn_child F host args w) a (rw b refl) (rw c r)

  spawned_undo :
      (p : PendingRespawn) (kind : RespawnKind) (line : List String × Option String) (w : Wrapper F)
      → kind ≡ undo
      → host.state_writable ≡ true
      → let v =
          Moves.settle F host p kind
            (Moves.reset_child_detection_state F host (Moves.launch F host line w)) in
        (v.last_transition ≡ none) × (load_last_transition F v.state_file ≡ none)
  spawned_undo p undo line w k s =
      let u = Moves.reset_child_detection_state F host (Moves.launch F host line w) in
      let file = clear_last_transition F host.state_writable u.state_file in
      let (a, b, c) =
        check_entry-fields p.resume_conv (record u { last_transition = none; state_file = file }) in
      (a, ap (load_last_transition F) c ∙ rw s (load_last_transition-clear F u.state_file).0)
  spawned_undo p plain line w k s = cc
  spawned_undo p rollover_request line w k s = cc
  spawned_undo p rollover_swap line w k s = cc

  back_to-none :
      (o : Option Transition) (w : Wrapper F) → o ≡ none → Moves.back_to F host o w ≡ (ok tt, w)
  back_to-none none w e = refl
  back_to-none (some t) w e = cc

  back_unless-none :
      (o : Option PendingRespawn) (w : Wrapper F)
      → o ≡ none
      → Moves.transition_to_undo F host w ≡ none
      → Moves.back_unless F host o w ≡ (ok tt, w)
  back_unless-none none w e t = back_to-none (Moves.transition_to_undo F host w) w t
  back_unless-none (some p) w e t = refl

  spawned_undo-back :
      (w : Wrapper F)
      → w.pending ≡ none
      → w.last_transition ≡ none
      → load_last_transition F w.state_file ≡ none
      → Moves.handle_back_command F host w ≡ (ok tt, w)
  unfolding Moves.handle_back_command
  spawned_undo-back w n l f = back_unless-none w.pending w n (rw l f)

  -- Once the child of a /back has been started and the state file could be written, another /back
  -- does nothing.
  pub back_after_back :
      (p : PendingRespawn) (args : List String) (w : Wrapper F)
      → w.pending ≡ some p
      → p.kind ≡ undo
      → host.state_writable ≡ true
      → let v = Moves.spawn_child F host args w in Moves.handle_back_command F host v ≡ (ok tt, v)
  unfolding Moves.spawn_child
  back_after_back p args w n k s =
      subst
        (λ q.
          let v = Moves.spawn_for F host q args w in
          Moves.handle_back_command F host v ≡ (ok tt, v))
        (sym n)
        (let (a, b) = spawned_undo p p.kind _ w k s in
          spawned_undo-back (Moves.spawn_for F host (some p) args w) refl a b)
