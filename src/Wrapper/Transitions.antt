-- ===== src/Wrapper/Transitions.antt =====
-- What a transition registers, and when it is dropped.
use mcp_session_router.Base.{String, Bool, false, ◌≡◌, refl, ◌∙◌}
use mcp_session_router.Base.{Option, none, some, Result, ok, err}
use mcp_session_router.Base.Exec.{continue}
use mcp_session_router.Json.{Fields}
use mcp_session_router.Session.{SessionMetadata}
use mcp_session_router.Store.{TextFormat, Directory}
use mcp_session_router.Queue.{QueueDir}
use mcp_session_router.Handoffs.{take_file, write_file, pending_fields}
use mcp_session_router.Wrapper.{
  Wrapper, Host, PendingRespawn, RespawnKind, plain, undo, rollover_request, rollover_swap, modify,
  reactivate_target, after_reactivate, after_enqueue, enqueue_summary, departed, transition_unless,
  execute_transition, register, name_in_handoff, without_prompt, from_text,
}

module _ (F : TextFormat) (host : Host) where
  -- What decides how the hook and the next child go on.
  abbrev pub Same : Wrapper F → Wrapper F → Type 0
  Same w v =
      (v.pending ≡ w.pending)
      × (v.current_session_name ≡ w.current_session_name)
      × (v.pending_file ≡ w.pending_file)

  after_reactivate-Same :
      (w : Wrapper F) (r : Result (Option SessionMetadata × Directory F))
      → Same w (after_reactivate F host w r)
  after_reactivate-Same w (ok r) = (refl, refl, refl)
  after_reactivate-Same w (err e) = (refl, refl, refl)

  after_enqueue-Same :
      (w : Wrapper F) (r : Result (Bool × QueueDir F)) → Same w (after_enqueue F host w r).1
  after_enqueue-Same w (ok r) = (refl, refl, refl)
  after_enqueue-Same w (err e) = (refl, refl, refl)

  enqueue_summary-Same :
      (kind : String) (name conv : Option String) (w : Wrapper F)
      → Same w (enqueue_summary F host kind name conv w).1
  unfolding enqueue_summary
  enqueue_summary-Same kind (some name) (some conv) w = after_enqueue-Same w _
  enqueue_summary-Same kind (some name) none w = (refl, refl, refl)
  enqueue_summary-Same kind none conv w = (refl, refl, refl)

  departed-Same :
      (kind : RespawnKind) (name : Option String) (w : Wrapper F)
      → Same w (departed F host kind name w).1
  departed-Same rollover_request name w = (refl, refl, refl)
  departed-Same rollover_swap name w = (refl, refl, refl)
  departed-Same plain name w = enqueue_summary-Same _ name _ w
  departed-Same undo name w = enqueue_summary-Same _ name _ w

  module _ (target : String) (conv : Option String) (handoff : Fields) (prompt : String)
      (kind : RespawnKind) where
    abbrev pub registered : PendingRespawn
    registered = record {
      target = target;
      resume_conv = conv;
      from_name = from_text F host handoff;
      user_prompt = prompt;
      kind = kind;
      terminated = false;
    }

    -- Dropped while another transition is under way; registered, with the handoff ready for the
    -- hook, once it is done; with nothing registered when it fails.
    abbrev pub Executes : Option PendingRespawn → Result (Unit {0}) → Wrapper F → Wrapper F → Type 0
    Executes (some p) r w w' = (r ≡ ok tt) × (w' ≡ w)
    Executes none (ok x) w w' =
        (w'.pending ≡ some registered)
        × (w'.current_session_name ≡ some target)
        × (take_file F w'.pending_file
            ≡ (some (pending_fields target (without_prompt handoff) prompt host.now), none))
    Executes none (err e) w w' = Same w w'

    continue-Executes :
        (r : Result (Unit {0})) (w v : Wrapper F)
        → Same w v
        → let x = continue r (λ y. modify F (register F host target conv handoff prompt kind)) v in
          Executes none x.0 w x.1
    unfolding take_file write_file
    continue-Executes (ok y) w v s = (refl, refl, rw F.loads-dumps refl)
    continue-Executes (err e) w v s = s

    unless-Executes :
        (p : Option PendingRespawn) (w : Wrapper F)
        → let x = transition_unless F host p target conv handoff prompt kind w in
          Executes p x.0 w x.1
    unfolding reactivate_target
    unless-Executes (some p) w = (refl, refl)
    unless-Executes none w =
        let v = reactivate_target F host target w in
        let x = departed F host kind (name_in_handoff handoff) v in
        let (a, b, c) = departed-Same kind (name_in_handoff handoff) v in
        let (d, e, f) = after_reactivate-Same w _ in
        continue-Executes x.0 w x.1 (a ∙ d, b ∙ e, c ∙ f)

    -- While another transition is pending a new one changes nothing. Otherwise it either succeeds,
    -- and is registered with its target as the current session and with a handoff file that holds
    -- its target, handoff and prompt, or raises, and the pending transition, the current session
    -- and the handoff file stay as they were.
    pub execute_transition_lem :
        (w : Wrapper F)
        → let x = execute_transition F host target conv handoff prompt kind w in
          Executes w.pending x.0 w x.1
    unfolding execute_transition
    execute_transition_lem w = unless-Executes w.pending w
