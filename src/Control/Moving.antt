-- ===== src/Control/Moving.antt =====
-- What a transition, a child's start and its end mean for the progress.
use mcp_session_router.Base.{String, ◌≡◌, refl, ◌∙◌, sym, ap, ◌⊎◌, inl, inr}
use mcp_session_router.Base.{Option, none, some, Result, ok, err}
use mcp_session_router.Base.Exec.{continue}
use mcp_session_router.Json.{Fields}
use mcp_session_router.Store.{TextFormat}
use mcp_session_router.Wrapper.{
  Wrapper, Host, PendingRespawn, RespawnKind, rollover_request, rollover_swap, modify, departed,
  transition_idle, transition_unless, execute_transition, register, name_in_handoff,
  reactivate_target,
}
use mcp_session_router.Control.Spec.{
  move, Reaches, here, one, reaches_of, reaches_trans, over, IsMove,
}
use mcp_session_router.Control.Frame.{progress, departed-progress, reactivate_target-progress}

module _ (F : TextFormat) (host : Host) where
  module _ (target : String) (conv : Option String) (handoff : Fields) (prompt : String)
      (kind : RespawnKind) where
    abbrev Outcome : Wrapper F → Wrapper F → Type 0
    Outcome w w' =
        (progress F w' ≡ progress F w) ⊎ (progress F w' ≡ over (some kind) (progress F w))

    registered-Outcome :
        (r : Result (Unit {0})) (w v : Wrapper F)
        → progress F v ≡ progress F w
        → Outcome w
            (continue r (λ y. modify F (register F host target conv handoff prompt kind)) v).1
    unfolding progress
    registered-Outcome (ok x) w v e = inr (ap (over (some kind)) e)
    registered-Outcome (err x) w v e = inl e

    transition_idle-Outcome :
        (w : Wrapper F) → Outcome w (transition_idle F host target conv handoff prompt kind w).1
    transition_idle-Outcome w =
        let v = reactivate_target F host target w in
        registered-Outcome (departed F host kind (name_in_handoff handoff) v).0 w
          (departed F host kind (name_in_handoff handoff) v).1
          (departed-progress F host kind (name_in_handoff handoff) v
            ∙ reactivate_target-progress F host target w)

    move-Reaches :
        (w w' : Wrapper F)
        → w.pending ≡ none
        → IsMove kind
        → Outcome w w'
        → Reaches (progress F w) (progress F w')
    unfolding progress
    move-Reaches w w' e m (inl s) = reaches_of (sym s)
    move-Reaches w w' e m (inr s) = reaches_trans (one (rw e (move m))) (reaches_of (sym s))

    unless-Reaches :
        (p : Option PendingRespawn) (w : Wrapper F)
        → w.pending ≡ p
        → IsMove kind
        → Reaches
            (progress F w)
            (progress F (transition_unless F host p target conv handoff prompt kind w).1)
    unless-Reaches (some p) w e m = here
    unless-Reaches none w e m = move-Reaches w _ e m (transition_idle-Outcome w)

    pub execute_transition-Reaches :
        (w : Wrapper F)
        → IsMove kind
        → Reaches
            (progress F w)
            (progress F (execute_transition F host target conv handoff prompt kind w).1)
    unfolding execute_transition
    execute_transition-Reaches w m = unless-Reaches w.pending w refl m

  module _ (target : String) (conv : Option String) (handoff : Fields) (prompt : String) where
    request-Outcome :
        (p : Option PendingRespawn) (w : Wrapper F)
        → p ≡ none
        → progress F (transition_unless F host p target conv handoff prompt rollover_request w).1
          ≡ over (some rollover_request) (progress F w)
    unfolding progress
    request-Outcome (some p) w e = cc
    request-Outcome none w e =
        ap (over (some rollover_request)) (reactivate_target-progress F host target w)

    swap-Outcome :
        (p : Option PendingRespawn) (w : Wrapper F)
        → p ≡ none
        → progress F (transition_unless F host p target conv handoff prompt rollover_swap w).1
          ≡ over (some rollover_swap) (progress F w)
    unfolding progress
    swap-Outcome (some p) w e = cc
    swap-Outcome none w e =
        ap (over (some rollover_swap)) (reactivate_target-progress F host target w)

    pub request-progress :
        (w : Wrapper F)
        → w.pending ≡ none
        → progress F (execute_transition F host target conv handoff prompt rollover_request w).1
          ≡ over (some rollover_request) (progress F w)
    unfolding execute_transition
    request-progress w e = request-Outcome w.pending w e

    pub swap-progress :
        (w : Wrapper F)
        → w.pending ≡ none
        → progress F (execute_transition F host target conv handoff prompt rollover_swap w).1
          ≡ over (some rollover_swap) (progress F w)
    unfolding execute_transition
    swap-progress w e = swap-Outcome w.pending w e

    dropped-progress :
        (kind : RespawnKind) (q : Option PendingRespawn) (p : PendingRespawn) (w : Wrapper F)
        → q ≡ some p
        → progress F (transition_unless F host q target conv handoff prompt kind w).1 ≡ progress F w
    dropped-progress kind none p w e = cc
    dropped-progress kind (some q) p w e = refl

    pub busy-progress :
        (kind : RespawnKind) (p : PendingRespawn) (w : Wrapper F)
        → w.pending ≡ some p
        → progress F (execute_transition F host target conv handoff prompt kind w).1 ≡ progress F w
    unfolding execute_transition
    busy-progress kind p w e = dropped-progress kind w.pending p w e
