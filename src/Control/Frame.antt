-- ===== src/Control/Frame.antt =====
-- What is under way in a wrapper, and the handlers' parts that leave it alone.
use mcp_session_router.Base.{ℕ, String, ◌≡◌, refl, ◌∙◌, Bool, Bool-cases, inl, inr, true, false}
use mcp_session_router.Base.{Option, none, some, Result, ok, err}
use mcp_session_router.Base.Exec.{continue, ◌>>=◌}
use mcp_session_router.Session.{SessionMetadata}
use mcp_session_router.Store.{TextFormat, Directory}
use mcp_session_router.Queue.{QueueDir}
use mcp_session_router.Wrapper.{
  Wrapper, Action, Host, PendingRespawn, RespawnKind, plain, undo, rollover_request, rollover_swap,
  Phase, HandoffRequest, ReadyHandoff, SwapState, push_active_conversation, forget_conversation,
  is_conv_eq, reported_conv_id, reactivate_target, after_reactivate, after_enqueue, enqueue_summary,
  departed,
}
use mcp_session_router.Control.Spec.{Progress, at}

abbrev pub pending_kind : Option PendingRespawn → Option RespawnKind
pending_kind none = none
pending_kind (some p) = some p.kind

abbrev pub attempt : Option HandoffRequest → Option (ℕ × Phase)
attempt none = none
attempt (some r) = some (r.attempts, r.phase)

abbrev pub is_ready : Option ReadyHandoff → Bool
is_ready none = false
is_ready (some r) = true

abbrev pub is_swapping : Option SwapState → Bool
is_swapping none = false
is_swapping (some s) = true

module _ (F : TextFormat) where
  unfoldable pub progress : Wrapper F → Progress
  progress w =
      at (pending_kind w.pending) (attempt w.rollover.request) (is_ready w.rollover.ready)
        (is_swapping w.rollover.swap)

  abbrev pub KeepsProgress : {A : Type 0} → Action F A → Type 0
  KeepsProgress m = (w : Wrapper F) → progress (m w).1 ≡ progress w

  continue-KeepsProgress :
      {A B : Type 0} (r : Result A) (f : A → Action F B)
      → ((a : A) → KeepsProgress (f a))
      → KeepsProgress (continue r f)
  continue-KeepsProgress (ok a) f k w = k a w
  continue-KeepsProgress (err e) f k w = refl

  pub bind-KeepsProgress :
      {A B : Type 0} (m : Action F A) (f : A → Action F B)
      → KeepsProgress m
      → ((a : A) → KeepsProgress (f a))
      → KeepsProgress (m >>= f)
  bind-KeepsProgress m f j k w = continue-KeepsProgress (m w).0 f k (m w).1 ∙ j w

  pub push-progress : (w : Wrapper F) → progress (push_active_conversation F w) ≡ progress w
  unfolding push_active_conversation progress
  push-progress w = elim (Bool-cases (is_conv_eq (reported_conv_id F w) w.pushed_conv_id)) [
    | inl e ↦ rw e refl
    | inr n ↦ rw n refl
  ]

  pub forget-progress : (w : Wrapper F) → progress (forget_conversation F w) ≡ progress w
  unfolding forget_conversation progress
  forget-progress w = push-progress _

  module _ (host : Host) where
    after_reactivate-progress :
        (w : Wrapper F) (r : Result (Option SessionMetadata × Directory F))
        → progress (after_reactivate F host w r) ≡ progress w
    unfolding progress
    after_reactivate-progress w (ok r) = refl
    after_reactivate-progress w (err e) = refl

    pub reactivate_target-progress :
        (target : String) (w : Wrapper F)
        → progress (reactivate_target F host target w) ≡ progress w
    unfolding reactivate_target
    reactivate_target-progress target w = after_reactivate-progress w _

    after_enqueue-progress :
        (w : Wrapper F) (r : Result (Bool × QueueDir F))
        → progress (after_enqueue F host w r).1 ≡ progress w
    unfolding progress
    after_enqueue-progress w (ok r) = refl
    after_enqueue-progress w (err e) = refl

    pub enqueue_summary-progress :
        (kind : String) (name conv : Option String)
        → KeepsProgress (enqueue_summary F host kind name conv)
    unfolding enqueue_summary
    enqueue_summary-progress kind (some name) (some conv) w = after_enqueue-progress w _
    enqueue_summary-progress kind (some name) none w = refl
    enqueue_summary-progress kind none conv w = refl

    pub departed-progress :
        (kind : RespawnKind) (name : Option String) → KeepsProgress (departed F host kind name)
    departed-progress rollover_request name w = refl
    departed-progress rollover_swap name w = refl
    departed-progress plain name w = enqueue_summary-progress _ name _ w
    departed-progress undo name w = enqueue_summary-progress _ name _ w
