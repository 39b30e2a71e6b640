-- ===== src/Control/Finishing.antt =====
-- What the end of a rollover means for the progress.
use mcp_session_router.Base.{
  String, ◌≡◌, refl, ◌∙◌, sym, ap, Bool-cases, inl, inr, false, ◌||◌, ◌==◌,
}
use mcp_session_router.Base.{Option, none, some, Result, ok, err}
use mcp_session_router.Base.Exec.{continue}
use mcp_session_router.Session.{SessionMetadata}
use mcp_session_router.Store.{TextFormat, Directory}
use mcp_session_router.Wrapper.{
  Wrapper, Host, SwapState, current_conv_id, modify, enqueue_active_summary,
}
use mcp_session_router.Rollovers.{
  Texts, finalize_swap, finalize_rollover, end_swap, relinked, link_successor, poll_with,
  poll_rollover_finalize, still_assigned,
}
use mcp_session_router.Control.Spec.{
  Progress, at, finish, Reaches, here, one, reaches_of, reaches_trans,
}
use mcp_session_router.Control.Frame.{progress, enqueue_summary-progress}

module _ (F : TextFormat) (host : Host) (texts : Texts) where
  -- The same progress without an awaited successor.
  abbrev unawaited : Progress → Progress
  unawaited (at pending asked ready swapping) = at pending asked ready false

  ended-Reaches :
      (r : Result (Unit {0})) (state : SwapState) (w v : Wrapper F)
      → w.rollover.swap ≡ some state
      → progress F v ≡ progress F w
      → Reaches (progress F w) (progress F (continue r (λ y. modify F (end_swap F host texts)) v).1)
  unfolding progress
  ended-Reaches (err x) state w v s e = reaches_of (sym e)
  ended-Reaches (ok x) state w v s e =
      reaches_trans (one (rw s finish)) (reaches_of (sym (ap unawaited e)))

  relinked-progress :
      (w : Wrapper F) (r : Result (Option SessionMetadata × Directory F))
      → progress F (relinked F host texts w r) ≡ progress F w
  unfolding progress
  relinked-progress w (ok r) = refl
  relinked-progress w (err e) = refl

  finalize_swap-Reaches :
      (o : Option SwapState) (conv_id : String) (w : Wrapper F)
      → w.rollover.swap ≡ o
      → Reaches (progress F w) (progress F (finalize_swap F host texts o conv_id w).1)
  finalize_swap-Reaches none conv_id w s = here
  finalize_swap-Reaches (some state) conv_id w s =
      elim (Bool-cases (conv_id == state.predecessor_conv)) [
        | inl y ↦ rw y here
        | inr n ↦
            let v = link_successor F host texts state conv_id w in
            rw n (
              ended-Reaches (enqueue_active_summary F host v).0 state w
                (enqueue_active_summary F host v).1 s
                (enqueue_summary-progress F host _ _ _ v ∙ relinked-progress w _))
      ]

  pub finalize_rollover-Reaches :
      (conv_id : String) (w : Wrapper F)
      → Reaches (progress F w) (progress F (finalize_rollover F host texts conv_id w).1)
  unfolding finalize_rollover
  finalize_rollover-Reaches conv_id w = finalize_swap-Reaches _ conv_id w refl

  poll_with-Reaches :
      (conv : Option String) (o : Option SwapState) (w : Wrapper F)
      → Reaches (progress F w) (progress F (poll_with F host texts conv o w).1)
  poll_with-Reaches (some conv_id) (some state) w =
      elim (Bool-cases
        (conv_id == state.predecessor_conv || still_assigned F host texts conv_id w)) [
          | inl y ↦ rw y here
          | inr n ↦ rw n (finalize_rollover-Reaches conv_id w)
        ]
  poll_with-Reaches (some conv_id) none w = here
  poll_with-Reaches none o w = here

  pub poll_rollover_finalize-Reaches :
      (w : Wrapper F)
      → Reaches (progress F w) (progress F (poll_rollover_finalize F host texts w).1)
  unfolding poll_rollover_finalize
  poll_rollover_finalize-Reaches w = poll_with-Reaches (current_conv_id F host w) w.rollover.swap w
