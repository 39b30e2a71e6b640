-- ===== src/Control/Invariants.antt =====
-- What stays true of a rollover however the events are ordered.
use mcp_session_router.Base.{◌<◌, ◌≡◌, sym, List, some}
use mathlib.Core.Path.{subst}
use mcp_session_router.Store.{TextFormat}
use mcp_session_router.Wrapper.{Wrapper, Host, PendingRespawn, HandoffRequest, requested}
use mcp_session_router.Rollovers.{Texts, missing, conclude_handoff_attempt}
use mcp_session_router.Control.{Moment, run}
use mcp_session_router.Control.Spec.{
  Exclusive, Stuck, IsElsewhere, reaches-Exclusive, reaches-Stuck,
}
use mcp_session_router.Control.Frame.{progress}
use mcp_session_router.Control.Stages.{asking, rejected_in_vain}
use mcp_session_router.Control.Refines.{run-Reaches}

module _ (F : TextFormat) where
  -- If at most one of the attempt, the ready document and the awaited successor exists, and an
  -- attempt is the first or the second, then this holds after any sequence of events.
  pub run-Exclusive :
      (ms : List Moment) (w : Wrapper F)
      → Exclusive (progress F w)
      → Exclusive (progress F (run F ms w))
  run-Exclusive ms w e = reaches-Exclusive (run-Reaches F ms w) e

  asking-Stuck :
      (host : Host) (texts : Texts) (p : PendingRespawn) (w : Wrapper F)
      → w.pending ≡ some p
      → IsElsewhere (some p.kind)
      → Stuck (asking F host texts (some (2, requested)) (progress F w))
  unfolding Stuck progress
  asking-Stuck host texts p w f k = (rw f k, tt)

  -- If a first attempt's answer is missing while a transition other than a rollover's request is
  -- pending, then after any sequence of events an attempt is requested but no pending transition
  -- carries its request.
  pub run-Stuck :
      (host : Host) (texts : Texts) (state : HandoffRequest) (p : PendingRespawn) (w : Wrapper F)
      (ms : List Moment)
      → state.attempts < 2
      → w.pending ≡ some p
      → IsElsewhere (some p.kind)
      → Stuck (progress F (run F ms (conclude_handoff_attempt F host texts state missing w).1))
  run-Stuck host texts state p w ms l f k = reaches-Stuck (run-Reaches F ms _) (
      subst Stuck (sym (rejected_in_vain F host texts state p w l f))
        (asking-Stuck host texts p w f k))
