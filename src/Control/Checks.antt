-- ===== src/Control/Checks.antt =====
-- The checks after a turn leave the progress of a rollover alone.
use mcp_session_router.Base.{
  String, ◌≡◌, refl, ◌∙◌, Bool, Bool-cases, inl, inr, true, false, ◌||◌, ◌&&◌, not, ◌==◌,
  if◌then◌else◌, List, contains, Option-cases,
}
use mcp_session_router.Base.{Option, none, some, Result, ok, err}
use mcp_session_router.Base.Int.{ℤ, int_le}
use mcp_session_router.Session.{SessionMetadata}
use mcp_session_router.Store.{TextFormat, list_sessions, load_session_by_name}
use mcp_session_router.ContextMonitor.{ContextUsage}
use mcp_session_router.Wrapper.{Wrapper, Host, is_conv_eq, last_id, current_conv_id}
use mcp_session_router.Rollovers.{Texts, with_rollover}
use mcp_session_router.Control
use mcp_session_router.Control.{
  Readings, sole_ids, is_idle, check_stale_conv_entry, check_summary_refresh, check_usage,
}
use mcp_session_router.Control.Frame.{progress, KeepsProgress, enqueue_summary-progress}

module _ (F : TextFormat) (host : Host) (texts : Texts) (readings : Readings) where
  abbrev pub Kept : (Wrapper F → Wrapper F) → Type 0
  Kept f = (w : Wrapper F) → progress F (f w) ≡ progress F w

  warn_unless_latest-Kept :
      (session conv_id : String) (sole : List String)
      → Kept (Control.warn_unless_latest F host texts readings session conv_id sole)
  unfolding progress
  warn_unless_latest-Kept session conv_id sole w = elim (Option-cases (last_id sole)) [
    | inl n ↦ rw (Control.warn_unless_latest, n) refl
    | inr (latest, y) ↦
        rw (Control.warn_unless_latest, y)
          (elim (Bool-cases (contains sole conv_id && not (conv_id == latest))) [
            | inl b ↦ rw b refl
            | inr b ↦ rw b refl
          ])
  ]

  warn_for-Kept :
      (session conv_id : String) (o : Option SessionMetadata) (ss : List SessionMetadata)
      → Kept (Control.warn_for F host texts readings session conv_id o ss)
  warn_for-Kept session conv_id none ss w = refl
  warn_for-Kept session conv_id (some s) ss w =
      warn_unless_latest-Kept session conv_id (sole_ids s ss) w

  warn_in-Kept :
      (session : Option String) (conv_id : String) (r : Result (List SessionMetadata))
      → Kept (Control.warn_in F host texts readings session conv_id r)
  warn_in-Kept (some session) conv_id (ok ss) w = warn_for-Kept session conv_id _ ss w
  warn_in-Kept (some session) conv_id (err e) w = refl
  warn_in-Kept none conv_id r w = refl

  pub check_stale_conv_entry-Kept :
      (conv_id : String) → Kept (check_stale_conv_entry F host texts readings conv_id)
  unfolding check_stale_conv_entry
  check_stale_conv_entry-Kept conv_id w =
      elim (Bool-cases (
        is_idle F host texts readings w.rollover.request w.rollover.swap w.rollover.ready w.pending
        && not (contains w.stale_conv_warned conv_id))) [
          | inl y ↦
              rw y (warn_in-Kept w.current_session_name conv_id (list_sessions F w.sessions) w)
          | inr n ↦ rw n refl
        ]

  with_birth-Kept :
      (conv_id : String) (trigger : ℤ) (birth : Option ℤ)
      → Kept (Control.with_birth F host texts readings conv_id trigger birth)
  unfolding progress
  with_birth-Kept conv_id trigger none w = refl
  with_birth-Kept conv_id trigger (some birth) w = elim (Bool-cases (int_le trigger birth)) [
    | inl y ↦ rw y refl
    | inr n ↦ rw n refl
  ]

  judge_usage-Kept :
      (conv_id : String) (usage : Option ContextUsage)
      → Kept (Control.judge_usage F host texts readings conv_id usage)
  unfolding progress
  judge_usage-Kept conv_id none w = refl
  judge_usage-Kept conv_id (some usage) w =
      elim (Bool-cases (
        not usage.exceeded
        || is_conv_eq w.rollover.pending_conv_id (some conv_id)
        || is_conv_eq w.rollover.suppressed_conv_id (some conv_id))) [
          | inl y ↦ rw y refl
          | inr n ↦ rw n (with_birth-Kept conv_id usage.trigger_tokens _ w)
        ]

  drop_entry-Kept :
      (b : Bool) → Kept (λ w. if b then w else Control.entry_checked F host texts readings w)
  unfolding progress
  drop_entry-Kept true w = refl
  drop_entry-Kept false w = refl

  drop_due-Kept :
      (b : Bool)
      → Kept (λ w. if b then w else with_rollover F (λ r. record r { pending_conv_id = none }) w)
  unfolding progress
  drop_due-Kept true w = refl
  drop_due-Kept false w = refl

  drop_others-Kept : (conv_id : String) → Kept (Control.drop_others F host texts readings conv_id)
  drop_others-Kept conv_id w =
      let b = is_conv_eq w.rollover.pending_conv_id (some conv_id) in
      let w' = if b then w else with_rollover F (λ r. record r { pending_conv_id = none }) w in
      drop_entry-Kept (is_conv_eq w'.entry_check_conv_id (some conv_id)) w' ∙ drop_due-Kept b w

  check_usage_of-Kept : (o : Option String) → Kept (Control.check_usage_of F host texts readings o)
  check_usage_of-Kept none w = refl
  check_usage_of-Kept (some conv_id) w =
      elim (Bool-cases (is_conv_eq w.stale_notice_conv (some conv_id))) [
        | inl y ↦ rw y refl
        | inr n ↦ rw n (
            judge_usage-Kept conv_id (Control.usage_of F host texts readings conv_id)
              (Control.drop_others F host texts readings conv_id w)
            ∙ drop_others-Kept conv_id w)
      ]

  pub check_usage-Kept : Kept (check_usage F host texts readings)
  unfolding check_usage
  check_usage-Kept w = check_usage_of-Kept (current_conv_id F host w) w

  refresh_session-progress :
      (conv_id : String) (r : Result (Option SessionMetadata))
      → KeepsProgress F (Control.refresh_session F host texts readings conv_id r)
  refresh_session-progress conv_id (err e) w = refl
  refresh_session-progress conv_id (ok none) w = refl
  refresh_session-progress conv_id (ok (some s)) w =
      elim (Bool-cases (Control.has_grown F host texts readings s conv_id)) [
        | inl y ↦ rw y (enqueue_summary-progress F host _ _ _ w)
        | inr n ↦ rw n refl
      ]

  refresh_for-progress :
      (session conv : Option String)
      → KeepsProgress F (Control.refresh_for F host texts readings session conv)
  refresh_for-progress (some session) (some conv_id) w =
      refresh_session-progress conv_id (load_session_by_name F session w.sessions) w
  refresh_for-progress (some session) none w = refl
  refresh_for-progress none conv w = refl

  pub check_summary_refresh-progress : KeepsProgress F (check_summary_refresh F host texts readings)
  unfolding check_summary_refresh
  check_summary_refresh-progress w =
      refresh_for-progress w.current_session_name (current_conv_id F host w) w
