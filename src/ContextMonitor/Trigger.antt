-- ===== src/ContextMonitor/Trigger.antt =====
-- The trigger of a rollover: its bounds, and when it is exceeded.
use mcp_session_router.Base.{
  ℕ, zero, suc, leb, ◌/◌, Option-cases, Bool-cases, inl, inr, ◌≤◌, ◌*◌, String, ◌≡◌, refl, true,
  arith, List,
}
use mcp_session_router.Base.{Option, none, some}
use mcp_session_router.Base.Int.{ℤ, pos, negsuc, int_le}
use mcp_session_router.Json.{Json, Fields}
use mcp_session_router.ContextMonitor.{
  ContextUsage, RolloverConfig, load_rollover_config, trigger_for, check_context_usage, or_tail,
  used_of_record, fresh_record, usage_for, Used,
}
use mathlib.Core.Path.{subst}

trigger_for-bounded :
    (window : Option ℤ) (pct limit : ℕ) → int_le (trigger_for window pct limit) (pos limit) ≡ true
unfolding trigger_for
trigger_for-bounded none pct limit = ground arith
trigger_for-bounded (some (pos w)) pct limit = ground arith
trigger_for-bounded (some (negsuc w)) zero limit = ground arith
trigger_for-bounded (some (negsuc w)) (suc pct) limit = ground arith

trigger_for-share :
    (w pct limit : ℕ)
    → (t : ℕ) × (trigger_for (some (pos w)) pct limit ≡ pos t) × (t * 100 ≤ w * pct)
unfolding trigger_for
trigger_for-share w pct limit = elim (Bool-cases (leb (w * pct / 100) limit)) [
  | inl e ↦ (w * pct / 100, rw e refl, omega arith)
  | inr n ↦ (limit, rw n refl, ground arith)
]

-- The trigger is at most the share of a window that is known.
abbrev pub IsShare : Option ℤ → ℕ → ℤ → Type 0
IsShare (some (pos w)) pct trigger = (t : ℕ) × (trigger ≡ pos t) × (t * 100 ≤ w * pct)
IsShare _ pct trigger = Unit {0}

abbrev pub WithinLimits : RolloverConfig → ContextUsage → Type 0
WithinLimits config u =
    (int_le u.trigger_tokens (pos config.cap_tokens) ≡ true)
    × (u.exceeded ≡ int_le u.trigger_tokens u.used_tokens)
    × IsShare u.window_tokens config.threshold_pct u.trigger_tokens

trigger_for-IsShare :
    (window : Option ℤ) (pct limit : ℕ) → IsShare window pct (trigger_for window pct limit)
trigger_for-IsShare (some (pos w)) pct limit = trigger_for-share w pct limit
trigger_for-IsShare (some (negsuc w)) pct limit = tt
trigger_for-IsShare none pct limit = tt

usage_for-WithinLimits :
    (config : RolloverConfig) (fresh : Option Fields) (used : Used)
    → WithinLimits config (usage_for config fresh used)
usage_for-WithinLimits config fresh used = (
  trigger_for-bounded _ config.threshold_pct config.cap_tokens,
  refl,
  trigger_for-IsShare _ config.threshold_pct config.cap_tokens,
)

-- An answer's trigger is at most the configured cap and at most the configured share of a known
-- non-negative window, and the usage exceeds it exactly if it is at least the trigger.
pub check_context_usage_lem :
    (config_file status_record : Option Json) (lines : List (Option Json)) (conv_id : String)
    (u : ContextUsage)
    → check_context_usage config_file status_record lines conv_id ≡ some u
    → WithinLimits (load_rollover_config config_file) u
unfolding check_context_usage
check_context_usage_lem config_file status_record lines conv_id u h =
    elim (Option-cases (or_tail (used_of_record (fresh_record status_record conv_id)) lines)) [
      | inl e ↦ absurd (ground arith)
      | inr (used, e) ↦
          let config = load_rollover_config config_file in
          let fresh = fresh_record status_record conv_id in
          let same : usage_for config fresh used ≡ u = ground arith in
          subst (WithinLimits config) same (usage_for-WithinLimits config fresh used)
    ]
