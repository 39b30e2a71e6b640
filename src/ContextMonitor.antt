-- ===== src/ContextMonitor.antt =====
-- src/session_manager/wrapper/context_monitor.py: how full a conversation's context is, and whether
-- a rollover is due. The configuration, the record of the status line and the lines of the
-- transcript are the JSON values that were read, `none` where the reading fails.
pub mod Trigger
use mcp_session_router.Base.{
  ℕ, suc, String, Bool, true, false, ◌==◌, ◌&&◌, not, if◌then◌else◌, starts_with, List, [], ◌∷◌,
}
use mcp_session_router.Base.{Option, none, some}
use mcp_session_router.Base.Int.{ℤ, pos, negsuc, add, int_le, int_min, is_positive, percent}
use mcp_session_router.Base.Text.{has_part}
use mcp_session_router.Json.{Json, bool, int, str, obj, Fields, get}

abbrev pub default_rollover_threshold_pct : ℕ
default_rollover_threshold_pct = 60

abbrev pub default_rollover_absolute_cap_tokens : ℕ
default_rollover_absolute_cap_tokens = 120000

abbrev pub nominal_window_tokens : ℕ
nominal_window_tokens = 200000

abbrev pub one_million_window_tokens : ℕ
one_million_window_tokens = 1000000

pub data Source : Type 0 where
  statusline transcript override mapping cap_only : Source

pub record ContextUsage : Type 0 where
  pub used_tokens : ℤ
  pub window_tokens : Option ℤ
  pub trigger_tokens : ℤ
  pub exceeded : Bool
  pub numerator_source : Source
  pub denominator_source : Source

-- `model_id` is None where it is no text.
unfoldable pub window_for_model : Option String → Option ℕ
window_for_model none = none
window_for_model (some model_id) =
    if starts_with model_id "claude"
    then (if has_part "[1m]" model_id
        then some one_million_window_tokens
        else some nominal_window_tokens)
    else none

-- isinstance(v, int), of which a bool is one
abbrev pub int_of : Option Json → Option ℤ
int_of (some (int n)) = some n
int_of (some (bool true)) = some (pos 1)
int_of (some (bool false)) = some (pos 0)
int_of _ = none

abbrev pub text_of : Option Json → Option String
text_of (some (str s)) = some s
text_of _ = none

abbrev int_or_zero : Option ℤ → ℤ
int_or_zero none = pos 0
int_or_zero (some n) = n

-- The sum over USAGE_FIELDS.
unfoldable pub total_tokens : Fields → ℤ
total_tokens usage =
    add
      (add (int_or_zero (int_of (get "input_tokens" usage)))
        (int_or_zero (int_of (get "cache_read_input_tokens" usage))))
      (int_or_zero (int_of (get "cache_creation_input_tokens" usage)))

abbrev usage_of_message : Option Json → Option (Fields × Option String)
usage_of_message (some (obj message)) = elim (get "usage" message) [
  | some (obj usage) ↦ some (usage, text_of (get "model" message))
  | _ ↦ none
]
usage_of_message _ = none

abbrev is_assistant : Fields → Bool
is_assistant event = elim (text_of (get "type" event)) [
  | none ↦ false
  | some kind ↦ kind == "assistant"
]

-- The usage of a line's message, with its model, if it is an assistant's.
abbrev pub usage_of_line : Option Json → Option (Fields × Option String)
usage_of_line (some (obj event)) =
    if is_assistant event then usage_of_message (get "message" event) else none
usage_of_line _ = none

abbrev newer_model : Option String → Option String → Option String
newer_model none model = model
newer_model (some m) model = some m

abbrev after_line :
    Option (Fields × Option String) → Option Fields × Option String → Option Fields × Option String
after_line none (usage, model) = (usage, model)
after_line (some (u, m)) (usage, model) = (some u, newer_model m model)

-- The loop: the last usage, and the last model that came with one.
unfoldable pub read_tail_usage_and_model :
    List (Option Json) → Option Fields × Option String → Option Fields × Option String
read_tail_usage_and_model [] acc = acc
read_tail_usage_and_model (line ∷ lines) acc =
    read_tail_usage_and_model lines (after_line (usage_of_line line) acc)

abbrev positive_total : Option (Fields × Option String) → Option ℤ
positive_total none = none
positive_total (some (usage, model)) =
    let total = total_tokens usage in if is_positive total then some total else none

-- The first usage with a positive sum.
unfoldable pub read_first_usage : List (Option Json) → Option ℤ
read_first_usage [] = none
read_first_usage (line ∷ lines) =
    let rest = read_first_usage lines in
    elim (positive_total (usage_of_line line)) [ none ↦ rest | some total ↦ some total ]

-- _int_or: a positive int of the configuration, or else the default.
abbrev positive_or : Option ℤ → Option ℕ → Option ℕ
positive_or (some (pos (suc n))) default = some (suc n)
positive_or _ default = default

abbrev pub config_int : String → Option ℕ → Option Json → Option ℕ
config_int key default (some (obj d)) = positive_or (int_of (get key d)) default
config_int key default _ = default

abbrev or_default : ℕ → Option ℕ → ℕ
or_default default none = default
or_default default (some n) = n

pub record RolloverConfig : Type 0 where
  pub threshold_pct : ℕ
  pub cap_tokens : ℕ
  pub budget : Option ℕ

unfoldable pub load_rollover_config : Option Json → RolloverConfig
load_rollover_config file = record {
  threshold_pct =
      or_default default_rollover_threshold_pct (config_int "rollover_threshold_pct" none file);
  cap_tokens =
      or_default default_rollover_absolute_cap_tokens
        (config_int "rollover_absolute_cap_tokens" none file);
  budget = config_int "context_budget_tokens" none file;
}

-- The status line's record, if it is of the conversation.
abbrev pub fresh_record : Option Json → String → Option Fields
fresh_record (some (obj d)) conv_id = elim (text_of (get "conversation_id" d)) [
  | none ↦ none
  | some c ↦ if c == conv_id then some d else none
]
fresh_record _ conv_id = none

-- The tokens in use, the model, and where the number is from.
pub record Used : Type 0 where
  pub tokens : ℤ
  pub model_id : Option String
  pub source : Source

abbrev used_of_tail : Option Fields × Option String → Option Used
used_of_tail (none, model) = none
used_of_tail (some usage, model) =
    let total = total_tokens usage in
    if is_positive total
    then some (record { tokens = total; model_id = model; source = transcript })
    else none

abbrev pub used_of_record : Option Fields → Option Used
used_of_record none = none
used_of_record (some d) = elim (int_of (get "used_tokens" d)) [
  | none ↦ none
  | some n ↦
      some (record { tokens = n; model_id = text_of (get "model_id" d); source = statusline })
]

abbrev pub or_tail : Option Used → List (Option Json) → Option Used
or_tail (some u) lines = some u
or_tail none lines = used_of_tail (read_tail_usage_and_model lines (none, none))

abbrev record_window : Option Fields → Option ℤ
record_window none = none
record_window (some d) = int_of (get "context_window_size" d)

-- The size of the window, and where it is from.
abbrev pub window_of : Option ℕ → Option ℤ → Option ℕ → Option ℤ × Source
window_of (some budget) reported mapped = (some (pos budget), override)
window_of none (some n) mapped = (some n, statusline)
window_of none none (some n) = (some (pos n), mapping)
window_of none none none = (none, cap_only)

unfoldable pub trigger_for : Option ℤ → ℕ → ℕ → ℤ
trigger_for none threshold_pct cap_tokens = pos cap_tokens
trigger_for (some window) threshold_pct cap_tokens =
    int_min (percent window threshold_pct) (pos cap_tokens)

abbrev pub usage_for : RolloverConfig → Option Fields → Used → ContextUsage
usage_for config fresh used =
    let (window, source) =
      window_of config.budget (record_window fresh) (window_for_model used.model_id) in
    let trigger = trigger_for window config.threshold_pct config.cap_tokens in
    record {
      used_tokens = used.tokens;
      window_tokens = window;
      trigger_tokens = trigger;
      exceeded = int_le trigger used.tokens;
      numerator_source = used.source;
      denominator_source = source;
    }

abbrev usage_if : RolloverConfig → Option Fields → Option Used → Option ContextUsage
usage_if config fresh none = none
usage_if config fresh (some used) = some (usage_for config fresh used)

unfoldable pub check_context_usage :
    Option Json → Option Json → List (Option Json) → String → Option ContextUsage
check_context_usage config_file status_record lines active_conv_id =
    let fresh = fresh_record status_record active_conv_id in
    usage_if (load_rollover_config config_file) fresh (or_tail (used_of_record fresh) lines)
