-- ===== src/Hooks.antt =====
-- src/session_manager/hooks/user_prompt_submit.py: what the hook does with a prompt that is
-- submitted. The texts that it prints are left out but for what they are made of; the directories,
-- the configuration and the judge's reply are arguments.
pub mod Delivery
use mcp_session_router.Base.{
  ℕ, suc, zero, String, Bool, true, false, not, ◌==◌, ◌&&◌, leb, if◌then◌else◌, List, [], ◌∷◌,
}
use mcp_session_router.Base.{Option, none, some, Result, ok, err, ◌>>=◌}
use mcp_session_router.Base.Int.{ℤ, pos, negsuc}
use mcp_session_router.Json.{
  Json, null, bool, int, float, str, arr, obj, nil, Fields, field, end, get, get_or, truthy,
}
use mcp_session_router.Store.{TextFormat}
use mcp_session_router.Decisions.{
  Line, Number, is_too_large, as_number, append_proposal, expire_ignored_proposals,
}
use mcp_session_router.Handoffs.{HandoffFile, trigger_prompt, take_file}
use mcp_session_router.StateFile.{text_given}

-- What the hook puts into the context, if anything.
pub data Output : Type 0 where
  silent : Output
  handed_over : Fields → String → Output
  stale_conversation : String → Output
  confirm_switch : Option Json → Option Json → Output
  confirm_new : Option Json → Output

-- What the hook reads: the files of the sessions' directory in the order of its listing, whether
-- the router's directory exists, the configuration, and the reply to a request.
pub record HookEnv : Type 0 where
  pub now : String
  pub log_writable : Bool
  pub has_root : Bool
  pub session_files : List (Option Json)
  pub config_file : Option Json
  pub reply : Option Fields

abbrev pub is_text : Option Json → String → Bool
is_text (some (str s)) t = s == t
is_text _ t = false

abbrev mode_of : Option Json → String
mode_of (some (str mode)) = if mode == "auto" then "confirm" else mode
mode_of _ = "confirm"

-- An unreadable configuration, or one with no text as the mode, is read as the default.
abbrev pub load_routing_mode : Option Json → String
load_routing_mode (some (obj d)) = mode_of (get "routing_mode" d)
load_routing_mode _ = "confirm"

abbrev is_active_file : Option Json → Bool
is_active_file (some (obj d)) = is_text (some (get_or "status" (str "active") d)) "active"
is_active_file _ = false

abbrev pub count_active_sessions : List (Option Json) → ℕ
count_active_sessions [] = 0
count_active_sessions (file ∷ files) =
    let rest = count_active_sessions files in if is_active_file file then suc rest else rest

abbrev status_or_active : Json → String
status_or_active (str status) = status
status_or_active _ = "active"

abbrev is_named : String → Option Json → Bool
is_named name (some (obj d)) = is_text (get "name" d) name
is_named name _ = false

abbrev status_of_file : Option Json → String
status_of_file (some (obj d)) = status_or_active (get_or "status" (str "active") d)
status_of_file _ = "missing"

-- The status of the first file of that name.
abbrev pub target_status : String → List (Option Json) → String
target_status name [] = "missing"
target_status name (file ∷ files) =
    let rest = target_status name files in if is_named name file then status_of_file file else rest

-- isinstance(confidence, int | float), of which float() raises for a large int, which ends the hook.
abbrev pub confidence_given : Option Json → Option Number
confidence_given (some (int n)) = if is_too_large n then none else some (n, 0)
confidence_given value = as_number value

abbrev pub conv_id_of : Fields → Option String
conv_id_of payload = text_given (get "session_id" payload)

-- The reason why the judge is not asked.
abbrev pub prefilter : HookEnv → Fields → Option String
prefilter env payload = elim (text_given (get "cwd" payload)) [
  | none ↦ some "no_cwd"
  | some cwd ↦
      if not env.has_root
      then some "no_session_manager_dir"
      else if leb (count_active_sessions env.session_files) 1
      then some "single_active_session"
      else if is_text (get "permission_mode" payload) "plan"
      then some "plan_mode"
      else if load_routing_mode env.config_file == "off"
      then some "routing_off"
      else none
]

module _ (F : TextFormat) where
  -- The files that the hook changes.
  pub record HookFiles : Type 0 where
    pub pending_file : HandoffFile F
    pub notice_file : HandoffFile F
    pub decisions : List Line

  abbrev pub Hook : Type 0
  Hook = HookFiles → Output × HookFiles

  abbrev pub expire_for : HookEnv → Option String → Option String → HookFiles → Result HookFiles
  expire_for env (some cwd) (some conv_id) f =
      expire_ignored_proposals env.log_writable conv_id env.now f.decisions >>= λ x.
      ok (record f { decisions = x.0 })
  expire_for env cwd conv_id f = ok f

  -- The hook's own _expire_ignored_proposals.
  abbrev pub expire_ignored : HookEnv → Fields → HookFiles → Result HookFiles
  expire_ignored env payload = expire_for env (text_given (get "cwd" payload)) (conv_id_of payload)

  abbrev pub object_or_empty : Option Json → Fields
  object_or_empty (some (obj d)) = d
  object_or_empty _ = end

  abbrev pub text_or_blank : Option Json → String
  text_or_blank (some (str s)) = s
  text_or_blank _ = ""

  abbrev pub hand_over : Option Fields → Output
  hand_over none = silent
  hand_over (some d) =
      handed_over (object_or_empty (get "handoff" d)) (text_or_blank (get "user_prompt" d))

  abbrev pub take_if : Option String → Hook
  take_if none f = (silent, f)
  take_if (some cwd) f =
      let (message, file) = take_file F f.pending_file in
      (hand_over message, record f { pending_file = file })

  -- none where the prompt is no trigger.
  abbrev pub deliver_pending_handoff : Fields → Option Hook
  deliver_pending_handoff payload =
      if is_text (get "prompt" payload) trigger_prompt
      then some (take_if (text_given (get "cwd" payload)))
      else none

  abbrev pub has_moved : Option Json → Option Json → Bool
  has_moved (some (str a)) (some (str b)) = not (a == b)
  has_moved _ _ = false

  abbrev pub notice_for : Fields → Fields → Output
  notice_for payload notice =
      if is_text (get "type" notice) "stale_conversation"
      then elim (text_given (get "session" notice)) [
        | none ↦ silent
        | some session ↦
            if has_moved (get "session_id" payload) (get "conv_id" notice)
            then silent
            else stale_conversation session
      ]
      else silent

  abbrev pub notice_of : Fields → Option Fields → Output
  notice_of payload none = silent
  notice_of payload (some notice) = notice_for payload notice

  abbrev pub take_notice_if : Fields → Option String → Hook
  take_notice_if payload none f = (silent, f)
  take_notice_if payload (some cwd) f =
      let (message, file) = take_file F f.notice_file in
      (notice_of payload message, record f { notice_file = file })

  -- A notice is taken even if it is not delivered.
  abbrev pub deliver_pending_notice : Fields → Hook
  deliver_pending_notice payload = take_notice_if payload (text_given (get "cwd" payload))

  abbrev pub propose :
      HookEnv → Fields → Option String → Option String → Option Number → HookFiles → HookFiles
  propose env payload (some cwd) (some target) (some confidence) f = record f {
    decisions =
        append_proposal env.log_writable target confidence (load_routing_mode env.config_file)
          (some (target_status target env.session_files)) (conv_id_of payload) env.now f.decisions;
  }
  propose env payload cwd target confidence f = f

  abbrev pub confirm : HookEnv → Fields → Fields → Hook
  confirm env payload verdict f =
      if is_text (get "action" verdict) "SWITCH"
      then (
        confirm_switch (get "target" verdict) (get "evidence" verdict),
        propose env payload (text_given (get "cwd" payload)) (text_given (get "target" verdict))
            (confidence_given (get "confidence" verdict)) f,
      )
      else if is_text (get "action" verdict) "NEW"
      then (confirm_new (get "reason" verdict), f)
      else (silent, f)

  abbrev pub judged_with : HookEnv → Fields → Option Json → Hook
  judged_with env payload (some (obj verdict)) f = confirm env payload verdict f
  judged_with env payload _ f = (silent, f)

  abbrev pub is_ok : Option Json → Bool
  is_ok none = false
  is_ok (some v) = truthy v

  abbrev pub route_reply : HookEnv → Fields → Option Fields → Hook
  route_reply env payload none f = (silent, f)
  route_reply env payload (some reply) f =
      if is_ok (get "ok" reply)
      then judged_with env payload (get "verdict" reply) f
      else (silent, f)

  abbrev pub route : HookEnv → Fields → Hook
  route env payload f = route_reply env payload env.reply f

  abbrev pub filtered : HookEnv → Fields → Option String → Hook
  filtered env payload (some rule) f = (silent, f)
  filtered env payload none f = route env payload f

  abbrev pub unless_noticed : HookEnv → Fields → Output → HookFiles → Output × HookFiles
  unless_noticed env payload (stale_conversation session) f = (stale_conversation session, f)
  unless_noticed env payload output f = filtered env payload (prefilter env payload) f

  abbrev pub unless_handed : HookEnv → Fields → Option Hook → Hook
  unless_handed env payload (some deliver) f = deliver f
  unless_handed env payload none f =
      let (output, f') = deliver_pending_notice payload f in unless_noticed env payload output f'

  -- An exception ends the hook, before it changed a file.
  abbrev pub after_expiry : HookEnv → Fields → Result HookFiles → Hook
  after_expiry env payload (err e) f = (silent, f)
  after_expiry env payload (ok f') f =
      unless_handed env payload (deliver_pending_handoff payload) f'

  abbrev pub of_payload : HookEnv → Option Json → Hook
  of_payload env (some (obj payload)) f = after_expiry env payload (expire_ignored env payload f) f
  of_payload env _ f = (silent, f)

  -- `stdin` is the value on the standard input, none where it is no JSON.
  unfoldable pub run_hook : HookEnv → Option Json → Hook
  run_hook env stdin f = of_payload env stdin f
