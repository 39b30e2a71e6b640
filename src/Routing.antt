-- ===== src/Routing.antt =====
-- src/session_manager/routing/judge.py, what a model's answer is read as, and the requests that
-- src/session_manager/wrapper/judge_host.py serves. The text of the judge's prompt, the excerpt of the
-- transcript and the model are arguments, and so is json.loads.
pub mod Judged
use mcp_session_router.Base.{
  ℕ, ◌+◌, ◌-◌, ◌^◌, String, ◌<>◌, Bool, true, false, not, ◌==◌, ◌&&◌, leb, nat_eq, if◌then◌else◌,
  List, [], ◌∷◌, keep_if, contains, any,
}
use mcp_session_router.Base.{Option, none, some, Result, ok, err, overflow_error}
use mcp_session_router.Base.Int.{ℤ, pos, negsuc}
use mcp_session_router.Base.Text.{strip}
use Prim.Native.Char.{code}
use mcp_session_router.Json.{Json, bool, int, float, str, obj, Fields, get}
use mcp_session_router.Session.{SessionMetadata, PrecedentRecord, is_active}
use mcp_session_router.Decisions.{Number, is_too_large, as_number}
use mcp_session_router.StateFile.{text_given}

pub data RoutingAction : Type 0 where
  stay switch new ask : RoutingAction

-- VALID_ACTIONS
abbrev pub parse_action : Option Json → Option RoutingAction
parse_action (some (str s)) =
    if s == "STAY"
    then some stay
    else if s == "SWITCH"
    then some switch
    else if s == "NEW"
    then some new
    else if s == "ASK"
    then some ask
    else none
parse_action _ = none

pub record Verdict : Type 0 where
  pub action : RoutingAction
  pub target : Option String
  pub confidence : Number
  pub evidence : Option String
  pub reason : String

abbrev pub stay_verdict : String → Verdict
stay_verdict reason = record {
  action = stay;
  target = none;
  confidence = (pos 0, 0);
  evidence = none;
  reason = reason;
}

-- text[text.find("{"):]
abbrev pub from_brace : String → String
from_brace String.[] = ""
from_brace (String.◌∷◌ c s) =
    let rest = from_brace s in if nat_eq (code c) b'{' then String.◌∷◌ c s else rest

-- text[:text.rfind("}") + 1]
abbrev pub up_to_brace : String → String
up_to_brace String.[] = ""
up_to_brace (String.◌∷◌ c s) =
    let rest = up_to_brace s in
    if rest == "" then (if nat_eq (code c) b'}' then "}" else "") else String.◌∷◌ c rest

abbrev pub strip_fences : String → String
strip_fences text = up_to_brace (from_brace text)

-- min(1.0, max(0.0, x))
unfoldable pub clamp : Number → Number
clamp (negsuc n, k) = (pos 0, 0)
clamp (pos n, k) = if leb (2 ^ k) n then (pos 1, 0) else (pos n, k)

abbrev pub confidence_of : Option Json → Result Number
confidence_of (some (int n)) = if is_too_large n then err overflow_error else ok (clamp (n, 0))
confidence_of value = elim (as_number value) [ none ↦ ok (pos 0, 0) | some x ↦ ok (clamp x) ]

abbrev pub text_or_blank : Option Json → String
text_or_blank (some (str s)) = s
text_or_blank _ = ""

abbrev is_missing : Option String → Bool
is_missing none = true
is_missing (some s) = false

abbrev pub lacks : RoutingAction → Option String → Option String → Bool
lacks switch (some evidence) (some target) = false
lacks switch evidence target = true
lacks action evidence target = false

-- A SWITCH without evidence or target is demoted.
unfoldable pub verdict_for :
    RoutingAction → Option String → Option String → String → Number → Verdict
verdict_for action target evidence reason confidence =
    if lacks action evidence target
    then stay_verdict (strip ("demoted_no_evidence: " <> reason))
    else record {
      action = action;
      target = target;
      confidence = confidence;
      evidence = evidence;
      reason = reason;
    }

abbrev pub with_confidence : RoutingAction → Fields → Result Number → Result (Option Verdict)
with_confidence action d (err e) = err e
with_confidence action d (ok confidence) = ok (
    some (
      verdict_for action (text_given (get "target" d)) (text_given (get "evidence" d))
        (text_or_blank (get "reason" d)) confidence))

abbrev pub of_action : Option RoutingAction → Fields → Result (Option Verdict)
of_action none d = ok none
of_action (some action) d = with_confidence action d (confidence_of (get "confidence" d))

abbrev pub of_json : Option Json → Result (Option Verdict)
of_json (some (obj d)) = of_action (parse_action (get "action" d)) d
of_json _ = ok none

-- What _serve_request replies: a reason, or a verdict.
pub data Reply : Type 0 where
  refused : String → Reply
  judged : Verdict → Reply

-- The first session with the conversation.
abbrev pub resolve_current_session : Option String → List SessionMetadata → Option SessionMetadata
resolve_current_session none ss = none
resolve_current_session (some conv_id) [] = none
resolve_current_session (some conv_id) (s ∷ ss) =
    let rest = resolve_current_session (some conv_id) ss in
    if contains s.claude_conversation_ids conv_id then some s else rest

-- any(p.rejected == target for p in precedents)
abbrev pub is_rejected : String → List PrecedentRecord → Bool
is_rejected target ps = any (λ p. p.rejected == target) ps

abbrev pub is_switch : RoutingAction → Bool
is_switch switch = true
is_switch action = false

abbrev pub gate : Verdict → Option SessionMetadata → Option String → Verdict
gate v (some s) (some target) =
    if is_switch v.action && is_rejected target s.precedents
    then stay_verdict ("suppressed_by_precedent: " <> target)
    else v
gate v s target = v

-- The gate of the precedents.
unfoldable pub suppress : Verdict → Option SessionMetadata → Verdict
suppress v s = gate v s v.target

abbrev pub or_unparsable : Option Verdict → Verdict
or_unparsable none = stay_verdict "judge_unparsable"
or_unparsable (some v) = v

module _ (loads : String → Option Json) where
  unfoldable pub parse_verdict : String → Result (Option Verdict)
  parse_verdict text =
      let body = strip_fences text in if body == "" then ok none else of_json (loads body)

  abbrev pub suppressed : Option SessionMetadata → Result (Option Verdict) → Result Reply
  suppressed current (err e) = err e
  suppressed current (ok v) = ok (judged (suppress (or_unparsable v) current))

  abbrev pub reply_to : Option SessionMetadata → Option String → Result Reply
  reply_to current none = ok (judged (suppress (stay_verdict "judge_timeout") current))
  reply_to current (some raw) = suppressed current (parse_verdict raw)

  -- The model reads the excerpt, the active sessions, the current session's name and the prompt.
  module _
      (round_trip : String → List SessionMetadata → Option String → String → Option String) where
    abbrev pub name_of : Option SessionMetadata → Option String
    name_of none = none
    name_of (some s) = some s.name

    abbrev pub serve_prompt : Fields → String → List SessionMetadata → String → Result Reply
    serve_prompt request excerpt ss prompt =
        let current = resolve_current_session (text_given (get "session_id" request)) ss in
        if strip prompt == ""
        then ok (refused "empty_prompt")
        else reply_to current
            (round_trip excerpt (keep_if (λ s. is_active s.status) ss) (name_of current) prompt)

    abbrev pub serve_text : Fields → String → List SessionMetadata → Option Json → Result Reply
    serve_text request excerpt ss (some (str prompt)) = serve_prompt request excerpt ss prompt
    serve_text request excerpt ss _ = ok (refused "empty_prompt")

    -- `ss` are the listed sessions, `excerpt` that of the request's transcript.
    unfoldable pub serve_request : Fields → String → List SessionMetadata → Result Reply
    serve_request request excerpt ss = serve_text request excerpt ss (get "prompt" request)
