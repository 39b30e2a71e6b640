-- ===== src/Tests/Hooks.antt =====
-- Runs of the judge host and of the hook.
use mcp_session_router.Base.{◌≡◌, refl, true, some, none, [], ◌∷◌}
use mcp_session_router.Base.Int.{pos}
use mcp_session_router.Json.{str, int, obj, Fields, field, end}
use mcp_session_router.Session.{SessionMetadata, new_precedent}
use mcp_session_router.Handoffs.{trigger_prompt}
use mcp_session_router.Session.Codec
use mcp_session_router.Base.Dict.{insert, lookup}
use mcp_session_router.Store.{
  mutate_session_by_name, load_session_by_name, list_sessions, save_session, decode, find_by_name,
  mutate_session, load_session,
}
use mcp_session_router.Wrapper.{reactivate_target, execute_transition, plain, enqueue_summary}
use mcp_session_router.Routing.{serve_request}
use mcp_session_router.Routing.Judged.{Holds, IsSafe, serve_request-IsSafe}
use mcp_session_router.Decisions.{nothing, replay, load_events}
use mcp_session_router.Hooks.{HookEnv, handed_over, run_hook}
use mcp_session_router.Hooks.Delivery.{files, handoff_arrives}
use mcp_session_router.Tests.{json_text, planning, coding}
use mcp_session_router.Tests.Moves.{host, idle}

-- The user has kept "coding" out of "planning" before.
abbrev rejecting : SessionMetadata
rejecting = record planning { precedents = new_precedent "fix it" "planning" "coding" "day 1" ∷ [] }

abbrev verdict : Fields
verdict = field "action" (str "SWITCH") (
    field "target" (str "coding")
      (field "evidence" (str "Coding") (field "confidence" (int (pos 3)) end)))

abbrev request : Fields
request = field "prompt" (str "fix the parser") (field "session_id" (str "c1") end)

serve_request-IsSafe_example : Holds (IsSafe (some rejecting)) (
    serve_request
      (λ t. some (obj verdict))
      (λ e ss n p. some "{}")
      request
      ""
      (rejecting ∷ coding ∷ []))
serve_request-IsSafe_example =
    serve_request-IsSafe (λ t. some (obj verdict)) (λ e ss n p. some "{}") request ""
      (rejecting ∷ coding ∷ [])

abbrev env : HookEnv
env = record {
  now = "day 3";
  log_writable = true;
  has_root = true;
  session_files = [];
  config_file = none;
  reply = none;
}

abbrev payload : Fields
payload = field "prompt" (str trigger_prompt) (field "cwd" (str "/p") end)

abbrev summarised : Fields
summarised = field "summary" (str "half done") end

handoff_arrives_example :
    let after =
      (execute_transition json_text host "coding" none summarised "fix the parser" plain idle).1 in
    (run_hook json_text env
      (some (obj payload))
      (files json_text env payload host "coding" none summarised "fix the parser" plain after)).0
    ≡ handed_over summarised "fix the parser"
unfolding execute_transition enqueue_summary replay load_events reactivate_target
    mutate_session_by_name load_session_by_name list_sessions save_session insert decode
    Codec.from_dict Codec.to_dict Codec.parse_status find_by_name mutate_session load_session lookup
handoff_arrives_example =
    (handoff_arrives json_text env payload host "coding" none summarised "fix the parser" plain idle
      "/p" nothing refl refl refl refl refl).0
