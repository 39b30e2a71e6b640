-- ===== src/Tests/Summaries.antt =====
-- Runs of the summarizer's queue.
use mcp_session_router.Base.{
  ◌≡◌, ◌+◌, ◌*◌, ◌≤◌, refl, true, some, none, [], ◌∷◌, ok, List, length, String,
}
use mcp_session_router.Base.Dict.{lookup, erase, insert}
use mcp_session_router.Json.{str, obj, field, end}
use mcp_session_router.Queue.{
  SummaryTask, task_to_dict, task_from_dict, read_task, read_tasks, load_pending_tasks, kind_active,
  kind_rooting_check,
}
use mcp_session_router.Excerpts.{
  join_text_blocks, dialogue_length, scan_dialogue_growth, extract_full_text, dialogue_lines,
  dialogue_text, cut_text,
}
use mcp_session_router.Answers.{parse_json_objects, strip_fence, parse_summary_response}
use mcp_session_router.Summaries.{
  apply, question_for, Outside, Disk, is_kind, prompt_for, rooting_question, process_task,
  process_queue, process_tasks, process_one, process_claimed, claim_rooting_check, claim,
  process_twice, mark_failed, restore_claimed, unlink, failed_task,
}
use mcp_session_router.Summaries.Pending.{process_queue-pending}
use mcp_session_router.Summaries.Passes.{process_queue-calls, process_queue-sessions}
use mcp_session_router.Store.{
  mutate_session_by_name, load_session_by_name, list_sessions, save_session, decode, find_by_name,
  load_session, mutate_session,
}
use mcp_session_router.Session.Codec.{
  from_dict, to_dict, parse_status, transition_from_dict, transition_to_dict, precedent_from_dict,
  precedent_to_dict,
}
use mcp_session_router.Tests.{json_text, two_sessions}

abbrev refresh : SummaryTask
refresh = record {
  session_name = "planning";
  conversation_id = "c1";
  kind = kind_active;
  requested_at = "day 2";
  extra = end;
}

abbrev check : SummaryTask
check = record refresh {
  kind = kind_rooting_check;
  extra = field "rejected_topic" (str "parsing") end;
}

-- A conversation of one line, and a model that always gives one summary.
abbrev outside : Outside
outside = record {
  now = "day 3";
  run = λ n prompt. some "{";
  parse = λ s. some (obj (field "summary" (str "Plans it.") end));
  raw_decode = λ s. some (obj (field "summary" (str "Plans it.") end), 0);
  events = λ c. some (
      some (
        obj (
          field "type" (str "user")
            (field "message" (obj (field "content" (str "fix it") end)) end)))
      ∷ []);
  loads = λ b. none;
  bytes = λ c. none;
}

abbrev waiting : SummaryTask
waiting = record check { session_name = "coding" }

abbrev ps : List (String × SummaryTask)
ps = ("t1", refresh) ∷ ("t2", check) ∷ ("t3", waiting) ∷ []

abbrev disk : Disk json_text
disk = record {
  tasks =
      ("t1", task_to_dict refresh) ∷ ("t2", task_to_dict check) ∷ ("t3", task_to_dict waiting) ∷ [];
  claimed = [];
  sessions = two_sessions;
  calls = 0;
}

-- A model that does not answer.
abbrev silent : Outside
silent = record outside { run = λ n prompt. none }

after_pass : (process_queue json_text outside disk).0 ≡ ok 1
unfolding process_queue load_pending_tasks read_tasks read_task task_from_dict task_to_dict
    process_tasks process_one process_claimed claim_rooting_check claim process_twice mark_failed
    restore_claimed unlink failed_task erase parse_json_objects question_for process_task
    extract_full_text dialogue_lines dialogue_text join_text_blocks cut_text rooting_question
    parse_summary_response strip_fence dialogue_length scan_dialogue_growth mutate_session_by_name
    load_session_by_name list_sessions save_session insert decode from_dict to_dict lookup
    parse_status transition_from_dict transition_to_dict precedent_from_dict precedent_to_dict
    find_by_name load_session mutate_session apply prompt_for
after_pass = refl

process_queue-pending_example : is_kind kind_rooting_check waiting ≡ true
unfolding process_queue load_pending_tasks read_tasks read_task task_from_dict task_to_dict
    process_tasks process_one process_claimed claim_rooting_check claim process_twice mark_failed
    restore_claimed unlink failed_task erase parse_json_objects question_for process_task
    extract_full_text dialogue_lines dialogue_text join_text_blocks cut_text rooting_question
    parse_summary_response strip_fence dialogue_length scan_dialogue_growth mutate_session_by_name
    load_session_by_name list_sessions save_session insert decode from_dict to_dict lookup
    parse_status transition_from_dict transition_to_dict precedent_from_dict precedent_to_dict
    find_by_name load_session mutate_session apply prompt_for
process_queue-pending_example =
    process_queue-pending json_text outside disk 1 "t3" (task_to_dict waiting) waiting refl refl
      refl

process_queue-calls_example : (process_queue json_text outside disk).1.calls ≤ 0 + 2 * length ps
unfolding load_pending_tasks read_tasks read_task task_from_dict task_to_dict
process_queue-calls_example = process_queue-calls json_text outside disk ps refl

process_queue-sessions_example : (process_queue json_text silent disk).1.sessions ≡ two_sessions
unfolding process_queue load_pending_tasks read_tasks read_task task_from_dict task_to_dict
    process_tasks process_one process_claimed claim_rooting_check claim process_twice mark_failed
    restore_claimed unlink failed_task erase parse_json_objects question_for process_task
    extract_full_text dialogue_lines dialogue_text join_text_blocks cut_text rooting_question
    parse_summary_response strip_fence dialogue_length scan_dialogue_growth mutate_session_by_name
    load_session_by_name list_sessions save_session insert decode from_dict to_dict lookup
    parse_status transition_from_dict transition_to_dict precedent_from_dict precedent_to_dict
    find_by_name load_session mutate_session apply prompt_for
process_queue-sessions_example = process_queue-sessions json_text silent disk refl
