-- ===== src/Summaries.antt =====
-- src/session_manager/summarizer.py: a pass of the background summarizer over its queue. A pass
-- reads a clock that stands, the transcripts do not change while it runs, and other workers' claims
-- and failed writes are left out; the debug log too.
pub mod Keeps
pub mod Rounds
pub mod Passes
pub mod Pending
pub mod Saves
use mcp_session_router.Base.{
  ℕ, suc, ◌+◌, String, ◌<>◌, Bool, true, false, not, ◌==◌, ◌&&◌, ◌||◌, if◌then◌else◌, List, [], ◌∷◌,
  ◌++◌,
}
use mcp_session_router.Base.{Option, none, some, Result, ok, err, Error}
use mcp_session_router.Base.Int.{pos, add}
use mcp_session_router.Base.Exec.{Exec, pure, raise, ◌>>=◌}
use mcp_session_router.Base.Dict.{lookup, insert, erase}
use mcp_session_router.Base.Lines.{Bytes}
use mcp_session_router.Base.Text.{strip}
use mcp_session_router.Json.{
  Json, null, bool, str, arr, obj, Fields, Items, nil, cons, fields, get, get_or, truthy,
}
use mcp_session_router.Session.{SessionMetadata}
use mcp_session_router.Store.{TextFormat, Directory, mutate_session_by_name}
use mcp_session_router.Queue.{
  SummaryTask, QueueDir, kind_departed, kind_active, kind_rooting_check, load_pending_tasks,
}
use mcp_session_router.Excerpts.{excerpt_max_chars, extract_full_text, dialogue_length}
use mcp_session_router.Answers.{
  is_said, parse_summary_response, parse_json_objects, first_with, has_summary, has_rooted,
}

-- What a pass reads of its surroundings: the clock, what a headless call answers by its number and
-- its prompt, the two parsers of an answer, and a conversation's transcript as events and as bytes.
pub record Outside : Type 0 where
  pub now : String
  pub run : ℕ → String → Option String
  pub parse : String → Option Json
  pub raw_decode : String → Option (Json × ℕ)
  pub events : String → Option (List (Option Json))
  pub loads : Bytes → Option Json
  pub bytes : String → Option Bytes

-- _PROMPT_TEMPLATE
unfoldable pub prompt_for : String → String
prompt_for excerpt =
    "[대화 기록 시작]\n" <> excerpt <> "\n[대화 기록 끝]\n\n" <> "위는 한 코딩 세션의 대화 기록이다. 너는 이 대화의 참여자가 아니다.\n"
    <> "기록을 읽고 이 세션의 작업을 요약하라.\n" <> "규칙:\n"
    <> "- summary: 2~4문장. 주 작업을 먼저, 부수 작업은 \"이 과정에서 ~도\"로 종속 서술.\n"
    <> "  다룬 코드 영역(where), 수행 작업(what), 상태(done/in-progress/remaining) 포함.\n"
    <> "- requirements: 사용자가 명시한 이 세션 한정 지시·제약을 목록으로.\n" <> "  (전역 컨벤션이 아니라 이 작업에만 해당하는 것만)\n"
    <> "- transcript에 실제로 있는 작업만 서술하라. 추측으로 범위를 넓히지 마라.\n"
    <> "JSON으로만 응답: {\"summary\": \"...\", \"requirements\": [\"...\"], \"title\": \"...\"}"

-- _ROOTING_QUESTION_TEMPLATE
unfoldable pub question_for : String → String
question_for rejected_topic =
    "추가 질문: 이 대화에서 \"" <> rejected_topic <> "\" 관련 작업이 단발 문답을 넘어\n"
    <> "이어졌는가? 복수 턴 진행 또는 파일 수정 동반 시에만 yes.\n"
    <> "{\"rooted\": true|false, \"evidence\": \"근거 인용|null\"}"

abbrev topic_question : Option Json → Option String
topic_question (some (str s)) = if strip s == "" then none else some (question_for (strip s))
topic_question _ = none

unfoldable pub rooting_question : Option SummaryTask → Option String
rooting_question none = none
rooting_question (some task) = topic_question (get "rejected_topic" task.extra)

abbrev pub with_question : Option String → String → String
with_question none prompt = prompt
with_question (some question) prompt = prompt <> "\n\n" <> question

-- What the answer is taken to say: the object with the summary, and the one with `rooted`.
abbrev pub answers : Outside → Option String → String → Option Fields × Option Fields
answers x none response = (parse_summary_response x.parse response, none)
answers x (some question) response =
    let objects = parse_json_objects x.raw_decode response in
    (first_with has_summary objects, first_with has_rooted objects)

abbrev from_answer : String → Option Fields → Option Json
from_answer key none = none
from_answer key (some d) = get key d

abbrev stripped : Option Json → String
stripped (some (str s)) = strip s
stripped _ = ""

abbrev retitled : Option Json → String → String
retitled v title = if is_said v then stripped v else title

abbrev said_items : Items → List String
said_items nil = []
said_items (cons v vs) =
    let rest = said_items vs in if is_said (some v) then stripped (some v) ∷ rest else rest

abbrev new_requirements : Option Json → List String → List String
new_requirements (some (arr vs)) requirements = said_items vs
new_requirements _ requirements = requirements

abbrev pub is_true : Option Json → Bool
is_true (some (bool b)) = b
is_true _ = false

abbrev new_evidence : Option Json → List String → List String
new_evidence v evidence = if is_said v then evidence ++ (stripped v ∷ []) else evidence

abbrev tally : Option Fields → SessionMetadata → SessionMetadata
tally answer s =
    if is_true (from_answer "rooted" answer)
    then record s {
      mixing_score = add s.mixing_score (pos 1);
      mixing_evidence = new_evidence (from_answer "evidence" answer) s.mixing_evidence;
    }
    else s

-- apply of _process_task, with the length of the dialogue
unfoldable pub apply :
    String → SummaryTask → Fields → Option Fields → ℕ → SessionMetadata → SessionMetadata
apply now task parsed answer length session = tally answer (record session {
  summary = some (stripped (get "summary" parsed));
  title = retitled (get "title" parsed) session.title;
  requirements = new_requirements (get "requirements" parsed) session.requirements;
  summary_updated_at = some now;
  summary_dialogue_chars = pos length;
  summary_dialogue_conversation_id = some task.conversation_id;
})

-- The text of a failed task: data["failed_at"] and data["error"] follow the task's own keys.
unfoldable pub failed_task : String → SummaryTask → String → Json
failed_task now t error = obj (
    fields (
      ("session_name", str t.session_name)
      ∷ ("conversation_id", str t.conversation_id)
      ∷ ("kind", str t.kind)
      ∷ ("requested_at", str t.requested_at)
      ∷ ("extra", obj t.extra)
      ∷ ("failed_at", str now)
      ∷ ("error", str error)
      ∷ []))

abbrev pub is_kind : String → SummaryTask → Bool
is_kind kind task = task.kind == kind

abbrev supported : SummaryTask → Bool
supported task = is_kind kind_departed task || is_kind kind_active task

-- May a rooting check ride on this refresh?
abbrev takes_rooting : SummaryTask → Bool
takes_rooting task = is_kind kind_active task && not (truthy (get_or "from_reject" null task.extra))

abbrev usable : String → SummaryTask → Bool
usable session_name task =
    is_kind kind_rooting_check task
    && task.session_name == session_name
    && is_said (get "rejected_topic" task.extra)

module _ (F : TextFormat) where
  -- The queue's directory, its `*.json` files and its claimed ones by stem, the sessions' directory,
  -- and how many headless calls were made.
  pub record Disk : Type 0 where
    pub tasks : QueueDir F
    pub claimed : QueueDir F
    pub sessions : Directory F
    pub calls : ℕ

  abbrev pub Step : Type 0 → Type 0
  Step = Exec Disk

  abbrev pub claimed_text : String → Option F.Text → Disk → Bool × Disk
  claimed_text stem none d = (false, d)
  claimed_text stem (some text) d =
      (true, record d { tasks = erase stem d.tasks; claimed = insert stem text d.claimed })

  -- path.rename(claimed), which fails where the file is gone.
  unfoldable pub claim : String → Disk → Bool × Disk
  claim stem d = claimed_text stem (lookup stem d.tasks) d

  abbrev pub restored_text : String → Option F.Text → Disk → Disk
  restored_text stem none d = d
  restored_text stem (some text) d = record d {
    tasks = insert stem text d.tasks;
    claimed = erase stem d.claimed;
  }

  unfoldable pub restore_claimed : String → Disk → Disk
  restore_claimed stem d = restored_text stem (lookup stem d.claimed) d

  unfoldable pub unlink : String → Disk → Disk
  unlink stem d = record d { claimed = erase stem d.claimed }

  module _ (x : Outside) where
    unfoldable pub mark_failed : String → SummaryTask → String → Disk → Disk
    mark_failed stem task error d = record d {
      claimed = insert stem (F.dumps (failed_task x.now task error)) d.claimed;
    }

    -- The answer to mutate_session_by_name, and the directory where it did not raise.
    abbrev pub saved :
        SummaryTask → Result (Option SessionMetadata × Directory F) → Step (Option String)
    saved task (err e) d = raise e d
    saved task (ok (none, dir)) d = pure (some ("session_not_found: " <> task.session_name)) d
    saved task (ok (some s, dir)) d = pure none (record d { sessions = dir })

    -- A length that raises does so in the mutator, so only where the session is found.
    abbrev pub raised :
        Error → SummaryTask → Result (Option SessionMetadata × Directory F) → Step (Option String)
    raised e task (ok (some s, dir)) d = raise e d
    raised e task r d = saved task r d

    abbrev pub save_with : SummaryTask → Fields → Option Fields → Result ℕ → Step (Option String)
    save_with task parsed answer (ok n) d =
        saved task
          (mutate_session_by_name F task.session_name (apply x.now task parsed answer n) d.sessions)
          d
    save_with task parsed answer (err e) d =
        raised e task (mutate_session_by_name F task.session_name (λ s. s) d.sessions) d

    abbrev pub save : SummaryTask → Option Fields × Option Fields → Step (Option String)
    save task (none, answer) d = pure (some "unparseable_response") d
    save task (some parsed, answer) d =
        save_with task parsed answer (dialogue_length x.loads (x.bytes task.conversation_id)) d

    abbrev pub on_response : SummaryTask → Option String → Option String → Step (Option String)
    on_response task question none d = pure (some "headless_call_failed") d
    on_response task question (some response) d = save task (answers x question response) d

    abbrev pub ask_model : SummaryTask → Option String → String → Step (Option String)
    ask_model task question excerpt d =
        on_response task question (x.run d.calls (with_question question (prompt_for excerpt)))
          (record d { calls = suc d.calls })

    abbrev pub on_excerpt : SummaryTask → Option String → Result String → Step (Option String)
    on_excerpt task question (err e) d = raise e d
    on_excerpt task question (ok excerpt) d =
        if excerpt == "" then pure (some "empty_excerpt") d else ask_model task question excerpt d

    unfoldable pub process_task : SummaryTask → Option SummaryTask → Step (Option String)
    process_task task rooting d =
        if supported task
        then on_excerpt task (rooting_question rooting)
            (extract_full_text excerpt_max_chars (x.events task.conversation_id)) d
        else pure (some ("unsupported_kind: " <> task.kind)) d

    -- A failing task is tried once more.
    abbrev pub retry : SummaryTask → Option SummaryTask → Option String → Step (Option String)
    retry task rooting none = pure none
    retry task rooting (some error) = process_task task rooting

    unfoldable pub process_twice : SummaryTask → Option SummaryTask → Step (Option String)
    process_twice task rooting = process_task task rooting >>= retry task rooting

    -- The first check that is usable and can be claimed; a claim that fails changes nothing.
    abbrev pub claim_first :
        String → List (String × SummaryTask) → Disk → Option (String × SummaryTask) × Disk
    claim_first session_name [] d = (none, d)
    claim_first session_name ((stem, task) ∷ pending) d =
        let rest = claim_first session_name pending d in
        if usable session_name task && (claim stem d).0
        then (some (stem, task), (claim stem d).1)
        else rest

    abbrev pub among :
        String → Result (List (String × SummaryTask)) → Step (Option (String × SummaryTask))
    among session_name (err e) d = raise e d
    among session_name (ok pending) d =
        let (found, d') = claim_first session_name pending d in pure found d'

    unfoldable pub claim_rooting_check : String → Step (Option (String × SummaryTask))
    claim_rooting_check session_name d = among session_name (load_pending_tasks F x.now d.tasks) d

    abbrev pub ride : SummaryTask → Step (Option (String × SummaryTask))
    ride task d =
        if takes_rooting task then claim_rooting_check task.session_name d else pure none d

    abbrev pub task_of : Option (String × SummaryTask) → Option SummaryTask
    task_of none = none
    task_of (some (stem, task)) = some task

    abbrev pub unlink_rooting : Option (String × SummaryTask) → Disk → Disk
    unlink_rooting none d = d
    unlink_rooting (some (stem, task)) d = unlink stem d

    abbrev pub restore_rooting : Option (String × SummaryTask) → Disk → Disk
    restore_rooting none d = d
    restore_rooting (some (stem, task)) d = restore_claimed stem d

    -- Whether the task was summarised
    abbrev pub finish :
        String → SummaryTask → Option (String × SummaryTask) → Option String → Step Bool
    finish stem task rooting none d = pure true (unlink_rooting rooting (unlink stem d))
    finish stem task rooting (some error) d =
        pure false (restore_rooting rooting (mark_failed stem task error d))

    abbrev pub process_riding : String → SummaryTask → Option (String × SummaryTask) → Step Bool
    process_riding stem task rooting =
        process_twice task (task_of rooting) >>= finish stem task rooting

    unfoldable pub process_claimed : String → SummaryTask → Step Bool
    process_claimed stem task = ride task >>= process_riding stem task

    abbrev pub if_claimed : String → SummaryTask → Bool × Disk → Result Bool × Disk
    if_claimed stem task (false, d) = pure false d
    if_claimed stem task (true, d) = process_claimed stem task d

    -- One round of the loop
    unfoldable pub process_one : String → SummaryTask → Step Bool
    process_one stem task d =
        if is_kind kind_rooting_check task
        then pure false d
        else if_claimed stem task (claim stem d)

    abbrev pub count : ℕ → Bool → ℕ
    count done true = suc done
    count done false = done

    unfoldable pub process_tasks : List (String × SummaryTask) → ℕ → Step ℕ
    process_tasks [] done = pure done
    process_tasks ((stem, task) ∷ tasks) done =
        process_one stem task >>= λ summarised. process_tasks tasks (count done summarised)

    abbrev pub process_loaded : Result (List (String × SummaryTask)) → Step ℕ
    process_loaded (err e) = raise e
    process_loaded (ok tasks) = process_tasks tasks 0

    -- How many tasks were summarised
    unfoldable pub process_queue : Step ℕ
    process_queue d = process_loaded (load_pending_tasks F x.now d.tasks) d
