-- ===== src/Summaries/Saves.antt =====
-- What a task that was summarised saved.
use mcp_session_router.Base.{ℕ, String, ◌≡◌}
use mcp_session_router.Base.{Option, none, some, Result, ok, true}
use mcp_session_router.Json.{Json, Fields}
use mcp_session_router.Session.{SessionMetadata}
use mcp_session_router.Store.{TextFormat, mutate_session_by_name}
use mcp_session_router.Queue.{SummaryTask}
use mcp_session_router.Answers.{has_summary}
use mcp_session_router.Excerpts.{excerpt_max_chars, extract_full_text, dialogue_length}
use mcp_session_router.Summaries.{Outside, Disk, apply, answers, with_question, prompt_for}

abbrev Says : Option Fields → Type 0
Says none = Unit {0}
Says (some p) = has_summary p ≡ true

module _ (F : TextFormat) where
  module _ (x : Outside) where
    -- The model, asked for a summary of an excerpt of the conversation, gave a response in which
    -- the parsers found the summary and the answer to the question.
    abbrev pub Answered : SummaryTask → Option String → Disk F → Fields → Option Fields → Type 0
    Answered task question d parsed answer =
        (excerpt : String) × (response : String) × (extract_full_text excerpt_max_chars
            (x.events task.conversation_id)
          ≡ ok excerpt)
        × (x.run d.calls (with_question question (prompt_for excerpt)) ≡ some response)
        × (answers x question response ≡ (some parsed, answer))

    -- One session was saved, with a summary that the response gave and the length of the dialogue.
    abbrev pub SavesOne : SummaryTask → Option String → Disk F → Disk F → Type 0
    SavesOne task question d d' =
        (s : SessionMetadata) × (parsed : Fields) × (answer : Option Fields) × (n : ℕ) × Answered
          task question d parsed answer
        × (has_summary parsed ≡ true)
        × (dialogue_length x.loads (x.bytes task.conversation_id) ≡ ok n)
        × (mutate_session_by_name F task.session_name (apply x.now task parsed answer n) d.sessions
            ≡ ok (some s, d'.sessions))

    -- The same, once the answer is known.
    abbrev SavesBy :
        SummaryTask → Fields → Option Fields → Disk F → Result (Option String) × Disk F → Type 0
    SavesBy task parsed answer d (r, d') =
        r ≡ ok none
        → (s : SessionMetadata) × (n : ℕ) × (dialogue_length x.loads (x.bytes task.conversation_id)
            ≡ ok n)
          × (mutate_session_by_name F task.session_name (apply x.now task parsed answer n)
                d.sessions
              ≡ ok (some s, d'.sessions))

    abbrev pub Saves :
        SummaryTask → Option String → Disk F → Result (Option String) × Disk F → Type 0
    Saves task question d (r, d') = r ≡ ok none → SavesOne task question d d'
