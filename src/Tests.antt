-- ===== src/Tests.antt =====
-- Test data: a text format that keeps the JSON value, and a project with two sessions.
pub mod Sessions
pub mod Fields
pub mod Logs
pub mod Moves
pub mod Hooks
pub mod Tools
pub mod Streams
pub mod Summaries
pub mod Registration
use mcp_session_router.Base.{
  ℕ, String, Bool-cases, inl, inr, ◌≡◌, refl, ◌==◌, if◌then◌else◌, false, true,
}
use mcp_session_router.Base.{Option, none, some, List, [], ◌∷◌}
use mcp_session_router.Json.{Json}
use mcp_session_router.Session.{SessionMetadata, active}
use mcp_session_router.Base.Times.{Time, aware, IsZoned}
use mcp_session_router.Base.Int.{pos}
use mcp_session_router.Store.{TextFormat, Directory, save_session}
use mcp_session_router.Store.Laws.{IsConsistent, save_session-IsConsistent}
use mcp_session_router.Context.{App, Env}

abbrev pub json_text : TextFormat
json_text = record { Text = Json; dumps = λ v. v; loads = λ v. some v; loads-dumps = λ v. refl }

abbrev pub planning : SessionMetadata
planning = record {
  session_id = "s1";
  name = "planning";
  title = "Planning";
  summary = none;
  created_at = "day 1";
  last_accessed = "day 2";
  transitions = [];
  status = active;
  claude_conversation_ids = "c1" ∷ [];
  requirements = [];
  summary_updated_at = none;
  summary_dialogue_chars = pos 0;
  summary_dialogue_conversation_id = none;
  profile = none;
  precedents = [];
  mixing_score = pos 0;
  mixing_evidence = [];
}

abbrev pub coding : SessionMetadata
coding = record planning {
  session_id = "s2";
  name = "coding";
  title = "Coding";
  last_accessed = "day 1";
  claude_conversation_ids = [];
}

abbrev pub two_sessions : Directory json_text
two_sessions = save_session json_text coding (save_session json_text planning [])

pub two_sessions-IsConsistent : IsConsistent json_text two_sessions
two_sessions-IsConsistent =
    save_session-IsConsistent json_text coding _
      (save_session-IsConsistent json_text planning [] (record { nodup = tt; reads = tt }))

-- The parser of the times in use.
abbrev pub time : String → Option Time
time text =
    if text == "day 1"
    then some (aware 86400000000)
    else if text == "day 2"
    then some (aware 172800000000)
    else none

pub time-IsZoned : (text : String) → IsZoned (time text)
time-IsZoned text = elim (Bool-cases (text == "day 1")) [
  | inl y ↦ rw y tt
  | inr n ↦ elim (Bool-cases (text == "day 2")) [ inl y ↦ rw (n, y) tt | inr m ↦ rw (n, m) tt ]
]

abbrev pub env : Env
env = record { now = "day 3"; guess = none; writable = true }

-- In the session "planning", with a wrapper.
abbrev pub app : App json_text
app = record {
  state = record { current_session_name = some "planning"; active_conversation_id = some "c1" };
  sessions = two_sessions;
  decisions = [];
  queue = [];
  connected = true;
  signals = [];
}
