-- ===== src/Session/Codec.antt =====
-- The to_dict and from_dict methods of models/session.py.
use mcp_session_router.Base.{String, ◌==◌, ◌||◌, if◌then◌else◌, List, [], ◌∷◌, map}
use mcp_session_router.Base.{Result, ok, err, value_error, bad_type, ◌>>=◌, map_result}
use mcp_session_router.Base.Int.{pos}
use mcp_session_router.Json.{Json, null, int, str, arr, obj, nil}
use mcp_session_router.Json.{Fields, get_or, require, as_str, as_optional_str, as_int}
use mcp_session_router.Json.{as_list, as_object, items, fields, strings, optional_str}
use mcp_session_router.Session.{SessionStatus, active, archived, SessionMetadata, TransitionRecord}
use mcp_session_router.Session.{PrecedentRecord}

-- status.value
abbrev pub status_value : SessionStatus → String
status_value active = "active"
status_value archived = "archived"

parse_status_text : String → Result SessionStatus
parse_status_text s =
    if s == "retired" || s == "expired"
    then ok archived
    else if s == "active"
    then ok active
    else if s == "archived"
    then ok archived
    else err value_error

-- A list or a dict cannot be hashed for the membership test, which raises TypeError.
unfoldable pub parse_status : Json → Result SessionStatus
unfolding parse_status_text
parse_status (str s) = parse_status_text s
parse_status (arr xs) = err bad_type
parse_status (obj d) = err bad_type
parse_status v = ok active

unfoldable pub transition_to_dict : TransitionRecord → Json
transition_to_dict t = obj (
    fields (
      ("from_session", optional_str t.from_session)
      ∷ ("to_session", str t.to_session)
      ∷ ("timestamp", str t.timestamp)
      ∷ []))

unfoldable pub transition_from_dict : Json → Result TransitionRecord
transition_from_dict v = do
  d ← as_object v
  from_session ← as_optional_str (get_or "from_session" null d)
  to_session ← require "to_session" d >>= as_str
  timestamp ← require "timestamp" d >>= as_str
  ok (record { from_session = from_session; to_session = to_session; timestamp = timestamp })

unfoldable pub precedent_to_dict : PrecedentRecord → Json
precedent_to_dict p = obj (
    fields (
      ("prompt_gist", str p.prompt_gist)
      ∷ ("kept_in", str p.kept_in)
      ∷ ("rejected", str p.rejected)
      ∷ ("at", str p.at)
      ∷ []))

unfoldable pub precedent_from_dict : Json → Result PrecedentRecord
precedent_from_dict v = do
  d ← as_object v
  prompt_gist ← require "prompt_gist" d >>= as_str
  kept_in ← require "kept_in" d >>= as_str
  rejected ← require "rejected" d >>= as_str
  at ← require "at" d >>= as_str
  ok (record { prompt_gist = prompt_gist; kept_in = kept_in; rejected = rejected; at = at })

unfoldable pub to_dict : SessionMetadata → Json
to_dict s = obj (
    fields (
      ("session_id", str s.session_id)
      ∷ ("name", str s.name)
      ∷ ("title", str s.title)
      ∷ ("summary", optional_str s.summary)
      ∷ ("created_at", str s.created_at)
      ∷ ("last_accessed", str s.last_accessed)
      ∷ ("transitions", arr (items (map transition_to_dict s.transitions)))
      ∷ ("status", str (status_value s.status))
      ∷ ("claude_conversation_ids", strings s.claude_conversation_ids)
      ∷ ("requirements", strings s.requirements)
      ∷ ("summary_updated_at", optional_str s.summary_updated_at)
      ∷ ("profile", optional_str s.profile)
      ∷ ("summary_dialogue_chars", int s.summary_dialogue_chars)
      ∷ ("summary_dialogue_conversation_id", optional_str s.summary_dialogue_conversation_id)
      ∷ ("precedents", arr (items (map precedent_to_dict s.precedents)))
      ∷ ("mixing_score", int s.mixing_score)
      ∷ ("mixing_evidence", strings s.mixing_evidence)
      ∷ []))

-- list(data.get(key, []))
abbrev get_strings : String → Fields → Result (List String)
get_strings k d = as_list (get_or k (arr nil) d) >>= map_result as_str

unfoldable pub from_dict : Json → Result SessionMetadata
from_dict v = do
  d ← as_object v
  session_id ← require "session_id" d >>= as_str
  name ← require "name" d >>= as_str
  title ← require "title" d >>= as_str
  summary ← as_optional_str (get_or "summary" null d)
  created_at ← require "created_at" d >>= as_str
  last_accessed ← require "last_accessed" d >>= as_str
  transitions ← as_list (get_or "transitions" (arr nil) d) >>= map_result transition_from_dict
  status ← parse_status (get_or "status" (str (status_value active)) d)
  claude_conversation_ids ← get_strings "claude_conversation_ids" d
  requirements ← get_strings "requirements" d
  summary_updated_at ← as_optional_str (get_or "summary_updated_at" null d)
  profile ← as_optional_str (get_or "profile" null d)
  summary_dialogue_chars ← as_int (get_or "summary_dialogue_chars" (int (pos 0)) d)
  summary_dialogue_conversation_id ←
      as_optional_str (get_or "summary_dialogue_conversation_id" null d)
  precedents ← as_list (get_or "precedents" (arr nil) d) >>= map_result precedent_from_dict
  mixing_score ← as_int (get_or "mixing_score" (int (pos 0)) d)
  mixing_evidence ← get_strings "mixing_evidence" d
  ok (record {
    session_id = session_id;
    name = name;
    title = title;
    summary = summary;
    created_at = created_at;
    last_accessed = last_accessed;
    transitions = transitions;
    status = status;
    claude_conversation_ids = claude_conversation_ids;
    requirements = requirements;
    summary_updated_at = summary_updated_at;
    summary_dialogue_chars = summary_dialogue_chars;
    summary_dialogue_conversation_id = summary_dialogue_conversation_id;
    profile = profile;
    precedents = precedents;
    mixing_score = mixing_score;
    mixing_evidence = mixing_evidence;
  })
