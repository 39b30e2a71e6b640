-- ===== src/Session.antt =====
-- src/session_manager/models/session.py: the session's metadata and the operations on it. A call
-- of the clock is the argument `now`, and a new id the argument `session_id`. The debug log, which
-- nothing reads back, is left out.
pub mod Codec
pub mod Roundtrip
pub mod Lifecycle
pub mod Precedents
use mcp_session_router.Base.{
  String, Bool, true, false, not, ◌==◌, if◌then◌else◌, contains, keep_if, length, nat_eq, ◌-◌,
}
use mcp_session_router.Base.{Option, none, List, [], ◌∷◌, ◌++◌}
use mcp_session_router.Base.Int.{ℤ, pos}

pub data SessionStatus : Type 0 where
  active archived : SessionStatus

abbrev pub is_active : SessionStatus → Bool
is_active active = true
is_active archived = false

pub record TransitionRecord : Type 0 where
  pub from_session : Option String
  pub to_session : String
  pub timestamp : String

-- TransitionRecord.new
abbrev pub new_transition : Option String → String → String → TransitionRecord
new_transition from_session to_session now = record {
  from_session = from_session;
  to_session = to_session;
  timestamp = now;
}

pub record PrecedentRecord : Type 0 where
  pub prompt_gist : String
  pub kept_in : String
  pub rejected : String
  pub at : String

-- PrecedentRecord.new
abbrev pub new_precedent : String → String → String → String → PrecedentRecord
new_precedent prompt_gist kept_in rejected now = record {
  prompt_gist = prompt_gist;
  kept_in = kept_in;
  rejected = rejected;
  at = now;
}

pub record SessionMetadata : Type 0 where
  pub session_id : String
  pub name : String
  pub title : String
  pub summary : Option String
  pub created_at : String
  pub last_accessed : String
  pub transitions : List TransitionRecord
  pub status : SessionStatus
  pub claude_conversation_ids : List String
  pub requirements : List String
  pub summary_updated_at : Option String
  pub summary_dialogue_chars : ℤ
  pub summary_dialogue_conversation_id : Option String
  pub profile : Option String
  pub precedents : List PrecedentRecord
  pub mixing_score : ℤ
  pub mixing_evidence : List String

-- SessionMetadata.new
unfoldable pub new_session : String → String → String → Option String → String → SessionMetadata
new_session session_id name title summary now = record {
  session_id = session_id;
  name = name;
  title = title;
  summary = summary;
  created_at = now;
  last_accessed = now;
  transitions = [];
  status = active;
  claude_conversation_ids = [];
  requirements = [];
  summary_updated_at = none;
  summary_dialogue_chars = pos 0;
  summary_dialogue_conversation_id = none;
  profile = none;
  precedents = [];
  mixing_score = pos 0;
  mixing_evidence = [];
}

unfoldable pub touch : String → SessionMetadata → SessionMetadata
touch now s = record s { last_accessed = now }

-- The new session, and whether it changed.
unfoldable pub reactivate : SessionMetadata → SessionMetadata × Bool
reactivate s = if is_active s.status then (s, false) else (record s { status = active }, true)

unfoldable pub link_conversation : String → SessionMetadata → SessionMetadata
link_conversation conv_id s =
    if conv_id == ""
    then s
    else if contains s.claude_conversation_ids conv_id
    then s
    else record s { claude_conversation_ids = s.claude_conversation_ids ++ (conv_id ∷ []) }

abbrev is_empty : List PrecedentRecord → Bool
is_empty [] = true
is_empty (p ∷ ps) = false

unfoldable pub clear_precedents : SessionMetadata → SessionMetadata
clear_precedents s = if is_empty s.precedents then s else record s { precedents = [] }

abbrev pub is_kept : String → PrecedentRecord → Bool
is_kept rejected_target p = not (p.rejected == rejected_target)

unfoldable pub drop_precedents_for : String → SessionMetadata → SessionMetadata
drop_precedents_for rejected_target s =
    let kept = keep_if (is_kept rejected_target) s.precedents in
    let dropped = length s.precedents - length kept in
    if nat_eq dropped 0 then s else record s { precedents = kept }
