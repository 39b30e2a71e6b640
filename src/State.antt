-- ===== src/State.antt =====
-- src/session_manager/state.py: the server's pointer to its current session, and its inference
-- from the stored sessions at boot. `datetime.fromisoformat` is the parameter `time`; `none` is the
-- ValueError of a malformed text.
pub mod Resolve
use mcp_session_router.Base.{
  ℕ, String, Bool, true, false, not, ◌&&◌, ◌==◌, if◌then◌else◌, ltb, contains, keep_if,
}
use mcp_session_router.Base.{Option, none, some, List, [], ◌∷◌, Result, ok, err, value_error, ◌>>=◌}
use mcp_session_router.Base.Times.{Time, is_before}
use mcp_session_router.Session.{SessionMetadata, is_active}

pub record ManagerState : Type 0 where
  pub current_session_name : Option String
  pub active_conversation_id : Option String

abbrev pub initial : ManagerState
initial = record { current_session_name = none; active_conversation_id = none }

abbrev pub set_current_session : Option String → ManagerState → ManagerState
set_current_session name st = record st { current_session_name = name }

abbrev pub set_active_conversation_id : Option String → ManagerState → ManagerState
set_active_conversation_id conv_id st = record st { active_conversation_id = conv_id }

-- The loop over the sessions: the first active one that is linked to the conversation.
abbrev pub is_owner : String → SessionMetadata → Bool
is_owner conv_id s = contains s.claude_conversation_ids conv_id && is_active s.status

unfoldable pub find_owner : String → List SessionMetadata → Option SessionMetadata
find_owner conv_id [] = none
find_owner conv_id (s ∷ ss) =
    if contains s.claude_conversation_ids conv_id
    then if is_active s.status then some s else find_owner conv_id ss
    else find_owner conv_id ss

abbrev pub living : List SessionMetadata → List SessionMetadata
living = keep_if (λ s. is_active s.status)

-- living or sessions
abbrev pub or_all : List SessionMetadata → List SessionMetadata → List SessionMetadata
or_all [] sessions = sessions
or_all (s ∷ ss) sessions = s ∷ ss

-- `if active_conversation_id:` holds of a non-empty text.
abbrev pub given : Option String → List SessionMetadata → Option SessionMetadata
given none sessions = none
given (some conv_id) sessions = if conv_id == "" then none else find_owner conv_id sessions

module _ (time : String → Option Time) where
  abbrev pub parse_time : String → Result Time
  parse_time s = elim (time s) [ none ↦ err value_error | some t ↦ ok t ]

  -- max(pool, key=...): the first of the largest; two times of which one has no zone are not
  -- compared.
  unfoldable pub latest_from :
      SessionMetadata → Time → List SessionMetadata → Result SessionMetadata
  latest_from best t [] = ok best
  latest_from best t (s ∷ ss) = do
    u ← parse_time s.last_accessed
    later ← is_before t u
    latest_from (if later then s else best) (if later then u else t) ss

  unfoldable pub latest : SessionMetadata → List SessionMetadata → Result SessionMetadata
  unfolding latest_from
  latest s ss = do t ← parse_time s.last_accessed; latest_from s t ss

  abbrev pub latest_name : List SessionMetadata → Result (Option String)
  latest_name [] = ok none
  latest_name (s ∷ ss) = do best ← latest s ss; ok (some best.name)

  abbrev pub owner_or_latest :
      Option SessionMetadata → List SessionMetadata → Result (Option String)
  owner_or_latest (some s) sessions = ok (some s.name)
  owner_or_latest none sessions = latest_name (or_all (living sessions) sessions)

  unfoldable pub resolve_from_store : List SessionMetadata → Option String → Result (Option String)
  resolve_from_store [] conv = ok none
  resolve_from_store (s ∷ ss) conv = owner_or_latest (given conv (s ∷ ss)) (s ∷ ss)
