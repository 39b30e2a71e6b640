-- ===== src/Wrapper.antt =====
-- src/session_manager/wrapper/pty_wrapper.py: what SessionManagerWrapper keeps and how it moves from
-- one session to another. A handler is an action on the wrapper and on the files behind it. The
-- terminal, the child process, the debug log and the notices to the user are left out; a write of
-- a handoff file succeeds.
pub mod Transitions
use mcp_session_router.Base.{
  ℕ, String, Bool, true, false, not, ◌==◌, if◌then◌else◌, List, [], ◌∷◌, ◌++◌, keep_if,
}
use mcp_session_router.Base.{Option, none, some, Result, ok, err}
use mcp_session_router.Base.Exec.{Exec, pure, ◌>>=◌, ◌>>◌}
use mcp_session_router.Base.Dict.{Dict}
use mcp_session_router.Json.{Json, str, obj, Fields, end, fields, entries, get}
use mcp_session_router.Session.{SessionMetadata, reactivate}
use mcp_session_router.Store.{TextFormat, Directory, load_session_by_name, mutate_session_by_name}
use mcp_session_router.Decisions.{Line}
use mcp_session_router.Queue.{QueueDir, SummaryTask, kind_departed, kind_active, enqueue}
use mcp_session_router.Handoffs.{HandoffFile, write_pending}
use mcp_session_router.StateFile.{
  StateFile, Transition, text_given, save_last_transition, clear_last_transition,
  save_current_session,
}

-- What a transition is for: the three flags of _PendingRespawn, of which a caller sets at most one.
pub data RespawnKind : Type 0 where
  plain undo rollover_request rollover_swap : RespawnKind

-- _PendingRespawn
pub record PendingRespawn : Type 0 where
  pub target : String
  pub resume_conv : Option String
  pub from_name : Option String
  pub user_prompt : String
  pub kind : RespawnKind
  pub terminated : Bool

pub data Phase : Type 0 where
  requested writing : Phase

-- _rollover_request_state
pub record HandoffRequest : Type 0 where
  pub session : String
  pub number : ℕ
  pub conv_id : String
  pub attempts : ℕ
  pub phase : Phase
  pub request_at : String

-- _rollover_ready, whose path is named by the session and the number
pub record ReadyHandoff : Type 0 where
  pub session : String
  pub number : ℕ
  pub conv_id : String

-- _rollover_swap_state
pub record SwapState : Type 0 where
  pub session : String
  pub number : ℕ
  pub predecessor_conv : String

-- The wrapper's fields about rollovers.
pub record Rollover : Type 0 where
  pub pending_conv_id : Option String
  pub suppressed_conv_id : Option String
  pub request : Option HandoffRequest
  pub ready : Option ReadyHandoff
  pub swap : Option SwapState

-- What the wrapper sends to the MCP server.
pub data Message : Type 0 where
  active_conversation : Option String → Message
  session_command : String → String → Message
  handshake : Option String → Option String → Message

-- What a handler reads of its surroundings: the clock, a new uuid for a queue file and one for a
-- conversation, the flags that every child is given, the newest transcript, which transcripts
-- exist, and which writes succeed.
pub record Host : Type 0 where
  pub now : String
  pub task_stem : String
  pub fresh_conv : String
  pub flags : List String
  pub guess : Option String
  pub has_transcript : String → Bool
  pub log_writable : Bool
  pub state_writable : Bool

-- `text or None`, for a name that may be missing or no text
abbrev pub name_in_handoff : Fields → Option String
name_in_handoff handoff = text_given (get "from" handoff)

-- {k: v for k, v in handoff.items() if k != "user_prompt"}
abbrev pub without_prompt : Fields → Fields
without_prompt handoff = fields (keep_if (λ e. not (e.0 == "user_prompt")) (entries handoff))

abbrev pub is_conv_eq : Option String → Option String → Bool
is_conv_eq none none = true
is_conv_eq (some a) (some b) = a == b
is_conv_eq _ _ = false

-- a or b, of texts or None
abbrev pub or_text : Option String → Option String → Option String
or_text none other = other
or_text (some s) other = if s == "" then other else some s

-- session.claude_conversation_ids[-1]
abbrev pub last_id : List String → Option String
last_id [] = none
last_id (x ∷ []) = some x
last_id (x ∷ y ∷ ys) = last_id (y ∷ ys)

module _ (F : TextFormat) where
  -- SessionManagerWrapper with the files that it shares: `documents` are the handoff documents by
  -- the name of the file, `launched` the command lines of the children so far.
  pub record Wrapper : Type 0 where
    pub pending : Option PendingRespawn
    pub current_session_name : Option String
    pub active_conv_from_hook : Option String
    pub assigned_conv_id : Option String
    pub pushed_conv_id : Option String
    pub entry_check_conv_id : Option String
    pub stale_conv_warned : List String
    pub stale_notice_conv : Option String
    pub last_transition : Option Transition
    pub rollover : Rollover
    pub sent : List Message
    pub launched : List (List String)
    pub sessions : Directory F
    pub decisions : List Line
    pub queue : QueueDir F
    pub pending_file : HandoffFile F
    pub notice_file : HandoffFile F
    pub state_file : StateFile F
    pub documents : Dict String

  abbrev pub Action : Type 0 → Type 0
  Action = Exec Wrapper

  abbrev pub modify : (Wrapper → Wrapper) → Action (Unit {0})
  modify f w = (ok tt, f w)

  -- self.socket_server.send
  abbrev pub send : Message → Wrapper → Wrapper
  send message w = record w { sent = w.sent ++ (message ∷ []) }

  -- `self._active_conv_from_hook or self._assigned_conv_id`
  abbrev pub reported_conv_id : Wrapper → Option String
  reported_conv_id w = or_text w.active_conv_from_hook w.assigned_conv_id

  -- Nothing is sent while the reported conversation stays the same.
  unfoldable pub push_active_conversation : Wrapper → Wrapper
  push_active_conversation w =
      let conv_id = reported_conv_id w in
      if is_conv_eq conv_id w.pushed_conv_id
      then w
      else send (active_conversation conv_id) (record w { pushed_conv_id = conv_id })

  unfoldable pub forget_conversation : Wrapper → Wrapper
  forget_conversation w =
      push_active_conversation (record w { active_conv_from_hook = none; assigned_conv_id = none })

  unfoldable pub handle_handshake_request : Option String → Wrapper → Wrapper
  handle_handshake_request initial_session_name w =
      let conv_id = reported_conv_id w in
      send (handshake (or_text w.current_session_name initial_session_name) conv_id)
        (record w { pushed_conv_id = conv_id })

  module _ (host : Host) where
    abbrev pub current_conv_id : Wrapper → Option String
    current_conv_id w = elim (reported_conv_id w) [
      | none ↦ host.guess
      | some conv_id ↦ some conv_id
    ]

    abbrev pub set_current_session : Option String → Wrapper → Wrapper
    set_current_session name w = record w {
      current_session_name = name;
      state_file = save_current_session F host.state_writable name w.state_file;
    }

    -- An exception is only logged.
    abbrev pub after_reactivate : Wrapper → Result (Option SessionMetadata × Directory F) → Wrapper
    after_reactivate w (err e) = w
    after_reactivate w (ok (s, dir)) = record w { sessions = dir }

    unfoldable pub reactivate_target : String → Wrapper → Wrapper
    reactivate_target target w =
        after_reactivate w (mutate_session_by_name F target (λ s. (reactivate s).0) w.sessions)

    abbrev pub summary_task : String → String → String → SummaryTask
    summary_task session_name conv_id kind = record {
      session_name = session_name;
      conversation_id = conv_id;
      kind = kind;
      requested_at = host.now;
      extra = end;
    }

    abbrev pub after_enqueue : Wrapper → Result (Bool × QueueDir F) → Result (Unit {0}) × Wrapper
    after_enqueue w (err e) = (err e, w)
    after_enqueue w (ok (written, dir)) = (ok tt, record w { queue = dir })

    -- Without a name or a conversation there is nothing to summarise.
    unfoldable pub enqueue_summary : String → Option String → Option String → Action (Unit {0})
    enqueue_summary kind (some session_name) (some conv_id) w =
        after_enqueue w
          (enqueue F host.now host.task_stem (summary_task session_name conv_id kind) w.queue)
    enqueue_summary kind _ _ w = (ok tt, w)

    abbrev pub enqueue_departed_summary : Option String → Action (Unit {0})
    enqueue_departed_summary session_name w =
        enqueue_summary kind_departed session_name (current_conv_id w) w

    abbrev pub enqueue_active_summary : Action (Unit {0})
    enqueue_active_summary w =
        enqueue_summary kind_active w.current_session_name (current_conv_id w) w

    -- A departure is summarised only on a move between two sessions.
    abbrev pub departed : RespawnKind → Option String → Action (Unit {0})
    departed rollover_request from_name = pure tt
    departed rollover_swap from_name = pure tt
    departed kind from_name = enqueue_departed_summary from_name

    abbrev pub from_text : Fields → Option String
    from_text handoff = elim (get "from" handoff) [ some (str s) ↦ some s | _ ↦ none ]

    abbrev pub register : String → Option String → Fields → String → RespawnKind → Wrapper → Wrapper
    register target resume_conv handoff user_prompt kind w =
        let w' = set_current_session (some target) w in
        record w' {
          pending_file =
              write_pending F target (without_prompt handoff) user_prompt host.now w.pending_file;
          pending = some (record {
            target = target;
            resume_conv = resume_conv;
            from_name = from_text handoff;
            user_prompt = user_prompt;
            kind = kind;
            terminated = false;
          });
        }

    abbrev pub transition_idle :
        String → Option String → Fields → String → RespawnKind → Action (Unit {0})
    transition_idle target resume_conv handoff user_prompt kind = do
      modify (reactivate_target target)
      departed kind (name_in_handoff handoff)
      modify (register target resume_conv handoff user_prompt kind)

    abbrev pub transition_unless :
        Option PendingRespawn
        → String
        → Option String
        → Fields
        → String
        → RespawnKind
        → Action (Unit {0})
    transition_unless (some p) target resume_conv handoff user_prompt kind = pure tt
    transition_unless none target resume_conv handoff user_prompt kind =
        transition_idle target resume_conv handoff user_prompt kind

    -- A transition that comes while another one is under way is dropped.
    unfoldable pub execute_transition :
        String → Option String → Fields → String → RespawnKind → Action (Unit {0})
    execute_transition target resume_conv handoff user_prompt kind w =
        transition_unless w.pending target resume_conv handoff user_prompt kind w

    abbrev resumable : Option String → Option String
    resumable none = none
    resumable (some conv) = if host.has_transcript conv then some conv else none

    abbrev resume_of : Result (Option SessionMetadata) → Option String
    resume_of (ok (some s)) = resumable (last_id s.claude_conversation_ids)
    resume_of _ = none

    unfoldable pub resolve_resume_conv : String → Wrapper → Option String
    resolve_resume_conv target w = resume_of (load_session_by_name F target w.sessions)
