-- ===== src/Handoffs.antt =====
-- src/session_manager/handoff_store.py: the two files that hand a message from the wrapper to the
-- hook. A file is a text or is missing; the debug log and failed writes are left out.
pub mod Spec
pub mod Mailbox
use mcp_session_router.Base.{String, Bool, true, false}
use mcp_session_router.Base.{Option, none, some, List, [], ◌∷◌}
use mcp_session_router.Base.Dict.{insert}
use mcp_session_router.Json.{Json, str, obj, Fields, fields, entries}
use mcp_session_router.Store.{TextFormat}

abbrev pub trigger_prompt : String
trigger_prompt = "[session-manager] 세션 전환 재개"

-- What write_pending stores.
abbrev pub pending_fields : String → Fields → String → String → Fields
pending_fields target handoff user_prompt now = fields (
    ("target", str target)
    ∷ ("handoff", obj handoff)
    ∷ ("user_prompt", str user_prompt)
    ∷ ("at", str now)
    ∷ [])

-- {**notice, "at": now}
abbrev pub notice_fields : Fields → String → Fields
notice_fields notice now = fields (insert "at" (str now) (entries notice))

module _ (F : TextFormat) where
  abbrev pub HandoffFile : Type 0
  HandoffFile = Option F.Text

  -- The file is replaced.
  unfoldable pub write_file : Fields → HandoffFile → HandoffFile
  write_file d file = some (F.dumps (obj d))

  abbrev pub object_or_none : Option Json → Option Fields
  object_or_none (some (obj d)) = some d
  object_or_none _ = none

  -- The file is removed before its text is read as JSON.
  unfoldable pub take_file : HandoffFile → Option Fields × HandoffFile
  take_file none = (none, none)
  take_file (some text) = (object_or_none (F.loads text), none)

  abbrev pub file_pending : HandoffFile → Bool
  file_pending none = false
  file_pending (some text) = true

  -- Whether a file was there, and the file.
  unfoldable pub clear_stale : HandoffFile → Bool × HandoffFile
  clear_stale file = (file_pending file, none)

  abbrev pub write_pending : String → Fields → String → String → HandoffFile → HandoffFile
  write_pending target handoff user_prompt now =
      write_file (pending_fields target handoff user_prompt now)

  abbrev pub write_notice : Fields → String → HandoffFile → HandoffFile
  write_notice notice now = write_file (notice_fields notice now)
