-- ===== src/Handoffs/Spec.antt =====
-- What a handoff file promises: a mailbox that holds at most one message.
use mcp_session_router.Base.{Option, none, some, List, [], ◌∷◌}
use mcp_session_router.Json.{Fields}

-- What the wrapper and the hook do with a handoff file.
pub data Command : Type 0 where
  write : Fields → Command
  take : Command
  clear : Command

-- The abstract mailbox: a write replaces the message, a take empties the box.
unfoldable pub act : Command → Option Fields → Option Fields × Option Fields
act (write d) box = (none, some d)
act take box = (box, none)
act clear box = (none, none)

-- The answers of the takes, and the box at the end.
unfoldable pub run : List Command → Option Fields → List (Option Fields) × Option Fields
run [] box = ([], box)
run (c ∷ cs) box =
    let (answer, box') = act c box in let (answers, last) = run cs box' in (answer ∷ answers, last)
