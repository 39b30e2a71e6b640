-- ===== src/Tests/Streams.antt =====
-- Runs of the wrapper's socket and of what is read of a transcript.
use mcp_session_router.Base.{
  ◌≡◌, arith, List, ok, String, ◌++◌, inl, inr, refl, true, false, some, none, [], ◌∷◌, Option,
}
use mcp_session_router.Base.Lines.{Bytes, cut_lines}
use mcp_session_router.Json.{Json, Fields, str, obj, field, end}
use mcp_session_router.Sockets.{SocketServer, taken}
use mcp_session_router.Sockets.Frames.{messages}
use mcp_session_router.Sockets.Stream.{feed, feed-messages}
use mcp_session_router.Excerpts.{read_tail_events, count_lines, dialogue_text, scan_dialogue_growth}
use mcp_session_router.Rollovers.{answered}
use mcp_session_router.Turns.{
  check_trigger_turn, check_events, scan, mark_of, first_answer, event_text,
}
use mcp_session_router.Turns.Stable.{check_trigger_turn-append}
use mcp_session_router.Tests.{time}
use mcp_session_router.Excerpts.Growth.{scan_dialogue_growth-append}

abbrev listening : SocketServer
listening = record {
  listening = true;
  client = none;
  read_buffer = [];
  pending = (7, []) ∷ [];
  received = [];
  closed = [];
  detached = [];
}

-- A line says one word of the user's.
abbrev words : Bytes → Option Json
words line = some (
    obj
      (field "type" (str "user") (field "message" (obj (field "content" (str "fix it") end)) end)))

feed-messages_example :
    (feed words
      (λ m. false)
      (λ m. taken)
      7
      ((97, 10 ∷ []) ∷ (98, []) ∷ (10, 99 ∷ 10 ∷ []) ∷ [])
      listening).received
    ≡ messages words (97 ∷ 10 ∷ 98 ∷ 10 ∷ 99 ∷ 10 ∷ [])
unfolding messages cut_lines
feed-messages_example =
    feed-messages words (λ m. false) (λ m. taken) 7
      ((97, 10 ∷ []) ∷ (98, []) ∷ (10, 99 ∷ 10 ∷ []) ∷ []) listening (λ m. refl) refl refl
      (refl, (refl, (refl, tt)))

scan_dialogue_growth-append_example :
    scan_dialogue_growth words (some (97 ∷ 10 ∷ 98 ∷ 99 ∷ 10 ∷ [])) 2 6
    ≡ scan_dialogue_growth words (some (97 ∷ 10 ∷ 98 ∷ 99 ∷ 10 ∷ [])) 0 0
unfolding scan_dialogue_growth count_lines cut_lines dialogue_text
scan_dialogue_growth-append_example =
    scan_dialogue_growth-append words (97 ∷ 10 ∷ 98 ∷ []) (99 ∷ 10 ∷ []) 2 6 refl

abbrev said_at : String → String → String → Fields
said_at who at text =
    field "type" (str who)
      (field "timestamp" (str at) (field "message" (obj (field "content" (str text) end)) end))

abbrev asked : List (Option Json)
asked =
    some (obj (said_at "user" "day 2" "[handoff] write it"))
    ∷ some (obj (said_at "assistant" "day 2" "## 1. Resume"))
    ∷ []

-- An older turn, one that is asked, and one that came after it.
abbrev older : List (Option Json)
older = none ∷ some (obj (said_at "user" "day 1" "fix it")) ∷ []

abbrev said_after : List (Option Json)
said_after = some (obj (said_at "user" "day 2" "and the tests?")) ∷ []

check_trigger_turn-append_example :
    check_trigger_turn time "[handoff]" "day 1" (some (older ++ (asked ++ said_after)))
    ≡ ok (answered "## 1. Resume")
unfolding read_tail_events check_events scan mark_of first_answer event_text
check_trigger_turn-append_example =
    check_trigger_turn-append time "[handoff]" "day 1" older asked said_after "## 1. Resume"
      (omega arith) (tt, (inl refl, tt)) (inr refl, tt) refl
