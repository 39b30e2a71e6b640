-- ===== src/Turns.antt =====
-- src/session_manager/rollover.py: check_trigger_turn, which reads off a transcript where the request
-- of a handoff document stands. `parse` reads a time.
pub mod Stable
use mcp_session_router.Base.{String, Bool, true, false, ◌==◌, if◌then◌else◌, List, [], ◌∷◌}
use mcp_session_router.Base.{Option, none, some, Result, ok, err, bad_type, ◌>>=◌}
use mcp_session_router.Base.Text.{strip, has_part, join}
use mcp_session_router.Base.Times.{Time, is_before}
use mcp_session_router.Json.{Json, str, arr, obj, Fields, Items, nil, cons, get, get_or, truthy}
use mcp_session_router.Excerpts.{read_tail_events}
use mcp_session_router.Rollovers.{TurnStatus, waiting, missing, answered}

abbrev is_str : String → Option Json → Bool
is_str text (some (str s)) = s == text
is_str text _ = false

abbrev is_type : String → Fields → Bool
is_type name event = is_str name (get "type" event)

-- `"\n".join(p for p in parts if p)` raises for a truthy part that is no text.
abbrev with_part : Json → List String → Result (List String)
with_part (str s) parts = if s == "" then ok parts else ok (s ∷ parts)
with_part v parts = if truthy v then err bad_type else ok parts

abbrev with_block : Json → List String → Result (List String)
with_block (obj block) parts =
    if is_type "text" block then with_part (get_or "text" (str "") block) parts else ok parts
with_block v parts = ok parts

abbrev block_parts : Items → Result (List String)
block_parts nil = ok []
block_parts (cons v vs) = do parts ← block_parts vs; with_block v parts

abbrev content_text : Option Json → Result String
content_text (some (str s)) = ok s
content_text (some (arr vs)) = do parts ← block_parts vs; ok (join "\n" parts)
content_text _ = ok ""

-- _event_text
unfoldable pub event_text : Fields → Result String
event_text message = content_text (get "content" message)

abbrev message_text : Option Json → Result String
message_text (some (obj message)) = event_text message
message_text _ = ok ""

-- ts > since, of two times that parse
abbrev later : Option Time → Option Time → Result Bool
later (some ts) (some since) = is_before since ts
later _ _ = ok false

-- What an event is to the request: nothing, its trigger, or another prompt after it.
pub data Mark : Type 0 where
  other triggering foreign : Mark

abbrev pub next_tail {ℓ} : {A : Type ℓ} → Mark → List A → Option (List A) → Option (List A)
next_tail triggering rest tail = some rest
next_tail mark rest tail = tail

abbrev pub next_newer : Mark → Bool → Bool
next_newer foreign newer = true
next_newer mark newer = newer

-- The first answer that is not blank
abbrev pub or_answer : String → Result TurnStatus → Result TurnStatus
or_answer text rest = if strip text == "" then rest else ok (answered text)

abbrev pub answer_of : Result String → Result TurnStatus → Result TurnStatus
answer_of (ok text) rest = or_answer text rest
answer_of (err e) rest = err e

abbrev pub assistant_answer : Option Json → Result TurnStatus → Result TurnStatus
assistant_answer (some (obj message)) rest = answer_of (event_text message) rest
assistant_answer _ rest = rest

unfoldable pub first_answer : List Fields → Result TurnStatus
first_answer [] = ok waiting
first_answer (event ∷ events) =
    let rest = first_answer events in
    if is_type "assistant" event then assistant_answer (get "message" event) rest else rest

abbrev pub status_after : Option (List Fields) × Bool → Result TurnStatus
status_after (some rest, newer) = first_answer rest
status_after (none, newer) = if newer then ok missing else ok waiting

abbrev pub dicts : List (Option Json) → List Fields
dicts [] = []
dicts (some (obj d) ∷ es) = d ∷ dicts es
dicts (e ∷ es) = dicts es

module _ (parse : String → Option Time) (trigger since : String) where
  -- _is_after
  abbrev is_after : Option Json → Result Bool
  is_after (some (str timestamp)) = later (parse timestamp) (parse since)
  is_after _ = ok false

  abbrev mark_text : Result String → Result Mark
  mark_text (ok text) = if has_part trigger text then ok triggering else ok foreign
  mark_text (err e) = err e

  abbrev mark_if : Fields → Bool → Result Mark
  mark_if event after = if after then mark_text (message_text (get "message" event)) else ok other

  unfoldable pub mark_of : Fields → Result Mark
  mark_of event =
      if is_type "user" event then is_after (get "timestamp" event) >>= mark_if event else ok other

  -- The loop, with the events after the last trigger and whether another prompt came.
  unfoldable pub scan :
      List Fields → Option (List Fields) → Bool → Result (Option (List Fields) × Bool)
  scan [] tail newer = ok (tail, newer)
  scan (event ∷ events) tail newer = do
    mark ← mark_of event
    scan events (next_tail mark events tail) (next_newer mark newer)

  unfoldable pub check_events : List Fields → Result TurnStatus
  check_events events = do found ← scan events none false; status_after found

  abbrev pub check_trigger_turn : Option (List (Option Json)) → Result TurnStatus
  check_trigger_turn file = check_events (dicts (read_tail_events 200 file))
