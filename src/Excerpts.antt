-- ===== src/Excerpts.antt =====
-- src/session_manager/transcript_excerpt.py: what is taken from a conversation's transcript. A file
-- is its bytes or cannot be read; `loads` parses a line, `none` where it is no JSON. The debug log is
-- left out.
pub mod Growth
pub mod Limits
use mcp_session_router.Base.{
  ℕ, suc, zero, ◌+◌, ◌-◌, String, ◌<>◌, Bool, true, false, ◌==◌, ◌||◌, ◌&&◌, ltb, leb, nat_eq,
  if◌then◌else◌, starts_with, List, [], ◌∷◌, ◌++◌, any, length, map,
}
use mcp_session_router.Base.{Option, none, some, Result, ok, err, bad_type, ◌>>=◌}
use mcp_session_router.Base.Lines.{Bytes, cut_lines}
use mcp_session_router.Base.Text.{strip, chars, drop_chars, take_chars, after_line, join}
use mcp_session_router.Json.{Json, str, arr, obj, Fields, Items, nil, cons, get, truthy}

pub data Speaker : Type 0 where
  user assistant : Speaker

abbrev pub speaker_name : Speaker → String
speaker_name user = "user"
speaker_name assistant = "assistant"

-- EXCERPT_MAX_CHARS
abbrev pub excerpt_max_chars : ℕ
excerpt_max_chars = 30000

-- NOISE_PREFIXES
abbrev pub noise_prefixes : List String
noise_prefixes =
    "<command-name>" ∷ "<local-command-caveat>" ∷ "<local-command-stdout>" ∷ "[Request interrupted"
    ∷ []

abbrev pub is_noise : String → Bool
is_noise text = text == "" || any (λ prefix. starts_with text prefix) noise_prefixes

-- p.strip() of the parts that are not blank; a truthy value that is no text has no strip.
abbrev pub part_text : Option Json → Result (Option String)
part_text none = ok none
part_text (some (str s)) = if strip s == "" then ok none else ok (some (strip s))
part_text (some v) = if truthy v then err bad_type else ok none

abbrev is_text_block : Option Json → Bool
is_text_block (some (str s)) = s == "text"
is_text_block _ = false

abbrev block_part : Json → Result (Option String)
block_part (obj block) =
    if is_text_block (get "type" block) then part_text (get "text" block) else ok none
block_part _ = ok none

abbrev keep_part : Option String → List String → List String
keep_part none parts = parts
keep_part (some s) parts = s ∷ parts

abbrev parts_of : Items → Result (List String)
parts_of nil = ok []
parts_of (cons block content) = do
  part ← block_part block
  rest ← parts_of content
  ok (keep_part part rest)

unfoldable pub join_text_blocks : Items → Result String
join_text_blocks content = do parts ← parts_of content; ok (join "\n" parts)

abbrev said : Speaker → Bool → String → Option (Speaker × String)
said who dropped text = if dropped then none else some (who, text)

abbrev user_text : Option Json → Result (Option (Speaker × String))
user_text (some (str s)) = ok (said user (is_noise (strip s)) (strip s))
user_text (some (arr content)) = do
  text ← join_text_blocks content
  ok (said user (is_noise text) text)
user_text _ = ok none

abbrev assistant_text : Option Json → Result (Option (Speaker × String))
assistant_text (some (arr content)) = do
  text ← join_text_blocks content
  ok (said assistant (text == "") text)
assistant_text _ = ok none

abbrev speaker_of : Option Json → Option Speaker
speaker_of (some (str s)) =
    if s == "user" then some user else if s == "assistant" then some assistant else none
speaker_of _ = none

abbrev content_text : Speaker → Option Json → Result (Option (Speaker × String))
content_text user content = user_text content
content_text assistant content = assistant_text content

abbrev is_meta : Option Json → Bool
is_meta none = false
is_meta (some v) = truthy v

abbrev message_text : Speaker → Option Json → Result (Option (Speaker × String))
message_text who (some (obj message)) = content_text who (get "content" message)
message_text who _ = ok none

abbrev text_of_speaker : Fields → Option Speaker → Result (Option (Speaker × String))
text_of_speaker event none = ok none
text_of_speaker event (some who) =
    if is_meta (get "isMeta" event) then ok none else message_text who (get "message" event)

-- Who says what in an event, if it is a line of the dialogue.
unfoldable pub dialogue_text : Fields → Result (Option (Speaker × String))
dialogue_text event = text_of_speaker event (speaker_of (get "type" event))

abbrev pub event_text : Option Json → Result (Option (Speaker × String))
event_text (some (obj event)) = dialogue_text event
event_text _ = ok none

abbrev keep_line : Option (Speaker × String) → List (Speaker × String) → List (Speaker × String)
keep_line none lines = lines
keep_line (some line) lines = line ∷ lines

-- The dialogue of the events of a list.
unfoldable pub dialogue_lines : List (Option Json) → Result (List (Speaker × String))
dialogue_lines [] = ok []
dialogue_lines (event ∷ events) = do
  line ← event_text event
  rest ← dialogue_lines events
  ok (keep_line line rest)

-- deque(fp, maxlen=max_lines), and the events of it that are objects
abbrev pub is_object : Option Json → Bool
is_object (some (obj d)) = true
is_object _ = false

abbrev pub last_of {ℓ} : {A : Type ℓ} → ℕ → List A → List A
last_of n [] = []
last_of n (x ∷ xs) = let rest = last_of n xs in if ltb (length xs) n then x ∷ xs else rest

abbrev pub objects : List (Option Json) → List (Option Json)
objects [] = []
objects (e ∷ es) = let rest = objects es in if is_object e then e ∷ rest else rest

unfoldable pub read_tail_events : ℕ → Option (List (Option Json)) → List (Option Json)
read_tail_events max_lines none = []
read_tail_events max_lines (some lines) = objects (last_of max_lines lines)

abbrev is_user : Speaker → Bool
is_user user = true
is_user assistant = false

-- How many of a list's lines the user says.
abbrev pub count_user : List (Speaker × String) → ℕ
count_user [] = 0
count_user ((who, text) ∷ lines) = let n = count_user lines in if is_user who then suc n else n

-- From the user's last line but `max_exchanges - 1` on, or the whole dialogue: the loop from the end
-- stops at the first line of the user's with enough of them from there on.
unfoldable pub last_exchanges : ℕ → List (Speaker × String) → List (Speaker × String)
last_exchanges max_exchanges [] = []
last_exchanges max_exchanges ((who, text) ∷ lines) =
    let rest = last_exchanges max_exchanges lines in
    if leb max_exchanges (count_user lines) then rest else (who, text) ∷ lines

abbrev pub cut_line : ℕ → Speaker × String → String
cut_line max_chars (who, text) = speaker_name who <> (": " <> take_chars max_chars text)

unfoldable pub extract_dialogue : ℕ → ℕ → List (Option Json) → Result String
extract_dialogue max_exchanges max_chars events = do
  lines ← dialogue_lines events
  ok (join "\n" (map (cut_line max_chars) (last_exchanges max_exchanges lines)))

abbrev pub full_line : Speaker × String → String
full_line (who, text) = speaker_name who <> (": " <> text)

abbrev pub from_line : String → Option String → String
from_line tail none = tail
from_line tail (some rest) = rest

-- full[-max_chars:] from its second line on; full[-0:] is all of it.
abbrev pub tail_of : ℕ → String → String
tail_of zero full = full
tail_of (suc n) full = drop_chars (chars full - suc n) full

unfoldable pub cut_text : ℕ → String → String
cut_text max_chars full =
    let tail = tail_of max_chars full in
    if leb (chars full) max_chars then full else from_line tail (after_line tail)

unfoldable pub extract_full_text : ℕ → Option (List (Option Json)) → Result String
extract_full_text max_chars none = ok ""
extract_full_text max_chars (some events) = do
  lines ← dialogue_lines events
  ok (cut_text max_chars (join "\n" (map full_line lines)))

abbrev pub drop_bytes : ℕ → Bytes → Bytes
drop_bytes zero s = s
drop_bytes (suc n) [] = []
drop_bytes (suc n) (c ∷ s) = drop_bytes n s

-- bytes.strip leaves nothing.
abbrev is_white : ℕ → Bool
is_white c = nat_eq c 32 || leb 9 c && leb c 13

abbrev pub is_blank : Bytes → Bool
is_blank [] = true
is_blank (c ∷ s) = is_white c && is_blank s

abbrev pub line_chars : Option (Speaker × String) → ℕ
line_chars none = 0
line_chars (some (who, text)) = chars text

module _ (loads : Bytes → Option Json) where
  -- The loop over the complete lines.
  unfoldable pub count_lines : List Bytes → ℕ → Result ℕ
  count_lines [] total = ok total
  count_lines (line ∷ lines) total =
      if is_blank line
      then count_lines lines total
      else (do pair ← event_text (loads line); count_lines lines (total + line_chars pair))

  abbrev pub scan_data : Bytes → ℕ → ℕ → Result (ℕ × ℕ)
  scan_data bytes offset total =
      let (lines, rest) = cut_lines bytes in
      if nat_eq (length rest) (length bytes)
      then ok (offset, total)
      else (do total' ← count_lines lines total; ok (offset + (length bytes - length rest), total'))

  abbrev pub scan_from : Bytes → ℕ → ℕ → Result (ℕ × ℕ)
  scan_from file offset total =
      if nat_eq (length file) offset
      then ok (offset, total)
      else scan_data (drop_bytes offset file) offset total

  -- A file that has become shorter is read from its start.
  unfoldable pub scan_dialogue_growth : Option Bytes → ℕ → ℕ → Result (ℕ × ℕ)
  scan_dialogue_growth none offset total = ok (0, 0)
  scan_dialogue_growth (some file) offset total =
      if ltb (length file) offset then scan_from file 0 0 else scan_from file offset total

  abbrev pub second : ℕ × ℕ → ℕ
  second (offset, total) = total

  unfoldable pub dialogue_length : Option Bytes → Result ℕ
  dialogue_length file = do found ← scan_dialogue_growth file 0 0; ok (second found)

abbrev usage_in_message : Option Json → Option Fields → Option Fields
usage_in_message (some (obj usage)) last = some usage
usage_in_message _ last = last

abbrev usage_of_event : Option Speaker → Option Json → Option Fields → Option Fields
usage_of_event (some assistant) (some (obj message)) last =
    usage_in_message (get "usage" message) last
usage_of_event _ _ last = last

abbrev last_usage : List (Option Json) → Option Fields → Option Fields
last_usage [] last = last
last_usage (some (obj event) ∷ events) last =
    last_usage events (usage_of_event (speaker_of (get "type" event)) (get "message" event) last)
last_usage (event ∷ events) last = last_usage events last

unfoldable pub read_last_usage : Option (List (Option Json)) → Option Fields
read_last_usage none = none
read_last_usage (some events) = last_usage events none
