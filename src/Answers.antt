-- ===== src/Answers.antt =====
-- src/session_manager/summarizer.py: what is read from a model's answer. `parse` stands for
-- json.loads of a text, and `raw_decode` for JSONDecoder.raw_decode at an opening brace: the value
-- and how many code points of it follow the brace.
use mcp_session_router.Base.{
  ℕ, suc, zero, String, Bool, true, false, not, ◌==◌, nat_eq, if◌then◌else◌, starts_with, List, [],
  ◌∷◌,
}
use mcp_session_router.Base.{Option, none, some}
use mcp_session_router.Base.Text.{strip, after_line}
use mcp_session_router.Json.{Json, str, obj, Fields, get}
use Prim.Native.Char.{Char, code}

-- isinstance(v, str) and v.strip()
abbrev pub is_said : Option Json → Bool
is_said (some (str s)) = not (strip s == "")
is_said _ = false

abbrev said_before : Char → Bool → Option String → Option String
said_before c opens (some s) = some (String.◌∷◌ c s)
said_before c opens none = if opens then some "" else none

-- What stands before the last closing fence, if there is one.
abbrev pub before_fence : String → Option String
before_fence String.[] = none
before_fence (String.◌∷◌ c s) = said_before c (starts_with (String.◌∷◌ c s) "```") (before_fence s)

abbrev text_or : String → Option String → String
text_or s none = s
text_or s (some t) = t

abbrev pub after_opening : String → String
after_opening s = text_or "" (after_line s)

-- text.strip() without a code fence around it
unfoldable pub strip_fence : String → String
strip_fence text =
    let s = strip text in
    if starts_with s "```" then text_or (after_opening s) (before_fence (after_opening s)) else s

abbrev keep_summary : Fields → Option Fields
keep_summary d = if is_said (get "summary" d) then some d else none

abbrev pub with_summary : Option Json → Option Fields
with_summary (some (obj d)) = keep_summary d
with_summary _ = none

abbrev pub has_summary : Fields → Bool
has_summary d = is_said (get "summary" d)

abbrev has_value : Option Json → Bool
has_value none = false
has_value (some v) = true

abbrev pub has_rooted : Fields → Bool
has_rooted d = has_value (get "rooted" d)

-- next((o for o in objects if test(o)), None)
abbrev pub first_with : (Fields → Bool) → List Fields → Option Fields
first_with test [] = none
first_with test (o ∷ os) = let rest = first_with test os in if test o then some o else rest

unfoldable pub parse_summary_response : (String → Option Json) → String → Option Fields
parse_summary_response parse text = with_summary (parse (strip_fence text))

abbrev keep_object : Json → List Fields → List Fields
keep_object (obj d) os = d ∷ os
keep_object v os = os

module _ (raw_decode : String → Option (Json × ℕ)) where
  -- The objects of a text after `skip` code points of it, which a value has taken.
  abbrev pub objects_after : ℕ → String → List Fields
  objects_after skip String.[] = []
  objects_after (suc n) (String.◌∷◌ c s) = objects_after n s
  objects_after zero (String.◌∷◌ c s) =
      let next = objects_after zero s in
      if nat_eq (code c) b'{'
      then elim (raw_decode (String.◌∷◌ c s)) [
        | none ↦ next
        | some (v, n) ↦ keep_object v (objects_after n s)
      ]
      else next

  unfoldable pub parse_json_objects : String → List Fields
  parse_json_objects text = objects_after zero (strip_fence text)
