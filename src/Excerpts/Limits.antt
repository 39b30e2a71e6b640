-- ===== src/Excerpts/Limits.antt =====
-- How long an excerpt can get.
use mcp_session_router.Base.{
  ℕ, suc, ◌≤◌, ◌-◌, Result-cases, String, Bool-cases, inl, inr, arith, leb, nat_eq,
}
use mcp_session_router.Base.{Option, none, some, map, List, Result, ok, err}
use mcp_session_router.Base.Text.{join, chars, chars-drop_chars, after_line}
use Prim.Native.Char.{code}
use mcp_session_router.Json.{Json}
use mcp_session_router.Excerpts.{
  full_line, from_line, tail_of, cut_text, extract_full_text, dialogue_lines,
}

abbrev pub IsUpTo : ℕ → Option String → Type 0
IsUpTo n none = Unit {0}
IsUpTo n (some s) = chars s ≤ n

weaken-IsUpTo : (n : ℕ) (o : Option String) → IsUpTo n o → IsUpTo (suc n) o
weaken-IsUpTo n none h = tt
weaken-IsUpTo n (some s) h = omega arith

after_line-IsUpTo : (s : String) → IsUpTo (chars s) (after_line s)
after_line-IsUpTo String.[] = tt
after_line-IsUpTo (String.◌∷◌ c s) = elim (Bool-cases (nat_eq (code c) 10)) [
  | inl y ↦ rw y (omega arith)
  | inr n ↦ rw n (weaken-IsUpTo (chars s) (after_line s) (after_line-IsUpTo s))
]

from_line-chars :
    (n : ℕ) (tail : String) (o : Option String)
    → chars tail ≤ n
    → IsUpTo (chars tail) o
    → chars (from_line tail o) ≤ n
from_line-chars n tail none h u = h
from_line-chars n tail (some s) h u = omega arith

tail_of-chars : (n : ℕ) (full : String) → chars (tail_of (suc n) full) ≤ suc n
tail_of-chars n full = omega (arith, chars-drop_chars (chars full - suc n) full)

cut_text-chars : (n : ℕ) (full : String) → chars (cut_text (suc n) full) ≤ suc n
unfolding cut_text
cut_text-chars n full = elim (Bool-cases (leb (chars full) (suc n))) [
  | inl y ↦ rw y (ground arith)
  | inr z ↦ rw z (
      from_line-chars (suc n) (tail_of (suc n) full) (after_line (tail_of (suc n) full))
        (tail_of-chars n full) (after_line-IsUpTo (tail_of (suc n) full)))
]

abbrev pub AnswersUpTo : ℕ → Result String → Type 0
AnswersUpTo n (ok s) = chars s ≤ n
AnswersUpTo n (err e) = Unit {0}

pub extract_full_text-chars :
    (n : ℕ) (events : Option (List (Option Json)))
    → AnswersUpTo (suc n) (extract_full_text (suc n) events)
unfolding extract_full_text
extract_full_text-chars n none = omega arith
extract_full_text-chars n (some events) = elim (Result-cases (dialogue_lines events)) [
  | inl (lines, e) ↦ rw e (cut_text-chars n (join "\n" (map full_line lines)))
  | inr (x, e) ↦ rw e tt
]
