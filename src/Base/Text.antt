-- ===== src/Base/Text.antt =====
-- Python's tests and cuts of a str, by code points.
use Prim.Native.Char.{Char, code}
use Prim.Native.Nat.{ℕ, zero, suc, ◌-◌, ◌≤◌}
use native.Mathlib.Omega.{arith}
use mathlib.Core.Option.{Option, none, some}
use mathlib.Core.List.{List, [], ◌∷◌}
use Prim.Native.String.{String, ◌++◌ as ◌<>◌}
use mathlib.Core.Path.{◌≡◌, refl}
use mathlib.Core.Bool.{Bool, true, false, ◌&&◌, ◌||◌}
use text.Mathlib.Text.{◌==◌, starts_with}
use mcp_session_router.Base.Tests.{leb, nat_eq, if◌then◌else◌}

abbrev between : ℕ → ℕ → ℕ → Bool
between low n high = leb low n && leb n high

-- c.isspace(), which is also what `\s` matches.
abbrev pub is_space : Char → Bool
is_space c =
    let n = code c in
    between 9 n 13
    || between 28 n 32
    || nat_eq n 133
    || nat_eq n 160
    || nat_eq n 5760
    || between 8192 n 8202
    || between 8232 n 8233
    || nat_eq n 8239
    || nat_eq n 8287
    || nat_eq n 12288

-- What str.splitlines takes for the end of a line.
abbrev pub ends_line : Char → Bool
ends_line c =
    let n = code c in between 10 n 13 || between 28 n 30 || nat_eq n 133 || between 8232 n 8233

-- s.lstrip()
abbrev pub lstrip : String → String
lstrip String.[] = ""
lstrip (String.◌∷◌ c s) = let rest = lstrip s in if is_space c then rest else String.◌∷◌ c s

abbrev pub rstrip : String → String
rstrip String.[] = ""
rstrip (String.◌∷◌ c s) =
    let rest = rstrip s in if is_space c && rest == "" then "" else String.◌∷◌ c rest

-- s.strip()
abbrev pub strip : String → String
strip s = rstrip (lstrip s)

-- s.splitlines()[0] of a text that has a line
abbrev pub first_line : String → String
first_line String.[] = ""
first_line (String.◌∷◌ c s) =
    let rest = first_line s in if ends_line c then "" else String.◌∷◌ c rest

-- What follows two number signs, if the text starts with them.
abbrev after_signs : String → String
after_signs (String.◌∷◌ c (String.◌∷◌ d s)) =
    if nat_eq (code c) b'#' && nat_eq (code d) b'#' then s else ""
after_signs _ = ""

-- A match of `^##\s*<mark>` with re.MULTILINE: the sign opens the text or follows a line feed.
abbrev pub has_heading_from : String → Bool → String → Bool
has_heading_from mark at_start String.[] = false
has_heading_from mark at_start (String.◌∷◌ c s) =
    (at_start && starts_with (lstrip (after_signs (String.◌∷◌ c s))) mark)
    || has_heading_from mark (nat_eq (code c) 10) s

abbrev pub has_heading : String → String → Bool
has_heading mark s = has_heading_from mark true s

-- part in s
abbrev pub has_part : String → String → Bool
has_part part String.[] = part == ""
has_part part (String.◌∷◌ c s) = starts_with (String.◌∷◌ c s) part || has_part part s

-- len(s)
abbrev pub chars : String → ℕ
chars String.[] = 0
chars (String.◌∷◌ c s) = suc (chars s)

-- s[n:]
abbrev pub drop_chars : ℕ → String → String
drop_chars zero s = s
drop_chars (suc n) String.[] = ""
drop_chars (suc n) (String.◌∷◌ c s) = drop_chars n s

-- s[:n]
abbrev pub take_chars : ℕ → String → String
take_chars zero s = ""
take_chars (suc n) String.[] = ""
take_chars (suc n) (String.◌∷◌ c s) = String.◌∷◌ c (take_chars n s)

pub chars-drop_chars : (n : ℕ) (s : String) → chars (drop_chars n s) ≡ chars s - n
chars-drop_chars zero s = omega arith
chars-drop_chars (suc n) String.[] = omega arith
chars-drop_chars (suc n) (String.◌∷◌ c s) = omega (arith, chars-drop_chars n s)

pub chars-take_chars : (n : ℕ) (s : String) → chars (take_chars n s) ≤ n
chars-take_chars zero s = omega arith
chars-take_chars (suc n) String.[] = omega arith
chars-take_chars (suc n) (String.◌∷◌ c s) = omega (arith, chars-take_chars n s)

-- s.split("\n", 1)[1], or none if there is no line feed
abbrev pub after_line : String → Option String
after_line String.[] = none
after_line (String.◌∷◌ c s) = let rest = after_line s in if nat_eq (code c) 10 then some s else rest

-- sep.join(parts)
abbrev pub join : String → List String → String
join sep [] = ""
join sep (s ∷ []) = s
join sep (s ∷ t ∷ ts) = s <> (sep <> join sep (t ∷ ts))

strip_example : strip "  ab c \t" ≡ "ab c"
strip_example = refl

first_line_example : first_line "fix it\nnow" ≡ "fix it"
first_line_example = refl

has_heading_example : has_heading "2." "intro\n## 1. a\n##  2. b" ≡ true
has_heading_example = refl
