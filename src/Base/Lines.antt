-- ===== src/Base/Lines.antt =====
-- Bytes that are cut into lines at the line feed.
use Prim.Native.Nat.{ℕ, suc, ◌<◌}
use mathlib.Core.Path.{◌≡◌, refl, ap, ◌∙◌, sym}
use mathlib.Core.Logic.{inl, inr}
use mathlib.Core.Bool.{false}
use mathlib.Core.Option.{Option, none, some}
use mathlib.Core.List.{List, [], ◌∷◌, ◌++◌}
use native.Mathlib.Omega.{arith}
use mcp_session_router.Base.Tests.{nat_eq, if◌then◌else◌, Bool-cases}
use mcp_session_router.Base.Lists.{length}

abbrev pub Bytes : Type 0
Bytes = List ℕ

abbrev pub line_feed : ℕ
line_feed = 10

-- buffer.split(b"\n", 1) if a line feed is in it
abbrev pub longer : ℕ → Option (Bytes × Bytes) → Option (Bytes × Bytes)
longer c none = none
longer c (some (line, rest)) = some (c ∷ line, rest)

unfoldable pub split_once : Bytes → Option (Bytes × Bytes)
split_once [] = none
split_once (c ∷ s) =
    let rest = split_once s in if nat_eq c line_feed then some ([], s) else longer c rest

-- The lines that are complete, and what follows the last of them.
abbrev pub lengthen : ℕ → List Bytes × Bytes → List Bytes × Bytes
lengthen c ([], rest) = ([], c ∷ rest)
lengthen c (line ∷ lines, rest) = ((c ∷ line) ∷ lines, rest)

unfoldable pub cut_lines : Bytes → List Bytes × Bytes
cut_lines [] = ([], [])
cut_lines (c ∷ s) =
    let (lines, rest) = cut_lines s in
    if nat_eq c line_feed then ([] ∷ lines, rest) else lengthen c (lines, rest)

-- The lines of a first part, and then those of what is left with the second.
abbrev pub join_cuts : List Bytes × Bytes → Bytes → List Bytes × Bytes
join_cuts (lines, rest) b = let (more, rest') = cut_lines (rest ++ b) in (lines ++ more, rest')

abbrev with_line : List Bytes × Bytes → List Bytes × Bytes
with_line (lines, rest) = ([] ∷ lines, rest)

join_cuts-lengthen :
    (c : ℕ) (p : List Bytes × Bytes) (b : Bytes)
    → nat_eq c line_feed ≡ false
    → join_cuts (lengthen c p) b ≡ lengthen c (join_cuts p b)
unfolding cut_lines
join_cuts-lengthen c ([], rest) b n = rw n refl
join_cuts-lengthen c (line ∷ lines, rest) b n = refl

pub cut_lines-append : (a b : Bytes) → cut_lines (a ++ b) ≡ join_cuts (cut_lines a) b
unfolding cut_lines
cut_lines-append [] b = refl
cut_lines-append (c ∷ a) b = elim (Bool-cases (nat_eq c line_feed)) [
  | inl y ↦ rw y (ap with_line (cut_lines-append a b))
  | inr n ↦
      rw n (ap (lengthen c) (cut_lines-append a b) ∙ sym (join_cuts-lengthen c (cut_lines a) b n))
]

-- The lines from the first cut on.
abbrev pub from_split : Bytes → Option (Bytes × Bytes) → List Bytes × Bytes
from_split s none = ([], s)
from_split s (some (line, rest)) = (line ∷ (cut_lines rest).0, (cut_lines rest).1)

from_split-longer :
    (c : ℕ) (s : Bytes) (o : Option (Bytes × Bytes))
    → lengthen c (from_split s o) ≡ from_split (c ∷ s) (longer c o)
from_split-longer c s none = refl
from_split-longer c s (some p) = refl

pub cut_lines_step : (s : Bytes) → cut_lines s ≡ from_split s (split_once s)
unfolding cut_lines split_once
cut_lines_step [] = refl
cut_lines_step (c ∷ s) = elim (Bool-cases (nat_eq c line_feed)) [
  | inl y ↦ rw y refl
  | inr n ↦ rw n (ap (lengthen c) (cut_lines_step s) ∙ from_split-longer c s (split_once s))
]

-- What is left is shorter than what was split.
abbrev pub IsShorter : ℕ → Option (Bytes × Bytes) → Type 0
IsShorter n none = Unit {0}
IsShorter n (some (line, rest)) = length rest < n

longer-IsShorter :
    (c n : ℕ) (o : Option (Bytes × Bytes)) → IsShorter n o → IsShorter (suc n) (longer c o)
longer-IsShorter c n none h = tt
longer-IsShorter c n (some p) h = omega arith

pub split_once-IsShorter : (s : Bytes) → IsShorter (length s) (split_once s)
unfolding split_once
split_once-IsShorter [] = tt
split_once-IsShorter (c ∷ s) = elim (Bool-cases (nat_eq c line_feed)) [
  | inl y ↦ rw y (omega arith)
  | inr n ↦ rw n (longer-IsShorter c (length s) (split_once s) (split_once-IsShorter s))
]

lengthen_rest :
    (c : ℕ) (p : List Bytes × Bytes)
    → nat_eq c line_feed ≡ false
    → cut_lines p.1 ≡ ([], p.1)
    → cut_lines (lengthen c p).1 ≡ ([], (lengthen c p).1)
unfolding cut_lines
lengthen_rest c ([], rest) n h = rw n (ap (lengthen c) h)
lengthen_rest c (line ∷ lines, rest) n h = h

-- What follows the last line holds no line.
pub cut_lines_rest : (s : Bytes) → cut_lines (cut_lines s).1 ≡ ([], (cut_lines s).1)
unfolding cut_lines
cut_lines_rest [] = refl
cut_lines_rest (c ∷ s) = elim (Bool-cases (nat_eq c line_feed)) [
  | inl y ↦ rw y (cut_lines_rest s)
  | inr n ↦ rw n (lengthen_rest c (cut_lines s) n (cut_lines_rest s))
]
