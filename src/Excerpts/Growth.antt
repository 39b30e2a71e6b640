-- ===== src/Excerpts/Growth.antt =====
-- A transcript that grows, scanned piece by piece.
use mcp_session_router.Base.{
  ℕ, ◌+◌, ◌-◌, ◌≤◌, ◌<◌, ◌≡◌, refl, ◌∙◌, sym, ap, true, false, Bool-cases, Result-cases, inl, inr,
  arith, ltb, nat_eq, if◌then◌else◌, List, [], ◌∷◌, ◌++◌, length, length-append,
}
use mcp_session_router.Base.{Option, none, some, Result, ok, err, ◌>>=◌}
use mcp_session_router.Base.Lines.{
  Bytes, line_feed, cut_lines, cut_lines-append, lengthen, from_split, cut_lines_step, IsShorter,
  split_once, split_once-IsShorter,
}
use mathlib.Core.List.{append_assoc}
use mathlib.Core.Path.{subst}
use mcp_session_router.Json.{Json}
use mcp_session_router.Excerpts.{
  is_blank, event_text, line_chars, drop_bytes, count_lines, scan_data, scan_from,
  scan_dialogue_growth,
}

module _ (loads : Bytes → Option Json) where
  -- What a scan of some bytes adds, without a case for no new line.
  abbrev added : Bytes → ℕ → ℕ → Result (ℕ × ℕ)
  added bytes offset total = do
    total' ← count_lines loads (cut_lines bytes).0 total
    ok (offset + (length bytes - length (cut_lines bytes).1), total')

  count_lines-append :
      (xs ys : List Bytes) (total : ℕ)
      → count_lines loads (xs ++ ys) total ≡ (count_lines loads xs total >>= count_lines loads ys)
  unfolding count_lines
  count_lines-append [] ys total = refl
  count_lines-append (x ∷ xs) ys total = elim (Bool-cases (is_blank x)) [
    | inl y ↦ rw y (count_lines-append xs ys total)
    | inr n ↦ elim (Result-cases (event_text (loads x))) [
      | inl (p, e) ↦ rw (n, e) (count_lines-append xs ys (total + line_chars p))
      | inr (x, e) ↦ rw (n, e) refl
    ]
  ]

  -- The bytes of lines that are complete.
  abbrev flat : List Bytes → Bytes
  flat [] = []
  flat (line ∷ lines) = line ++ (line_feed ∷ flat lines)

  flat-lengthen :
      (c : ℕ) (p : List Bytes × Bytes)
      → flat (lengthen c p).0 ++ (lengthen c p).1 ≡ c ∷ (flat p.0 ++ p.1)
  flat-lengthen c ([], rest) = refl
  flat-lengthen c (line ∷ lines, rest) = refl

  flat-cut_lines : (s : Bytes) → flat (cut_lines s).0 ++ (cut_lines s).1 ≡ s
  unfolding cut_lines
  flat-cut_lines [] = refl
  flat-cut_lines (c ∷ s) = elim (Bool-cases (nat_eq c line_feed)) [
    | inl y ↦ rw y (
        ap (λ x. x ∷ (flat (cut_lines s).0 ++ (cut_lines s).1))
          (let known : line_feed ≡ c = ground arith in known)
        ∙ ap (λ x. c ∷ x) (flat-cut_lines s))
    | inr n ↦ rw n (flat-lengthen c (cut_lines s) ∙ ap (λ x. c ∷ x) (flat-cut_lines s))
  ]

  length_cut : (s : Bytes) → length s ≡ length (flat (cut_lines s).0) + length (cut_lines s).1
  length_cut s =
      ap length (sym (flat-cut_lines s)) ∙ length-append (flat (cut_lines s).0) (cut_lines s).1

  drop_bytes_append : (xs ys : Bytes) → drop_bytes (length xs) (xs ++ ys) ≡ ys
  drop_bytes_append [] ys = refl
  drop_bytes_append (x ∷ xs) ys = drop_bytes_append xs ys

  drop_bytes_all : (xs : Bytes) → drop_bytes (length xs) xs ≡ []
  drop_bytes_all [] = refl
  drop_bytes_all (x ∷ xs) = drop_bytes_all xs

  abbrev scan_cut : Bytes → ℕ → ℕ → List Bytes × Bytes → Result (ℕ × ℕ)
  scan_cut bytes offset total (lines, rest) =
      if nat_eq (length rest) (length bytes) then ok (offset, total) else (do
        total' ← count_lines loads lines total
        ok (offset + (length bytes - length rest), total'))

  abbrev added_cut : Bytes → ℕ → ℕ → List Bytes × Bytes → Result (ℕ × ℕ)
  added_cut bytes offset total (lines, rest) = do
    total' ← count_lines loads lines total
    ok (offset + (length bytes - length rest), total')

  scan_cut-none :
      (bytes : Bytes) (offset total : ℕ)
      → scan_cut bytes offset total ([], bytes) ≡ added_cut bytes offset total ([], bytes)
  unfolding count_lines
  scan_cut-none bytes offset total =
      rw (let known : nat_eq (length bytes) (length bytes) ≡ true = ground arith in known) (
        ap (λ n. ok (n, total))
          (let known : offset ≡ offset + (length bytes - length bytes) = omega arith in known))

  scan_cut-some :
      (bytes : Bytes) (offset total : ℕ) (p : List Bytes × Bytes)
      → length p.1 < length bytes
      → scan_cut bytes offset total p ≡ added_cut bytes offset total p
  scan_cut-some bytes offset total p h =
      rw (let known : nat_eq (length p.1) (length bytes) ≡ false = ground arith in known) refl

  scan_split :
      (bytes : Bytes) (offset total : ℕ) (o : Option (Bytes × Bytes))
      → IsShorter (length bytes) o
      → scan_cut bytes offset total (from_split bytes o)
        ≡ added_cut bytes offset total (from_split bytes o)
  scan_split bytes offset total none h = scan_cut-none bytes offset total
  scan_split bytes offset total (some (line, rest)) h =
      scan_cut-some bytes offset total (from_split bytes (some (line, rest)))
        (omega (arith, length_cut rest))

  scan_data-added :
      (bytes : Bytes) (offset total : ℕ)
      → scan_data loads bytes offset total ≡ added bytes offset total
  scan_data-added bytes offset total =
      subst (λ p. scan_cut bytes offset total p ≡ added_cut bytes offset total p)
        (sym (cut_lines_step bytes))
        (scan_split bytes offset total (split_once bytes) (split_once-IsShorter bytes))

  scan_from-added :
      (file : Bytes) (offset total : ℕ)
      → scan_from loads file offset total ≡ added (drop_bytes offset file) offset total
  unfolding count_lines cut_lines
  scan_from-added file offset total = elim (Bool-cases (nat_eq (length file) offset)) [
    | inl y ↦ rw y (
        subst (λ x. ok (offset, total) ≡ added x offset total)
          (sym (drop_bytes_all file)
            ∙ ap (λ n. drop_bytes n file)
                (let known : length file ≡ offset = ground arith in known))
          (ap (λ n. ok (n, total)) (let known : offset ≡ offset + 0 = omega arith in known)))
    | inr n ↦ rw n (scan_data-added (drop_bytes offset file) offset total)
  ]

  scan_dialogue_growth-added :
      (file : Bytes) (offset total : ℕ)
      → offset ≤ length file
      → scan_dialogue_growth loads (some file) offset total
        ≡ added (drop_bytes offset file) offset total
  unfolding scan_dialogue_growth
  scan_dialogue_growth-added file offset total h =
      rw (let known : ltb (length file) offset ≡ false = ground arith in known)
        (scan_from-added file offset total)

  kept_bytes :
      (a b : Bytes) → drop_bytes (length a - length (cut_lines a).1) (a ++ b) ≡ (cut_lines a).1 ++ b
  kept_bytes a b =
      let front = flat (cut_lines a).0 in
      let rest = (cut_lines a).1 in
      ap (λ n. drop_bytes n (a ++ b))
        (let known : length a - length rest ≡ length front = omega (arith, length_cut a) in known)
      ∙ ap (λ x. drop_bytes (length front) (x ++ b)) (sym (flat-cut_lines a))
      ∙ ap (drop_bytes (length front)) (append_assoc front rest b)
      ∙ drop_bytes_append front (rest ++ b)

  -- The scan of what a second part brings, after the scan of the first.
  added-append :
      (a b : Bytes) (total : ℕ)
      → count_lines loads (cut_lines a).0 0 ≡ ok total
      → added ((cut_lines a).1 ++ b) (length a - length (cut_lines a).1) total ≡ added (a ++ b) 0 0
  added-append a b total h =
      let rest = (cut_lines a).1 in
      let (more, last) = cut_lines (rest ++ b) in
      subst (λ p. added (rest ++ b) (length a - length rest) total ≡ added_cut (a ++ b) 0 0 p)
        (sym (cut_lines-append a b))
        (rw (count_lines-append (cut_lines a).0 more 0, h)
          (ap (λ n. do total' ← count_lines loads more total; ok (n, total'))
            (let known : (length a - length rest) + (length (rest ++ b) - length last)
                  ≡ 0 + (length (a ++ b) - length last) =
                omega (
                  arith,
                  length_cut a,
                  length_cut (rest ++ b),
                  length-append a b,
                  length-append rest b,
                ) in
              known)))

  abbrev offset_of : Result (ℕ × ℕ) → ℕ
  offset_of (ok (offset, total)) = offset
  offset_of (err e) = 0

  abbrev total_of : Result (ℕ × ℕ) → ℕ
  total_of (ok (offset, total)) = total
  total_of (err e) = 0

  -- If a scan of a transcript from its start gave an offset and a total, then continuing from
  -- there after the transcript has grown gives what a scan of the whole gives.
  pub scan_dialogue_growth-append :
      (a b : Bytes) (offset total : ℕ)
      → scan_dialogue_growth loads (some a) 0 0 ≡ ok (offset, total)
      → scan_dialogue_growth loads (some (a ++ b)) offset total
        ≡ scan_dialogue_growth loads (some (a ++ b)) 0 0
  scan_dialogue_growth-append a b offset total h =
      let rest = (cut_lines a).1 in
      let first = sym (scan_dialogue_growth-added a 0 0 (omega arith)) ∙ h in
      elim (Result-cases (count_lines loads (cut_lines a).0 0)) [
        | inl (t, e) ↦
            let both = sym (ap (λ r. do t' ← r; ok (0 + (length a - length rest), t')) e) ∙ first in
            let at_offset : length a - length rest ≡ offset = omega (arith, ap offset_of both) in
            let at_total = ap total_of both in
            scan_dialogue_growth-added (a ++ b) offset total
              (omega (arith, at_offset, length-append a b))
            ∙ ap (λ n. added (drop_bytes n (a ++ b)) n total) (sym at_offset)
            ∙ ap (λ x. added x (length a - length rest) total) (kept_bytes a b)
            ∙ added-append a b total (e ∙ ap ok at_total)
            ∙ sym (scan_dialogue_growth-added (a ++ b) 0 0 (omega arith))
        | inr (x, e) ↦
            let bad = sym (ap (λ r. do t' ← r; ok (0 + (length a - length rest), t')) e) ∙ first in
            cc
      ]
