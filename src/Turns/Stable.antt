-- ===== src/Turns/Stable.antt =====
-- An answer to the request stays while the transcript grows.
use mcp_session_router.Base.{bind-ok, ok_injective}
use mcp_session_router.Base.{
  ℕ, String, ◌≡◌, refl, sym, ap, ◌∙◌, ◌⊎◌, inl, inr, ◌==◌, Bool, true, false, Bool-cases,
  if◌then◌else◌, List, [], ◌∷◌, ◌++◌, All, ◌>>=◌,
}
use mcp_session_router.Base.{Option, none, some, Result, ok, err}
use mcp_session_router.Base.Text.{strip}
use mcp_session_router.Base.Times.{Time}
use mcp_session_router.Base.{ℕ, ◌≤◌, ltb, length, length-append, arith}
use mcp_session_router.Excerpts.{read_tail_events, objects, last_of}
use mcp_session_router.Turns.{dicts, check_trigger_turn}
use mcp_session_router.Json.{Json, null, bool, int, float, str, arr, obj, Fields, get}
use mcp_session_router.Rollovers.{TurnStatus, answered}
use mcp_session_router.Turns.{
  is_type, Mark, other, triggering, foreign, next_tail, next_newer, answer_of, event_text,
  assistant_answer, first_answer, status_after, mark_of, scan, check_events,
}

answer_of-answered :
    (t text : String) (r : Result String) (a b : Result TurnStatus)
    → (a ≡ ok (answered text) → b ≡ ok (answered text))
    → answer_of r a ≡ ok (answered text)
    → answer_of r b ≡ ok (answered text)
answer_of-answered t text (err e) a b later h = h
answer_of-answered t text (ok s) a b later h = elim (Bool-cases (strip s == "")) [
  | inl y ↦ rw y (later (sym (ap (λ c. if c then a else ok (answered s)) y) ∙ h))
  | inr n ↦ rw n (sym (ap (λ c. if c then a else ok (answered s)) n) ∙ h)
]

assistant_answer-answered :
    (text : String) (o : Option Json) (a b : Result TurnStatus)
    → (a ≡ ok (answered text) → b ≡ ok (answered text))
    → assistant_answer o a ≡ ok (answered text)
    → assistant_answer o b ≡ ok (answered text)
assistant_answer-answered text (some (obj m)) a b later h =
    answer_of-answered text text (event_text m) a b later h
assistant_answer-answered text none a b later h = later h
assistant_answer-answered text (some null) a b later h = later h
assistant_answer-answered text (some (bool c)) a b later h = later h
assistant_answer-answered text (some (int n)) a b later h = later h
assistant_answer-answered text (some (float n k)) a b later h = later h
assistant_answer-answered text (some (str s)) a b later h = later h
assistant_answer-answered text (some (arr vs)) a b later h = later h

first_answer-append :
    (text : String) (es more : List Fields)
    → first_answer es ≡ ok (answered text)
    → first_answer (es ++ more) ≡ ok (answered text)
unfolding first_answer
first_answer-append text [] more h = absurd cc
first_answer-append text (e ∷ es) more h = elim (Bool-cases (is_type "assistant" e)) [
  | inl y ↦ rw y (
      assistant_answer-answered text (get "message" e) (first_answer es) (first_answer (es ++ more))
        (first_answer-append text es more)
        (sym (
            ap
              (λ c.
                if c then assistant_answer (get "message" e) (first_answer es) else first_answer es)
              y)
          ∙ h))
  | inr n ↦ rw n (
      first_answer-append text es more (
        sym (
          ap
            (λ c.
              if c then assistant_answer (get "message" e) (first_answer es) else first_answer es)
            n)
        ∙ h))
]

abbrev lengthened : List Fields → Option (List Fields) → Option (List Fields)
lengthened more none = none
lengthened more (some rest) = some (rest ++ more)

next_tail-lengthened :
    (m : Mark) (es more : List Fields) (t : Option (List Fields))
    → next_tail m (es ++ more) (lengthened more t) ≡ lengthened more (next_tail m es t)
next_tail-lengthened other es more t = refl
next_tail-lengthened triggering es more t = refl
next_tail-lengthened foreign es more t = refl

module _ (parse : String → Option Time) (trigger since : String) where
  -- The event can be read and is no trigger of the request.
  abbrev pub IsNoTrigger : Fields → Type 0
  IsNoTrigger e =
      (mark_of parse trigger since e ≡ ok other) ⊎ (mark_of parse trigger since e ≡ ok foreign)

  scan_quiet :
      (more : List Fields) (t : Option (List Fields)) (n : Bool)
      → All IsNoTrigger more
      → (n' : Bool) × (scan parse trigger since more t n ≡ ok (t, n'))
  unfolding scan
  scan_quiet [] t n a = (n, refl)
  scan_quiet (e ∷ es) t n (inl y, a) = let (n', h) = scan_quiet es t n a in (n', rw y h)
  scan_quiet (e ∷ es) t n (inr y, a) = let (n', h) = scan_quiet es t true a in (n', rw y h)

  scan-append :
      (es more : List Fields) (t t' : Option (List Fields)) (n n' : Bool)
      → scan parse trigger since es t n ≡ ok (t', n')
      → scan parse trigger since (es ++ more) (lengthened more t) n
        ≡ scan parse trigger since more (lengthened more t') n'
  unfolding scan
  scan-append [] more t t' n n' h =
      let same = ok_injective h in
      ap (λ p. scan parse trigger since more (lengthened more p.0) p.1) same
  scan-append (e ∷ es) more t t' n n' h =
      let (m, f, h') =
        bind-ok (mark_of parse trigger since e)
          (λ j. scan parse trigger since es (next_tail j es t) (next_newer j n)) (t', n') h in
      rw f (
        ap (λ o. scan parse trigger since (es ++ more) o (next_newer m n))
          (next_tail-lengthened m es more t)
        ∙ scan-append es more (next_tail m es t) t' (next_newer m n) n' h')

  status_kept :
      (text : String) (more : List Fields) (t : Option (List Fields)) (n n' : Bool)
      → status_after (t, n) ≡ ok (answered text)
      → status_after (lengthened more t, n') ≡ ok (answered text)
  status_kept text more none true n' h = absurd cc
  status_kept text more none false n' h = absurd cc
  status_kept text more (some es) n n' h = first_answer-append text es more h

  check_events-append :
      (es more : List Fields) (text : String)
      → check_events parse trigger since es ≡ ok (answered text)
      → All IsNoTrigger more
      → check_events parse trigger since (es ++ more) ≡ ok (answered text)
  unfolding check_events
  check_events-append es more text h a =
      let ((t, n), f, h') =
        bind-ok (scan parse trigger since es none false) (λ p. status_after p) (answered text) h in
      let (n', q) = scan_quiet more (lengthened more t) n a in
      ap (λ r. r >>= λ p. status_after p) (scan-append es more none t false n f ∙ q)
      ∙ status_kept text more t n n' h'

  -- Another prompt before changes nothing but the flag.
  scan_flag :
      (es : List Fields) (t t' : Option (List Fields)) (n n' k : Bool)
      → scan parse trigger since es t n ≡ ok (t', n')
      → (m : Bool) × (scan parse trigger since es t k ≡ ok (t', m))
  unfolding scan
  scan_flag [] t t' n n' k h = (k, ap (λ p. ok (p.0, k)) (ok_injective h))
  scan_flag (e ∷ es) t t' n n' k h =
      let (m, f, h') =
        bind-ok (mark_of parse trigger since e)
          (λ j. scan parse trigger since es (next_tail j es t) (next_newer j n)) (t', n') h in
      let (b, g) = scan_flag es (next_tail m es t) t' (next_newer m n) n' (next_newer m k) h' in
      (b, rw f g)

  status_any :
      (t : Option (List Fields)) (text : String) (n m : Bool)
      → status_after (t, n) ≡ ok (answered text)
      → status_after (t, m) ≡ ok (answered text)
  status_any none text true m h = absurd cc
  status_any none text false m h = absurd cc
  status_any (some es) text n m h = h

  -- The events before a request are none of its triggers.
  check_events-prepend :
      (old es : List Fields) (text : String)
      → All IsNoTrigger old
      → check_events parse trigger since es ≡ ok (answered text)
      → check_events parse trigger since (old ++ es) ≡ ok (answered text)
  unfolding check_events
  check_events-prepend old es text a h =
      let ((t, n), f, h') =
        bind-ok (scan parse trigger since es none false) (λ p. status_after p) (answered text) h in
      let (n', q) = scan_quiet old none false a in
      let (m, e) = scan_flag es none t false n n' f in
      ap (λ r. r >>= λ p. status_after p) (scan-append old es none none false n' q ∙ e)
      ∙ status_any t text n m h'

  -- A line that is no trigger of the request, if it is an event at all.
  abbrev pub IsQuiet : Option Json → Type 0
  IsQuiet (some (obj d)) = IsNoTrigger d
  IsQuiet line = Unit {0}

  abbrev events_of : List (Option Json) → List Fields
  events_of lines = dicts (objects lines)

  events_of-append : (a b : List (Option Json)) → events_of (a ++ b) ≡ events_of a ++ events_of b
  events_of-append [] b = refl
  events_of-append (none ∷ a) b = events_of-append a b
  events_of-append (some (obj d) ∷ a) b = ap (λ es. d ∷ es) (events_of-append a b)
  events_of-append (some null ∷ a) b = events_of-append a b
  events_of-append (some (bool c) ∷ a) b = events_of-append a b
  events_of-append (some (int n) ∷ a) b = events_of-append a b
  events_of-append (some (float n k) ∷ a) b = events_of-append a b
  events_of-append (some (str s) ∷ a) b = events_of-append a b
  events_of-append (some (arr vs) ∷ a) b = events_of-append a b

  events_of-IsNoTrigger : (a : List (Option Json)) → All IsQuiet a → All IsNoTrigger (events_of a)
  events_of-IsNoTrigger [] q = tt
  events_of-IsNoTrigger (none ∷ a) (q, r) = events_of-IsNoTrigger a r
  events_of-IsNoTrigger (some (obj d) ∷ a) (q, r) = (q, events_of-IsNoTrigger a r)
  events_of-IsNoTrigger (some null ∷ a) (q, r) = events_of-IsNoTrigger a r
  events_of-IsNoTrigger (some (bool c) ∷ a) (q, r) = events_of-IsNoTrigger a r
  events_of-IsNoTrigger (some (int n) ∷ a) (q, r) = events_of-IsNoTrigger a r
  events_of-IsNoTrigger (some (float n k) ∷ a) (q, r) = events_of-IsNoTrigger a r
  events_of-IsNoTrigger (some (str s) ∷ a) (q, r) = events_of-IsNoTrigger a r
  events_of-IsNoTrigger (some (arr vs) ∷ a) (q, r) = events_of-IsNoTrigger a r

  last_of_all : (n : ℕ) (x : List (Option Json)) → length x ≤ n → last_of n x ≡ x
  last_of_all n [] h = refl
  last_of_all n (y ∷ x) h = let fits : ltb (length x) n ≡ true = ground arith in rw fits refl

  -- What is kept of older lines before lines that all fit.
  last_of-append :
      (n : ℕ) (old x : List (Option Json))
      → length x ≤ n
      → All IsQuiet old
      → (kept : List (Option Json)) × All IsQuiet kept × (last_of n (old ++ x) ≡ kept ++ x)
  last_of-append n [] x h q = ([], tt, last_of_all n x h)
  last_of-append n (o ∷ old) x h (q, r) = elim (Bool-cases (ltb (length (old ++ x)) n)) [
    | inl y ↦ (o ∷ old, (q, r), rw y refl)
    | inr z ↦ let (kept, a, e) = last_of-append n old x h r in (kept, a, rw z e)
  ]

  -- Once the last lines of a transcript answer the request, it is answered by the same text
  -- whatever lines came before and after, as long as those can be read and are no triggers of the
  -- request and the lines from there on are at most 200.
  pub check_trigger_turn-append :
      (old lines more : List (Option Json)) (text : String)
      → length (lines ++ more) ≤ 200
      → All IsQuiet old
      → All IsQuiet more
      → check_trigger_turn parse trigger since (some lines) ≡ ok (answered text)
      → check_trigger_turn parse trigger since (some (old ++ (lines ++ more))) ≡ ok (answered text)
  unfolding read_tail_events
  check_trigger_turn-append old lines more text n q r h =
      let (kept, a, e) = last_of-append 200 old (lines ++ more) n q in
      let fits : length lines ≤ 200 = omega (arith, length-append lines more, n) in
      let before =
        sym (ap (λ x. check_events parse trigger since (events_of x)) (last_of_all 200 lines fits))
        ∙ h in
      ap (λ x. check_events parse trigger since (events_of x)) e
      ∙ ap (check_events parse trigger since) (
          events_of-append kept (lines ++ more)
          ∙ ap (λ x. events_of kept ++ x) (events_of-append lines more))
      ∙ check_events-prepend (events_of kept) (events_of lines ++ events_of more) text
          (events_of-IsNoTrigger kept a)
          (check_events-append (events_of lines) (events_of more) text before
            (events_of-IsNoTrigger more r))
