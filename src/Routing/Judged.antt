-- ===== src/Routing/Judged.antt =====
-- Which verdicts the judge host answers.
use mcp_session_router.Base.{
  ◌^◌, ◌≤◌, String, ◌==◌, ◌≡◌, refl, Bool, Bool-cases, true, false, inl, inr, leb, arith, List,
  if◌then◌else◌,
}
use mcp_session_router.Base.{Option, none, some, Result, ok, err, ◌&&◌}
use mcp_session_router.Base.Int.{pos, negsuc}
use mcp_session_router.Base.Text.{strip}
use mcp_session_router.Json.{Json, null, bool, int, float, str, arr, obj, Fields, get}
use mcp_session_router.Session.{SessionMetadata}
use mcp_session_router.Decisions.{Number, is_too_large}
use mcp_session_router.StateFile.{text_given}
use mcp_session_router.Routing

abbrev pub InUnit : Number → Type 0
InUnit (pos n, k) = n ≤ 2 ^ k
InUnit (negsuc n, k) = ⊥

abbrev pub HasText : Option String → Type 0
HasText none = ⊥
HasText (some s) = (s == "") ≡ false

abbrev pub IsQuoted : Routing.RoutingAction → Option String → Option String → Type 0
IsQuoted Routing.switch target evidence = HasText target × HasText evidence
IsQuoted action target evidence = Unit {0}

abbrev pub rejects : Option SessionMetadata → Option String → Bool
rejects (some s) (some target) = Routing.is_rejected target s.precedents
rejects s target = false

abbrev pub IsAllowed : Routing.RoutingAction → Option SessionMetadata → Option String → Type 0
IsAllowed Routing.switch s target = rejects s target ≡ false
IsAllowed action s target = Unit {0}

abbrev pub IsSound : Routing.Verdict → Type 0
IsSound v = IsQuoted v.action v.target v.evidence × InUnit v.confidence

abbrev pub Holds {ℓ} : {A : Type ℓ} → (A → Type 0) → Result A → Type 0
Holds P (ok a) = P a
Holds P (err e) = Unit {0}

abbrev SomeIsSound : Option Routing.Verdict → Type 0
SomeIsSound none = Unit {0}
SomeIsSound (some v) = IsSound v

-- A switch quotes its target and its evidence and has no live precedent against it.
abbrev pub IsSafe : Option SessionMetadata → Routing.Reply → Type 0
IsSafe s (Routing.refused reason) = Unit {0}
IsSafe s (Routing.judged v) = IsSound v × IsAllowed v.action s v.target

clamp-InUnit : (x : Number) → InUnit (Routing.clamp x)
unfolding Routing.clamp
clamp-InUnit (negsuc n, k) = omega arith
clamp-InUnit (pos n, k) = elim (Bool-cases (leb (2 ^ k) n)) [
  | inl y ↦ rw y (omega arith)
  | inr z ↦ rw z (ground arith)
]

confidence_of-InUnit : (j : Option Json) → Holds InUnit (Routing.confidence_of j)
confidence_of-InUnit (some (int n)) = elim (Bool-cases (is_too_large n)) [
  | inl y ↦ rw y tt
  | inr z ↦ rw z (clamp-InUnit (n, 0))
]
confidence_of-InUnit (some (float n k)) = clamp-InUnit (n, k)
confidence_of-InUnit (some (bool true)) = clamp-InUnit (pos 1, 0)
confidence_of-InUnit (some (bool false)) = clamp-InUnit (pos 0, 0)
confidence_of-InUnit (some null) = omega arith
confidence_of-InUnit (some (str s)) = omega arith
confidence_of-InUnit (some (arr s)) = omega arith
confidence_of-InUnit (some (obj s)) = omega arith
confidence_of-InUnit none = omega arith

abbrev OrText : Option String → Type 0
OrText none = Unit {0}
OrText (some s) = (s == "") ≡ false

text-OrText : (s : String) (b : Bool) → (s == "") ≡ b → OrText (if b then none else some s)
text-OrText s true e = tt
text-OrText s false e = e

given-OrText : (j : Option Json) → OrText (text_given j)
given-OrText (some (str s)) = text-OrText s (s == "") refl
given-OrText none = tt
given-OrText (some null) = tt
given-OrText (some (bool b)) = tt
given-OrText (some (int n)) = tt
given-OrText (some (float n k)) = tt
given-OrText (some (arr xs)) = tt
given-OrText (some (obj d)) = tt

stay-IsSound : (reason : String) → IsSound (Routing.stay_verdict reason)
stay-IsSound reason = (tt, omega arith)

verdict_for-IsSound :
    (action : Routing.RoutingAction) (target evidence : Option String) (reason : String)
    (c : Number)
    → OrText target
    → OrText evidence
    → InUnit c
    → IsSound (Routing.verdict_for action target evidence reason c)
unfolding Routing.verdict_for
verdict_for-IsSound Routing.switch (some t) (some e) reason c h k i = ((h, k), i)
verdict_for-IsSound Routing.switch (some t) none reason c h k i = stay-IsSound ""
verdict_for-IsSound Routing.switch none (some e) reason c h k i = stay-IsSound ""
verdict_for-IsSound Routing.switch none none reason c h k i = stay-IsSound ""
verdict_for-IsSound Routing.stay target evidence reason c h k i = (tt, i)
verdict_for-IsSound Routing.new target evidence reason c h k i = (tt, i)
verdict_for-IsSound Routing.ask target evidence reason c h k i = (tt, i)

with_confidence-IsSound :
    (action : Routing.RoutingAction) (d : Fields) (r : Result Number)
    → Holds InUnit r
    → Holds SomeIsSound (Routing.with_confidence action d r)
with_confidence-IsSound action d (err e) i = tt
with_confidence-IsSound action d (ok c) i =
    verdict_for-IsSound action _ _ _ c (given-OrText (get "target" d))
      (given-OrText (get "evidence" d)) i

of_action-IsSound :
    (action : Option Routing.RoutingAction) (d : Fields)
    → Holds SomeIsSound (Routing.of_action action d)
of_action-IsSound none d = tt
of_action-IsSound (some action) d =
    with_confidence-IsSound action d (Routing.confidence_of (get "confidence" d))
      (confidence_of-InUnit (get "confidence" d))

of_json-IsSound : (j : Option Json) → Holds SomeIsSound (Routing.of_json j)
of_json-IsSound (some (obj d)) = of_action-IsSound (Routing.parse_action (get "action" d)) d
of_json-IsSound (some null) = tt
of_json-IsSound (some (bool b)) = tt
of_json-IsSound (some (int n)) = tt
of_json-IsSound (some (float n k)) = tt
of_json-IsSound (some (str s)) = tt
of_json-IsSound (some (arr xs)) = tt
of_json-IsSound none = tt

is_rejected-IsAllowed :
    (action : Routing.RoutingAction) (s : SessionMetadata) (target : String)
    → (Routing.is_switch action && Routing.is_rejected target s.precedents) ≡ false
    → IsAllowed action (some s) (some target)
is_rejected-IsAllowed Routing.switch s target n = n
is_rejected-IsAllowed Routing.stay s target n = tt
is_rejected-IsAllowed Routing.new s target n = tt
is_rejected-IsAllowed Routing.ask s target n = tt

rejects-IsAllowed :
    (action : Routing.RoutingAction) (s : Option SessionMetadata) (target : Option String)
    → rejects s target ≡ false
    → IsAllowed action s target
rejects-IsAllowed Routing.switch s target n = n
rejects-IsAllowed Routing.stay s target n = tt
rejects-IsAllowed Routing.new s target n = tt
rejects-IsAllowed Routing.ask s target n = tt

gate-IsSafe :
    (v : Routing.Verdict) (s : Option SessionMetadata) (target : Option String)
    → v.target ≡ target
    → IsSound v
    → IsSafe s (Routing.judged (Routing.gate v s target))
gate-IsSafe v (some s) (some target) e i =
    elim (Bool-cases (Routing.is_switch v.action && Routing.is_rejected target s.precedents)) [
      | inl y ↦ rw y (stay-IsSound "", tt)
      | inr n ↦ rw n (i, rw e (is_rejected-IsAllowed v.action s target n))
    ]
gate-IsSafe v (some s) none e i = (i, rw e (rejects-IsAllowed v.action (some s) none refl))
gate-IsSafe v none target e i = (i, rejects-IsAllowed v.action none v.target refl)

suppress-IsSafe :
    (v : Routing.Verdict) (s : Option SessionMetadata)
    → IsSound v
    → IsSafe s (Routing.judged (Routing.suppress v s))
unfolding Routing.suppress
suppress-IsSafe v s i = gate-IsSafe v s v.target refl i

module _ (loads : String → Option Json) where
  parse_verdict-IsSound : (text : String) → Holds SomeIsSound (Routing.parse_verdict loads text)
  unfolding Routing.parse_verdict
  parse_verdict-IsSound text = elim (Bool-cases (Routing.strip_fences text == "")) [
    | inl y ↦ rw y tt
    | inr n ↦ rw n (of_json-IsSound (loads (Routing.strip_fences text)))
  ]

  suppressed-IsSafe :
      (s : Option SessionMetadata) (r : Result (Option Routing.Verdict))
      → Holds SomeIsSound r
      → Holds (IsSafe s) (Routing.suppressed loads s r)
  suppressed-IsSafe s (err e) i = tt
  suppressed-IsSafe s (ok none) i = suppress-IsSafe _ s (stay-IsSound "")
  suppressed-IsSafe s (ok (some v)) i = suppress-IsSafe v s i

  reply_to-IsSafe :
      (s : Option SessionMetadata) (raw : Option String)
      → Holds (IsSafe s) (Routing.reply_to loads s raw)
  reply_to-IsSafe s none = suppress-IsSafe _ s (stay-IsSound "")
  reply_to-IsSafe s (some raw) =
      suppressed-IsSafe s (Routing.parse_verdict loads raw) (parse_verdict-IsSound raw)

  module _
      (round_trip : String → List SessionMetadata → Option String → String → Option String) where
    current_of : Fields → List SessionMetadata → Option SessionMetadata
    current_of request ss =
        Routing.resolve_current_session (text_given (get "session_id" request)) ss

    serve_text-IsSafe :
        (request : Fields) (excerpt : String) (ss : List SessionMetadata) (j : Option Json)
        → Holds
            (IsSafe (current_of request ss))
            (Routing.serve_text loads round_trip request excerpt ss j)
    unfolding current_of
    serve_text-IsSafe request excerpt ss (some (str prompt)) =
        elim (Bool-cases (strip prompt == "")) [
          | inl y ↦ rw y tt
          | inr n ↦ rw n (reply_to-IsSafe _ _)
        ]
    serve_text-IsSafe request excerpt ss (some null) = tt
    serve_text-IsSafe request excerpt ss (some (bool b)) = tt
    serve_text-IsSafe request excerpt ss (some (int n)) = tt
    serve_text-IsSafe request excerpt ss (some (float n k)) = tt
    serve_text-IsSafe request excerpt ss (some (arr xs)) = tt
    serve_text-IsSafe request excerpt ss (some (obj d)) = tt
    serve_text-IsSafe request excerpt ss none = tt

    -- Whatever the model answers, a verdict of the judge host has a confidence between 0 and 1,
    -- and a SWITCH among them names a target and evidence, and its target is none that a precedent
    -- of the current session keeps out.
    pub serve_request-IsSafe :
        (request : Fields) (excerpt : String) (ss : List SessionMetadata)
        → Holds
            (IsSafe (Routing.resolve_current_session (text_given (get "session_id" request)) ss))
            (Routing.serve_request loads round_trip request excerpt ss)
    unfolding Routing.serve_request current_of
    serve_request-IsSafe request excerpt ss =
        serve_text-IsSafe request excerpt ss (get "prompt" request)
