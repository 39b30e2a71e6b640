-- ===== src/Decisions/Replay.antt =====
-- The replay of a log that grows at its end, and what the replay reads of the lines written.
use mcp_session_router.Base.{String, ◌≡◌, refl, Bool, true, false, ◌==◌, arith, ap, ◌∙◌}
use mcp_session_router.Base.{
  Result, ok, err, ok_injective, ◌>>=◌, Option, none, some, List, [], ◌∷◌, ◌++◌,
}
use mcp_session_router.Json.{null, bool, int, float, str, arr, obj, Fields}
use mcp_session_router.Decisions.{
  Number, Event, nothing, is_cut, proposed, labeled, expired, event_of, Replayed, step, replay_from,
  replay, load_events, append, Line, proposal_fields, label_fields, expire_fields,
}

onward :
    (o : Result Event) (r r' : Replayed) (events : List Fields) (d : Fields) {out : Result Replayed}
    → (o >>= λ e. replay_from (step e r) events) ≡ ok r'
    → ((e : Event)
        → replay_from (step e r) events ≡ ok r'
        → replay_from (step e r) (events ++ (d ∷ [])) ≡ out)
    → (o >>= λ e. replay_from (step e r) (events ++ (d ∷ []))) ≡ out
onward (ok e) r r' events d h rest = rest e h
onward (err f) r r' events d h rest = absurd cc

pub replay_from-append :
    (r r' : Replayed) (events : List Fields) (d : Fields) (e : Event)
    → event_of d ≡ ok e
    → replay_from r events ≡ ok r'
    → replay_from r (events ++ (d ∷ [])) ≡ ok (step e r')
unfolding replay_from
replay_from-append r r' [] d e k h = rw (k, ok_injective h) refl
replay_from-append r r' (d' ∷ events) d e k h =
    onward (event_of d') r r' events d h (λ e'. replay_from-append (step e' r) r' events d e k)

pub load_events-append :
    (lines : List Line) (d : Fields)
    → is_cut d ≡ false
    → load_events (append true d lines) ≡ load_events lines ++ (d ∷ [])
unfolding load_events append
load_events-append [] d c = rw c refl
load_events-append (some (obj e) ∷ lines) d c = ap (λ es. e ∷ es) (load_events-append lines d c)
load_events-append (none ∷ lines) d c = load_events-append lines d c
load_events-append (some null ∷ lines) d c = load_events-append lines d c
load_events-append (some (bool b) ∷ lines) d c = load_events-append lines d c
load_events-append (some (int n) ∷ lines) d c = load_events-append lines d c
load_events-append (some (float n k) ∷ lines) d c = load_events-append lines d c
load_events-append (some (str s) ∷ lines) d c = load_events-append lines d c
load_events-append (some (arr xs) ∷ lines) d c = load_events-append lines d c

-- One line more in the log is one step more of the replay.
pub replay-log :
    (lines : List Line) (d : Fields) (e : Event) (r : Replayed)
    → is_cut d ≡ false
    → event_of d ≡ ok e
    → replay (load_events lines) ≡ ok r
    → replay (load_events (append true d lines)) ≡ ok (step e r)
unfolding replay
replay-log lines d e r c k h =
    ap replay (load_events-append lines d c)
    ∙ replay_from-append nothing r (load_events lines) d e k h

pub event_of-proposal_fields :
    (target : String) (c : Number) (mode : String) (status conv_id : Option String) (now : String)
    → (target == "") ≡ false
    → event_of (proposal_fields target c mode status conv_id now) ≡ ok (proposed target c conv_id)
unfolding event_of
event_of-proposal_fields target c mode none none now h = ground arith
event_of-proposal_fields target c mode none (some v) now h = ground arith
event_of-proposal_fields target c mode (some s) none now h = ground arith
event_of-proposal_fields target c mode (some s) (some v) now h = ground arith

-- The text of a label.
abbrev pub label_text : Bool → String
label_text true = "accept"
label_text false = "reject"

pub event_of-label_fields :
    (target : String) (accepted : Bool) (source : String) (kept_in : Option String) (now : String)
    → (target == "") ≡ false
    → event_of (label_fields target (label_text accepted) source kept_in now)
      ≡ ok (labeled target accepted)
unfolding event_of
event_of-label_fields target true source kept_in now h = ground arith
event_of-label_fields target false source kept_in now h = ground arith

pub event_of-expire_fields :
    (conv_id now : String) → event_of (expire_fields conv_id now) ≡ ok (expired conv_id)
unfolding event_of
event_of-expire_fields conv_id now = refl
