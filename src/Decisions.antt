-- ===== src/Decisions.antt =====
-- src/session_manager/routing/decision_log.py: the log of routing proposals and of the user's
-- answers. A line of the file is the value that `json.loads` gives for it, `none` where it raises
-- (a blank line raises too). A confidence is the number num / 2 ^ exp; the rounding that float()
-- makes of an int beyond 2 ^ 53 is left out. splitlines() cuts the line of an event with a text
-- that holds U+0085, U+2028 or U+2029: its pieces, of which no reader uses one, are one line that
-- is no JSON.
pub mod Replay
pub mod Pairing
pub mod Stats
use Prim.Native.Char.{Char, code}
use mcp_session_router.Base.{
  ℕ, suc, ◌+◌, ◌^◌, leb, nat_eq, Result, ok, err, overflow_error, ◌>>=◌, String, Bool, true, false,
  not, ◌==◌, ◌||◌, if◌then◌else◌, keep_if, any, length, ◌-◌,
}
use mcp_session_router.Base.{Option, none, some, List, [], ◌∷◌, ◌++◌}
use mcp_session_router.Base.Int.{ℤ, pos, negsuc}
use mcp_session_router.Base.Dict.{Dict, lookup, insert, map_values}
use mcp_session_router.Json.{
  Json, null, bool, int, float, str, obj, Fields, end, field, get, fields,
}

abbrev pub Number : Type 0
Number = ℤ × ℕ

-- isinstance(v, int | float), and float(v): a bool is an int.
abbrev pub as_number : Option Json → Option Number
as_number (some (bool true)) = some (pos 1, 0)
as_number (some (bool false)) = some (pos 0, 0)
as_number (some (int n)) = some (n, 0)
as_number (some (float n k)) = some (n, k)
as_number _ = none

-- The least int that float() refuses.
abbrev pub float_limit : ℕ
float_limit = 2 ^ 1024 - 2 ^ 970

abbrev pub is_too_large : ℤ → Bool
is_too_large (pos n) = leb float_limit n
is_too_large (negsuc n) = leb float_limit (n + 1)

-- The same where float() raises for a large int.
abbrev pub float_of : Option Json → Result (Option Number)
float_of (some (int n)) = if is_too_large n then err overflow_error else ok (some (n, 0))
float_of value = ok (as_number value)

-- isinstance(v, str)
abbrev pub as_text : Option Json → Option String
as_text (some (str s)) = some s
as_text _ = none

-- The proposals of a target that no answer has closed, the last one first.
abbrev pub Stack : Type 0
Stack = List (Number × Option String)

-- _OpenProposals
abbrev pub OpenProposals : Type 0
OpenProposals = Dict Stack

abbrev pub stack_of : Option Stack → Stack
stack_of none = []
stack_of (some stack) = stack

unfoldable pub push : String → Number → Option String → OpenProposals → OpenProposals
push target confidence conv_id stacks =
    insert target ((confidence, conv_id) ∷ stack_of (lookup target stacks)) stacks

abbrev pub pop_stack : String → Stack → OpenProposals → Option Number × OpenProposals
pop_stack target [] stacks = (none, stacks)
pop_stack target ((confidence, conv_id) ∷ stack) stacks =
    (some confidence, insert target stack stacks)

unfoldable pub pop : String → OpenProposals → Option Number × OpenProposals
pop target stacks = pop_stack target (stack_of (lookup target stacks)) stacks

-- cid == conv_id
abbrev pub is_conv : String → Option String → Bool
is_conv conv_id none = false
is_conv conv_id (some c) = c == conv_id

abbrev pub others : String → Stack → Stack
others conv_id = keep_if (λ p. not (is_conv conv_id p.1))

unfoldable pub expire : String → OpenProposals → OpenProposals
unfolding map_values
expire conv_id stacks = map_values (others conv_id) stacks

unfoldable pub has_conv : String → OpenProposals → Bool
has_conv conv_id [] = false
has_conv conv_id ((target, stack) ∷ stacks) =
    any (λ p. is_conv conv_id p.1) stack || has_conv conv_id stacks

pub record Replayed : Type 0 where
  pub pairs : List (Number × Bool)
  pub open_proposals : OpenProposals

abbrev pub nothing : Replayed
nothing = record { pairs = []; open_proposals = [] }

-- What an event is to the replay.
pub data Event : Type 0 where
  expired : String → Event
  proposed : String → Number → Option String → Event
  labeled : String → Bool → Event
  ignored : Event

abbrev pub expire_event : Option String → Event
expire_event none = ignored
expire_event (some conv_id) = expired conv_id

abbrev proposal_event : String → Option Number → Option String → Event
proposal_event target none conv_id = ignored
proposal_event target (some confidence) conv_id = proposed target confidence conv_id

abbrev label_event : String → Option String → Event
label_event target none = ignored
label_event target (some label) =
    if label == "accept"
    then labeled target true
    else if label == "reject"
    then labeled target false
    else ignored

abbrev targeted_event : String → Option String → Fields → Result Event
targeted_event kind none d = ok ignored
targeted_event kind (some target) d =
    if target == ""
    then ok ignored
    else if kind == "proposal"
    then (float_of (get "confidence" d) >>= λ c.
        ok (proposal_event target c (as_text (get "conv_id" d))))
    else if kind == "label"
    then ok (label_event target (as_text (get "label" d)))
    else ok ignored

abbrev typed_event : Option String → Fields → Result Event
typed_event none d = ok ignored
typed_event (some kind) d =
    if kind == "expire"
    then ok (expire_event (as_text (get "conv_id" d)))
    else targeted_event kind (as_text (get "target" d)) d

-- The reads and the tests of the loop's body.
unfoldable pub event_of : Fields → Result Event
event_of d = typed_event (as_text (get "type" d)) d

abbrev pub close_pair : Bool → Option Number × OpenProposals → Replayed → Replayed
close_pair accepted (none, stacks) r = r
close_pair accepted (some confidence, stacks) r = record {
  pairs = r.pairs ++ ((confidence, accepted) ∷ []);
  open_proposals = stacks;
}

-- The effects of the loop's body.
unfoldable pub step : Event → Replayed → Replayed
step (expired conv_id) r = record r { open_proposals = expire conv_id r.open_proposals }
step (proposed target confidence conv_id) r = record r {
  open_proposals = push target confidence conv_id r.open_proposals;
}
step (labeled target accepted) r = close_pair accepted (pop target r.open_proposals) r
step ignored r = r

-- _replay
unfoldable pub replay_from : Replayed → List Fields → Result Replayed
replay_from r [] = ok r
replay_from r (d ∷ events) = event_of d >>= λ e. replay_from (step e r) events

unfoldable pub replay : List Fields → Result Replayed
unfolding replay_from
replay = replay_from nothing

abbrev pub labeled_pairs : List Fields → Result (List (Number × Bool))
labeled_pairs events = replay events >>= λ r. ok r.pairs

unfoldable pub has_open_proposal : List Fields → String → Result Bool
has_open_proposal events conv_id = replay events >>= λ r. ok (has_conv conv_id r.open_proposals)

abbrev pub Line : Type 0
Line = Option Json

-- load_events: the lines that are JSON objects.
unfoldable pub load_events : List Line → List Fields
load_events [] = []
load_events (some (obj d) ∷ lines) = d ∷ load_events lines
load_events (_ ∷ lines) = load_events lines

-- A line separator that JSON does not escape.
abbrev is_separator : Char → Bool
is_separator c = nat_eq (code c) 133 || nat_eq (code c) 8232 || nat_eq (code c) 8233

abbrev pub has_separator : String → Bool
has_separator String.[] = false
has_separator (String.◌∷◌ c s) = is_separator c || has_separator s

abbrev is_text_cut : Json → Bool
is_text_cut (str s) = has_separator s
is_text_cut _ = false

-- The events that are written hold texts and numbers only.
abbrev pub is_cut : Fields → Bool
is_cut end = false
is_cut (field key value d) = is_text_cut value || is_cut d

-- The lines that are read of the line that is written.
abbrev pub written : Fields → List Line
written event = if is_cut event then none ∷ [] else some (obj event) ∷ []

-- A failed write is logged and dropped.
unfoldable pub append : Bool → Fields → List Line → List Line
append writable event lines = if writable then lines ++ written event else lines

abbrev pub optional_field : String → Option String → Dict Json
optional_field key none = []
optional_field key (some v) = (key, str v) ∷ []

abbrev pub proposal_fields :
    String → Number → String → Option String → Option String → String → Fields
proposal_fields target confidence mode target_status conv_id now = fields (
    ("type", str "proposal")
    ∷ ("target", str target)
    ∷ ("confidence", float confidence.0 confidence.1)
    ∷ ("mode", str mode)
    ∷ ("at", str now)
    ∷ (optional_field "target_status" target_status ++ optional_field "conv_id" conv_id))

abbrev pub label_fields : String → String → String → Option String → String → Fields
label_fields target label source kept_in now = fields (
    ("type", str "label")
    ∷ ("label", str label)
    ∷ ("target", str target)
    ∷ ("source", str source)
    ∷ ("at", str now)
    ∷ optional_field "kept_in" kept_in)

abbrev pub expire_fields : String → String → Fields
expire_fields conv_id now =
    fields (("type", str "expire") ∷ ("conv_id", str conv_id) ∷ ("at", str now) ∷ [])

unfoldable pub append_proposal :
    Bool → String → Number → String → Option String → Option String → String → List Line → List Line
append_proposal writable target confidence mode target_status conv_id now lines =
    append writable (proposal_fields target confidence mode target_status conv_id now) lines

unfoldable pub append_label :
    Bool → String → String → String → Option String → String → List Line → List Line
append_label writable target label source kept_in now lines =
    append writable (label_fields target label source kept_in now) lines

unfoldable pub expire_ignored_proposals :
    Bool → String → String → List Line → Result (List Line × Bool)
expire_ignored_proposals writable conv_id now lines =
    has_open_proposal (load_events lines) conv_id >>= λ is_open.
    if is_open
    then ok (append writable (expire_fields conv_id now) lines, true)
    else ok (lines, false)

abbrev pub is_proposal : Fields → Bool
is_proposal d = elim (as_text (get "type" d)) [ none ↦ false | some kind ↦ kind == "proposal" ]

-- sum(1 for x in xs if p(x))
abbrev pub count_if {ℓ} : {A : Type ℓ} → (A → Bool) → List A → ℕ
count_if p [] = 0
count_if p (x ∷ xs) = (if p x then 1 else 0) + count_if p xs

pub record AcceptanceStats : Type 0 where
  pub accepted : ℕ
  pub rejected : ℕ
  pub unlabeled : ℕ

abbrev pub is_accepted : Number × Bool → Bool
is_accepted p = p.1

-- The differences are of naturals: neither would be negative (Decisions/Stats).
abbrev pub counted : List Fields → List (Number × Bool) → AcceptanceStats
counted events pairs =
    let accepted = count_if is_accepted pairs in
    record {
      accepted = accepted;
      rejected = length pairs - accepted;
      unlabeled = count_if is_proposal events - length pairs;
    }

unfoldable pub acceptance_stats : List Line → Result AcceptanceStats
acceptance_stats lines =
    let events = load_events lines in labeled_pairs events >>= λ pairs. ok (counted events pairs)
