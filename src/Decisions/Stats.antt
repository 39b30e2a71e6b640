-- ===== src/Decisions/Stats.antt =====
-- acceptance_stats of routing/decision_log.py: the counts of the log.
use mcp_session_router.Base.{
  ℕ, ◌+◌, ◌≤◌, String, ◌≡◌, refl, Bool, if◌then◌else◌, arith, ap, length, length-append,
  length-keep_if,
}
use mcp_session_router.Base.{Result, ok, err, ok_injective, bind-ok, Option, List, [], ◌∷◌}
use mcp_session_router.Base.Dict.{lookup, insert}
use mcp_session_router.Json.{Fields}
use mcp_session_router.Decisions.{
  Number, Stack, stack_of, OpenProposals, push, pop, pop_stack, expire, Replayed, nothing, Event,
  proposed, labeled, expired, ignored, step, close_pair, event_of, replay_from, replay, load_events,
  Line, is_proposal, count_if, is_accepted, acceptance_stats, counted, AcceptanceStats,
}

-- The open proposals of all targets.
abbrev open_count : OpenProposals → ℕ
open_count [] = 0
open_count ((target, stack) ∷ stacks) = length stack + open_count stacks

open_count-insert :
    (target : String) (stack : Stack) (stacks : OpenProposals)
    → open_count (insert target stack stacks) + length (stack_of (lookup target stacks))
      ≡ open_count stacks + length stack
unfolding insert lookup
open_count-insert target stack [] = omega arith
open_count-insert target stack ((t, s) ∷ stacks) =
    ground (arith, open_count-insert target stack stacks)

open_count-push :
    (target : String) (c : Number) (conv_id : Option String) (stacks : OpenProposals)
    → open_count (push target c conv_id stacks) ≡ open_count stacks + 1
unfolding push
open_count-push target c conv_id stacks =
    omega (arith, open_count-insert target ((c, conv_id) ∷ stack_of (lookup target stacks)) stacks)

open_count-expire :
    (conv_id : String) (stacks : OpenProposals)
    → open_count (expire conv_id stacks) ≤ open_count stacks
unfolding expire
open_count-expire conv_id [] = omega arith
open_count-expire conv_id ((t, s) ∷ stacks) =
    omega (arith, open_count-expire conv_id stacks, length-keep_if _ s)

-- A closed pair comes from an open proposal.
abbrev total : Replayed → ℕ
total r = length r.pairs + open_count r.open_proposals

total-close_pair :
    (target : String) (accepted : Bool) (stack : Stack) (r : Replayed)
    → stack_of (lookup target r.open_proposals) ≡ stack
    → total (close_pair accepted (pop_stack target stack r.open_proposals) r) ≡ total r
total-close_pair target accepted [] r h = refl
total-close_pair target accepted ((c, conv_id) ∷ stack) r h = omega (
  arith,
  length-append r.pairs ((c, accepted) ∷ []),
  open_count-insert target stack r.open_proposals,
  ap (λ (s : Stack). length s) h,
)

abbrev opens : Event → ℕ
opens (proposed target c conv_id) = 1
opens _ = 0

total-step : (e : Event) (r : Replayed) → total (step e r) ≤ total r + opens e
unfolding step pop
total-step (expired conv_id) r = omega (arith, open_count-expire conv_id r.open_proposals)
total-step (proposed target c conv_id) r =
    omega (arith, open_count-push target c conv_id r.open_proposals)
total-step (labeled target accepted) r =
    omega
      (arith, total-close_pair target accepted (stack_of (lookup target r.open_proposals)) r refl)
total-step ignored r = omega arith

-- Only a line of type "proposal" opens one.
abbrev opens_of : Result Event → ℕ
opens_of (ok e) = opens e
opens_of (err f) = 0

opens-event_of : (d : Fields) → opens_of (event_of d) ≤ (if is_proposal d then 1 else 0)
unfolding event_of
opens-event_of d = ground arith

pairs_bounded :
    (r r' : Replayed) (events : List Fields)
    → replay_from r events ≡ ok r'
    → total r' ≤ total r + count_if is_proposal events
unfolding replay_from
pairs_bounded r r' [] h = omega (arith, ap total (ok_injective h))
pairs_bounded r r' (d ∷ events) h =
    let (e, m, k) = bind-ok (event_of d) (λ e. replay_from (step e r) events) r' h in
    omega
      (arith, pairs_bounded (step e r) r' events k, total-step e r, opens-event_of d, ap opens_of m)

count_if-le-length {ℓ} : {A : Type ℓ} (p : A → Bool) (xs : List A) → count_if p xs ≤ length xs
count_if-le-length p [] = omega arith
count_if-le-length p (x ∷ xs) = ground (arith, count_if-le-length p xs)

-- Where the log can be replayed, the counts of the pairs and of the open proposals are exact.
pub acceptance_stats_lem :
    (lines : List Line) (r : Replayed)
    → replay (load_events lines) ≡ ok r
    → (stats : AcceptanceStats) × (acceptance_stats lines ≡ ok stats)
      × (stats.accepted + stats.rejected ≡ length r.pairs)
      × (stats.accepted + stats.rejected + stats.unlabeled
          ≡ count_if is_proposal (load_events lines))
unfolding acceptance_stats replay
acceptance_stats_lem lines r h =
    let events = load_events lines in
    let a = count_if-le-length is_accepted r.pairs in
    let b = pairs_bounded nothing r events h in
    (counted events r.pairs, rw h refl, omega (arith, a), omega (arith, a, b))
