-- ===== src/Decisions/Pairing.antt =====
-- Which proposal an answer closes, and which proposals an unanswered prompt closes.
use mcp_session_router.Base.{
  String, ◌≡◌, refl, Bool, true, false, ◌==◌, arith, eq_iff, any, Bool-cases, inl, inr,
}
use mcp_session_router.Base.{ok, Option, none, some, List, [], ◌∷◌, ◌++◌}
use mcp_session_router.Base.Dict.{lookup, insert, lookup-insert, lookup-insert_self}
use mcp_session_router.Decisions.{
  Number, Stack, stack_of, OpenProposals, push, pop, is_conv, others, expire, has_conv, Replayed,
  step, proposed, labeled, expired, is_cut, proposal_fields, label_fields, replay,
  has_open_proposal, load_events, append, Line, append_proposal, append_label,
  expire_ignored_proposals, expire_fields,
}
use mcp_session_router.Decisions.Replay.{
  replay-log, event_of-proposal_fields, event_of-label_fields, event_of-expire_fields, label_text,
}

-- The same open proposals for every target.
abbrev pub SameOpen : OpenProposals → OpenProposals → Type 0
SameOpen a b = (target : String) → stack_of (lookup target a) ≡ stack_of (lookup target b)

-- A push and a pop leave the stack that was there, written twice.
pop-push :
    (target : String) (c : Number) (conv_id : Option String) (stacks : OpenProposals)
    → let stack = stack_of (lookup target stacks) in
      pop target (push target c conv_id stacks)
      ≡ (some c, insert target stack (insert target ((c, conv_id) ∷ stack) stacks))
unfolding pop push
pop-push target c conv_id stacks = rw lookup-insert_self

SameOpen-pop-push :
    (target : String) (c : Number) (conv_id : Option String) (stacks : OpenProposals)
    → let stack = stack_of (lookup target stacks) in
      SameOpen (insert target stack (insert target ((c, conv_id) ∷ stack) stacks)) stacks
SameOpen-pop-push target c conv_id stacks j =
    let stack = stack_of (lookup target stacks) in
    ground (
      arith,
      eq_iff target j,
      lookup-insert target j stack (insert target ((c, conv_id) ∷ stack) stacks),
      lookup-insert target j ((c, conv_id) ∷ stack) stacks,
    )

any-others :
    (conv_id : String) (stack : Stack)
    → any (λ p. is_conv conv_id p.1) (others conv_id stack) ≡ false
any-others conv_id [] = refl
any-others conv_id (p ∷ stack) = ground (arith, any-others conv_id stack)

-- An unanswered prompt of a conversation closes every open proposal made there.
has_conv-expire :
    (conv_id : String) (stacks : OpenProposals) → has_conv conv_id (expire conv_id stacks) ≡ false
unfolding has_conv expire
has_conv-expire conv_id [] = refl
has_conv-expire conv_id ((t, stack) ∷ stacks) =
    ground (arith, any-others conv_id stack, has_conv-expire conv_id stacks)

any-others_ne :
    (conv_id other : String) (stack : Stack)
    → (conv_id == other) ≡ false
    → any (λ p. is_conv other p.1) (others conv_id stack) ≡ any (λ p. is_conv other p.1) stack
any-others_ne conv_id other [] h = refl
any-others_ne conv_id other ((c, none) ∷ stack) h = any-others_ne conv_id other stack h
any-others_ne conv_id other ((c, some v) ∷ stack) h = ground (
  arith,
  eq_iff v conv_id,
  eq_iff v other,
  eq_iff conv_id other,
  any-others_ne conv_id other stack h,
)

has_conv-expire_ne :
    (conv_id other : String) (stacks : OpenProposals)
    → (conv_id == other) ≡ false
    → has_conv other (expire conv_id stacks) ≡ has_conv other stacks
unfolding has_conv expire
has_conv-expire_ne conv_id other [] h = refl
has_conv-expire_ne conv_id other ((t, stack) ∷ stacks) h =
    ground (arith, any-others_ne conv_id other stack h, has_conv-expire_ne conv_id other stacks h)

step-labeled-proposed :
    (target : String) (c : Number) (conv_id : Option String) (accepted : Bool) (r : Replayed)
    → ((step (labeled target accepted) (step (proposed target c conv_id) r)).pairs
        ≡ r.pairs ++ ((c, accepted) ∷ []))
      × SameOpen
          (step (labeled target accepted) (step (proposed target c conv_id) r)).open_proposals
          r.open_proposals
unfolding step
step-labeled-proposed target c conv_id accepted r =
    rw pop-push (refl, SameOpen-pop-push target c conv_id r.open_proposals)

module _ (target : String) (named : (target == "") ≡ false) where
  -- For a non-empty target, a writable log that can be replayed and lines that are not cut at a
  -- separator, an answer logged just after a proposal for it is paired with that proposal's
  -- confidence, the log can still be replayed, and earlier proposals stay open or closed as they
  -- were.
  pub append_label-append_proposal :
      (c : Number) (mode : String) (status conv_id : Option String) (now now' source : String)
      (accepted : Bool) (kept_in : Option String) (lines : List Line) (r : Replayed)
      → replay (load_events lines) ≡ ok r
      → is_cut (proposal_fields target c mode status conv_id now) ≡ false
      → is_cut (label_fields target (label_text accepted) source kept_in now') ≡ false
      → let proposed_lines = append_proposal true target c mode status conv_id now lines in
        let lines' =
          append_label true target (label_text accepted) source kept_in now' proposed_lines in
        (r' : Replayed) × (replay (load_events lines') ≡ ok r')
        × (r'.pairs ≡ r.pairs ++ ((c, accepted) ∷ []))
        × SameOpen r'.open_proposals r.open_proposals
  unfolding append_label append_proposal
  append_label-append_proposal c mode status conv_id now now' source accepted kept_in lines r h u
        v =
      let proposal = proposal_fields target c mode status conv_id now in
      let label = label_fields target (label_text accepted) source kept_in now' in
      (
        step (labeled target accepted) (step (proposed target c conv_id) r),
        replay-log (append true proposal lines) label (labeled target accepted)
            (step (proposed target c conv_id) r) v
            (event_of-label_fields target accepted source kept_in now' named)
            (replay-log lines proposal (proposed target c conv_id) r u
              (event_of-proposal_fields target c mode status conv_id now named) h),
        (step-labeled-proposed target c conv_id accepted r).0,
        (step-labeled-proposed target c conv_id accepted r).1,
      )

-- The log where an expiry was written, or where none was to be.
abbrev Expires : String → Replayed → List Line → Type 0
Expires conv_id r lines =
    (r' : Replayed) × (replay (load_events lines) ≡ ok r')
    × (r'.pairs ≡ r.pairs)
    × (has_conv conv_id r'.open_proposals ≡ false)
    × ((other : String)
        → (conv_id == other) ≡ false
        → has_conv other r'.open_proposals ≡ has_conv other r.open_proposals)

replay_expired :
    (conv_id now : String) (lines : List Line) (r : Replayed)
    → replay (load_events lines) ≡ ok r
    → is_cut (expire_fields conv_id now) ≡ false
    → Expires conv_id r (append true (expire_fields conv_id now) lines)
unfolding step
replay_expired conv_id now lines r h u = (
  step (expired conv_id) r,
  replay-log lines (expire_fields conv_id now) (expired conv_id) r u
      (event_of-expire_fields conv_id now) h,
  refl,
  has_conv-expire conv_id r.open_proposals,
  λ other n. has_conv-expire_ne conv_id other r.open_proposals n,
)

-- With a writable log that can be replayed and a conversation's id and a time that are not cut at
-- a separator, a prompt of that conversation that answers no proposal leaves none made there open,
-- a log that can be replayed, the pairs as they were and other conversations' proposals too, and
-- it reports whether one was open.
pub expire_ignored_proposals_lem :
    (conv_id now : String) (lines : List Line) (r : Replayed)
    → replay (load_events lines) ≡ ok r
    → is_cut (expire_fields conv_id now) ≡ false
    → (lines' : List Line) × (r' : Replayed) × (expire_ignored_proposals true conv_id now lines
        ≡ ok (lines', has_conv conv_id r.open_proposals))
      × (replay (load_events lines') ≡ ok r')
      × (r'.pairs ≡ r.pairs)
      × (has_conv conv_id r'.open_proposals ≡ false)
      × ((other : String)
          → (conv_id == other) ≡ false
          → has_conv other r'.open_proposals ≡ has_conv other r.open_proposals)
unfolding expire_ignored_proposals has_open_proposal
expire_ignored_proposals_lem conv_id now lines r h u =
    elim (Bool-cases (has_conv conv_id r.open_proposals)) [
      | inl e ↦
          let (r', p, q, s, t) = replay_expired conv_id now lines r h u in
          (append true (expire_fields conv_id now) lines, r', rw (h, e) refl, p, q, s, t)
      | inr e ↦ (lines, r, rw (h, e) refl, h, refl, e, λ other n. refl)
    ]

-- With a log that can be replayed no exception comes, whether or not it can be written.
pub expire_ignored_proposals_total :
    (writable : Bool) (conv_id now : String) (lines : List Line) (r : Replayed)
    → replay (load_events lines) ≡ ok r
    → (x : List Line × Bool) × (expire_ignored_proposals writable conv_id now lines ≡ ok x)
unfolding expire_ignored_proposals has_open_proposal
expire_ignored_proposals_total writable conv_id now lines r h =
    elim (Bool-cases (has_conv conv_id r.open_proposals)) [
      | inl e ↦ ((append writable (expire_fields conv_id now) lines, true), rw (h, e) refl)
      | inr e ↦ ((lines, false), rw (h, e) refl)
    ]
