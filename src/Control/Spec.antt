-- ===== src/Control/Spec.antt =====
-- An abstract view of src/session_manager/wrapper/pty_wrapper.py: what is under way, and the steps
-- between one state of affairs and the next.
use mcp_session_router.Base.{
  ℕ, ◌<◌, Bool, true, false, ◌≡◌, ◌⊎◌, inl, inr, refl, Option, none, some,
}
use mathlib.Core.Path.{subst}
use mcp_session_router.Wrapper.{
  RespawnKind, plain, undo, rollover_request, rollover_swap, Phase, requested, writing,
}

-- The pending transition, the attempt at a handoff document, whether a document is ready, and
-- whether a successor is awaited.
pub data Progress : Type 0 where
  at : Option RespawnKind → Option (ℕ × Phase) → Bool → Bool → Progress

-- The attempt once the child for a transition has been started.
abbrev pub started : RespawnKind → Option (ℕ × Phase) → Option (ℕ × Phase)
started rollover_request (some (n, phase)) = some (n, writing)
started kind asked = asked

-- Moves between sessions, which have nothing to do with a rollover.
abbrev pub IsMove : RespawnKind → Type 0
IsMove plain = Unit {0}
IsMove undo = Unit {0}
IsMove kind = ⊥

pub data Step : Progress → Progress → Type 0 where
  move :
      {kind : RespawnKind} {asked : Option (ℕ × Phase)} {ready swapping : Bool}
      → IsMove kind
      → Step (at none asked ready swapping) (at (some kind) asked ready swapping)
  spawn :
      {kind : RespawnKind} {asked : Option (ℕ × Phase)} {ready swapping : Bool}
      → Step (at (some kind) asked ready swapping) (at none (started kind asked) ready swapping)
  ask :
      Step (at none none false false) (at (some rollover_request) (some (1, requested)) false false)
  ask_again :
      {n : ℕ} {ready swapping : Bool}
      → n < 2
      → Step
          (at none (some (n, writing)) ready swapping)
          (at (some rollover_request) (some (2, requested)) ready swapping)
  ask_in_vain :
      {kind : RespawnKind} {n : ℕ} {ready swapping : Bool}
      → n < 2
      → Step
          (at (some kind) (some (n, writing)) ready swapping)
          (at (some kind) (some (2, requested)) ready swapping)
  accept :
      {n : ℕ} {ready swapping : Bool}
      → Step (at none (some (n, writing)) ready swapping) (at (some rollover_swap) none false true)
  accept_later :
      {kind : RespawnKind} {n : ℕ} {ready swapping : Bool}
      → Step (at (some kind) (some (n, writing)) ready swapping) (at (some kind) none true swapping)
  swap :
      {swapping : Bool}
      → Step (at none none true swapping) (at (some rollover_swap) none false true)
  finish :
      {pending : Option RespawnKind} {asked : Option (ℕ × Phase)} {ready : Bool}
      → Step (at pending asked ready true) (at pending asked ready false)

-- Any number of steps.
pub data Reaches : Progress → Progress → Type 0 where
  here : {p : Progress} → Reaches p p
  after : {p q r : Progress} → Step p q → Reaches q r → Reaches p r

-- The numbers of the attempts that there are.
abbrev pub IsAttempt : ℕ → Type 0
IsAttempt n = (n ≡ 1) ⊎ (n ≡ 2)

unfoldable pub AtMostOne : Option (ℕ × Phase) → Bool → Bool → Type 0
AtMostOne none true true = ⊥
AtMostOne none ready swapping = Unit {0}
AtMostOne (some (n, phase)) false false = IsAttempt n
AtMostOne (some attempt) ready swapping = ⊥

-- At most one of the attempt, the ready document and the awaited successor, and no third attempt.
unfoldable pub Exclusive : Progress → Type 0
Exclusive (at pending asked ready swapping) = AtMostOne asked ready swapping

abbrev pub IsRequested : Option (ℕ × Phase) → Type 0
IsRequested (some (n, requested)) = Unit {0}
IsRequested asked = ⊥

abbrev pub IsElsewhere : Option RespawnKind → Type 0
IsElsewhere (some rollover_request) = ⊥
IsElsewhere pending = Unit {0}

-- An attempt whose request is not on its way to any child.
unfoldable pub Stuck : Progress → Type 0
Stuck (at pending asked ready swapping) = IsElsewhere pending × IsRequested asked

started-AtMostOne :
    (kind : RespawnKind) (asked : Option (ℕ × Phase)) (ready swapping : Bool)
    → AtMostOne asked ready swapping
    → AtMostOne (started kind asked) ready swapping
unfolding AtMostOne
started-AtMostOne rollover_request (some a) false false e = e
started-AtMostOne rollover_request (some a) true s e = absurd e
started-AtMostOne rollover_request (some a) false true e = absurd e
started-AtMostOne rollover_request none ready swapping e = e
started-AtMostOne plain asked ready swapping e = e
started-AtMostOne undo asked ready swapping e = e
started-AtMostOne rollover_swap asked ready swapping e = e

asked_again :
    (n : ℕ) (ready swapping : Bool)
    → AtMostOne (some (n, writing)) ready swapping
    → AtMostOne (some (2, requested)) ready swapping
unfolding AtMostOne
asked_again n false false e = inr refl
asked_again n false true e = absurd e
asked_again n true s e = absurd e

accepted :
    (n : ℕ) (ready swapping : Bool)
    → AtMostOne (some (n, writing)) ready swapping
    → AtMostOne none true swapping
unfolding AtMostOne
accepted n false false e = tt
accepted n false true e = absurd e
accepted n true s e = absurd e

finished :
    (asked : Option (ℕ × Phase)) (ready : Bool)
    → AtMostOne asked ready true
    → AtMostOne asked ready false
unfolding AtMostOne
finished none true e = absurd e
finished none false e = tt
finished (some a) true e = absurd e
finished (some a) false e = absurd e

pub Step-Exclusive : {p q : Progress} → Step p q → Exclusive p → Exclusive q
unfolding Exclusive AtMostOne
Step-Exclusive (move k) e = e
Step-Exclusive (spawn {kind = kind} {asked = asked} {ready = ready} {swapping = swapping}) e =
    started-AtMostOne kind asked ready swapping e
Step-Exclusive ask e = inl refl
Step-Exclusive (ask_again {n = n} {ready = ready} {swapping = swapping} l) e =
    asked_again n ready swapping e
Step-Exclusive (ask_in_vain {n = n} {ready = ready} {swapping = swapping} l) e =
    asked_again n ready swapping e
Step-Exclusive accept e = tt
Step-Exclusive (accept_later {n = n} {ready = ready} {swapping = swapping}) e =
    accepted n ready swapping e
Step-Exclusive swap e = tt
Step-Exclusive (finish {asked = asked} {ready = ready}) e = finished asked ready e

started-IsRequested :
    (kind : RespawnKind) (asked : Option (ℕ × Phase))
    → IsElsewhere (some kind)
    → IsRequested asked
    → IsRequested (started kind asked)
started-IsRequested rollover_request asked e i = absurd e
started-IsRequested plain asked e i = i
started-IsRequested undo asked e i = i
started-IsRequested rollover_swap asked e i = i

moved-IsElsewhere : (kind : RespawnKind) → IsMove kind → IsElsewhere (some kind)
moved-IsElsewhere plain m = tt
moved-IsElsewhere undo m = tt
moved-IsElsewhere rollover_request m = absurd m
moved-IsElsewhere rollover_swap m = absurd m

pub Step-Stuck : {p q : Progress} → Step p q → Stuck p → Stuck q
unfolding Stuck
Step-Stuck (move {kind = kind} m) (e, i) = (moved-IsElsewhere kind m, i)
Step-Stuck (spawn {kind = kind} {asked = asked}) (e, i) = (tt, started-IsRequested kind asked e i)
Step-Stuck ask (e, i) = absurd i
Step-Stuck (ask_again l) (e, i) = absurd i
Step-Stuck (ask_in_vain l) (e, i) = absurd i
Step-Stuck accept (e, i) = absurd i
Step-Stuck accept_later (e, i) = absurd i
Step-Stuck swap (e, i) = absurd i
Step-Stuck finish (e, i) = (e, i)

pub reaches-Exclusive : {p q : Progress} → Reaches p q → Exclusive p → Exclusive q
reaches-Exclusive here e = e
reaches-Exclusive (after s r) e = reaches-Exclusive r (Step-Exclusive s e)

pub reaches-Stuck : {p q : Progress} → Reaches p q → Stuck p → Stuck q
reaches-Stuck here e = e
reaches-Stuck (after s r) e = reaches-Stuck r (Step-Stuck s e)

pub reaches_trans : {p q r : Progress} → Reaches p q → Reaches q r → Reaches p r
reaches_trans here s = s
reaches_trans (after t u) s = after t (reaches_trans u s)

abbrev pub one : {p q : Progress} → Step p q → Reaches p q
one s = after s here

pub reaches_of : {p q : Progress} → p ≡ q → Reaches p q
reaches_of {p = p} e = subst (λ r. Reaches p r) e here

-- The same progress with another pending transition.
abbrev pub over : Option RespawnKind → Progress → Progress
over k (at pending asked ready swapping) = at k asked ready swapping
