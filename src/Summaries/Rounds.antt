-- ===== src/Summaries/Rounds.antt =====
-- What one round of a pass does to the queue.
use mcp_session_router.Base.{
  suc, ◌≤◌, String, ◌==◌, eq_iff, ◌≡◌, refl, sym, ap, ◌∙◌, ◌⊎◌, inl, inr, arith, Bool-cases, ◌&&◌,
}
use mcp_session_router.Base.{Option, none, some, Result, ok, err, Bool, true, List, [], ◌∷◌}
use mcp_session_router.Base.Exec.{continue}
use mcp_session_router.Base.Dict.{
  lookup, insert, erase, lookup-insert, lookup-insert_self, lookup-erase,
}
use mathlib.Core.Path.{subst}
use mcp_session_router.Store.{TextFormat}
use mcp_session_router.Queue.{SummaryTask, QueueDir, load_pending_tasks}
use mcp_session_router.Summaries.{
  Outside, Disk, claim, claimed_text, claim_first, usable, among, claim_rooting_check,
  takes_rooting, ride, task_of, process_twice, unlink, restore_claimed, restored_text, mark_failed,
  finish, process_riding, process_claimed,
}
use mcp_session_router.Summaries.Keeps.{KeepsTo, process_twice-KeepsTo}

module _ (F : TextFormat) where
  -- A task file is gone, or as it was.
  abbrev pub Shrinks : Disk F → Disk F → Type 0
  Shrinks d d' = (s : String) → (lookup s d'.tasks ≡ none) ⊎ (lookup s d'.tasks ≡ lookup s d.tasks)

  pub same-Shrinks : (d d' : Disk F) → d'.tasks ≡ d.tasks → Shrinks d d'
  same-Shrinks d d' e s = inr (ap (lookup s) e)

  pub erased-Shrinks : (k : String) (d d' : Disk F) → d'.tasks ≡ erase k d.tasks → Shrinks d d'
  erased-Shrinks k d d' e s = elim (Bool-cases (k == s)) [
    | inl y ↦ inl (ap (lookup s) e ∙ lookup-erase k s d.tasks ∙ ground arith)
    | inr n ↦ inr (ap (lookup s) e ∙ lookup-erase k s d.tasks ∙ ground arith)
  ]

  pub Shrinks-trans : (a b c : Disk F) → Shrinks a b → Shrinks b c → Shrinks a c
  Shrinks-trans a b c f g s = elim (g s) [
    | inl y ↦ inl y
    | inr e ↦ elim (f s) [ inl y ↦ inl (e ∙ y) | inr e' ↦ inr (e ∙ e') ]
  ]

  -- The check that is held while its refresh runs.
  abbrev Held : Disk F → Option (String × SummaryTask) → Disk F → Type 0
  Held d none d' = d'.tasks ≡ d.tasks
  Held d (some (k, task)) d' =
      (text : F.Text) × (lookup k d.tasks ≡ some text)
      × (d'.tasks ≡ erase k d.tasks)
      × (lookup k d'.claimed ≡ some text)

  Held-Shrinks :
      (d : Disk F) (r : Option (String × SummaryTask)) (d' : Disk F) → Held d r d' → Shrinks d d'
  Held-Shrinks d none d' e = same-Shrinks d d' e
  Held-Shrinks d (some (k, task)) d' (text, f, e, c) = erased-Shrinks k d d' e

  Held-kept :
      (d : Disk F) (r : Option (String × SummaryTask)) (a b : Disk F)
      → b.tasks ≡ a.tasks
      → b.claimed ≡ a.claimed
      → Held d r a
      → Held d r b
  Held-kept d none a b t c e = t ∙ e
  Held-kept d (some (k, task)) a b t c (text, f, e, h) = (text, f, t ∙ e, ap (lookup k) c ∙ h)

  abbrev Quiet : Disk F → Disk F → Type 0
  Quiet d d' = (d'.calls ≡ d.calls) × (d'.sessions ≡ d.sessions)

  claimed-Held :
      (k : String) (task : SummaryTask) (o : Option F.Text) (d : Disk F)
      → lookup k d.tasks ≡ o
      → (claimed_text F k o d).0 ≡ true
      → Held d (some (k, task)) (claimed_text F k o d).1 × Quiet d (claimed_text F k o d).1
  claimed-Held k task none d e h = absurd cc
  claimed-Held k task (some text) d e h =
      ((text, e, refl, lookup-insert_self k text d.claimed), (refl, refl))

  claim-Held :
      (k : String) (task : SummaryTask) (d : Disk F)
      → (claim F k d).0 ≡ true
      → Held d (some (k, task)) (claim F k d).1 × Quiet d (claim F k d).1
  unfolding claim
  claim-Held k task d h = claimed-Held k task (lookup k d.tasks) d refl h

  lookup-restored :
      (k s : String) (text : F.Text) (tasks : QueueDir F)
      → lookup k tasks ≡ some text
      → lookup s (insert k text (erase k tasks)) ≡ lookup s tasks
  lookup-restored k s text tasks h =
      ground (arith, lookup-insert k s text (erase k tasks), lookup-erase k s tasks, eq_iff k s)

  restored-Quiet : (k : String) (o : Option F.Text) (d : Disk F) → Quiet d (restored_text F k o d)
  restored-Quiet k none d = (refl, refl)
  restored-Quiet k (some text) d = (refl, refl)

  kept_claim :
      (stem k : String) (failed text : F.Text) (d d' : Disk F)
      → lookup stem d.tasks ≡ none
      → lookup k d.tasks ≡ some text
      → lookup k d'.claimed ≡ some text
      → lookup k (insert stem failed d'.claimed) ≡ some text
  kept_claim stem k failed text d d' free f c =
      ground (arith, lookup-insert stem k failed d'.claimed, eq_iff stem k)

  module _ (x : Outside) where
    claim_first-Held :
        (name : String) (pending : List (String × SummaryTask)) (d : Disk F)
        → (let (found, d') = claim_first F x name pending d in Held d found d' × Quiet d d')
    claim_first-Held name [] d = (refl, (refl, refl))
    claim_first-Held name ((k, task) ∷ pending) d =
        elim (Bool-cases (usable name task && (claim F k d).0)) [
          | inl y ↦ rw y (claim-Held k task d (ground arith))
          | inr n ↦ rw n (claim_first-Held name pending d)
        ]

    -- What a step that may hold a check did, if it did not raise.
    abbrev Rides : Disk F → Result (Option (String × SummaryTask)) × Disk F → Type 0
    Rides d (ok r, d') = Held d r d' × Quiet d d'
    Rides d (err e, d') = d' ≡ d

    among-Rides :
        (name : String) (r : Result (List (String × SummaryTask))) (d : Disk F)
        → Rides d (among F x name r d)
    among-Rides name (err e) d = refl
    among-Rides name (ok pending) d = claim_first-Held name pending d

    ride-Rides : (task : SummaryTask) (d : Disk F) → Rides d (ride F x task d)
    unfolding claim_rooting_check
    ride-Rides task d = elim (Bool-cases (takes_rooting task)) [
      | inl y ↦ rw y (among-Rides task.session_name (load_pending_tasks F x.now d.tasks) d)
      | inr n ↦ rw n (refl, (refl, refl))
    ]

    finish-Shrinks :
        (stem : String) (task : SummaryTask) (d : Disk F) (r : Option (String × SummaryTask))
        (e : Option String) (d' : Disk F)
        → lookup stem d.tasks ≡ none
        → Held d r d'
        → Shrinks d (finish F x stem task r e d').1
    unfolding unlink restore_claimed mark_failed
    finish-Shrinks stem task d none none d' free h = same-Shrinks d d' h
    finish-Shrinks stem task d (some (k, t)) none d' free (text, f, h, c) = erased-Shrinks k d d' h
    finish-Shrinks stem task d none (some e) d' free h = same-Shrinks d d' h
    finish-Shrinks stem task d (some (k, t)) (some e) d' free (text, f, h, c) =
        subst (λ o. Shrinks d (restored_text F k o (mark_failed F x stem task e d')))
          (sym (kept_claim stem k _ text d d' free f c))
          (λ s. inr (ap (λ q. lookup s (insert k text q)) h ∙ lookup-restored k s text d.tasks f))

    finish-Quiet :
        (stem : String) (task : SummaryTask) (r : Option (String × SummaryTask)) (e : Option String)
        (d : Disk F)
        → Quiet d (finish F x stem task r e d).1
    unfolding unlink restore_claimed mark_failed
    finish-Quiet stem task none none d = (refl, refl)
    finish-Quiet stem task (some (k, t)) none d = (refl, refl)
    finish-Quiet stem task none (some e) d = (refl, refl)
    finish-Quiet stem task (some (k, t)) (some e) d =
        restored-Quiet k (lookup k (mark_failed F x stem task e d).claimed)
          (mark_failed F x stem task e d)

    -- What a round did: no file is new, at most two calls were made, and a task that was not
    -- summarised left the sessions as they were.
    abbrev pub Round : Disk F → Result Bool × Disk F → Type 0
    Round d (r, d') =
        Shrinks d d' × (d'.calls ≤ suc (suc d.calls)) × ((r ≡ ok true) ⊎ (d'.sessions ≡ d.sessions))

    finished :
        (stem : String) (task : SummaryTask) (d : Disk F) (r : Option (String × SummaryTask))
        (a : Disk F) (p : Result (Option String) × Disk F)
        → lookup stem d.tasks ≡ none
        → Held d r a
        → Quiet d a
        → KeepsTo F (suc (suc a.calls)) a p
        → Round d (continue p.0 (finish F x stem task r) p.1)
    finished stem task d r a (err e, b) free h (c, s) (t, k, n, inl z) = absurd cc
    finished stem task d r a (err e, b) free h (c, s) (t, k, n, inr z) =
        (Held-Shrinks d r b (Held-kept d r a b t k h), omega arith, inr (z ∙ s))
    finished stem task d r a (ok none, b) free h (c, s) (t, k, n, z) = (
      finish-Shrinks stem task d r none b free (Held-kept d r a b t k h),
      omega (arith, (finish-Quiet stem task r none b).0),
      inl refl,
    )
    finished stem task d r a (ok (some e), b) free h (c, s) (t, k, n, inl z) = absurd cc
    finished stem task d r a (ok (some e), b) free h (c, s) (t, k, n, inr z) = (
      finish-Shrinks stem task d r (some e) b free (Held-kept d r a b t k h),
      omega (arith, (finish-Quiet stem task r (some e) b).0),
      inr ((finish-Quiet stem task r (some e) b).1 ∙ z ∙ s),
    )

    riding-Round :
        (stem : String) (task : SummaryTask) (d : Disk F)
        (p : Result (Option (String × SummaryTask)) × Disk F)
        → lookup stem d.tasks ≡ none
        → Rides d p
        → Round d (continue p.0 (process_riding F x stem task) p.1)
    riding-Round stem task d (err e, d') free h = (
      same-Shrinks d d' (ap (λ o. o.tasks) h),
      omega (arith, ap (λ o. o.calls) h),
      inr (ap (λ o. o.sessions) h),
    )
    riding-Round stem task d (ok r, a) free (h, q) =
        finished stem task d r a (process_twice F x task (task_of F x r) a) free h q
          (process_twice-KeepsTo F x task (task_of F x r) a)

    pub process_claimed-Round :
        (stem : String) (task : SummaryTask) (d : Disk F)
        → lookup stem d.tasks ≡ none
        → Round d (process_claimed F x stem task d)
    unfolding process_claimed
    process_claimed-Round stem task d free =
        riding-Round stem task d (ride F x task d) free (ride-Rides task d)
