-- ===== src/Summaries/Passes.antt =====
-- What a pass over the queue costs, and when it leaves the sessions as they were.
use mcp_session_router.Base.{ok_injective}
use mcp_session_router.Base.{
  ℕ, suc, ◌+◌, ◌*◌, ◌≤◌, String, eq_refl, ◌≡◌, refl, ◌∙◌, ◌⊎◌, inl, inr, arith, Bool-cases, length,
}
use mcp_session_router.Base.{Option, none, some, Result, ok, err, Bool, true, false, List, [], ◌∷◌}
use mcp_session_router.Base.Exec.{continue}
use mcp_session_router.Base.Dict.{lookup, lookup-erase}
use mcp_session_router.Store.{TextFormat}
use mcp_session_router.Queue.{SummaryTask, kind_rooting_check, load_pending_tasks}
use mcp_session_router.Summaries.{
  Outside, Disk, is_kind, claim, claimed_text, process_one, process_claimed, if_claimed, count,
  process_tasks, process_loaded, process_queue,
}
use mcp_session_router.Summaries.Rounds.{
  same-Shrinks, erased-Shrinks, Shrinks-trans, Round, process_claimed-Round,
}

module _ (F : TextFormat) where
  module _ (x : Outside) where
    -- A round that is not a rooting check's takes its file away.
    abbrev pub Taken : String → SummaryTask → Disk F → Type 0
    Taken stem task d = (is_kind kind_rooting_check task ≡ true) ⊎ (lookup stem d.tasks ≡ none)

    claimed-Round :
        (stem : String) (task : SummaryTask) (o : Option F.Text) (d : Disk F)
        → lookup stem d.tasks ≡ o
        → (let p = if_claimed F x stem task (claimed_text F stem o d) in
            Round F x d p × (lookup stem p.1.tasks ≡ none))
    claimed-Round stem task none d e = ((same-Shrinks F d d refl, omega arith, inr refl), e)
    claimed-Round stem task (some text) d e =
        let a = (claimed_text F stem (some text) d).1 in
        let gone : lookup stem a.tasks ≡ none =
          ground (arith, lookup-erase stem stem d.tasks, eq_refl stem) in
        let (shrinks, calls, sessions) = process_claimed-Round F x stem task a gone in
        (
          (
            Shrinks-trans F d a (process_claimed F x stem task a).1 (erased-Shrinks F stem d a refl)
                shrinks,
            calls,
            sessions,
          ),
          elim (shrinks stem) [ inl y ↦ y | inr y ↦ y ∙ gone ],
        )

    pub process_one-Round :
        (stem : String) (task : SummaryTask) (d : Disk F)
        → Round F x d (process_one F x stem task d)
          × Taken stem task (process_one F x stem task d).1
    unfolding process_one claim
    process_one-Round stem task d = elim (Bool-cases (is_kind kind_rooting_check task)) [
      | inl y ↦ rw y ((same-Shrinks F d d refl, omega arith, inr refl), inl refl)
      | inr n ↦
          let (round, gone) = claimed-Round stem task (lookup stem d.tasks) d refl in
          rw n (round, inr gone)
    ]

    -- The rest of a pass, after a round.
    abbrev pub rest_of : List (String × SummaryTask) → ℕ → Result Bool × Disk F → Result ℕ × Disk F
    rest_of ps done p = continue p.0 (λ b. process_tasks F x ps (count F x done b)) p.1

    rest_calls :
        (ps : List (String × SummaryTask)) (done : ℕ) (d : Disk F) (p : Result Bool × Disk F)
        → ((m : ℕ) (d' : Disk F) → (process_tasks F x ps m d').1.calls ≤ d'.calls + 2 * length ps)
        → Round F x d p
        → (rest_of ps done p).1.calls ≤ d.calls + 2 * suc (length ps)
    rest_calls ps done d (err e, d') later round = omega (arith, round.1)
    rest_calls ps done d (ok b, d') later round =
        omega (arith, round.1, later (count F x done b) d')

    pass_calls :
        (ps : List (String × SummaryTask)) (done : ℕ) (d : Disk F)
        → (process_tasks F x ps done d).1.calls ≤ d.calls + 2 * length ps
    unfolding process_tasks
    pass_calls [] done d = omega arith
    pass_calls ((stem, task) ∷ ps) done d =
        rest_calls ps done d (process_one F x stem task d) (pass_calls ps)
          (process_one-Round stem task d).0

    -- The count never falls, and where it stays the sessions stay.
    abbrev Counts : ℕ → Disk F → Result ℕ × Disk F → Type 0
    Counts done d (err e, d') = Unit {0}
    Counts done d (ok n, d') = (done ≤ n) × (n ≡ done → d'.sessions ≡ d.sessions)

    counted :
        (done : ℕ) (d a : Disk F) (b : Bool) (p : Result ℕ × Disk F)
        → (ok b ≡ ok true) ⊎ (a.sessions ≡ d.sessions)
        → Counts (count F x done b) a p
        → Counts done d p
    counted done d a b (err e, d') s h = tt
    counted done d a true (ok n, d') s (le, same) = (omega arith, λ e. absurd (omega (arith, e)))
    counted done d a false (ok n, d') (inl y) (le, same) = absurd cc
    counted done d a false (ok n, d') (inr y) (le, same) = (le, λ e. same e ∙ y)

    rest-Counts :
        (ps : List (String × SummaryTask)) (done : ℕ) (d : Disk F) (p : Result Bool × Disk F)
        → ((m : ℕ) (d' : Disk F) → Counts m d' (process_tasks F x ps m d'))
        → Round F x d p
        → Counts done d (rest_of ps done p)
    rest-Counts ps done d (err e, d') later round = tt
    rest-Counts ps done d (ok b, d') later round =
        counted done d d' b (process_tasks F x ps (count F x done b) d') round.2
          (later (count F x done b) d')

    pass-Counts :
        (ps : List (String × SummaryTask)) (done : ℕ) (d : Disk F)
        → Counts done d (process_tasks F x ps done d)
    unfolding process_tasks
    pass-Counts [] done d = (omega arith, λ e. refl)
    pass-Counts ((stem, task) ∷ ps) done d =
        rest-Counts ps done d (process_one F x stem task d) (pass-Counts ps)
          (process_one-Round stem task d).0

    loaded_sessions :
        (r : Result (List (String × SummaryTask))) (d : Disk F)
        → (process_loaded F x r d).0 ≡ ok 0
        → (process_loaded F x r d).1.sessions ≡ d.sessions
    loaded_sessions (err e) d h = absurd cc
    loaded_sessions (ok ps) d h = unchanged (process_tasks F x ps 0 d) (pass-Counts ps 0 d) h
      where
        unchanged : (p : Result ℕ × Disk F) → Counts 0 d p → p.0 ≡ ok 0 → p.1.sessions ≡ d.sessions
        unchanged (err e, d') c h = absurd cc
        unchanged (ok n, d') (le, same) h = same (ok_injective h)

    -- A pass of the summarizer over a queue that can be read makes at most two calls of the model
    -- for each waiting task.
    pub process_queue-calls :
        (d : Disk F) (ps : List (String × SummaryTask))
        → load_pending_tasks F x.now d.tasks ≡ ok ps
        → (process_queue F x d).1.calls ≤ d.calls + 2 * length ps
    unfolding process_queue
    process_queue-calls d ps h = rw h (pass_calls ps 0 d)

    -- A pass of the summarizer that summarised no task leaves the sessions as they were.
    pub process_queue-sessions :
        (d : Disk F)
        → (process_queue F x d).0 ≡ ok 0
        → (process_queue F x d).1.sessions ≡ d.sessions
    unfolding process_queue
    process_queue-sessions d h = loaded_sessions (load_pending_tasks F x.now d.tasks) d h
