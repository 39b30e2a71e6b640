-- ===== src/Summaries/Keeps.antt =====
-- What the processing of one task leaves as it was.
use mcp_session_router.Base.{
  ℕ, suc, ◌≤◌, String, ◌==◌, ◌≡◌, refl, ◌∙◌, ◌⊎◌, inl, inr, arith, Bool-cases,
}
use mcp_session_router.Base.{Option, none, some, Result, ok, err, Error}
use mcp_session_router.Base.Exec.{continue}
use mcp_session_router.Json.{Fields}
use mcp_session_router.Session.{SessionMetadata}
use mcp_session_router.Store.{TextFormat, Directory, mutate_session_by_name}
use mcp_session_router.Queue.{SummaryTask}
use mcp_session_router.Excerpts.{excerpt_max_chars, extract_full_text, dialogue_length}
use mcp_session_router.Summaries.{
  Outside, Disk, apply, answers, saved, raised, save_with, save, on_response, on_excerpt,
  process_task, rooting_question, supported, process_twice, retry,
}

module _ (F : TextFormat) where
  -- The queue is as it was, at most `n` calls were made, and a task that was not summarised left the
  -- sessions as they were.
  abbrev pub KeepsTo : ℕ → Disk F → Result (Option String) × Disk F → Type 0
  KeepsTo n d (r, d') =
      (d'.tasks ≡ d.tasks)
      × (d'.claimed ≡ d.claimed)
      × (d'.calls ≤ n)
      × ((r ≡ ok none) ⊎ (d'.sessions ≡ d.sessions))

  stays-KeepsTo :
      (n : ℕ) (d : Disk F) (r : Result (Option String)) → d.calls ≤ n → KeepsTo n d (r, d)
  stays-KeepsTo n d r h = (refl, refl, h, inr refl)

  module _ (x : Outside) where
    saved-KeepsTo :
        (task : SummaryTask) (r : Result (Option SessionMetadata × Directory F)) (d : Disk F)
        → KeepsTo d.calls d (saved F x task r d)
    saved-KeepsTo task (err e) d = stays-KeepsTo d.calls d (err e) (omega arith)
    saved-KeepsTo task (ok (none, dir)) d = (refl, refl, omega arith, inr refl)
    saved-KeepsTo task (ok (some s, dir)) d = (refl, refl, omega arith, inl refl)

    raised-KeepsTo :
        (e : Error) (task : SummaryTask) (r : Result (Option SessionMetadata × Directory F))
        (d : Disk F)
        → KeepsTo d.calls d (raised F x e task r d)
    raised-KeepsTo e task (err f) d = saved-KeepsTo task (err f) d
    raised-KeepsTo e task (ok (none, dir)) d = saved-KeepsTo task (ok (none, dir)) d
    raised-KeepsTo e task (ok (some s, dir)) d = stays-KeepsTo d.calls d (err e) (omega arith)

    save_with-KeepsTo :
        (task : SummaryTask) (parsed : Fields) (answer : Option Fields) (length : Result ℕ)
        (d : Disk F)
        → KeepsTo d.calls d (save_with F x task parsed answer length d)
    save_with-KeepsTo task parsed answer (ok n) d =
        saved-KeepsTo task
          (mutate_session_by_name F task.session_name (apply x.now task parsed answer n) d.sessions)
          d
    save_with-KeepsTo task parsed answer (err e) d =
        raised-KeepsTo e task (mutate_session_by_name F task.session_name (λ s. s) d.sessions) d

    save-KeepsTo :
        (task : SummaryTask) (p : Option Fields × Option Fields) (d : Disk F)
        → KeepsTo d.calls d (save F x task p d)
    save-KeepsTo task (none, answer) d = (refl, refl, omega arith, inr refl)
    save-KeepsTo task (some parsed, answer) d =
        save_with-KeepsTo task parsed answer
          (dialogue_length x.loads (x.bytes task.conversation_id)) d

    on_response-KeepsTo :
        (task : SummaryTask) (question : Option String) (response : Option String) (d : Disk F)
        → KeepsTo d.calls d (on_response F x task question response d)
    on_response-KeepsTo task question none d = (refl, refl, omega arith, inr refl)
    on_response-KeepsTo task question (some response) d =
        save-KeepsTo task (answers x question response) d

    on_excerpt-KeepsTo :
        (task : SummaryTask) (question : Option String) (excerpt : Result String) (d : Disk F)
        → KeepsTo (suc d.calls) d (on_excerpt F x task question excerpt d)
    on_excerpt-KeepsTo task question (err e) d = (refl, refl, omega arith, inr refl)
    on_excerpt-KeepsTo task question (ok excerpt) d = elim (Bool-cases (excerpt == "")) [
      | inl y ↦ rw y (refl, refl, omega arith, inr refl)
      | inr n ↦ rw n (on_response-KeepsTo task question _ (record d { calls = suc d.calls }))
    ]

    pub process_task-KeepsTo :
        (task : SummaryTask) (rooting : Option SummaryTask) (d : Disk F)
        → KeepsTo (suc d.calls) d (process_task F x task rooting d)
    unfolding process_task
    process_task-KeepsTo task rooting d = elim (Bool-cases (supported task)) [
      | inl y ↦ rw y (
          on_excerpt-KeepsTo task (rooting_question rooting)
            (extract_full_text excerpt_max_chars (x.events task.conversation_id)) d)
      | inr n ↦ rw n (refl, refl, omega arith, inr refl)
    ]

    continued :
        (task : SummaryTask) (rooting : Option SummaryTask) (d : Disk F)
        (p : Result (Option String) × Disk F)
        → KeepsTo (suc d.calls) d p
        → KeepsTo (suc (suc d.calls)) d (continue p.0 (retry F x task rooting) p.1)
    continued task rooting d (err e, d') (t, c, n, s) = (t, c, omega arith, s)
    continued task rooting d (ok none, d') (t, c, n, s) = (t, c, omega arith, inl refl)
    continued task rooting d (ok (some e), d') (t, c, n, inl s) = absurd cc
    continued task rooting d (ok (some e), d') (t, c, n, inr s) =
        let (t', c', n', s') = process_task-KeepsTo task rooting d' in
        (t' ∙ t, c' ∙ c, omega arith, elim s' [ inl y ↦ inl y | inr same ↦ inr (same ∙ s) ])

    pub process_twice-KeepsTo :
        (task : SummaryTask) (rooting : Option SummaryTask) (d : Disk F)
        → KeepsTo (suc (suc d.calls)) d (process_twice F x task rooting d)
    unfolding process_twice
    process_twice-KeepsTo task rooting d =
        continued task rooting d (process_task F x task rooting d)
          (process_task-KeepsTo task rooting d)
