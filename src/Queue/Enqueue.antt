-- ===== src/Queue/Enqueue.antt =====
-- enqueue of summarizer.py on a queue that can be read.
use mcp_session_router.Base.{
  String, ◌≡◌, Bool, true, false, not, any, ◌||◌, ap, ◌∙◌, refl, arith, eq_refl, Bool-cases,
  Result-cases, inl, inr,
}
use mcp_session_router.Base.{none, some, List, [], ◌∷◌, ◌++◌, ok}
use mcp_session_router.Base.Dict.{insert, lookup}
use mcp_session_router.Store.{TextFormat}
use mcp_session_router.Queue.{
  SummaryTask, task_to_dict, task_from_dict, QueueDir, read_task, load_pending_tasks, read_tasks,
  sort_tasks, insert_task, text_le, same_task, enqueue,
}

swap_or : (a b c : Bool) → (a || (b || c)) ≡ (b || (a || c))
swap_or a b c = ground arith

module _ (F : TextFormat) where
  -- What a written task file is read as.
  read_task-dumps :
      (now : String) (t : SummaryTask) → read_task F now (F.dumps (task_to_dict t)) ≡ ok (some t)
  unfolding read_task task_to_dict task_from_dict
  read_task-dumps now t = rw F.loads-dumps

  abbrev pub is_pending : SummaryTask → List (String × SummaryTask) → Bool
  is_pending t = any (λ p. same_task p.1 t)

  is_pending-insert_task :
      (t : SummaryTask) (p : String × SummaryTask) (ps : List (String × SummaryTask))
      → is_pending t (insert_task p ps) ≡ (same_task p.1 t || is_pending t ps)
  is_pending-insert_task t p [] = refl
  is_pending-insert_task t p (q ∷ qs) =
      elim (Bool-cases (text_le p.1.requested_at q.1.requested_at)) [
        | inl e ↦ rw e refl
        | inr n ↦
            rw n
              (rw (is_pending-insert_task t p qs) (swap_or (same_task q.1 t) (same_task p.1 t) _))
      ]

  is_pending-sort_tasks :
      (t : SummaryTask) (ps : List (String × SummaryTask))
      → is_pending t (sort_tasks ps) ≡ is_pending t ps
  is_pending-sort_tasks t [] = refl
  is_pending-sort_tasks t (p ∷ ps) =
      is_pending-insert_task t p (sort_tasks ps)
      ∙ ap (λ b. same_task p.1 t || b) (is_pending-sort_tasks t ps)

  -- A new file's task waits, and no other task that did not.
  read_tasks-insert :
      (now stem : String) (t : SummaryTask) (dir : QueueDir F) (tasks : List (String × SummaryTask))
      → lookup stem dir ≡ none
      → read_tasks F now dir ≡ ok tasks
      → read_tasks F now (insert stem (F.dumps (task_to_dict t)) dir)
        ≡ ok (tasks ++ ((stem, t) ∷ []))
  unfolding read_tasks insert lookup
  read_tasks-insert now stem t [] tasks fresh h = ground (arith, read_task-dumps now t)
  read_tasks-insert now stem t ((j, text) ∷ dir) tasks fresh h =
      elim (Result-cases (read_task F now text)) [
        | inr (x, e) ↦ absurd (ground arith)
        | inl (p, e) ↦ elim (Result-cases (read_tasks F now dir)) [
          | inr (x, f) ↦ absurd (ground arith)
          | inl (rest, f) ↦
              ground (arith, e, f, read_tasks-insert now stem t dir rest (ground arith) f)
        ]
      ]

  any_last :
      (t : SummaryTask) (stem : String) (tasks : List (String × SummaryTask))
      → is_pending t (tasks ++ ((stem, t) ∷ [])) ≡ true
  any_last t stem [] =
      ground (arith, eq_refl t.session_name, eq_refl t.conversation_id, eq_refl t.kind)
  any_last t stem (p ∷ tasks) = ground (arith, any_last t stem tasks)

  -- The tasks that wait after a new file was written.
  pending-insert :
      (now stem : String) (t : SummaryTask) (dir : QueueDir F) (tasks : List (String × SummaryTask))
      → lookup stem dir ≡ none
      → load_pending_tasks F now dir ≡ ok tasks
      → (tasks' : List (String × SummaryTask)) × (load_pending_tasks F now
            (insert stem (F.dumps (task_to_dict t)) dir)
          ≡ ok tasks')
        × (is_pending t tasks' ≡ true)
  unfolding load_pending_tasks
  pending-insert now stem t dir tasks fresh h = elim (Result-cases (read_tasks F now dir)) [
    | inr (x, e) ↦ absurd (ground arith)
    | inl (ps, e) ↦ (
      sort_tasks (ps ++ ((stem, t) ∷ [])),
      rw (read_tasks-insert now stem t dir ps fresh e) refl,
      is_pending-sort_tasks t _ ∙ any_last t stem ps,
    )
  ]

  -- In a queue that can be read and with a fresh file name, enqueue writes a task exactly if none
  -- of its session, conversation and kind waits; afterwards one waits and enqueuing it again
  -- writes nothing.
  pub enqueue_lem :
      (now stem : String) (t : SummaryTask) (dir : QueueDir F) (tasks : List (String × SummaryTask))
      → lookup stem dir ≡ none
      → load_pending_tasks F now dir ≡ ok tasks
      → (dir' : QueueDir F) × (tasks' : List (String × SummaryTask)) × (enqueue F now stem t dir
          ≡ ok (not (is_pending t tasks), dir'))
        × (load_pending_tasks F now dir' ≡ ok tasks')
        × (is_pending t tasks' ≡ true)
        × ((stem' : String) → enqueue F now stem' t dir' ≡ ok (false, dir'))
  unfolding enqueue
  enqueue_lem now stem t dir tasks fresh h = elim (Bool-cases (is_pending t tasks)) [
    | inl e ↦ (dir, tasks, ground (arith, e), h, e, λ stem'. ground (arith, e))
    | inr n ↦
        let (tasks', f, l) = pending-insert now stem t dir tasks fresh h in
        (
          insert stem (F.dumps (task_to_dict t)) dir,
          tasks',
          ground (arith, n),
          f,
          l,
          λ stem'. ground (arith, f, l),
        )
  ]
