-- ===== src/Summaries/Pending.antt =====
-- Which tasks wait after a pass over the queue.
use mcp_session_router.Base.{bind-ok, ok_injective}
use mcp_session_router.Base.{
  ℕ, String, ◌==◌, eq_iff, ◌≡◌, refl, sym, ap, ◌∙◌, ◌⊎◌, inl, inr, arith, Bool-cases, if◌then◌else◌,
}
use mcp_session_router.Base.{Option, none, some, ◌>>=◌, Result, ok, err, Bool, true, List, [], ◌∷◌}
use mcp_session_router.Base.Dict.{lookup}
use mathlib.Core.Path.{subst}
use mcp_session_router.Store.{TextFormat}
use mcp_session_router.Queue.{
  SummaryTask, QueueDir, kind_rooting_check, read_task, read_tasks, keep_task, load_pending_tasks,
  sort_tasks, insert_task, text_le,
}
use mcp_session_router.Summaries.{
  Outside, Disk, is_kind, process_one, count, process_tasks, process_loaded, process_queue,
}
use mcp_session_router.Summaries.Rounds.{Shrinks, Round}
use mcp_session_router.Summaries.Passes.{Taken, process_one-Round, rest_of}

-- A task is among those listed, with its stem.
abbrev Among : String → SummaryTask → List (String × SummaryTask) → Type 0
Among s t [] = ⊥
Among s t (p ∷ ps) = (p ≡ (s, t)) ⊎ Among s t ps

Among-insert_task :
    (s : String) (t : SummaryTask) (p : String × SummaryTask) (ps : List (String × SummaryTask))
    → Among s t (p ∷ ps)
    → Among s t (insert_task p ps)
Among-insert_task s t p [] h = h
Among-insert_task s t p (q ∷ qs) h = elim (Bool-cases (text_le p.1.requested_at q.1.requested_at)) [
  | inl y ↦ rw y h
  | inr n ↦ rw n (elim h [
    | inl e ↦ inr (Among-insert_task s t p qs (inl e))
    | inr (inl e) ↦ inl e
    | inr (inr k) ↦ inr (Among-insert_task s t p qs (inr k))
  ])
]

Among-sort_tasks :
    (s : String) (t : SummaryTask) (ps : List (String × SummaryTask))
    → Among s t ps
    → Among s t (sort_tasks ps)
Among-sort_tasks s t [] h = h
Among-sort_tasks s t (p ∷ ps) (inl e) = Among-insert_task s t p (sort_tasks ps) (inl e)
Among-sort_tasks s t (p ∷ ps) (inr k) =
    Among-insert_task s t p (sort_tasks ps) (inr (Among-sort_tasks s t ps k))

some-none {ℓ} : {A : Type ℓ} {a : A} → some a ≡ none → ⊥
some-none h = cc

some_same {ℓ} : {A : Type ℓ} {a b : A} → some a ≡ some b → a ≡ b
some_same h = cc

module _ (F : TextFormat) where
  -- Every task file that can be read has a rooting check or one of the listed tasks.
  abbrev Left : String → List (String × SummaryTask) → QueueDir F → Type 0
  Left now ps dir =
      (s : String) (text : F.Text) (t : SummaryTask)
      → lookup s dir ≡ some text
      → read_task F now text ≡ ok (some t)
      → (is_kind kind_rooting_check t ≡ true) ⊎ Among s t ps

  module _ (x : Outside) where
    Left-round :
        (stem : String) (task : SummaryTask) (ps : List (String × SummaryTask)) (d d' : Disk F)
        → Left x.now ((stem, task) ∷ ps) d.tasks
        → Shrinks F d d'
        → Taken F x stem task d'
        → Left x.now ps d'.tasks
    Left-round stem task ps d d' h shrinks taken s text t l r = elim (shrinks s) [
      | inl y ↦ absurd cc
      | inr same ↦ elim (h s text t (sym same ∙ l) r) [
        | inl y ↦ inl y
        | inr (inr k) ↦ inr k
        | inr (inl e) ↦ elim taken [
          | inl y ↦ inl (ap (λ p. is_kind kind_rooting_check p.1) (sym e) ∙ y)
          | inr y ↦ absurd (some-none (sym l ∙ ap (λ p. lookup p.0 d'.tasks) (sym e) ∙ y))
        ]
      ]
    ]

    rest-Left :
        (stem : String) (task : SummaryTask) (ps : List (String × SummaryTask)) (done n : ℕ)
        (d : Disk F) (p : Result Bool × Disk F)
        → ((m : ℕ) (d' : Disk F)
            → Left x.now ps d'.tasks
            → (process_tasks F x ps m d').0 ≡ ok n
            → Left x.now [] (process_tasks F x ps m d').1.tasks)
        → Left x.now ((stem, task) ∷ ps) d.tasks
        → Round F x d p × Taken F x stem task p.1
        → (rest_of F x ps done p).0 ≡ ok n
        → Left x.now [] (rest_of F x ps done p).1.tasks
    rest-Left stem task ps done n d (err e, d') later h (round, taken) r = absurd cc
    rest-Left stem task ps done n d (ok b, d') later h (round, taken) r =
        later (count F x done b) d' (Left-round stem task ps d d' h round.0 taken) r

    pass-Left :
        (ps : List (String × SummaryTask)) (done n : ℕ) (d : Disk F)
        → Left x.now ps d.tasks
        → (process_tasks F x ps done d).0 ≡ ok n
        → Left x.now [] (process_tasks F x ps done d).1.tasks
    unfolding process_tasks
    pass-Left [] done n d h r = h
    pass-Left ((stem, task) ∷ ps) done n d h r =
        rest-Left stem task ps done n d (process_one F x stem task d) (λ m d'. pass-Left ps m n d')
          h (process_one-Round F x stem task d) r

    Among-keep_task :
        (k : String) (p : Option SummaryTask) (qs : List (String × SummaryTask)) (s : String)
        (t : SummaryTask)
        → Among s t qs
        → Among s t (keep_task F k p qs)
    Among-keep_task k none qs s t h = h
    Among-keep_task k (some u) qs s t h = inr h

    first_Among :
        (k s : String) (qs : List (String × SummaryTask)) (p : Option SummaryTask) (t : SummaryTask)
        → k ≡ s
        → p ≡ some t
        → Among s t (keep_task F k p qs)
    first_Among k s qs none t e f = absurd cc
    first_Among k s qs (some u) t e f = inl cc

    read_Among :
        (k : String) (other : F.Text) (dir : QueueDir F) (rest : List (String × SummaryTask))
        (p : Option SummaryTask) (s : String) (text : F.Text) (t : SummaryTask)
        → read_task F x.now other ≡ ok p
        → (lookup s dir ≡ some text → read_task F x.now text ≡ ok (some t) → Among s t rest)
        → lookup s ((k, other) ∷ dir) ≡ some text
        → read_task F x.now text ≡ ok (some t)
        → Among s t (keep_task F k p rest)
    unfolding lookup
    read_Among k other dir rest p s text t f later l r = elim (Bool-cases (k == s)) [
      | inl y ↦
          let same : other ≡ text =
            some_same (sym (ap (λ b. if b then some other else lookup s dir) y) ∙ l) in
          first_Among k s rest p t (ground (arith, eq_iff k s))
            (ok_injective (sym f ∙ ap (read_task F x.now) same ∙ r))
      | inr n ↦ Among-keep_task k p rest s t (later (ground arith) r)
    ]

    read_tasks-Among :
        (dir : QueueDir F) (qs : List (String × SummaryTask)) (s : String) (text : F.Text)
        (t : SummaryTask)
        → read_tasks F x.now dir ≡ ok qs
        → lookup s dir ≡ some text
        → read_task F x.now text ≡ ok (some t)
        → Among s t qs
    unfolding read_tasks lookup
    read_tasks-Among [] qs s text t h l r = absurd cc
    read_tasks-Among ((k, other) ∷ dir) qs s text t h l r =
        let (p, f, h') =
          bind-ok (read_task F x.now other)
            (λ q. read_tasks F x.now dir >>= λ rest. ok (keep_task F k q rest)) qs h in
        let (rest, g, kept) =
          bind-ok (read_tasks F x.now dir) (λ rest. ok (keep_task F k p rest)) qs h' in
        subst (Among s t) (ok_injective kept)
          (read_Among k other dir rest p s text t f (read_tasks-Among dir rest s text t g) l r)

    load-Left :
        (d : Disk F) (ps : List (String × SummaryTask))
        → load_pending_tasks F x.now d.tasks ≡ ok ps
        → Left x.now ps d.tasks
    unfolding load_pending_tasks
    load-Left d ps h s text t l r =
        let (qs, f, h') = bind-ok (read_tasks F x.now d.tasks) (λ qs. ok (sort_tasks qs)) ps h in
        inr (
          subst (Among s t) (ok_injective h')
            (Among-sort_tasks s t qs (read_tasks-Among d.tasks qs s text t f l r)))

    loaded-Left :
        (r : Result (List (String × SummaryTask))) (n : ℕ) (d : Disk F)
        → load_pending_tasks F x.now d.tasks ≡ r
        → (process_loaded F x r d).0 ≡ ok n
        → Left x.now [] (process_loaded F x r d).1.tasks
    loaded-Left (err e) n d h r = absurd cc
    loaded-Left (ok ps) n d h r = pass-Left ps 0 n d (load-Left d ps h) r

    -- After a pass of the summarizer that returns, every task file that waits and can be read is a
    -- rooting check, so no other task is processed again.
    pub process_queue-pending :
        (d : Disk F) (n : ℕ) (stem : String) (text : F.Text) (task : SummaryTask)
        → (process_queue F x d).0 ≡ ok n
        → lookup stem (process_queue F x d).1.tasks ≡ some text
        → read_task F x.now text ≡ ok (some task)
        → is_kind kind_rooting_check task ≡ true
    unfolding process_queue
    process_queue-pending d n stem text task r l e =
        elim (loaded-Left (load_pending_tasks F x.now d.tasks) n d refl r stem text task l e) [
          | inl y ↦ y
          | inr none_left ↦ absurd none_left
        ]
