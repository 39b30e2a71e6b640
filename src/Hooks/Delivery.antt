-- ===== src/Hooks/Delivery.antt =====
-- A handoff on its way from the wrapper, through the file, to the hook of the next child.
use mcp_session_router.Base.{String, ◌≡◌, refl, ◌∙◌, ap}
use mcp_session_router.Base.{Option, none, some, ok, Result-cases, bind-ok, ok_injective, inl, inr}
use mcp_session_router.Decisions.{Replayed, replay, load_events, expire_ignored_proposals}
use mcp_session_router.Decisions.Pairing.{expire_ignored_proposals_total}
use mathlib.Core.Path.{subst, sym}
use mcp_session_router.Json.{str, obj, Fields, get}
use mcp_session_router.Store.{TextFormat}
use mcp_session_router.Handoffs.{trigger_prompt, take_file, pending_fields}
use mcp_session_router.StateFile.{text_given}
use mcp_session_router.Wrapper.{Wrapper, Host, RespawnKind, execute_transition, without_prompt}
use mcp_session_router.Wrapper.Transitions.{Executes, execute_transition_lem}
use mcp_session_router.Hooks

module _ (F : TextFormat) (env : Hooks.HookEnv) (payload : Fields) where
  abbrev submitted : Hooks.HookFiles F → Hooks.Output × Hooks.HookFiles F
  submitted f = Hooks.run_hook F env (some (obj payload)) f

  triggered :
      (cwd : String)
      → get "prompt" payload ≡ some (str trigger_prompt)
      → text_given (get "cwd" payload) ≡ some cwd
      → Hooks.deliver_pending_handoff F payload ≡ some (Hooks.take_if F (some cwd))
  triggered cwd p c = rw (p, c) refl

  -- The files after the first step of the hook.
  expired-pending :
      (a b : Option String) (f g : Hooks.HookFiles F)
      → Hooks.expire_for F env a b f ≡ ok g
      → g.pending_file ≡ f.pending_file
  expired-pending (some cwd) (some conv) f g h =
      let (x, p, q) =
        bind-ok (expire_ignored_proposals env.log_writable conv env.now f.decisions)
          (λ x. ok (record f { decisions = x.0 })) g h in
      ap (λ v. v.pending_file) (sym (ok_injective q))
  expired-pending (some cwd) none f g h = ap (λ v. v.pending_file) (sym (ok_injective h))
  expired-pending none b f g h = ap (λ v. v.pending_file) (sym (ok_injective h))

  expired_ok :
      (a b : Option String) (f : Hooks.HookFiles F) (r : Replayed)
      → replay (load_events f.decisions) ≡ ok r
      → (g : Hooks.HookFiles F) × (Hooks.expire_for F env a b f ≡ ok g)
  expired_ok (some cwd) (some conv) f r h =
      let (x, e) = expire_ignored_proposals_total env.log_writable conv env.now f.decisions r h in
      (record f { decisions = x.0 }, rw e refl)
  expired_ok (some cwd) none f r h = (f, refl)
  expired_ok none b f r h = (f, refl)

  abbrev pub Delivers : Hooks.Output → Hooks.Output × Hooks.HookFiles F → Type 0
  Delivers output x = (x.0 ≡ output) × (x.1.pending_file ≡ none)

  taken_if :
      (f g : Hooks.HookFiles F) (cwd : String) (message : Option Fields)
      → g.pending_file ≡ f.pending_file
      → take_file F f.pending_file ≡ (message, none)
      → Delivers (Hooks.hand_over F message) (Hooks.take_if F (some cwd) g)
  taken_if f g cwd message s t =
      let e = ap (take_file F) s ∙ t in (ap (λ r. Hooks.hand_over F r.0) e, ap (λ r. r.1) e)

  -- Once the first step is done the trigger takes the file.
  taken :
      (f g : Hooks.HookFiles F) (cwd : String) (message : Option Fields)
      → get "prompt" payload ≡ some (str trigger_prompt)
      → text_given (get "cwd" payload) ≡ some cwd
      → Hooks.expire_ignored F env payload f ≡ ok g
      → take_file F f.pending_file ≡ (message, none)
      → Delivers (Hooks.hand_over F message) (submitted f)
  unfolding Hooks.run_hook
  taken f g cwd message p c e t =
      subst (λ o. Delivers (Hooks.hand_over F message) (Hooks.after_expiry F env payload o f))
        (sym e)
        (subst (λ d. Delivers (Hooks.hand_over F message) (Hooks.unless_handed F env payload d g))
          (sym (triggered cwd p c)) (taken_if f g cwd message (expired-pending _ _ f g e) t))

  emptied :
      (f : Hooks.HookFiles F) → f.pending_file ≡ none → take_file F f.pending_file ≡ (none, none)
  unfolding take_file
  emptied f e = rw e refl

  -- A trigger without a file says nothing, also where the first step raises.
  quiet :
      (f : Hooks.HookFiles F) (cwd : String)
      → get "prompt" payload ≡ some (str trigger_prompt)
      → text_given (get "cwd" payload) ≡ some cwd
      → f.pending_file ≡ none
      → (submitted f).0 ≡ Hooks.silent
  unfolding Hooks.run_hook
  quiet f cwd p c e = elim (Result-cases (Hooks.expire_ignored F env payload f)) [
    | inl (g, h) ↦ (taken f g cwd none p c h (emptied f e)).0
    | inr (x, h) ↦ rw h refl
  ]

  module _ (host : Host) (target : String) (conv : Option String) (handoff : Fields)
      (prompt : String) (kind : RespawnKind) where
    abbrev pub files : Wrapper F → Hooks.HookFiles F
    files w = record {
      pending_file = w.pending_file;
      notice_file = w.notice_file;
      decisions = w.decisions;
    }

    registered_take :
        (w : Wrapper F)
        → w.pending ≡ none
        → (execute_transition F host target conv handoff prompt kind w).0 ≡ ok tt
        → take_file F (execute_transition F host target conv handoff prompt kind w).1.pending_file
          ≡ (some (pending_fields target (without_prompt handoff) prompt host.now), none)
    registered_take w n o =
        let x = execute_transition F host target conv handoff prompt kind w in
        (subst (λ p. Executes F host target conv handoff prompt kind p (ok tt) w x.1) n
          (subst (λ r. Executes F host target conv handoff prompt kind w.pending r w x.1) o
            (execute_transition_lem F host target conv handoff prompt kind w))).2

    -- If nothing is pending and a transition is registered, and the decision log can be replayed,
    -- the hook of the first trigger prompt with a working directory that runs after it injects the
    -- transition's handoff and prompt, and a second trigger injects nothing.
    pub handoff_arrives :
        (w : Wrapper F) (cwd : String) (r : Replayed)
        → w.pending ≡ none
        → (execute_transition F host target conv handoff prompt kind w).0 ≡ ok tt
        → replay
            (load_events (execute_transition F host target conv handoff prompt kind w).1.decisions)
          ≡ ok r
        → get "prompt" payload ≡ some (str trigger_prompt)
        → text_given (get "cwd" payload) ≡ some cwd
        → let first =
            submitted (files (execute_transition F host target conv handoff prompt kind w).1) in
          (first.0 ≡ Hooks.handed_over (without_prompt handoff) prompt)
          × ((submitted first.1).0 ≡ Hooks.silent)
    handoff_arrives w cwd r n o l p c =
        let f = files (execute_transition F host target conv handoff prompt kind w).1 in
        let (g, e) = expired_ok (text_given (get "cwd" payload)) (Hooks.conv_id_of payload) f r l in
        let (a, b) =
          taken f g cwd (some (pending_fields target (without_prompt handoff) prompt host.now)) p c
            e (registered_take w n o) in
        (a, quiet (submitted f).1 cwd p c b)
