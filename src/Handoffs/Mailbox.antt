-- ===== src/Handoffs/Mailbox.antt =====
-- A handoff file as a mailbox that holds at most one message.
use mcp_session_router.Base.{◌≡◌, refl, ap}
use mcp_session_router.Base.{Option, none, some, List, [], ◌∷◌}
use mathlib.Core.Path.{subst}
use mcp_session_router.Json.{Fields}
use mcp_session_router.Store.{TextFormat}
use mcp_session_router.Handoffs.{HandoffFile, write_file, take_file, clear_stale, object_or_none}
use mcp_session_router.Handoffs.Spec
use mcp_session_router.Handoffs.Spec.{Command, write, take, clear}

module _ (F : TextFormat) where
  unfoldable pub act : Command → HandoffFile F → Option Fields × HandoffFile F
  act (write d) file = (none, write_file F d file)
  act take file = take_file F file
  act clear file = (none, (clear_stale F file).1)

  unfoldable pub run : List Command → HandoffFile F → List (Option Fields) × HandoffFile F
  run [] file = ([], file)
  run (c ∷ cs) file =
      let (answer, file') = act c file in
      let (answers, last) = run cs file' in (answer ∷ answers, last)

  -- The message that a file holds; a corrupt file holds none.
  unfoldable pub message : HandoffFile F → Option Fields
  message none = none
  message (some text) = object_or_none F (F.loads text)

  act-message :
      (c : Command) (file : HandoffFile F)
      → let (answer, file') = act c file in (answer, message file') ≡ Spec.act c (message file)
  unfolding act Spec.act message write_file take_file clear_stale
  act-message (write d) file = rw F.loads-dumps refl
  act-message take none = refl
  act-message take (some text) = refl
  act-message clear file = refl

  -- A handoff file answers any sequence of writes, takes and clears as a mailbox that holds at
  -- most one message, whatever it held before.
  pub run-message :
      (cs : List Command) (file : HandoffFile F)
      → let (answers, last) = run cs file in (answers, message last) ≡ Spec.run cs (message file)
  unfolding run Spec.run
  run-message [] file = refl
  run-message (c ∷ cs) file =
      let rest = run-message cs (act c file).1 in
      subst
        (λ (p : Option Fields × Option Fields).
          ◌≡◌ {A = List (Option Fields) × Option Fields}
            ((act c file).0 ∷ (run cs (act c file).1).0, message (run cs (act c file).1).1)
            (p.0 ∷ (Spec.run cs p.1).0, (Spec.run cs p.1).1))
        (act-message c file)
        (ap (λ (r : List (Option Fields) × Option Fields). ((act c file).0 ∷ r.0, r.1)) rest)
