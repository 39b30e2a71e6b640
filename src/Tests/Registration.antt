-- ===== src/Tests/Registration.antt =====
-- Runs of the registration of the hooks.
use mcp_session_router.Base.{String, ◌≡◌, refl, some, none, true, Option, ap, sym, ◌∙◌}
use mcp_session_router.Base.Text.{has_part}
use text.Mathlib.TextLemmas.{append-nil}
use text.Mathlib.TextPositions.{starts_with_of_prefix}
use mcp_session_router.Json.{str, arr, obj, cons, nil, field, end}
use mcp_session_router.Registration.{
  Project, ensure_hook_registered, ensure_statusline_registered, missing_hooks, register_hooks,
  add_entries, load_settings, was_declined,
}
use mcp_session_router.Registration.Settled.{IsSettled, ensure_hook_registered-IsSettled}
use mcp_session_router.Registration.Keeps.{Keeps, registrations-Keeps}
use mcp_session_router.Tests.{json_text}

-- The script that is found is the one asked for.
abbrev which : String → Option String
which s = some s

has_part_self : (s : String) → has_part s s ≡ true
has_part_self String.[] = refl
has_part_self (String.◌∷◌ c s) =
    rw (starts_with_of_prefix (String.◌∷◌ c s) (String.◌∷◌ c s) ("", append-nil (String.◌∷◌ c s)))
      refl

some_same {ℓ} : {A : Type ℓ} {a b : A} → some a ≡ some b → a ≡ b
some_same h = cc

-- Settings with another hook for the end of a turn.
abbrev project : Project json_text
project = record {
  settings = some (
      obj (
        field "model" (str "opus") (
          field "hooks"
            (obj (
              field "Stop"
                (arr (
                  cons
                    (obj
                      (field "hooks" (arr (cons (obj (field "command" (str "beep") end)) nil)) end))
                    nil))
                end))
            end)));
  config = none;
}

ensure_hook_registered-IsSettled_example :
    IsSettled json_text which
      (some "no")
      "model"
      project
      (ensure_hook_registered json_text which (some " Yes ") project).1
unfolding ensure_hook_registered missing_hooks register_hooks add_entries load_settings was_declined
ensure_hook_registered-IsSettled_example =
    ensure_hook_registered-IsSettled json_text which which (some " Yes ") (some "no") "model"
      project (λ s c h. ap (has_part s) (sym (some_same h)) ∙ has_part_self s) refl

registrations-Keeps_example :
    Keeps json_text project (ensure_hook_registered json_text which (some "no") project)
    × Keeps json_text project (ensure_statusline_registered json_text which (some "no") project)
registrations-Keeps_example = registrations-Keeps json_text which (some "no") project
