-- ===== src/ChildArgs/Stripped.antt =====
-- _strip_resume_args against the tests for the arguments that it removes.
use mcp_session_router.Base.{
  String, ◌≡◌, refl, Bool, true, false, ◌==◌, ◌||◌, starts_with, All, inl, inr, ◌⊎◌, List, [], ◌∷◌,
}
use mcp_session_router.Base.{none}
use mcp_session_router.ChildArgs.{
  Treatment, treat, dropped, with_value, kept, treatment, resumes, strip_from, strip_resume_args,
  parse_session_id_arg, has_resume_args,
}

kept_flags :
    (a b c d e : Bool)
    → treat a b c d e ≡ kept
    → ((a || b || c) ≡ false) × (d ≡ false) × (e ≡ false)
kept_flags true b c d e h = cc
kept_flags false true c d e h = cc
kept_flags false false true d e h = cc
kept_flags false false false true e h = cc
kept_flags false false false false true h = cc
kept_flags false false false false false h = (refl, refl, refl)

treatment-kept :
    (arg : String)
    → treatment arg ≡ kept
    → (resumes arg ≡ false)
      × ((arg == "--session-id") ≡ false)
      × (starts_with arg "--session-id=" ≡ false)
unfolding treatment
treatment-kept arg h = kept_flags _ _ _ _ _ h

Treatment-cases : (t : Treatment) → (t ≡ dropped) ⊎ ((t ≡ with_value) ⊎ (t ≡ kept))
Treatment-cases dropped = inl refl
Treatment-cases with_value = inr (inl refl)
Treatment-cases kept = inr (inr refl)

-- Nothing that resumes, and no id.
abbrev IsStripped : List String → Type 0
IsStripped args =
    (has_resume_args args ≡ false)
    × All (λ a. ((a == "--session-id") ≡ false) × (starts_with a "--session-id=" ≡ false)) args

strip_from-IsStripped : (skip : Bool) (args : List String) → IsStripped (strip_from skip args)
unfolding strip_from has_resume_args
strip_from-IsStripped skip [] = (refl, tt)
strip_from-IsStripped true (arg ∷ args) = strip_from-IsStripped false args
strip_from-IsStripped false (arg ∷ args) = elim (Treatment-cases (treatment arg)) [
  | inl e ↦ rw e (strip_from-IsStripped false args)
  | inr (inl e) ↦ rw e (strip_from-IsStripped true args)
  | inr (inr e) ↦
      let (r, s, v) = treatment-kept arg e in
      let (rest, all) = strip_from-IsStripped false args in rw e (rw r rest, ((s, v), all))
]

no_id :
    (args : List String)
    → All (λ a. ((a == "--session-id") ≡ false) × (starts_with a "--session-id=" ≡ false)) args
    → parse_session_id_arg args ≡ none
unfolding parse_session_id_arg
no_id [] h = refl
no_id (a ∷ []) ((s, v), h) = rw v refl
no_id (a ∷ b ∷ args) ((s, v), h) = rw (s, v) (no_id (b ∷ args) h)

pub strip_resume_args_lem :
    (args : List String)
    → (has_resume_args (strip_resume_args args) ≡ false)
      × (parse_session_id_arg (strip_resume_args args) ≡ none)
strip_resume_args_lem args =
    let (r, all) = strip_from-IsStripped false args in (r, no_id (strip_resume_args args) all)
