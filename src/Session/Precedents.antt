-- ===== src/Session/Precedents.antt =====
-- drop_precedents_for of models/session.py.
use mcp_session_router.Base.{String, ◌≡◌, refl, Bool}
use mcp_session_router.Base.{◌-◌, length, length-keep_if, keep_if, arith}
use mcp_session_router.Base.{List, [], ◌∷◌}
use mcp_session_router.Session.{SessionMetadata, drop_precedents_for, is_kept}

-- A filter that keeps every element is the identity.
keep_if-eq_of_length {ℓ} :
    {A : Type ℓ} (p : A → Bool) (xs : List A)
    → length xs - length (keep_if p xs) ≡ 0
    → keep_if p xs ≡ xs
keep_if-eq_of_length p [] h = refl
keep_if-eq_of_length p (x ∷ xs) h = ground (arith, keep_if-eq_of_length p xs, length-keep_if p xs)

-- The precedents left are the old ones against other targets, in their order.
pub precedents-drop_precedents_for :
    (target : String) (s : SessionMetadata)
    → (drop_precedents_for target s).precedents ≡ keep_if (is_kept target) s.precedents
unfolding drop_precedents_for
precedents-drop_precedents_for target s =
    ground (arith, keep_if-eq_of_length (is_kept target) s.precedents)
