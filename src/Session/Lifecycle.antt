-- ===== src/Session/Lifecycle.antt =====
-- Status and conversation links of a session.
use mcp_session_router.Base.{String, ◌≡◌, refl, false, not, ◌==◌, ◌||◌, eq_iff, eq_refl}
use mcp_session_router.Base.{arith, contains, contains-append, if◌then◌else◌}
use mcp_session_router.Base.{List, [], ◌∷◌, ◌++◌}
use mcp_session_router.Session.{SessionMetadata, active, is_active, reactivate, link_conversation}

-- No id stands twice.
abbrev pub NodupIds : List String → Type 0
NodupIds [] = Unit
NodupIds (x ∷ xs) = (contains xs x ≡ false) × NodupIds xs

-- A session is active after `reactivate`, which reports a change exactly where it was not.
pub reactivate_lem :
    (s : SessionMetadata)
    → ((reactivate s).0.status ≡ active) × ((reactivate s).1 ≡ not (is_active s.status))
unfolding reactivate
reactivate_lem s = ground arith

pub contains-link_conversation :
    (conv_id j : String) (s : SessionMetadata)
    → contains (link_conversation conv_id s).claude_conversation_ids j ≡ (
        if conv_id == ""
        then contains s.claude_conversation_ids j
        else contains s.claude_conversation_ids j || j == conv_id)
unfolding link_conversation
contains-link_conversation conv_id j s =
    ground (arith, eq_iff j conv_id, contains-append s.claude_conversation_ids (conv_id ∷ []) j)

-- Linking a conversation twice is linking it once.
pub link_conversation_idem :
    (conv_id : String) (s : SessionMetadata)
    → link_conversation conv_id (link_conversation conv_id s) ≡ link_conversation conv_id s
unfolding link_conversation
link_conversation_idem conv_id s =
    ground
      (arith, eq_refl conv_id, contains-append s.claude_conversation_ids (conv_id ∷ []) conv_id)

NodupIds-append :
    (xs : List String) (x : String)
    → NodupIds xs
    → contains xs x ≡ false
    → NodupIds (xs ++ (x ∷ []))
NodupIds-append [] x u h = (refl, tt)
NodupIds-append (y ∷ ys) x u h =
    ground (arith, NodupIds-append ys x u.1, contains-append ys (x ∷ []) y, eq_iff x y, eq_iff y x)

pub link_conversation-NodupIds :
    (conv_id : String) (s : SessionMetadata)
    → NodupIds s.claude_conversation_ids
    → NodupIds (link_conversation conv_id s).claude_conversation_ids
unfolding link_conversation
link_conversation-NodupIds conv_id s u =
    ground (arith, NodupIds-append s.claude_conversation_ids conv_id u)
