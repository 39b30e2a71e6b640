-- ===== src/Session/Roundtrip.antt =====
-- Reading back what was written: to_dict and from_dict of models/session.py.
use mcp_session_router.Base.{String, ◌≡◌, refl, List, map}
use mcp_session_router.Base.{Result, ok, map_result, map_result-map}
use mcp_session_router.Json.{Json, str, items, items_list, items_list-items, as_str}
use mcp_session_router.Json.{as_optional_str-optional_str}
use mcp_session_router.Session.{SessionStatus, active, archived, SessionMetadata, TransitionRecord}
use mcp_session_router.Session.{PrecedentRecord}
use mcp_session_router.Session.Codec.{parse_status, status_value, to_dict, from_dict}
use mcp_session_router.Session.Codec.{transition_to_dict, transition_from_dict}
use mcp_session_router.Session.Codec.{precedent_to_dict, precedent_from_dict}

transition_roundtrip : (t : TransitionRecord) → transition_from_dict (transition_to_dict t) ≡ ok t
unfolding transition_to_dict transition_from_dict
transition_roundtrip t = rw (as_optional_str-optional_str t.from_session)

precedent_roundtrip : (p : PrecedentRecord) → precedent_from_dict (precedent_to_dict p) ≡ ok p
unfolding precedent_to_dict precedent_from_dict
precedent_roundtrip p = refl

parse_status-status_value : (s : SessionStatus) → parse_status (str (status_value s)) ≡ ok s
unfolding parse_status
parse_status-status_value active = refl
parse_status-status_value archived = refl

as_str-str : (s : String) → as_str (str s) ≡ ok s
as_str-str s = refl

-- What was encoded as an array is decoded from it.
array_roundtrip {ℓ} :
    {A : Type ℓ} (f : Json → Result A) (g : A → Json)
    → ((a : A) → f (g a) ≡ ok a)
    → (xs : List A) → map_result f (items_list (items (map g xs))) ≡ ok xs
array_roundtrip f g h xs = rw items_list-items (map_result-map f g h xs)

-- A session that was encoded is decoded unchanged.
pub session_roundtrip : (s : SessionMetadata) → from_dict (to_dict s) ≡ ok s
unfolding to_dict from_dict
session_roundtrip s = simp (
  as_optional_str-optional_str,
  parse_status-status_value,
  array_roundtrip transition_from_dict transition_to_dict transition_roundtrip,
  array_roundtrip precedent_from_dict precedent_to_dict precedent_roundtrip,
  array_roundtrip as_str str as_str-str,
)
