-- ===== src/Tests/Sessions.antt =====
-- Runs of the session, the store, the inference and the cleanup.
use mcp_session_router.Base.{String, ◌≡◌, refl}
use mcp_session_router.Base.{Option, some, [], ◌∷◌, ok}
use mcp_session_router.Session.{SessionMetadata, touch}
use mcp_session_router.Session.Codec.{to_dict, from_dict}
use mcp_session_router.Session.Roundtrip.{session_roundtrip}
use mcp_session_router.Store.{mutate_session_by_name, load_session_by_name, Directory}
use mcp_session_router.Store.Laws.{IsConsistent, mutated}
use mcp_session_router.Store.ByName.{mutate_session_by_name_lem}
use mcp_session_router.State.{resolve_from_store}
use mcp_session_router.State.Resolve.{resolve_from_store_total}
use mcp_session_router.Tests.{
  json_text, planning, coding, two_sessions, two_sessions-IsConsistent, time,
}

session_roundtrip_example : from_dict (to_dict planning) ≡ ok planning
session_roundtrip_example = session_roundtrip planning

touch-KeepsId : (s : SessionMetadata) → (touch "day 3" s).session_id ≡ s.session_id
unfolding touch
touch-KeepsId s = refl

mutate_session_by_name_lem_example :
    (s : Option SessionMetadata) × (dir : Directory json_text) × (load_session_by_name json_text
        "coding" two_sessions
      ≡ ok s)
    × (mutate_session_by_name json_text "coding" (touch "day 3") two_sessions
        ≡ ok (mutated json_text (touch "day 3") s, dir))
    × IsConsistent json_text dir
mutate_session_by_name_lem_example =
    let t =
      mutate_session_by_name_lem json_text "coding" (touch "day 3") two_sessions touch-KeepsId
        two_sessions-IsConsistent in
    (t.0, t.1, t.2, t.3, t.5)

resolve_from_store_total_example :
    (n : String) × (resolve_from_store time (coding ∷ planning ∷ []) (some "c2") ≡ ok (some n))
resolve_from_store_total_example =
    resolve_from_store_total time (coding ∷ planning ∷ []) (some "c2") (λ e. cc)
      ((86400000000, refl), ((172800000000, refl), tt))
