-- ===== src/Tests/Tools.antt =====
-- Runs of the tools, in the session "planning".
use mcp_session_router.Base.{◌≡◌, refl, true, false}
use mcp_session_router.Base.{Option, none, some, [], ok, err, not_connected}
use mcp_session_router.Session.{SessionMetadata}
use mcp_session_router.Store.{Directory, load_session_by_name, load_session}
use mcp_session_router.Store.Laws.{IsConsistent}
use mcp_session_router.Decisions.{append_label}
use mcp_session_router.Context.{App, renamed}
use mcp_session_router.Server.{session_create, session_switch, session_end}
use mcp_session_router.Server.Switch.{session_switch_lem, session_switch_disconnected}
use mcp_session_router.Server.Ending.{session_end_lem}
use mcp_session_router.Tests.{
  json_text, two_sessions, two_sessions-IsConsistent, time, time-IsZoned, env, app,
}
use mcp_session_router.Server.{session_register}
use mcp_session_router.Server.Registration.{session_register_lem}
use mcp_session_router.Server.Creation.{session_create_lem}
use mcp_session_router.Cleanup.{not_json, get_cleanup_period_days, cutoff_of}

session_switch_lem_example :
    (s : Option SessionMetadata) × (app' : App json_text) × (load_session_by_name json_text
        "planning" two_sessions
      ≡ ok s)
    × (session_switch json_text env "coding" "Planned." "write it" none app ≡ (ok "coding", app'))
    × (app'.state.current_session_name ≡ some "coding")
    × IsConsistent json_text app'.sessions
session_switch_lem_example =
    let t =
      session_switch_lem json_text env "planning" "coding" "Planned." "write it" none app refl refl
        two_sessions-IsConsistent in
    (t.0, t.1, t.2, t.3, t.4, t.8)

session_switch_disconnected_example :
    (dir : Directory json_text) × (session_switch json_text env "coding" "Planned." "write it" none
        (record app { connected = false })
      ≡ (
        err not_connected,
        record app {
          connected = false;
          sessions = dir;
          decisions =
              append_label true "coding" "accept" "session_switch" (some "planning") "day 3" [];
        },
      ))
session_switch_disconnected_example =
    let t =
      session_switch_disconnected json_text env "planning" "coding" "Planned." "write it" none
        (record app { connected = false }) refl refl two_sessions-IsConsistent in
    (t.0, t.2)

session_end_lem_example :
    (app' : App json_text) × (session_end json_text env "Planned." app
      ≡ (ok (some "planning"), app'))
    × (app'.state.current_session_name ≡ none)
    × IsConsistent json_text app'.sessions
session_end_lem_example =
    let t =
      session_end_lem json_text env "planning" "Planned." app refl two_sessions-IsConsistent in
    (t.1, t.3, t.4, t.7)

session_create_lem_example :
    (s : Option SessionMetadata) × (app' : App json_text) × (session_create json_text env time
        (λ cs. none)
        3000000000000
        not_json
        "docs"
        "Docs"
        "Planned."
        "write it"
        app
      ≡ (ok (renamed (some "planning") s), app'))
    × (app'.state.current_session_name ≡ some "docs")
    × IsConsistent json_text app'.sessions
unfolding get_cleanup_period_days cutoff_of
session_create_lem_example =
    let t =
      session_create_lem json_text env time (λ cs. none) 3000000000000 30 408000000000 not_json
        "planning" "docs" "Docs" "Planned." "write it" app refl refl two_sessions-IsConsistent refl
        refl (λ k s l. time-IsZoned s.last_accessed) in
    (t.0, t.1, t.5, t.6, t.9)

session_register_lem_example :
    (s : SessionMetadata) × (app' : App json_text) × (session_register json_text env "s3" "docs"
        "Docs" none app
      ≡ (ok s, app'))
    × (s.name ≡ "docs")
    × (load_session json_text "s3" app'.sessions ≡ ok (some s))
    × (app'.state.current_session_name ≡ some "docs")
session_register_lem_example =
    let t =
      session_register_lem json_text env "s3" "docs" "Docs" none app two_sessions-IsConsistent in
    (t.0, t.1, t.2, t.4, t.9, t.8)
