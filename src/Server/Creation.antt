-- ===== src/Server/Creation.antt =====
-- session_create: the cleanup before it, the session that is left and the wrapper's signals.
use mcp_session_router.Base.{
  ℕ, String, ◌≡◌, refl, true, if◌then◌else◌, arith, ap, ◌∙◌, List, [], ◌∷◌, ◌++◌,
}
use mcp_session_router.Base.{Option, none, some, ok, ◌>>=◌}
use mathlib.Core.List.{append_assoc}
use mcp_session_router.State
use mcp_session_router.Session.{SessionMetadata, touch}
use mcp_session_router.Store.{TextFormat, Directory, load_session, load_session_by_name}
use mcp_session_router.Store.Laws.{IsConsistent, mutated}
use mcp_session_router.Store.ByName.{touches}
use mcp_session_router.Base.Times.{Time, IsZoned}
use mcp_session_router.Cleanup.{Settings, get_cleanup_period_days, cutoff_of, cleanup_by_settings}
use mcp_session_router.Cleanup.Expiry.{kept, cleanup_expired_sessions_lem}
use mcp_session_router.Context.{
  App, Env, Signal, new, current_session, hand_off, renamed, first_known, mutate_by_name,
  send_signal, set_current_session,
}
use mcp_session_router.Server.{session_create, create_from, cleanup}
use mcp_session_router.Server.Switch.{link_known_fields, mutate_by_name_lem}

hand_off-id :
    (env : Env) (summary : String) (conv : Option String) (s : SessionMetadata)
    → (hand_off env summary conv s).session_id ≡ s.session_id
unfolding hand_off touch
hand_off-id env summary conv s =
    ground (arith, link_known_fields conv (record s { summary = some summary }))

module _ (F : TextFormat) (env : Env) where
  renamed-mutated :
      (name : String) (f : SessionMetadata → SessionMetadata) (s : Option SessionMetadata)
      → renamed (some name) (mutated F f s) ≡ renamed (some name) s
  renamed-mutated name f none = refl
  renamed-mutated name f (some s) = refl

  abbrev pub new_signal :
      String → Option SessionMetadata → String → String → String → String → Signal
  new_signal name s new_name title summary prompt =
      new (renamed (some name) s) new_name
        (record { from_session = some name; message = summary; new_session_title = some title })
        prompt

  abbrev created :
      String
      → Option SessionMetadata
      → String
      → String
      → String
      → String
      → App F
      → Directory F
      → App F
  created name s new_name title summary prompt app dir = record app {
    state = State.set_current_session (some new_name) app.state;
    sessions = dir;
    signals =
        (app.signals ++ (new_signal name s new_name title summary prompt ∷ []))
        ++ (current_session (some new_name) ∷ []);
  }

  run_create :
      (name new_name title summary prompt : String) (conv : Option String) (app : App F)
      (s : Option SessionMetadata) (dir : Directory F)
      → app.connected ≡ true
      → mutate_by_name F name (hand_off env summary conv) app
        ≡ (ok (mutated F (hand_off env summary conv) s), record app { sessions = dir })
      → create_from F env new_name title summary prompt (some name) conv app
        ≡ (ok (renamed (some name) s), created name s new_name title summary prompt app dir)
  unfolding send_signal set_current_session
  run_create name new_name title summary prompt conv app s dir on m =
      rw m (rw (renamed-mutated name (hand_off env summary conv) s) (ground arith))

  module _ (time : String → Option Time) (activity : List String → Option ℕ) where
    -- With a wrapper, a consistent directory, a cutoff and a zone in every stored time that
    -- parses, session_create first cleans up, then hands off from the current session if its file
    -- is left, points to the new session and signals new and then the current session.
    pub session_create_lem :
        (now period cutoff : ℕ) (settings : Settings) (name new_name title summary prompt : String)
        (app : App F)
        → app.connected ≡ true
        → app.state.current_session_name ≡ some name
        → IsConsistent F app.sessions
        → get_cleanup_period_days settings ≡ ok period
        → cutoff_of now period ≡ ok cutoff
        → ((k : String) (x : SessionMetadata)
            → load_session F k app.sessions ≡ ok (some x)
            → IsZoned (time x.last_accessed))
        → (s : Option SessionMetadata) × (app' : App F) × (dir : Directory F) × ((k : String)
              (o : Option SessionMetadata)
            → load_session F k app.sessions ≡ ok o
            → load_session F k dir ≡ ok (kept F time activity cutoff o))
          × (load_session_by_name F name dir ≡ ok s)
          × (session_create F env time activity now settings new_name title summary prompt app
              ≡ (ok (renamed (some name) s), app'))
          × (app'.state.current_session_name ≡ some new_name)
          × (app'.signals
              ≡ app.signals
                ++ (new_signal name s new_name title summary prompt
                    ∷ current_session (some new_name)
                    ∷ []))
          × ((j : String)
              → load_session F j app'.sessions ≡ (
                  if touches F s j
                  then ok (
                      mutated F
                        (hand_off env summary (first_known env app.state.active_conversation_id))
                        s)
                  else load_session F j dir))
          × IsConsistent F app'.sessions
    unfolding session_create cleanup cleanup_by_settings
    session_create_lem now period cutoff settings name new_name title summary prompt app on cur c p
          h z =
        let conv : Option String = first_known env app.state.active_conversation_id in
        let (ss, dir, _, e, k, c') =
          cleanup_expired_sessions_lem F time activity now period cutoff app.sessions c h z in
        let here : App F = record app { sessions = dir } in
        let (s, dir', l, m, at, d) =
          mutate_by_name_lem F env name (hand_off env summary conv) here
            (hand_off-id env summary conv) c' in
        (
          s,
          created name s new_name title summary prompt here dir',
          dir,
          k,
          l,
          rw (p, ◌>>=◌, e)
              (ap
                  (λ (o : Option String).
                    create_from F env new_name title summary prompt o conv here)
                  cur
                ∙ run_create name new_name title summary prompt conv here s dir' on m),
          refl,
          append_assoc app.signals _ _,
          at,
          d,
        )
