-- ===== src/Server/Switch.antt =====
-- session_switch: what a switch leaves behind, and what it does without a wrapper.
use mcp_session_router.Base.{
  String, ◌≡◌, refl, true, false, if◌then◌else◌, keep_if, arith, ap, ◌∙◌, [], ◌∷◌, ◌++◌,
}
use mcp_session_router.Base.{Option, none, some, ok, err, not_connected}
use mathlib.Core.List.{append_assoc}
use mcp_session_router.State
use mcp_session_router.Session.{
  SessionMetadata, new_transition, touch, link_conversation, drop_precedents_for, is_kept,
}
use mcp_session_router.Session.Precedents.{precedents-drop_precedents_for}
use mcp_session_router.Store.{TextFormat, Directory, load_session, load_session_by_name}
use mcp_session_router.Store.Laws.{IsConsistent, mutated, KeepsId}
use mcp_session_router.Store.ByName.{touches, mutate_session_by_name_lem}
use mcp_session_router.Decisions.{append_label}
use mcp_session_router.Context.{
  App, Env, Signal, switch, current_session, leave_for, link_known, first_known, mutate_by_name,
  send_signal, set_current_session,
}
use mcp_session_router.Server.{session_switch, switch_from, log_label}

-- Linking a conversation changes the list of links alone.
pub link_fields :
    (conv_id : String) (s : SessionMetadata)
    → let s' = link_conversation conv_id s in
      (s'.session_id ≡ s.session_id)
      × (s'.precedents ≡ s.precedents)
      × (s'.transitions ≡ s.transitions)
      × (s'.summary ≡ s.summary)
      × (s'.status ≡ s.status)
unfolding link_conversation
link_fields conv_id s = ground arith

pub link_known_fields :
    (conv : Option String) (s : SessionMetadata)
    → let s' = link_known conv s in
      (s'.session_id ≡ s.session_id)
      × (s'.precedents ≡ s.precedents)
      × (s'.transitions ≡ s.transitions)
      × (s'.summary ≡ s.summary)
      × (s'.status ≡ s.status)
link_known_fields none s = (refl, refl, refl, refl, refl)
link_known_fields (some conv_id) s = link_fields conv_id s

drop_fields :
    (target : String) (s : SessionMetadata)
    → let s' = drop_precedents_for target s in
      (s'.session_id ≡ s.session_id)
      × (s'.transitions ≡ s.transitions)
      × (s'.summary ≡ s.summary)
      × (s'.status ≡ s.status)
unfolding drop_precedents_for
drop_fields target s = ground arith

module _ (env : Env) where
  -- The session that is left has the new summary, one transition more, no precedent against the
  -- target and every other one, and its id and status as they were.
  pub leave_for_lem :
      (name target summary : String) (title conv : Option String) (s : SessionMetadata)
      → let s' = leave_for env name target summary title conv s in
        (s'.session_id ≡ s.session_id)
        × (s'.summary ≡ some summary)
        × (s'.transitions ≡ s.transitions ++ (new_transition (some name) target env.now ∷ []))
        × (s'.precedents ≡ keep_if (is_kept target) s.precedents)
        × (s'.status ≡ s.status)
        × (s'.last_accessed ≡ env.now)
  unfolding leave_for touch
  leave_for_lem name target summary none conv s =
      let s2 : SessionMetadata = record s {
        summary = some summary;
        transitions = s.transitions ++ (new_transition (some name) target env.now ∷ []);
      } in
      ground (
        arith,
        link_known_fields conv (drop_precedents_for target s2),
        drop_fields target s2,
        precedents-drop_precedents_for target s2,
      )
  leave_for_lem name target summary (some title) conv s =
      let s2 : SessionMetadata = record s {
        summary = some summary;
        title = title;
        transitions = s.transitions ++ (new_transition (some name) target env.now ∷ []);
      } in
      ground (
        arith,
        link_known_fields conv (drop_precedents_for target s2),
        drop_fields target s2,
        precedents-drop_precedents_for target s2,
      )

module _ (F : TextFormat) (env : Env) where
  -- Where the current session's mutation leaves the directory.
  pub mutate_by_name_lem :
      (name : String) (mutator : SessionMetadata → SessionMetadata) (app : App F)
      → KeepsId F mutator
      → IsConsistent F app.sessions
      → (s : Option SessionMetadata) × (dir : Directory F) × (load_session_by_name F name
            app.sessions
          ≡ ok s)
        × (mutate_by_name F name mutator app
            ≡ (ok (mutated F mutator s), record app { sessions = dir }))
        × ((j : String)
            → load_session F j dir
              ≡ (if touches F s j then ok (mutated F mutator s) else load_session F j app.sessions))
        × IsConsistent F dir
  unfolding mutate_by_name
  mutate_by_name_lem name mutator app keeps c =
      let (s, dir, l, m, at, c') = mutate_session_by_name_lem F name mutator app.sessions keeps c in
      (s, dir, l, rw m refl, at, c')

  abbrev switch_signal : String → String → String → String → Signal
  switch_signal name target summary prompt =
      switch target
        (record { from_session = some name; message = summary; new_session_title = none }) prompt

  abbrev after_switch : String → String → String → String → App F → Directory F → App F
  after_switch name target summary prompt app dir = record app {
    state = State.set_current_session (some target) app.state;
    sessions = dir;
    decisions =
        append_label env.writable target "accept" "session_switch" (some name) env.now
          app.decisions;
    signals =
        (app.signals ++ (switch_signal name target summary prompt ∷ []))
        ++ (current_session (some target) ∷ []);
  }

  run_switch :
      (name target summary prompt : String) (title conv : Option String) (app : App F)
      (r : Option SessionMetadata) (dir : Directory F)
      → app.connected ≡ true
      → mutate_by_name F name (leave_for env name target summary title conv) app
        ≡ (ok r, record app { sessions = dir })
      → switch_from F env target summary prompt title (some name) conv app
        ≡ (ok target, after_switch name target summary prompt app dir)
  unfolding send_signal set_current_session log_label
  run_switch name target summary prompt title conv app r dir on m = rw m (ground arith)

  run_disconnected :
      (name target summary prompt : String) (title conv : Option String) (app : App F)
      (r : Option SessionMetadata) (dir : Directory F)
      → app.connected ≡ false
      → mutate_by_name F name (leave_for env name target summary title conv) app
        ≡ (ok r, record app { sessions = dir })
      → switch_from F env target summary prompt title (some name) conv app ≡ (
        err not_connected,
        record app {
          sessions = dir;
          decisions =
              append_label env.writable target "accept" "session_switch"
                (some name)
                env.now
                app.decisions;
        },
      )
  unfolding send_signal set_current_session log_label
  run_disconnected name target summary prompt title conv app r dir off m = rw m (ground arith)

  -- With a wrapper and a consistent directory, session_switch from a session points to the target,
  -- sends the switch and then the current-session signal, logs one accepting label, and changes no
  -- session file but that of the session left.
  pub session_switch_lem :
      (name target summary prompt : String) (title : Option String) (app : App F)
      → app.connected ≡ true
      → app.state.current_session_name ≡ some name
      → IsConsistent F app.sessions
      → (s : Option SessionMetadata) × (app' : App F) × (load_session_by_name F name app.sessions
          ≡ ok s)
        × (session_switch F env target summary prompt title app ≡ (ok target, app'))
        × (app'.state.current_session_name ≡ some target)
        × (app'.signals
            ≡ app.signals
              ++ (switch_signal name target summary prompt ∷ current_session (some target) ∷ []))
        × (app'.decisions
            ≡ append_label env.writable target "accept" "session_switch"
                (some name)
                env.now
                app.decisions)
        × ((j : String)
            → load_session F j app'.sessions ≡ (
                if touches F s j
                then ok (
                    mutated F
                      (leave_for env name target summary title
                        (first_known env app.state.active_conversation_id))
                      s)
                else load_session F j app.sessions))
        × IsConsistent F app'.sessions
  unfolding session_switch send_signal set_current_session log_label
  session_switch_lem name target summary prompt title app on cur c =
      let conv : Option String = first_known env app.state.active_conversation_id in
      let (s, dir, l, m, at, c') =
        mutate_by_name_lem name (leave_for env name target summary title conv) app
          (λ x. (leave_for_lem env name target summary title conv x).0) c in
      (
        s,
        after_switch name target summary prompt app dir,
        l,
        ap (λ (o : Option String). switch_from F env target summary prompt title o conv app) cur
            ∙ run_switch name target summary prompt title conv app (mutated F _ s) dir on m,
        refl,
        append_assoc app.signals _ _,
        refl,
        at,
        c',
      )

  -- Without a wrapper session_switch from a session raises: pointer and signals stay, but the
  -- session left is changed and its accepting label logged.
  pub session_switch_disconnected :
      (name target summary prompt : String) (title : Option String) (app : App F)
      → app.connected ≡ false
      → app.state.current_session_name ≡ some name
      → IsConsistent F app.sessions
      → (dir : Directory F) × ((mutate_by_name F name
            (leave_for env name target summary title
              (first_known env app.state.active_conversation_id))
            app).1
          ≡ record app { sessions = dir })
        × (session_switch F env target summary prompt title app ≡ (
          err not_connected,
          record app {
            sessions = dir;
            decisions =
                append_label env.writable target "accept" "session_switch"
                  (some name)
                  env.now
                  app.decisions;
          },
        ))
  unfolding session_switch
  session_switch_disconnected name target summary prompt title app off cur c =
      let conv : Option String = first_known env app.state.active_conversation_id in
      let (s, dir, l, m, at, c') =
        mutate_by_name_lem name (leave_for env name target summary title conv) app
          (λ x. (leave_for_lem env name target summary title conv x).0) c in
      (
        dir,
        rw m refl,
        ap (λ (o : Option String). switch_from F env target summary prompt title o conv app) cur
            ∙ run_disconnected name target summary prompt title conv app (mutated F _ s) dir off m,
      )
