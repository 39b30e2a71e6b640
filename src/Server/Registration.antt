-- ===== src/Server/Registration.antt =====
-- session_register: what a registered session is, and what it leaves as it was.
use mcp_session_router.Base.{String, ◌≡◌, refl, arith, ◌==◌, if◌then◌else◌, eq_refl, ap, ◌∙◌}
use mcp_session_router.Base.{Option, none, some, ok}
use mcp_session_router.Session.{SessionMetadata, active, new_session, link_conversation}
use mcp_session_router.Store.{TextFormat, load_session, save_session}
use mcp_session_router.Store.Laws.{
  IsConsistent, load_session-save_session, save_session-IsConsistent,
}
use mcp_session_router.Context.{App, Env, link_known, first_known, set_current_session}
use mcp_session_router.Server.{session_register}
use mcp_session_router.Server.Ending.{pointer-set_current_session}
use mcp_session_router.Server.Switch.{link_known_fields}

new_session_fields :
    (session_id name title : String) (summary : Option String) (now : String)
    → let s = new_session session_id name title summary now in
      (s.session_id ≡ session_id)
      × (s.status ≡ active)
      × (s.name ≡ name)
      × (s.title ≡ title)
      × (s.summary ≡ summary)
unfolding new_session
new_session_fields session_id name title summary now = (refl, refl, refl, refl, refl)

-- A conversation that is linked changes neither the name nor the title.
link_named :
    (conv : Option String) (s : SessionMetadata)
    → let s' = link_known conv s in (s'.name ≡ s.name) × (s'.title ≡ s.title)
unfolding link_conversation
link_named none s = (refl, refl)
link_named (some conv_id) s = ground arith

module _ (F : TextFormat) (env : Env) where
  -- In a consistent directory session_register answers an active session of the given id, name,
  -- title and summary, which is then what is loaded by that id, points to its name, leaves every
  -- other file as it was and the directory consistent.
  pub session_register_lem :
      (session_id name title : String) (summary : Option String) (app : App F)
      → IsConsistent F app.sessions
      → (s : SessionMetadata) × (app' : App F) × (session_register F env session_id name title
            summary app
          ≡ (ok s, app'))
        × (s.session_id ≡ session_id)
        × (s.name ≡ name)
        × (s.title ≡ title)
        × (s.summary ≡ summary)
        × (s.status ≡ active)
        × (app'.state.current_session_name ≡ some name)
        × (load_session F session_id app'.sessions ≡ ok (some s))
        × ((j : String)
            → load_session F j app'.sessions
              ≡ (if session_id == j then ok (some s) else load_session F j app.sessions))
        × IsConsistent F app'.sessions
  unfolding session_register set_current_session
  session_register_lem session_id name title summary app c =
      let fresh : SessionMetadata = new_session session_id name title summary env.now in
      let conv : Option String = first_known env app.state.active_conversation_id in
      let s : SessionMetadata = link_known conv fresh in
      let here : App F = record app { sessions = save_session F s app.sessions } in
      let (i, _, _, m, t) = link_known_fields conv fresh in
      let (n, h) = link_named conv fresh in
      let (i', t', n', h', m') = new_session_fields session_id name title summary env.now in
      let at : (j : String)
          → load_session F j here.sessions
            ≡ (if session_id == j then ok (some s) else load_session F j app.sessions) =
        λ j.
          load_session-save_session F j s app.sessions
          ∙ ap (λ k. if k == j then ok (some s) else load_session F j app.sessions) (i ∙ i') in
      let (p, q) = pointer-set_current_session F env (some name) here in
      (
        s,
        (set_current_session F (some name) here).1,
        refl,
        i ∙ i',
        n ∙ n',
        h ∙ h',
        m ∙ m',
        t ∙ t',
        p,
        rw q (at session_id ∙ rw (eq_refl session_id) refl),
        λ j. rw q (at j),
        rw q (save_session-IsConsistent F s app.sessions c),
      )
