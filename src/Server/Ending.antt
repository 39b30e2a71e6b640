-- ===== src/Server/Ending.antt =====
-- session_end and check_session.
use mcp_session_router.Base.{
  String, ◌≡◌, refl, Bool, true, false, keep_if, All, keep_if-All, contains, ◌&&◌, eq_iff, arith,
  ap, ◌∙◌, ◌≢◌, List, [], ◌∷◌,
}
use mcp_session_router.Base.{Option, none, some, Result, ok}
use mcp_session_router.Session.{SessionMetadata, archived, is_active, touch}
use mcp_session_router.Store.{TextFormat, Directory, load_session, load_session_by_name}
use mcp_session_router.Store.Laws.{IsConsistent, mutated}
use mcp_session_router.Store.ByName.{
  touches, ids, list_sessions_lem, contains-sort_files, contains_loaded,
}
use mcp_session_router.Context.{App, Env, end_now, first_known, mutate_by_name, set_current_session}
use mcp_session_router.Server.{end_from, session_end, check_session}
use mcp_session_router.Server.Switch.{link_known_fields, mutate_by_name_lem}

end_now_fields :
    (env : Env) (summary : String) (conv : Option String) (s : SessionMetadata)
    → let s' = end_now env summary conv s in
      (s'.session_id ≡ s.session_id) × (s'.status ≡ archived) × (s'.summary ≡ some summary)
unfolding end_now touch
end_now_fields env summary conv s =
    ground (arith, link_known_fields conv (record s { summary = some summary; status = archived }))

module _ (F : TextFormat) (env : Env) where
  run_end :
      (name summary : String) (conv : Option String) (app : App F) (r : Option SessionMetadata)
      (dir : Directory F)
      → mutate_by_name F name (end_now env summary conv) app ≡ (ok r, record app { sessions = dir })
      → end_from F env summary (some name) conv app
        ≡ (ok (some name), (set_current_session F none (record app { sessions = dir })).1)
  unfolding set_current_session
  run_end name summary conv app r dir m = rw m refl

  pub pointer-set_current_session :
      (name : Option String) (app : App F)
      → ((set_current_session F name app).1.state.current_session_name ≡ name)
        × ((set_current_session F name app).1.sessions ≡ app.sessions)
  unfolding set_current_session
  pointer-set_current_session name app = ground arith

  -- What is read back of a session that was ended.
  ended_file :
      (summary : String) (conv : Option String) (o : Option SessionMetadata)
      (r : Result (Option SessionMetadata))
      → r ≡ ok (mutated F (end_now env summary conv) o)
      → o ≢ none
      → (s' : SessionMetadata) × (r ≡ ok (some s'))
        × (s'.status ≡ archived)
        × (s'.summary ≡ some summary)
  ended_file summary conv none r e n = absurd (n refl)
  ended_file summary conv (some s) r e n =
      let (_, a, b) = end_now_fields env summary conv s in (end_now env summary conv s, e, a, b)

  touches-some : (o : Option SessionMetadata) (j : String) → touches F o j ≡ true → o ≢ none
  touches-some none j t = cc
  touches-some (some s) j t = λ e. cc

  -- In a consistent directory session_end of the current session clears the pointer; the session's
  -- file then holds it archived with the summary and every other file is as it was.
  pub session_end_lem :
      (name summary : String) (app : App F)
      → app.state.current_session_name ≡ some name
      → IsConsistent F app.sessions
      → (s : Option SessionMetadata) × (app' : App F) × (load_session_by_name F name app.sessions
          ≡ ok s)
        × (session_end F env summary app ≡ (ok (some name), app'))
        × (app'.state.current_session_name ≡ none)
        × ((j : String)
            → touches F s j ≡ true
            → (s' : SessionMetadata) × (load_session F j app'.sessions ≡ ok (some s'))
              × (s'.status ≡ archived)
              × (s'.summary ≡ some summary))
        × ((j : String)
            → touches F s j ≡ false
            → load_session F j app'.sessions ≡ load_session F j app.sessions)
        × IsConsistent F app'.sessions
  unfolding session_end
  session_end_lem name summary app cur c =
      let conv : Option String = first_known env app.state.active_conversation_id in
      let (s, dir, l, m, at, c') =
        mutate_by_name_lem F env name (end_now env summary conv) app
          (λ x. (end_now_fields env summary conv x).0) c in
      let here : App F = record app { sessions = dir } in
      let (p, q) = pointer-set_current_session none here in
      (
        s,
        (set_current_session F none here).1,
        l,
        ap (λ (o : Option String). end_from F env summary o conv app) cur
            ∙ run_end name summary conv app (mutated F _ s) dir m,
        p,
        λ j t.
            ended_file summary conv s
              (load_session F j (set_current_session F none here).1.sessions)
              (rw q (ground (arith, at j, t))) (touches-some s j t),
        λ j t. rw q (ground (arith, at j, t)),
        rw q c',
      )

  listed-eq :
      (p : SessionMetadata → Bool) (ss : List SessionMetadata) (dir : Directory F) (k : String)
      (s : SessionMetadata)
      → All (λ x. load_session F x.session_id dir ≡ ok (some x)) ss
      → load_session F k dir ≡ ok (some s)
      → contains (ids (keep_if p ss)) k ≡ (contains (ids ss) k && p s)
  listed-eq p [] dir k s a l = refl
  listed-eq p (x ∷ ss) dir k s a l =
      ground (arith, eq_iff k x.session_id, listed-eq p ss dir k s a.1 l)

  pub check_session_lem :
      (app : App F)
      → IsConsistent F app.sessions
      → (ss : List SessionMetadata) × (check_session F env app ≡ (
        ok (record {
          current = app.state.current_session_name;
          conversation_id = first_known env app.state.active_conversation_id;
          sessions = ss;
        }),
        app,
      ))
        × All (λ s. is_active s.status ≡ true) ss
        × ((k : String) (s : SessionMetadata)
            → load_session F k app.sessions ≡ ok (some s)
            → contains (ids ss) k ≡ is_active s.status)
  unfolding check_session
  check_session_lem app c =
      let (ss, e, i, a) = list_sessions_lem F app.sessions c in
      (
        keep_if (λ s. is_active s.status) ss,
        ground (arith, e),
        keep_if-All (λ s. is_active s.status) ss,
        λ k s l.
            let listed : contains (ids ss) k ≡ true =
              ap (λ xs. contains xs k) i
              ∙ contains-sort_files app.sessions k
              ∙ contains_loaded F app.sessions k s l in
            ground (arith, listed-eq (λ x. is_active x.status) ss app.sessions k s a l, listed),
      )
