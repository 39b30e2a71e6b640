-- ===== src/StateFile/Keys.antt =====
-- The two keys of state.json are independent.
use mcp_session_router.Base.{String, ◌≡◌, true, false, ◌==◌, arith, if◌then◌else◌}
use mcp_session_router.Base.{Option, none, some, Option-cases, Bool-cases, inl, inr}
use mcp_session_router.Base.Dict.{Dict, lookup, insert, erase, lookup-insert, lookup-erase}
use mcp_session_router.Json.{Json, obj, str, entries-fields}
use mcp_session_router.Store.{TextFormat}
use mcp_session_router.StateFile.{
  StateFile, Transition, load_state, save_state, save_last_transition, load_last_transition,
  clear_last_transition, save_current_session, load_current_session, last_transition_key,
  current_session_key, transition_fields,
}

module _ (F : TextFormat) where
  load_state-save_state :
      (d : Dict Json) (file : StateFile F) → load_state F (save_state F true d file) ≡ d
  unfolding load_state save_state
  load_state-save_state d file = rw F.loads-dumps (entries-fields d)

  -- A transition with non-empty names that was saved is what is loaded, and the saved current
  -- session stays.
  pub load_last_transition-save :
      (now : String) (t : Transition) (file : StateFile F)
      → (t.from_session == "") ≡ false
      → (t.to_session == "") ≡ false
      → (load_last_transition F (save_last_transition F true now t file) ≡ some t)
        × (load_current_session F (save_last_transition F true now t file)
            ≡ load_current_session F file)
  unfolding load_last_transition load_current_session save_last_transition
  load_last_transition-save now t file f g =
      let v = obj (transition_fields t now) in
      ground (
        arith,
        load_state-save_state (insert last_transition_key v (load_state F file)) file,
        lookup-insert last_transition_key last_transition_key v (load_state F file),
        lookup-insert last_transition_key current_session_key v (load_state F file),
      )

  pub load_last_transition-clear :
      (file : StateFile F)
      → (load_last_transition F (clear_last_transition F true file) ≡ none)
        × (load_current_session F (clear_last_transition F true file) ≡ load_current_session F file)
  unfolding load_last_transition load_current_session clear_last_transition
  load_last_transition-clear file =
      elim (Option-cases (lookup last_transition_key (load_state F file))) [
        | inl n ↦ ground (arith, n)
        | inr (v, e) ↦ ground (
          arith,
          e,
          load_state-save_state (erase last_transition_key (load_state F file)) file,
          lookup-erase last_transition_key last_transition_key (load_state F file),
          lookup-erase last_transition_key current_session_key (load_state F file),
        )
      ]

  abbrev pub named : Option String → Option String
  named none = none
  named (some name) = if name == "" then none else some name

  forgotten :
      (file : StateFile F)
      → (load_current_session F (save_current_session F true none file) ≡ none)
        × (load_last_transition F (save_current_session F true none file)
            ≡ load_last_transition F file)
  unfolding load_last_transition load_current_session save_current_session
  forgotten file = elim (Option-cases (lookup current_session_key (load_state F file))) [
    | inl n ↦ ground (arith, n)
    | inr (v, e) ↦ ground (
      arith,
      e,
      load_state-save_state (erase current_session_key (load_state F file)) file,
      lookup-erase current_session_key current_session_key (load_state F file),
      lookup-erase current_session_key last_transition_key (load_state F file),
    )
  ]

  pub load_current_session-save :
      (name : Option String) (file : StateFile F)
      → (load_current_session F (save_current_session F true name file) ≡ named name)
        × (load_last_transition F (save_current_session F true name file)
            ≡ load_last_transition F file)
  unfolding load_last_transition load_current_session save_current_session
  load_current_session-save none file = forgotten file
  load_current_session-save (some name) file = elim (Bool-cases (name == "")) [
    | inl e ↦ rw e (forgotten file)
    | inr n ↦ ground (
      arith,
      n,
      load_state-save_state (insert current_session_key (str name) (load_state F file)) file,
      lookup-insert current_session_key current_session_key (str name) (load_state F file),
      lookup-insert current_session_key last_transition_key (str name) (load_state F file),
    )
  ]
