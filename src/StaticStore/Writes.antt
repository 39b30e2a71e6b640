-- ===== src/StaticStore/Writes.antt =====
-- What the tools on the static field write.
use mcp_session_router.Base.{
  String, Bool, true, false, if◌then◌else◌, Result-cases, ◌≡◌, refl, Bool-cases, inl, inr, arith,
  List, [], ◌∷◌,
}
use mcp_session_router.Base.{Option, none, some, Error, ok, err}
use mathlib.Core.Path.{subst}
use mcp_session_router.Store.{TextFormat}
use mcp_session_router.Static.{
  StaticField, new_static, FieldName, Reverted, reverted, no_history, secret_no_history, not_found,
}
use mcp_session_router.Static.Codec.{to_dict}
use mcp_session_router.Static.Roundtrip.{static_roundtrip}
use mcp_session_router.Static.Secrets.{
  NoHistory, context_text, conventions_text, map_paths, map_variables, delete, revert, change,
  change-NoHistory,
}
use mcp_session_router.StaticStore.{
  StaticUpdate, StaticFile, Mutation, Address, invalid_field, key_required, valid, load_static,
  save_static, mutate_static, then_set, apply_update, touch_changed, touch_deleted, touch_reverted,
  is_valid_source, at_address, validate_entry_address, update_static, delete_static_entry,
  revert_static_entry,
}

then_set-NoHistory {ℓ} :
    {A : Type ℓ} (o : Option A) (set : A → StaticField → StaticField × List String)
    (p : StaticField × List String)
    → ((v : A) (f : StaticField) → NoHistory f.variables → NoHistory (set v f).0.variables)
    → NoHistory p.0.variables
    → NoHistory (then_set o set p).0.variables
then_set-NoHistory none set p k h = h
then_set-NoHistory (some v) set p k h = k v p.0 h

apply_update-NoHistory :
    (u : StaticUpdate) (source now : String) (f : StaticField)
    → NoHistory f.variables
    → NoHistory (apply_update u source now f).0.variables
unfolding apply_update change
apply_update-NoHistory u source now f h =
    then_set-NoHistory u.new_variables _ _ (λ m g. change-NoHistory (map_variables m) source now g)
      (then_set-NoHistory u.new_map _ _ (λ m g. change-NoHistory (map_paths m) source now g)
        (then_set-NoHistory u.new_conventions _ _
          (λ v g. change-NoHistory (conventions_text v) source now g)
          (then_set-NoHistory u.new_context _ (f, [])
            (λ v g. change-NoHistory (context_text v) source now g) h)))

changed-variables :
    (now : String) (p : StaticField × List String)
    → (touch_changed now p).0.variables ≡ p.0.variables
changed-variables now (f, []) = refl
changed-variables now (f, name ∷ names) = refl

deleted-variables :
    (now : String) (p : StaticField × Bool) → (touch_deleted now p).0.variables ≡ p.0.variables
deleted-variables now (f, true) = refl
deleted-variables now (f, false) = refl

reverted-variables :
    (now : String) (p : StaticField × Reverted × String)
    → (touch_reverted now p).0.variables ≡ p.0.variables
reverted-variables now (f, reverted, at) = refl
reverted-variables now (f, no_history, at) = refl
reverted-variables now (f, secret_no_history, at) = refl
reverted-variables now (f, not_found, at) = refl

module _ (F : TextFormat) where
  pub load_static-save_static :
      (now : String) (f : StaticField) → load_static F now (save_static F f) ≡ ok f
  unfolding load_static save_static
  load_static-save_static now f = ground (arith, F.loads-dumps (to_dict f), static_roundtrip f)

  -- Whenever the file can be read, no variable in it keeps an old value.
  abbrev pub IsSecure : StaticFile F → Type 0
  IsSecure file =
      (now : String) (f : StaticField) → load_static F now file ≡ ok f → NoHistory f.variables

  -- So is a missing file.
  pub none-IsSecure : IsSecure none
  unfolding load_static
  none-IsSecure now f l =
      let e : new_static now ≡ f = ground arith in
      subst (λ (x : StaticField). NoHistory x.variables) e tt

  pub saved-IsSecure :
      (f : StaticField) (save : Bool) (file : StaticFile F)
      → NoHistory f.variables
      → IsSecure file
      → IsSecure (if save then save_static F f else file)
  saved-IsSecure f true file h s = λ now g l.
      let e : f ≡ g = ground (arith, load_static-save_static now f) in
      subst (λ (x : StaticField). NoHistory x.variables) e h
  saved-IsSecure f false file h s = s

  -- A call that keeps nothing old of what it reads keeps a file secure.
  loaded-IsSecure {ℓ} :
      {A : Type ℓ} (now : String) (mutator : StaticField → Mutation A) (file : StaticFile F)
      → ((f : StaticField) → NoHistory f.variables → NoHistory (mutator f).0.variables)
      → IsSecure file
      → IsSecure (mutate_static F now mutator file).1
  unfolding mutate_static
  loaded-IsSecure now mutator file k s = elim (Result-cases (load_static F now file)) [
    | inl (f, e) ↦ rw e (saved-IsSecure (mutator f).0 (mutator f).1 file (k f (s now f e)) s)
    | inr (x, e) ↦ rw e s
  ]

  at_address-IsSecure {ℓ} :
      {A : Type ℓ} (now : String) (mutator : FieldName → StaticField → Mutation A) (a : Address)
      (file : StaticFile F)
      → ((name : FieldName) (f : StaticField)
          → NoHistory f.variables
          → NoHistory (mutator name f).0.variables)
      → IsSecure file
      → IsSecure (at_address F now mutator a file).1
  at_address-IsSecure now mutator (valid name) file k s =
      loaded-IsSecure now (mutator name) file (k name) s
  at_address-IsSecure now mutator invalid_field file k s = s
  at_address-IsSecure now mutator key_required file k s = s

  -- If no readable content of the static field's file keeps an old value of a variable, none does
  -- after a call of update_static, delete_static_entry or revert_static_entry.
  pub static_tools-IsSecure :
      (now source field : String) (u : StaticUpdate) (key : Option String) (file : StaticFile F)
      → IsSecure file
      → IsSecure (update_static F now u source file).1
        × IsSecure (delete_static_entry F now field key file).1
        × IsSecure (revert_static_entry F now field key file).1
  unfolding update_static delete_static_entry revert_static_entry change
  static_tools-IsSecure now source field u key file s = (
    elim (Bool-cases (is_valid_source source)) [
      | inl e ↦ rw e (
          loaded-IsSecure now (λ f. touch_changed now (apply_update u source now f)) file
            (λ f h. rw changed-variables (apply_update-NoHistory u source now f h)) s)
      | inr e ↦ rw e s
    ],
    at_address-IsSecure now _ (validate_entry_address field key) file
        (λ name f h.
          rw deleted-variables (change-NoHistory (delete (some name) key) source now f h))
        s,
    at_address-IsSecure now _ (validate_entry_address field key) file
        (λ name f h.
          rw reverted-variables (change-NoHistory (revert (some name) key) source now f h))
        s,
  )

  at_address_unread {ℓ} :
      {A : Type ℓ} (now : String) (mutator : FieldName → StaticField → Mutation A) (a : Address)
      (file : StaticFile F) (e : Error)
      → load_static F now file ≡ err e
      → (at_address F now mutator a file).1 ≡ file
  unfolding mutate_static
  at_address_unread now mutator (valid name) file e h = rw h refl
  at_address_unread now mutator invalid_field file e h = refl
  at_address_unread now mutator key_required file e h = refl

  pub static_tools_unread :
      (now source field : String) (u : StaticUpdate) (key : Option String) (file : StaticFile F)
      (e : Error)
      → load_static F now file ≡ err e
      → ((update_static F now u source file).1 ≡ file)
        × ((delete_static_entry F now field key file).1 ≡ file)
        × ((revert_static_entry F now field key file).1 ≡ file)
  unfolding update_static delete_static_entry revert_static_entry mutate_static
  static_tools_unread now source field u key file e h = (
    elim (Bool-cases (is_valid_source source)) [ inl b ↦ rw (b, h) refl | inr b ↦ rw b refl ],
    at_address_unread now _ (validate_entry_address field key) file e h,
    at_address_unread now _ (validate_entry_address field key) file e h,
  )
