-- ===== src/Sockets/Frames.antt =====
-- The loops over a buffer, against the cut of the whole buffer into lines.
use mcp_session_router.Base.{
  ℕ, suc, zero, ◌<◌, ◌≡◌, refl, ◌∙◌, sym, ap, Bool, false, arith, List, [], ◌∷◌, ◌++◌, length,
  Option-cases, inl, inr,
}
use mcp_session_router.Base.{Option, none, some}
use mcp_session_router.Base.Lines.{
  Bytes, split_once, cut_lines, from_split, cut_lines_step, IsShorter, split_once-IsShorter,
}
use mathlib.Core.List.{append_assoc, append-nil}
use mcp_session_router.Json.{Json}
use mcp_session_router.Sockets.{
  SocketServer, Dispatch, on_message, handle_line, drain, drain_resident_buffer, line_message,
  found, first_message,
}

module _ (loads : Bytes → Option Json) where
  abbrev with_message : Option Json → List Json → List Json
  with_message none ms = ms
  with_message (some m) ms = m ∷ ms

  abbrev pub line_messages : List Bytes → List Json
  line_messages [] = []
  line_messages (line ∷ lines) = with_message (line_message loads line) (line_messages lines)

  with_message-append :
      (o : Option Json) (xs ys : List Json) → with_message o (xs ++ ys) ≡ with_message o xs ++ ys
  with_message-append none xs ys = refl
  with_message-append (some m) xs ys = refl

  pub line_messages-append :
      (xs ys : List Bytes) → line_messages (xs ++ ys) ≡ line_messages xs ++ line_messages ys
  line_messages-append [] ys = refl
  line_messages-append (a ∷ xs) ys =
      ap (with_message (line_message loads a)) (line_messages-append xs ys)
      ∙ with_message-append (line_message loads a) (line_messages xs) (line_messages ys)

  -- The messages of a stream's complete lines.
  unfoldable pub messages : Bytes → List Json
  messages s = line_messages (cut_lines s).0

  messages_step :
      (s : Bytes) (o : Option (Bytes × Bytes)) → split_once s ≡ o → cut_lines s ≡ from_split s o
  messages_step s o e = cut_lines_step s ∙ ap (from_split s) e

  -- The first message of the loop is the first one of the lines, and the rest follows it.
  abbrev pub First : Bytes → Option Json × Bytes → Type 0
  First s (none, rest) = (messages s ≡ []) × ((cut_lines s).1 ≡ rest)
  First s (some m, rest) = (messages s ≡ m ∷ messages rest) × ((cut_lines s).1 ≡ (cut_lines rest).1)

  found-First :
      (o : Option Json) (s rest : Bytes) (next : Option Json × Bytes)
      → messages s ≡ with_message o (messages rest)
      → (cut_lines s).1 ≡ (cut_lines rest).1
      → First rest next
      → First s (found o rest next)
  found-First none s rest (none, r) e f (g, h) = (e ∙ g, f ∙ h)
  found-First none s rest (some m, r) e f (g, h) = (e ∙ g, f ∙ h)
  found-First (some m) s rest next e f g = (e, f)

  first_message_cut :
      (n : ℕ) (s : Bytes) (o : Option (Bytes × Bytes))
      → ((r : Bytes) → length r < n → First r (first_message loads n r))
      → length s < suc n
      → split_once s ≡ o
      → IsShorter (length s) o
      → First s (elim o [
        | none ↦ (none, s)
        | some p ↦ found (line_message loads p.0) p.1 (first_message loads n p.1)
      ])
  unfolding messages
  first_message_cut n s none ih l e k =
      let c = messages_step s none e in (ap (λ p. line_messages p.0) c, ap (λ p. p.1) c)
  first_message_cut n s (some (line, rest)) ih l e k =
      let c = messages_step s (some (line, rest)) e in
      found-First (line_message loads line) s rest (first_message loads n rest)
        (ap (λ p. line_messages p.0) c) (ap (λ p. p.1) c) (ih rest (omega arith))

  pub first_message-First : (n : ℕ) (s : Bytes) → length s < n → First s (first_message loads n s)
  unfolding first_message
  first_message-First zero s l = absurd (omega arith)
  first_message-First (suc n) s l =
      first_message_cut n s (split_once s) (first_message-First n) l refl (split_once-IsShorter s)

  module _ (breaks : Json → Bool) (dispatch : Json → Dispatch)
      (sound : (m : Json) → breaks m ≡ false) where
    abbrev pub fed : SocketServer → Bytes → List Json → SocketServer
    fed s buffer ms = record s { read_buffer = buffer; received = s.received ++ ms }

    pub on_message-fed :
        (m : Json) (s : SocketServer)
        → on_message loads breaks dispatch m s ≡ fed s s.read_buffer (m ∷ [])
    unfolding on_message
    on_message-fed m s = rw (sound m) refl

    fed_nothing : (s : SocketServer) (b : Bytes) → record s { read_buffer = b } ≡ fed s b []
    fed_nothing s b =
        ap (λ r. record s { read_buffer = b; received = r }) (sym (append-nil s.received))

    handle_line-fed :
        (line rest : Bytes) (s : SocketServer)
        → handle_line loads breaks dispatch line (record s { read_buffer = rest })
          ≡ fed s rest (line_messages (line ∷ []))
    handle_line-fed [] rest s = fed_nothing s rest
    handle_line-fed (c ∷ line) rest s = elim (Option-cases (loads (c ∷ line))) [
      | inl n ↦ rw n (fed_nothing s rest)
      | inr (m, y) ↦ rw y (on_message-fed m (record s { read_buffer = rest }))
    ]

    drain_cut :
        (n : ℕ) (s : SocketServer) (o : Option (Bytes × Bytes))
        → ((u : SocketServer)
            → length u.read_buffer < n
            → drain loads breaks dispatch n u
              ≡ fed u (cut_lines u.read_buffer).1 (messages u.read_buffer))
        → length s.read_buffer < suc n
        → split_once s.read_buffer ≡ o
        → IsShorter (length s.read_buffer) o
        → (elim o [
          | none ↦ s
          | some p ↦
              drain loads breaks dispatch n
                (handle_line loads breaks dispatch p.0 (record s { read_buffer = p.1 }))
        ])
          ≡ fed s (cut_lines s.read_buffer).1 (messages s.read_buffer)
    unfolding messages
    drain_cut n s none ih l e k =
        rw (messages_step s.read_buffer none e) (fed_nothing s s.read_buffer)
    drain_cut n s (some (line, rest)) ih l e k =
        rw (messages_step s.read_buffer (some (line, rest)) e, handle_line-fed line rest s)
          (ih (fed s rest (line_messages (line ∷ []))) (omega arith)
            ∙ ap (λ r. record s { read_buffer = (cut_lines rest).1; received = r })
                (append_assoc s.received (line_messages (line ∷ [])) (messages rest)
                  ∙ ap (λ r. s.received ++ r)
                      (sym (line_messages-append (line ∷ []) (cut_lines rest).0))))

    drain-fed :
        (n : ℕ) (s : SocketServer)
        → length s.read_buffer < n
        → drain loads breaks dispatch n s
          ≡ fed s (cut_lines s.read_buffer).1 (messages s.read_buffer)
    unfolding drain
    drain-fed zero s l = absurd (omega arith)
    drain-fed (suc n) s l =
        drain_cut n s (split_once s.read_buffer) (drain-fed n) l refl
          (split_once-IsShorter s.read_buffer)

    pub drain_resident_buffer-fed :
        (s : SocketServer)
        → drain_resident_buffer loads breaks dispatch s
          ≡ fed s (cut_lines s.read_buffer).1 (messages s.read_buffer)
    unfolding drain_resident_buffer
    drain_resident_buffer-fed s = drain-fed (suc (length s.read_buffer)) s (omega arith)
