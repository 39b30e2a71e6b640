-- ===== src/Sockets/Stream.antt =====
-- What a connection of the MCP server delivers, however its bytes are cut up.
use mcp_session_router.Base.{
  ℕ, suc, ◌≡◌, refl, ◌∙◌, sym, ap, ◌⊎◌, Bool, true, false, arith, List, [], ◌∷◌, ◌++◌, length, inl,
  inr, if◌then◌else◌, nat_eq, All, Bool-cases,
}
use mcp_session_router.Base.{Option, none, some}
use mcp_session_router.Base.Lines.{Bytes, cut_lines, cut_lines-append}
use mathlib.Core.Path.{subst}
use mathlib.Core.List.{append_assoc, append-nil}
use mcp_session_router.Json.{Json}
use mcp_session_router.Sockets.{
  SocketServer, Dispatch, Recv, chunk, is_hook, find_fd, put_fd, client_if, handle_client_readable,
  promote, settle_first, first_message, read_pending, handle_pending_readable,
}
use mcp_session_router.Sockets.Frames.{
  messages, line_messages, line_messages-append, First, first_message-First, on_message-fed,
  drain_resident_buffer-fed,
}

nat_eq_refl : (n : ℕ) → nat_eq n n ≡ true
nat_eq_refl n = ground arith

find_fd-put_fd : (fd : ℕ) (b : Bytes) (ps : List (ℕ × Bytes)) → find_fd fd (put_fd fd b ps) ≡ some b
find_fd-put_fd fd b [] = rw (nat_eq_refl fd) refl
find_fd-put_fd fd b ((k, c) ∷ ps) = elim (Bool-cases (nat_eq k fd)) [
  | inl y ↦ rw y (rw y refl)
  | inr n ↦ rw n (rw n (find_fd-put_fd fd b ps))
]

All-left {ℓ} : {A : Type ℓ} (P : A → Type 0) (xs ys : List A) → All P (xs ++ ys) → All P xs
All-left P [] ys h = tt
All-left P (x ∷ xs) ys h = (h.0, All-left P xs ys h.1)

-- The chunks that recv gives, none of them empty, and the stream that they are cut from.
abbrev pub stream : List (ℕ × Bytes) → Bytes
stream [] = []
stream ((c, cs) ∷ chunks) = (c ∷ cs) ++ stream chunks

abbrev is_fd : ℕ → Option ℕ → Bool
is_fd fd none = false
is_fd fd (some k) = nat_eq k fd

module _ (loads : Bytes → Option Json) (breaks : Json → Bool) (dispatch : Json → Dispatch) where
  -- The loop's choice of the handler for a connection.
  abbrev pub readable : ℕ → Recv → SocketServer → SocketServer
  readable fd r s =
      if is_fd fd s.client
      then handle_client_readable loads breaks dispatch r s
      else handle_pending_readable loads breaks dispatch fd r s

  unfoldable pub feed : ℕ → List (ℕ × Bytes) → SocketServer → SocketServer
  feed fd [] s = s
  feed fd ((c, cs) ∷ chunks) s = feed fd chunks (readable fd (chunk (c ∷ cs)) s)

  messages-append :
      (a b : Bytes)
      → messages loads (a ++ b) ≡ messages loads a ++ messages loads ((cut_lines a).1 ++ b)
  unfolding messages
  messages-append a b =
      ap (λ p. line_messages loads p.0) (cut_lines-append a b)
      ∙ line_messages-append loads (cut_lines a).0 (cut_lines ((cut_lines a).1 ++ b)).0

  rest-append : (a b : Bytes) → (cut_lines (a ++ b)).1 ≡ (cut_lines ((cut_lines a).1 ++ b)).1
  rest-append a b = ap (λ p. p.1) (cut_lines-append a b)

  abbrev pub NotHook : Json → Type 0
  NotHook m = is_hook m ≡ false

  module _ (sound : (m : Json) → breaks m ≡ false) (fd : ℕ) (before : List Json) where
    abbrev Waits : Bytes → SocketServer → Type 0
    Waits seen s =
        (s.client ≡ none)
        × (find_fd fd s.pending ≡ some (cut_lines seen).1)
        × (messages loads seen ≡ [])
        × (s.received ≡ before)

    abbrev Stays : Bytes → SocketServer → Type 0
    Stays seen s =
        (s.client ≡ some fd)
        × (s.read_buffer ≡ (cut_lines seen).1)
        × (s.received ≡ before ++ messages loads seen)

    client_step :
        (seen : Bytes) (c : ℕ) (cs : Bytes) (s : SocketServer)
        → Stays seen s
        → Stays (seen ++ (c ∷ cs)) (handle_client_readable loads breaks dispatch (chunk (c ∷ cs)) s)
    unfolding handle_client_readable
    client_step seen c cs s (k, b, r) =
        subst (λ o. Stays (seen ++ (c ∷ cs)) (client_if loads breaks dispatch (chunk (c ∷ cs)) o s))
          (sym k)
          (subst (Stays (seen ++ (c ∷ cs)))
            (sym (
              drain_resident_buffer-fed loads breaks dispatch sound
                (record s { read_buffer = s.read_buffer ++ (c ∷ cs) })))
            (
              k,
              ap (λ x. (cut_lines (x ++ (c ∷ cs))).1) b ∙ sym (rest-append seen (c ∷ cs)),
              ap (λ x. x ++ messages loads (s.read_buffer ++ (c ∷ cs))) r
                  ∙ ap (λ x. (before ++ messages loads seen) ++ messages loads (x ++ (c ∷ cs))) b
                  ∙ append_assoc before (messages loads seen)
                      (messages loads ((cut_lines seen).1 ++ (c ∷ cs)))
                  ∙ ap (λ x. before ++ x) (sym (messages-append seen (c ∷ cs))),
            ))

    abbrev Goes : Bytes → SocketServer → Type 0
    Goes seen s = Waits seen s ⊎ Stays seen s

    promoted :
        (seen rest : Bytes) (m : Json) (s : SocketServer)
        → s.client ≡ none
        → s.received ≡ before
        → messages loads seen ≡ m ∷ messages loads rest
        → (cut_lines seen).1 ≡ (cut_lines rest).1
        → Stays seen (promote loads breaks dispatch fd m rest s.client s)
    promoted seen rest m s n r e f =
        subst (λ o. Stays seen (promote loads breaks dispatch fd m rest o s)) (sym n)
          (rw
            (
              on_message-fed loads breaks dispatch sound m,
              drain_resident_buffer-fed loads breaks dispatch sound,
            )
            (
              refl,
              sym f,
              append_assoc s.received (m ∷ []) (messages loads rest)
                  ∙ ap (λ x. x ++ (m ∷ messages loads rest)) r
                  ∙ ap (λ x. before ++ x) (sym e),
            ))

    settled-First :
        (seen bytes : Bytes) (x : Option Json × Bytes) (s : SocketServer)
        → s.client ≡ none
        → s.received ≡ before
        → messages loads seen ≡ messages loads bytes
        → (cut_lines seen).1 ≡ (cut_lines bytes).1
        → All NotHook (messages loads seen)
        → First loads bytes x
        → Goes seen (settle_first loads breaks dispatch fd x s)
    settled-First seen bytes (none, rest) s n r e f h (a, b) =
        inl (n, find_fd-put_fd fd rest s.pending ∙ ap some (sym (f ∙ b)), e ∙ a, r)
    settled-First seen bytes (some m, rest) s n r e f h (a, b) = inr (
        rw ((subst (All NotHook) (e ∙ a) h).0) (
          promoted seen rest m (record s { pending = put_fd fd rest s.pending }) n r (e ∙ a)
            (f ∙ b)))

    pending_step :
        (seen : Bytes) (c : ℕ) (cs : Bytes) (s : SocketServer)
        → All NotHook (messages loads (seen ++ (c ∷ cs)))
        → Waits seen s
        → Goes
            (seen ++ (c ∷ cs))
            (handle_pending_readable loads breaks dispatch fd (chunk (c ∷ cs)) s)
    unfolding handle_pending_readable
    pending_step seen c cs s h (n, p, e, r) =
        let bytes = (cut_lines seen).1 ++ (c ∷ cs) in
        subst
          (λ o.
            Goes (seen ++ (c ∷ cs)) (read_pending loads breaks dispatch fd (chunk (c ∷ cs)) o s))
          (sym p)
          (settled-First (seen ++ (c ∷ cs)) bytes (first_message loads (suc (length bytes)) bytes) s
            n r (messages-append seen (c ∷ cs) ∙ ap (λ x. x ++ messages loads bytes) e)
            (rest-append seen (c ∷ cs)) h
            (first_message-First loads (suc (length bytes)) bytes (omega arith)))

    abbrev chosen : Bool → Recv → SocketServer → SocketServer
    chosen b r s =
        if b
        then handle_client_readable loads breaks dispatch r s
        else handle_pending_readable loads breaks dispatch fd r s

    step_Goes :
        (seen : Bytes) (c : ℕ) (cs : Bytes) (s : SocketServer)
        → All NotHook (messages loads (seen ++ (c ∷ cs)))
        → Goes seen s
        → Goes (seen ++ (c ∷ cs)) (readable fd (chunk (c ∷ cs)) s)
    step_Goes seen c cs s h (inl w) =
        subst (λ b. Goes (seen ++ (c ∷ cs)) (chosen b (chunk (c ∷ cs)) s)) (sym (ap (is_fd fd) w.0))
          (pending_step seen c cs s h w)
    step_Goes seen c cs s h (inr k) =
        subst (λ b. Goes (seen ++ (c ∷ cs)) (chosen b (chunk (c ∷ cs)) s))
          (sym (ap (is_fd fd) k.0 ∙ nat_eq_refl fd)) (inr (client_step seen c cs s k))

    feed-Goes :
        (chunks : List (ℕ × Bytes)) (seen : Bytes) (s : SocketServer)
        → All NotHook (messages loads (seen ++ stream chunks))
        → Goes seen s
        → Goes (seen ++ stream chunks) (feed fd chunks s)
    unfolding feed
    feed-Goes [] seen s h g = subst (λ x. Goes x s) (sym (append-nil seen)) g
    feed-Goes ((c, cs) ∷ chunks) seen s h g =
        let whole = append_assoc seen (c ∷ cs) (stream chunks) in
        let seen' = seen ++ (c ∷ cs) in
        let h' = subst (λ x. All NotHook (messages loads x)) (sym whole) h in
        let first =
          All-left NotHook (messages loads seen')
            (messages loads ((cut_lines seen').1 ++ stream chunks))
            (subst (All NotHook) (messages-append seen' (stream chunks)) h') in
        subst (λ x. Goes x (feed fd chunks (readable fd (chunk (c ∷ cs)) s))) whole
          (feed-Goes chunks seen' (readable fd (chunk (c ∷ cs)) s) h'
            (step_Goes seen c cs s first g))

  abbrev delivered :
      (fd : ℕ) (before : List Json) (sound : (m : Json) → breaks m ≡ false) (seen : Bytes)
      (s : SocketServer)
      → Goes sound fd before seen s
      → s.received ≡ before ++ messages loads seen
  delivered fd before sound seen s (inl (n, p, e, r)) =
      r ∙ sym (append-nil before) ∙ ap (λ x. before ++ x) (sym e)
  delivered fd before sound seen s (inr (k, b, r)) = r

  -- If no MCP server is connected, nothing was read of a pending connection, no send breaks and
  -- the stream holds no hook's message, then however the stream is cut into non-empty chunks, the
  -- messages handed on are those of its lines, in order.
  pub feed-messages :
      (fd : ℕ) (chunks : List (ℕ × Bytes)) (s : SocketServer)
      → ((m : Json) → breaks m ≡ false)
      → s.client ≡ none
      → find_fd fd s.pending ≡ some []
      → All NotHook (messages loads (stream chunks))
      → (feed fd chunks s).received ≡ s.received ++ messages loads (stream chunks)
  unfolding messages cut_lines
  feed-messages fd chunks s sound n p h =
      delivered fd s.received sound (stream chunks) (feed fd chunks s)
        (feed-Goes sound fd s.received chunks [] s h (inl (n, p, refl, refl)))
