-- ===== src/Sockets.antt =====
-- src/session_manager/wrapper/socket_server.py: the wrapper's end of the socket. A connection is
-- pending until its first message tells a hook's, which is answered and closed, from the MCP
-- server's, which stays. Bytes are what recv gives; the files of the socket, the debug log and the
-- bytes that are sent are left out.
pub mod Stream
pub mod Frames
use mcp_session_router.Base.{
  ℕ, suc, zero, Bool, true, false, ◌==◌, nat_eq, if◌then◌else◌, List, [], ◌∷◌, ◌++◌, length,
}
use mcp_session_router.Base.{Option, none, some}
use mcp_session_router.Base.Lines.{Bytes, split_once}
use mcp_session_router.Json.{Json, str, obj, get}

-- What a recv gives: nothing yet, an OSError, or bytes, of which none are the end of the stream.
pub data Recv : Type 0 where
  blocked failed : Recv
  chunk : Bytes → Recv

-- What the hook's dispatcher answers.
pub data Dispatch : Type 0 where
  taken declined raised : Dispatch

-- WrapperSocketServer: the MCP server's connection with what was read of it, the pending ones with
-- what was read of each, the messages that were handed on, and the connections that were closed
-- here or given to the dispatcher.
pub record SocketServer : Type 0 where
  pub listening : Bool
  pub client : Option ℕ
  pub read_buffer : Bytes
  pub pending : List (ℕ × Bytes)
  pub received : List Json
  pub closed : List ℕ
  pub detached : List ℕ

abbrev pub find_fd : ℕ → List (ℕ × Bytes) → Option Bytes
find_fd fd [] = none
find_fd fd ((k, buffer) ∷ ps) =
    let rest = find_fd fd ps in if nat_eq k fd then some buffer else rest

-- self._pending_buffers[fd] = buffer
abbrev pub put_fd : ℕ → Bytes → List (ℕ × Bytes) → List (ℕ × Bytes)
put_fd fd buffer [] = (fd, buffer) ∷ []
put_fd fd buffer ((k, b) ∷ ps) =
    let rest = put_fd fd buffer ps in if nat_eq k fd then (k, buffer) ∷ ps else (k, b) ∷ rest

-- self._pending.pop(fd, None)
abbrev pub drop_fd : ℕ → List (ℕ × Bytes) → List (ℕ × Bytes)
drop_fd fd [] = []
drop_fd fd ((k, b) ∷ ps) = let rest = drop_fd fd ps in if nat_eq k fd then rest else (k, b) ∷ rest

abbrev pub is_client : Option Json → Bool
is_client (some (str s)) = s == "hook"
is_client _ = false

-- isinstance(message, dict) and message.get("client") == "hook"
abbrev pub is_hook : Json → Bool
is_hook (obj message) = is_client (get "client" message)
is_hook _ = false

abbrev pub close_for : Option ℕ → SocketServer → SocketServer
close_for none s = s
close_for (some fd) s = record s { client = none; read_buffer = []; closed = fd ∷ s.closed }

unfoldable pub close_client : SocketServer → SocketServer
close_client s = close_for s.client s

abbrev pub close_if : ℕ → Option Bytes → SocketServer → SocketServer
close_if fd none s = s
close_if fd (some buffer) s = record s { pending = drop_fd fd s.pending; closed = fd ∷ s.closed }

unfoldable pub close_pending : ℕ → SocketServer → SocketServer
close_pending fd s = close_if fd (find_fd fd s.pending) s

-- A send to the MCP server; `sent` tells whether sendall succeeds.
abbrev send_to : Bool → Option ℕ → SocketServer → Bool × SocketServer
send_to sent none s = (false, s)
send_to sent (some fd) s = if sent then (true, s) else (false, close_client s)

abbrev pub send_message : Bool → SocketServer → Bool × SocketServer
send_message sent s = send_to sent s.client s

-- stop, of what the model keeps
unfoldable pub stop_loop : List (ℕ × Bytes) → SocketServer → SocketServer
stop_loop [] s = s
stop_loop ((fd, buffer) ∷ ps) s = stop_loop ps (close_pending fd s)

abbrev pub stop : SocketServer → SocketServer
stop s = let s' = close_client s in record (stop_loop s'.pending s') { listening = false }

-- `accepted` is the new connection, none where accept has nothing.
abbrev pub handle_listen_readable : Option ℕ → SocketServer → SocketServer
handle_listen_readable none s = s
handle_listen_readable (some fd) s =
    if s.listening then record s { pending = put_fd fd [] s.pending } else s

abbrev pub found : Option Json → Bytes → Option Json × Bytes → Option Json × Bytes
found none remainder next = next
found (some message) remainder next = (some message, remainder)

module _ (loads : Bytes → Option Json) where
  abbrev pub line_message : Bytes → Option Json
  line_message [] = none
  line_message (c ∷ line) = loads (c ∷ line)

  -- The loop to the first message, with what follows it.
  unfoldable pub first_message : ℕ → Bytes → Option Json × Bytes
  first_message zero buffer = (none, buffer)
  first_message (suc rounds) buffer = elim (split_once buffer) [
    | none ↦ (none, buffer)
    | some p ↦ found (line_message p.0) p.1 (first_message rounds p.1)
  ]

-- `loads` decodes and parses a line; `breaks` tells whether a send that the handling of a message
-- makes fails; `dispatch` is the judge host's answer to a hook's message.
module _ (loads : Bytes → Option Json) (breaks : Json → Bool) (dispatch : Json → Dispatch) where
  unfoldable pub on_message : Json → SocketServer → SocketServer
  on_message message s =
      let s' = record s { received = s.received ++ (message ∷ []) } in
      if breaks message then close_client s' else s'

  abbrev pub on_loaded : Option Json → SocketServer → SocketServer
  on_loaded none s = s
  on_loaded (some message) s = on_message message s

  -- An empty line, or one that is no message, is dropped.
  abbrev pub handle_line : Bytes → SocketServer → SocketServer
  handle_line [] s = s
  handle_line (c ∷ line) s = on_loaded (loads (c ∷ line)) s

  -- The loop, with as many rounds as the buffer can have lines.
  unfoldable pub drain : ℕ → SocketServer → SocketServer
  drain zero s = s
  drain (suc rounds) s = elim (split_once s.read_buffer) [
    | none ↦ s
    | some p ↦ drain rounds (handle_line p.0 (record s { read_buffer = p.1 }))
  ]

  unfoldable pub drain_resident_buffer : SocketServer → SocketServer
  drain_resident_buffer s = drain (suc (length s.read_buffer)) s

  abbrev pub read_client : Recv → SocketServer → SocketServer
  read_client blocked s = s
  read_client failed s = close_client s
  read_client (chunk []) s = close_client s
  read_client (chunk (c ∷ cs)) s =
      drain_resident_buffer (record s { read_buffer = s.read_buffer ++ (c ∷ cs) })

  abbrev pub client_if : Recv → Option ℕ → SocketServer → SocketServer
  client_if r none s = s
  client_if r (some fd) s = read_client r s

  unfoldable pub handle_client_readable : Recv → SocketServer → SocketServer
  handle_client_readable r s = client_if r s.client s

  abbrev pub dispatched : ℕ → Json → Dispatch → SocketServer → SocketServer
  dispatched fd message raised s = close_pending fd s
  dispatched fd message taken s = record s {
    pending = drop_fd fd s.pending;
    detached = fd ∷ s.detached;
  }
  dispatched fd message declined s = close_pending fd (on_message message s)

  abbrev pub settle_hook : ℕ → Json → SocketServer → SocketServer
  settle_hook fd message s = dispatched fd message (dispatch message) s

  -- A second MCP server is turned away; the first one's remaining bytes are its buffer.
  abbrev pub promote : ℕ → Json → Bytes → Option ℕ → SocketServer → SocketServer
  promote fd message remainder (some other) s = close_pending fd s
  promote fd message remainder none s = drain_resident_buffer (
      on_message message
        (record s { client = some fd; read_buffer = remainder; pending = drop_fd fd s.pending }))

  abbrev pub settle_resident : ℕ → Json → Bytes → SocketServer → SocketServer
  settle_resident fd message remainder s = promote fd message remainder s.client s

  abbrev pub settle_pending : ℕ → Json → Bytes → SocketServer → SocketServer
  settle_pending fd message remainder s =
      if is_hook message then settle_hook fd message s else settle_resident fd message remainder s

  abbrev pub settle_first : ℕ → Option Json × Bytes → SocketServer → SocketServer
  settle_first fd (none, buffer) s = record s { pending = put_fd fd buffer s.pending }
  settle_first fd (some message, buffer) s =
      settle_pending fd message buffer (record s { pending = put_fd fd buffer s.pending })

  abbrev pub read_pending : ℕ → Recv → Option Bytes → SocketServer → SocketServer
  read_pending fd r none s = s
  read_pending fd blocked (some buffer) s = s
  read_pending fd failed (some buffer) s = close_pending fd s
  read_pending fd (chunk []) (some buffer) s = close_pending fd s
  read_pending fd (chunk (c ∷ cs)) (some buffer) s =
      let bytes = buffer ++ (c ∷ cs) in
      settle_first fd (first_message loads (suc (length bytes)) bytes) s

  unfoldable pub handle_pending_readable : ℕ → Recv → SocketServer → SocketServer
  handle_pending_readable fd r s = read_pending fd r (find_fd fd s.pending) s
