-- ===== src/Run/Sockets.antt =====
-- `init_socket` and `exit_socket` of core/kserver_session.cpp: how a session of each kind begins and
-- ends on its socket.
use koheron_server.Base.{
  ℕ, ◌≡◌, refl, Option, some, List, [], if◌then◌else◌, ◌>>=◌, ℤ, pos, minus_one, is_neg, Bool, true,
  false,
}
use koheron_server.Tcp.Receive.{ReadResult, failed, received}
use koheron_server.Websocket.Receive.{WebSocket, reset_read_buff, websock_read_str_len}
use koheron_server.Websocket.Send.{Connection, exit}
use koheron_server.Websocket.Handshake.{read_http_packet, authenticate}
use koheron_server.Sessions.{Kind, tcp, unix, websock}

module _ {S : Type 0} (write : S → List ℕ → ℤ × S) where
  -- `init_socket()`; only a session of the kind `websock` has a WebSocket.
  unfoldable pub init_socket :
      (S → ℕ → ReadResult × S)
      → (List ℕ → List ℕ)
      → (List ℕ → List ℕ)
      → Kind
      → WebSocket S
      → Option (ℤ × WebSocket S)
  init_socket read sha1 base64_encode tcp w = some (pos 0, w)
  init_socket read sha1 base64_encode unix w = some (pos 0, w)
  init_socket read sha1 base64_encode websock w =
      authenticate read write sha1 base64_encode w >>= λ (r, w').
      some (if is_neg r then minus_one else pos 0, w')

  -- `exit_socket()`
  unfoldable pub exit_socket : Kind → Connection S → Option (ℤ × Connection S)
  exit_socket tcp c = some (pos 0, c)
  exit_socket unix c = some (pos 0, c)
  exit_socket websock c = exit write c

-- A WebSocket session whose client sends nothing in the handshake, because it hangs up or the read
-- fails, does not begin, and nothing is written to it; if the client hung up, it is closed.
pub init_socket-refused :
    {S : Type 0} (read : S → ℕ → ReadResult × S) (write : S → List ℕ → ℤ × S)
    (sha1 base64_encode : List ℕ → List ℕ) (w : WebSocket S) (s : S) (hung_up : Bool)
    → read w.socket websock_read_str_len ≡ (if hung_up then received [] else failed, s)
    → init_socket write read sha1 base64_encode websock w
      ≡ some (
        minus_one,
        record (reset_read_buff w) {
          socket = s;
          connection_closed = if hung_up then true else w.connection_closed;
        },
      )
unfolding init_socket authenticate read_http_packet
init_socket-refused read write sha1 base64_encode w s true e = rw e refl
init_socket-refused read write sha1 base64_encode w s false e = rw e refl
