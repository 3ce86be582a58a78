-- ===== src/Websocket/Handshake.antt =====
-- The handshake of core/websocket.cpp, lines 44 to 129. Texts are lists of bytes. `std::string` and
-- its `find` and `substr` are modelled; SHA-1 and base64 are parameters. `none` stands for a text
-- that runs past the end of the buffer.
pub mod Answer
use mathlib.Core.Option
use koheron_server.Base.{
  ℕ, zero, suc, ◌+◌, ◌-◌, ◌≡◌, Option, none, some, List, [], ◌∷◌, ◌++◌, ltb, leb, ◌==◌,
  if◌then◌else◌, ◌>>=◌, length, take, drop, ℤ, pos, minus_one, is_neg, Bool, true, false,
}
use koheron_server.Tcp.Receive.{ReadResult, failed, received}
use koheron_server.Websocket.Receive.{
  WebSocket, reset_read_buff, kserver_read_str_len, websock_read_str_len,
}
use koheron_server.Websocket.Send.{Connection, send_request}

-- "Sec-WebSocket-Key: "
abbrev pub ws_key_identifier : List ℕ
ws_key_identifier =
    83 ∷ 101 ∷ 99 ∷ 45 ∷ 87 ∷ 101 ∷ 98 ∷ 83 ∷ 111 ∷ 99 ∷ 107 ∷ 101 ∷ 116 ∷ 45 ∷ 75 ∷ 101 ∷ 121 ∷ 58
    ∷ 32 ∷ []

-- "Sec-WebSocket-Protocol: "
abbrev pub ws_protocol_identifier : List ℕ
ws_protocol_identifier =
    83 ∷ 101 ∷ 99 ∷ 45 ∷ 87 ∷ 101 ∷ 98 ∷ 83 ∷ 111 ∷ 99 ∷ 107 ∷ 101 ∷ 116 ∷ 45 ∷ 80 ∷ 114 ∷ 111 ∷ 116
    ∷ 111 ∷ 99 ∷ 111 ∷ 108 ∷ 58 ∷ 32 ∷ []

-- "258EAFA5-E914-47DA-95CA-C5AB0DC85B11"
abbrev pub ws_magic : List ℕ
ws_magic =
    50 ∷ 53 ∷ 56 ∷ 69 ∷ 65 ∷ 70 ∷ 65 ∷ 53 ∷ 45 ∷ 69 ∷ 57 ∷ 49 ∷ 52 ∷ 45 ∷ 52 ∷ 55 ∷ 68 ∷ 65 ∷ 45
    ∷ 57 ∷ 53 ∷ 67 ∷ 65 ∷ 45 ∷ 67 ∷ 53 ∷ 65 ∷ 66 ∷ 48 ∷ 68 ∷ 67 ∷ 56 ∷ 53 ∷ 66 ∷ 49 ∷ 49 ∷ []

-- "\r\n\r\n"
abbrev pub end_of_header : List ℕ
end_of_header = 13 ∷ 10 ∷ 13 ∷ 10 ∷ []

-- "\r\n"
abbrev pub end_of_line : List ℕ
end_of_line = 13 ∷ 10 ∷ []

-- The lines in front of the key: the status, "Upgrade: websocket" and "Connection: Upgrade".
abbrev pub first_lines : List ℕ
first_lines =
    72 ∷ 84 ∷ 84 ∷ 80 ∷ 47 ∷ 49 ∷ 46 ∷ 49 ∷ 32 ∷ 49 ∷ 48 ∷ 49 ∷ 32 ∷ 83 ∷ 119 ∷ 105 ∷ 116 ∷ 99 ∷ 104
    ∷ 105 ∷ 110 ∷ 103 ∷ 32 ∷ 80 ∷ 114 ∷ 111 ∷ 116 ∷ 111 ∷ 99 ∷ 111 ∷ 108 ∷ 115 ∷ 13 ∷ 10 ∷ 85 ∷ 112
    ∷ 103 ∷ 114 ∷ 97 ∷ 100 ∷ 101 ∷ 58 ∷ 32 ∷ 119 ∷ 101 ∷ 98 ∷ 115 ∷ 111 ∷ 99 ∷ 107 ∷ 101 ∷ 116 ∷ 13
    ∷ 10 ∷ 67 ∷ 111 ∷ 110 ∷ 110 ∷ 101 ∷ 99 ∷ 116 ∷ 105 ∷ 111 ∷ 110 ∷ 58 ∷ 32 ∷ 85 ∷ 112 ∷ 103 ∷ 114
    ∷ 97 ∷ 100 ∷ 101 ∷ 13 ∷ 10 ∷ []

-- "Sec-WebSocket-Accept: "
abbrev pub accept_identifier : List ℕ
accept_identifier =
    83 ∷ 101 ∷ 99 ∷ 45 ∷ 87 ∷ 101 ∷ 98 ∷ 83 ∷ 111 ∷ 99 ∷ 107 ∷ 101 ∷ 116 ∷ 45 ∷ 65 ∷ 99 ∷ 99 ∷ 101
    ∷ 112 ∷ 116 ∷ 58 ∷ 32 ∷ []

-- "Sec-WebSocket-Protocol: chat\r\n"
abbrev pub protocol_line : List ℕ
protocol_line =
    83 ∷ 101 ∷ 99 ∷ 45 ∷ 87 ∷ 101 ∷ 98 ∷ 83 ∷ 111 ∷ 99 ∷ 107 ∷ 101 ∷ 116 ∷ 45 ∷ 80 ∷ 114 ∷ 111 ∷ 116
    ∷ 111 ∷ 99 ∷ 111 ∷ 108 ∷ 58 ∷ 32 ∷ 99 ∷ 104 ∷ 97 ∷ 116 ∷ 13 ∷ 10 ∷ []

abbrev pub ws_key_len : ℕ
ws_key_len = 24

abbrev pub starts_with : List ℕ → List ℕ → Bool
starts_with [] xs = true
starts_with (p ∷ ps) [] = false
starts_with (p ∷ ps) (x ∷ xs) = let rest = starts_with ps xs in if p == x then rest else false

-- `find(pattern)`: the first index of the pattern; `none` is `npos`.
unfoldable pub find : List ℕ → List ℕ → Option ℕ
find pattern [] = if starts_with pattern [] then some 0 else none
find pattern (x ∷ xs) =
    let rest = find pattern xs in
    if starts_with pattern (x ∷ xs) then some 0 else Option.map suc rest

-- The text in memory up to its first zero byte.
unfoldable pub c_string : List ℕ → Option (List ℕ)
c_string [] = none
c_string (b ∷ bs) = let rest = c_string bs in if b == 0 then some [] else Option.map (b ∷◌) rest

abbrev pub is_found : Option ℕ → Bool
is_found none = false
is_found (some n) = true

-- The answer to a client, with the key that it has to recognise.
abbrev pub response : Bool → List ℕ → List ℕ
response is_protocol final_str =
    first_lines
    ++ (accept_identifier
        ++ (final_str
            ++ (end_of_line ++ ((if is_protocol then protocol_line else []) ++ end_of_line))))

module _ {S : Type 0} (read : S → ℕ → ReadResult × S) where
  -- The end of `read_http_packet`, from the packet's text on.
  abbrev pub check_packet : ℕ → List ℕ → WebSocket S → Option (ℤ × List ℕ × WebSocket S)
  check_packet nb_bytes_rcvd http_packet w =
      if is_found (find end_of_header http_packet)
      then some (pos nb_bytes_rcvd, http_packet, w)
      else some (minus_one, http_packet, w)

  -- `read_http_packet` behind the call of `read`. The bytes stand at the start of the buffer, and
  -- `read_str_len` stays 0.
  abbrev pub on_packet : ReadResult × S → WebSocket S → Option (ℤ × List ℕ × WebSocket S)
  on_packet (failed, s) w = some (minus_one, [], record w { socket = s })
  on_packet (received [], s) w =
      some (minus_one, [], record w { socket = s; connection_closed = true })
  on_packet (received (b ∷ bytes), s) w =
      let text = (b ∷ bytes) ++ drop (length (b ∷ bytes)) w.read_str in
      if length (b ∷ bytes) == kserver_read_str_len
      then some (minus_one, [], record w { socket = s; read_str = text })
      else (c_string text >>= λ http_packet.
          check_packet (length (b ∷ bytes)) http_packet (record w { socket = s; read_str = text }))

  -- `read_http_packet()`, with the packet.
  unfoldable pub read_http_packet : WebSocket S → Option (ℤ × List ℕ × WebSocket S)
  read_http_packet w = on_packet (read w.socket websock_read_str_len) (reset_read_buff w)

  module _ (write : S → List ℕ → ℤ × S) (sha1 base64_encode : List ℕ → List ℕ) where
    -- `send_request(oss.str())` on the connection that the packet came from.
    abbrev pub answer : List ℕ → WebSocket S → Option (ℤ × WebSocket S)
    answer request w =
        send_request write request
          (record { socket = w.socket; connection_closed = w.connection_closed })
        >>= λ (r, c).
            some (r, record w { socket = c.socket; connection_closed = c.connection_closed })

    -- `authenticate` behind `find(WSKeyIdentifier)`.
    abbrev pub answer_key : Option ℕ → List ℕ → WebSocket S → Option (ℤ × WebSocket S)
    answer_key none http_packet w = some (minus_one, w)
    answer_key (some at) http_packet w =
        if ltb (length http_packet) (at + length ws_key_identifier)
        then some (minus_one, w)
        else let key = take ws_key_len (drop (at + length ws_key_identifier) http_packet) in
          let final_str = base64_encode (sha1 (key ++ ws_magic)) in
          answer (response (is_found (find ws_protocol_identifier http_packet)) final_str) w

    -- `authenticate()`
    unfoldable pub authenticate : WebSocket S → Option (ℤ × WebSocket S)
    unfolding read_http_packet
    authenticate w = read_http_packet w >>= λ (nb_bytes_rcvd, http_packet, w').
        if is_neg nb_bytes_rcvd
        then some (minus_one, w')
        else answer_key (find ws_key_identifier http_packet) http_packet w'
