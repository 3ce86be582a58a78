-- ===== src/Websocket/Handshake/Answer.antt =====
-- What the server answers to a client's request for a WebSocket.
use koheron_server.Base.{
  ℕ, zero, suc, ◌+◌, ◌-◌, ◌<◌, ◌≡◌, ◌≢◌, refl, ap, ◌∙◌, Option, some, List, [], ◌∷◌, ◌++◌, arith,
  ltb, ◌==◌, if◌then◌else◌, ◌>>=◌, length, take, drop, replicate, All, ℤ, pos, minus_one, Bool,
  true, false, length-append, drop-prefix_two, take-prefix,
}
use koheron_server.Tcp.Receive.{ReadResult, received}
use koheron_server.Websocket.Receive.{
  WebSocket, reset_read_buff, kserver_read_str_len, websock_read_str_len,
}
use koheron_server.Websocket.Send.Wire.{Accepts, Sent, send_request-Sent}
use koheron_server.Websocket.Handshake.{
  ws_key_identifier, ws_protocol_identifier, ws_magic, ws_key_len, end_of_header, find, c_string,
  is_found, response, check_packet, on_packet, read_http_packet, authenticate,
}

c_string-replicate :
    (text : List ℕ) (k : ℕ)
    → All (λ b. 0 < b) text
    → 0 < k
    → c_string (text ++ replicate k 0) ≡ some text
unfolding c_string
c_string-replicate [] zero h p = absurd (omega arith)
c_string-replicate [] (suc k) h p = refl
c_string-replicate (b ∷ text) k h p =
    let nonzero : (b == 0) ≡ false = let low = h.0 in ground arith in
    rw (nonzero, c_string-replicate text k h.1 p) refl

drop-replicate : (n k : ℕ) (b : ℕ) → drop n (replicate k b) ≡ replicate (k - n) b
drop-replicate zero k b = let e : k - 0 ≡ k = omega arith in rw e refl
drop-replicate (suc n) zero b = let e : 0 - suc n ≡ 0 = omega arith in rw e refl
drop-replicate (suc n) (suc k) b =
    let e : suc k - suc n ≡ k - n = omega arith in rw e (drop-replicate n k b)

-- A request with the key behind the first line that names it.
abbrev pub packet_of : List ℕ → List ℕ → List ℕ → List ℕ
packet_of before key behind = before ++ (ws_key_identifier ++ (key ++ behind))

key_in_packet :
    (before key behind : List ℕ)
    → length key ≡ ws_key_len
    → take ws_key_len
        (drop (length before + length ws_key_identifier) (packet_of before key behind))
      ≡ key
key_in_packet before key behind e =
    rw
      (drop-prefix_two (length before) (length ws_key_identifier) before ws_key_identifier
        (key ++ behind) refl refl)
      (take-prefix ws_key_len key behind e)

-- A connection's buffer that nothing was read to.
pub record IsFresh {S : Type 0} (w : WebSocket S) : Type 0 where
  pub zeros : w.read_str ≡ replicate websock_read_str_len 0
  pub unread : w.read_str_len ≡ 0
  pub is_open : w.connection_closed ≡ false

module _ {S : Type 0} (read : S → ℕ → ReadResult × S) where
  on_packet-text :
      (bytes : List ℕ) (s : S) (w : WebSocket S)
      → 0 < length bytes
      → length bytes ≢ kserver_read_str_len
      → on_packet read (received bytes, s) w ≡ (
          c_string (bytes ++ drop (length bytes) w.read_str) >>= λ http_packet.
          check_packet read
            (length bytes)
            http_packet
            (record w { socket = s; read_str = bytes ++ drop (length bytes) w.read_str }))
  on_packet-text [] s w h o = absurd (omega arith)
  on_packet-text (b ∷ bytes) s w h o =
      let other : (length (b ∷ bytes) == kserver_read_str_len) ≡ false = ground (arith, o) in
      rw other refl

  -- The connection with a packet in its buffer.
  abbrev holding : List ℕ → S → WebSocket S → WebSocket S
  holding packet s w = record (reset_read_buff w) {
    socket = s;
    read_str = packet ++ drop (length packet) (reset_read_buff w).read_str;
  }

  packet_read :
      (packet : List ℕ) (e : ℕ) (s : S) (w : WebSocket S)
      → IsFresh w
      → read w.socket websock_read_str_len ≡ (received packet, s)
      → All (λ b. 0 < b) packet
      → 0 < length packet
      → length packet < websock_read_str_len
      → length packet ≢ kserver_read_str_len
      → find end_of_header packet ≡ some e
      → read_http_packet read w ≡ some (pos (length packet), packet, holding packet s w)
  unfolding read_http_packet
  packet_read packet e s w fresh got text some_byte short o ends =
      let behind : drop (length packet) (reset_read_buff w).read_str
          ≡ replicate (websock_read_str_len - length packet) 0 =
        ap (λ (n : ℕ). drop (length packet) (replicate n 0 ++ drop n w.read_str)) fresh.unread
        ∙ ap (λ (str : List ℕ). drop (length packet) str) fresh.zeros
        ∙ drop-replicate (length packet) websock_read_str_len 0 in
      let string : c_string (packet ++ drop (length packet) (reset_read_buff w).read_str)
          ≡ some packet =
        ap (λ (str : List ℕ). c_string (packet ++ str)) behind
        ∙ c_string-replicate packet (websock_read_str_len - length packet) text (omega arith) in
      let found : is_found (find end_of_header packet) ≡ true = rw ends refl in
      let next = λ (p : List ℕ). check_packet read (length packet) p (holding packet s w) in
      ap (λ (r : ReadResult × S). on_packet read r (reset_read_buff w)) got
      ∙ on_packet-text packet s (reset_read_buff w) some_byte o
      ∙ ap (λ (t : Option (List ℕ)). t >>= next) string
      ∙ ap
          (λ (b : Bool).
            if b
            then some (pos (length packet), packet, holding packet s w)
            else some (minus_one, packet, holding packet s w))
          found

  module _ (write : S → List ℕ → ℤ × S) (a : Accepts write)
      (sha1 base64_encode : List ℕ → List ℕ) where
    response-length :
        (is_protocol : Bool) (final_str : List ℕ) → 0 < length (response is_protocol final_str)
    response-length is_protocol final_str = omega arith

    -- If one `read` on a new connection gives a whole request without a zero byte, with the end of
    -- its header and a key of 24 bytes behind the first "Sec-WebSocket-Key: ", and the request is
    -- shorter than the buffer and does not have KSERVER_READ_STR_LEN bytes, `authenticate` sends
    -- the answer with the base64 of the SHA-1 of the key and the protocol's constant, and with the
    -- protocol "chat" just if the request names a protocol; how it ends is told as for any sending.
    pub authenticate-answers :
        (before key behind : List ℕ) (e : ℕ) (s : S) (w : WebSocket S)
        → IsFresh w
        → read w.socket websock_read_str_len ≡ (received (packet_of before key behind), s)
        → All (λ b. 0 < b) (packet_of before key behind)
        → length (packet_of before key behind) < websock_read_str_len
        → length (packet_of before key behind) ≢ kserver_read_str_len
        → find end_of_header (packet_of before key behind) ≡ some e
        → find ws_key_identifier (packet_of before key behind) ≡ some (length before)
        → length key ≡ ws_key_len
        → (r : ℤ) × (w' : WebSocket S) × (authenticate read write sha1 base64_encode w
            ≡ some (r, w'))
          × Sent
              (a.written s)
              (response
                (is_found (find ws_protocol_identifier (packet_of before key behind)))
                (base64_encode (sha1 (key ++ ws_magic))))
              (a.written w'.socket)
              r
              w'.connection_closed
    unfolding authenticate
    authenticate-answers before key behind e s w fresh got text short o ends first size =
        let packet = packet_of before key behind in
        let long = length-append before (ws_key_identifier ++ (key ++ behind)) in
        let w₁ = holding packet s w in
        let run = packet_read packet e s w fresh got text (omega (arith, long)) short o ends in
        let within : ltb (length packet) (length before + length ws_key_identifier) ≡ false =
          ground (arith, long) in
        let is_protocol = is_found (find ws_protocol_identifier packet) in
        let request = response is_protocol (base64_encode (sha1 (key ++ ws_magic))) in
        let (r, c, sending, result) =
          send_request-Sent write a request
            (record { socket = s; connection_closed = w.connection_closed }) fresh.is_open
            (response-length is_protocol (base64_encode (sha1 (key ++ ws_magic)))) in
        (
          r,
          record w₁ { socket = c.socket; connection_closed = c.connection_closed },
          rw (run, first, within, key_in_packet before key behind size, sending) refl,
          result,
        )
