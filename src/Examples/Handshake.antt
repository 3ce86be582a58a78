-- ===== src/Examples/Handshake.antt =====
-- A handshake, with a socket that gives the request and takes a byte at a time.
use koheron_server.Base.{
  ℕ, ◌<◌, ◌≡◌, ◌≢◌, refl, some, List, [], ◌∷◌, ◌++◌, arith, ltb, ◌&&◌, length, take, replicate, All,
  ℤ, pos, Bool, true, false,
}
use koheron_server.Tcp.Receive.{ReadResult, received}
use koheron_server.Websocket.Receive.{WebSocket, kserver_read_str_len, websock_read_str_len}
use koheron_server.Websocket.Send.Wire.{Sent}
use koheron_server.Websocket.Handshake.{
  ws_key_identifier, ws_protocol_identifier, ws_magic, end_of_header, find, is_found, response,
  authenticate,
}
use koheron_server.Websocket.Handshake.Answer.{packet_of, authenticate-answers}
use koheron_server.Examples.Sockets.{accept_one, accept_one-Accepts}

-- "GET / HTTP/1.1"
abbrev first_line : List ℕ
first_line = 71 ∷ 69 ∷ 84 ∷ 32 ∷ 47 ∷ 32 ∷ 72 ∷ 84 ∷ 84 ∷ 80 ∷ 47 ∷ 49 ∷ 46 ∷ 49 ∷ 13 ∷ 10 ∷ []

-- The key of the example in RFC 6455.
abbrev client_key : List ℕ
client_key =
    100 ∷ 71 ∷ 104 ∷ 108 ∷ 73 ∷ 72 ∷ 78 ∷ 104 ∷ 98 ∷ 88 ∷ 66 ∷ 115 ∷ 90 ∷ 83 ∷ 66 ∷ 117 ∷ 98 ∷ 50
    ∷ 53 ∷ 106 ∷ 90 ∷ 81 ∷ 61 ∷ 61 ∷ []

-- The ends of the line and of the header.
abbrev last_lines : List ℕ
last_lines = 13 ∷ 10 ∷ 13 ∷ 10 ∷ []

abbrev request : List ℕ
request = packet_of first_line client_key last_lines

abbrev give_request : List ℕ → ℕ → ReadResult × List ℕ
give_request s n = (received request, s)

abbrev new_websocket : WebSocket (List ℕ)
new_websocket = record {
  socket = [];
  read_str = replicate websock_read_str_len 0;
  read_str_len = 0;
  header = record {
    header_size = 0;
    mask_offset = 0;
    payload_size = pos 0;
    fin = false;
    masked = false;
    opcode = 0;
  };
  connection_closed = false;
}

-- Functions in place of SHA-1 and base64.
abbrev digest : List ℕ → List ℕ
digest text = take 20 text

abbrev encoded : List ℕ → List ℕ
encoded bytes = bytes

abbrev all_positive : List ℕ → Bool
all_positive [] = true
all_positive (b ∷ bs) = ltb 0 b && all_positive bs

all_positive-All : (bs : List ℕ) → all_positive bs ≡ true → All (λ b. 0 < b) bs
all_positive-All [] h = tt
all_positive-All (b ∷ bs) h =
    let first : 0 < b = ground arith in
    let rest : all_positive bs ≡ true = ground arith in (first, all_positive-All bs rest)

ends : find end_of_header request ≡ some 59
unfolding find
ends = refl

first_key : find ws_key_identifier request ≡ some 16
unfolding find
first_key = refl

not_at_limit : length request ≢ kserver_read_str_len
not_at_limit e = absurd (omega arith)

authenticate-answers_example :
    (r : ℤ) × (w' : WebSocket (List ℕ)) × (authenticate give_request accept_one digest encoded
        new_websocket
      ≡ some (r, w'))
    × Sent []
        (response
          (is_found (find ws_protocol_identifier request))
          (encoded (digest (client_key ++ ws_magic))))
        w'.socket
        r
        w'.connection_closed
authenticate-answers_example =
    authenticate-answers give_request accept_one accept_one-Accepts digest encoded first_line
      client_key last_lines 59 [] new_websocket
      (record { zeros = refl; unread = refl; is_open = refl }) refl (all_positive-All request refl)
      (omega arith) not_at_limit ends first_key refl
