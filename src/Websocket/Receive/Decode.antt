-- ===== src/Websocket/Receive/Decode.antt =====
-- The rest of the reception: `decode_raw_stream`, `decode_raw_stream_cmd`, `receive_cmd`, `receive`
-- and `Session<WEBSOCK>::read_command`, lines 107 to 136 of core/kserver_session.cpp.
use Prim.Native.Nat.{bit_xor}
use koheron_server.Base.{
  ℕ, zero, suc, ◌+◌, ◌-◌, ◌%◌, ◌^◌, List, [], ◌∷◌, ◌++◌, ltb, leb, if◌then◌else◌, length, take,
  drop, ℤ, pos, negsuc, minus_one, is_neg, Bool, true, Option, none, some,
}
use koheron_server.Buffer.{Buffer, Command, header_size, decode_header}
use koheron_server.Tcp.Receive.{ReadResult, to_int}
use koheron_server.Tcp.Session.{fill}
use koheron_server.Websocket.Receive.{
  Outcome, done, overrun, ◌>>=◌, WebSocket, byte_at, rounds, read_stream,
}

-- `payload[i] ^ mask[i % 4]` for the bytes from index `i` on.
unfoldable pub unmask : List ℕ → ℕ → List ℕ → List ℕ
unmask mask i [] = []
unmask mask i (b ∷ bs) = bit_xor b (byte_at mask (i % 4)) ∷ unmask mask (suc i) bs

abbrev pub mask_of : {S : Type 0} → WebSocket S → List ℕ
mask_of w = drop w.header.mask_offset w.read_str

abbrev pub payload_of : {S : Type 0} → WebSocket S → List ℕ
payload_of w = drop (w.header.mask_offset + 4) w.read_str

-- A block written at the start of a buffer.
store_block : List ℕ → Buffer → Outcome Buffer
store_block bytes b =
    if leb (length bytes) (length b.bytes)
    then done (record b { bytes = fill b.bytes bytes })
    else overrun

-- `decode_raw_stream_cmd(cmd)`
unfoldable pub decode_raw_stream_cmd : {S : Type 0} → Command → WebSocket S → Outcome (ℤ × Command)
unfolding store_block
decode_raw_stream_cmd cmd w =
    if ltb w.read_str_len (w.header.header_size + 1)
    then done (minus_one, cmd)
    else (store_block (unmask (mask_of w) 0 (take header_size (payload_of w))) cmd.header_buffer
        >>= λ head.
            store_block
              (unmask (mask_of w) header_size (
                take (rounds w.header.payload_size - header_size)
                  (drop header_size (payload_of w))))
              cmd.payload
            >>= λ body. done (pos 0, record cmd { header_buffer = head; payload = body }))

-- `decode_raw_stream()`: the payload is unmasked in place.
unfoldable pub decode_raw_stream : {S : Type 0} → WebSocket S → ℤ × WebSocket S
decode_raw_stream w =
    let n = rounds w.header.payload_size in
    let offset = w.header.mask_offset + 4 in
    if ltb w.read_str_len (w.header.header_size + 1) then (minus_one, w) else (
      pos 0,
      record w {
        read_str =
            take offset w.read_str
            ++ (unmask (mask_of w) 0 (take n (payload_of w)) ++ drop n (payload_of w));
      },
    )

-- An int64_t returned as an int.
abbrev pub narrow : ℤ → ℤ
narrow (pos n) = to_int n
narrow (negsuc n) = to_int (2 ^ 64 - 1 - n)

-- The part of `receive_cmd` behind `read_stream`, which gave `err`.
unfoldable pub after_stream :
    {S : Type 0} → ℤ → Command → WebSocket S → Outcome (ℤ × Command × WebSocket S)
unfolding decode_raw_stream_cmd
after_stream (negsuc n) cmd w = done (minus_one, cmd, w)
after_stream (pos (suc n)) cmd w = done (pos 0, cmd, w)
after_stream (pos zero) cmd w = decode_raw_stream_cmd cmd w >>= λ (err, cmd').
    if is_neg err then done (minus_one, cmd', w) else done (narrow w.header.payload_size, cmd', w)

pub after_stream_in_place : {S : Type 0} → ℤ → WebSocket S → Outcome (ℤ × WebSocket S)
after_stream_in_place (negsuc n) w = done (minus_one, w)
after_stream_in_place (pos (suc n)) w = done (pos 0, w)
after_stream_in_place (pos zero) w =
    let (err, w') = decode_raw_stream w in
    if is_neg err then done (minus_one, w') else done (narrow w'.header.payload_size, w')

-- `header.payload_size < Command::HEADER_SIZE`
abbrev pub is_too_small : ℤ → Bool
is_too_small (pos n) = ltb n header_size
is_too_small (negsuc n) = true

abbrev pub or_overrun {ℓ} : {A : Type ℓ} → Option A → Outcome A
or_overrun none = overrun
or_overrun (some a) = done a

module _ {S : Type 0} (read : S → ℕ → ReadResult × S) where
  -- `receive_cmd(cmd)`
  unfoldable pub receive_cmd : ℕ → Command → WebSocket S → Outcome (ℤ × Command × WebSocket S)
  unfolding after_stream
  receive_cmd fuel cmd w =
      if w.connection_closed
      then done (pos 0, cmd, w)
      else (read_stream read fuel w >>= λ (err, w'). after_stream err cmd w')

  -- `receive()`
  pub receive : ℕ → WebSocket S → Outcome (ℤ × WebSocket S)
  receive fuel w =
      if w.connection_closed
      then done (pos 0, w)
      else (read_stream read fuel w >>= λ (err, w'). after_stream_in_place err w')

  -- `read_command`, for the session `id`.
  unfoldable pub read_command : ℕ → ℤ → Command → WebSocket S → Outcome (ℤ × Command × WebSocket S)
  unfolding receive_cmd
  read_command fuel id cmd w = receive_cmd fuel cmd w >>= λ (err, cmd', w').
      if is_neg err
      then done (minus_one, cmd', w')
      else if w'.connection_closed
      then done (pos 0, cmd', w')
      else if is_too_small w'.header.payload_size
      then done (minus_one, cmd', w')
      else (or_overrun (decode_header id cmd') >>= λ cmd''. done (pos header_size, cmd'', w'))
