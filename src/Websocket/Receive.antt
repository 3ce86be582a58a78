-- ===== src/Websocket/Receive.antt =====
-- Lines 165 to 394 and 435 to 439 of core/websocket.cpp: reading frames. The socket is a state with
-- a function for the system call `read`; messages to the log are left out. The masked and final
-- bits are stored and, as in the code, not looked at.
pub mod Loop
pub mod Safety
pub mod Delivery
pub mod Client
pub mod Frames
pub mod Streams
pub mod Decode
pub mod Masks
pub mod Commands
pub mod Limits
use Prim.Native.Nat.{bit_xor}
use koheron_server.Base.{
  ℕ, zero, suc, ◌+◌, ◌-◌, ◌*◌, ◌/◌, ◌%◌, ◌^◌, ◌≤◌, ◌<◌, ◌≡◌, refl, List, [], ◌∷◌, ◌++◌, arith, ltb,
  leb, ◌==◌, if◌then◌else◌, length, take, drop, ℤ, pos, negsuc, minus_one, is_neg, of_bits, Bool,
  true, false, replicate,
}
use koheron_server.Tcp.Receive.{ReadResult, failed, received}

-- What a run of the code gives: a result, a write past the end of a buffer, or no result within the
-- fuel.
pub data Outcome {ℓ} (A : Type ℓ) : Type ℓ where
  done : A → Outcome A
  overrun : Outcome A
  spinning : Outcome A

infixl 5 ◌>>=◌
abbrev pub ◌>>=◌ {ℓ κ} : {A : Type ℓ} {B : Type κ} → Outcome A → (A → Outcome B) → Outcome B
done a >>= f = f a
overrun >>= f = overrun
spinning >>= f = spinning

-- WEBSOCK_READ_STR_LEN and KSERVER_READ_STR_LEN.
abbrev pub websock_read_str_len : ℕ
websock_read_str_len = 131072

abbrev pub kserver_read_str_len : ℕ
kserver_read_str_len = 16384

pub record Header : Type 0 where
  pub header_size : ℕ
  pub mask_offset : ℕ
  pub payload_size : ℤ
  pub fin : Bool
  pub masked : Bool
  pub opcode : ℕ

-- `read_str` is the whole buffer.
pub record WebSocket (S : Type 0) : Type 0 where
  pub socket : S
  pub read_str : List ℕ
  pub read_str_len : ℕ
  pub header : Header
  pub connection_closed : Bool

-- `read_str[i]`
abbrev pub byte_at : List ℕ → ℕ → ℕ
byte_at [] i = 0
byte_at (b ∷ bs) zero = b
byte_at (b ∷ bs) (suc i) = byte_at bs i

-- The rounds of a loop up to an int64_t.
abbrev pub rounds : ℤ → ℕ
rounds (pos n) = n
rounds (negsuc n) = 0

-- The bytes that `read` stores at `&read_str[read_str_len]`, and the counter.
abbrev pub store : {S : Type 0} → List ℕ → S → WebSocket S → Outcome (WebSocket S)
store bytes s w =
    if leb (w.read_str_len + length bytes) (length w.read_str)
    then done (record w {
      socket = s;
      read_str =
          take w.read_str_len w.read_str
          ++ (bytes ++ drop (w.read_str_len + length bytes) w.read_str);
      read_str_len = w.read_str_len + length bytes;
    })
    else overrun

-- `reset_read_buff`
abbrev pub reset_read_buff : {S : Type 0} → WebSocket S → WebSocket S
reset_read_buff w = record w {
  read_str = replicate w.read_str_len 0 ++ drop w.read_str_len w.read_str;
  read_str_len = 0;
}

-- `check_opcode`
unfoldable pub check_opcode : ℕ → ℤ
check_opcode opcode =
    if opcode == 0
    then minus_one
    else if opcode == 1
    then pos 0
    else if opcode == 2
    then pos 0
    else if opcode == 8
    then pos 1
    else minus_one

-- The payload size that the header announces: in the second byte, in the next two or in the next
-- eight, as a big-endian number; the last is taken as an int64_t.
abbrev pub medium_size : List ℕ → ℤ
medium_size str = pos (byte_at str 2 * 2 ^ 8 + byte_at str 3)

abbrev pub big_size : List ℕ → ℤ
big_size str = of_bits (2 ^ 63) (
    byte_at str 2 * 2 ^ 56
    + byte_at str 3 * 2 ^ 48
    + byte_at str 4 * 2 ^ 40
    + byte_at str 5 * 2 ^ 32
    + byte_at str 6 * 2 ^ 24
    + byte_at str 7 * 2 ^ 16
    + byte_at str 8 * 2 ^ 8
    + byte_at str 9)

abbrev sized : {S : Type 0} → ℕ → ℕ → ℤ → WebSocket S → WebSocket S
sized header_size mask_offset payload_size w = record w {
  header = record h {
    header_size = header_size;
    mask_offset = mask_offset;
    payload_size = payload_size;
  };
}
  where
    open w use {header as h}

-- `header.payload_size > WEBSOCK_READ_STR_LEN - 56`, a comparison of int64_t values.
abbrev pub is_too_large : ℤ → Bool
is_too_large (pos n) = ltb (websock_read_str_len - 56) n
is_too_large (negsuc n) = false

-- The last check of `read_header`.
abbrev check_size : {S : Type 0} → WebSocket S → Outcome (ℤ × WebSocket S)
check_size w = if is_too_large w.header.payload_size then done (minus_one, w) else done (pos 0, w)

module _ {S : Type 0} (read : S → ℕ → ReadResult × S) where
  -- What follows a `read`: the outer loop of the code tries again after an error, unless the
  -- counter stands at KSERVER_READ_STR_LEN; the same test follows the last byte.
  abbrev pub on_read :
      ReadResult × S
      → ℕ
      → WebSocket S
      → (ℕ → WebSocket S → Outcome (ℤ × WebSocket S))
      → Outcome (ℤ × WebSocket S)
  on_read (failed, s) remaining w again =
      if w.read_str_len == kserver_read_str_len
      then done (minus_one, record w { socket = s })
      else again remaining (record w { socket = s })
  on_read (received [], s) remaining w again =
      done (pos 1, record w { socket = s; connection_closed = true })
  on_read (received (b ∷ bytes), s) remaining w again =
      store (b ∷ bytes) s w >>= λ w'. again (remaining - length (b ∷ bytes)) w'

  -- `read_n_bytes(bytes, expected)` for `bytes` equal to `expected`, as in every call, so that
  -- `remaining` stays equal to `expected`. `first` tells the test at the loop's start, before any
  -- read, from that after a round.
  pub read_loop : ℕ → Bool → ℕ → WebSocket S → Outcome (ℤ × WebSocket S)
  read_loop zero first remaining w = spinning
  read_loop (suc fuel) first zero w =
      if first
      then done (pos 0, w)
      else if w.read_str_len == kserver_read_str_len
      then done (minus_one, w)
      else done (pos 0, w)
  read_loop (suc fuel) first (suc n) w =
      on_read (read w.socket (suc n)) (suc n) w (read_loop fuel false)

  -- A negative number of bytes is read at once.
  unfoldable pub read_n_bytes : ℕ → ℤ → WebSocket S → Outcome (ℤ × WebSocket S)
  unfolding read_loop
  read_n_bytes fuel (pos n) w = read_loop fuel true n w
  read_n_bytes fuel (negsuc n) w = done (pos 0, w)

  -- The sizes of `read_header`, by the seven bits of the second byte.
  pub read_size : ℕ → ℕ → WebSocket S → Outcome (ℤ × WebSocket S)
  read_size fuel stream_size w =
      if leb stream_size 125
      then check_size (sized 6 2 (pos stream_size) w)
      else if stream_size == 126
      then (read_n_bytes fuel (pos 2) w >>= λ (err, w').
          if is_neg err
          then done (minus_one, w')
          else if w'.connection_closed
          then done (pos 0, w')
          else check_size (sized 8 4 (medium_size w'.read_str) w'))
      else (read_n_bytes fuel (pos 8) w >>= λ (err, w').
          if is_neg err
          then done (minus_one, w')
          else if w'.connection_closed
          then done (pos 0, w')
          else check_size (sized 14 10 (big_size w'.read_str) w'))

  -- `read_header`
  pub read_header : ℕ → WebSocket S → Outcome (ℤ × WebSocket S)
  read_header fuel w = read_n_bytes fuel (pos 6) w >>= λ (err, w₁).
      if is_neg err
      then done (minus_one, w₁)
      else if w₁.connection_closed
      then done (pos 0, w₁)
      else let b0 = byte_at w₁.read_str 0 in
        let b1 = byte_at w₁.read_str 1 in
        let old = w₁.header in
        let w₂ = record w₁ {
          header = record old { fin = leb 128 b0; masked = leb 128 b1; opcode = b0 % 16 };
        } in
        let opcode_err = check_opcode (b0 % 16) in
        if is_neg opcode_err
        then done (minus_one, w₂)
        else if b0 % 16 == 8
        then done (pos 1, record w₂ { connection_closed = true })
        else read_size fuel (b1 % 128) w₂

  -- The part of `read_stream` behind `read_header`, which gave `err`.
  pub after_header : ℕ → ℤ → WebSocket S → Outcome (ℤ × WebSocket S)
  after_header fuel (negsuc n) w = done (minus_one, w)
  after_header fuel (pos (suc n)) w = done (pos 1, w)
  after_header fuel (pos zero) w = read_n_bytes fuel w.header.payload_size w >>= λ (err, w').
      if is_neg err then done (minus_one, w') else done (err, w')

  -- `read_stream`
  pub read_stream : ℕ → WebSocket S → Outcome (ℤ × WebSocket S)
  read_stream fuel w =
      read_header fuel (reset_read_buff w) >>= λ (err, w₁). after_header fuel err w₁
