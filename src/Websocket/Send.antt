-- ===== src/Websocket/Send.antt =====
-- Lines 131 to 168 and 396 to 433 of core/websocket.cpp and `send` of core/websocket.hpp: writing
-- frames. The socket is a state with a function for the system call `write`.
pub mod Wire
use koheron_server.Base.{
  ℕ, zero, suc, ◌+◌, ◌-◌, ◌*◌, ◌/◌, ◌%◌, ◌^◌, ◌≤◌, ◌<◌, ◌≡◌, refl, List, [], ◌∷◌, ◌++◌, arith, ltb,
  leb, if◌then◌else◌, length, take, drop, ℤ, pos, negsuc, minus_one, is_neg, Bool, true, false,
  Option, none, some,
}

-- `set_send_header(bits, data_len, format)`: the bytes at the start of `bits`, as many as the
-- `mask_offset` that is returned.
unfoldable pub set_send_header : ℕ → ℕ → List ℕ
set_send_header data_len format =
    if leb data_len 125
    then format ∷ data_len ∷ []
    else if leb data_len 0xffff
    then format ∷ 126 ∷ data_len / 2 ^ 8 % 256 ∷ data_len % 256 ∷ []
    else (format
        ∷ 127
        ∷ data_len / 2 ^ 56 % 256
        ∷ data_len / 2 ^ 48 % 256
        ∷ data_len / 2 ^ 40 % 256
        ∷ data_len / 2 ^ 32 % 256
        ∷ data_len / 2 ^ 24 % 256
        ∷ data_len / 2 ^ 16 % 256
        ∷ data_len / 2 ^ 8 % 256
        ∷ data_len % 256
        ∷ [])

-- (1 << 7) + BINARY_FRAME and (1 << 7) + CONNECTION_CLOSE
abbrev pub binary_format : ℕ
binary_format = 130

abbrev pub close_format : ℕ
close_format = 136

-- WEBSOCK_SEND_BUF_LEN
abbrev pub websock_send_buf_len : ℕ
websock_send_buf_len = 131072

-- A connection: the socket and `connection_closed`.
pub record Connection (S : Type 0) : Type 0 where
  pub socket : S
  pub connection_closed : Bool

-- The loop's condition and body behind a call of `write`.
abbrev on_write : {S : Type 0} → ℤ × S → (ℕ → S → Option (ℤ × S)) → Option (ℤ × S)
on_write (negsuc n, s) next = some (negsuc n, s)
on_write (pos zero, s) next = some (pos 0, s)
on_write (pos (suc n), s) next = next (suc n) s

module _ {S : Type 0} (write : S → List ℕ → ℤ × S) where
  -- The loop of `send_request`: `bits` are the bytes that remain and `bytes_send` what the last
  -- `write` gave.
  write_loop : ℕ → ℤ → List ℕ → S → Option (ℤ × S)
  write_loop zero bytes_send bits s = none
  write_loop (suc fuel) bytes_send [] s = some (bytes_send, s)
  write_loop (suc fuel) bytes_send (b ∷ bits) s =
      on_write (write s (b ∷ bits)) (λ n. write_loop fuel (pos n) (drop n (b ∷ bits)))

  -- The end of `send_request`: the loop gave `bytes_send`.
  abbrev sent : Connection S → ℤ × S → ℤ × Connection S
  sent c (negsuc n, s) = (minus_one, record { socket = s; connection_closed = true })
  sent c (pos n, s) = (pos n, record c { socket = s })

  -- `send_request(bits, len)`; a round for each byte is enough.
  unfoldable pub send_request : List ℕ → Connection S → Option (ℤ × Connection S)
  unfolding write_loop
  send_request bits c =
      if c.connection_closed
      then some (pos 0, c)
      else elim (write_loop (suc (length bits)) (pos 0) bits c.socket) [
        | none ↦ none
        | some (r, s) ↦ some (sent c (r, s))
      ]

  -- `send(data, len)`, given the bytes of the data.
  unfoldable pub send : List ℕ → Connection S → Option (ℤ × Connection S)
  send data_bytes c =
      if c.connection_closed
      then some (pos 0, c)
      else if ltb websock_send_buf_len (length data_bytes + 10)
      then some (minus_one, c)
      else send_request (set_send_header (length data_bytes) binary_format ++ data_bytes) c

  -- `exit()`
  unfoldable pub exit : Connection S → Option (ℤ × Connection S)
  exit c = send_request (set_send_header 0 close_format) c
