-- ===== src/Websocket/Receive/Limits.antt =====
-- Two behaviours of `read_n_bytes` at its limits.
use koheron_server.Base.{
  ℕ, zero, suc, ◌+◌, ◌-◌, ◌≡◌, ◌≢◌, refl, List, [], ◌∷◌, arith, ◌==◌, length, pos, minus_one, Bool,
  true, false,
}
use koheron_server.Tcp.Receive.{ReadResult, failed, received}
use koheron_server.Websocket.Receive.{
  done, spinning, WebSocket, on_read, read_loop, read_n_bytes, kserver_read_str_len,
  websock_read_str_len,
}
use koheron_server.Websocket.Receive.Loop.{store-done}

module _ {S : Type 0} (read : S → ℕ → ReadResult × S) where
  read_loop-spinning :
      (fuel : ℕ) (first : Bool) (n : ℕ) (w : WebSocket S)
      → ((s : S) (k : ℕ) → read s k ≡ (failed, s))
      → w.read_str_len ≢ kserver_read_str_len
      → read_loop read fuel first (suc n) w ≡ spinning
  unfolding read_loop
  read_loop-spinning zero first n w fails h = refl
  read_loop-spinning (suc fuel) first n w fails h =
      let other : w.read_str_len == kserver_read_str_len ≡ false = ground arith in
      rw (fails w.socket (suc n), on_read, other) (read_loop-spinning fuel false n w fails h)

  -- While every `read` reports an error, `read_n_bytes` for one byte or more calls it again and
  -- again: for no fuel does it return, unless just KSERVER_READ_STR_LEN bytes were read before.
  pub read_n_bytes_spins :
      (fuel n : ℕ) (w : WebSocket S)
      → ((s : S) (k : ℕ) → read s k ≡ (failed, s))
      → w.read_str_len ≢ kserver_read_str_len
      → read_n_bytes read fuel (pos (suc n)) w ≡ spinning
  unfolding read_n_bytes
  read_n_bytes_spins fuel n w fails h = read_loop-spinning fuel true n w fails h

  -- Bytes that arrive whole in a buffer of WEBSOCK_READ_STR_LEN bytes and end just at
  -- KSERVER_READ_STR_LEN, an eighth of it, are stored and then refused with -1.
  pub read_n_bytes_refused :
      (fuel n : ℕ) (bytes : List ℕ) (s : S) (w : WebSocket S)
      → read w.socket (suc n) ≡ (received bytes, s)
      → length bytes ≡ suc n
      → w.read_str_len + suc n ≡ kserver_read_str_len
      → length w.read_str ≡ websock_read_str_len
      → (w' : WebSocket S) × (read_n_bytes read (suc (suc fuel)) (pos (suc n)) w
          ≡ done (minus_one, w'))
        × (w'.read_str_len ≡ kserver_read_str_len)
  unfolding read_n_bytes
  read_n_bytes_refused fuel n [] s w e l h c = absurd (omega arith)
  read_n_bytes_refused fuel n (b ∷ bs) s w e l h c =
      let (w', stored, len, count, head, open_still) = store-done (b ∷ bs) s w (omega arith) in
      let none_left : suc n - length (b ∷ bs) ≡ zero = omega arith in
      let full : w'.read_str_len ≡ kserver_read_str_len = omega arith in
      (w', rw (e, on_read, stored, none_left, full) refl, full)
