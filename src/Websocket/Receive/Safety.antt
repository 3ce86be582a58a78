-- ===== src/Websocket/Receive/Safety.antt =====
-- The reception writes within its buffer and, where `read` reports no error, returns.
use koheron_server.Base.{
  ℕ, zero, suc, ◌+◌, ◌-◌, ◌%◌, ◌≤◌, ◌<◌, ◌≡◌, refl, ap, ◌∙◌, arith, leb, ◌==◌, if◌then◌else◌,
  length, drop, ℤ, pos, negsuc, minus_one, is_neg, true, false, length-append, length-drop,
  length-replicate, inl, inr, ◌⊎◌, replicate,
}
use koheron_server.Tcp.Receive.{ReadResult, Bounded}
use koheron_server.Websocket.Receive.{
  done, WebSocket, Header, read_n_bytes, reset_read_buff, check_opcode, read_size, read_header,
  after_header, read_stream, is_too_large, websock_read_str_len, rounds, sized, check_size,
  medium_size, big_size,
}
use koheron_server.Websocket.Receive.Loop.{
  Post, Post-bind, Post-if, NeverFails, Advanced, read_n_bytes-Post,
}

-- The buffer is whole, and `header` announces no payload above the limit.
pub record IsReady {S : Type 0} (w : WebSocket S) : Type 0 where
  pub capacity : length w.read_str ≡ websock_read_str_len
  pub limit : is_too_large w.header.payload_size ≡ false

-- After a header was read: an error, or at most 14 bytes read and a payload within the limit.
abbrev HeaderRead : {S : Type 0} → ℤ → WebSocket S → Type 0
HeaderRead r w =
    (length w.read_str ≡ websock_read_str_len)
    × ((is_neg r ≡ true) ⊎ ((w.read_str_len ≤ 14) × (is_too_large w.header.payload_size ≡ false)))

-- After a stream was read: an error, or the buffer is ready again.
abbrev pub StreamRead : {S : Type 0} → ℤ → WebSocket S → Type 0
StreamRead r w =
    (length w.read_str ≡ websock_read_str_len)
    × ((is_neg r ≡ true) ⊎ (is_too_large w.header.payload_size ≡ false))

rounds-le : (size : ℤ) → is_too_large size ≡ false → rounds size ≤ websock_read_str_len - 56
rounds-le (pos n) h = ground arith
rounds-le (negsuc n) h = omega arith

module _ {S : Type 0} (read : S → ℕ → ReadResult × S) (bounded : Bounded read) (Spin : Type 0)
    (fuel : ℕ) (ready : Spin ⊎ (NeverFails read × (websock_read_str_len ≤ fuel))) where
  enough : (n : ℕ) → n < websock_read_str_len → Spin ⊎ (NeverFails read × (n < fuel))
  enough n h = go ready
    where
      go :
          Spin ⊎ (NeverFails read × (websock_read_str_len ≤ fuel))
          → Spin ⊎ (NeverFails read × (n < fuel))
      go (inl spin) = inl spin
      go (inr (never, f)) = inr (never, omega arith)

  check_size-Post :
      (w : WebSocket S)
      → length w.read_str ≡ websock_read_str_len
      → w.read_str_len ≤ 14
      → Post Spin HeaderRead (check_size w)
  check_size-Post w h k =
      Post-if Spin HeaderRead (is_too_large w.header.payload_size) _ _ (λ large. (h, inl refl))
        (λ small. (h, inr (k, small)))

  -- The tests behind the read of an extended size.
  sized-Post :
      (err : ℤ) (header_size mask_offset : ℕ) (size : ℤ) (w : WebSocket S)
      → IsReady w
      → w.read_str_len ≤ 14
      → Post Spin HeaderRead (
          if is_neg err
          then done (minus_one, w)
          else if w.connection_closed
          then done (pos 0, w)
          else check_size (sized header_size mask_offset size w))
  sized-Post (negsuc n) header_size mask_offset size w r h = (r.capacity, inl refl)
  sized-Post (pos n) header_size mask_offset size w r h =
      Post-if Spin HeaderRead w.connection_closed _ _ (λ closed. (r.capacity, inr (h, r.limit)))
        (λ opened. check_size-Post (sized header_size mask_offset size w) r.capacity h)

  kept : (n : ℕ) (w w' : WebSocket S) → IsReady w → Advanced w n w' → IsReady w'
  kept n w w' r a = record {
    capacity = a.0 ∙ r.capacity;
    limit = ap (λ (h : Header). is_too_large h.payload_size) a.2 ∙ r.limit;
  }

  reads :
      (n : ℕ) (w : WebSocket S)
      → IsReady w
      → n < websock_read_str_len
      → w.read_str_len + n ≤ websock_read_str_len
      → Post Spin (λ _ w'. Advanced w n w') (read_n_bytes read fuel (pos n) w)
  reads n w r h k =
      read_n_bytes-Post read bounded Spin fuel (pos n) n w (enough n h) (omega arith)
        (omega (arith, r.capacity))

  read_size-Post :
      (stream_size : ℕ) (w : WebSocket S)
      → IsReady w
      → w.read_str_len ≤ 6
      → Post Spin HeaderRead (read_size read fuel stream_size w)
  unfolding read_size
  read_size-Post stream_size w r h =
      Post-if Spin HeaderRead (leb stream_size 125) _ _
        (λ small. check_size-Post (sized 6 2 (pos stream_size) w) r.capacity (omega arith))
        (λ other.
          Post-if Spin HeaderRead (stream_size == 126) _ _
            (λ medium.
              Post-bind Spin (λ _ w'. Advanced w 2 w') HeaderRead _ _
                (reads 2 w r (omega arith) (omega arith))
                (λ err w' a.
                  sized-Post err 8 4 (medium_size w'.read_str) w' (kept 2 w w' r a)
                    (omega (arith, a.1))))
            (λ big.
              Post-bind Spin (λ _ w'. Advanced w 8 w') HeaderRead _ _
                (reads 8 w r (omega arith) (omega arith))
                (λ err w' a.
                  sized-Post err 14 10 (big_size w'.read_str) w' (kept 8 w w' r a)
                    (omega (arith, a.1)))))

  -- The part of `read_header` behind its first read.
  opcode-Post :
      (w : WebSocket S) (b0 b1 : ℕ)
      → IsReady w
      → w.read_str_len ≤ 6
      → let old = w.header in
        let w₂ = record w {
          header = record old { fin = leb 128 b0; masked = leb 128 b1; opcode = b0 % 16 };
        } in
        Post Spin HeaderRead (
          if is_neg (check_opcode (b0 % 16))
          then done (minus_one, w₂)
          else if b0 % 16 == 8
          then done (pos 1, record w₂ { connection_closed = true })
          else read_size read fuel (b1 % 128) w₂)
  opcode-Post w b0 b1 r h =
      Post-if Spin HeaderRead (is_neg (check_opcode (b0 % 16))) _ _ (λ bad. (r.capacity, inl refl))
        (λ good.
          Post-if Spin HeaderRead (b0 % 16 == 8) _ _
            (λ close. (r.capacity, inr (omega arith, r.limit)))
            (λ more.
              read_size-Post (b1 % 128) _ (record { capacity = r.capacity; limit = r.limit }) h))

  read_header-Post :
      (w : WebSocket S)
      → IsReady w
      → w.read_str_len ≡ 0
      → Post Spin HeaderRead (read_header read fuel w)
  unfolding read_header
  read_header-Post w r h =
      Post-bind Spin (λ _ w'. Advanced w 6 w') HeaderRead _ _
        (reads 6 w r (omega arith) (omega arith))
        (λ err w' a.
          Post-if Spin HeaderRead (is_neg err) _ _ (λ bad. (a.0 ∙ r.capacity, inl refl))
            (λ good.
              Post-if Spin HeaderRead w'.connection_closed _ _
                (λ closed. (a.0 ∙ r.capacity, inr (omega (arith, a.1), (kept 6 w w' r a).limit)))
                (λ opened. opcode-Post w' _ _ (kept 6 w w' r a) (omega (arith, a.1)))))

  after_header-Post :
      (r : ℤ) (w : WebSocket S) → HeaderRead r w → Post Spin StreamRead (after_header read fuel r w)
  unfolding after_header
  after_header-Post (negsuc n) w h = (h.0, inl refl)
  after_header-Post (pos (suc n)) w (cap, inl e) = cc
  after_header-Post (pos (suc n)) w (cap, inr (short, small)) = (cap, inr small)
  after_header-Post (pos zero) w (cap, inl e) = cc
  after_header-Post (pos zero) w (cap, inr (short, small)) =
      Post-bind Spin (λ _ w'. Advanced w (rounds w.header.payload_size) w') StreamRead _ _
        (read_n_bytes-Post read bounded Spin fuel w.header.payload_size
          (rounds w.header.payload_size) w
          (enough _ (omega (arith, rounds-le w.header.payload_size small))) (omega arith)
          (omega (arith, rounds-le w.header.payload_size small)))
        (λ err w' a.
          let limit = ap (λ (h : Header). is_too_large h.payload_size) a.2 ∙ small in
          Post-if Spin StreamRead (is_neg err) _ _ (λ bad. (a.0 ∙ cap, inl refl))
            (λ good. (a.0 ∙ cap, inr limit)))

  read_stream-Post :
      (w : WebSocket S)
      → IsReady w
      → w.read_str_len ≤ websock_read_str_len
      → Post Spin StreamRead (read_stream read fuel w)
  unfolding read_stream
  read_stream-Post w r h =
      Post-bind Spin HeaderRead StreamRead _ _
        (read_header-Post (reset_read_buff w) (record { capacity = whole; limit = r.limit }) refl)
        (λ err w' a. after_header-Post err w' a)
    where
      whole : length (reset_read_buff w).read_str ≡ websock_read_str_len
      whole = omega (
        arith,
        r.capacity,
        length-append (replicate w.read_str_len 0) (drop w.read_str_len w.read_str),
        length-replicate {A = ℕ} w.read_str_len 0,
        length-drop w.read_str_len w.read_str,
      )

-- Reading a frame never writes past the buffer of WEBSOCK_READ_STR_LEN bytes, however `read` splits
-- or refuses the data: a run that ends leaves the buffer whole and returns an error, or leaves it
-- ready for the next frame with an announced payload within the limit. The buffer has to be ready,
-- and `read` to store no more than it is asked for.
pub read_stream_safe :
    {S : Type 0} (read : S → ℕ → ReadResult × S) (fuel : ℕ) (w : WebSocket S)
    → Bounded read
    → IsReady w
    → w.read_str_len ≤ websock_read_str_len
    → Post (Unit {0}) StreamRead (read_stream read fuel w)
read_stream_safe read fuel w bounded r h = read_stream-Post read bounded Unit fuel (inl tt) w r h

-- With a socket that reports no error and stores no more than it is asked for, and a ready buffer,
-- reading a frame also ends: WEBSOCK_READ_STR_LEN rounds are enough for each of its reads.
pub read_stream_total :
    {S : Type 0} (read : S → ℕ → ReadResult × S) (w : WebSocket S)
    → Bounded read
    → NeverFails read
    → IsReady w
    → w.read_str_len ≤ websock_read_str_len
    → Post ⊥ StreamRead (read_stream read websock_read_str_len w)
read_stream_total read w bounded never r h =
    read_stream-Post read bounded ⊥ websock_read_str_len (inr (never, omega arith)) w r h
