-- ===== src/Websocket/Receive/Streams.antt =====
-- `read_stream` on a client's frame.
use koheron_server.Base.{
  ℕ, ◌+◌, ◌-◌, ◌≤◌, ◌<◌, ◌≡◌, ◌≢◌, refl, ap, ◌∙◌, List, [], ◌∷◌, ◌++◌, arith, if◌then◌else◌, length,
  drop, replicate, ℤ, pos, minus_one, is_neg, false, length-append, length-drop, length-replicate,
}
use koheron_server.Tcp.Receive.{ReadResult, Delivers}
use koheron_server.Websocket.Receive.{
  Outcome, done, ◌>>=◌, Header, WebSocket, read_n_bytes, read_header, after_header, read_stream,
  reset_read_buff, kserver_read_str_len, websock_read_str_len,
}
use koheron_server.Websocket.Receive.Delivery.{Holds, read_n_bytes-delivers}
use koheron_server.Websocket.Receive.Client.{frame_start}
use koheron_server.Websocket.Receive.Frames.{read_header-frame}

module _ {S : Type 0} (read : S → ℕ → ReadResult × S) (d : Delivers read) (fuel : ℕ)
    (enough : 8 < fuel) where
  stream_read :
      (n : ℕ) (w w₁ w₂ : WebSocket S)
      → read_header read fuel (reset_read_buff w) ≡ done (pos 0, w₁)
      → w₁.header.payload_size ≡ pos n
      → read_n_bytes read fuel (pos n) w₁ ≡ done (pos 0, w₂)
      → read_stream read fuel w ≡ done (pos 0, w₂)
  unfolding read_stream after_header
  stream_read n w w₁ w₂ head size body =
      let finish =
        λ (r : ℤ × WebSocket S). if is_neg r.0 then done (minus_one, r.1) else done (r.0, r.1) in
      ap (λ (o : Outcome (ℤ × WebSocket S)). o >>= λ (err, v). after_header read fuel err v) head
      ∙ ap (λ (k : ℤ). read_n_bytes read fuel k w₁ >>= finish) size
      ∙ ap (λ (o : Outcome (ℤ × WebSocket S)). o >>= finish) body

  -- From a socket that delivers a client's frame, `read_stream` gets the whole frame, with the size
  -- and the offsets of its payload, if the frame is within the limits and does not end at
  -- KSERVER_READ_STR_LEN bytes.
  pub read_stream-frame :
      (m₀ m₁ m₂ m₃ : ℕ) (body rest : List ℕ) (w : WebSocket S)
      → length w.read_str ≡ websock_read_str_len
      → w.read_str_len ≤ websock_read_str_len
      → w.connection_closed ≡ false
      → length body ≤ websock_read_str_len - 56
      → length body < fuel
      → length (frame_start (length body)) + 4 + length body ≢ kserver_read_str_len
      → d.content w.socket ≡ frame_start (length body) ++ (m₀ ∷ m₁ ∷ m₂ ∷ m₃ ∷ (body ++ rest))
      → (w' : WebSocket S) × (tail : List ℕ) × (read_stream read fuel w ≡ done (pos 0, w'))
        × Holds w' ((frame_start (length body) ++ (m₀ ∷ m₁ ∷ m₂ ∷ m₃ ∷ [])) ++ body) tail
        × (d.content w'.socket ≡ rest)
        × (w'.connection_closed ≡ false)
        × (w'.header.header_size ≡ length (frame_start (length body)) + 4)
        × (w'.header.mask_offset ≡ length (frame_start (length body)))
        × (w'.header.payload_size ≡ pos (length body))
  read_stream-frame m₀ m₁ m₂ m₃ body rest w full len closed limit f o c =
      let n = length body in
      let head = frame_start n ++ (m₀ ∷ m₁ ∷ m₂ ∷ m₃ ∷ []) in
      let zeros : List ℕ = replicate w.read_str_len 0 in
      let old = drop w.read_str_len w.read_str in
      let all : length (zeros ++ old) ≡ websock_read_str_len = omega (
        arith,
        length-append zeros old,
        length-replicate {A = ℕ} w.read_str_len 0,
        length-drop w.read_str_len w.read_str,
      ) in
      let clear : Holds (reset_read_buff w) [] (zeros ++ old) = record {
        text = refl;
        size = refl;
      } in
      let (w₁, tail, run, (h₁, c₁, open₁, size₁, offset₁, payload₁), room) =
        read_header-frame read d fuel enough n m₀ m₁ m₂ m₃ (body ++ rest) (zeros ++ old)
          (reset_read_buff w) clear (omega arith) closed limit c in
      let head_size : length head ≡ length (frame_start n) + 4 =
        length-append (frame_start n) (m₀ ∷ m₁ ∷ m₂ ∷ m₃ ∷ []) in
      let (w₂, run₂, (h₂, c₂, header₂, open₂)) =
        read_n_bytes-delivers read d fuel body rest head tail w₁ h₁ c₁ f
          (omega (arith, start_short n)) (λ at_end. o (omega (arith, at_end))) in
      (
        w₂,
        drop n tail,
        stream_read n w w₁ w₂ run payload₁ run₂,
        h₂,
        c₂,
        open₂ ∙ open₁,
        ap (λ (h : Header). h.header_size) header₂ ∙ (size₁ ∙ head_size),
        ap (λ (h : Header). h.mask_offset) header₂ ∙ omega (arith, offset₁, head_size),
        ap (λ (h : Header). h.payload_size) header₂ ∙ payload₁,
      )
    where
      start_short : (n : ℕ) → length (frame_start n) ≤ 10
      start_short n = ground arith
