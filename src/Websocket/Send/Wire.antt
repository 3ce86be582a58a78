-- ===== src/Websocket/Send/Wire.antt =====
-- What reaches the peer: the announced length and the bytes written.
use koheron_server.Base.{
  ℕ, zero, suc, ◌+◌, ◌%◌, ◌^◌, ◌≤◌, ◌<◌, ◌≡◌, refl, sym, ap, ◌∙◌, List, [], ◌∷◌, ◌++◌, arith, leb,
  ◌==◌, if◌then◌else◌, length, take, drop, ℤ, pos, negsuc, minus_one, is_neg, Bool, true, false,
  some, append_assoc, append-nil, take-append-drop, length-drop, inl, inr, ◌⊎◌,
}
use koheron_server.Websocket.Receive.{byte_at, medium_size, big_size}
use koheron_server.Websocket.Send.{set_send_header, Connection, write_loop, sent, send_request}

-- The payload size and the offset of what follows, read from a header as `read_header` does.
abbrev pub announced : List ℕ → ℤ × ℕ
announced bits =
    let stream_size = byte_at bits 1 % 128 in
    if leb stream_size 125
    then (pos stream_size, 2)
    else if stream_size == 126
    then (medium_size bits, 4)
    else (big_size bits, 10)

-- The header that is sent announces the length of the data and its own length, by the rules by
-- which the server itself reads headers, for every length below 2 ^ 63.
pub announced-set_send_header :
    (data_len format : ℕ)
    → data_len < 2 ^ 63
    → announced (set_send_header data_len format)
      ≡ (pos data_len, length (set_send_header data_len format))
unfolding set_send_header
announced-set_send_header data_len format h = ground arith

-- What a stream socket promises for `write`: it takes some of the bytes, in order, or none.
pub record Accepts {S : Type 0} (write : S → List ℕ → ℤ × S) : Type 0 where
  pub written : S → List ℕ
  pub accepts :
      (s s' : S) (bits : List ℕ) (n : ℕ)
      → write s bits ≡ (pos n, s')
      → (n ≤ length bits) × (written s' ≡ written s ++ take n bits)
  pub refuses :
      (s s' : S) (bits : List ℕ) (n : ℕ) → write s bits ≡ (negsuc n, s') → written s' ≡ written s

-- How sending `bits` ends: with all of them behind the bytes written before, or with a part when
-- `write` takes none or fails.
pub data Sent (before bits after : List ℕ) : ℤ → Bool → Type 0 where
  whole : (n : ℕ) → after ≡ before ++ bits → Sent before bits after (pos (suc n)) false
  stalled :
      (front rest : List ℕ)
      → bits ≡ front ++ rest
      → 0 < length rest
      → after ≡ before ++ front
      → Sent before bits after (pos 0) false
  broken :
      (front rest : List ℕ)
      → bits ≡ front ++ rest
      → 0 < length rest
      → after ≡ before ++ front
      → Sent before bits after minus_one true

Write-cases {ℓ} :
    {S : Type ℓ} (p : ℤ × S)
    → ((n : ℕ) × (s : S) × (p ≡ (negsuc n, s)))
      ⊎ ((s : S) × (p ≡ (pos 0, s)))
      ⊎ ((n : ℕ) × (s : S) × (p ≡ (pos (suc n), s)))
Write-cases (negsuc n, s) = inl (n, s, refl)
Write-cases (pos zero, s) = inr (inl (s, refl))
Write-cases (pos (suc n), s) = inr (inr (n, s, refl))

-- What the loop returns, as `send_request` reports it.
abbrev code_of : ℤ → ℤ
code_of (pos n) = pos n
code_of (negsuc n) = minus_one

-- The bytes that `write` took stand before those of the later rounds.
Sent-later :
    (before front bits rest after : List ℕ) (r : ℤ) (closed : Bool)
    → bits ≡ front ++ rest
    → Sent (before ++ front) rest after r closed
    → Sent before bits after r closed
Sent-later before front bits rest after r closed e (whole n w) =
    whole n (w ∙ append_assoc before front rest ∙ ap (before ++◌) (sym e))
Sent-later before front bits rest after r closed e (stalled f t p h w) =
    stalled (front ++ f) t (e ∙ ap (front ++◌) p ∙ sym (append_assoc front f t)) h
      (w ∙ append_assoc before front f)
Sent-later before front bits rest after r closed e (broken f t p h w) =
    broken (front ++ f) t (e ∙ ap (front ++◌) p ∙ sym (append_assoc front f t)) h
      (w ∙ append_assoc before front f)

module _ {S : Type 0} (write : S → List ℕ → ℤ × S) (a : Accepts write) where
  write_loop-Sent :
      (fuel last : ℕ) (bits : List ℕ) (s : S)
      → length bits < fuel
      → 0 < last + length bits
      → (r : ℤ) × (s' : S) × (write_loop write fuel (pos last) bits s ≡ some (r, s'))
        × (Sent (a.written s) bits (a.written s') (code_of r) (is_neg r))
  unfolding write_loop
  write_loop-Sent zero last bits s h g = absurd (omega arith)
  write_loop-Sent (suc fuel) zero [] s h g = absurd (omega arith)
  write_loop-Sent (suc fuel) (suc last) [] s h g =
      (pos (suc last), s, refl, whole last (sym (append-nil (a.written s))))
  write_loop-Sent (suc fuel) last (b ∷ bits) s h g = elim (Write-cases (write s (b ∷ bits))) [
    | inl (n, s', e) ↦ (
      negsuc n,
      s',
      rw e refl,
      broken [] (b ∷ bits) refl (omega arith)
          (a.refuses s s' (b ∷ bits) n e ∙ sym (append-nil (a.written s))),
    )
    | inr (inl (s', e)) ↦ (
      pos 0,
      s',
      rw e refl,
      stalled [] (b ∷ bits) refl (omega arith) (a.accepts s s' (b ∷ bits) 0 e).1,
    )
    | inr (inr (n, s', e)) ↦
        let (fits, w) = a.accepts s s' (b ∷ bits) (suc n) e in
        let left = length-drop (suc n) (b ∷ bits) in
        let (r, s2, f, g2) =
          write_loop-Sent fuel (suc n) (drop (suc n) (b ∷ bits)) s' (omega arith) (omega arith) in
        (
          r,
          s2,
          rw e f,
          Sent-later (a.written s) (take (suc n) (b ∷ bits)) (b ∷ bits) (drop (suc n) (b ∷ bits))
              (a.written s2) (code_of r) (is_neg r) (sym (take-append-drop (suc n) (b ∷ bits)))
              (rw (sym w) g2),
        )
  ]

  closing :
      (c : Connection S)
      → c.connection_closed ≡ false
      → (r : ℤ) (s : S)
      → sent write c (r, s) ≡ (code_of r, record { socket = s; connection_closed = is_neg r })
  closing c o (negsuc n) s = refl
  closing c o (pos n) s = ap (λ b. (pos n, record { socket = s; connection_closed = b })) o

  -- On an open connection and bytes to send, the loop ends within its fuel: a positive result is
  -- given only if all bytes were written, in order; 0 and -1 if the socket took a first part of
  -- them and then none or failed, and only -1 closes the connection.
  pub send_request-Sent :
      (bits : List ℕ) (c : Connection S)
      → c.connection_closed ≡ false
      → 0 < length bits
      → (r : ℤ) × (c' : Connection S) × (send_request write bits c ≡ some (r, c'))
        × (Sent (a.written c.socket) bits (a.written c'.socket) r c'.connection_closed)
  unfolding send_request
  send_request-Sent bits c o h =
      let (r, s, e, g) =
        write_loop-Sent (suc (length bits)) 0 bits c.socket (omega arith) (omega arith) in
      (
        code_of r,
        record { socket = s; connection_closed = is_neg r },
        rw (o, e, closing c o r s) refl,
        g,
      )
