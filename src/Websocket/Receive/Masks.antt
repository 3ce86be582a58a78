-- ===== src/Websocket/Receive/Masks.antt =====
-- The mask of a client's frame, and what `decode_raw_stream_cmd` makes of a frame in the buffer.
use koheron_server.Base.{
  ℕ, suc, ◌+◌, ◌-◌, ◌*◌, ◌%◌, ◌≤◌, ◌≡◌, refl, ap, ◌∙◌, List, [], ◌∷◌, ◌++◌, arith, ltb, leb, length,
  take, drop, ℤ, pos, true, false, append_assoc, length-append, drop-prefix, drop-prefix_two,
  take-prefix, bit_xor-bit_xor,
}
use koheron_server.Buffer.{Command, header_size}
use koheron_server.Tcp.Session.{fill}
use koheron_server.Tcp.Session.Commands.{fill-full}
use koheron_server.Websocket.Receive.{done, WebSocket, rounds}
use koheron_server.Websocket.Receive.Delivery.{Holds}
use koheron_server.Websocket.Receive.Client.{masked}
use koheron_server.Websocket.Receive.Decode.{unmask, mask_of, payload_of, decode_raw_stream_cmd}

pub length-masked : (m₀ m₁ m₂ m₃ : ℕ) (p : List ℕ) → length (masked m₀ m₁ m₂ m₃ p) ≡ length p
length-masked m₀ m₁ m₂ m₃ [] = refl
length-masked m₀ m₁ m₂ m₃ (b ∷ p) = ap suc (length-masked m₁ m₂ m₃ m₀ p)

-- The index in the mask, for four bytes from a multiple of four on.
at₀ : (k : ℕ) → (4 * k) % 4 ≡ 0
at₀ k = omega arith

at₁ : (k : ℕ) → suc (4 * k) % 4 ≡ 1
at₁ k = omega arith

at₂ : (k : ℕ) → suc (suc (4 * k)) % 4 ≡ 2
at₂ k = omega arith

at₃ : (k : ℕ) → suc (suc (suc (4 * k))) % 4 ≡ 3
at₃ k = omega arith

-- From a multiple of four on, the mask undoes what the client did, whatever follows it.
pub unmask-masked :
    (m₀ m₁ m₂ m₃ : ℕ) (behind : List ℕ) (k : ℕ) (p : List ℕ)
    → unmask (m₀ ∷ m₁ ∷ m₂ ∷ m₃ ∷ behind) (4 * k) (masked m₀ m₁ m₂ m₃ p) ≡ p
unfolding unmask
unmask-masked m₀ m₁ m₂ m₃ behind k [] = refl
unmask-masked m₀ m₁ m₂ m₃ behind k (a ∷ []) = rw (at₀ k, bit_xor-bit_xor a m₀) refl
unmask-masked m₀ m₁ m₂ m₃ behind k (a ∷ b ∷ []) =
    rw (at₀ k, at₁ k, bit_xor-bit_xor a m₀, bit_xor-bit_xor b m₁) refl
unmask-masked m₀ m₁ m₂ m₃ behind k (a ∷ b ∷ c ∷ []) =
    rw (at₀ k, at₁ k, at₂ k, bit_xor-bit_xor a m₀, bit_xor-bit_xor b m₁, bit_xor-bit_xor c m₂) refl
unmask-masked m₀ m₁ m₂ m₃ behind k (a ∷ b ∷ c ∷ e ∷ p) =
    let next : suc (suc (suc (suc (4 * k)))) ≡ 4 * suc k = omega arith in
    rw
      (
        at₀ k,
        at₁ k,
        at₂ k,
        at₃ k,
        bit_xor-bit_xor a m₀,
        bit_xor-bit_xor b m₁,
        bit_xor-bit_xor c m₂,
        bit_xor-bit_xor e m₃,
        next,
        unmask-masked m₀ m₁ m₂ m₃ behind (suc k) p,
      )
      refl

-- What the buffer holds behind the start of a frame.
module _ {S : Type 0} (start : List ℕ) (m₀ m₁ m₂ m₃ : ℕ) (body tail : List ℕ) (w : WebSocket S)
    (h : Holds w ((start ++ (m₀ ∷ m₁ ∷ m₂ ∷ m₃ ∷ [])) ++ body) tail)
    (offset : w.header.mask_offset ≡ length start) where
  frame_text : w.read_str ≡ start ++ (m₀ ∷ m₁ ∷ m₂ ∷ m₃ ∷ (body ++ tail))
  frame_text =
      h.text
      ∙ append_assoc (start ++ (m₀ ∷ m₁ ∷ m₂ ∷ m₃ ∷ [])) body tail
      ∙ append_assoc start (m₀ ∷ m₁ ∷ m₂ ∷ m₃ ∷ []) (body ++ tail)

  pub frame_mask : mask_of w ≡ m₀ ∷ m₁ ∷ m₂ ∷ m₃ ∷ (body ++ tail)
  frame_mask =
      rw (offset, frame_text)
        (drop-prefix (length start) start (m₀ ∷ m₁ ∷ m₂ ∷ m₃ ∷ (body ++ tail)) refl)

  pub frame_payload : payload_of w ≡ body ++ tail
  frame_payload =
      rw (offset, frame_text)
        (drop-prefix_two (length start) 4 start (m₀ ∷ m₁ ∷ m₂ ∷ m₃ ∷ []) (body ++ tail) refl refl)

-- The command of a frame whose payload is the eight bytes of a header and then `q`.
abbrev pub with_payload : List ℕ → List ℕ → Command → Command
with_payload bytes q cmd = record cmd {
  header_buffer = record head { bytes = bytes };
  payload = record body { bytes = fill body.bytes q };
}
  where
    open cmd use {header_buffer as head, payload as body}

-- The eight bytes of a header.
abbrev pub eight : ℕ → ℕ → ℕ → ℕ → ℕ → ℕ → ℕ → ℕ → List ℕ
eight a₀ a₁ a₂ a₃ a₄ a₅ a₆ a₇ = a₀ ∷ a₁ ∷ a₂ ∷ a₃ ∷ a₄ ∷ a₅ ∷ a₆ ∷ a₇ ∷ []

module _ {S : Type 0} (start : List ℕ) (m₀ m₁ m₂ m₃ a₀ a₁ a₂ a₃ a₄ a₅ a₆ a₇ : ℕ) (q tail : List ℕ)
    (w : WebSocket S) where
  pub decode-frame :
      (cmd : Command)
      → Holds w
          ((start ++ (m₀ ∷ m₁ ∷ m₂ ∷ m₃ ∷ []))
            ++ masked m₀ m₁ m₂ m₃ (eight a₀ a₁ a₂ a₃ a₄ a₅ a₆ a₇ ++ q))
          tail
      → w.header.mask_offset ≡ length start
      → w.header.header_size ≡ length start + 4
      → w.header.payload_size ≡ pos (length (eight a₀ a₁ a₂ a₃ a₄ a₅ a₆ a₇ ++ q))
      → length cmd.header_buffer.bytes ≡ header_size
      → length q ≤ length cmd.payload.bytes
      → decode_raw_stream_cmd cmd w
        ≡ done (pos 0, with_payload (eight a₀ a₁ a₂ a₃ a₄ a₅ a₆ a₇) q cmd)
  unfolding decode_raw_stream_cmd
  decode-frame cmd h offset size payload junk room =
      let body = masked m₀ m₁ m₂ m₃ (eight a₀ a₁ a₂ a₃ a₄ a₅ a₆ a₇ ++ q) in
      let mask = m₀ ∷ m₁ ∷ m₂ ∷ m₃ ∷ (body ++ tail) in
      let is_mask = frame_mask start m₀ m₁ m₂ m₃ body tail w h offset in
      let is_payload = frame_payload start m₀ m₁ m₂ m₃ body tail w h offset in
      let long : ltb w.read_str_len (w.header.header_size + 1) ≡ false = ground (
        arith,
        size,
        h.size,
        length-append (start ++ (m₀ ∷ m₁ ∷ m₂ ∷ m₃ ∷ [])) body,
        length-append start (m₀ ∷ m₁ ∷ m₂ ∷ m₃ ∷ []),
      ) in
      let count : rounds w.header.payload_size - header_size ≡ length q =
        ap (λ (z : ℤ). rounds z - header_size) payload ∙ omega arith in
      let head : unmask (mask_of w) 0 (take header_size (payload_of w))
          ≡ eight a₀ a₁ a₂ a₃ a₄ a₅ a₆ a₇ =
        ap (λ (m : List ℕ). unmask m 0 (take header_size (payload_of w))) is_mask
        ∙ ap (λ (p : List ℕ). unmask mask 0 (take header_size p)) is_payload
        ∙ unmask-masked m₀ m₁ m₂ m₃ (body ++ tail) 0 (eight a₀ a₁ a₂ a₃ a₄ a₅ a₆ a₇) in
      let rest : unmask (mask_of w) header_size
            (take (rounds w.header.payload_size - header_size) (drop header_size (payload_of w)))
          ≡ q =
        ap
          (λ (m : List ℕ).
            unmask m header_size
              (take (rounds w.header.payload_size - header_size) (drop header_size (payload_of w))))
          is_mask
        ∙ ap (λ (k : ℕ). unmask mask header_size (take k (drop header_size (payload_of w)))) count
        ∙ ap (λ (p : List ℕ). unmask mask header_size (take (length q) (drop header_size p)))
            is_payload
        ∙ ap (unmask mask header_size)
            (take-prefix (length q) (masked m₀ m₁ m₂ m₃ q) tail (length-masked m₀ m₁ m₂ m₃ q))
        ∙ unmask-masked m₀ m₁ m₂ m₃ (body ++ tail) 2 q in
      let fits₁ : leb (length (eight a₀ a₁ a₂ a₃ a₄ a₅ a₆ a₇)) (length cmd.header_buffer.bytes)
          ≡ true =
        ground arith in
      let fits₂ : leb (length q) (length cmd.payload.bytes) ≡ true = ground arith in
      rw
        (
          long,
          head,
          rest,
          fits₁,
          fits₂,
          fill-full cmd.header_buffer.bytes (eight a₀ a₁ a₂ a₃ a₄ a₅ a₆ a₇) junk,
        )
        refl
