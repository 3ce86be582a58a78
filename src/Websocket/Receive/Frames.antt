-- ===== src/Websocket/Receive/Frames.antt =====
-- `read_header` on the header of a client's frame.
use koheron_server.Base.{
  ℕ, ◌+◌, ◌-◌, ◌*◌, ◌/◌, ◌%◌, ◌^◌, ◌≤◌, ◌<◌, ◌≡◌, refl, sym, ap, ◌∙◌, subst, List, [], ◌∷◌, ◌++◌,
  arith, ltb, leb, length, drop, pos, true, false, length-drop, inl, inr, Bool-cases,
}
use koheron_server.Tcp.Receive.{ReadResult, Delivers}
use koheron_server.Websocket.Receive.{
  done, WebSocket, sized, check_opcode, read_n_bytes, read_size, read_header, websock_read_str_len,
}
use koheron_server.Websocket.Receive.Delivery.{Holds, read_n_bytes-delivers}
use koheron_server.Websocket.Receive.Client.{big_start, frame_start}

-- What the first two bytes of such a frame set.
abbrev framed : {S : Type 0} → ℕ → WebSocket S → WebSocket S
framed b₁ w = record w { header = record h { fin = true; masked = leb 128 b₁; opcode = 2 } }
  where
    open w use {header as h}

module _ {S : Type 0} (read : S → ℕ → ReadResult × S) (d : Delivers read) (fuel : ℕ)
    (enough : 8 < fuel) where
  six_read :
      (b₁ b₂ b₃ b₄ b₅ : ℕ) (tail : List ℕ) (w w₁ : WebSocket S)
      → read_n_bytes read fuel (pos 6) w ≡ done (pos 0, w₁)
      → w₁.connection_closed ≡ false
      → w₁.read_str ≡ (130 ∷ b₁ ∷ b₂ ∷ b₃ ∷ b₄ ∷ b₅ ∷ []) ++ tail
      → read_header read fuel w ≡ read_size read fuel (b₁ % 128) (framed b₁ w₁)
  unfolding read_header check_opcode
  six_read b₁ b₂ b₃ b₄ b₅ tail w w₁ run open₁ text = rw (run, open₁, text) refl

  -- The first six bytes of a frame, up to the sizes.
  read_header-six :
      (b₁ b₂ b₃ b₄ b₅ : ℕ) (rest tail : List ℕ) (w : WebSocket S)
      → Holds w [] tail
      → 6 ≤ length tail
      → w.connection_closed ≡ false
      → d.content w.socket ≡ (130 ∷ b₁ ∷ b₂ ∷ b₃ ∷ b₄ ∷ b₅ ∷ []) ++ rest
      → (w' : WebSocket S) × (read_header read fuel w ≡ read_size read fuel (b₁ % 128) w')
        × Holds w' (130 ∷ b₁ ∷ b₂ ∷ b₃ ∷ b₄ ∷ b₅ ∷ []) (drop 6 tail)
        × (d.content w'.socket ≡ rest)
        × (w'.connection_closed ≡ false)
  read_header-six b₁ b₂ b₃ b₄ b₅ rest tail w h room closed c =
      let six = 130 ∷ b₁ ∷ b₂ ∷ b₃ ∷ b₄ ∷ b₅ ∷ [] in
      let (w₁, run, (h₁, c₁, head₁, open₁)) =
        read_n_bytes-delivers read d fuel six rest [] tail w h c (omega arith) room (omega arith) in
      (
        framed b₁ w₁,
        six_read b₁ b₂ b₃ b₄ b₅ (drop 6 tail) w w₁ run (open₁ ∙ closed) h₁.text,
        record { text = h₁.text; size = h₁.size },
        c₁,
        open₁ ∙ closed,
      )

  small_size :
      (n : ℕ) (w : WebSocket S)
      → n ≤ 125
      → read_size read fuel n w ≡ done (pos 0, sized 6 2 (pos n) w)
  unfolding read_size
  small_size n w h = ground arith

  medium_size_read :
      (n b₂ b₃ : ℕ) (tail : List ℕ) (w w₁ : WebSocket S)
      → read_n_bytes read fuel (pos 2) w ≡ done (pos 0, w₁)
      → w₁.connection_closed ≡ false
      → w₁.read_str ≡ 130 ∷ 254 ∷ b₂ ∷ b₃ ∷ tail
      → b₂ * 2 ^ 8 + b₃ ≡ n
      → n ≤ websock_read_str_len - 56
      → read_size read fuel 126 w ≡ done (pos 0, sized 8 4 (pos n) w₁)
  unfolding read_size
  medium_size_read n b₂ b₃ tail w w₁ run open₁ text e h = rw (run, open₁, text, e) (ground arith)

  big_size_read :
      (n b₂ b₃ b₄ b₅ b₆ b₇ b₈ b₉ : ℕ) (tail : List ℕ) (w w₁ : WebSocket S)
      → read_n_bytes read fuel (pos 8) w ≡ done (pos 0, w₁)
      → w₁.connection_closed ≡ false
      → w₁.read_str ≡ 130 ∷ 255 ∷ b₂ ∷ b₃ ∷ b₄ ∷ b₅ ∷ b₆ ∷ b₇ ∷ b₈ ∷ b₉ ∷ tail
      → b₂ * 2 ^ 56
          + b₃ * 2 ^ 48
          + b₄ * 2 ^ 40
          + b₅ * 2 ^ 32
          + b₆ * 2 ^ 24
          + b₇ * 2 ^ 16
          + b₈ * 2 ^ 8
          + b₉
        ≡ n
      → n ≤ websock_read_str_len - 56
      → read_size read fuel 127 w ≡ done (pos 0, sized 14 10 (pos n) w₁)
  unfolding read_size
  big_size_read n b₂ b₃ b₄ b₅ b₆ b₇ b₈ b₉ tail w w₁ run open₁ text e h =
      rw (run, open₁, text, e) (ground arith)

  -- What the header of a frame with `n` bytes leaves, where `head` is the header.
  abbrev pub Headed : ℕ → List ℕ → List ℕ → List ℕ → WebSocket S → Type 0
  Headed n head tail rest w' =
      Holds w' head tail
      × (d.content w'.socket ≡ rest)
      × (w'.connection_closed ≡ false)
      × (w'.header.header_size ≡ length head)
      × (w'.header.mask_offset + 4 ≡ length head)
      × (w'.header.payload_size ≡ pos n)

  module _ (n m₀ m₁ m₂ m₃ : ℕ) (rest tail : List ℕ) (w : WebSocket S) (h : Holds w [] tail)
      (room : 14 ≤ length tail) (closed : w.connection_closed ≡ false)
      (limit : n ≤ websock_read_str_len - 56) where
    -- The header that starts with `start` is read.
    abbrev pub ReadsHeader : List ℕ → Type 0
    ReadsHeader start =
        d.content w.socket ≡ start ++ (m₀ ∷ m₁ ∷ m₂ ∷ m₃ ∷ rest)
        → (w' : WebSocket S) × (tail' : List ℕ) × (read_header read fuel w ≡ done (pos 0, w'))
          × Headed n (start ++ (m₀ ∷ m₁ ∷ m₂ ∷ m₃ ∷ [])) tail' rest w'
          × (length start + 4 + length tail' ≡ length tail)

    small_header : n ≤ 125 → ReadsHeader (130 ∷ (128 + n) ∷ [])
    small_header few c =
        let (w₁, run, h₁, c₁, open₁) =
          read_header-six (128 + n) m₀ m₁ m₂ m₃ rest tail w h (omega arith) closed c in
        let low : (128 + n) % 128 ≡ n = omega arith in
        (
          sized 6 2 (pos n) w₁,
          drop 6 tail,
          run ∙ ap (λ (k : ℕ). read_size read fuel k w₁) low ∙ small_size n w₁ few,
          (record { text = h₁.text; size = h₁.size }, c₁, open₁, refl, refl, refl),
          omega (arith, length-drop 6 tail),
        )

    medium_header : (b₂ b₃ : ℕ) → b₂ * 2 ^ 8 + b₃ ≡ n → ReadsHeader (130 ∷ 254 ∷ b₂ ∷ b₃ ∷ [])
    medium_header b₂ b₃ e c =
        let (w₁, run, h₁, c₁, open₁) =
          read_header-six 254 b₂ b₃ m₀ m₁ (m₂ ∷ m₃ ∷ rest) tail w h (omega arith) closed c in
        let (w₂, run₂, (h₂, c₂, head₂, open₂)) =
          read_n_bytes-delivers read d fuel (m₂ ∷ m₃ ∷ []) rest (130 ∷ 254 ∷ b₂ ∷ b₃ ∷ m₀ ∷ m₁ ∷ [])
            (drop 6 tail) w₁ h₁ c₁ (omega arith) (omega (arith, length-drop 6 tail))
            (omega arith) in
        (
          sized 8 4 (pos n) w₂,
          drop 2 (drop 6 tail),
          run ∙ medium_size_read n b₂ b₃ _ w₁ w₂ run₂ (open₂ ∙ open₁) h₂.text e limit,
          (record { text = h₂.text; size = h₂.size }, c₂, open₂ ∙ open₁, refl, refl, refl),
          omega (arith, length-drop 6 tail, length-drop 2 (drop 6 tail)),
        )

    big_header :
        (b₂ b₃ b₄ b₅ b₆ b₇ b₈ b₉ : ℕ)
        → b₂ * 2 ^ 56
            + b₃ * 2 ^ 48
            + b₄ * 2 ^ 40
            + b₅ * 2 ^ 32
            + b₆ * 2 ^ 24
            + b₇ * 2 ^ 16
            + b₈ * 2 ^ 8
            + b₉
          ≡ n
        → ReadsHeader (130 ∷ 255 ∷ b₂ ∷ b₃ ∷ b₄ ∷ b₅ ∷ b₆ ∷ b₇ ∷ b₈ ∷ b₉ ∷ [])
    big_header b₂ b₃ b₄ b₅ b₆ b₇ b₈ b₉ e c =
        let (w₁, run, h₁, c₁, open₁) =
          read_header-six 255 b₂ b₃ b₄ b₅ (b₆ ∷ b₇ ∷ b₈ ∷ b₉ ∷ m₀ ∷ m₁ ∷ m₂ ∷ m₃ ∷ rest) tail w h
            (omega arith) closed c in
        let (w₂, run₂, (h₂, c₂, head₂, open₂)) =
          read_n_bytes-delivers read d fuel (b₆ ∷ b₇ ∷ b₈ ∷ b₉ ∷ m₀ ∷ m₁ ∷ m₂ ∷ m₃ ∷ []) rest
            (130 ∷ 255 ∷ b₂ ∷ b₃ ∷ b₄ ∷ b₅ ∷ []) (drop 6 tail) w₁ h₁ c₁ enough
            (omega (arith, length-drop 6 tail)) (omega arith) in
        (
          sized 14 10 (pos n) w₂,
          drop 8 (drop 6 tail),
          run
              ∙ big_size_read n b₂ b₃ b₄ b₅ b₆ b₇ b₈ b₉ _ w₁ w₂ run₂ (open₂ ∙ open₁) h₂.text e
                  limit,
          (record { text = h₂.text; size = h₂.size }, c₂, open₂ ∙ open₁, refl, refl, refl),
          omega (arith, length-drop 6 tail, length-drop 8 (drop 6 tail)),
        )

    pub read_header-frame : ReadsHeader (frame_start n)
    read_header-frame = elim (Bool-cases (leb n 125)) [
      | inl small ↦
          let e : frame_start n ≡ 130 ∷ (128 + n) ∷ [] = rw small refl in
          subst ReadsHeader (sym e) (small_header (ground arith))
      | inr large ↦ elim (Bool-cases (ltb n (2 ^ 16))) [
        | inl medium ↦
            let e : frame_start n ≡ 130 ∷ 254 ∷ (n / 2 ^ 8) ∷ (n % 2 ^ 8) ∷ [] =
              rw (large, medium) refl in
            subst ReadsHeader (sym e) (medium_header (n / 2 ^ 8) (n % 2 ^ 8) (omega arith))
        | inr big ↦
            let e : frame_start n ≡ big_start n = rw (large, big) refl in
            subst ReadsHeader (sym e) (
              big_header (n / 2 ^ 56 % 2 ^ 8) (n / 2 ^ 48 % 2 ^ 8) (n / 2 ^ 40 % 2 ^ 8)
                (n / 2 ^ 32 % 2 ^ 8) (n / 2 ^ 24 % 2 ^ 8) (n / 2 ^ 16 % 2 ^ 8) (n / 2 ^ 8 % 2 ^ 8)
                (n % 2 ^ 8) (omega arith))
      ]
    ]
