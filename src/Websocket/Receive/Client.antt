-- ===== src/Websocket/Receive/Client.antt =====
-- The frames that a client sends, by RFC 6455: final, binary and masked.
use Prim.Native.Nat.{bit_xor}
use koheron_server.Base.{
  ℕ, ◌+◌, ◌/◌, ◌%◌, ◌^◌, List, [], ◌∷◌, ◌++◌, ltb, leb, if◌then◌else◌, length,
}

-- The payload with each byte masked by the next byte of the key, in turn.
abbrev pub masked : ℕ → ℕ → ℕ → ℕ → List ℕ → List ℕ
masked m₀ m₁ m₂ m₃ [] = []
masked m₀ m₁ m₂ m₃ (b ∷ bs) = bit_xor b m₀ ∷ masked m₁ m₂ m₃ m₀ bs

-- The start of a frame whose size takes eight bytes.
abbrev pub big_start : ℕ → List ℕ
big_start n =
    130
    ∷ 255
    ∷ (n / 2 ^ 56 % 2 ^ 8)
    ∷ (n / 2 ^ 48 % 2 ^ 8)
    ∷ (n / 2 ^ 40 % 2 ^ 8)
    ∷ (n / 2 ^ 32 % 2 ^ 8)
    ∷ (n / 2 ^ 24 % 2 ^ 8)
    ∷ (n / 2 ^ 16 % 2 ^ 8)
    ∷ (n / 2 ^ 8 % 2 ^ 8)
    ∷ (n % 2 ^ 8)
    ∷ []

-- A final binary frame (130) with the bit for the mask (128) and a payload of `n` bytes.
abbrev pub frame_start : ℕ → List ℕ
frame_start n =
    if leb n 125
    then 130 ∷ (128 + n) ∷ []
    else if ltb n (2 ^ 16)
    then 130 ∷ 254 ∷ (n / 2 ^ 8) ∷ (n % 2 ^ 8) ∷ []
    else big_start n

abbrev pub client_frame : ℕ → ℕ → ℕ → ℕ → List ℕ → List ℕ
client_frame m₀ m₁ m₂ m₃ payload =
    frame_start (length payload) ++ (m₀ ∷ m₁ ∷ m₂ ∷ m₃ ∷ masked m₀ m₁ m₂ m₃ payload)
