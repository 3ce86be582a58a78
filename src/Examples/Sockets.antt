-- ===== src/Examples/Sockets.antt =====
-- Sockets for the examples: one that reads and one that writes a byte at a time, and one that fails.
use koheron_server.Base.{
  append-nil, ℕ, zero, suc, ◌≤◌, ◌<◌, ◌≡◌, refl, List, [], ◌∷◌, ◌++◌, arith, length, take, ℤ, pos,
  negsuc,
}
use koheron_server.Tcp.Receive.{ReadResult, failed, received, Bounded, Delivers}
use koheron_server.Websocket.Receive.Loop.{NeverFails}
use koheron_server.Websocket.Send.Wire.{Accepts}

-- The bytes to come, of which each call stores the next one.
unfoldable pub trickle : List ℕ → ℕ → ReadResult × List ℕ
trickle [] n = (received [], [])
trickle (b ∷ bs) zero = (received [], b ∷ bs)
trickle (b ∷ bs) (suc n) = (received (b ∷ []), bs)

pub trickle-next :
    (s : List ℕ) (n : ℕ)
    → 0 < n
    → 0 < length s
    → (bytes : List ℕ) × (s' : List ℕ) × (trickle s n ≡ (received bytes, s'))
      × (0 < length bytes)
      × (length bytes ≤ n)
      × (s ≡ bytes ++ s')
unfolding trickle
trickle-next [] n h k = absurd (omega arith)
trickle-next (b ∷ bs) zero h k = absurd (omega arith)
trickle-next (b ∷ bs) (suc n) h k = (b ∷ [], bs, refl, omega arith, omega arith, refl)

abbrev pub trickle-Delivers : Delivers trickle
trickle-Delivers = record { content = λ s. s; delivers = trickle-next }

pub trickle-Bounded : Bounded trickle
unfolding trickle
trickle-Bounded [] s' n bytes e = ground arith
trickle-Bounded (b ∷ bs) s' zero bytes e = ground arith
trickle-Bounded (b ∷ bs) s' (suc n) bytes e = ground arith

pub trickle-NeverFails : NeverFails trickle
unfolding trickle
trickle-NeverFails [] s' n e = ground arith
trickle-NeverFails (b ∷ bs) s' zero e = ground arith
trickle-NeverFails (b ∷ bs) s' (suc n) e = ground arith

-- A socket whose every call fails.
unfoldable pub failing : Unit {0} → ℕ → ReadResult × Unit {0}
failing s n = (failed, s)

-- The bytes written, behind which each call writes one.
unfoldable pub accept_one : List ℕ → List ℕ → ℤ × List ℕ
accept_one s [] = (pos 0, s)
accept_one s (b ∷ bs) = (pos 1, s ++ b ∷ [])

pub accept_one-took :
    (s s' : List ℕ) (bits : List ℕ) (n : ℕ)
    → accept_one s bits ≡ (pos n, s')
    → (n ≤ length bits) × (s' ≡ s ++ take n bits)
unfolding accept_one
accept_one-took s s' [] zero e = ground (arith, append-nil s)
accept_one-took s s' [] (suc n) e = ground arith
accept_one-took s s' (b ∷ bs) n e = ground arith

pub accept_one-refused :
    (s s' : List ℕ) (bits : List ℕ) (n : ℕ) → accept_one s bits ≡ (negsuc n, s') → s' ≡ s
unfolding accept_one
accept_one-refused s s' [] n e = ground arith
accept_one-refused s s' (b ∷ bs) n e = ground arith

abbrev pub accept_one-Accepts : Accepts accept_one
accept_one-Accepts = record {
  written = λ s. s;
  accepts = accept_one-took;
  refuses = accept_one-refused;
}

pub failing-fails : (s : Unit {0}) (k : ℕ) → failing s k ≡ (failed, s)
unfolding failing
failing-fails s k = refl

pub trickle-last : (b n : ℕ) → trickle (b ∷ []) (suc n) ≡ (received (b ∷ []), [])
unfolding trickle
trickle-last b n = refl
