-- ===== src/Websocket/Receive/Loop.antt =====
-- `read_n_bytes`: what it leaves alone, where it writes and when it returns.
use koheron_server.Base.{
  ℕ, zero, suc, ◌+◌, ◌-◌, ◌≤◌, ◌<◌, ◌≡◌, ◌≢◌, refl, ◌∙◌, List, [], ◌∷◌, ◌++◌, arith, ◌==◌,
  if◌then◌else◌, length, take, drop, ℤ, pos, negsuc, Bool, true, false, length-append, length-take,
  length-drop, Bool-cases, inl, inr, ◌⊎◌,
}
use koheron_server.Tcp.Receive.{ReadResult, failed, received, Bounded}
use koheron_server.Websocket.Receive.{
  Outcome, done, overrun, spinning, ◌>>=◌, WebSocket, store, on_read, rounds, read_loop,
  read_n_bytes, kserver_read_str_len,
}

-- A run that gives a result gives one with `P`, and no run writes past a buffer. `Spin` is what
-- holds if the fuel runs out.
abbrev pub Post :
    {S : Type 0} → Type 0 → (ℤ → WebSocket S → Type 0) → Outcome (ℤ × WebSocket S) → Type 0
Post Spin P (done (r, w)) = P r w
Post Spin P overrun = ⊥
Post Spin P spinning = Spin

-- `read` reports no error.
abbrev pub NeverFails : {S : Type 0} → (S → ℕ → ReadResult × S) → Type 0
NeverFails {S} read = (s s' : S) (n : ℕ) → read s n ≢ (failed, s')

-- What a read of `n` bytes at most leaves of the connection's state.
abbrev pub Advanced : {S : Type 0} → WebSocket S → ℕ → WebSocket S → Type 0
Advanced w n w' =
    (length w'.read_str ≡ length w.read_str)
    × (w'.read_str_len ≤ w.read_str_len + n)
    × (w'.header ≡ w.header)

pub Post-bind :
    {S : Type 0} (Spin : Type 0) (P Q : ℤ → WebSocket S → Type 0) (m : Outcome (ℤ × WebSocket S))
    (f : ℤ × WebSocket S → Outcome (ℤ × WebSocket S))
    → Post Spin P m
    → ((r : ℤ) (w : WebSocket S) → P r w → Post Spin Q (f (r, w)))
    → Post Spin Q (m >>= f)
Post-bind Spin P Q (done (r, w)) f h k = k r w h
Post-bind Spin P Q overrun f h k = h
Post-bind Spin P Q spinning f h k = h

-- Bytes that fit are stored and counted; nothing else changes.
pub store-done :
    {S : Type 0} (bytes : List ℕ) (s : S) (w : WebSocket S)
    → w.read_str_len + length bytes ≤ length w.read_str
    → (w' : WebSocket S) × (store bytes s w ≡ done w')
      × (length w'.read_str ≡ length w.read_str)
      × (w'.read_str_len ≡ w.read_str_len + length bytes)
      × (w'.header ≡ w.header)
      × (w'.connection_closed ≡ w.connection_closed)
store-done bytes s w h =
    let n = w.read_str_len in
    let back = drop (n + length bytes) w.read_str in
    (
      record w {
        socket = s;
        read_str = take n w.read_str ++ (bytes ++ back);
        read_str_len = n + length bytes;
      },
      ground arith,
      omega (
        arith,
        length-append (take n w.read_str) (bytes ++ back),
        length-append bytes back,
        length-take n w.read_str,
        length-drop (n + length bytes) w.read_str,
      ),
      refl,
      refl,
      refl,
    )

pub Post-if :
    {S : Type 0} (Spin : Type 0) (P : ℤ → WebSocket S → Type 0) (b : Bool)
    (x y : Outcome (ℤ × WebSocket S))
    → (b ≡ true → Post Spin P x)
    → (b ≡ false → Post Spin P y)
    → Post Spin P (if b then x else y)
Post-if Spin P true x y h k = h refl
Post-if Spin P false x y h k = k refl

module _ {S : Type 0} (read : S → ℕ → ReadResult × S) (bounded : Bounded read) (Spin : Type 0) where
  read_loop-Post :
      (fuel : ℕ) (first : Bool) (n : ℕ) (w w₀ : WebSocket S) (n₀ : ℕ)
      → Spin ⊎ (NeverFails read × (n < fuel))
      → w.read_str_len + n ≤ length w.read_str
      → Advanced w₀ n₀ w
      → w.read_str_len + n ≤ w₀.read_str_len + n₀
      → Post Spin (λ _ w'. Advanced w₀ n₀ w') (read_loop read fuel first n w)
  unfolding read_loop
  read_loop-Post zero first n w w₀ n₀ (inl spin) h a b = spin
  read_loop-Post zero first n w w₀ n₀ (inr t) h a b = absurd (omega (arith, t.1))
  read_loop-Post (suc fuel) first zero w w₀ n₀ t h a b = ground arith
  read_loop-Post (suc fuel) first (suc n) w w₀ n₀ t h a b =
      after (read w.socket (suc n)) refl
        (λ w' n' t' h' a' b'. read_loop-Post fuel false n' w' w₀ n₀ t' h' a' b')
    where
      after :
          (p : ReadResult × S)
          → read w.socket (suc n) ≡ p
          → ((w' : WebSocket S) (n' : ℕ)
              → Spin ⊎ (NeverFails read × (n' < fuel))
              → w'.read_str_len + n' ≤ length w'.read_str
              → Advanced w₀ n₀ w'
              → w'.read_str_len + n' ≤ w₀.read_str_len + n₀
              → Post Spin (λ _ w'. Advanced w₀ n₀ w') (read_loop read fuel false n' w'))
          → Post Spin
              (λ _ w'. Advanced w₀ n₀ w')
              (on_read read p (suc n) w (read_loop read fuel false))
      after (failed, s) e again = elim (Bool-cases (w.read_str_len == kserver_read_str_len)) [
        | inl full ↦ rw full a
        | inr other ↦ rw other (again (record w { socket = s }) (suc n) (retry t) h a b)
      ]
        where
          retry :
              Spin ⊎ (NeverFails read × (suc n < suc fuel))
              → Spin ⊎ (NeverFails read × (suc n < fuel))
          retry (inl spin) = inl spin
          retry (inr (never, _)) = absurd (never w.socket s (suc n) e)
      after (received [], s) e again = a
      after (received (x ∷ xs), s) e again =
          let most = bounded w.socket s (suc n) (x ∷ xs) e in
          let (w', stored, len, count, head, open_still) = store-done (x ∷ xs) s w (omega arith) in
          rw stored (
            again w' (suc n - length (x ∷ xs)) (go_on t) (omega arith)
              (omega arith, omega arith, head ∙ a.2) (omega arith))
        where
          go_on :
              Spin ⊎ (NeverFails read × (suc n < suc fuel))
              → Spin ⊎ (NeverFails read × (suc n - length (x ∷ xs) < fuel))
          go_on (inl spin) = inl spin
          go_on (inr (never, f)) = inr (never, omega arith)

  -- A read of any number of bytes stays within the buffer if they fit into what is left of it.
  pub read_n_bytes-Post :
      (fuel : ℕ) (size : ℤ) (n : ℕ) (w : WebSocket S)
      → Spin ⊎ (NeverFails read × (n < fuel))
      → rounds size ≤ n
      → w.read_str_len + n ≤ length w.read_str
      → Post Spin (λ _ w'. Advanced w n w') (read_n_bytes read fuel size w)
  unfolding read_n_bytes
  read_n_bytes-Post fuel (pos k) n w t k≤n h =
      read_loop-Post fuel true k w w n (fewer t) (omega arith) (refl, omega arith, refl)
        (omega arith)
    where
      fewer : Spin ⊎ (NeverFails read × (n < fuel)) → Spin ⊎ (NeverFails read × (k < fuel))
      fewer (inl spin) = inl spin
      fewer (inr (never, f)) = inr (never, omega arith)
  read_n_bytes-Post fuel (negsuc k) n w t k≤n h = (refl, omega arith, refl)
