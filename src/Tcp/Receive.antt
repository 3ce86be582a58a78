-- ===== src/Tcp/Receive.antt =====
-- `rcv_n_bytes`, lines 49 to 78 of core/kserver_session.cpp. The socket is a state with a function
-- for the system call `read`, which is not part of the program.
use koheron_server.Base.{
  ℕ, zero, suc, ◌+◌, ◌-◌, ◌%◌, ◌^◌, ◌≤◌, ◌<◌, ◌≡◌, refl, sym, ap, ◌∙◌, Option, none, some, List, [],
  ◌∷◌, ◌++◌, arith, ltb, length, ℤ, pos, minus_one, of_bits, Bool-cases, true, false, inl, inr, ◌⊎◌,
  length-append, append_assoc, append-nil,
}

-- What `read(fd, buf, n)` gives: an error, or the bytes that it stored. No byte: the peer closed.
pub data ReadResult : Type 0 where
  failed : ReadResult
  received : List ℕ → ReadResult

-- A uint64_t that becomes an int.
abbrev pub to_int : ℕ → ℤ
to_int n = of_bits (2 ^ 31) (n % 2 ^ 32)

-- The part of the loop's body behind the call: an error and a closed connection end the loop.
abbrev on_read :
    {S : Type 0}
    → ReadResult × S
    → List ℕ
    → (List ℕ → S → Option (ℤ × List ℕ × S))
    → Option (ℤ × List ℕ × S)
on_read (failed, s) stored next = some (minus_one, stored, s)
on_read (received [], s) stored next = some (pos 0, stored, s)
on_read (received (b ∷ bytes), s) stored next = next (stored ++ b ∷ bytes) s

module _ {S : Type 0} (read : S → ℕ → ReadResult × S) where
  -- The loop, with the bytes that are stored so far: the result, the bytes stored and the socket.
  -- `none`: the fuel ran out.
  rcv_loop : ℕ → ℕ → List ℕ → S → Option (ℤ × List ℕ × S)
  rcv_loop zero n stored s = none
  rcv_loop (suc fuel) n stored s = elim (ltb (length stored) n) [
    | false ↦ some (to_int (length stored), stored, s)
    | true ↦ on_read (read s (n - length stored)) stored (rcv_loop fuel n)
  ]

  -- Each round stores a byte at least, so `n + 1` rounds are enough.
  unfoldable pub rcv_n_bytes : ℕ → S → Option (ℤ × List ℕ × S)
  unfolding rcv_loop
  rcv_n_bytes n s = rcv_loop (suc n) n [] s

-- How a reception of `n` bytes ends: with all of them, or because the last `read`, for the bytes that
-- were missing, gave an error or found the connection closed by the peer.
pub data Ends {S : Type 0} (read : S → ℕ → ReadResult × S) (n : ℕ) : ℤ → List ℕ → S → Type 0 where
  all : (bytes : List ℕ) (s' : S) → length bytes ≡ n → Ends read n (to_int n) bytes s'
  error :
      (bytes : List ℕ) (s s' : S)
      → length bytes < n
      → read s (n - length bytes) ≡ (failed, s')
      → Ends read n minus_one bytes s'
  closed :
      (bytes : List ℕ) (s s' : S)
      → length bytes < n
      → read s (n - length bytes) ≡ (received [], s')
      → Ends read n (pos 0) bytes s'

-- A `read` never stores more bytes than it is asked for.
abbrev pub Bounded : {S : Type 0} → (S → ℕ → ReadResult × S) → Type 0
Bounded {S} read =
    (s s' : S) (n : ℕ) (bytes : List ℕ) → read s n ≡ (received bytes, s') → length bytes ≤ n

-- What a stream socket promises while `content` is still to be read: some of the next bytes, in
-- order, and no more than asked for.
pub record Delivers {S : Type 0} (read : S → ℕ → ReadResult × S) : Type 0 where
  pub content : S → List ℕ
  pub delivers :
      (s : S) (n : ℕ)
      → 0 < n
      → 0 < length (content s)
      → (bytes : List ℕ) × (s' : S) × (read s n ≡ (received bytes, s'))
        × (0 < length bytes)
        × (length bytes ≤ n)
        × (content s ≡ bytes ++ content s')

Read-cases {ℓ} :
    {S : Type ℓ} (p : ReadResult × S)
    → ((s : S) × (p ≡ (failed, s)))
      ⊎ ((s : S) × (p ≡ (received [], s)))
      ⊎ ((b : ℕ) × (bs : List ℕ) × (s : S) × (p ≡ (received (b ∷ bs), s)))
Read-cases (failed, s) = inl (s, refl)
Read-cases (received [], s) = inr (inl (s, refl))
Read-cases (received (b ∷ bs), s) = inr (inr (b, bs, s, refl))

-- Two splits of one list, the first before the second.
pub append-split {ℓ} :
    {A : Type ℓ} (xs ys us vs : List A)
    → xs ++ ys ≡ us ++ vs
    → length xs ≤ length us
    → (ws : List A) × (us ≡ xs ++ ws) × (ys ≡ ws ++ vs)
append-split [] ys us vs e h = (us, refl, e)
append-split (x ∷ xs) ys [] vs e h = absurd (omega arith)
append-split (x ∷ xs) ys (u ∷ us) vs e h =
    let (ws, p, q) = append-split xs ys us vs (cc) (omega arith) in (ws, cc, q)

on_read-received :
    {S : Type 0} (got : List ℕ) (s : S) (stored : List ℕ)
    (next : List ℕ → S → Option (ℤ × List ℕ × S))
    → 0 < length got
    → on_read (received got, s) stored next ≡ next (stored ++ got) s
on_read-received [] s stored next h = absurd (omega arith)
on_read-received (b ∷ bs) s stored next h = refl

module _ {S : Type 0} (read : S → ℕ → ReadResult × S) where
  rcv_loop-Ends :
      (fuel n : ℕ) (stored : List ℕ) (s : S)
      → Bounded read
      → length stored ≤ n
      → n - length stored < fuel
      → (code : ℤ) × (bytes : List ℕ) × (s' : S) × (rcv_loop read fuel n stored s
          ≡ some (code, bytes, s'))
        × Ends read n code bytes s'
  unfolding rcv_loop
  rcv_loop-Ends zero n stored s bound h f = absurd (omega arith)
  rcv_loop-Ends (suc fuel) n stored s bound h f = elim (Bool-cases (ltb (length stored) n)) [
    | inr done ↦
        let full : length stored ≡ n = ground arith in
        (to_int n, stored, s, rw (done, full, rcv_loop) refl, all stored s full)
    | inl more ↦ elim (Read-cases (read s (n - length stored))) [
      | inl (s', e) ↦
          (minus_one, stored, s', rw (more, e, rcv_loop), error stored s s' (ground arith) e)
      | inr (inl (s', e)) ↦
          (pos 0, stored, s', rw (more, e, rcv_loop), closed stored s s' (ground arith) e)
      | inr (inr (b, bs, s', e)) ↦
          let fits = bound s s' (n - length stored) (b ∷ bs) e in
          let grown = length-append stored (b ∷ bs) in
          let room : length stored < n = ground arith in
          let (code, bytes, t, run, ends) =
            rcv_loop-Ends fuel n (stored ++ b ∷ bs) s' bound (omega arith) (omega arith) in
          (code, bytes, t, rw (more, e, rcv_loop) run, ends)
    ]
  ]

  -- Provided that `read` never stores more than it is asked for, `rcv_n_bytes` always returns: with
  -- all `n` bytes stored and `n` as an int, with -1 if a `read` for the missing bytes gave an error,
  -- or with 0 if such a `read` found the connection closed; in both last cases that `read` was the
  -- last one and fewer than `n` bytes are stored.
  pub rcv_n_bytes-Ends :
      (n : ℕ) (s : S)
      → Bounded read
      → (code : ℤ) × (bytes : List ℕ) × (s' : S) × (rcv_n_bytes read n s ≡ some (code, bytes, s'))
        × Ends read n code bytes s'
  unfolding rcv_n_bytes
  rcv_n_bytes-Ends n s bound = rcv_loop-Ends (suc n) n [] s bound (omega arith) (omega arith)

  module _ (d : Delivers read) where
    rcv_loop-delivers :
        (fuel n : ℕ) (stored bytes rest : List ℕ) (s : S)
        → d.content s ≡ bytes ++ rest
        → length stored + length bytes ≡ n
        → length bytes < fuel
        → (s' : S) × (rcv_loop read fuel n stored s ≡ some (to_int n, stored ++ bytes, s'))
          × (d.content s' ≡ rest)
    unfolding rcv_loop
    rcv_loop-delivers zero n stored bytes rest s c h f = absurd (omega arith)
    rcv_loop-delivers (suc fuel) n stored [] rest s c h f =
        let done : ltb (length stored) n ≡ false = ground arith in
        let full : length stored ≡ n = ground arith in
        (s, rw (done, full, append-nil, rcv_loop) refl, c)
    rcv_loop-delivers (suc fuel) n stored (x ∷ xs) rest s c h f =
        let more : ltb (length stored) n ≡ true = ground arith in
        let wanted : n - length stored ≡ suc (length xs) = omega arith in
        let (got, s₁, e, some_byte, most, parts) =
          d.delivers s (n - length stored) (omega arith) (rw c (omega arith)) in
        let (left, p, q) =
          append-split got (d.content s₁) (x ∷ xs) rest (sym parts ∙ c) (omega arith) in
        let counts : length got + length left ≡ suc (length xs) =
          omega (arith, ap length p, length-append got left) in
        let (s', run, behind) =
          rcv_loop-delivers fuel n (stored ++ got) left rest s₁ q
            (omega (arith, length-append stored got, counts)) (omega (arith, counts)) in
        (
          s',
          rw (more, e, rcv_loop)
              (on_read-received got s₁ stored (rcv_loop read fuel n) some_byte
                ∙ run
                ∙ ap (λ (w : List ℕ). some (to_int n, w, s'))
                    (append_assoc stored got left ∙ ap (◌++◌ stored) (sym p))),
          behind,
        )

    -- From a socket that delivers `bytes` and then `rest`, in pieces of any size, `rcv_n_bytes`
    -- reads just `bytes` and leaves `rest`.
    pub rcv_n_bytes-delivers :
        (bytes rest : List ℕ) (s : S)
        → d.content s ≡ bytes ++ rest
        → (s' : S) × (rcv_n_bytes read (length bytes) s ≡ some (to_int (length bytes), bytes, s'))
          × (d.content s' ≡ rest)
    unfolding rcv_n_bytes
    rcv_n_bytes-delivers bytes rest s c =
        rcv_loop-delivers (suc (length bytes)) (length bytes) [] bytes rest s c (omega arith)
          (omega arith)
