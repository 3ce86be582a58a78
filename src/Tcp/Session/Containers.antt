-- ===== src/Tcp/Session/Containers.antt =====
-- Vectors and strings: what the command serializer dumps, `recv` reads, and what `recv` does when
-- the length cannot be read.
use koheron_server.Base.{
  ℕ, ◌-◌, ◌*◌, ◌/◌, ◌%◌, ◌^◌, ◌<◌, ◌≡◌, refl, sym, ◌∙◌, some, List, [], ◌∷◌, ◌++◌, arith, length,
  drop, append_assoc, append-nil, pos, minus_one, Bool, true, false,
}
use native.Mathlib.Nat.{mul-div_cancel}
use koheron_server.Serializer.Scalar.{uint32, append, length-append_scalar}
use koheron_server.Serializer.Tuple.{encode, deserialize, deserialize-encode}
use koheron_server.Serializer.Command.Wire.{sized_bytes}
use koheron_server.Tcp.Receive.{ReadResult, Delivers, to_int, rcv_n_bytes, rcv_n_bytes-delivers}
use koheron_server.Tcp.Session.{
  fill, returned, thrown, get_pack_length, resize_and_receive, recv_vector, recv_string,
}

module _ {S : Type 0} (read : S → ℕ → ReadResult × S) where
  -- A length that cannot be read becomes the largest quotient: where (2 ^ 64 - 1) / size elements
  -- cannot be allocated, the reception of a vector throws instead of returning -1.
  pub recv_vector_no_length :
      (can_resize : ℕ → Bool) (junk : List ℕ) (size : ℕ) (s s' : S)
      → get_pack_length read junk s ≡ some (minus_one, s')
      → can_resize ((2 ^ 64 - 1) / size) ≡ false
      → recv_vector read can_resize junk size s ≡ some (thrown s')
  unfolding recv_vector resize_and_receive
  recv_vector_no_length can_resize junk size s s' e h = rw (e, h) refl

  -- The reception of a string whose length cannot be read returns -1.
  pub recv_string_no_length :
      (can_resize : ℕ → Bool) (junk : List ℕ) (s s' : S)
      → get_pack_length read junk s ≡ some (minus_one, s')
      → recv_string read can_resize junk s ≡ some (returned minus_one [] s')
  unfolding recv_string
  recv_string_no_length can_resize junk s s' e = rw e refl

module _ {S : Type 0} (read : S → ℕ → ReadResult × S) (d : Delivers read) where
  get_pack_length-append :
      (n : ℕ) (junk rest : List ℕ) (s : S)
      → n < 2 ^ 32
      → d.content s ≡ append uint32 n ++ rest
      → (s' : S) × (get_pack_length read junk s ≡ some (pos n, s')) × (d.content s' ≡ rest)
  unfolding get_pack_length encode
  get_pack_length-append n junk rest s h c =
      let (s', run, behind) = rcv_n_bytes-delivers read d (append uint32 n) rest s c in
      let run' : rcv_n_bytes read 4 s ≡ some (pos 4, append uint32 n, s') =
        rw (length-append_scalar uint32 n) at run in
      let value : deserialize 0 (uint32 ∷ []) (fill junk (append uint32 n)) ≡ some (n, tt) =
        rw append-nil at (
          deserialize-encode (uint32 ∷ []) (n, tt) 0 [] (drop (length (append uint32 n)) junk) refl
            (h, tt)) in
      (s', rw (run', value) refl, behind)

  receive-delivers :
      (can_resize : ℕ → Bool) (n size : ℕ) (bytes rest : List ℕ) (s : S)
      → can_resize n ≡ true
      → n * size ≡ length bytes
      → length bytes < 2 ^ 32
      → d.content s ≡ bytes ++ rest
      → (s' : S) × (resize_and_receive read can_resize n size s
          ≡ some (returned (to_int (length bytes)) bytes s'))
        × (d.content s' ≡ rest)
  unfolding resize_and_receive
  receive-delivers can_resize n size bytes rest s h e k c =
      let (s', run, behind) = rcv_n_bytes-delivers read d bytes rest s c in
      let whole : n * size % 2 ^ 64 ≡ length bytes = rw e (omega arith) in
      (s', rw (h, whole, run) refl, behind)

  -- A string that the command serializer dumped, shorter than 2 ^ 32 bytes and of a length that
  -- can be allocated, is received whole from a socket that delivers it, and nothing behind it is
  -- read; the result is its length as an int.
  pub recv_string-sized_bytes :
      (can_resize : ℕ → Bool) (bytes junk rest : List ℕ) (s : S)
      → length bytes < 2 ^ 32
      → can_resize (length bytes) ≡ true
      → d.content s ≡ sized_bytes bytes ++ rest
      → (s' : S) × (recv_string read can_resize junk s
          ≡ some (returned (to_int (length bytes)) bytes s'))
        × (d.content s' ≡ rest)
  unfolding recv_string
  recv_string-sized_bytes can_resize bytes junk rest s h r c =
      let (s₁, len, c₁) =
        get_pack_length-append (length bytes) junk (bytes ++ rest) s h
          (c ∙ append_assoc (append uint32 (length bytes)) bytes rest) in
      let (s', run, behind) =
        receive-delivers can_resize (length bytes) 1 bytes rest s₁ r (omega arith) h c₁ in
      let whole : length bytes % 2 ^ 64 ≡ length bytes = omega arith in
      (s', rw (len, whole) run, behind)

  -- A dumped vector of `n` elements of `size` bytes, shorter than 2 ^ 32 bytes in all and of a
  -- length that can be allocated, is received whole from a socket that delivers it, and nothing
  -- behind it is read.
  pub recv_vector-sized_bytes :
      (can_resize : ℕ → Bool) (n size : ℕ) (bytes junk rest : List ℕ) (s : S)
      → 0 < size
      → length bytes ≡ n * size
      → length bytes < 2 ^ 32
      → can_resize n ≡ true
      → d.content s ≡ sized_bytes bytes ++ rest
      → (s' : S) × (recv_vector read can_resize junk size s
          ≡ some (returned (to_int (length bytes)) bytes s'))
        × (d.content s' ≡ rest)
  unfolding recv_vector
  recv_vector-sized_bytes can_resize n size bytes junk rest s p e h r c =
      let (s₁, len, c₁) =
        get_pack_length-append (length bytes) junk (bytes ++ rest) s h
          (c ∙ append_assoc (append uint32 (length bytes)) bytes rest) in
      let elements : length bytes % 2 ^ 64 / size ≡ n =
        let whole : n * size % 2 ^ 64 ≡ n * size = omega arith in
        rw (e, whole) (mul-div_cancel n p) in
      let (s', run, behind) = receive-delivers can_resize n size bytes rest s₁ r (sym e) h c₁ in
      (s', rw (len, elements) run, behind)
