-- ===== src/Transport/Sockets.antt =====
-- What a TCP or Unix session takes from a socket that delivers the bytes of a command.
use koheron_server.Base.{
  ℕ, ◌*◌, ◌/◌, ◌%◌, ◌^◌, ◌≡◌, refl, ◌∙◌, some, List, [], ◌∷◌, arith, ℤ, pos, is_neg, length, drop,
  Bool, true, false, >>=-eq-some,
}
use koheron_server.Serializer.Scalar.{Scalar, uint32, size_of}
use koheron_server.Serializer.Tuple.{Tuple, required_buffer_size, deserialize}
use koheron_server.Serializer.Prefix.{deserialize-more}
use koheron_server.Buffer.{Command}
use koheron_server.Tcp.Receive.{ReadResult, Delivers, to_int, rcv_n_bytes, rcv_n_bytes-delivers}
use koheron_server.Tcp.Session.{fill, Recv, returned, thrown, get_pack_length, resize_and_receive}
use koheron_server.Tcp.Session as Tcp
use koheron_server.Sessions.{tcp}
use koheron_server.Transport.{Request, tuple, string, vector, array, Item, perform}
use koheron_server.Transport.Items.{
  chunk, counted, item, some_pair, chunk-parts, to_int-small, counted-parts, body-parts,
  length-zero,
}

module _ {S : Type 0} (read : S → ℕ → ReadResult × S) (d : Delivers read) (can_resize : ℕ → Bool)
    (junk : List ℕ) where
  tcp-chunk :
      (n : ℕ) (bs : List ℕ) (s : S) {front rest : List ℕ}
      → chunk n bs ≡ some (front, rest)
      → d.content s ≡ bs
      → (s' : S) × (rcv_n_bytes read n s ≡ some (to_int n, front, s')) × (d.content s' ≡ rest)
  tcp-chunk n bs s {front} {rest} e c =
      let (split, size, _) = chunk-parts n bs e in
      let (s', run, behind) = rcv_n_bytes-delivers read d front rest s (c ∙ split) in
      (s', rw size at run, behind)

  tcp-counted :
      (bs : List ℕ) (s : S) {n : ℕ} {rest : List ℕ}
      → counted bs ≡ some (n, rest)
      → d.content s ≡ bs
      → (s' : S) × (get_pack_length read junk s ≡ some (pos n, s')) × (d.content s' ≡ rest)
  unfolding get_pack_length
  tcp-counted bs s e c =
      let (front, first, number, _) = counted-parts bs e in
      let (s', run, behind) = tcp-chunk 4 bs s first c in
      let len = deserialize-more 0 (uint32 ∷ []) front (drop (length front) junk) number in
      (s', rw (run, len) refl, behind)

  tcp-tuple :
      (ts : List Scalar) (bs : List ℕ) (s : S) {front rest : List ℕ} {vs : Tuple ts}
      → chunk (required_buffer_size ts) bs ≡ some (front, rest)
      → deserialize 0 ts front ≡ some vs
      → d.content s ≡ bs
      → (err : ℤ) × (s' : S) × (Tcp.deserialize_tuple read junk ts s ≡ some (err, vs, s'))
        × (is_neg err ≡ false)
        × (d.content s' ≡ rest)
  unfolding Tcp.deserialize_tuple deserialize
  tcp-tuple [] bs s {front} first number c =
      let (split, size, _) = chunk-parts 0 bs first in
      (pos 0, s, refl, refl, c ∙ split ∙ rw (length-zero front size) refl)
  tcp-tuple (t ∷ ts) bs s {front} first number c =
      let (split, size, small) = chunk-parts (required_buffer_size (t ∷ ts)) bs first in
      let (s', run, behind) = tcp-chunk (required_buffer_size (t ∷ ts)) bs s first c in
      let vs = deserialize-more 0 (t ∷ ts) front (drop (length front) junk) number in
      (_, s', rw (run, vs) refl, to_int-small _ small, behind)

  tcp-chars :
      (n size : ℕ) (bs : List ℕ) (s : S) {front rest : List ℕ}
      → can_resize n ≡ true
      → chunk (n * size) bs ≡ some (front, rest)
      → d.content s ≡ bs
      → (code : ℤ) × (s' : S) × (resize_and_receive read can_resize n size s
          ≡ some (returned code front s'))
        × (is_neg code ≡ false)
        × (d.content s' ≡ rest)
  unfolding resize_and_receive
  tcp-chars n size bs s h first c =
      let (split, length_is, small) = chunk-parts (n * size) bs first in
      let (s', run, behind) = tcp-chunk (n * size) bs s first c in
      let whole : n * size % 2 ^ 64 ≡ n * size = omega arith in
      (_, s', rw (h, whole, run) refl, to_int-small _ small, behind)

  -- The socket's side: what the bytes say is what the device gets.
  pub tcp-item :
      (r : Request) (bs : List ℕ) (cmd : Command) (s : S) {i : Item} {rest : List ℕ}
      → item can_resize r bs ≡ some (i, rest)
      → d.content s ≡ bs
      → (s' : S) × (perform read can_resize junk tcp r (cmd, s) ≡ some (i, cmd, s'))
        × (d.content s' ≡ rest)
  unfolding item perform Tcp.recv_string Tcp.recv_vector Tcp.recv_array
  tcp-item (tuple ts) bs cmd s e c =
      let ((front, behind), first, e₁) = >>=-eq-some (chunk (required_buffer_size ts) bs) _ e in
      let (vs, number, e₂) = >>=-eq-some (deserialize 0 ts front) _ e₁ in
      let (err, s', run, ok, left) = tcp-tuple ts bs s first number c in
      let (same, r) = some_pair e₂ in (s', rw (run, ok) (rw same refl), left ∙ r)
  tcp-item string bs cmd s {rest = rest} e c =
      let ((n, behind), len, e₁) = >>=-eq-some (counted bs) _ e in
      let (front, fits, first, same) = body-parts (can_resize n) n behind e₁ in
      let (_, _, _, small) = counted-parts bs len in
      let (s₁, length_run, c₁) = tcp-counted bs s len c in
      let one : n * 1 ≡ n = omega arith in
      let whole : n % 2 ^ 64 ≡ n = omega arith in
      let (code, s', run, ok, left) =
        tcp-chars n 1 behind s₁ {front = front} {rest = rest} fits (rw one first) c₁ in
      (s', rw (length_run, whole, run, ok) (rw same refl), left)
  tcp-item (vector size) bs cmd s e c =
      let ((n, behind), len, e₁) = >>=-eq-some (counted bs) _ e in
      let (front, fits, first, same) =
        body-parts (can_resize (n / size)) (n / size * size) behind e₁ in
      let (_, _, _, small) = counted-parts bs len in
      let (s₁, length_run, c₁) = tcp-counted bs s len c in
      let whole : n % 2 ^ 64 ≡ n = omega arith in
      let (code, s', run, ok, left) = tcp-chars (n / size) size behind s₁ fits first c₁ in
      (s', rw (length_run, whole, run, ok) (rw same refl), left)
  tcp-item (array t n) bs cmd s e c =
      let ((front, behind), first, e₁) = >>=-eq-some (chunk (size_of t * n) bs) _ e in
      let (split, size, small) = chunk-parts (size_of t * n) bs first in
      let (s', run, left) = tcp-chunk (size_of t * n) bs s first c in
      let (same, r) = some_pair e₁ in (s', rw (run, to_int-small _ small) (rw same refl), left ∙ r)
