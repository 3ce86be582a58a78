-- ===== src/Transport/Payloads.antt =====
-- What a WebSocket session takes from the payload of a command.
use koheron_server.Base.{
  ℕ, ◌+◌, ◌*◌, ◌/◌, ◌≡◌, refl, sym, ap, ◌∙◌, subst, some, List, [], ◌∷◌, ◌++◌, arith, ltb, drop,
  Bool, false, >>=-eq-some, append_assoc, length-append,
}
use koheron_server.Serializer.Scalar.{Scalar, uint32, size_of}
use koheron_server.Serializer.Tuple.{Tuple, required_buffer_size, deserialize}
use koheron_server.Serializer.Prefix.{deserialize-more}
use koheron_server.Buffer.{
  Buffer, Command, deserialize_next, next_bytes, extract_array, to_vector, to_string,
}
use koheron_server.Tcp.Receive.{ReadResult}
use koheron_server.Websocket.Session.{cmd_payload_buffer_len}
use koheron_server.Websocket.Session as Websock
use koheron_server.Websocket.Session.Arguments.{At, At-next}
use koheron_server.Sessions.{websock}
use koheron_server.Transport.{Request, tuple, string, vector, array, Item, perform}
use koheron_server.Transport.Items.{
  chunk, counted, item, some_pair, chunk-parts, counted-parts, body-parts, length-zero, At-begin,
}

module _ {S : Type 0} (read : S → ℕ → ReadResult × S) (can_resize : ℕ → Bool) (junk : List ℕ) where
  ws-chunk :
      (n : ℕ) (bs : List ℕ) (b : Buffer) {front rest : List ℕ}
      → chunk n bs ≡ some (front, rest)
      → At b bs
      → (b' : Buffer) × (next_bytes n b ≡ some (front, b')) × At b' rest
  ws-chunk n bs b {front} {rest} e a =
      let (split, size, _) = chunk-parts n bs e in
      let (b', run, behind) = At-next b front rest (subst (At b) split a) in
      (b', rw size at run, behind)

  ws-tuple :
      (ts : List Scalar) (bs : List ℕ) (b : Buffer) {front rest : List ℕ} {vs : Tuple ts}
      → chunk (required_buffer_size ts) bs ≡ some (front, rest)
      → deserialize 0 ts front ≡ some vs
      → At b bs
      → (b' : Buffer) × (deserialize_next ts b ≡ some (vs, b')) × At b' rest
  unfolding deserialize_next
  ws-tuple ts bs b {front} {rest} first number a =
      let (split, size, _) = chunk-parts (required_buffer_size ts) bs first in
      let here : drop b.position b.bytes ≡ front ++ rest = At-begin b bs a ∙ split in
      let whole = deserialize-more 0 ts front rest number in
      (
        record b { position = b.position + required_buffer_size ts },
        rw (here, whole) refl,
        record {
          front = a.front ++ front;
          text = a.text ∙ ap (◌++◌ a.front) split ∙ sym (append_assoc a.front front rest);
          place = omega (arith, a.place, size, length-append a.front front);
        },
      )

  ws-counted :
      (bs : List ℕ) (b : Buffer) {n : ℕ} {rest : List ℕ}
      → counted bs ≡ some (n, rest)
      → At b bs
      → (b' : Buffer) × (deserialize_next (uint32 ∷ []) b ≡ some ((n, tt), b'))
        × At b' rest
        × (ltb cmd_payload_buffer_len n ≡ false)
  ws-counted bs b e a =
      let (front, first, number, small) = counted-parts bs e in
      let (b', run, behind) = ws-tuple (uint32 ∷ []) bs b first number a in
      (b', run, behind, ground (arith, small))

  -- The payload's side.
  pub ws-item :
      (r : Request) (bs : List ℕ) (cmd : Command) (s : S) {i : Item} {rest : List ℕ}
      → item can_resize r bs ≡ some (i, rest)
      → At cmd.payload bs
      → (cmd' : Command) × (perform read can_resize junk websock r (cmd, s) ≡ some (i, cmd', s))
        × At cmd'.payload rest
  unfolding item perform Websock.deserialize_tuple Websock.recv_string Websock.recv_vector
      Websock.recv_array to_vector to_string extract_array
  ws-item (tuple []) bs cmd s e a =
      let ((front, behind), first, e₁) = >>=-eq-some (chunk 0 bs) _ e in
      let (vs, number, e₂) = >>=-eq-some (deserialize 0 [] front) _ e₁ in
      let (split, size, _) = chunk-parts 0 bs first in
      let (same, r) = some_pair e₂ in
      (cmd, rw same refl, subst (At cmd.payload) (split ∙ (rw (length-zero front size) r)) a)
  ws-item (tuple (t ∷ ts)) bs cmd s e a =
      let ((front, behind), first, e₁) =
        >>=-eq-some (chunk (required_buffer_size (t ∷ ts)) bs) _ e in
      let (vs, number, e₂) = >>=-eq-some (deserialize 0 (t ∷ ts) front) _ e₁ in
      let (b, run, left) = ws-tuple (t ∷ ts) bs cmd.payload first number a in
      let (same, r) = some_pair e₂ in
      (record cmd { payload = b }, rw run (rw same refl), subst (At b) r left)
  ws-item string bs cmd s {rest = rest} e a =
      let ((n, behind), len, e₁) = >>=-eq-some (counted bs) _ e in
      let (front, fits, first, same) = body-parts (can_resize n) n behind e₁ in
      let (b, length_run, a₁, within) = ws-counted bs cmd.payload len a in
      let (b', run, left) = ws-chunk n behind b first a₁ in
      (record cmd { payload = b' }, rw (length_run, within, run) (rw same refl), left)
  ws-item (vector size) bs cmd s {rest = rest} e a =
      let ((n, behind), len, e₁) = >>=-eq-some (counted bs) _ e in
      let (front, fits, first, same) =
        body-parts (can_resize (n / size)) (n / size * size) behind e₁ in
      let (b, length_run, a₁, within) = ws-counted bs cmd.payload len a in
      let (b', run, left) = ws-chunk (n / size * size) behind b first a₁ in
      (record cmd { payload = b' }, rw (length_run, within, run) (rw same refl), left)
  ws-item (array t n) bs cmd s e a =
      let ((front, behind), first, e₁) = >>=-eq-some (chunk (size_of t * n) bs) _ e in
      let (b, run, left) = ws-chunk (size_of t * n) bs cmd.payload first a in
      let (same, r) = some_pair e₁ in
      (record cmd { payload = b }, rw run (rw same refl), subst (At b) r left)
