-- ===== src/Tcp/Session/Arguments.antt =====
-- What a device reads from the socket of a TCP session is what was written for it.
use mathlib.Core.Option
use koheron_server.Base.{
  ℕ, ◌+◌, ◌*◌, ◌^◌, ◌<◌, ◌≡◌, refl, ◌∙◌, some, List, [], ◌∷◌, ◌++◌, arith, length, drop,
  append_assoc, append-nil, ℤ, pos, Bool, true,
}
use koheron_server.Serializer.Scalar.{
  Scalar, Value, Fits, uint8, size_of, append, length-append_scalar,
}
use koheron_server.Serializer.Tuple.{deserialize, encode, deserialize-encode}
use koheron_server.Serializer.Command.{
  Arg, scalar, container, array, c_string, Serializer, build_command,
}
use koheron_server.Serializer.Command.Wire.{payload, arg_bytes, runs_fit, AreSized}
use koheron_server.Buffer.{Command, new_command, header_size}
use koheron_server.Tcp.Receive.{ReadResult, Delivers, to_int, rcv_n_bytes, rcv_n_bytes-delivers}
use koheron_server.Tcp.Session.{
  fill, returned, read_command, recv_array, deserialize_tuple, recv_string,
}
use koheron_server.Tcp.Session.Commands.{read_command-build_command}
use koheron_server.Tcp.Session.Containers.{recv_string-sized_bytes}

-- `junk` is what the memory of each buffer holds.
module _ {S : Type 0} (read : S → ℕ → ReadResult × S) (d : Delivers read) (can_resize : ℕ → Bool)
    (junk : List ℕ) where
  -- An argument is taken from the socket: a scalar as a tuple of one, a container as a string and an
  -- array as one of bytes.
  abbrev pub Takes : Arg → S → S → Type 0
  Takes (scalar t v) s s' =
      deserialize_tuple read junk (t ∷ []) s ≡ some (to_int (size_of t), (v, tt), s')
  Takes (container bytes) s s' =
      recv_string read can_resize junk s ≡ some (returned (to_int (length bytes)) bytes s')
  Takes (array bytes) s s' =
      recv_array read uint8 (length bytes) s ≡ some (returned (to_int (length bytes)) bytes s')
  Takes (c_string chars) s s' =
      recv_string read can_resize junk s ≡ some (returned (to_int (length chars)) chars s')

  -- All arguments are taken, in order, and `after` is left in the socket.
  abbrev pub TakesAll : List Arg → S → List ℕ → Type 0
  TakesAll [] s after = d.content s ≡ after
  TakesAll (a ∷ args) s after = (s' : S) × Takes a s s' × TakesAll args s' after

  -- A scalar is in its type's range, and a container has a length that can be allocated.
  abbrev pub ArgFits : Arg → Type 0
  ArgFits (scalar t v) = Fits t v
  ArgFits (container bytes) = (length bytes < 2 ^ 32) × (can_resize (length bytes) ≡ true)
  ArgFits (array bytes) = Unit {0}
  ArgFits (c_string chars) = (length chars < 2 ^ 32) × (can_resize (length chars) ≡ true)

  abbrev pub ArgsFit : List Arg → Type 0
  ArgsFit [] = Unit {0}
  ArgsFit (a ∷ args) = ArgFits a × ArgsFit args

  scalar-Takes :
      (t : Scalar) (v : Value t) (rest : List ℕ) (s : S)
      → Fits t v
      → d.content s ≡ append t v ++ rest
      → (s' : S) × Takes (scalar t v) s s' × (d.content s' ≡ rest)
  unfolding deserialize_tuple encode
  scalar-Takes t v rest s h c =
      let (s', run, behind) = rcv_n_bytes-delivers read d (append t v) rest s c in
      let size : size_of t + 0 ≡ size_of t = omega arith in
      let run' : rcv_n_bytes read (size_of t) s ≡ some (to_int (size_of t), append t v, s') =
        rw (length-append_scalar t v) at run in
      let value : deserialize 0 (t ∷ []) (fill junk (append t v)) ≡ some (v, tt) =
        rw append-nil at (
          deserialize-encode (t ∷ []) (v, tt) 0 [] (drop (length (append t v)) junk) refl
            (h, tt)) in
      (s', rw (size, run', value) refl, behind)

  arg_bytes-Takes :
      (a : Arg) (rest : List ℕ) (s : S)
      → ArgFits a
      → d.content s ≡ arg_bytes a ++ rest
      → (s' : S) × Takes a s s' × (d.content s' ≡ rest)
  unfolding arg_bytes recv_array
  arg_bytes-Takes (scalar t v) rest s h c = scalar-Takes t v rest s h c
  arg_bytes-Takes (container bytes) rest s h c =
      recv_string-sized_bytes read d can_resize bytes junk rest s h.0 h.1 c
  arg_bytes-Takes (array bytes) rest s h c =
      let (s', run, behind) = rcv_n_bytes-delivers read d bytes rest s c in
      let size : 1 * length bytes ≡ length bytes = omega arith in (s', rw (size, run) refl, behind)
  arg_bytes-Takes (c_string chars) rest s h c =
      recv_string-sized_bytes read d can_resize chars junk rest s h.0 h.1 c

  payload-TakesAll :
      (args : List Arg) (s : S) (after : List ℕ)
      → ArgsFit args
      → d.content s ≡ payload args ++ after
      → TakesAll args s after
  unfolding payload
  payload-TakesAll [] s after h c = c
  payload-TakesAll (a ∷ args) s after h c =
      let (s', run, behind) =
        arg_bytes-Takes a (payload args ++ after) s h.0
          (c ∙ append_assoc (arg_bytes a) (payload args) after) in
      (s', run, payload-TakesAll args s' after h.1 behind)

  -- What `build_command` built is received whole by a TCP session: from a socket that delivers it,
  -- `read_command` returns 8, and then each argument is taken from the socket, in order, as it was
  -- given to `build_command`, and what follows the command is left. This is for runs of scalars that
  -- fit into the pack, scalars in their types' ranges, containers shorter than 2 ^ 32 bytes that can
  -- be allocated, and a class and a function that fit into a uint16_t.
  pub build_command-TakesAll :
      (class_id func_id : ℕ) (args : List Arg) (ser : Serializer) (buffer built : List ℕ) (id : ℤ)
      (memory rest after : List ℕ) (s : S)
      → class_id < 2 ^ 16
      → func_id < 2 ^ 16
      → runs_fit (length ser.scal_data) 0 args ≡ true
      → AreSized args
      → ArgsFit args
      → length memory ≡ header_size
      → Option.map (λ st. st.1) (build_command class_id func_id args (ser, buffer)) ≡ some built
      → d.content s ≡ built ++ after
      → (cmd : Command) × (s' : S) × (read_command read id (new_command memory rest) s
          ≡ some (pos header_size, cmd, s'))
        × (cmd.device ≡ class_id)
        × (cmd.operation ≡ pos func_id)
        × TakesAll args s' after
  build_command-TakesAll class_id func_id args ser buffer built id memory rest after s h k runs
        sizes fit m b c =
      let (cmd, s', run, dev, op, sess, behind) =
        read_command-build_command read d class_id func_id args ser buffer built id memory rest
          after s h k runs sizes m b c in
      (cmd, s', run, dev, op, payload-TakesAll args s' after fit behind)
