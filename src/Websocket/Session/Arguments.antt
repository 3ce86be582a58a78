-- ===== src/Websocket/Session/Arguments.antt =====
-- What a device reads from the payload of a command is what was written for it.
use koheron_server.Base.{
  ℕ, ◌+◌, ◌*◌, ◌/◌, ◌≤◌, ◌<◌, ◌≡◌, refl, sym, subst, none, some, List, [], ◌∷◌, ◌++◌, arith, ltb,
  leb, length, pos, true, false, append_assoc, append-nil, length-append, take-append, drop-append,
}
use native.Mathlib.Nat.{mul-div_cancel}
use koheron_server.Serializer.Scalar.{
  Scalar, Value, Fits, uint8, uint32, size_of, append, length-append_scalar,
}
use koheron_server.Serializer.Tuple.{encode}
use koheron_server.Serializer.Command.{Arg, scalar, container, array, c_string}
use koheron_server.Serializer.Command.Wire.{sized_bytes, payload, arg_bytes}
use koheron_server.Buffer.{
  Buffer, Command, deserialize_next, deserialize_next-encode, extract_array, to_vector, to_string,
  next_bytes,
}
use koheron_server.Websocket.Session.{
  cmd_payload_buffer_len, recv_array, recv_vector, recv_string, deserialize_tuple,
}

next_bytes-append :
    (front bytes rest : List ℕ)
    → next_bytes
        (length bytes)
        (record { bytes = front ++ (bytes ++ rest); position = length front })
      ≡ some (
        bytes,
        record { bytes = front ++ (bytes ++ rest); position = length front + length bytes },
      )
unfolding next_bytes
next_bytes-append front bytes rest =
    let room : leb (length front + length bytes) (length (front ++ (bytes ++ rest))) ≡ true =
      ground (arith, length-append front (bytes ++ rest), length-append bytes rest) in
    rw (room, drop-append front (bytes ++ rest), take-append bytes rest) refl

deserialize_next-scalar :
    (t : Scalar) (v : Value t) (front rest : List ℕ)
    → Fits t v
    → deserialize_next
        (t ∷ [])
        (record { bytes = front ++ (append t v ++ rest); position = length front })
      ≡ some (
        (v, tt),
        record { bytes = front ++ (append t v ++ rest); position = length front + size_of t },
      )
unfolding encode
deserialize_next-scalar t v front rest h =
    let plain : append t v ++ [] ≡ append t v = append-nil (append t v) in
    let size : size_of t + 0 ≡ size_of t = omega arith in
    rw (plain, size) at (deserialize_next-encode (t ∷ []) (v, tt) front rest (h, tt))

-- `rest` is what is left to read of a buffer.
pub record At (b : Buffer) (rest : List ℕ) : Type 0 where
  pub front : List ℕ
  pub text : b.bytes ≡ front ++ rest
  pub place : b.position ≡ length front

At-buffer :
    {b : Buffer} {rest : List ℕ} (a : At b rest)
    → record { bytes = a.front ++ rest; position = length a.front } ≡ b
At-buffer a = sym (λ i. record { bytes = a.text i; position = a.place i })

pub At-next :
    (b : Buffer) (bytes rest : List ℕ)
    → At b (bytes ++ rest)
    → (b' : Buffer) × (next_bytes (length bytes) b ≡ some (bytes, b')) × At b' rest
At-next b bytes rest a =
    let end = length a.front + length bytes in
    (
      record { bytes = a.front ++ (bytes ++ rest); position = end },
      subst
          (λ c.
            next_bytes (length bytes) c
            ≡ some (bytes, record { bytes = a.front ++ (bytes ++ rest); position = end }))
          (At-buffer a) (next_bytes-append a.front bytes rest),
      record {
        front = a.front ++ bytes;
        text = sym (append_assoc a.front bytes rest);
        place = sym (length-append a.front bytes);
      },
    )

At-scalar :
    (b : Buffer) (t : Scalar) (v : Value t) (rest : List ℕ)
    → Fits t v
    → At b (append t v ++ rest)
    → (b' : Buffer) × (deserialize_next (t ∷ []) b ≡ some ((v, tt), b')) × At b' rest
At-scalar b t v rest h a =
    let whole = a.front ++ (append t v ++ rest) in
    let end = length a.front + size_of t in
    (
      record { bytes = whole; position = end },
      subst
          (λ c.
            deserialize_next (t ∷ []) c ≡ some ((v, tt), record { bytes = whole; position = end }))
          (At-buffer a) (deserialize_next-scalar t v a.front rest h),
      record {
        front = a.front ++ append t v;
        text = sym (append_assoc a.front (append t v) rest);
        place = omega (arith, length-append a.front (append t v), length-append_scalar t v);
      },
    )

-- The number in front of a container, and then its bytes.
At-sized :
    (b : Buffer) (bytes rest : List ℕ)
    → length bytes ≤ cmd_payload_buffer_len
    → At b (sized_bytes bytes ++ rest)
    → (b₁ : Buffer) × (b₂ : Buffer) × (deserialize_next (uint32 ∷ []) b
        ≡ some ((length bytes, tt), b₁))
      × (next_bytes (length bytes) b₁ ≡ some (bytes, b₂))
      × At b₂ rest
At-sized b bytes rest h a =
    let (b₁, size, a₁) =
      At-scalar b uint32 (length bytes) (bytes ++ rest) (omega arith)
        (subst (At b) (append_assoc (append uint32 (length bytes)) bytes rest) a) in
    let (b₂, run, a₂) = At-next b₁ bytes rest a₁ in (b₁, b₂, size, run, a₂)

-- An argument is taken from a command: a scalar as a tuple of one, a container as a string or as a
-- vector of elements of any size that divides it, an array as one of bytes.
abbrev pub Takes : Arg → Command → Command → Type 0
Takes (scalar t v) cmd cmd' = deserialize_tuple (t ∷ []) cmd ≡ some (pos 0, (v, tt), cmd')
Takes (container bytes) cmd cmd' =
    (recv_string cmd ≡ some (pos 0, bytes, cmd'))
    × ((size n : ℕ)
        → 0 < size
        → length bytes ≡ n * size
        → recv_vector size cmd ≡ some (pos 0, bytes, cmd'))
Takes (array bytes) cmd cmd' = recv_array uint8 (length bytes) cmd ≡ some (pos 0, bytes, cmd')
Takes (c_string chars) cmd cmd' = recv_string cmd ≡ some (pos 0, chars, cmd')

-- All arguments are taken, in order, and `after` is left.
abbrev pub TakesAll : List Arg → Command → List ℕ → Type 0
TakesAll [] cmd after = At cmd.payload after
TakesAll (a ∷ args) cmd after = (cmd' : Command) × Takes a cmd cmd' × TakesAll args cmd' after

-- A scalar is in its type's range, and a container within the limit of the session.
abbrev pub ArgFits : Arg → Type 0
ArgFits (scalar t v) = Fits t v
ArgFits (container bytes) = length bytes ≤ cmd_payload_buffer_len
ArgFits (array bytes) = Unit {0}
ArgFits (c_string chars) = length chars ≤ cmd_payload_buffer_len

abbrev pub ArgsFit : List Arg → Type 0
ArgsFit [] = Unit {0}
ArgsFit (a ∷ args) = ArgFits a × ArgsFit args

container-Takes :
    (cmd : Command) (bytes rest : List ℕ)
    → length bytes ≤ cmd_payload_buffer_len
    → At cmd.payload (sized_bytes bytes ++ rest)
    → (cmd' : Command) × Takes (container bytes) cmd cmd' × At cmd'.payload rest
unfolding recv_string recv_vector to_string to_vector
container-Takes cmd bytes rest h a =
    let (b₁, b₂, size, run, a₂) = At-sized cmd.payload bytes rest h a in
    let within : ltb cmd_payload_buffer_len (length bytes) ≡ false = ground arith in
    (
      record cmd { payload = b₂ },
      (
        rw (size, within, run) refl,
        λ k n some_size whole.
            let elements : length bytes / k ≡ n = rw whole (mul-div_cancel n some_size) in
            let bytes_again : n * k ≡ length bytes = sym whole in
            rw (size, within, elements, bytes_again, run) refl,
      ),
      a₂,
    )

arg_bytes-Takes :
    (a : Arg) (cmd : Command) (rest : List ℕ)
    → ArgFits a
    → At cmd.payload (arg_bytes a ++ rest)
    → (cmd' : Command) × Takes a cmd cmd' × At cmd'.payload rest
unfolding arg_bytes deserialize_tuple recv_array extract_array
arg_bytes-Takes (scalar t v) cmd rest h a =
    let (b, run, a₁) = At-scalar cmd.payload t v rest h a in
    (record cmd { payload = b }, rw run refl, a₁)
arg_bytes-Takes (container bytes) cmd rest h a = container-Takes cmd bytes rest h a
arg_bytes-Takes (array bytes) cmd rest h a =
    let (b, run, a₁) = At-next cmd.payload bytes rest a in
    let size : 1 * length bytes ≡ length bytes = omega arith in
    (record cmd { payload = b }, rw (size, run) refl, a₁)
arg_bytes-Takes (c_string chars) cmd rest h a =
    let (cmd', (run, _), a₁) = container-Takes cmd chars rest h a in (cmd', run, a₁)

-- From a command whose payload starts with arguments as `build_command` writes them, each in its
-- range and each container of at most CMD_PAYLOAD_BUFFER_LEN bytes, a WebSocket session takes
-- just these arguments, in order, and then stands behind them.
pub payload-TakesAll :
    (args : List Arg) (cmd : Command) (after : List ℕ)
    → ArgsFit args
    → At cmd.payload (payload args ++ after)
    → TakesAll args cmd after
unfolding payload
payload-TakesAll [] cmd after h a = a
payload-TakesAll (a ∷ args) cmd after h here =
    let (cmd', run, next) =
      arg_bytes-Takes a cmd (payload args ++ after) h.0
        (subst (At cmd.payload) (append_assoc (arg_bytes a) (payload args) after) here) in
    (cmd', run, payload-TakesAll args cmd' after h.1 next)

-- A length that the check of the session lets through is not compared with what is left of the
-- payload's buffer: where that is less, the reception of a string reads past the buffer's end.
pub recv_string_past_end :
    (cmd : Command) (n : ℕ) (behind : Buffer)
    → deserialize_next (uint32 ∷ []) cmd.payload ≡ some ((n, tt), behind)
    → n ≤ cmd_payload_buffer_len
    → length behind.bytes < behind.position + n
    → recv_string cmd ≡ none
unfolding recv_string to_string next_bytes
recv_string_past_end cmd n behind size h past =
    let within : ltb cmd_payload_buffer_len n ≡ false = ground arith in
    let over : leb (behind.position + n) (length behind.bytes) ≡ false = ground arith in
    rw (size, within, over) refl
