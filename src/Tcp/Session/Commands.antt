-- ===== src/Tcp/Session/Commands.antt =====
-- Commands on the wire: what `send` writes, `read_command` reads.
use koheron_server.Base.{
  ℕ, ◌^◌, ◌<◌, ◌≡◌, refl, sym, ap, ◌∙◌, some, List, [], ◌++◌, length, append_assoc, append-nil,
  drop-prefix, ℤ, pos, true, drop,
}
use koheron_server.Serializer.Tuple.{length-encode}
use mathlib.Core.Option
use mathlib.Core.Option.{some-injective}
use koheron_server.Serializer.Command.{Arg, Serializer, header_types, build_command}
use koheron_server.Serializer.Command.Wire.{
  header, payload, runs_fit, AreSized, build_command-eq-wire,
}
use koheron_server.Buffer.{Command, new_command, header_size, decode_header-header}
use koheron_server.Tcp.Receive.{ReadResult, Delivers, rcv_n_bytes, rcv_n_bytes-delivers}
use koheron_server.Tcp.Session.{read_command, fill}

-- A stored block that fills the memory leaves nothing of what it held.
pub fill-full : (junk bytes : List ℕ) → length junk ≡ length bytes → fill junk bytes ≡ bytes
fill-full junk bytes e =
    let rest : drop (length bytes) junk ≡ [] =
      rw append-nil at (drop-prefix (length bytes) junk [] e) in
    rw rest (append-nil bytes)

module _ {S : Type 0} (read : S → ℕ → ReadResult × S) (d : Delivers read) where
  -- A session that receives a header for a class and a function below 2 ^ 16 returns 8, takes them
  -- for the command's device and operation, and leaves what follows in the socket.
  pub read_command-header :
      (class_id func_id : ℕ) (id : ℤ) (junk rest after : List ℕ) (s : S)
      → class_id < 2 ^ 16
      → func_id < 2 ^ 16
      → length junk ≡ header_size
      → d.content s ≡ header class_id func_id ++ after
      → (s' : S) × (read_command read id (new_command junk rest) s
          ≡ some (
            pos header_size,
            record (new_command junk rest) {
              sess_id = id;
              device = class_id;
              operation = pos func_id;
              header_buffer = record { bytes = header class_id func_id; position = header_size };
            },
            s',
          ))
        × (d.content s' ≡ after)
  unfolding read_command
  read_command-header class_id func_id id junk rest after s h k j c =
      let (s', run, behind) = rcv_n_bytes-delivers read d (header class_id func_id) after s c in
      let size = length-encode header_types (0, (class_id, (func_id, tt))) in
      let filled = fill-full junk (header class_id func_id) (j ∙ sym size) in
      let run' : rcv_n_bytes read header_size s ≡ some (pos 8, header class_id func_id, s') =
        rw size at run in
      (
        s',
        rw (run', filled, decode_header-header class_id func_id id (new_command junk rest) h k)
            refl,
        behind,
      )

  -- What one server sends, another's TCP session receives: from a socket that delivers a command
  -- as `build_command` built it, `read_command` takes the class and the function, and the payload
  -- is what is left to read. This is for runs of scalars that fit into the pack, sizes that fit
  -- into a uint32_t, and a class and a function that fit into a uint16_t.
  pub read_command-build_command :
      (class_id func_id : ℕ) (args : List Arg) (ser : Serializer) (buffer sent : List ℕ) (id : ℤ)
      (junk rest after : List ℕ) (s : S)
      → class_id < 2 ^ 16
      → func_id < 2 ^ 16
      → runs_fit (length ser.scal_data) 0 args ≡ true
      → AreSized args
      → length junk ≡ header_size
      → Option.map (λ st. st.1) (build_command class_id func_id args (ser, buffer)) ≡ some sent
      → d.content s ≡ sent ++ after
      → (cmd : Command) × (s' : S) × (read_command read id (new_command junk rest) s
          ≡ some (pos header_size, cmd, s'))
        × (cmd.device ≡ class_id)
        × (cmd.operation ≡ pos func_id)
        × (cmd.sess_id ≡ id)
        × (d.content s' ≡ payload args ++ after)
  read_command-build_command class_id func_id args ser buffer sent id junk rest after s h k f z j b
        c =
      let wire : sent ≡ header class_id func_id ++ payload args =
        some-injective _ _ (sym b ∙ build_command-eq-wire class_id func_id args ser buffer f z) in
      let content : d.content s ≡ header class_id func_id ++ (payload args ++ after) =
        c
        ∙ ap (λ (xs : List ℕ). xs ++ after) wire
        ∙ append_assoc (header class_id func_id) (payload args) after in
      let (s', run, behind) =
        read_command-header class_id func_id id junk rest (payload args ++ after) s h k j content in
      (_, s', run, refl, refl, refl, behind)
