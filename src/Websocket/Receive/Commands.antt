-- ===== src/Websocket/Receive/Commands.antt =====
-- Commands in the frames of a client: what it masks, the session unmasks.
use koheron_server.Base.{
  ℕ, ◌-◌, ◌^◌, ◌≤◌, ◌<◌, ◌≡◌, ◌≢◌, refl, sym, ap, ◌∙◌, subst, some, List, [], ◌∷◌, ◌++◌, arith,
  if◌then◌else◌, length, ℤ, pos, is_neg, Bool, true, false, append_assoc, length-append,
}
use koheron_server.Buffer.{
  Buffer, Command, new_command, header_size, decode_header, decode_header-header,
}
use mathlib.Core.Option
use mathlib.Core.Option.{some-injective}
use koheron_server.Serializer.Tuple.{length-encode}
use koheron_server.Serializer.Command.{Arg, Serializer, header_types, build_command}
use koheron_server.Serializer.Command.Wire.{
  header, payload, runs_fit, AreSized, build_command-eq-wire,
}
use koheron_server.Tcp.Receive.{ReadResult, Delivers}
use koheron_server.Tcp.Session.{fill}
use koheron_server.Websocket.Receive.{
  done, WebSocket, read_stream, kserver_read_str_len, websock_read_str_len,
}
use koheron_server.Websocket.Receive.Client.{masked, frame_start, client_frame}
use koheron_server.Websocket.Receive.Streams.{read_stream-frame}
use koheron_server.Websocket.Receive.Decode.{
  is_too_small, narrow, decode_raw_stream_cmd, receive_cmd, read_command, after_stream,
}
use koheron_server.Websocket.Receive.Masks.{length-masked, with_payload, decode-frame}

eight_bytes :
    (xs : List ℕ)
    → length xs ≡ 8
    → (a₀ : ℕ) × (a₁ : ℕ) × (a₂ : ℕ) × (a₃ : ℕ) × (a₄ : ℕ) × (a₅ : ℕ) × (a₆ : ℕ) × (a₇ : ℕ) × (xs
        ≡ a₀ ∷ a₁ ∷ a₂ ∷ a₃ ∷ a₄ ∷ a₅ ∷ a₆ ∷ a₇ ∷ [])
eight_bytes (a₀ ∷ a₁ ∷ a₂ ∷ a₃ ∷ a₄ ∷ a₅ ∷ a₆ ∷ a₇ ∷ []) e = (a₀, a₁, a₂, a₃, a₄, a₅, a₆, a₇, refl)
eight_bytes [] e = absurd (omega arith)
eight_bytes (a₀ ∷ []) e = absurd (omega arith)
eight_bytes (a₀ ∷ a₁ ∷ []) e = absurd (omega arith)
eight_bytes (a₀ ∷ a₁ ∷ a₂ ∷ []) e = absurd (omega arith)
eight_bytes (a₀ ∷ a₁ ∷ a₂ ∷ a₃ ∷ []) e = absurd (omega arith)
eight_bytes (a₀ ∷ a₁ ∷ a₂ ∷ a₃ ∷ a₄ ∷ []) e = absurd (omega arith)
eight_bytes (a₀ ∷ a₁ ∷ a₂ ∷ a₃ ∷ a₄ ∷ a₅ ∷ []) e = absurd (omega arith)
eight_bytes (a₀ ∷ a₁ ∷ a₂ ∷ a₃ ∷ a₄ ∷ a₅ ∷ a₆ ∷ []) e = absurd (omega arith)
eight_bytes (a₀ ∷ a₁ ∷ a₂ ∷ a₃ ∷ a₄ ∷ a₅ ∷ a₆ ∷ a₇ ∷ b ∷ xs) e = absurd (omega arith)

-- What a session takes from a frame with the header of a command and then `q`.
abbrev pub received_command : ℕ → ℕ → ℤ → List ℕ → List ℕ → List ℕ → Command
received_command class_id func_id id junk rest q = record (new_command junk rest) {
  sess_id = id;
  device = class_id;
  operation = pos func_id;
  header_buffer = record { bytes = header class_id func_id; position = header_size };
  payload = record { bytes = fill rest q; position = 0 };
}

if_false : {A : Type 0} {b : Bool} (x : A) {y : A} → b ≡ false → (if b then x else y) ≡ y
if_false {A} {b} x {y} e = ap (λ (c : Bool). if c then x else y) e

module _ {S : Type 0} (read : S → ℕ → ReadResult × S) (fuel : ℕ) (cmd cmd' : Command)
    (w w' : WebSocket S) (open₀ : w.connection_closed ≡ false)
    (stream : read_stream read fuel w ≡ done (pos 0, w'))
    (decoded : decode_raw_stream_cmd cmd w' ≡ done (pos 0, cmd')) where
  receive_cmd-done : receive_cmd read fuel cmd w ≡ done (narrow w'.header.payload_size, cmd', w')
  unfolding receive_cmd after_stream
  receive_cmd-done = if_false _ open₀ ∙ rw (stream, decoded) refl

  read_command-done :
      (n : ℕ) (id : ℤ) (cmd'' : Command)
      → w'.header.payload_size ≡ pos n
      → header_size ≤ n
      → n < 2 ^ 31
      → w'.connection_closed ≡ false
      → decode_header id cmd' ≡ some cmd''
      → read_command read fuel id cmd w ≡ done (pos header_size, cmd'', w')
  unfolding read_command
  read_command-done n id cmd'' size low high open₁ head =
      let small : is_too_small w'.header.payload_size ≡ false = ground (arith, size) in
      let good : is_neg (narrow w'.header.payload_size) ≡ false = ground (arith, size) in
      rw receive_cmd-done (if_false _ good ∙ (if_false _ open₁ ∙ (if_false _ small ∙ rw head refl)))

module _ {S : Type 0} (read : S → ℕ → ReadResult × S) (d : Delivers read) (fuel : ℕ)
    (enough : websock_read_str_len ≤ fuel) where
  -- A header that is given by its bytes.
  read_command-eight :
      (m₀ m₁ m₂ m₃ a₀ a₁ a₂ a₃ a₄ a₅ a₆ a₇ class_id func_id : ℕ) (id : ℤ)
      (q junk rest after : List ℕ) (w : WebSocket S)
      → header class_id func_id ≡ a₀ ∷ a₁ ∷ a₂ ∷ a₃ ∷ a₄ ∷ a₅ ∷ a₆ ∷ a₇ ∷ []
      → class_id < 2 ^ 16
      → func_id < 2 ^ 16
      → length junk ≡ header_size
      → length q ≤ length rest
      → length w.read_str ≡ websock_read_str_len
      → w.read_str_len ≤ websock_read_str_len
      → w.connection_closed ≡ false
      → length (header class_id func_id ++ q) ≤ websock_read_str_len - 56
      → length (client_frame m₀ m₁ m₂ m₃ (header class_id func_id ++ q)) ≢ kserver_read_str_len
      → d.content w.socket ≡ client_frame m₀ m₁ m₂ m₃ (header class_id func_id ++ q) ++ after
      → (w' : WebSocket S) × (read_command read fuel id (new_command junk rest) w
          ≡ done (pos header_size, received_command class_id func_id id junk rest q, w'))
        × (d.content w'.socket ≡ after)
  read_command-eight m₀ m₁ m₂ m₃ a₀ a₁ a₂ a₃ a₄ a₅ a₆ a₇ class_id func_id id q junk rest after w e c
        f j r full len open₀ limit o content =
      let bytes = a₀ ∷ a₁ ∷ a₂ ∷ a₃ ∷ a₄ ∷ a₅ ∷ a₆ ∷ a₇ ∷ [] in
      let body = masked m₀ m₁ m₂ m₃ (bytes ++ q) in
      let start = frame_start (length body) in
      let size : length body ≡ length (bytes ++ q) = length-masked m₀ m₁ m₂ m₃ (bytes ++ q) in
      let same : length (header class_id func_id ++ q) ≡ length (bytes ++ q) =
        ap (λ (xs : List ℕ). length (xs ++ q)) e in
      let frame : client_frame m₀ m₁ m₂ m₃ (header class_id func_id ++ q)
          ≡ start ++ (m₀ ∷ m₁ ∷ m₂ ∷ m₃ ∷ body) =
        ap (λ (xs : List ℕ). client_frame m₀ m₁ m₂ m₃ (xs ++ q)) e
        ∙ ap (λ (n : ℕ). frame_start n ++ (m₀ ∷ m₁ ∷ m₂ ∷ m₃ ∷ body)) (sym size) in
      let whole : client_frame m₀ m₁ m₂ m₃ (header class_id func_id ++ q) ++ after
          ≡ start ++ (m₀ ∷ m₁ ∷ m₂ ∷ m₃ ∷ (body ++ after)) =
        ap (λ (xs : List ℕ). xs ++ after) frame
        ∙ append_assoc start (m₀ ∷ m₁ ∷ m₂ ∷ m₃ ∷ body) after in
      let (w', tail, run, h, behind, open₁, head, offset, payload) =
        read_stream-frame read d fuel (omega arith) m₀ m₁ m₂ m₃ body after w full len open₀
          (omega arith) (omega arith)
          (λ at_end.
            o (ap length frame ∙ (length-append start (m₀ ∷ m₁ ∷ m₂ ∷ m₃ ∷ body) ∙ omega arith)))
          (content ∙ whole) in
      let filled : Buffer = record { bytes = fill rest q; position = 0 } in
      let decoded =
        decode-frame start m₀ m₁ m₂ m₃ a₀ a₁ a₂ a₃ a₄ a₅ a₆ a₇ q tail w' (new_command junk rest) h
          offset head (payload ∙ ap pos size) j r in
      (
        w',
        read_command-done read fuel (new_command junk rest)
            (with_payload bytes q (new_command junk rest)) w w' open₀ run decoded (length body) id
            (received_command class_id func_id id junk rest q) payload (omega arith) (omega arith)
            open₁
            (ap (λ (xs : List ℕ). decode_header id (with_payload xs q (new_command junk rest)))
                (sym e)
              ∙ decode_header-header class_id func_id id
                  (record (new_command junk rest) { payload = filled }) c f),
        behind,
      )

  -- What one server builds, another's WebSocket session receives from a client that frames and
  -- masks it: from a socket that delivers such a frame of a command, `read_command` returns 8 and
  -- takes the class and the function, the command's payload buffer starts with the arguments, and
  -- nothing behind the frame is read. This is for commands within the limits of `build_command`, of
  -- the frames and of the buffer, and for a frame that does not end at 16384 bytes.
  pub read_command-client_frame :
      (m₀ m₁ m₂ m₃ class_id func_id : ℕ) (args : List Arg) (ser : Serializer)
      (buffer built : List ℕ) (id : ℤ) (junk rest after : List ℕ) (w : WebSocket S)
      → class_id < 2 ^ 16
      → func_id < 2 ^ 16
      → runs_fit (length ser.scal_data) 0 args ≡ true
      → AreSized args
      → Option.map (λ st. st.1) (build_command class_id func_id args (ser, buffer)) ≡ some built
      → length junk ≡ header_size
      → length (payload args) ≤ length rest
      → length w.read_str ≡ websock_read_str_len
      → w.read_str_len ≤ websock_read_str_len
      → w.connection_closed ≡ false
      → length built ≤ websock_read_str_len - 56
      → length (client_frame m₀ m₁ m₂ m₃ built) ≢ kserver_read_str_len
      → d.content w.socket ≡ client_frame m₀ m₁ m₂ m₃ built ++ after
      → (w' : WebSocket S) × (read_command read fuel id (new_command junk rest) w
          ≡ done
              (pos header_size, received_command class_id func_id id junk rest (payload args), w'))
        × (d.content w'.socket ≡ after)
  read_command-client_frame m₀ m₁ m₂ m₃ class_id func_id args ser buffer built id junk rest after w
        c f fits sizes b j r full len open₀ limit o content =
      let wire : built ≡ header class_id func_id ++ payload args =
        some-injective _ _
          (sym b ∙ build_command-eq-wire class_id func_id args ser buffer fits sizes) in
      let (a₀, a₁, a₂, a₃, a₄, a₅, a₆, a₇, e) =
        eight_bytes (header class_id func_id)
          (length-encode header_types (0, (class_id, (func_id, tt)))) in
      read_command-eight m₀ m₁ m₂ m₃ a₀ a₁ a₂ a₃ a₄ a₅ a₆ a₇ class_id func_id id (payload args) junk
        rest after w e c f j r full len open₀
        (subst (λ xs. length xs ≤ websock_read_str_len - 56) wire limit)
        (subst (λ xs. length (client_frame m₀ m₁ m₂ m₃ xs) ≢ kserver_read_str_len) wire o)
        (content ∙ ap (λ (xs : List ℕ). client_frame m₀ m₁ m₂ m₃ xs ++ after) wire)
