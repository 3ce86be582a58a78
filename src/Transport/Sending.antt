-- ===== src/Transport/Sending.antt =====
-- `send` of core/kserver_session.hpp for sessions of any kind: what reaches the client.
use mathlib.Core.Option
use koheron_server.Base.{
  ℕ, zero, suc, ◌+◌, ◌≤◌, ◌<◌, ◌≡◌, refl, ap, ◌∙◌, Option, none, some, List, ◌++◌, arith, ltb, ◌==◌,
  length, take, ◌>>=◌, ℤ, pos, negsuc, Bool, true, false, take-length, subst, Bool-cases, inl, inr,
  length-append,
}
use koheron_server.Serializer.Scalar.{append}
use koheron_server.Serializer.Tuple.{encode}
use koheron_server.Serializer.Command.{Arg, Serializer, build_command}
use koheron_server.Serializer.Command.Wire.{
  header, payload, runs_fit, AreSized, build_command-eq-wire,
}
use koheron_server.Tcp.Session.{Output, closed, after_write, write as write_result}
use koheron_server.Tcp.Session as Tcp
use koheron_server.Websocket.Send.{
  Connection, set_send_header, binary_format, websock_send_buf_len, send_request,
}
use koheron_server.Websocket.Send as Frames
use koheron_server.Websocket.Send.Wire.{Accepts, Sent, whole, stalled, broken, send_request-Sent}
use koheron_server.Sessions.{Kind, tcp, unix, websock}

module _ {S : Type 0} (write : S → List ℕ → ℤ × S) where
  -- `Session<TCP>::send<class_id, func_id>(args...)`, with the socket behind the system call.
  abbrev send_socket : ℕ → ℕ → List Arg → Output × Connection S → Option (ℤ × Output × Connection S)
  send_socket class_id func_id args (o, c) =
      Tcp.send class_id func_id args (λ bits. (write c.socket bits).0) o >>= λ (r, o').
      some (r, o', record c { socket = (write c.socket o'.send_buffer).1 })

  -- `Session<WEBSOCK>::send<class_id, func_id>(args...)`
  abbrev send_frame : ℕ → ℕ → List Arg → Output × Connection S → Option (ℤ × Output × Connection S)
  send_frame class_id func_id args (o, c) =
      build_command class_id func_id args (o.dyn_ser, o.send_buffer) >>= λ (ser, buffer).
      Frames.send write buffer c >>= λ (r, c').
      some (r, after_write r (record o { send_buffer = buffer; dyn_ser = ser }), c')

  -- `SessionAbstract::send<class_id, func_id>(args...)`
  unfoldable pub dispatch_send :
      Kind → ℕ → ℕ → List Arg → Output × Connection S → Option (ℤ × Output × Connection S)
  dispatch_send tcp class_id func_id args st = send_socket class_id func_id args st
  dispatch_send unix class_id func_id args st = send_socket class_id func_id args st
  dispatch_send websock class_id func_id args st = send_frame class_id func_id args st

map-some :
    {A B : Type 0} (m : Option (A × B)) {b : B}
    → Option.map (λ p. p.1) m ≡ some b
    → (x : A) × (m ≡ some (x, b))
map-some none e = absurd (cc)
map-some (some (x, y)) e = (x, ap some (ap (λ (z : _). (x, z)) (cc)))

-- The bytes that carry a command over a session of the kind.
abbrev pub carried : Kind → List ℕ → List ℕ
carried tcp bits = bits
carried unix bits = bits
carried websock bits = set_send_header (length bits) binary_format ++ bits

-- What the result of a send says: if it is positive, all was written; if it is 0, the session is
-- marked as closed.
abbrev pub Tells : List ℕ → List ℕ → List ℕ → ℤ → Output → Type 0
Tells before bits after (pos zero) o = o.status ≡ closed
Tells before bits after (pos (suc n)) o = after ≡ before ++ bits
Tells before bits after (negsuc n) o = Unit {0}

module _ {S : Type 0} (write : S → List ℕ → ℤ × S) (a : Accepts write) where
  socket-Tells :
      (bits : List ℕ) (s : S) (o : Output) (answer : ℤ × S)
      → write s bits ≡ answer
      → let r = write_result (length bits) answer.0 in
        Tells (a.written s) bits (a.written answer.1) r (after_write r o)
  unfolding write_result
  socket-Tells bits s o (negsuc n, s') e = tt
  socket-Tells bits s o (pos zero, s') e = refl
  socket-Tells bits s o (pos (suc n), s') e = elim (Bool-cases (suc n == length bits)) [
    | inr part ↦ rw part tt
    | inl all ↦
        let same : length bits ≡ suc n = ground arith in
        let (le, more) = a.accepts s s' bits (suc n) e in
        rw (all, same)
          (more ∙ ap (◌++◌ (a.written s)) (subst (λ k. take k bits ≡ bits) same (take-length bits)))
  ]

  frame-Tells :
      (before bits after : List ℕ) (r : ℤ) (broken_off : Bool) (o : Output)
      → Sent before bits after r broken_off
      → Tells before bits after r (after_write r o)
  frame-Tells before bits after r b o (whole n e) = e
  frame-Tells before bits after r b o (stalled front rest split some_left e) = refl
  frame-Tells before bits after r b o (broken front rest split some_left e) = tt

  send_buffer-after_write : (r : ℤ) (o : Output) → (after_write r o).send_buffer ≡ o.send_buffer
  send_buffer-after_write (pos zero) o = refl
  send_buffer-after_write (pos (suc n)) o = refl
  send_buffer-after_write (negsuc n) o = refl

  module _ (class_id func_id : ℕ) (args : List Arg) (o : Output) (c : Connection S)
      (ser : Serializer) (wire : List ℕ)
      (built : build_command class_id func_id args (o.dyn_ser, o.send_buffer)
        ≡ some (ser, wire)) where
    -- What a send over the kind gives, by which bytes carry the command.
    abbrev Sends : Option (ℤ × Output × Connection S) → List ℕ → Type 0
    Sends given bits =
        (r : ℤ) × (o' : Output) × (c' : Connection S) × (given ≡ some (r, o', c'))
        × Tells (a.written c.socket) bits (a.written c'.socket) r o'

    send_socket-Tells : Sends (send_socket write class_id func_id args (o, c)) wire
    unfolding Tcp.send
    send_socket-Tells =
        let (answer, s') = write c.socket wire in
        let r = write_result (length wire) (write c.socket wire).0 in
        let o' = record o { send_buffer = wire; dyn_ser = ser } in
        (
          r,
          after_write r o',
          record c { socket = (write c.socket wire).1 },
          rw built (
              ap
                (λ (b : List ℕ).
                  some (r, after_write r o', record c { socket = (write c.socket b).1 }))
                (send_buffer-after_write r o')),
          socket-Tells wire c.socket o' (write c.socket wire) refl,
        )

    frame_sent :
        c.connection_closed ≡ false
        → length wire + 10 ≤ websock_send_buf_len
        → Frames.send write wire c
          ≡ send_request write (set_send_header (length wire) binary_format ++ wire) c
    unfolding Frames.send
    frame_sent is_open room =
        let fits : ltb websock_send_buf_len (length wire + 10) ≡ false = ground arith in
        rw (is_open, fits) refl

    send_frame-Tells :
        c.connection_closed ≡ false
        → 0 < length wire
        → length wire + 10 ≤ websock_send_buf_len
        → Sends (send_frame write class_id func_id args (o, c)) (carried websock wire)
    send_frame-Tells is_open some_wire room =
        let bits = set_send_header (length wire) binary_format ++ wire in
        let o' = record o { send_buffer = wire; dyn_ser = ser } in
        let (r, c', run, how) =
          send_request-Sent write a bits c is_open
            (omega (arith, length-append (set_send_header (length wire) binary_format) wire)) in
        (
          r,
          after_write r o',
          c',
          rw (built, frame_sent is_open room, run) refl,
          frame-Tells (a.written c.socket) bits (a.written c'.socket) r c'.connection_closed o' how,
        )

  -- On an open connection, and over a session of any kind, `send` returns, and if its result is
  -- positive, then just the bytes of the command, the header and the arguments, were written behind
  -- what was written before, in a frame if the session is a WebSocket's; if it is 0, the session is
  -- marked as closed. This is for runs of scalars that fit into the pack, sizes that fit into a
  -- uint32_t and a command that fits into the buffer of WEBSOCK_SEND_BUF_LEN bytes.
  pub dispatch_send-Tells :
      (kind : Kind) (class_id func_id : ℕ) (args : List Arg) (o : Output) (c : Connection S)
      → c.connection_closed ≡ false
      → runs_fit (length o.dyn_ser.scal_data) 0 args ≡ true
      → AreSized args
      → length (header class_id func_id ++ payload args) + 10 ≤ websock_send_buf_len
      → (r : ℤ) × (o' : Output) × (c' : Connection S) × (dispatch_send write kind class_id func_id
            args
            (o, c)
          ≡ some (r, o', c'))
        × Tells
            (a.written c.socket)
            (carried kind (header class_id func_id ++ payload args))
            (a.written c'.socket)
            r
            o'
  unfolding dispatch_send encode append
  dispatch_send-Tells tcp class_id func_id args o c is_open fits sized room =
      let (ser, e) =
        map-some _
          (build_command-eq-wire class_id func_id args o.dyn_ser o.send_buffer fits sized) in
      send_socket-Tells class_id func_id args o c ser _ e
  dispatch_send-Tells unix class_id func_id args o c is_open fits sized room =
      let (ser, e) =
        map-some _
          (build_command-eq-wire class_id func_id args o.dyn_ser o.send_buffer fits sized) in
      send_socket-Tells class_id func_id args o c ser _ e
  dispatch_send-Tells websock class_id func_id args o c is_open fits sized room =
      let (ser, e) =
        map-some _
          (build_command-eq-wire class_id func_id args o.dyn_ser o.send_buffer fits sized) in
      send_frame-Tells class_id func_id args o c ser _ e is_open (omega arith) room
