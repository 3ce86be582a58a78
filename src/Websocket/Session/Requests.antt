-- ===== src/Websocket/Session/Requests.antt =====
-- A request of a WebSocket client, from its frame to the arguments that a device takes.
use mathlib.Core.Option
use koheron_server.Base.{
  ℕ, ◌-◌, ◌^◌, ◌≤◌, ◌<◌, ◌≡◌, ◌≢◌, refl, some, List, [], ◌++◌, length, drop, ℤ, pos, true, false,
}
use koheron_server.Serializer.Command.{Arg, Serializer, build_command}
use koheron_server.Serializer.Command.Wire.{payload, runs_fit, AreSized}
use koheron_server.Buffer.{Command, new_command, header_size}
use koheron_server.Tcp.Receive.{ReadResult, Delivers}
use koheron_server.Websocket.Receive.{done, WebSocket, kserver_read_str_len, websock_read_str_len}
use koheron_server.Websocket.Receive.Client.{client_frame}
use koheron_server.Websocket.Receive.Decode.{read_command}
use koheron_server.Websocket.Receive.Commands.{received_command, read_command-client_frame}
use koheron_server.Websocket.Session.Arguments.{ArgsFit, TakesAll, payload-TakesAll}

-- A command that a client builds as `build_command` does, frames and masks is received whole: from
-- a socket that delivers the frame, `read_command` returns 8 with the command's class as the device
-- and its function as the operation, every argument can then be taken from the command, in order,
-- and what follows the frame is left in the socket. The conditions are the limits of the parts: runs of
-- scalars that fit into the pack, containers of at most CMD_PAYLOAD_BUFFER_LEN bytes, a command of at
-- most WEBSOCK_READ_STR_LEN - 56 bytes that fits into the payload's buffer, and a frame that does not
-- have KSERVER_READ_STR_LEN bytes.
pub client_frame-TakesAll :
    {S : Type 0} (read : S → ℕ → ReadResult × S) (d : Delivers read)
    (fuel m₀ m₁ m₂ m₃ class_id func_id : ℕ) (args : List Arg) (ser : Serializer)
    (buffer built : List ℕ) (id : ℤ) (junk rest after : List ℕ) (w : WebSocket S)
    → websock_read_str_len ≤ fuel
    → class_id < 2 ^ 16
    → func_id < 2 ^ 16
    → runs_fit (length ser.scal_data) 0 args ≡ true
    → AreSized args
    → ArgsFit args
    → Option.map (λ st. st.1) (build_command class_id func_id args (ser, buffer)) ≡ some built
    → length junk ≡ header_size
    → length (payload args) ≤ length rest
    → length w.read_str ≡ websock_read_str_len
    → w.read_str_len ≤ websock_read_str_len
    → w.connection_closed ≡ false
    → length built ≤ websock_read_str_len - 56
    → length (client_frame m₀ m₁ m₂ m₃ built) ≢ kserver_read_str_len
    → d.content w.socket ≡ client_frame m₀ m₁ m₂ m₃ built ++ after
    → (cmd : Command) × (w' : WebSocket S) × (read_command read fuel id (new_command junk rest) w
        ≡ done (pos header_size, cmd, w'))
      × (cmd.device ≡ class_id)
      × (cmd.operation ≡ pos func_id)
      × (cmd.sess_id ≡ id)
      × TakesAll args cmd (drop (length (payload args)) rest)
      × (d.content w'.socket ≡ after)
client_frame-TakesAll read d fuel m₀ m₁ m₂ m₃ class_id func_id args ser buffer built id junk rest
      after w enough c f runs sizes fit b j r full len open₀ limit o content =
    let (w', run, behind) =
      read_command-client_frame read d fuel enough m₀ m₁ m₂ m₃ class_id func_id args ser buffer
        built id junk rest after w c f runs sizes b j r full len open₀ limit o content in
    let cmd = received_command class_id func_id id junk rest (payload args) in
    (
      cmd,
      w',
      run,
      refl,
      refl,
      refl,
      payload-TakesAll args cmd (drop (length (payload args)) rest) fit
          (record { front = []; text = refl; place = refl }),
      behind,
    )
