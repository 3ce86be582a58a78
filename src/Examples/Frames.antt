-- ===== src/Examples/Frames.antt =====
-- Frames that are read and written.
use koheron_server.Base.{
  ℕ, ◌-◌, ◌≤◌, ◌≢◌, ◌++◌, drop, ◌≡◌, refl, false, List, [], ◌∷◌, arith, length, replicate,
  length-replicate, pos,
}
use koheron_server.Websocket.Receive.{
  WebSocket, read_n_bytes, read_stream, websock_read_str_len, kserver_read_str_len, done, spinning,
}
use koheron_server.Websocket.Receive.Loop.{Post}
use koheron_server.Websocket.Receive.Safety.{
  IsReady, StreamRead, read_stream_safe, read_stream_total,
}
use koheron_server.Websocket.Receive.Limits.{read_n_bytes_spins}
use koheron_server.Websocket.Send.{Connection}
use koheron_server.Serializer.Scalar.{append}
use koheron_server.Serializer.Tuple.{encode}
use koheron_server.Serializer.Command.Wire.{header, payload, arg_bytes}
use koheron_server.Buffer.{Command, new_command, header_size}
use koheron_server.Websocket.Receive.Client.{client_frame}
use koheron_server.Websocket.Receive.Decode.{read_command}
use koheron_server.Websocket.Session.Arguments.{TakesAll}
use koheron_server.Websocket.Session.Requests.{client_frame-TakesAll}
use koheron_server.Examples.Reception.{
  two_args, small_pack, old_memory, two_args_fit, two_args_built,
}
use koheron_server.Examples.Sockets.{
  trickle-Delivers, trickle, trickle-Bounded, trickle-NeverFails, failing, failing-fails,
}

abbrev fresh : {S : Type 0} → S → ℕ → WebSocket S
fresh s read_bytes = record {
  socket = s;
  read_str = replicate websock_read_str_len 0;
  read_str_len = read_bytes;
  header = record {
    header_size = 0;
    mask_offset = 0;
    payload_size = pos 0;
    fin = false;
    masked = false;
    opcode = 0;
  };
  connection_closed = false;
}

-- A binary frame of three masked bytes.
abbrev frame : List ℕ
frame = 130 ∷ 131 ∷ 1 ∷ 2 ∷ 3 ∷ 4 ∷ 11 ∷ 22 ∷ 33 ∷ []

fresh-IsReady : IsReady (fresh frame 0)
fresh-IsReady = record { capacity = length-replicate {A = ℕ} websock_read_str_len 0; limit = refl }

read_stream_safe_example : Post (Unit {0}) StreamRead (read_stream trickle 20 (fresh frame 0))
read_stream_safe_example =
    read_stream_safe trickle 20 (fresh frame 0) trickle-Bounded fresh-IsReady (omega arith)

read_stream_total_example :
    Post ⊥ StreamRead (read_stream trickle websock_read_str_len (fresh frame 0))
read_stream_total_example =
    read_stream_total trickle (fresh frame 0) trickle-Bounded trickle-NeverFails fresh-IsReady
      (omega arith)

read_n_bytes_spins_example : read_n_bytes failing 10 (pos 6) (fresh tt 0) ≡ spinning
read_n_bytes_spins_example =
    read_n_bytes_spins failing 10 5 (fresh tt 0) failing-fails (omega arith)

abbrev open_connection : Connection (List ℕ)
open_connection = record { socket = 1 ∷ []; connection_closed = false }

-- The command of the TCP example, masked and in a frame, with a byte behind it.
abbrev command_bytes : List ℕ
command_bytes = header 3 7 ++ payload two_args

abbrev command_frame : List ℕ
command_frame = client_frame 11 22 33 44 command_bytes ++ 99 ∷ []

abbrev payload_memory : List ℕ
payload_memory = replicate 100 0

short_command : length command_bytes ≤ websock_read_str_len - 56
unfolding encode append payload arg_bytes
short_command = omega arith

no_end_at_limit : length (client_frame 11 22 33 44 command_bytes) ≢ kserver_read_str_len
unfolding encode append payload arg_bytes
no_end_at_limit e = absurd (omega arith)

enough_memory : length (payload two_args) ≤ length payload_memory
unfolding payload arg_bytes append
enough_memory = omega arith

client_frame-TakesAll_example :
    (cmd : Command) × (w' : WebSocket (List ℕ)) × (read_command trickle websock_read_str_len
        (pos 1)
        (new_command old_memory payload_memory)
        (fresh command_frame 0)
      ≡ done (pos header_size, cmd, w'))
    × (cmd.device ≡ 3)
    × (cmd.operation ≡ pos 7)
    × (cmd.sess_id ≡ pos 1)
    × TakesAll two_args cmd (drop (length (payload two_args)) payload_memory)
    × (w'.socket ≡ 99 ∷ [])
client_frame-TakesAll_example =
    client_frame-TakesAll trickle trickle-Delivers websock_read_str_len 11 22 33 44 3 7 two_args
      small_pack [] command_bytes (pos 1) old_memory payload_memory (99 ∷ [])
      (fresh command_frame 0) (omega arith) (omega arith) (omega arith) two_args_fit
      (tt, (omega arith, tt)) (omega arith, (omega arith, tt)) two_args_built refl enough_memory
      (length-replicate {A = ℕ} websock_read_str_len 0) (omega arith) refl short_command
      no_end_at_limit refl
