-- ===== src/Examples/Transport.antt =====
-- The arguments of a command from a socket and from a payload, and a command to a client.
use koheron_server.Base.{◌++◌, replicate, false, ℤ, arith}
use koheron_server.Serializer.Scalar.{append}
use koheron_server.Serializer.Tuple.{encode}
use koheron_server.Serializer.Command.{Arg, scalar}
use koheron_server.Serializer.Command.Wire.{header, payload, runs_fit, arg_bytes}
use koheron_server.Tcp.Session.{Output, opened}
use koheron_server.Websocket.Send.{Connection}
use koheron_server.Transport.Sending.{dispatch_send, carried, Tells, dispatch_send-Tells}
use koheron_server.Examples.Sockets.{accept_one, accept_one-Accepts}
use koheron_server.Base.{ℕ, ◌≡◌, refl, some, List, [], ◌∷◌, Bool, ltb}
use koheron_server.Serializer.Scalar.{uint8, uint16, extract}
use koheron_server.Serializer.Tuple.{deserialize}
use koheron_server.Buffer.{Command, new_command}
use koheron_server.Sessions.{unix, websock}
use koheron_server.Transport.{Request, tuple, string, vector, Item, values, bytes, perform_all}
use koheron_server.Transport.Items.{item, items}
use koheron_server.Transport.Agreement.{Holds, perform_all-items}
use koheron_server.Examples.Sockets.{trickle, trickle-Delivers}

abbrev small : ℕ → Bool
small n = ltb n 1000

-- A tuple of a uint16_t and a uint8_t, a string of two bytes and a vector of one uint16_t.
abbrev asked : List Request
asked = tuple (uint16 ∷ uint8 ∷ []) ∷ string ∷ vector 2 ∷ []

abbrev wire : List ℕ
wire = 1 ∷ 2 ∷ 3 ∷ 0 ∷ 0 ∷ 0 ∷ 2 ∷ 104 ∷ 105 ∷ 0 ∷ 0 ∷ 0 ∷ 2 ∷ 7 ∷ 8 ∷ 9 ∷ []

abbrev said : List Item
said =
    values (uint16 ∷ uint8 ∷ []) (258, (3, tt)) ∷ bytes (104 ∷ 105 ∷ []) ∷ bytes (7 ∷ 8 ∷ []) ∷ []

wire_says : items small asked wire ≡ some (said, 9 ∷ [])
unfolding items item deserialize extract
wire_says = refl

perform_all-items_example :
    (cmd' : Command) × (s' : List ℕ) × (perform_all trickle small [] unix asked
        (new_command [] [], wire)
      ≡ some (said, cmd', s'))
    × (s' ≡ 9 ∷ [])
perform_all-items_example =
    perform_all-items trickle trickle-Delivers small [] unix asked wire (new_command [] []) wire
      wire_says refl

over_websocket :
    (cmd' : Command) × (s' : List ℕ) × (perform_all trickle small [] websock asked
        (new_command [] wire, [])
      ≡ some (said, cmd', s'))
    × Holds trickle trickle-Delivers small [] websock (cmd', s') (9 ∷ [])
over_websocket =
    perform_all-items trickle trickle-Delivers small [] websock asked wire (new_command [] wire) []
      wire_says (record { front = []; text = refl; place = refl })

abbrev opened_output : Output
opened_output = record {
  send_buffer = [];
  dyn_ser = record { scal_data = replicate 8 0; scal_size = 0 };
  status = opened;
}

abbrev to_client : Connection (List ℕ)
to_client = record { socket = 1 ∷ []; connection_closed = false }

abbrev one_arg : List Arg
one_arg = scalar uint16 258 ∷ []

dispatch_send-Tells_example :
    (r : ℤ) × (o' : Output) × (c' : Connection (List ℕ)) × (dispatch_send accept_one websock 2 3
        one_arg
        (opened_output, to_client)
      ≡ some (r, o', c'))
    × Tells (1 ∷ []) (carried websock (header 2 3 ++ payload one_arg)) c'.socket r o'
unfolding encode append payload runs_fit arg_bytes
dispatch_send-Tells_example =
    dispatch_send-Tells accept_one accept_one-Accepts websock 2 3 one_arg opened_output to_client
      refl refl (tt, tt) (omega arith)
