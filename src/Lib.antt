-- ===== src/Lib.antt =====
-- Verification of the Koheron server, a TCP, Unix socket and WebSocket server that lets clients
-- call the operations of hardware devices.
--
-- The parts and how they interact. A listening channel accepts a client and has the session manager
-- create a session with an id. The session reads commands, each a header of 8 bytes with a device
-- and an operation and then the arguments, and gives them to the devices, which read the arguments
-- from the session and send commands back through it. A session can subscribe to a channel of the
-- log's PubSub, which sends events to every subscriber; deleting a session unsubscribes it. The
-- bytes of commands are built and read by the serializer, over WebSocket inside frames.
--
-- The files, and the code that each models:
--   Serializer/Scalar: core/serializer_deserializer.hpp, `size_of`, `append` and `extract`.
--   Serializer/Tuple: the same file, `required_buffer_size`, `serialize` and `deserialize`.
--     Prefix is about bytes that are not read.
--   Serializer/Command: the same file, `DynamicSerializer`; its state is the scalar pack and the
--     buffer. Serializer/Command/Wire has the bytes of a command without pack and buffer.
--   Buffer: core/commands.hpp, `Buffer` and `Command`.
--   Tcp/Receive: core/kserver_session.cpp, `rcv_n_bytes`.
--   Tcp/Session: core/kserver_session.cpp and core/kserver_session.hpp, `read_command`, `recv`,
--     `deserialize`, `write` and `send` of `Session<TCP>`; Commands, Containers and
--     Arguments have the proofs.
--   PubSub: core/pubsub.hpp and core/pubsub.tpp, with the subscribe request of
--     core/kserver_commands.cpp; Counts is about subscriptions, Emission about events.
--   Sessions: core/session_manager.hpp and core/session_manager.cpp; Pool is about the map,
--     Invariant about one operation, History about any sequence of operations, Spec about what the
--     manager promises without pool and reusable ids.
--     Threads has the sessions' threads and the main thread as a step relation on the manager,
--     Owners what holds under every order of their steps until the server ends, Shutdown what an
--     order of the steps does then.
--   SysLog: core/syslog.hpp, core/syslog.tpp and core/string_utils.hpp, where a message goes, over
--     TCP and Unix sessions; Sends is about one send, Routes about messages, Failures about sends
--     that fail.
--   Transport: core/kserver_session.hpp, `SessionAbstract` and `Session<UNIX>`; Items says what the
--     bytes of a command mean, Sockets and Payloads what each kind of session reads from them,
--     Agreement that this is the same, and Sending is about commands to a client.
--   Peer: core/peer_info.hpp.
--   Websocket/Receive and Websocket/Send: core/websocket.cpp and core/websocket.hpp, frames.
--     Receive/Loop and Receive/Safety have the bounds, Receive/Limits the limits of the reading
--     loop, Receive/Decode the unmasking and `Session<WEBSOCK>::read_command`. Receive/Client has
--     the frames of a client, which Delivery, Frames, Streams, Masks and Commands follow through
--     the code.
--   Websocket/Session: core/kserver_session.hpp, what `Session<WEBSOCK>` takes from a command's
--     payload; Arguments is about the arguments, Requests about a whole request.
--   Run: core/kserver_session.hpp, `Session::run`; the socket and the devices are a state with
--     functions, and `Observed` says what each of them does to what is counted;
--     Sockets is about how a session begins and ends on its socket.
--   Devices: core/devices_manager.hpp and core/devices_manager.cpp; Start is about devices that
--     need others, Order about the order in which devices are made, and cycles.
--   Websocket/Handshake: core/websocket.cpp, the HTTP request and its answer.
--   Listener: core/listening_channel.cpp and `ListeningChannel` of core/kserver.hpp, opening and
--     closing; Threads has the accepting thread and the sessions' threads as a step relation,
--     Schedule what holds under every order of their steps, Races what some orders do, and Setup is
--     about descriptors.
--   Server: core/kserver.cpp, the construction, the loop and the end of the server, which Life is
--     about; Server/Notify: the same file, `notify_systemd_ready`; Server/Requests: core/kserver_commands.cpp, its own operations, with the proofs in
--     Answers and Subscription.
--   Signals: core/signal_handler.cpp; Delivery is about the flag, Backtrace about lines of a backtrace,
--     Crash about what a crash logs.
--   Main: core/main.cpp.
--   Config: core/config.hpp and core/config.cpp; Kept and Load are about whole files.
--   Base: Boolean tests, lists and C++ integers over the native numbers. Examples: concrete inputs.
--
-- Conventions. Memory is a list of bytes, and uninitialised memory an argument. An access past the
-- end of a buffer gives `none` or `overrun`. An int result is a value of ℤ, and -1 is `minus_one`.
-- A socket is a state with a function for the system call `read` or `write`; what a socket promises
-- is a hypothesis (`Bounded`, `Delivers`, `NeverFails`, `Accepts`). Unsigned counters wrap by a
-- written remainder. Messages to the log are left out, except in
-- SysLog. A mutex makes an operation one step; what a
-- subscription, which holds none, leaves in the subscribers is any in Sessions/Threads.
--
-- Fuel. `rcv_n_bytes` for n bytes takes n + 1 rounds, since each round stores a byte at least.
-- `send_request` takes a round for each byte and one more. `read_n_bytes` takes its fuel as an
-- argument, since a socket whose `read` fails keeps it in its loop. `print` takes the depth to
-- which messages are about messages. `alloc_device` takes the depth to which devices need each
-- other, and the theorems a rank of the devices below it. `run` takes more rounds than the client
-- has commands to send.
--
-- Not modelled: the messages that other parts log, which are output, and the log's WebSocket
-- subscribers; the times of a session; the context, which the user writes; sha1, base64 and gason,
-- which are third-party code; the devices, which the build generates.
pub mod Base
pub mod Serializer
pub mod Buffer
pub mod Tcp
pub mod PubSub
pub mod Sessions
pub mod SysLog
pub mod Websocket
pub mod Peer
pub mod Transport
pub mod Devices
pub mod Run
pub mod Listener
pub mod Server
pub mod Signals
pub mod Config
pub mod Main
pub mod Examples
