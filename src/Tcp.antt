-- ===== src/Tcp.antt =====
-- core/kserver_session.cpp and core/kserver_session.hpp: the TCP session's input and output. The
-- Unix socket session inherits them.
pub mod Receive
pub mod Session
