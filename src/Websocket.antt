-- ===== src/Websocket.antt =====
-- core/websocket.hpp and core/websocket.cpp: the frames of a WebSocket connection.
pub mod Receive
pub mod Send
pub mod Session
pub mod Handshake
