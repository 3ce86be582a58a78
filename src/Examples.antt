-- ===== src/Examples.antt =====
-- The theorems at concrete inputs, with sockets that are functions on lists of bytes.
pub mod Sockets
mod Wire
pub mod Reception
pub mod Management
mod Frames
mod Files
mod Devices
mod Listener
mod Server
mod Handshake
mod Signals
mod SysLog
mod Transport
mod Threads
