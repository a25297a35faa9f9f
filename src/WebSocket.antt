-- ===== src/WebSocket.antt =====
-- The package autobahn/websocket.
pub mod Xor
pub mod Utf8
pub mod Conn
pub mod Frame
pub mod Send
pub mod Close
pub mod Message
pub mod Header
pub mod Receive
pub mod Process
pub mod Stream
pub mod Whole
pub mod Life
pub mod Run
mod Examples
