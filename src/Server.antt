-- ===== src/Server.antt =====
-- src/server: the buffer of outgoing packets, the sending of them, and the game server.
pub mod Buffer
pub mod Send
pub mod Maps
pub mod Game
pub mod Config
pub mod Main
