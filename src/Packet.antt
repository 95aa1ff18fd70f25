-- ===== src/Packet.antt =====
-- src/packet: the packets that the server sends, and how they are written.
pub mod Format
pub mod Body
pub mod Food
pub mod Entry
pub mod Rotation
pub mod Debug
pub mod Wire
pub mod Read
