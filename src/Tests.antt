-- ===== src/Tests.antt =====
-- The theorems at concrete inputs.
mod Game
mod Packet
mod Server
mod World
mod Play
mod Serving
mod Starting
