-- ===== src/Game.antt =====
-- src/game: the world, its sectors, the snakes and the food.
pub mod Config
pub mod Math
pub mod Sector
pub mod BoundBox
pub mod Snake
pub mod Feed
pub mod Move
pub mod Random
pub mod Spawn
pub mod Death
pub mod Tick
pub mod Collide
pub mod World
