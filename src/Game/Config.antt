-- ===== src/Game/Config.antt =====
-- src/game/config.h and the constants of `class Snake` in src/game/snake.h.
use slitherss.Prelude.{ℕ, ◌*◌, ◌/◌, ◌-◌}

-- What the command line sets of the world.
pub record WorldConfig : Type 0 where
  pub bots : ℕ
  pub snake_average_length : ℕ
  pub snake_min_length : ℕ

abbrev pub game_radius : ℕ
game_radius = 21600

abbrev pub max_snake_parts : ℕ
max_snake_parts = 411

abbrev pub sector_size : ℕ
sector_size = 300

-- 144
abbrev pub sector_count_along_edge : ℕ
sector_count_along_edge = 2 * game_radius / sector_size

abbrev pub death_radius : ℕ
death_radius = game_radius - sector_size

abbrev pub sector_diag_size : ℕ
sector_diag_size = 425

abbrev pub move_step_distance : ℕ
move_step_distance = 42

abbrev pub frame_time_ms : ℕ
frame_time_ms = 8

abbrev pub protocol_version : ℕ
protocol_version = 8
