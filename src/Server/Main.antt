-- ===== src/Server/Main.antt =====
-- src/server/main.cc, and GameServer::Run of src/server/game.cc with the calls of its endpoint. The
-- endpoint of websocketpp is a parameter: `run` is its loop, which calls the handlers.
pub mod Starts
use slitherss.Prelude.{ℕ, Bool, true, false, ◌&&◌, List, ltb, ◌==◌, if◌then◌else◌}
use slitherss.Float.{Float}
use slitherss.Game.Random.{Random}
use slitherss.Server.Config.{
  IncomingConfig, ProgramOptions, Launch, start, exit, throws, parse_command_line,
}
use slitherss.Server.Game.{Clock, Server}
use slitherss.Server.Game.Handlers

-- How the loop ends: by itself, by a websocketpp::exception, or by another
pub data LoopEnd : Type 0 where
  stopped websocketpp_exception other_exception : LoopEnd

-- The calls of listen and start_accept say whether they throw.
pub record Endpoint (F G : Type 0) : Type 0 where
  pub listen : ℕ → G → Bool × G
  pub start_accept : G → Bool × G
  pub run : Server F G → LoopEnd × Server F G

-- How the process ends: with what main returns or exit is given, or by an exception that nothing
-- catches or a signal
pub data Ending : Type 0 where
  code : ℕ → Ending
  terminated : Ending

-- Run makes each bot with a length that is drawn below snake_average_length: a remainder by 0, which
-- ends the process.
abbrev pub divides_by_zero : IncomingConfig → Bool
divides_by_zero config = ltb 0 config.world.bots && config.world.snake_average_length == 0

-- The handler of Run
abbrev pub catch_websocketpp : LoopEnd → Ending
catch_websocketpp stopped = code 0
catch_websocketpp websocketpp_exception = code 1
catch_websocketpp other_exception = terminated

module _ {F : Type 0} ⦃float : Float F⦄ {G : Type 0} ⦃clock : Clock G⦄ ⦃random : Random G⦄
    (endpoint : Endpoint F G) where
  -- GameServer::Run; that of Handlers is its middle, from World::Init to NextTick.
  unfoldable pub run_server : IncomingConfig → Server F G → Ending × Server F G
  run_server config srv =
      let heard = endpoint.listen config.port srv.outside in
      let accepting = endpoint.start_accept heard.1 in
      let begun = Handlers.run config.world config.debug (record srv { outside = accepting.1 }) in
      let ended = endpoint.run begun in
      if heard.0
      then (terminated, record srv { outside = heard.1 })
      else if accepting.0
      then (terminated, record srv { outside = accepting.1 })
      else if divides_by_zero config
      then (terminated, record srv { outside = accepting.1 })
      else (catch_websocketpp ended.0, ended.1)

  -- What main does with the command line: Run, or its end
  unfoldable pub launch : Launch → Server F G → Ending × Server F G
  unfolding run_server
  launch (start config) srv = run_server config srv
  launch (exit n) srv = (code n, srv)
  launch throws srv = (terminated, srv)

  -- main, for the server that `new GameServer()` makes
  unfoldable pub main : ProgramOptions → List (List ℕ) → Server F G → Ending × Server F G
  unfolding launch parse_command_line
  main options argv srv = launch (parse_command_line options argv) srv
