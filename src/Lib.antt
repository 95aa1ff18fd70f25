-- ===== src/Lib.antt =====
-- slitherss, a server for slither.io in C++: a world of snakes on a grid of sectors, and the packets
-- by which the clients see it.
--
-- The world (src/game) is a square of 144 by 144 sectors. A sector keeps its food, sorted by x, and
-- the boxes of the snakes that reach into it. A snake keeps its parts from the head on, a box with the
-- sorted vector of the sectors that it is registered in, and a view port, the sectors that its client
-- knows. When a snake moves, both look for new sectors round the head and then drop those that they
-- left; what the view port gains and loses is sent. The snake eats the food round its head, which makes
-- it grow, and sheds parts as food when it speeds up. The server (src/server) writes each packet
-- (src/packet) into a stream buffer and sends the bytes.
--
-- Files and code:
--   Prelude        vectors as lists, tests, whole numbers, sorted vectors and their searches
--   Float          the operations of `float` and `double`, a parameter; whole numbers as an instance
--   Game/Config    src/game/config.h
--   Game/Math      src/game/math.h and math.cc; a float as its bits is a parameter
--   Game/Sector    src/game/food.h, and Sector and SectorSeq of src/game/sector.h and sector.cc
--   Game/BoundBox  BoundBox, SnakeBoundBox and ViewPort of the same files
--   Game/Snake     the state of src/game/snake.h, and growth and loss in src/game/snake.cc
--   Game/Feed      UpdateEatenFood of src/game/snake.cc
--   Game/Move      of Snake::Tick the turn and the loops over the parts
--   Game/Tick      Snake::Tick itself
--   Game/Random    std::rand, a parameter, and NextRandom of src/game/world.cc
--   Game/Spawn     a new snake: CreateSnake of src/game/world.cc, its boxes in src/game/snake.cc
--   Game/Death     the food of a dead snake, and the score
--   Game/Collide   Snake::Intersect
--   Game/World     src/game/world.h and world.cc: Frame a step of time, Create the first food and snakes
--   Packet         src/packet: Format the bytes of numbers, Wire all packets as one type, Read readers
--   Server/Buffer  src/server/streambuf_array.h
--   Server/Send    src/server/server.h
--   Server/Maps    std::map and std::unordered_map
--   Server/Game    src/server/game.h and game.cc: Update and Broadcast what a step of time sends, Draw
--                  the debug drawing, Handlers the events
--   Server/Config  ParseCommandLine: src/server/config.h and config.cc
--   Server/Main    src/server/main.cc, and the calls of the endpoint in GameServer::Run
--   Tests          the theorems at concrete inputs
-- The modules below one of these are named for what they prove. A function of the code keeps its name,
-- in small letters with underscores; an operator << is `put_` with the name of the packet.
--
-- Numbers: an unsigned integer of w bits is a natural number, with `% 2 ^ w` where the code can exceed
-- it; signed ones are whole numbers, and `long` times are not negative. `float` and `double` are one
-- type F with operations, of which no law is assumed; a constant is the quotient of two numbers.
-- Nothing is assumed of rounding.
--
-- Pointers: a `Sector *` is the index of the sector in SectorSeq, and the order of the pointers that of
-- the indices. A `BoundBox *` in a sector is the id of its snake. The functions that change sectors
-- take and return the vector of all sectors.
--
-- Loops: those over a vector are structural. That of UpdateBoxOldSectors, which removes while it runs,
-- has the length of the vector as fuel: each round passes an element or removes one.
-- The loops of UpdateEatenFood count down the pieces to the left and to the right.
--
-- What `std::ostream` writes is the list of the bytes that are put. The connections of websocketpp and
-- the stream buffer of boost are parameters of `send`. The generator and the clock are parameters over
-- one type G, all that is outside; a handle of a connection is a number.
--
-- The server keeps the list of what it asked the endpoint to send, and a flag that is set when the code
-- reads an iterator at the end or a pointer to a snake that is gone. A snake that BroadcastUpdates
-- changes through its pointer is put back into the map at the end of its round. An unordered_map is a
-- list in the order in which it is walked.
--
-- Where the behaviour of the code is not defined, the model goes on: a Sector * past the vector, as
-- UpdateEatenFood makes it for a head off the map, is passed over where it is read; so is the box of a
-- snake that is gone, in CheckSnakeBounds; and a remainder by 0, in NextRandom for an average length of
-- 0, is some number. Server/Main lets the process end where Run comes to that remainder.
--
-- The client of a connection is a function of the packets that came to it: Server/Game/Replay plays
-- them in order. Server/Game/Linked is about sessions and snakes, Server/Game/Watched about sectors.
--
-- boost::program_options and the endpoint are parameters: a parser that is given the options and writes
-- the configuration through them, and the calls of the endpoint, which may throw.
--
-- Not modelled: the TLS context, the options of sockets, WSPPServerConfig and the log, which are calls
-- of libraries; the loop of the endpoint, which calls the handlers; the prey packets, which have no
-- operator <<.
pub mod Prelude
pub mod Float
pub mod Game
pub mod Server
pub mod Packet
pub mod Tests
