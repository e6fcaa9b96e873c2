-- ===== src/Game.antt =====
-- The game of MMO_Game: what its messages mean (MMO_Game/include/MMO_Common.h), the server, and the
-- client with its map, its movement and its screen.
pub mod Common
pub mod Numbers
pub mod World
pub mod Movement
pub mod Control
pub mod Screen
pub mod GameServer
pub mod GameClient
pub mod Players
pub mod Frame
pub mod Sample
