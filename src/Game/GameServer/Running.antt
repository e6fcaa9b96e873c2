-- ===== src/Game/GameServer/Running.antt =====
-- The program of MMO_Game/src/MMO_Server.cpp: the game's server, started, and its endless loop.
pub mod Steps
pub mod Identity
pub mod Tidy
pub mod Admission
mod Tests
mod Visits
use networking_projects.Prelude.{List, [], Option}
use networking_projects.Server.{new_server, start}
use networking_projects.Server.Running.{Happening, serve}
use networking_projects.Game.Common.{GameMsg}
use networking_projects.Game.GameServer.{GamePlatform, GameServer, hooks, on_message}

module _ {F : Type 0} (platform : GamePlatform F) where
  -- A server that nobody has joined.
  unfoldable pub new_game_server : GameServer platform
  new_game_server =
      new_server platform.base (hooks platform) (record { player_roster = []; garbage_ids = [] })

  -- `main`, cut off after these turns of its loop.
  unfoldable pub main : List (List (Happening GameMsg)) → Option (GameServer platform)
  unfolding new_game_server
  main turns =
      serve platform.base (hooks platform) (on_message platform)
        (start platform.base (hooks platform) new_game_server).0 turns
