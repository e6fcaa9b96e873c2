-- ===== src/Game/GameClient.antt =====
-- The messages that the game client of MMO_Game/src/MMO_Client.cpp gets and sends. `none` is a
-- read outside a message's body. The numbers that it puts in its own description are parameters.
pub mod Joining
pub mod Following
mod Tests
use networking_projects.Prelude.{
  ◌>>=◌, ℕ, Bool, false, List, [], ◌∷◌, Option, none, some, ◌==◌, if◌then◌else◌,
}
use networking_projects.Message.{Message, empty, push, pull}
use networking_projects.Client
use networking_projects.Client.{Client}
use networking_projects.Game.Common.{
  GameMsg, PlayerDescription, client_accepted, client_assign_id, client_register_with_server,
  game_add_player, game_remove_player, game_update_player,
}
use networking_projects.Game.GameServer.{GamePlatform, find, insert_or_assign, erase}

pub record GameClient (F : Type 0) : Type 0 where
  pub interface : Client GameMsg
  pub map_objects : List (ℕ × PlayerDescription F)
  pub player_id : ℕ
  pub desc_player : PlayerDescription F
  pub waiting_for_connection : Bool

module _ {F : Type 0} (platform : GamePlatform F) (three zero_yaw : F) where
  -- `descPlayer` at the start of the game.
  abbrev pub placed : PlayerDescription F → PlayerDescription F
  placed d = record d {
    pos = record { x = three; y = three };
    bullet_pos = record { x = three; y = three };
    yaw = zero_yaw;
  }

  unfoldable pub on_accepted : GameClient F → GameClient F
  on_accepted g =
      let desc = placed g.desc_player in
      let msg = push platform.desc (empty client_register_with_server) desc in
      record g { interface = Client.send platform.base g.interface msg; desc_player = desc }

  unfoldable pub on_assign_id : GameClient F → Message GameMsg → Option (GameClient F)
  on_assign_id g msg = do (rest, id) ← pull platform.id msg; some (record g { player_id = id })

  unfoldable pub on_add_player : GameClient F → Message GameMsg → Option (GameClient F)
  on_add_player g msg = do
    (rest, desc) ← pull platform.desc msg
    some (record g {
      map_objects = insert_or_assign desc.unique_id desc g.map_objects;
      waiting_for_connection =
          if desc.unique_id == g.player_id then false else g.waiting_for_connection;
    })

  unfoldable pub on_remove_player : GameClient F → Message GameMsg → Option (GameClient F)
  on_remove_player g msg = do
    (rest, id) ← pull platform.id msg
    some (record g { map_objects = erase id g.map_objects })

  unfoldable pub on_update_player : GameClient F → Message GameMsg → Option (GameClient F)
  on_update_player g msg = do
    (rest, desc) ← pull platform.desc msg
    some (record g { map_objects = insert_or_assign desc.unique_id desc g.map_objects })

  react : GameClient F → Message GameMsg → GameMsg → Option (GameClient F)
  react g msg client_accepted = some (on_accepted g)
  react g msg client_assign_id = on_assign_id g msg
  react g msg game_add_player = on_add_player g msg
  react g msg game_remove_player = on_remove_player g msg
  react g msg game_update_player = on_update_player g msg
  react g msg unhandled = some g

  unfoldable pub update_client_state : GameClient F → Message GameMsg → Option (GameClient F)
  unfolding react
  update_client_state g msg = react g msg msg.header.id

  unfoldable pub player_update : PlayerDescription F → Message GameMsg
  player_update d = push platform.desc (empty game_update_player) d

  -- `mapObjects[nPlayerID]` makes the object, as `fresh`, when it is not there.
  unfoldable pub send_player_description : PlayerDescription F → GameClient F → GameClient F
  unfolding player_update
  send_player_description fresh g = elim (find g.player_id g.map_objects) [
    | none ↦ record g {
      map_objects = insert_or_assign g.player_id fresh g.map_objects;
      interface = Client.send platform.base g.interface (player_update fresh);
    }
    | some d ↦ record g { interface = Client.send platform.base g.interface (player_update d) }
  ]

  -- The loop of `OnUserUpdate` over what is in the incoming queue.
  unfoldable pub update_all : GameClient F → List (Message GameMsg) → Option (GameClient F)
  update_all g [] = some g
  update_all g (msg ∷ msgs) = update_client_state g msg >>= λ g'. update_all g' msgs
