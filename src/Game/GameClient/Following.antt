-- ===== src/Game/GameClient/Following.antt =====
-- One client's update of its player, at another client.
use networking_projects.Prelude.{◌>>=◌, ◌≡◌, refl, ap, true, [], ◌∷◌, ◌++◌, some}
use networking_projects.Message.{empty, push}
use networking_projects.Message.Laws.{pull-push}
use networking_projects.Connection.{send}
use networking_projects.Connection.Types.{post_send}
use networking_projects.Client
use networking_projects.Game.Common.{PlayerDescription, game_update_player}
use networking_projects.Game.GameServer.{GamePlatform, find, insert_or_assign}
use networking_projects.Game.GameServer.Maps.{find-insert_or_assign}
use networking_projects.Game.GameClient.{
  GameClient, on_update_player, update_client_state, player_update, send_player_description,
}

module _ {F : Type 0} (platform : GamePlatform F) (three zero_yaw : F) where
  open platform use {base, desc}

  -- Another client holds the description under its identifier once it has got the message, and is
  -- otherwise as it was.
  abbrev pub Follows : GameClient F → PlayerDescription F → Type 0
  Follows b d =
      (b' : GameClient F) × (update_client_state platform three zero_yaw b
          (player_update platform three zero_yaw d)
        ≡ some b')
      × (b' ≡ record b { map_objects = insert_or_assign d.unique_id d b.map_objects })
      × (find d.unique_id b'.map_objects ≡ some d)

  follows : (b : GameClient F) (d : PlayerDescription F) → desc.IsValue d → Follows b d
  unfolding update_client_state on_update_player player_update push empty
  follows b d v = (
    record b { map_objects = insert_or_assign d.unique_id d b.map_objects },
    ap
        (λ o. o >>= λ (rest, e).
          some (record b { map_objects = insert_or_assign e.unique_id e b.map_objects }))
        (pull-push desc (empty game_update_player) d refl v),
    refl,
    find-insert_or_assign d.unique_id d b.map_objects,
  )

  -- A connected client that has its own player posts one message, which tells the player's
  -- description, and changes nothing else; any client that gets that message, when the numbers in
  -- the description lie in the ranges of their types, holds the description under its identifier.
  pub send_player_description-Follows :
      (fresh : PlayerDescription F) (a b : GameClient F) (d : PlayerDescription F)
      → Client.is_connected base a.interface ≡ true
      → find a.player_id a.map_objects ≡ some d
      → desc.IsValue d
      → (send_player_description platform three zero_yaw fresh a ≡ record a {
        interface = record (a.interface) {
          posted = a.interface.posted ++ post_send (player_update platform three zero_yaw d) ∷ [];
        };
      })
        × Follows b d
  unfolding send_player_description Client.send send
  send_player_description-Follows fresh a b d connected own v =
      (rw (own, send_player_description) (rw connected refl), follows b d v)
