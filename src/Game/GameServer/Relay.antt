-- ===== src/Game/GameServer/Relay.antt =====
-- An update of a player's state is passed on to the other players.
use networking_projects.Prelude.{◌>>=◌, ℕ, ◌≡◌, ap, ◌∙◌, [], ◌++◌, Option, some}
use networking_projects.Message.{Message}
use networking_projects.Server.Broadcast.{
  recipients, survivors, reports, sends_to, message_all_clients_lem,
}
use networking_projects.Game.Common.{GameMsg, game_update_player}
use networking_projects.Game.GameServer.{
  GamePlatform, GameServer, hooks, collect, collect_garbage, handle, on_message,
}

module _ {F : Type 0} (platform : GamePlatform F) where
  open platform use {base}

  pub nothing_to_collect :
      (s : GameServer platform) → s.user.garbage_ids ≡ [] → collect_garbage platform s ≡ some s
  unfolding collect_garbage
  nothing_to_collect s e = ap (collect platform s) e

  -- With no departed players to announce, an update is posted, byte for byte as it came, to every
  -- connected client but the one that it came from, in the container's order; clients that are no
  -- longer connected leave the container and are reported; nothing else changes.
  pub on_message_update :
      (s : GameServer platform) (client : Option ℕ) (msg : Message GameMsg)
      → s.user.garbage_ids ≡ []
      → msg.header.id ≡ game_update_player
      → on_message platform s client msg
        ≡ some (record s {
          posted =
              s.posted
              ++ sends_to base
                  (hooks platform)
                  msg
                  (recipients base (hooks platform) s.heap client s.connections);
          user = reports base (hooks platform) s.heap s.user s.connections;
          connections = survivors base (hooks platform) s.heap s.connections;
        })
  unfolding on_message
  on_message_update s client msg e f =
      ap (λ o. o >>= λ t. handle platform t client msg msg.header.id) (nothing_to_collect s e)
      ∙ ap (handle platform s client msg) f
      ∙ ap some (message_all_clients_lem base (hooks platform) s msg client)
