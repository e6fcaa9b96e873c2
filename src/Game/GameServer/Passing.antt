-- ===== src/Game/GameServer/Passing.antt =====
-- A message that is no registration, among clients that are all connected, departures first.
use networking_projects.Prelude.{ℕ, ◌≡◌, ◌≢◌, refl, ap, ◌∙◌, ◌++◌, some, Option}
use mathlib.Core.Path.{ap₂}
use networking_projects.Message.{Message}
use networking_projects.Server.Broadcast.{recipients, sends_to, message_all_clients_lem}
use networking_projects.Game.Common.{
  GameMsg, server_get_status, server_get_ping, client_accepted, client_assign_id,
  client_register_with_server, client_unregister_with_server, game_add_player, game_remove_player,
  game_update_player, other,
}
use networking_projects.Game.GameServer.{GamePlatform, GameServer, hooks, handle, on_message}
use networking_projects.Game.GameServer.Departures.{
  AreAlive, reports-alive, survivors-alive, announced, on_message_departures,
}

module _ {F : Type 0} (platform : GamePlatform F) where
  open platform use {base}

  -- Only registrations and updates are handled.
  pub handle-quiet :
      (s : GameServer platform) (client : Option ℕ) (msg : Message GameMsg) (id : GameMsg)
      → id ≢ client_register_with_server
      → id ≢ game_update_player
      → handle platform s client msg id ≡ some s
  unfolding handle
  handle-quiet s client msg client_register_with_server h h' = absurd (h refl)
  handle-quiet s client msg game_update_player h h' = absurd (h' refl)
  handle-quiet s client msg server_get_status h h' = refl
  handle-quiet s client msg server_get_ping h h' = refl
  handle-quiet s client msg client_accepted h h' = refl
  handle-quiet s client msg client_assign_id h h' = refl
  handle-quiet s client msg client_unregister_with_server h h' = refl
  handle-quiet s client msg game_add_player h h' = refl
  handle-quiet s client msg game_remove_player h h' = refl
  handle-quiet s client msg (other n) h h' = refl

  pub on_message-quiet :
      (s : GameServer platform) (client : Option ℕ) (msg : Message GameMsg)
      → AreAlive platform s.heap s.connections
      → msg.header.id ≢ client_register_with_server
      → msg.header.id ≢ game_update_player
      → on_message platform s client msg ≡ some (announced platform s)
  on_message-quiet s client msg alive h h' =
      on_message_departures platform s client msg alive
      ∙ handle-quiet (announced platform s) client msg msg.header.id h h'

  -- The server when an update has been passed on.
  abbrev pub passed : GameServer platform → Option ℕ → Message GameMsg → GameServer platform
  passed s client msg = record (announced platform s) {
    posted =
        (announced platform s).posted
        ++ sends_to base (hooks platform) msg
            (recipients base (hooks platform) s.heap client s.connections);
  }

  pub on_message-passed :
      (s : GameServer platform) (client : Option ℕ) (msg : Message GameMsg)
      → AreAlive platform s.heap s.connections
      → msg.header.id ≡ game_update_player
      → on_message platform s client msg ≡ some (passed s client msg)
  unfolding handle
  on_message-passed s client msg alive is_update =
      on_message_departures platform s client msg alive
      ∙ ap (handle platform (announced platform s) client msg) is_update
      ∙ ap some (
          message_all_clients_lem base (hooks platform) (announced platform s) msg client
          ∙ ap₂ (λ u cs. record (passed s client msg) { user = u; connections = cs })
              (reports-alive platform s.heap s.connections (announced platform s).user alive)
              (survivors-alive platform s.heap s.connections alive))
