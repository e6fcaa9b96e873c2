-- ===== src/Game/GameServer/Arrivals.antt =====
-- A registration among clients that are all connected, departures first.
use networking_projects.Prelude.{ℕ, ◌≡◌, ap, ◌∙◌, true, [], some, get_elem?}
use networking_projects.Message.{Message, pull}
use networking_projects.Connection.Types.{Connection}
use networking_projects.Game.Common.{GameMsg, PlayerDescription, client_register_with_server}
use networking_projects.Game.GameServer.{
  GamePlatform, GameServer, insert_or_assign, handle, on_message,
}
use networking_projects.Game.GameServer.Departures.{
  AreAlive, reports-alive, announced, on_message_departures,
}
use networking_projects.Game.GameServer.Register.{described, enrolled, registered, register-alive}

module _ {F : Type 0} (platform : GamePlatform F) where
  open platform use {desc}

  -- The server after a registration, departures first.
  abbrev pub registers :
      GameServer platform → ℕ → Connection GameMsg → PlayerDescription F → GameServer platform
  registers s p c d = registered platform (announced platform s) p c d

  pub on_message-registers :
      (s : GameServer platform) (p : ℕ) (c : Connection GameMsg) (msg rest : Message GameMsg)
      (d : PlayerDescription F)
      → AreAlive platform s.heap s.connections
      → msg.header.id ≡ client_register_with_server
      → get_elem? s.heap p ≡ some c
      → c.socket_open ≡ true
      → pull desc msg ≡ some (rest, d)
      → on_message platform s (some p) msg ≡ some (registers s p c d)
  unfolding handle
  on_message-registers s p c msg rest d alive is_registration at_p is_open pulled =
      on_message_departures platform s (some p) msg alive
      ∙ ap (handle platform (announced platform s) (some p) msg) is_registration
      ∙ register-alive platform (announced platform s) p c msg rest d at_p is_open pulled

  -- The roster when everybody of the container is connected.
  pub registers-roster :
      (s : GameServer platform) (p : ℕ) (c : Connection GameMsg) (d : PlayerDescription F)
      → AreAlive platform s.heap s.connections
      → (registers s p c d).user.player_roster
        ≡ insert_or_assign c.id (described platform c d) s.user.player_roster
  registers-roster s p c d alive =
      ap (λ u. u.player_roster)
        (reports-alive platform s.heap s.connections
          (enrolled platform (announced platform s).user c d) alive)

  pub registers-garbage :
      (s : GameServer platform) (p : ℕ) (c : Connection GameMsg) (d : PlayerDescription F)
      → AreAlive platform s.heap s.connections
      → (registers s p c d).user.garbage_ids ≡ []
  registers-garbage s p c d alive =
      ap (λ u. u.garbage_ids)
        (reports-alive platform s.heap s.connections
          (enrolled platform (announced platform s).user c d) alive)
