-- ===== src/Game/Players/Mirror/Posts.antt =====
-- What a registration posts to the newcomer.
use networking_projects.Prelude.{ℕ, ◌≡◌, refl, [], ◌∷◌, ◌++◌, map, none, ==_refl}
use networking_projects.Connection.Types.{Connection}
use networking_projects.Game.Common.{GameMsg, PlayerDescription}
use networking_projects.Game.GameServer.{GamePlatform, GameServer, add_player, assign_id}
use networking_projects.Game.GameServer.Departures.{AreAlive, announced}
use networking_projects.Game.GameServer.Arrivals.{registers}
use networking_projects.Game.GameServer.Register.{described}
use networking_projects.Game.Players.Roster.{players_of}
use networking_projects.Game.Players.Inbox.{
  posted_to, posted_to-append_all, times, posted_to-introductions, posted_to-once,
}

module _ {F : Type 0} (platform : GamePlatform F) where
  open platform use {base}

  -- What the newcomer at `p` is posted.
  pub registers-newcomer :
      (s : GameServer platform) (p : ℕ) (c : Connection GameMsg) (d : PlayerDescription F)
      → AreAlive platform s.heap s.connections
      → times p s.connections ≡ 1
      → posted_to p (registers platform s p c d).posted
        ≡ posted_to p (announced platform s).posted
          ++ assign_id platform c.id
            ∷ add_player platform (described platform c d)
            ∷ map (add_player platform) (players_of (registers platform s p c d).user.player_roster)
  registers-newcomer s p c d alive once =
      posted_to-append_all p (announced platform s).posted _ _ _ (assign_id platform c.id ∷ []) _ _
        (rw (==_refl p) refl)
        (posted_to-once platform s.heap p none (add_player platform (described platform c d))
          s.connections refl alive once)
        (posted_to-introductions platform p (registers platform s p c d).user.player_roster)
