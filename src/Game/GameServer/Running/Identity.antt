-- ===== src/Game/GameServer/Running/Identity.antt =====
-- The identifiers of the players, while the game's server runs.
use networking_projects.Prelude.{ℕ, ◌+◌, ◌^◌, ◌<◌, ◌≡◌, List, some, arith}
use networking_projects.Server.{new_server, start, wait_for_client_connection}
use networking_projects.Server.Identity.{IsNumbered, Numbered, tells-Numbered, tells_all-Numbered}
use networking_projects.Server.Running.{Happening}
use networking_projects.Server.Running.Identity.{IsFair, total, serve-Numbered}
use networking_projects.Game.Common.{GameMsg}
use networking_projects.Game.GameServer.{
  GamePlatform, GameServer, hooks, clear_garbage, enrol, on_message,
}
use networking_projects.Game.GameServer.Running.{main, new_game_server}
use networking_projects.Game.GameServer.Running.Steps.{Closed, on_message-Inv}

module _ {F : Type 0} (platform : GamePlatform F) where
  abbrev Fits : GameServer platform → ℕ → Type 0
  Fits = Numbered platform.base (hooks platform)

  closed : (n : ℕ) → Closed platform (λ s. Fits s n)
  unfolding enrol clear_garbage
  closed n = record {
    told = λ s client m h. tells-Numbered platform.base (hooks platform) s client m n h;
    all_told = λ s m ignore h. tells_all-Numbered platform.base (hooks platform) s m ignore n h;
    enrolled = λ s id desc nobody itself h. h;
    cleared = λ s h. h;
  }

  on_message-IsFair : IsFair platform.base (hooks platform) (on_message platform)
  on_message-IsFair s t client m n e h = on_message-Inv platform (closed n) s t client m e h

  -- Whatever asio reports to the acceptor and to the connections, in any order and between any calls of
  -- `Update`, so long as fewer things happen than the counter has numbers left, the server that the
  -- program's turns leave, when they are defined, has no null pointer among its connections, and their
  -- identifiers are at least 10000, strictly rising and below the counter: no two players share one.
  pub main-IsNumbered :
      (turns : List (List (Happening GameMsg))) (t : GameServer platform)
      → main platform turns ≡ some t
      → 10000 + total turns < 2 ^ 32
      → IsNumbered platform.base (hooks platform) t
  unfolding main new_game_server new_server start wait_for_client_connection
  main-IsNumbered turns t e small =
      serve-Numbered platform.base (hooks platform) (on_message platform) on_message-IsFair turns
        (start platform.base (hooks platform) (new_game_server platform)).0 t 10000 e
        (omega arith, omega arith) small
