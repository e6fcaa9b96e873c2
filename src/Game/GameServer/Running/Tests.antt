-- ===== src/Game/GameServer/Running/Tests.antt =====
-- Two players come, and the first one's socket is closed.
use networking_projects.Prelude.{replicate, ◌≡◌, true, List, [], ◌∷◌, some, refl, arith, set}
use networking_projects.Queue
use networking_projects.Connection
use networking_projects.Connection.Types.{Connection, server}
use networking_projects.Server
use networking_projects.Server.Identity.{IsNumbered}
use networking_projects.Server.Running.{
  Happening, accepted, completed, close_posted, handle, happen, happen_all, serve,
}
use networking_projects.Game.Common.{GameMsg}
use networking_projects.Game.Sample.{game_sample}
use networking_projects.Game.GameServer.{GameServer, hooks, on_client_connect}
use networking_projects.Game.GameServer.Running.{main, new_game_server}
use networking_projects.Game.GameServer.Running.Admission.{Admits, happen_all-Admits}
use networking_projects.Game.GameServer.Running.Identity.{main-IsNumbered}

abbrev turns : List (List (Happening GameMsg))
turns = (accepted (some 7) ∷ accepted (some 9) ∷ completed 0 close_posted ∷ []) ∷ [] ∷ []

abbrev two_players : GameServer game_sample
two_players =
    Server.on_accept game_sample.base (hooks game_sample)
      (Server.on_accept game_sample.base (hooks game_sample)
        (Server.start game_sample.base (hooks game_sample) (new_game_server game_sample)).0
        (some (true, 7)))
      (some (true, 9))

-- A server end with the first identifier.
abbrev first : Connection GameMsg
first =
    (Connection.connect_to_client game_sample.base
      (Connection.new_connection game_sample.base server true 7) 10_000).0

abbrev after : GameServer game_sample
after = record two_players {
  heap = set two_players.heap 0 (Connection.close game_sample.base first);
}

ends : main game_sample turns ≡ some after
unfolding main new_game_server serve happen_all happen handle Server.on_accept Server.perform
    Server.update Queue.pop Queue.is_empty Server.start Server.new_server
    Server.wait_for_client_connection Connection.new_connection Connection.connect_to_client
    Connection.close Connection.write_validation Connection.read_validation on_client_connect
ends = refl

main-IsNumbered_example : IsNumbered game_sample.base (hooks game_sample) after
main-IsNumbered_example = main-IsNumbered game_sample turns after ends (omega arith)

-- An answer of eight zeros.
happen_all-Admits_example : Admits game_sample (new_game_server game_sample) 7 (replicate 8 0)
happen_all-Admits_example =
    happen_all-Admits game_sample (new_game_server game_sample) 7 (replicate 8 0)
