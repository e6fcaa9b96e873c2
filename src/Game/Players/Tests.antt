-- ===== src/Game/Players/Tests.antt =====
-- A game that a player has left and another one joins, while a third plays on.
use networking_projects.Prelude.{
  ℕ, ◌≡◌, refl, ap, ◌∙◌, true, false, List, [], ◌∷◌, ◌++◌, map, some, none, arith,
}
use networking_projects.Message.{Message, pull}
use networking_projects.Message.Laws.{sized, pull_append}
use networking_projects.Connection.{is_connected}
use networking_projects.Connection.Types.{Connection, server}
use networking_projects.Server.{can_talk}
use networking_projects.Game.Common.{
  GameMsg, PlayerDescription, server_get_status, client_register_with_server,
}
use networking_projects.Game.Sample.{game_sample, sample_player, sample_player-IsValue}
use networking_projects.Game.GameServer.{
  GameState, GameServer, find, erase, on_message, on_client_disconnect,
}
use networking_projects.Game.GameServer.Departures.{AreAlive}
use networking_projects.Game.GameClient.{GameClient, update_all, player_update}
use networking_projects.Game.Players.{players, put, leave}
use networking_projects.Game.Players.Command.{
  Command, come, change, go, apply_all, message_of, update_all-refines,
}
use networking_projects.Game.Players.Roster.{IsRoster}
use networking_projects.Game.Players.Inbox.{posted_to}
use networking_projects.Game.Players.Mirror.{Lags, Mirrors, on_client_disconnect-Lags}
use networking_projects.Game.Players.Mirror.Registration.{Fits, newcomer-Mirrors}
use networking_projects.Game.Players.Mirror.Passing.{update-reaches}

abbrev resident : Connection GameMsg
resident = record {
  socket_open = true;
  messages_out = record { items = [] };
  msg_temporary_in = sized server_get_status [];
  owner_type = server;
  handshake_out = 5;
  handshake_in = 0;
  handshake_check = 0;
  valid_handshake = true;
  connection_established = true;
  id = 10_001;
}

abbrev newcomer : Connection GameMsg
newcomer = record resident { id = 10_002 }

-- The player 10000 has left, and nobody has been told.
abbrev user : GameState ℕ
user = record { player_roster = (10_001, sample_player 10_001) ∷ []; garbage_ids = 10_000 ∷ [] }

abbrev state : GameServer game_sample
state = record {
  messages_in = record { items = [] };
  connections = some 0 ∷ some 1 ∷ [];
  id_counter = 10_003;
  accepting = true;
  running = true;
  heap = resident ∷ newcomer ∷ [];
  posted = [];
  user = user;
}

-- The newcomer's game, and the resident's.
abbrev fresh : GameClient ℕ
fresh = record {
  interface = record { connection = none; posted = []; running = true };
  map_objects = [];
  player_id = 0;
  desc_player = sample_player 0;
  waiting_for_connection = true;
}

abbrev playing : GameClient ℕ
playing = record fresh {
  map_objects = (10_000, sample_player 10_000) ∷ (10_001, sample_player 10_001) ∷ [];
  player_id = 10_001;
  waiting_for_connection = false;
}

abbrev sent : PlayerDescription ℕ
sent = sample_player 0

abbrev registration : Message GameMsg
registration = sized client_register_with_server (game_sample.desc.to_bytes sent)

abbrev header_only : Message GameMsg
header_only = sized client_register_with_server []

registration_pulled : pull game_sample.desc registration ≡ some (header_only, sent)
registration_pulled =
    pull_append game_sample.desc registration [] (game_sample.desc.to_bytes sent) refl
      (game_sample.desc.length-to_bytes sent)
    ∙ ap (λ (d : PlayerDescription ℕ). some (header_only, d))
        (game_sample.desc.of_bytes-to_bytes sent (sample_player-IsValue 0 (omega arith)))

state-AreAlive : AreAlive game_sample state.heap state.connections
unfolding can_talk is_connected
state-AreAlive = (refl, (refl, tt))

user-IsRoster : IsRoster user.player_roster
unfolding find
user-IsRoster = (refl, refl, tt)

state-Fits : Fits game_sample state newcomer sent
state-Fits = (
  (omega arith, tt),
  omega arith,
  sample_player-IsValue 10_002 (omega arith),
  (sample_player-IsValue 10_001 (omega arith), tt),
)

user-Lags : Lags user playing
unfolding leave erase
user-Lags = refl

newcomer-Mirrors_example :
    (t : GameServer game_sample) × (on_message game_sample state (some 1) registration ≡ some t)
    × (t.user.garbage_ids ≡ [])
    × (g' : GameClient ℕ) × Mirrors game_sample 3 0 1 state t fresh g'
    × (g'.player_id ≡ newcomer.id)
    × (g'.waiting_for_connection ≡ false)
newcomer-Mirrors_example =
    newcomer-Mirrors game_sample 3 0 state 1 newcomer registration header_only sent fresh
      state-AreAlive refl refl refl refl registration_pulled user-IsRoster state-Fits refl

update-reaches_example :
    (t : GameServer game_sample) × (on_message game_sample state
        (some 1)
        (player_update game_sample 3 0 (sample_player 10_002))
      ≡ some t)
    × (t.user ≡ record { player_roster = state.user.player_roster; garbage_ids = [] })
    × (news : List (Message GameMsg)) × (posted_to 0 t.posted ≡ posted_to 0 state.posted ++ news)
    × (g' : GameClient ℕ) × (update_all game_sample 3 0 playing news ≡ some g')
    × (players g'.map_objects
        ≡ put 10_002 (sample_player 10_002) (players state.user.player_roster))
update-reaches_example =
    update-reaches game_sample 3 0 state (some 1) 0 (sample_player 10_002) playing state-AreAlive
      refl refl (omega arith, tt) (sample_player-IsValue 10_002 (omega arith)) user-Lags

another_departure : Lags (on_client_disconnect game_sample user (some resident)) playing
another_departure = on_client_disconnect-Lags game_sample user (some resident) playing user-Lags

abbrev commands : List (Command ℕ)
commands = come (sample_player 10_002) ∷ change (sample_player 10_001) ∷ go 10_000 ∷ []

three_commands :
    (g' : GameClient ℕ) × (update_all game_sample 3 0 playing
        (map (message_of game_sample 3 0) commands)
      ≡ some g')
    × (players g'.map_objects ≡ apply_all commands (players playing.map_objects))
    × (g'.player_id ≡ playing.player_id)
three_commands = update_all-refines game_sample 3 0 commands playing (
  sample_player-IsValue 10_002 (omega arith),
  (sample_player-IsValue 10_001 (omega arith), (omega arith, tt)),
)
