-- ===== src/Game/GameClient/Tests.antt =====
-- A client that is given the identifier 10000 and told of two other players.
use networking_projects.Prelude.{
  ℕ, ◌≡◌, true, false, List, [], ◌∷◌, ◌++◌, refl, map, some, none, All, arith,
}
use networking_projects.Message.Laws.{sized}
use networking_projects.Connection
use networking_projects.Connection.Types.{Connection, client, post_send}
use networking_projects.Client.{is_connected}
use networking_projects.Game.Common.{GameMsg, PlayerDescription, server_get_status}
use networking_projects.Game.Sample.{game_sample, sample_player, sample_player-IsValue}
use networking_projects.Game.GameServer.{assign_id, add_player, find, insert_or_assign}
use networking_projects.Game.GameClient.{
  GameClient, update_all, player_update, send_player_description,
}
use networking_projects.Game.GameClient.Following.{Follows, send_player_description-Follows}
use networking_projects.Game.GameClient.Joining.{enter_all, update_all-joins}

abbrev waiting : GameClient ℕ
waiting = record {
  interface = record { connection = none; posted = []; running = false };
  map_objects = [];
  player_id = 0;
  desc_player = sample_player 0;
  waiting_for_connection = true;
}

abbrev open_end : Connection GameMsg
open_end = record {
  socket_open = true;
  messages_out = record { items = [] };
  msg_temporary_in = sized server_get_status [];
  owner_type = client;
  handshake_out = 0;
  handshake_in = 0;
  handshake_check = 0;
  valid_handshake = false;
  connection_established = false;
  id = 0;
}

abbrev me : PlayerDescription ℕ
me = sample_player 10_000

abbrev others : List (PlayerDescription ℕ)
others = sample_player 10_001 ∷ sample_player 10_000 ∷ []

others-IsValue : All game_sample.desc.IsValue others
others-IsValue =
    (sample_player-IsValue 10_001 (omega arith), (sample_player-IsValue 10_000 (omega arith), tt))

player_joined :
    update_all game_sample 3 0 waiting (
      assign_id game_sample 10_000
      ∷ add_player game_sample me
      ∷ map (add_player game_sample) others)
    ≡ some (record waiting {
      player_id = 10_000;
      map_objects = enter_all others (insert_or_assign 10_000 me waiting.map_objects);
      waiting_for_connection = false;
    })
player_joined =
    update_all-joins game_sample 3 0 waiting me others (omega arith)
      (sample_player-IsValue 10_000 (omega arith)) others-IsValue

-- A connected client with its own player.
abbrev playing : GameClient ℕ
playing = record {
  interface = record { connection = some open_end; posted = []; running = true };
  map_objects = (10_000, me) ∷ [];
  player_id = 10_000;
  desc_player = me;
  waiting_for_connection = false;
}

own_player : find playing.player_id playing.map_objects ≡ some me
unfolding find
own_player = refl

is_open : is_connected game_sample.base playing.interface ≡ true
unfolding is_connected Connection.is_connected
is_open = refl

send_player_description-Follows_example :
    (send_player_description game_sample 3 0 (sample_player 0) playing ≡ record playing {
      interface = record (playing.interface) {
        posted = playing.interface.posted ++ post_send (player_update game_sample 3 0 me) ∷ [];
      };
    })
    × Follows game_sample 3 0 waiting me
send_player_description-Follows_example =
    send_player_description-Follows game_sample 3 0 (sample_player 0) playing waiting me is_open
      own_player (sample_player-IsValue 10_000 (omega arith))
