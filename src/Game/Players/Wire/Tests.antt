-- ===== src/Game/Players/Wire/Tests.antt =====
-- The first player of a game joins it over the network.
use networking_projects.Prelude.{ℕ, ◌≡◌, refl, ap, ◌∙◌, true, false, List, [], ◌∷◌, some, arith}
use networking_projects.Prelude.Int.{pos}
use networking_projects.Queue
use networking_projects.Client
use networking_projects.Connection
use networking_projects.Connection.Types.{Connection, server, client}
use networking_projects.Connection.Write.{
  Outgoing, Event, sends, completes, run, start, step, frames,
}
use networking_projects.Connection.Read.Stream.{reads}
use networking_projects.Connection.Transport.{delivered_from}
use networking_projects.Message.{Message, push, empty, pull}
use networking_projects.Message.Bytes.{copy_to, resize}
use networking_projects.Message.Laws.{sized, pull_append}
use networking_projects.Message.LittleEndian.{both}
use networking_projects.Server.{can_talk}
use networking_projects.Game.Common.{
  GameMsg, PlayerDescription, server_get_status, client_register_with_server,
}
use networking_projects.Game.Sample.{game_sample, sample_player, sample_player-IsValue}
use networking_projects.Game.Sample.Floats.{whole}
use networking_projects.Game.Screen.{View}
use networking_projects.Game.GameServer.{
  GameServer, insert_or_assign, remove_player, assign_id, add_player, on_message,
}
use networking_projects.Game.GameServer.Arrivals.{registers, on_message-registers}
use networking_projects.Game.GameServer.Departures.{AreAlive}
use networking_projects.Game.GameClient.{GameClient}
use networking_projects.Game.Frame.{MmoGame, Setting, receive}
use networking_projects.Game.Players.{players}
use networking_projects.Game.Players.Inbox.{posted_to}
use networking_projects.Game.Players.Mirror.Registration.{Fits}
use networking_projects.Game.Players.Wire.Newcomer.{Carries, newcomer-plays}

abbrev newcomer : Connection GameMsg
newcomer = record {
  socket_open = true;
  messages_out = record { items = [] };
  msg_temporary_in = sized server_get_status [];
  owner_type = server;
  handshake_out = 5;
  handshake_in = 0;
  handshake_check = 0;
  valid_handshake = true;
  connection_established = true;
  id = 10_001;
}

abbrev client_end : Connection GameMsg
client_end = record newcomer { owner_type = client }

-- Another player has left before, and nobody has been told.
abbrev state : GameServer game_sample
state = record {
  messages_in = record { items = [] };
  connections = some 0 ∷ [];
  id_counter = 10_002;
  accepting = true;
  running = true;
  heap = newcomer ∷ [];
  posted = [];
  user = record { player_roster = []; garbage_ids = 10_000 ∷ [] };
}

abbrev description : PlayerDescription ℕ
description = sample_player 0

abbrev registration : Message GameMsg
registration = sized client_register_with_server (game_sample.desc.to_bytes description)

abbrev header_only : Message GameMsg
header_only = sized client_register_with_server []

registration_pulled : pull game_sample.desc registration ≡ some (header_only, description)
registration_pulled =
    pull_append game_sample.desc registration [] (game_sample.desc.to_bytes description) refl
      (game_sample.desc.length-to_bytes description)
    ∙ ap (λ (d : PlayerDescription ℕ). some (header_only, d))
        (game_sample.desc.of_bytes-to_bytes description (sample_player-IsValue 0 (omega arith)))

state-AreAlive : AreAlive game_sample state.heap state.connections
unfolding can_talk Connection.is_connected
state-AreAlive = (refl, tt)

state-Fits : Fits game_sample state newcomer description
state-Fits = ((omega arith, tt), omega arith, sample_player-IsValue 10_001 (omega arith), tt)

abbrev after : GameServer game_sample
after = registers game_sample state 0 newcomer description

after-is : on_message game_sample state (some 0) registration ≡ some after
after-is =
    on_message-registers game_sample state 0 newcomer registration header_only description
      state-AreAlive refl refl refl registration_pulled

-- The departure, the identifier, and the newcomer twice, of itself and of the roster.
abbrev news : List (Message GameMsg)
news =
    remove_player game_sample 10_000
    ∷ assign_id game_sample 10_001
    ∷ add_player game_sample (sample_player 10_001)
    ∷ add_player game_sample (sample_player 10_001)
    ∷ []

news-posted : posted_to 0 after.posted ≡ news
unfolding can_talk Connection.is_connected insert_or_assign
news-posted = refl

abbrev events : List (Event GameMsg)
events =
    sends (remove_player game_sample 10_000)
    ∷ sends (assign_id game_sample 10_001)
    ∷ completes
    ∷ completes
    ∷ completes
    ∷ sends (add_player game_sample (sample_player 10_001))
    ∷ completes
    ∷ sends (add_player game_sample (sample_player 10_001))
    ∷ completes
    ∷ completes
    ∷ completes
    ∷ completes
    ∷ []

abbrev finished : Outgoing GameMsg
finished = record {
  conn = newcomer;
  pending = [];
  wire = frames game_sample.base news;
  sent = news;
}

finished-run : run game_sample.base (start game_sample.base newcomer) events ≡ some finished
unfolding run step Connection.on_send Queue.push Queue.pop Queue.is_empty Queue.front
    Connection.write_header Connection.write_body Connection.write_next Connection.on_header_written
    Connection.on_body_written remove_player assign_id add_player push empty both copy_to resize
finished-run = refl

abbrev view : View ℕ ℕ
view = record {
  new_view = λ screen size. 0;
  start_pan = λ tv at. tv;
  update_pan = λ tv at. tv;
  end_pan = λ tv at. tv;
  zoom_at_screen_pos = λ tv by at. tv;
  top_left_tile = λ tv. record { x = pos 0; y = pos 0 };
  bottom_right_tile = λ tv. record { x = pos 2; y = pos 2 };
  text_size_prop = λ text. record { x = pos 8; y = pos 8 };
}

abbrev setting : Setting ℕ ℕ
setting = record { platform = game_sample; numbers = whole; view = view; fresh = description }

abbrev waiting : GameClient ℕ
waiting = record {
  interface = record { connection = some client_end; posted = []; running = true };
  map_objects = [];
  player_id = 0;
  desc_player = description;
  waiting_for_connection = true;
}

abbrev game : MmoGame ℕ ℕ
game = record { client = waiting; tv = 0; messages_in = Queue.no_items }

is_connected : Client.is_connected game_sample.base waiting.interface ≡ true
unfolding Client.is_connected Connection.is_connected
is_connected = refl

carries : Carries game_sample
carries = record {
  assigns = (((omega arith, refl), omega arith), refl);
  removes = (((omega arith, refl), omega arith), refl);
  adds = (((omega arith, refl), omega arith), refl);
  id_held = omega arith;
  id_fits = omega arith;
  desc_held = omega arith;
  desc_fits = omega arith;
}

newcomer-plays_example :
    (g' : MmoGame ℕ ℕ) × (receive setting (record game {
      messages_in = record {
        items = delivered_from game_sample.base 0 client_end (reads news) finished.wire;
      };
    })
      ≡ some g')
    × (g'.client.player_id ≡ 10_001)
    × (g'.client.waiting_for_connection ≡ false)
    × (players g'.client.map_objects ≡ players after.user.player_roster)
newcomer-plays_example =
    newcomer-plays setting carries state after 0 newcomer registration header_only description
      client_end events finished game state-AreAlive refl refl refl refl registration_pulled tt
      state-Fits after-is finished-run refl news-posted is_connected refl
