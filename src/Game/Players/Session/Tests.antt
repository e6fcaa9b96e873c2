-- ===== src/Game/Players/Session/Tests.antt =====
-- A player has left; another one registers, and its connection is lost again, while a third plays on and
-- updates its own player.
use networking_projects.Prelude.{
  ℕ, ◌≡◌, refl, ap, ◌∙◌, true, false, List, [], ◌∷◌, ◌++◌, some, none, arith,
}
use networking_projects.Message.{Message, pull}
use networking_projects.Message.Laws.{sized, pull_append}
use networking_projects.Connection.{is_connected, get_id}
use networking_projects.Connection.Types.{Connection, server}
use networking_projects.Server.{can_talk}
use networking_projects.Game.Common.{
  GameMsg, PlayerDescription, server_get_status, client_register_with_server, game_update_player,
}
use networking_projects.Game.Sample.{game_sample, sample_player, sample_player-IsValue}
use networking_projects.Game.GameServer.{GameState, GameServer, erase, on_client_disconnect}
use networking_projects.Game.GameServer.Arrivals.{registers, on_message-registers}
use networking_projects.Game.GameServer.Passing.{passed, on_message-passed}
use networking_projects.Game.GameServer.Departures.{AreAlive}
use networking_projects.Game.GameClient.{GameClient, update_all}
use networking_projects.Game.Players.Inbox.{posted_to}
use networking_projects.Game.Players.Channel.{Reaches}
use networking_projects.Game.Players.View.{Tracks}
use networking_projects.Game.Players.Session.Handler.{arrives}
use networking_projects.Game.Players.Session.Run.{
  Session, done, handles, updates, loses, Session-Tracks,
}

abbrev resident : Connection GameMsg
resident = record {
  socket_open = true;
  messages_out = record { items = [] };
  msg_temporary_in = sized server_get_status [];
  owner_type = server;
  handshake_out = 5;
  handshake_in = 0;
  handshake_check = 0;
  valid_handshake = true;
  connection_established = true;
  id = 10_001;
}

abbrev newcomer : Connection GameMsg
newcomer = record resident { id = 10_002 }

-- The player 10000 has left, and nobody has been told.
abbrev user : GameState ℕ
user = record { player_roster = (10_001, sample_player 10_001) ∷ []; garbage_ids = 10_000 ∷ [] }

abbrev state : GameServer game_sample
state = record {
  messages_in = record { items = [] };
  connections = some 0 ∷ some 1 ∷ [];
  id_counter = 10_003;
  accepting = true;
  running = true;
  heap = resident ∷ newcomer ∷ [];
  posted = [];
  user = user;
}

-- The resident's game.
abbrev playing : GameClient ℕ
playing = record {
  interface = record { connection = none; posted = []; running = true };
  map_objects = (10_000, sample_player 10_000) ∷ (10_001, sample_player 10_001) ∷ [];
  player_id = 10_001;
  desc_player = sample_player 0;
  waiting_for_connection = false;
}

abbrev sent : PlayerDescription ℕ
sent = sample_player 0

abbrev registration : Message GameMsg
registration = sized client_register_with_server (game_sample.desc.to_bytes sent)

abbrev header_only : Message GameMsg
header_only = sized client_register_with_server []

registration_pulled : pull game_sample.desc registration ≡ some (header_only, sent)
registration_pulled =
    pull_append game_sample.desc registration [] (game_sample.desc.to_bytes sent) refl
      (game_sample.desc.length-to_bytes sent)
    ∙ ap (λ (d : PlayerDescription ℕ). some (header_only, d))
        (game_sample.desc.of_bytes-to_bytes sent (sample_player-IsValue 0 (omega arith)))

state-AreAlive : AreAlive game_sample state.heap state.connections
unfolding can_talk is_connected
state-AreAlive = (refl, (refl, tt))

-- The identifiers are compared.
abbrev name : PlayerDescription ℕ → ℕ
name d = d.unique_id

-- The resident's own update is passed on, after the departure.
abbrev own_update : Message GameMsg
own_update = sized game_update_player (game_sample.desc.to_bytes (sample_player 10_001))

abbrev updated : GameServer game_sample
updated = passed game_sample state (some 0) own_update

abbrev joined : GameServer game_sample
joined = registers game_sample updated 1 newcomer sent

abbrev left : GameServer game_sample
left = record joined { user = on_client_disconnect game_sample joined.user (some newcomer) }

session : Session game_sample 3 0 name 0 state left
unfolding get_id
session = loses (some newcomer) (
    handles (some 1) registration
      (updates own_update done
        (on_message-passed game_sample state (some 0) own_update state-AreAlive refl) refl
        (omega arith, tt))
      (on_message-registers game_sample updated 1 newcomer registration header_only sent
        state-AreAlive refl refl refl registration_pulled)
      refl tt
      (arrives header_only sent newcomer refl registration_pulled refl
        (sample_player-IsValue 10_002 (omega arith))))

state-Reaches : Reaches game_sample 0 state
unfolding can_talk is_connected
state-Reaches = (refl, refl)

user-Tracks : Tracks name user playing.map_objects
unfolding erase
user-Tracks = refl

Session-Tracks_example :
    (news : List (Message GameMsg)) × (g' : GameClient ℕ) × (posted_to 0 left.posted
      ≡ posted_to 0 state.posted ++ news)
    × (update_all game_sample 3 0 playing news ≡ some g')
    × Tracks name left.user g'.map_objects
    × (g'.player_id ≡ playing.player_id)
    × Reaches game_sample 0 left
Session-Tracks_example =
    Session-Tracks game_sample 3 0 name 0 state left playing session state-Reaches user-Tracks
