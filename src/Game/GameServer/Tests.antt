-- ===== src/Game/GameServer/Tests.antt =====
-- A game with two players, the first of which may have gone.
use networking_projects.Prelude.{
  ℕ, ◌<◌, ◌≡◌, ◌≢◌, ◌↔◌, refl, true, false, [], ◌∷◌, ◌++◌, none, some, length, arith, ap, ◌∙◌, inl,
}
use networking_projects.Message.{Message, pull}
use networking_projects.Message.Laws.{sized, pull_append}
use networking_projects.Connection.Types.{Connection, server}
use networking_projects.Server.Broadcast.{recipients, survivors, reports, sends_to}
use networking_projects.Game.Common.{
  GameMsg, PlayerDescription, server_get_status, client_register_with_server, game_update_player,
}
use networking_projects.Game.Sample.{game_sample, sample_player, sample_player-IsValue}
use networking_projects.Game.GameServer.{GameServer, hooks, find, handle, on_message}
use networking_projects.Server.{can_talk}
use networking_projects.Connection.{is_connected}
use networking_projects.Game.GameServer.Departures.{AreAlive, announced, on_message_departures}
use networking_projects.Game.GameServer.Relay.{on_message_update}
use networking_projects.Game.GameServer.Growth.{on_message-none_iff}
use networking_projects.Game.GameServer.Garbage.{HasLost, on_message_undefined}
use networking_projects.Game.GameServer.Register.{
  registered, on_message_register, on_message_register-none_iff,
}

abbrev player : PlayerDescription ℕ
player = sample_player 0

abbrev gone : Connection GameMsg
gone = record {
  socket_open = false;
  messages_out = record { items = [] };
  msg_temporary_in = sized server_get_status [];
  owner_type = server;
  handshake_out = 5;
  handshake_in = 0;
  handshake_check = 0;
  valid_handshake = false;
  connection_established = false;
  id = 10_000;
}

abbrev present : Connection GameMsg
present = record gone { socket_open = true; id = 10_001 }

-- The first client has gone, with its player still in the roster.
abbrev quiet : GameServer game_sample
quiet = record {
  messages_in = record { items = [] };
  connections = some 0 ∷ some 1 ∷ [];
  id_counter = 10_002;
  accepting = true;
  running = true;
  heap = gone ∷ present ∷ [];
  posted = [];
  user = record { player_roster = (10_000, player) ∷ []; garbage_ids = [] };
}

-- A player that had gone before waits to be announced.
abbrev waiting : GameServer game_sample
waiting = record quiet {
  user = record { player_roster = (10_000, player) ∷ []; garbage_ids = 9_999 ∷ [] };
}

abbrev sent_update : Message GameMsg
sent_update = sized game_update_player (1 ∷ 2 ∷ [])

abbrev header_only : Message GameMsg
header_only = sized client_register_with_server []

abbrev registration : Message GameMsg
registration = sized client_register_with_server (game_sample.desc.to_bytes player)

update_relayed :
    on_message game_sample quiet (some 1) sent_update
    ≡ some (record quiet {
      posted =
          quiet.posted
          ++ sends_to game_sample.base (hooks game_sample) sent_update (
              recipients game_sample.base
                (hooks game_sample)
                quiet.heap
                (some 1)
                quiet.connections);
      user = reports game_sample.base (hooks game_sample) quiet.heap quiet.user quiet.connections;
      connections = survivors game_sample.base (hooks game_sample) quiet.heap quiet.connections;
    })
update_relayed = on_message_update game_sample quiet (some 1) sent_update refl refl

first_is_lost : HasLost game_sample waiting.heap waiting.user waiting.connections
unfolding find
first_is_lost = inl (gone, player, refl, refl, refl)

lost_while_announcing : on_message game_sample waiting (some 1) sent_update ≡ none
lost_while_announcing =
    on_message_undefined game_sample waiting (some 1) sent_update (λ p. cc) first_is_lost

on_message-none_iff_example : (on_message game_sample waiting (some 1) sent_update ≡ none) ↔ (
    (waiting.user.garbage_ids ≢ [])
    × HasLost game_sample waiting.heap waiting.user waiting.connections)
on_message-none_iff_example = on_message-none_iff game_sample waiting (some 1) sent_update (λ p. cc)

registration_pulled : pull game_sample.desc registration ≡ some (header_only, player)
registration_pulled =
    let bytes = game_sample.desc.to_bytes player in
    pull_append game_sample.desc registration [] bytes refl
      (game_sample.desc.length-to_bytes player)
    ∙ ap (λ (d : PlayerDescription ℕ). some (header_only, d))
        (game_sample.desc.of_bytes-to_bytes player (sample_player-IsValue 0 (omega arith)))

on_message_register_example :
    on_message game_sample quiet (some 1) registration
    ≡ some (registered game_sample quiet 1 present player)
on_message_register_example =
    on_message_register game_sample quiet 1 present registration header_only player refl refl refl
      refl registration_pulled

on_message_register-none_iff_example :
    (on_message game_sample quiet (some 1) header_only ≡ none)
    ↔ (length header_only.body < game_sample.desc.size)
on_message_register-none_iff_example =
    on_message_register-none_iff game_sample quiet 1 present header_only refl refl refl refl

-- Everybody is connected, and two departed players wait to be announced.
abbrev steady : GameServer game_sample
steady = record quiet {
  connections = some 1 ∷ [];
  user = record { player_roster = []; garbage_ids = 9_998 ∷ 9_999 ∷ [] };
}

steady-AreAlive : AreAlive game_sample steady.heap steady.connections
unfolding can_talk is_connected
steady-AreAlive = (refl, tt)

departures_announced :
    on_message game_sample steady (some 1) sent_update
    ≡ handle game_sample (announced game_sample steady) (some 1) sent_update sent_update.header.id
departures_announced = on_message_departures game_sample steady (some 1) sent_update steady-AreAlive
