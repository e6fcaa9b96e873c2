-- ===== src/Game/GameServer/Running/Visits.antt =====
-- Two players come and register; the first one's socket is closed, and the server finds that out when it
-- passes on what the second one says of itself.
use networking_projects.Prelude.{
  ℕ, ◌≡◌, true, subst, List, [], ◌∷◌, some, refl, is_some, or_else, is_some-or_else,
}
use networking_projects.Queue
use networking_projects.Connection
use networking_projects.Message.{push, empty, pull}
use networking_projects.Message.Bytes.{copy_to, resize}
use networking_projects.Message.Laws.{sized}
use networking_projects.Message.LittleEndian.{both, split}
use networking_projects.Scramble.{scramble}
use networking_projects.Server
use networking_projects.Server.Running.{
  Happening, accepted, completed, close_posted, header_read, body_read, validation_read, handle,
  happen, happen_all, serve,
}
use networking_projects.Game.Common.{GameMsg, client_register_with_server, game_update_player}
use networking_projects.Game.Sample.{game_sample, sample_player}
use networking_projects.Game.GameServer
use networking_projects.Game.GameServer.{GameServer, GameState}
use networking_projects.Game.GameServer.Running.{main, new_game_server}
use networking_projects.Game.GameServer.Running.Tidy.{IsTidy, main-IsTidy}

abbrev description : ℕ → List ℕ
description uid = game_sample.desc.to_bytes (sample_player uid)

-- The right answer to the challenge of this time.
abbrev answer : ℕ → List ℕ
answer now = game_sample.base.word.to_bytes (scramble now)

-- What the connection at this address reads, when it is sent a message of this kind.
abbrev reads_message : ℕ → GameMsg → ℕ → List (Happening GameMsg)
reads_message p kind uid =
    completed p
      (header_read (some (game_sample.base.header.to_bytes (sized kind (description uid)).header)))
    ∷ completed p (body_read (some (description uid)))
    ∷ []

abbrev turns : List (List (Happening GameMsg))
turns =
    (accepted (some 7)
      ∷ accepted (some 9)
      ∷ completed 0 (validation_read (some (answer 7)))
      ∷ completed 1 (validation_read (some (answer 9)))
      ∷ reads_message 0 client_register_with_server 0)
    ∷ reads_message 1 client_register_with_server 0
    ∷ (completed 0 close_posted ∷ reads_message 1 game_update_player 10_001)
    ∷ []

abbrev user : GameState ℕ
user = record { player_roster = (10_001, sample_player 10_001) ∷ []; garbage_ids = 10_000 ∷ [] }

abbrev after : GameServer game_sample
after = or_else (new_game_server game_sample) (main game_sample turns)

is_defined : is_some (main game_sample turns) ≡ true
unfolding main new_game_server serve happen_all happen handle Server.on_accept Server.perform
    Server.update Server.start Server.new_server Server.can_talk Server.wait_for_client_connection
    Server.message_client Server.message_all_clients Server.erase Queue.push Queue.pop
    Queue.is_empty Connection.new_connection Connection.connect_to_client Connection.is_connected
    Connection.get_id Connection.send Connection.close Connection.disconnect
    Connection.write_validation Connection.read_validation Connection.on_validation_read
    Connection.read_header Connection.read_body Connection.on_header_read Connection.on_body_read
    Connection.add_to_incoming_message_queue GameServer.on_client_connect
    GameServer.on_client_validated GameServer.on_client_disconnect GameServer.find
    GameServer.insert_or_assign GameServer.erase GameServer.remove_player GameServer.assign_id
    GameServer.add_player GameServer.announce_garbage GameServer.clear_garbage GameServer.collect
    GameServer.collect_garbage GameServer.send_roster GameServer.enrol GameServer.register
    GameServer.handle GameServer.on_message push pull empty both copy_to resize scramble split
is_defined = refl

leaves : after.user ≡ user
unfolding main new_game_server serve happen_all happen handle Server.on_accept Server.perform
    Server.update Server.start Server.new_server Server.can_talk Server.wait_for_client_connection
    Server.message_client Server.message_all_clients Server.erase Queue.push Queue.pop
    Queue.is_empty Connection.new_connection Connection.connect_to_client Connection.is_connected
    Connection.get_id Connection.send Connection.close Connection.disconnect
    Connection.write_validation Connection.read_validation Connection.on_validation_read
    Connection.read_header Connection.read_body Connection.on_header_read Connection.on_body_read
    Connection.add_to_incoming_message_queue GameServer.on_client_connect
    GameServer.on_client_validated GameServer.on_client_disconnect GameServer.find
    GameServer.insert_or_assign GameServer.erase GameServer.remove_player GameServer.assign_id
    GameServer.add_player GameServer.announce_garbage GameServer.clear_garbage GameServer.collect
    GameServer.collect_garbage GameServer.send_roster GameServer.enrol GameServer.register
    GameServer.handle GameServer.on_message push pull empty both copy_to resize scramble split
leaves = refl

main-IsTidy_example : IsTidy user
main-IsTidy_example = subst IsTidy leaves (
    main-IsTidy game_sample turns after
      (is_some-or_else (new_game_server game_sample) (main game_sample turns) is_defined))
