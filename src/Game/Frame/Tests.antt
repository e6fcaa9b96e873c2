-- ===== src/Game/Frame/Tests.antt =====
-- A player who flies to the right, shooting, before a view of the map's corner.
use networking_projects.Prelude.{ℕ, ◌≡◌, true, false, List, [], ◌∷◌, some, refl, arith}
use networking_projects.Queue
use networking_projects.Connection
use networking_projects.Connection.Types.{Connection, client}
use networking_projects.Message.Laws.{sized}
use networking_projects.Client.{is_connected}
use networking_projects.Game.Common.{GameMsg, PlayerDescription, server_get_status}
use networking_projects.Game.Sample.{game_sample, sample_player}
use networking_projects.Game.Sample.Floats.{whole}
use networking_projects.Game.Sample.Scene.{right_and_fire, corner_view, setting, input}
use networking_projects.Game.World.{is_wall, char_at, world_map, lines}
use networking_projects.Game.Movement.{
  one_less, one_more, to_cell, floor_cell, areas, area_around, hit_row, hits_wall, nearest,
  push_out, resolve_row, resolve, update_object, update_objects_locally,
}
use networking_projects.Game.GameServer.{find, insert_or_assign}
use networking_projects.Game.Control.{
  object_at, steer, turn, shoot, control, control_of_player_object,
}
use networking_projects.Game.Control.Laws.{Controlled, control_of_player_object_lem}
use networking_projects.Game.Screen.Visible.{DrawsWall, draw_world-shows}
use networking_projects.Game.GameClient.{GameClient, update_all}
use networking_projects.Game.Frame.{MmoGame, receive}
use networking_projects.Game.Frame.Sending.{Sends, on_user_update-Sends}

abbrev unarmed : PlayerDescription ℕ
unarmed = record (sample_player 7) {
  bullet_was_shot_and_still_exist = false;
  bullet_pos = record { x = 5; y = 8 };
}

abbrev two_objects : List (ℕ × PlayerDescription ℕ)
two_objects = (8, sample_player 8) ∷ (7, unarmed) ∷ []

control_of_player_object_lem_example :
    (find 7 (control_of_player_object whole right_and_fire (sample_player 0) 7 two_objects)
      ≡ some (control whole right_and_fire (object_at (sample_player 0) 7 two_objects)))
    × Controlled whole right_and_fire
        (object_at (sample_player 0) 7 two_objects)
        (control whole right_and_fire (object_at (sample_player 0) 7 two_objects))
    × (find 8 (control_of_player_object whole right_and_fire (sample_player 0) 7 two_objects)
        ≡ find 8 two_objects)
control_of_player_object_lem_example =
    control_of_player_object_lem whole right_and_fire (sample_player 0) 7 8 two_objects refl

first_is_wall : is_wall 1 0 ≡ some true
unfolding is_wall char_at world_map lines
first_is_wall = refl

draw_world-shows_example : DrawsWall whole corner_view 0 1 0
draw_world-shows_example =
    draw_world-shows whole corner_view 0 1 0 (refl, refl, refl, refl)
      (omega arith, omega arith, first_is_wall)

abbrev open_end : Connection GameMsg
open_end = record {
  socket_open = true;
  messages_out = record { items = [] };
  msg_temporary_in = sized server_get_status [];
  owner_type = client;
  handshake_out = 0;
  handshake_in = 0;
  handshake_check = 0;
  valid_handshake = false;
  connection_established = false;
  id = 0;
}

abbrev playing : GameClient ℕ
playing = record {
  interface = record { connection = some open_end; posted = []; running = true };
  map_objects = (7, unarmed) ∷ [];
  player_id = 7;
  desc_player = unarmed;
  waiting_for_connection = false;
}

abbrev game : MmoGame ℕ ℕ
game = record { client = playing; tv = 0; messages_in = Queue.no_items }

is_open : is_connected game_sample.base playing.interface ≡ true
unfolding is_connected Connection.is_connected
is_open = refl

nothing_received : receive setting game ≡ some game
unfolding receive is_connected Connection.is_connected update_all
nothing_received = refl

-- One step to the right; the bullet flies one step as well.
abbrev armed : PlayerDescription ℕ
armed = record unarmed {
  pos = record { x = 4; y = 4 };
  vel = record { x = 1; y = 0 };
  bullet_pos = record { x = 6; y = 8 };
  bullet_vel = record { x = 1; y = 0 };
  bullet_was_shot_and_still_exist = true;
}

one_step :
    update_objects_locally whole 1
      (control_of_player_object whole right_and_fire (sample_player 0) 7 playing.map_objects)
    ≡ some ((7, armed) ∷ [])
unfolding update_objects_locally update_object areas floor_cell to_cell area_around one_less
    one_more resolve resolve_row push_out nearest hits_wall hit_row is_wall char_at world_map lines
    control_of_player_object control steer turn shoot object_at find insert_or_assign
one_step = refl

on_user_update-Sends_example : Sends setting 1 input game game ((7, armed) ∷ [])
on_user_update-Sends_example =
    on_user_update-Sends setting 1 input game game ((7, armed) ∷ []) nothing_received refl is_open
      one_step
