-- ===== src/Game/Players/Session/FrameTests.antt =====
-- A player flies to the right and its bullet meets the corner of the map, while another player, who has
-- left, has not been announced as departed.
use networking_projects.Prelude.{ℕ, false, List, [], ◌∷◌, Option, or_else}
use networking_projects.Queue
use networking_projects.Client
use networking_projects.Game.Screen
use networking_projects.Game.Common.{PlayerDescription}
use networking_projects.Game.Sample.{sample_player}
use networking_projects.Game.Sample.Scene.{setting, input}
use networking_projects.Game.Screen
use networking_projects.Game.Screen.{Call}
use networking_projects.Game.GameServer.{GameState}
use networking_projects.Game.Frame.{MmoGame, play}

abbrev shooter : PlayerDescription ℕ
shooter = record (sample_player 7) { pos = record { x = 8; y = 4 } }

-- Player 9 has left the roster, and the client has not been told.
abbrev user : GameState ℕ
user = record { player_roster = (7, sample_player 7) ∷ []; garbage_ids = 9 ∷ [] }

abbrev game : MmoGame ℕ ℕ
game = record {
  client = record {
    interface = Client.new_client;
    map_objects = (7, shooter) ∷ (9, sample_player 9) ∷ [];
    player_id = 7;
    desc_player = shooter;
    waiting_for_connection = false;
  };
  tv = 0;
  messages_in = Queue.no_items;
}

abbrev frame : Option (MmoGame ℕ ℕ × List (Call ℕ))
frame = play setting 2 input game

abbrev after : MmoGame ℕ ℕ × List (Call ℕ)
after = or_else (game, []) frame

-- One step of length 2 to the right; the bullet is gone.
abbrev bereft : PlayerDescription ℕ
bereft = record shooter {
  pos = record { x = 10; y = 4 };
  vel = record { x = 1; y = 0 };
  bullet_was_shot_and_still_exist = false;
  bullet_pos = record { x = 10; y = 4 };
}
