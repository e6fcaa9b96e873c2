-- ===== src/Game/Sample/Scene.antt =====
-- What the tests of a frame share: the keys of a player who flies to the right, shooting, and a view of
-- the map's corner.
use networking_projects.Prelude.{true, false, ℕ}
use networking_projects.Prelude.Int.{pos}
use networking_projects.Game.Control.{Key, Keys}
use networking_projects.Game.Screen.{View, Mouse}
use networking_projects.Game.Frame.{Setting, Input}
use networking_projects.Game.Sample.{game_sample, sample_player}
use networking_projects.Game.Sample.Floats.{whole}

abbrev pub up : Key
up = record { pressed = false; held = false; released = false }

abbrev pub down : Key
down = record { pressed = true; held = true; released = false }

abbrev pub right_and_fire : Keys
right_and_fire = record { w = up; s = up; a = up; d = down; space = down }

-- The view has no state, and shows four tiles.
abbrev pub corner_view : View ℕ ℕ
corner_view = record {
  new_view = λ screen size. 0;
  start_pan = λ tv at. tv;
  update_pan = λ tv at. tv;
  end_pan = λ tv at. tv;
  zoom_at_screen_pos = λ tv by at. tv;
  top_left_tile = λ tv. record { x = pos 0; y = pos 0 };
  bottom_right_tile = λ tv. record { x = pos 2; y = pos 2 };
  text_size_prop = λ text. record { x = pos 8; y = pos 8 };
}

abbrev pub setting : Setting ℕ ℕ
setting = record {
  platform = game_sample;
  numbers = whole;
  view = corner_view;
  fresh = sample_player 0;
}

abbrev pub still : Mouse
still = record { button = up; wheel = pos 0; mouse_pos = record { x = pos 0; y = pos 0 } }

abbrev pub input : Input
input = record { keys = right_and_fire; mouse = still }
