-- ===== src/Game/Screen.antt =====
-- What MMO_Game/src/MMO_Client.cpp draws: the calls on the view and on the engine, in order. What the
-- view and the engine are is not known; the view's state is a value of a type `V`.
pub mod Visible
use networking_projects.Prelude.{
  ◌>>=◌, to_string, ℕ, ◌-◌, List, [], ◌∷◌, ◌++◌, Option, none, some, if◌then◌else◌, codes,
}
use networking_projects.Prelude.Int.{ℤ, pos, ltb_ℤ, min_ℤ, max_ℤ, to_nat}
use networking_projects.Game.Common.{Point, PlayerDescription}
use networking_projects.Game.Numbers.{Numbers}
use networking_projects.Game.World.{world_size, is_wall}
use networking_projects.Game.Movement.{count_from}
use networking_projects.Game.Control.{Key}

-- olc::TileTransformedView, and GetTextSizeProp of the engine.
pub record View (F V : Type 0) : Type 0 where
  pub new_view : Point ℤ → Point ℤ → V
  pub start_pan : V → Point ℤ → V
  pub update_pan : V → Point ℤ → V
  pub end_pan : V → Point ℤ → V
  pub zoom_at_screen_pos : V → F → Point ℤ → V
  pub top_left_tile : V → Point ℤ
  pub bottom_right_tile : V → Point ℤ
  pub text_size_prop : List ℕ → Point ℤ

pub data Colour : Type 0 where
  black white red blue magenta dark_blue : Colour

-- The calls that draw. No colour is the engine's own default.
pub data Call (F : Type 0) : Type 0 where
  clear : Colour → Call F
  draw_string : Point ℤ → List ℕ → Colour → Call F
  draw_rect : Point F → Point F → Call F
  draw_circle : Point F → F → Option Colour → Call F
  fill_circle : Point F → F → Colour → Call F
  draw_line : Point F → Point F → Colour → Call F
  draw_string_prop_decal : Point F → List ℕ → Colour → Point F → Call F

-- The mouse: its third button, its wheel and where it is.
pub record Mouse : Type 0 where
  pub button : Key
  pub wheel : ℤ
  pub mouse_pos : Point ℤ

module _ {F V : Type 0} (numbers : Numbers F) (view : View F V) where
  open numbers use {literal, negate, times, of_int, cos, sin, add, sub}
  open view use {
    start_pan, update_pan, end_pan, zoom_at_screen_pos, top_left_tile, bottom_right_tile,
    text_size_prop,
  }

  abbrev pub vector : F → F → Point F
  vector x y = record { x = x; y = y }

  unfoldable pub handle_pan_and_zoom : Mouse → V → V
  handle_pan_and_zoom mouse tv =
      let at = mouse.mouse_pos in
      let tv = if mouse.button.pressed then start_pan tv at else tv in
      let tv = if mouse.button.held then update_pan tv at else tv in
      let tv = if mouse.button.released then end_pan tv at else tv in
      let tv = if ltb_ℤ (pos 0) mouse.wheel then zoom_at_screen_pos tv (literal 15 1) at else tv in
      if ltb_ℤ mouse.wheel (pos 0) then zoom_at_screen_pos tv (literal 75 2) at else tv

  -- The values of `i` in `for (i = a; i < b; i++)`.
  abbrev pub below : ℕ → ℤ → List ℕ
  below a b = count_from a (to_nat b - a)

  -- A tile as a vector of floats.
  abbrev pub tile : ℕ → ℕ → Point F
  tile x y = vector (of_int (pos x)) (of_int (pos y))

  abbrev pub wall_calls : ℕ → ℕ → List (Call F)
  wall_calls x y =
      draw_rect (tile x y) (vector (literal 1 0) (literal 1 0))
      ∷ draw_rect (add (tile x y) (vector (literal 1 1) (literal 1 1)))
          (vector (literal 8 1) (literal 8 1))
      ∷ []

  unfoldable pub draw_row : ℕ → List ℕ → Option (List (Call F))
  draw_row y [] = some []
  draw_row y (x ∷ xs) = do
    wall ← is_wall x y
    rest ← draw_row y xs
    some ((if wall then wall_calls x y else []) ++ rest)

  unfoldable pub draw_rows : List ℕ → List ℕ → Option (List (Call F))
  unfolding draw_row
  draw_rows [] xs = some []
  draw_rows (y ∷ ys) xs = do row ← draw_row y xs; rest ← draw_rows ys xs; some (row ++ rest)

  -- `none` is a read outside the map.
  unfoldable pub draw_world : V → Option (List (Call F))
  unfolding draw_rows
  draw_world tv =
      let top = to_nat (max_ℤ (top_left_tile tv).y (pos 0)) in
      let left = to_nat (max_ℤ (top_left_tile tv).x (pos 0)) in
      let bottom = min_ℤ (bottom_right_tile tv).y (pos world_size) in
      let right = min_ℤ (bottom_right_tile tv).x (pos world_size) in
      draw_rows (below top bottom) (below left right)

  abbrev name_of : ℕ → List ℕ
  name_of id = codes "ID: " ++ to_string id

  unfoldable pub draw_object : ℕ → PlayerDescription F → List (Call F)
  draw_object id d =
      let direction = vector (times d.radius (cos d.yaw)) (times d.radius (sin d.yaw)) in
      let width = of_int (text_size_prop (name_of id)).x in
      let bullet = if d.bullet_was_shot_and_still_exist then d.bullet_pos else d.pos in
      let offset =
        vector (times (times (times width (literal 5 1)) (literal 25 2)) (literal 125 3))
          (times (negate d.radius) (literal 125 2)) in
      draw_circle d.pos d.radius none
      ∷ draw_line d.pos (add d.pos direction) magenta
      ∷ draw_circle bullet d.bullet_radius (some red)
      ∷ fill_circle bullet d.bullet_radius red
      ∷ draw_string_prop_decal (sub d.pos offset) (name_of id) blue
          (vector (literal 25 2) (literal 25 2))
      ∷ []

  unfoldable pub draw_world_objects : List (ℕ × PlayerDescription F) → List (Call F)
  unfolding draw_object
  draw_world_objects [] = []
  draw_world_objects ((id, d) ∷ objects) = draw_object id d ++ draw_world_objects objects

  unfoldable pub update_screen : V → List (ℕ × PlayerDescription F) → Option (List (Call F))
  unfolding draw_world draw_world_objects
  update_screen tv objects = do
    world ← draw_world tv
    some (clear black ∷ (world ++ draw_world_objects objects))
