-- ===== src/Game/Movement.antt =====
-- `UpdateObjectsLocally` of MMO_Game/src/MMO_Client.cpp: where the objects go in one frame. `none` is an
-- undefined conversion of a float, an overflow of an int, or a read outside the map.
pub mod Reads
pub mod Walls
pub mod OneObject
pub mod Objects
pub mod Bullets
pub mod Inside
mod Tests
use networking_projects.Prelude.{
  ◌>>=◌, ℕ, zero, suc, ◌+◌, ◌-◌, Bool, true, false, List, [], ◌∷◌, Option, none, some,
  if◌then◌else◌,
}
use networking_projects.Prelude.Int.{ℤ, pos, negsuc, ltb_ℤ, min_ℤ, max_ℤ, suc_ℤ, pred_ℤ, to_nat}
use networking_projects.Game.Common.{Point, PlayerDescription}
use networking_projects.Game.Numbers.{Numbers}
use networking_projects.Game.World.{world_size, is_wall}

-- An int, of 32 bits.
abbrev int_max : ℤ
int_max = pos 0x7fff_ffff

abbrev int_min : ℤ
int_min = negsuc 0x7fff_ffff

unfoldable pub one_less : ℤ → Option ℤ
one_less n = if ltb_ℤ int_min n then some (pred_ℤ n) else none

unfoldable pub one_more : ℤ → Option ℤ
one_more n = if ltb_ℤ n int_max then some (suc_ℤ n) else none

-- The cells that may be met, both corners included; `left` and `top` are not negative.
pub record Area : Type 0 where
  pub left : ℕ
  pub top : ℕ
  pub right : ℤ
  pub bottom : ℤ

-- From the cell of an object and the one that it may reach.
unfoldable pub area_around : Point ℤ → Point ℤ → Option Area
unfolding one_less one_more
area_around current target = do
  left ← one_less (min_ℤ current.x target.x)
  top ← one_less (min_ℤ current.y target.y)
  right ← one_more (max_ℤ current.x target.x)
  bottom ← one_more (max_ℤ current.y target.y)
  some (record {
    left = to_nat (max_ℤ left (pos 0));
    top = to_nat (max_ℤ top (pos 0));
    right = min_ℤ right (pos world_size);
    bottom = min_ℤ bottom (pos world_size);
  })

abbrev pub count_from : ℕ → ℕ → List ℕ
count_from a zero = []
count_from a (suc n) = a ∷ count_from (suc a) n

-- The values of `i` in `for (i = a; i <= b; i++)`.
abbrev pub up_to : ℕ → ℤ → List ℕ
up_to a (pos b) = count_from a (suc b - a)
up_to a (negsuc b) = []

abbrev pub rows : Area → List ℕ
rows a = up_to a.top a.bottom

abbrev pub columns : Area → List ℕ
columns a = up_to a.left a.right

-- Whether a bullet's area has a wall; the search ends at the first.
unfoldable pub hit_row : ℕ → List ℕ → Option Bool
hit_row y [] = some false
hit_row y (x ∷ xs) = elim (is_wall x y) [
  | none ↦ none
  | some true ↦ some true
  | some false ↦ hit_row y xs
]

unfoldable pub hits_wall : List ℕ → List ℕ → Option Bool
unfolding hit_row
hits_wall [] xs = some false
hits_wall (y ∷ ys) xs = elim (hit_row y xs) [
  | none ↦ none
  | some true ↦ some true
  | some false ↦ hits_wall ys xs
]

module _ {F : Type 0} (numbers : Numbers F) where
  open numbers use {literal, minus, less, is_nan, of_int, to_int, floor, add, sub, scale, mag, norm}

  unfoldable pub to_cell : Point F → Option (Point ℤ)
  to_cell p = do x ← to_int p.x; y ← to_int p.y; some (record { x = x; y = y })

  unfoldable pub floor_cell : Point F → Option (Point ℤ)
  unfolding to_cell
  floor_cell p = to_cell (record { x = floor p.x; y = floor p.y })

  -- `std::min` and `std::max` of floats.
  abbrev pub smaller : F → F → F
  smaller a b = if less b a then b else a

  abbrev pub larger : F → F → F
  larger a b = if less a b then b else a

  -- The point of a cell that is nearest to `p`.
  unfoldable pub nearest : ℕ → ℕ → Point F → Point F
  nearest x y p = record {
    x = larger (of_int (pos x)) (smaller p.x (of_int (pos (x + 1))));
    y = larger (of_int (pos y)) (smaller p.y (of_int (pos (y + 1))));
  }

  -- A circle at `p` that overlaps a wall is moved back.
  unfoldable pub push_out : F → ℕ → ℕ → Point F → Point F
  unfolding nearest
  push_out radius x y p =
      let ray = sub (nearest x y p) p in
      let distance = minus radius (mag ray) in
      let overlap = if is_nan distance then literal 0 0 else distance in
      if less (literal 0 0) overlap then sub p (scale (norm ray) overlap) else p

  unfoldable pub resolve_row : F → ℕ → List ℕ → Point F → Option (Point F)
  resolve_row radius y [] p = some p
  resolve_row radius y (x ∷ xs) p = do
    wall ← is_wall x y
    resolve_row radius y xs (if wall then push_out radius x y p else p)

  -- The loop over the cells of an area, row by row.
  unfoldable pub resolve : F → List ℕ → List ℕ → Point F → Option (Point F)
  unfolding resolve_row
  resolve radius [] xs p = some p
  resolve radius (y ∷ ys) xs p = do q ← resolve_row radius y xs p; resolve radius ys xs q

  -- The end of the loop's body: a bullet that hits is gone, and the function returns.
  abbrev pub settle : PlayerDescription F → Point F → Point F → Bool → PlayerDescription F × Bool
  settle d moved bullet_moved true =
      let gone = record d {
        pos = moved;
        bullet_was_shot_and_still_exist = false;
        bullet_pos = moved;
      } in
      (gone, true)
  settle d moved bullet_moved false = (record d { pos = moved; bullet_pos = bullet_moved }, false)

  abbrev pub potential : F → PlayerDescription F → Point F
  potential elapsed d = add d.pos (scale d.vel elapsed)

  abbrev pub bullet_potential : F → PlayerDescription F → Point F
  bullet_potential elapsed d = add d.bullet_pos (scale d.bullet_vel elapsed)

  -- The cells that could have a collision in this frame, with the object and with its bullet.
  unfoldable pub areas : F → PlayerDescription F → Option (Area × Area)
  unfolding floor_cell area_around
  areas elapsed d = do
    current ← floor_cell d.pos
    target ← to_cell (potential elapsed d)
    bullet_current ← floor_cell d.bullet_pos
    bullet_target ← to_cell (bullet_potential elapsed d)
    area ← area_around current target
    bullet_area ← area_around bullet_current bullet_target
    some (area, bullet_area)

  -- One object, and whether the function returns there.
  unfoldable pub update_object : F → PlayerDescription F → Option (PlayerDescription F × Bool)
  unfolding areas resolve hits_wall
  update_object elapsed d = do
    (area, bullet_area) ← areas elapsed d
    moved ← resolve d.radius (rows area) (columns area) (potential elapsed d)
    hit ← hits_wall (rows bullet_area) (columns bullet_area)
    some (settle d moved (bullet_potential elapsed d) hit)

  -- What comes of the rest of the loop, after one object.
  abbrev pub behind :
      ℕ
      → List (ℕ × PlayerDescription F)
      → Option (List (ℕ × PlayerDescription F))
      → Option (PlayerDescription F × Bool)
      → Option (List (ℕ × PlayerDescription F))
  behind k objects rest none = none
  behind k objects rest (some (d, true)) = some ((k, d) ∷ objects)
  behind k objects none (some (d, false)) = none
  behind k objects (some moved) (some (d, false)) = some ((k, d) ∷ moved)

  -- The loop over `mapObjects`, which ends with the function.
  unfoldable pub update_objects_locally :
      F → List (ℕ × PlayerDescription F) → Option (List (ℕ × PlayerDescription F))
  update_objects_locally elapsed [] = some []
  update_objects_locally elapsed ((k, d) ∷ objects) =
      behind k objects (update_objects_locally elapsed objects) (update_object elapsed d)
