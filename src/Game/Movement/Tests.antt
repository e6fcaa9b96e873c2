-- ===== src/Game/Movement/Tests.antt =====
-- Three players with whole coordinates; the bullet of the second flies into the corner of the map.
use networking_projects.Prelude.{
  inr, ℕ, ◌≡◌, ◌↔◌, true, List, [], ◌∷◌, ◌++◌, none, some, refl, arith,
}
use networking_projects.Game.Common.{Point, PlayerDescription}
use networking_projects.Game.Sample.{sample_player}
use networking_projects.Game.Sample.Floats.{whole}
use networking_projects.Game.World.{is_wall, char_at, world_map, lines}
use networking_projects.Game.Movement.{
  Area, one_less, one_more, to_cell, floor_cell, areas, area_around, rows, columns, hit_row,
  hits_wall, nearest, push_out, resolve_row, resolve, update_object, update_objects_locally,
}
use networking_projects.Game.Movement.Walls.{area_of, area_around-cells, Leaves, collision-none_iff}
use networking_projects.Game.Movement.OneObject.{IsFree, Flies, onward, bereft, free-Flies}
use networking_projects.Game.Movement.Objects.{
  Move, Advance, all_kept, update_objects_locally-stops, update_objects_locally-kept,
}
use networking_projects.Game.Movement.Bullets.{hits_wall-border}

abbrev origin : Point ℕ
origin = record { x = 0; y = 0 }

-- The last row but one of the map is out of reach of the loop, the last is not.
collision-none_iff_example :
    (resolve whole 1 (rows (area_of 5 31 6 30)) (columns (area_of 5 31 6 30)) origin ≡ none)
    ↔ Leaves 5 31 6 30
collision-none_iff_example =
    collision-none_iff whole 1 origin 5 31 6 30 (area_of 5 31 6 30) (omega arith) (omega arith)
      (area_around-cells 5 31 6 30 (omega arith) (omega arith))

hits_wall-border_example :
    hits_wall (rows (area_of 5 31 6 30)) (columns (area_of 5 31 6 30)) ≡ some true
hits_wall-border_example =
    hits_wall-border 5 31 6 30 (area_of 5 31 6 30) (omega arith) (omega arith)
      (area_around-cells 5 31 6 30 (omega arith) (omega arith)) (omega arith) (omega arith)
      (inr (inr (omega arith)))

-- A player whose bullet is in the open.
abbrev free_player : PlayerDescription ℕ
free_player = record (sample_player 7) {
  vel = record { x = 1; y = 0 };
  bullet_pos = record { x = 5; y = 8 };
}

abbrev around : Area
around = area_of 3 4 5 4

abbrev bullet_around : Area
bullet_around = area_of 5 8 5 8

areas_free : areas whole 2 free_player ≡ some (around, bullet_around)
unfolding areas floor_cell to_cell area_around one_less one_more
areas_free = refl

IsFree-around : IsFree (rows around) (columns around)
unfolding is_wall char_at world_map lines
IsFree-around = (
  (refl, (refl, (refl, (refl, (refl, tt))))),
  ((refl, (refl, (refl, (refl, (refl, tt))))), ((refl, (refl, (refl, (refl, (refl, tt))))), tt)),
)

IsFree-bullet_around : IsFree (rows bullet_around) (columns bullet_around)
unfolding is_wall char_at world_map lines
IsFree-bullet_around =
    ((refl, (refl, (refl, tt))), ((refl, (refl, (refl, tt))), ((refl, (refl, (refl, tt))), tt)))

flies : Flies whole 2 free_player (onward whole 2 free_player)
flies =
    free-Flies whole 2 free_player around bullet_around areas_free IsFree-around
      IsFree-bullet_around

front_moves : Move whole 2 ((7, free_player) ∷ []) ((7, onward whole 2 free_player) ∷ [])
front_moves = (refl, flies, tt)

abbrev still : Area
still = area_of 3 4 3 4

abbrev in_corner : Area
in_corner = area_of 0 0 0 0

abbrev stands : Point ℕ
stands = record { x = 3; y = 4 }

areas_shot : areas whole 2 (sample_player 8) ≡ some (still, in_corner)
unfolding areas floor_cell to_cell area_around one_less one_more
areas_shot = refl

stands_still : resolve whole 1 (rows still) (columns still) stands ≡ some stands
unfolding resolve resolve_row push_out nearest is_wall char_at world_map lines
stands_still = refl

meets_corner : hits_wall (rows in_corner) (columns in_corner) ≡ some true
unfolding hits_wall hit_row is_wall char_at world_map lines
meets_corner = refl

update_objects_locally-stops_example :
    update_objects_locally whole 2
      (((7, free_player) ∷ []) ++ (8, sample_player 8) ∷ (9, free_player) ∷ [])
    ≡ some (
        ((7, onward whole 2 free_player) ∷ [])
        ++ (8, bereft stands (sample_player 8)) ∷ (9, free_player) ∷ [])
update_objects_locally-stops_example =
    update_objects_locally-stops whole 2 ((7, free_player) ∷ [])
      ((7, onward whole 2 free_player) ∷ []) ((9, free_player) ∷ []) 8 (sample_player 8) still
      in_corner stands front_moves areas_shot stands_still meets_corner

abbrev objects : List (ℕ × PlayerDescription ℕ)
objects = (7, free_player) ∷ (8, sample_player 8) ∷ (9, free_player) ∷ []

abbrev objects_after : List (ℕ × PlayerDescription ℕ)
objects_after =
    (7, onward whole 2 free_player) ∷ (8, bereft stands (sample_player 8)) ∷ (9, free_player) ∷ []

frame : update_objects_locally whole 2 objects ≡ some objects_after
unfolding update_objects_locally update_object areas floor_cell to_cell area_around one_less
    one_more resolve resolve_row push_out nearest hits_wall hit_row is_wall char_at world_map lines
frame = refl

update_objects_locally-kept_example :
    (all_kept whole objects_after ≡ all_kept whole objects) × Advance whole 2 objects objects_after
update_objects_locally-kept_example =
    update_objects_locally-kept whole 2 objects objects_after frame
