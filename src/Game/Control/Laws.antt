-- ===== src/Game/Control/Laws.antt =====
-- What the keys do to the player's object, and to no other.
use networking_projects.Prelude.{
  if◌then◌else◌, ◌||◌, not, ℕ, ◌≡◌, refl, false, List, some, ◌==◌, arith,
}
use networking_projects.Game.Common.{PlayerDescription}
use networking_projects.Game.Numbers.{Numbers}
use networking_projects.Game.GameServer.{find}
use networking_projects.Game.GameServer.Maps.{find-insert_or_assign, find-insert_or_assign_other}
use networking_projects.Game.Control.{
  Key, Keys, object_at, vector, nought, steer, down, turn, shoot, control, control_of_player_object,
}

-- None of the keys that steer is down.
abbrev pub IsIdle : Keys → Type 0
IsIdle keys =
    (down keys.w ≡ false) × (down keys.s ≡ false) × (down keys.a ≡ false) × (down keys.d ≡ false)

module _ {F : Type 0} (numbers : Numbers F) where
  open numbers use {cos, sin}

  -- What the keys leave of a description, and what they make of its bullet.
  abbrev pub Controlled : Keys → PlayerDescription F → PlayerDescription F → Type 0
  Controlled keys d d' =
      (d'.unique_id ≡ d.unique_id)
      × (d'.pos ≡ d.pos)
      × (d'.bullet_pos ≡ d.bullet_pos)
      × (d'.bullet_was_shot_and_still_exist
          ≡ (d.bullet_was_shot_and_still_exist || keys.space.pressed))
      × (d'.bullet_vel ≡ (
          if d.bullet_was_shot_and_still_exist || not keys.space.pressed
          then d.bullet_vel
          else vector numbers (cos d'.yaw) (sin d'.yaw)))

  held : (key : Key) → down key ≡ false → key.held ≡ false
  held key h = ground arith

  steer-IsIdle :
      (keys : Keys)
      → IsIdle keys
      → steer numbers keys ≡ vector numbers (nought numbers) (nought numbers)
  unfolding steer
  steer-IsIdle keys (w, s, a, d) =
      rw (held keys.w w, held keys.s s, held keys.a a, held keys.d d) refl

  turn-IsIdle : (keys : Keys) (yaw : F) → IsIdle keys → turn numbers keys yaw ≡ yaw
  unfolding turn
  turn-IsIdle keys yaw (w, s, a, d) =
      rw (w, s, a, d, held keys.w w, held keys.s s, held keys.a a, held keys.d d) refl

  -- While no key that steers is down, the velocity is zero and the yaw stays.
  control-IsIdle :
      (keys : Keys) (d : PlayerDescription F)
      → IsIdle keys
      → ((control numbers keys d).vel ≡ vector numbers (nought numbers) (nought numbers))
        × ((control numbers keys d).yaw ≡ d.yaw)
  unfolding control shoot
  control-IsIdle keys d idle =
      (ground (arith, steer-IsIdle keys idle), ground (arith, turn-IsIdle keys d.yaw idle))

  control-Controlled :
      (keys : Keys) (d : PlayerDescription F) → Controlled keys d (control numbers keys d)
  unfolding control shoot
  control-Controlled keys d = (ground arith, ground arith, ground arith, ground arith, ground arith)

  pub find-control_of_player_object :
      (keys : Keys) (fresh : PlayerDescription F) (id : ℕ)
      (objects : List (ℕ × PlayerDescription F))
      → find id (control_of_player_object numbers keys fresh id objects)
        ≡ some (control numbers keys (object_at fresh id objects))
  unfolding control_of_player_object
  find-control_of_player_object keys fresh id objects =
      find-insert_or_assign id (control numbers keys (object_at fresh id objects)) objects

  -- After the keys were read, the player's object, made anew if it was not there, has its identifier and
  -- position, and its bullet its position; a bullet exists if there was one or the space bar was
  -- pressed, with the velocity that it had, or if it is new, the cosine and the sine of the new yaw; and
  -- an object under another identifier is as it was.
  pub control_of_player_object_lem :
      (keys : Keys) (fresh : PlayerDescription F) (id j : ℕ)
      (objects : List (ℕ × PlayerDescription F))
      → (id == j) ≡ false
      → let objects' = control_of_player_object numbers keys fresh id objects in
        let d' = control numbers keys (object_at fresh id objects) in
        (find id objects' ≡ some d')
        × Controlled keys (object_at fresh id objects) d'
        × (find j objects' ≡ find j objects)
  unfolding control_of_player_object
  control_of_player_object_lem keys fresh id j objects other =
      let d = object_at fresh id objects in
      (
        find-control_of_player_object keys fresh id objects,
        control-Controlled keys d,
        find-insert_or_assign_other id j (control numbers keys d) objects other,
      )
