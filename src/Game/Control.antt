-- ===== src/Game/Control.antt =====
-- `ControlOfPlayerObject` of MMO_Game/src/MMO_Client.cpp: how the keys steer the player's object.
pub mod Laws
use networking_projects.Prelude.{ℕ, Bool, true, not, ◌&&◌, ◌||◌, List, none, some, if◌then◌else◌}
use networking_projects.Prelude.Int.{pos, negsuc}
use networking_projects.Game.Common.{Point, PlayerDescription}
use networking_projects.Game.Numbers.{Numbers}
use networking_projects.Game.GameServer.{find, insert_or_assign}

-- What the engine says of a key or a button in a frame.
pub record Key : Type 0 where
  pub pressed : Bool
  pub held : Bool
  pub released : Bool

pub record Keys : Type 0 where
  pub w : Key
  pub s : Key
  pub a : Key
  pub d : Key
  pub space : Key

-- `mapObjects[id]`, which makes the object, as `fresh`, when it is not there.
unfoldable pub object_at :
    {F : Type 0} → PlayerDescription F → ℕ → List (ℕ × PlayerDescription F) → PlayerDescription F
object_at fresh id objects = elim (find id objects) [ none ↦ fresh | some d ↦ d ]

abbrev pub down : Key → Bool
down key = key.pressed || key.held

module _ {F : Type 0} (numbers : Numbers F) where
  open numbers use {literal, negate, cos, sin, quarter_turns, add}

  abbrev pub vector : F → F → Point F
  vector x y = record { x = x; y = y }

  abbrev pub nought : F
  nought = literal 0 0

  abbrev one : F
  one = literal 1 0

  -- The velocity, from the keys that are held.
  unfoldable pub steer : Keys → Point F
  steer keys =
      let v = vector nought nought in
      let v = if keys.w.held then add v (vector nought (negate one)) else v in
      let v = if keys.s.held then add v (vector nought one) else v in
      let v = if keys.a.held then add v (vector (negate one) nought) else v in
      if keys.d.held then add v (vector one nought) else v

  -- The yaw, where the later tests take precedence.
  unfoldable pub turn : Keys → F → F
  turn keys yaw =
      let yaw = if down keys.w then quarter_turns (negsuc 1) else yaw in
      let yaw = if down keys.s then quarter_turns (pos 2) else yaw in
      let yaw = if down keys.a then quarter_turns (pos 4) else yaw in
      let yaw = if down keys.d then nought else yaw in
      let yaw = if keys.d.held && keys.w.held then quarter_turns (negsuc 0) else yaw in
      let yaw = if keys.a.held && keys.w.held then quarter_turns (pos 5) else yaw in
      let yaw = if keys.a.held && keys.s.held then quarter_turns (pos 3) else yaw in
      if keys.d.held && keys.s.held then quarter_turns (pos 1) else yaw

  unfoldable pub shoot : Keys → PlayerDescription F → PlayerDescription F
  shoot keys d =
      if keys.space.pressed && not d.bullet_was_shot_and_still_exist
      then record d {
        bullet_vel = vector (cos d.yaw) (sin d.yaw);
        bullet_was_shot_and_still_exist = true;
      }
      else d

  -- What the keys do to the object that they control.
  unfoldable pub control : Keys → PlayerDescription F → PlayerDescription F
  unfolding steer turn shoot
  control keys d = shoot keys (record d { vel = steer keys; yaw = turn keys d.yaw })

  unfoldable pub control_of_player_object :
      Keys
      → PlayerDescription F
      → ℕ
      → List (ℕ × PlayerDescription F)
      → List (ℕ × PlayerDescription F)
  unfolding object_at control
  control_of_player_object keys fresh id objects =
      insert_or_assign id (control keys (object_at fresh id objects)) objects
