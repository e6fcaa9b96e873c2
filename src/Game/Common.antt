-- ===== src/Game/Common.antt =====
-- MMO_Game/include/MMO_Common.h. A float is a value of a type `F` that the development knows nothing
-- about; the client's coordinates only travel through the server.
use networking_projects.Prelude.{ℕ, Bool}

-- A GameMsg read from the network may hold any uint32_t: `other` is one that has no name.
pub data GameMsg : Type 0 where
  server_get_status server_get_ping : GameMsg
  client_accepted client_assign_id : GameMsg
  client_register_with_server client_unregister_with_server : GameMsg
  game_add_player game_remove_player game_update_player : GameMsg
  other : ℕ → GameMsg

pub record Point (F : Type 0) : Type 0 where
  pub x : F
  pub y : F

pub record PlayerDescription (F : Type 0) : Type 0 where
  pub unique_id : ℕ
  pub avatar_id : ℕ
  pub radius : F
  pub pos : Point F
  pub vel : Point F
  pub yaw : F
  pub bullet_pos : Point F
  pub bullet_vel : Point F
  pub bullet_radius : F
  pub bullet_was_shot_and_still_exist : Bool
