-- ===== src/Game/Sample.antt =====
-- A platform for the tests: a float is the number that its four bytes make up, and the flag at the end
-- of a description takes four bytes with its padding.
pub mod Floats
pub mod Scene
use networking_projects.Prelude.{true, ◌<◌, ◌^◌, refl, arith, ℕ, Bool, if◌then◌else◌, ◌==◌}
use networking_projects.Message.Layout.{Pod}
use networking_projects.Message.LittleEndian.{unsigned, pair, laid_out}
use networking_projects.Connection.Sample.{sample}
use networking_projects.Game.Common.{
  GameMsg, server_get_status, server_get_ping, client_accepted, client_assign_id,
  client_register_with_server, client_unregister_with_server, game_add_player, game_remove_player,
  game_update_player, other, Point, PlayerDescription,
}
use networking_projects.Game.GameServer.{GamePlatform}

-- The enumeration's values, in the order of the declaration.
abbrev pub code : GameMsg → ℕ
code server_get_status = 0
code server_get_ping = 1
code client_accepted = 2
code client_assign_id = 3
code client_register_with_server = 4
code client_unregister_with_server = 5
code game_add_player = 6
code game_remove_player = 7
code game_update_player = 8
code (other n) = n

abbrev pub named : ℕ → GameMsg
named n =
    if n == 0
    then server_get_status
    else if n == 1
    then server_get_ping
    else if n == 2
    then client_accepted
    else if n == 3
    then client_assign_id
    else if n == 4
    then client_register_with_server
    else if n == 5
    then client_unregister_with_server
    else if n == 6
    then game_add_player
    else if n == 7
    then game_remove_player
    else if n == 8
    then game_update_player
    else other n

abbrev pub flag_code : Bool → ℕ
flag_code flag = if flag then 1 else 0

abbrev pub flag_of : ℕ → Bool
flag_of n = n == 1

abbrev pub word : Pod ℕ
word = unsigned 4

abbrev pub flag : Pod Bool
flag = laid_out word flag_code flag_of

abbrev pub Two : Type 0
Two = ℕ × ℕ

abbrev pub Bullet : Type 0
Bullet = Two × (Two × (ℕ × Bool))

abbrev pub Members : Type 0
Members = ℕ × (ℕ × (ℕ × (Two × (Two × (ℕ × Bullet)))))

abbrev pub point : Pod Two
point = pair word word

abbrev pub two : Point ℕ → Two
two p = (p.x, p.y)

abbrev pub bullet : PlayerDescription ℕ → Bullet
bullet d =
    (two d.bullet_pos, (two d.bullet_vel, (d.bullet_radius, d.bullet_was_shot_and_still_exist)))

abbrev pub members : PlayerDescription ℕ → Members
members d = (d.unique_id, (d.avatar_id, (d.radius, (two d.pos, (two d.vel, (d.yaw, bullet d))))))

abbrev pub make : Members → PlayerDescription ℕ
make
      (
        uid,
        (avatar, (radius, ((px, py), ((vx, vy), (yaw, ((bx, by), ((wx, wy), (size, shot)))))))),
      ) =
    record {
      unique_id = uid;
      avatar_id = avatar;
      radius = radius;
      pos = record { x = px; y = py };
      vel = record { x = vx; y = vy };
      yaw = yaw;
      bullet_pos = record { x = bx; y = by };
      bullet_vel = record { x = wx; y = wy };
      bullet_radius = size;
      bullet_was_shot_and_still_exist = shot;
    }

abbrev pub member_pods : Pod Members
member_pods = pair word (
    pair word
      (pair word (pair point (pair point (pair word (pair point (pair point (pair word flag))))))))

abbrev pub game_sample : GamePlatform ℕ
game_sample = record {
  base = sample (laid_out word code named) server_get_status;
  desc = laid_out member_pods members make;
  id = word;
}

-- A player with this identifier.
abbrev pub sample_player : ℕ → PlayerDescription ℕ
sample_player uid = record {
  unique_id = uid;
  avatar_id = 2;
  radius = 1;
  pos = record { x = 3; y = 4 };
  vel = record { x = 0; y = 0 };
  yaw = 0;
  bullet_pos = record { x = 0; y = 0 };
  bullet_vel = record { x = 0; y = 0 };
  bullet_radius = 1;
  bullet_was_shot_and_still_exist = true;
}

pub sample_player-IsValue : (uid : ℕ) → uid < 2 ^ 32 → game_sample.desc.IsValue (sample_player uid)
sample_player-IsValue uid h = (
  (
    omega arith,
    (
      omega arith,
      (
        omega arith,
        (
          (omega arith, omega arith),
          (
            (omega arith, omega arith),
            (
              omega arith,
              (
                (omega arith, omega arith),
                ((omega arith, omega arith), (omega arith, (omega arith, refl))),
              ),
            ),
          ),
        ),
      ),
    ),
  ),
  refl,
)
