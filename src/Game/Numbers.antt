-- ===== src/Game/Numbers.antt =====
-- Floats, and the vectors of the engine: nothing is known of them but their names. A literal n / 10 ^ k
-- is `literal n k`.
use networking_projects.Prelude.{ℕ, Bool, Option}
use networking_projects.Prelude.Int.{ℤ}
use networking_projects.Game.Common.{Point}

pub record Numbers (F : Type 0) : Type 0 where
  pub literal : ℕ → ℕ → F
  pub negate : F → F
  pub minus : F → F → F
  pub times : F → F → F
  pub less : F → F → Bool
  pub is_nan : F → Bool
  pub of_int : ℤ → F
  -- The conversion to int, undefined outside its range, and `std::floor`.
  pub to_int : F → Option ℤ
  pub floor : F → F
  pub cos : F → F
  pub sin : F → F
  -- The float nearest to so many times M_PI / 4.
  pub quarter_turns : ℤ → F
  -- `+`, `-`, `* float`, `mag` and `norm` of olc::vf2d.
  pub add : Point F → Point F → Point F
  pub sub : Point F → Point F → Point F
  pub scale : Point F → F → Point F
  pub mag : Point F → F
  pub norm : Point F → Point F
