-- ===== src/Game/Sample/Floats.antt =====
-- Whole numbers in place of floats, for the tests.
use networking_projects.Prelude.{ℕ, ◌+◌, ◌-◌, ◌*◌, ◌/◌, ◌^◌, false, some, ltb}
use networking_projects.Prelude.Int.{pos, to_nat}
use networking_projects.Game.Numbers.{Numbers}

abbrev pub whole : Numbers ℕ
whole = record {
  literal = λ n k. n / 10 ^ k;
  negate = λ a. 0;
  minus = λ a b. a - b;
  times = λ a b. a * b;
  less = ltb;
  is_nan = λ a. false;
  of_int = to_nat;
  to_int = λ a. some (pos a);
  floor = λ a. a;
  cos = λ a. 1;
  sin = λ a. 0;
  quarter_turns = to_nat;
  add = λ p q. record { x = p.x + q.x; y = p.y + q.y };
  sub = λ p q. record { x = p.x - q.x; y = p.y - q.y };
  scale = λ p a. record { x = p.x * a; y = p.y * a };
  mag = λ p. p.x + p.y;
  norm = λ p. p;
}
