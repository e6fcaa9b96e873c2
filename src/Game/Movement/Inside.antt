-- ===== src/Game/Movement/Inside.antt =====
-- Where a frame is defined for every object.
use Prim.Native.Nat.{max}
use networking_projects.Prelude.{ℕ, ◌<◌, ◌≡◌, Option, some}
use networking_projects.Game.Common.{PlayerDescription}
use networking_projects.Game.Numbers.{Numbers}
use networking_projects.Game.Movement.{Area, areas}
use networking_projects.Game.Movement.Walls.{area_of}

abbrev pub IsDefined : {A : Type 0} → Option A → Type 0
IsDefined {A} o = (a : A) × (o ≡ some a)

-- Two cells, one before and one after a movement.
pub record Cells : Type 0 where
  pub cx : ℕ
  pub cy : ℕ
  pub tx : ℕ
  pub ty : ℕ

abbrev pub between : Cells → Area
between c = area_of c.cx c.cy c.tx c.ty

module _ {F : Type 0} (numbers : Numbers F) where
  -- An object and its bullet move between cells of the rows above the last of the map.
  abbrev pub IsInside : F → PlayerDescription F → Type 0
  IsInside elapsed d =
      (c : Cells) × (b : Cells) × (areas numbers elapsed d ≡ some (between c, between b))
      × (max c.cy c.ty < 31)
      × (max b.cy b.ty < 31)
