-- ===== src/Game/Movement/Bullets.antt =====
-- The search for a wall around a bullet, which ends at the first one and so never leaves the map at its
-- edge.
use Prim.Native.Nat.{min, max}
use native.Mathlib.Decide.{ℕ_discrete}
use networking_projects.Prelude.{
  ℕ, zero, suc, ◌+◌, ◌-◌, ◌<◌, ◌≤◌, ◌≡◌, refl, sym, subst, ◌∙◌, ◌⊎◌, inl, inr, Bool, true, false,
  Option, some, arith, some-eq,
}
use networking_projects.Game.World.{is_wall}
use networking_projects.Game.World.Border.{is_wall-defined, border-is_wall, IsBorder}
use networking_projects.Game.Movement.{
  Area, area_around, count_from, hit_row, hits_wall, rows, columns,
}
use networking_projects.Game.Movement.Walls.{cell, area_around-cells}

abbrev Settled : Option Bool → Type 0
Settled o = (o ≡ some true) ⊎ (o ≡ some false)

settled : (o : Option Bool) (b : Bool) → o ≡ some b → Settled o
settled o true e = inl e
settled o false e = inr e

is_wall-Settled : (x y : ℕ) → x < 32 → y < 32 → Settled (is_wall x y)
is_wall-Settled x y hx hy = let (b, e) = is_wall-defined x y (omega arith) in settled _ b e

-- A row that has a wall on the map has one for the search.
hit_row-wall :
    (y a n x : ℕ)
    → y < 32
    → x < 32
    → a ≤ x
    → x < a + n
    → is_wall x y ≡ some true
    → hit_row y (count_from a n) ≡ some true
unfolding hit_row
hit_row-wall y a zero x hy hx l u wall = absurd (omega arith)
hit_row-wall y a (suc n) x hy hx l u wall = elim (ℕ_discrete a x) [
  | yes here ↦ rw (here, wall, hit_row) refl
  | no later ↦ elim (is_wall-Settled a y (omega arith) hy) [
    | inl e ↦ rw (e, hit_row) refl
    | inr e ↦
        rw (e, hit_row) (hit_row-wall y (suc a) n x hy hx (omega (arith, later)) (omega arith) wall)
  ]
]

-- The search of a row of the map that begins inside it comes to an end: the last cell is a wall.
hit_row-ends : (y a n : ℕ) → y < 32 → a < 32 → Settled (hit_row y (count_from a n))
unfolding hit_row
hit_row-ends y a zero hy ha = inr refl
hit_row-ends y a (suc n) hy ha = elim (is_wall-Settled a y (omega arith) hy) [
  | inl e ↦ inl (rw (e, hit_row) refl)
  | inr e ↦ elim (ℕ_discrete a 31) [
    | yes last ↦ inl (rw (border-is_wall a y ha hy (inl (inr last)), hit_row) refl)
    | no inner ↦
        subst Settled (rw (e, hit_row) refl) (hit_row-ends y (suc a) n hy (omega (arith, inner)))
  ]
]

hits_wall-wall :
    (top m a n x y : ℕ)
    → x < 32
    → y < 32
    → a ≤ x
    → x < a + n
    → top ≤ y
    → y < top + m
    → is_wall x y ≡ some true
    → hits_wall (count_from top m) (count_from a n) ≡ some true
unfolding hits_wall
hits_wall-wall top zero a n x y hx hy l u l' u' wall = absurd (omega arith)
hits_wall-wall top (suc m) a n x y hx hy l u l' u' wall = elim (ℕ_discrete top y) [
  | yes here ↦
      let there =
        hit_row-wall top a n x (omega (arith, here)) hx l u
          (subst (λ t. is_wall x t ≡ some true) (sym here) wall) in
      rw (there, hits_wall) refl
  | no later ↦ elim (hit_row-ends top a n (omega arith) (omega arith)) [
    | inl e ↦ rw (e, hits_wall) refl
    | inr e ↦
        rw (e, hits_wall)
          (hits_wall-wall (suc top) m a n x y hx hy l u (omega (arith, later)) (omega arith) wall)
  ]
]

-- The cells within one of the lesser and the greater coordinate reach the edge of the map.
abbrev pub Touches : ℕ → ℕ → ℕ → ℕ → Type 0
Touches cx cy tx ty = ((min cx tx ≤ 1) ⊎ (30 ≤ max cx tx)) ⊎ ((min cy ty ≤ 1) ⊎ (30 ≤ max cy ty))

abbrev Edge : ℕ → ℕ → ℕ → ℕ → Type 0
Edge cx cy tx ty =
    (x : ℕ) × (y : ℕ) × (x < 32)
    × (y < 32)
    × IsBorder x y
    × (min cx tx - 1 ≤ x)
    × (x ≤ max cx tx + 1)
    × (min cy ty - 1 ≤ y)
    × (y ≤ max cy ty + 1)

edge : (cx cy tx ty : ℕ) → min cx tx ≤ 32 → min cy ty ≤ 32 → Touches cx cy tx ty → Edge cx cy tx ty
edge cx cy tx ty hx hy (inl (inl left)) = (
  0,
  min cy ty - 1,
  omega arith,
  omega arith,
  inl (inl refl),
  omega arith,
  omega arith,
  omega arith,
  omega arith,
)
edge cx cy tx ty hx hy (inl (inr right)) = (
  31,
  min cy ty - 1,
  omega arith,
  omega arith,
  inl (inr refl),
  omega arith,
  omega arith,
  omega arith,
  omega arith,
)
edge cx cy tx ty hx hy (inr (inl top)) = (
  min cx tx - 1,
  0,
  omega arith,
  omega arith,
  inr (inl refl),
  omega arith,
  omega arith,
  omega arith,
  omega arith,
)
edge cx cy tx ty hx hy (inr (inr bottom)) = (
  min cx tx - 1,
  31,
  omega arith,
  omega arith,
  inr (inr refl),
  omega arith,
  omega arith,
  omega arith,
  omega arith,
)

-- For a bullet that moves between two cells, whose coordinates are not negative and do not overflow
-- an int and whose lesser column and row are at most 32, when the cells around them reach the first or
-- the last row or column of the map, the search for a wall stays defined and finds one.
pub hits_wall-border :
    (cx cy tx ty : ℕ) (a : Area)
    → max cx tx < 0x7fff_ffff
    → max cy ty < 0x7fff_ffff
    → area_around (cell cx cy) (cell tx ty) ≡ some a
    → min cx tx ≤ 32
    → min cy ty ≤ 32
    → Touches cx cy tx ty
    → hits_wall (rows a) (columns a) ≡ some true
hits_wall-border cx cy tx ty a hx hy e near near' touches =
    let (x, y, inx, iny, border, l, u, l', u') = edge cx cy tx ty near near' touches in
    subst (λ b. hits_wall (rows b) (columns b) ≡ some true)
      (some-eq (sym (area_around-cells cx cy tx ty hx hy) ∙ e))
      (hits_wall-wall _ _ _ _ x y inx iny l (omega arith) l' (omega arith)
        (border-is_wall x y inx iny border))
