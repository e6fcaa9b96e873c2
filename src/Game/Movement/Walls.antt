-- ===== src/Game/Movement/Walls.antt =====
-- Where the collision loop leaves the map.
use Prim.Native.Nat.{min, max}
use native.Mathlib.Decide.{dec_le}
use networking_projects.Prelude.{
  ℕ, zero, suc, ◌+◌, ◌-◌, ◌*◌, ◌<◌, ◌≤◌, ◌≡◌, ◌↔◌, refl, sym, subst, ◌∙◌, ◌⊎◌, inl, inr, Option,
  none, some, arith, some≢none, some-eq,
}
use networking_projects.Prelude.Int.{ℤ, pos, min_ℤ, max_ℤ, pred_ℤ, to_nat}
use networking_projects.Game.Common.{Point}
use networking_projects.Game.Numbers.{Numbers}
use networking_projects.Game.Movement.Reads.{All-count_from, resolve-defined, resolve-undefined}
use networking_projects.Game.Movement.{
  Area, area_around, one_less, one_more, resolve, rows, columns,
}

-- The cell with these coordinates.
abbrev pub cell : ℕ → ℕ → Point ℤ
cell x y = record { x = pos x; y = pos y }

abbrev pub area_of : ℕ → ℕ → ℕ → ℕ → Area
area_of cx cy tx ty = record {
  left = min cx tx - 1;
  top = min cy ty - 1;
  right = pos (min (max cx tx + 1) 32);
  bottom = pos (min (max cy ty + 1) 32);
}

lower : (a b : ℕ) → one_less (min_ℤ (pos a) (pos b)) ≡ some (pred_ℤ (pos (min a b)))
unfolding one_less
lower a b = ground arith

lower-to_nat : (n : ℕ) → to_nat (max_ℤ (pred_ℤ (pos n)) (pos 0)) ≡ n - 1
lower-to_nat zero = refl
lower-to_nat (suc n) = ground arith

upper :
    (a b : ℕ) → max a b < 0x7fff_ffff → one_more (max_ℤ (pos a) (pos b)) ≡ some (pos (max a b + 1))
unfolding one_more
upper a b h = ground arith

upper-min : (n : ℕ) → min_ℤ (pos n) (pos 32) ≡ pos (min n 32)
upper-min n = ground arith

-- The area between two cells that are not too far out to be computed with.
pub area_around-cells :
    (cx cy tx ty : ℕ)
    → max cx tx < 0x7fff_ffff
    → max cy ty < 0x7fff_ffff
    → area_around (cell cx cy) (cell tx ty) ≡ some (area_of cx cy tx ty)
unfolding area_around one_less one_more
area_around-cells cx cy tx ty hx hy =
    rw
      (
        lower cx tx,
        lower cy ty,
        upper cx tx hx,
        upper cy ty hy,
        lower-to_nat (min cx tx),
        lower-to_nat (min cy ty),
        upper-min (max cx tx + 1),
        upper-min (max cy ty + 1),
      )
      refl

-- Where the loop over such an area leaves the map.
abbrev pub Leaves : ℕ → ℕ → ℕ → ℕ → Type 0
Leaves cx cy tx ty = (31 ≤ max cy ty) × (min cy ty ≤ 33) × (min cx tx ≤ 33)

Leaves-cases :
    (cx cy tx ty : ℕ)
    → Leaves cx cy tx ty ⊎ ((max cy ty < 31) ⊎ ((33 < min cy ty) ⊎ (33 < min cx tx)))
Leaves-cases cx cy tx ty = elim (dec_le 31 (max cy ty)) [
  | no h ↦ inr (inl (omega (arith, h)))
  | yes h ↦ elim (dec_le (min cy ty) 33) [
    | no k ↦ inr (inr (inl (omega (arith, k))))
    | yes k ↦ elim (dec_le (min cx tx) 33) [
      | no l ↦ inr (inr (inr (omega (arith, l))))
      | yes l ↦ inl (h, k, l)
    ]
  ]
]

-- Where the rows or the columns keep away from the end of the map, every cell of the area can be read.
pub readable :
    (cx cy tx ty y x : ℕ)
    → (max cy ty < 31) ⊎ ((33 < min cy ty) ⊎ (33 < min cx tx))
    → min cy ty - 1 ≤ y
    → y < min cy ty - 1 + (suc (min (max cy ty + 1) 32) - (min cy ty - 1))
    → min cx tx - 1 ≤ x
    → x < min cx tx - 1 + (suc (min (max cx tx + 1) 32) - (min cx tx - 1))
    → y * 32 + x ≤ 1024
readable cx cy tx ty y x h l u l' u' = omega (arith, h)

module _ {F : Type 0} (numbers : Numbers F) where
  abbrev loop : F → Point F → Area → Option (Point F)
  loop radius p a = resolve numbers radius (rows a) (columns a) p

  pub inside :
      (radius : F) (p : Point F) (cx cy tx ty : ℕ)
      → (max cy ty < 31) ⊎ ((33 < min cy ty) ⊎ (33 < min cx tx))
      → (q : Point F) × (loop radius p (area_of cx cy tx ty) ≡ some q)
  inside radius p cx cy tx ty h = resolve-defined numbers radius _ _ p (
      All-count_from _ _ _
        λ y l u. All-count_from _ _ _ λ x l' u'. readable cx cy tx ty y x h l u l' u')

  outside :
      (radius : F) (p : Point F) (cx cy tx ty : ℕ)
      → Leaves cx cy tx ty
      → loop radius p (area_of cx cy tx ty) ≡ none
  outside radius p cx cy tx ty (low, h, w) =
      resolve-undefined numbers radius (min cy ty - 1)
        (suc (min (max cy ty + 1) 32) - (min cy ty - 1)) (min cx tx - 1)
        (suc (min (max cx tx + 1) 32) - (min cx tx - 1)) 32 (min (max cx tx + 1) 32) p (omega arith)
        (omega arith) (omega arith) (omega arith) (omega arith)

  -- The collision loop for an object between two cells, whose coordinates are not negative and do not
  -- overflow an int, leaves the map, which is undefined, exactly if the greater of the two rows is 31
  -- or more and the lesser row and column are not beyond 33.
  pub collision-none_iff :
      (radius : F) (p : Point F) (cx cy tx ty : ℕ) (a : Area)
      → max cx tx < 0x7fff_ffff
      → max cy ty < 0x7fff_ffff
      → area_around (cell cx cy) (cell tx ty) ≡ some a
      → (resolve numbers radius (rows a) (columns a) p ≡ none) ↔ Leaves cx cy tx ty
  collision-none_iff radius p cx cy tx ty a hx hy e =
      subst (λ b. (loop radius p b ≡ none) ↔ Leaves cx cy tx ty)
        (some-eq (sym (area_around-cells cx cy tx ty hx hy) ∙ e))
        (
          λ undefined. elim (Leaves-cases cx cy tx ty) [
            | inl leaves ↦ leaves
            | inr stays ↦
                let (q, defined) = inside radius p cx cy tx ty stays in
                absurd (some≢none (sym defined ∙ undefined))
          ],
          outside radius p cx cy tx ty,
        )
