-- ===== src/Game/Screen/Visible.antt =====
-- Which walls `DrawWorld` shows.
use native.Mathlib.Decide.{ℕ_discrete}
use networking_projects.Prelude.{
  ℕ, zero, suc, ◌+◌, ◌-◌, ◌<◌, ◌≤◌, ◌≡◌, refl, sym, ap, ◌∙◌, subst, Bool, true, false, List, [],
  ◌∷◌, ◌++◌, append_assoc, some, All, All-append, arith, some-eq,
}
use networking_projects.Prelude.Int.{ℤ, pos, negsuc, ltb_ℤ, min_ℤ, max_ℤ, to_nat}
use networking_projects.Game.Common.{Point}
use networking_projects.Game.Numbers.{Numbers}
use networking_projects.Game.World.{world_size, is_wall}
use networking_projects.Game.World.Border.{is_wall-defined}
use networking_projects.Game.Movement.{count_from}
use networking_projects.Game.Screen.{View, Call, wall_calls, draw_row, draw_rows, draw_world}

-- A tile is not before the top left tile of the view, and before the bottom right one.
abbrev pub IsVisible : Point ℤ → Point ℤ → ℕ → ℕ → Type 0
IsVisible tl br x y =
    (ltb_ℤ (pos x) tl.x ≡ false)
    × (ltb_ℤ (pos y) tl.y ≡ false)
    × (ltb_ℤ (pos x) br.x ≡ true)
    × (ltb_ℤ (pos y) br.y ≡ true)

fits : (b : ℤ) (a : ℕ) → to_nat (min_ℤ b (pos world_size)) - a ≤ 32 - a
fits (pos b) a = ground arith
fits (negsuc b) a = ground arith

lower : (x : ℕ) (a : ℤ) → ltb_ℤ (pos x) a ≡ false → to_nat (max_ℤ a (pos 0)) ≤ x
lower x (pos a) h = ground arith
lower x (negsuc a) h = ground arith

upper :
    (x : ℕ) (b : ℤ) (a : ℕ)
    → x < 32
    → ltb_ℤ (pos x) b ≡ true
    → a ≤ x
    → x < a + (to_nat (min_ℤ b (pos world_size)) - a)
upper x (pos b) a hx h l = ground arith
upper x (negsuc b) a hx h l = absurd (ground arith)

module _ {F V : Type 0} (numbers : Numbers F) (view : View F V) where
  open view use {top_left_tile, bottom_right_tile}

  -- The two rectangles of a wall stand somewhere among the calls, in a row.
  abbrev pub Shows : ℕ → ℕ → List (Call F) → Type 0
  Shows x y calls =
      (before : List (Call F)) × (after : List (Call F)) × (calls
        ≡ before ++ (wall_calls numbers view x y ++ after))

  -- A wall of the map.
  abbrev pub IsWallAt : ℕ → ℕ → Type 0
  IsWallAt x y = (x < 32) × (y < 32) × (is_wall x y ≡ some true)

  -- Each call draws one of the two rectangles of a wall.
  abbrev pub OnlyWalls : List (Call F) → Type 0
  OnlyWalls = All λ c.
      (x : ℕ) × (y : ℕ) × IsWallAt x y
      × (before : List (Call F)) × (after : List (Call F)) × (wall_calls numbers view x y
          ≡ before ++ c ∷ after)

  Shows-later :
      (x y : ℕ) (front calls : List (Call F)) → Shows x y calls → Shows x y (front ++ calls)
  Shows-later x y front calls (before, after, e) =
      (front ++ before, after, ap (◌++◌ front) e ∙ sym (append_assoc front before _))

  Shows-front : (x y : ℕ) (calls rest : List (Call F)) → Shows x y calls → Shows x y (calls ++ rest)
  Shows-front x y calls rest (before, after, e) =
      let walls = wall_calls numbers view x y in
      (
        before,
        after ++ rest,
        ap (λ l. l ++ rest) e
            ∙ append_assoc before (walls ++ after) rest
            ∙ ap (◌++◌ before) (append_assoc walls after rest),
      )

  OnlyWalls-wall_calls : (x y : ℕ) → IsWallAt x y → OnlyWalls (wall_calls numbers view x y)
  OnlyWalls-wall_calls x y wall = ((x, y, wall, [], _, refl), ((x, y, wall, _ ∷ [], [], refl), tt))

  -- The walls of a row, from a tile on.
  abbrev Row : ℕ → ℕ → ℕ → Type 0
  Row y a n =
      (calls : List (Call F)) × (draw_row numbers view y (count_from a n) ≡ some calls)
      × OnlyWalls calls
      × ((x : ℕ) → a ≤ x → x < a + n → is_wall x y ≡ some true → Shows x y calls)

  Row-step :
      (y a n : ℕ) (wall : Bool)
      → a < 32
      → y < 32
      → is_wall a y ≡ some wall
      → Row y (suc a) n
      → Row y a (suc n)
  unfolding draw_row
  Row-step y a n true ha hy e (calls, drawn, only, shown) =
      let walls = wall_calls numbers view a y in
      (
        walls ++ calls,
        rw (e, drawn) refl,
        All-append _ walls calls (OnlyWalls-wall_calls a y (ha, hy, e)) only,
        λ x l u wall. elim (ℕ_discrete a x) [
          | yes here ↦ subst (λ i. Shows i y (walls ++ calls)) here ([], calls, refl)
          | no later ↦
              Shows-later x y walls calls (shown x (omega (arith, later)) (omega arith) wall)
        ],
      )
  Row-step y a n false ha hy e (calls, drawn, only, shown) = (
    calls,
    rw (e, drawn) refl,
    only,
    λ x l u wall. elim (ℕ_discrete a x) [
      | yes here ↦
          absurd (clash (some-eq (sym e ∙ subst (λ i. is_wall i y ≡ some true) (sym here) wall)))
      | no later ↦ shown x (omega (arith, later)) (omega arith) wall
    ],
  )
    where
      clash : false ≡ true → ⊥
      clash h = ground arith

  row : (y a n : ℕ) → n ≤ 32 - a → y < 32 → Row y a n
  unfolding draw_row
  row y a zero h hy = ([], refl, tt, λ x l u wall. absurd (omega arith))
  row y a (suc n) h hy =
      let (wall, e) = is_wall-defined a y (omega arith) in
      Row-step y a n wall (omega arith) hy e (row y (suc a) n (omega arith) hy)

  abbrev Rows : ℕ → ℕ → ℕ → ℕ → Type 0
  Rows top m a n =
      (calls : List (Call F)) × (draw_rows numbers view (count_from top m) (count_from a n)
        ≡ some calls)
      × OnlyWalls calls
      × ((x y : ℕ)
          → a ≤ x
          → x < a + n
          → top ≤ y
          → y < top + m
          → is_wall x y ≡ some true
          → Shows x y calls)

  all-Rows : (top m a n : ℕ) → n ≤ 32 - a → m ≤ 32 - top → Rows top m a n
  unfolding draw_rows
  all-Rows top zero a n h k = ([], refl, tt, λ x y l u l' u' wall. absurd (omega arith))
  all-Rows top (suc m) a n h k =
      let (calls, drawn, only, shown) = row top a n h (omega arith) in
      let (rest, drawn', only', shown') = all-Rows (suc top) m a n h (omega arith) in
      (
        calls ++ rest,
        rw (drawn, drawn') refl,
        All-append _ calls rest only only',
        λ x y l u l' u' wall. elim (ℕ_discrete top y) [
          | yes here ↦ Shows-front x y calls rest (
              subst (λ j. Shows x j calls) here
                (shown x l u (subst (λ j. is_wall x j ≡ some true) (sym here) wall)))
          | no later ↦
              Shows-later x y calls rest (shown' x y l u (omega (arith, later)) (omega arith) wall)
        ],
      )

  drawn_world :
      (tv : V)
      → (calls : List (Call F)) × (draw_world numbers view tv ≡ some calls)
        × OnlyWalls calls
        × ((x y : ℕ)
            → IsVisible (top_left_tile tv) (bottom_right_tile tv) x y
            → IsWallAt x y
            → Shows x y calls)
  unfolding draw_world
  drawn_world tv =
      let tl = top_left_tile tv in
      let br = bottom_right_tile tv in
      let left = to_nat (max_ℤ tl.x (pos 0)) in
      let top = to_nat (max_ℤ tl.y (pos 0)) in
      let (calls, drawn, only, shown) = all-Rows _ _ _ _ (fits br.x left) (fits br.y top) in
      (
        calls,
        drawn,
        only,
        λ x y (l, l', u, u') (hx, hy, wall).
            let from_left = lower x tl.x l in
            let from_top = lower y tl.y l' in
            shown x y from_left (upper x br.x left hx u from_left) from_top
              (upper y br.y top hy u' from_top) wall,
      )

  -- Wherever the view looks, the map is read inside its bounds.
  pub draw_world-defined :
      (tv : V) → (calls : List (Call F)) × (draw_world numbers view tv ≡ some calls)
  draw_world-defined tv = let (calls, drawn, only, shown) = drawn_world tv in (calls, drawn)

  -- The world is drawn, as walls only, with the wall at these coordinates among them.
  abbrev pub DrawsWall : V → ℕ → ℕ → Type 0
  DrawsWall tv x y =
      (calls : List (Call F)) × (draw_world numbers view tv ≡ some calls)
      × OnlyWalls calls
      × Shows x y calls

  -- When a tile of the map that the view shows is a wall, the world is drawn without a read outside the
  -- map, the tile is drawn by its two rectangles, and each rectangle drawn is one of a wall of the map.
  pub draw_world-shows :
      (tv : V) (x y : ℕ)
      → IsVisible (top_left_tile tv) (bottom_right_tile tv) x y
      → IsWallAt x y
      → DrawsWall tv x y
  draw_world-shows tv x y visible wall =
      let (calls, drawn, only, shown) = drawn_world tv in
      (calls, drawn, only, shown x y visible wall)
