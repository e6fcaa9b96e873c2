-- ===== src/Game/Movement/Reads.antt =====
-- Which reads of the map the collision loop makes.
use native.Mathlib.Decide.{ℕ_discrete}
use networking_projects.Prelude.{
  ◌>>=◌, ℕ, zero, suc, ◌+◌, ◌*◌, ◌<◌, ◌≤◌, ◌≡◌, refl, ap, ◌∙◌, inl, inr, Bool, List, [], ◌∷◌,
  Option, none, some, All, arith, Option-cases, if◌then◌else◌,
}
use networking_projects.Game.Common.{Point}
use networking_projects.Game.Numbers.{Numbers}
use networking_projects.Game.World.{is_wall}
use networking_projects.Game.World.Border.{is_wall-defined, is_wall-undefined}
use networking_projects.Game.Movement.{count_from, push_out, resolve_row, resolve}

-- What holds of every number of a range holds of the list.
pub All-count_from :
    (P : ℕ → Type 0) (a n : ℕ) → ((i : ℕ) → a ≤ i → i < a + n → P i) → All P (count_from a n)
All-count_from P a zero h = tt
All-count_from P a (suc n) h = (
  h a (omega arith) (omega arith),
  All-count_from P (suc a) n (λ i l u. h i (omega arith) (omega arith)),
)

-- Every cell of the row is one that can be read.
abbrev pub IsReadable : ℕ → ℕ → Type 0
IsReadable y x = y * 32 + x ≤ 1024

module _ {F : Type 0} (numbers : Numbers F) (radius : F) where
  row-defined :
      (y : ℕ) (xs : List ℕ) (p : Point F)
      → All (IsReadable y) xs
      → (q : Point F) × (resolve_row numbers radius y xs p ≡ some q)
  unfolding resolve_row
  row-defined y [] p h = (p, refl)
  row-defined y (x ∷ xs) p h =
      let (wall, e) = is_wall-defined x y h.0 in
      let (q, f) = row-defined y xs (if wall then push_out numbers radius x y p else p) h.1 in
      (
        q,
        ap
              (λ o. o >>= λ w.
                resolve_row numbers radius y xs (if w then push_out numbers radius x y p else p))
              e
            ∙ f,
      )

  row-undefined :
      (y a n x : ℕ) (p : Point F)
      → a ≤ x
      → x < a + n
      → 1024 < y * 32 + x
      → resolve_row numbers radius y (count_from a n) p ≡ none
  unfolding resolve_row
  row-undefined y a zero x p l u out = absurd (omega arith)
  row-undefined y a (suc n) x p l u out = elim (ℕ_discrete a x) [
    | yes here ↦ ap (λ o. o >>= λ w. next w) (is_wall-undefined a y (omega (arith, here)))
    | no later ↦ elim (Option-cases (is_wall a y)) [
      | inl undefined ↦ ap (λ o. o >>= λ w. next w) undefined
      | inr (wall, e) ↦
          ap (λ o. o >>= λ w. next w) e
          ∙ row-undefined y (suc a) n x (if wall then push_out numbers radius a y p else p)
              (omega (arith, later)) (omega arith) out
    ]
  ]
    where
      next : Bool → Option (Point F)
      next w =
          resolve_row numbers radius y (count_from (suc a) n)
            (if w then push_out numbers radius a y p else p)

  pub resolve-defined :
      (ys xs : List ℕ) (p : Point F)
      → All (λ y. All (IsReadable y) xs) ys
      → (q : Point F) × (resolve numbers radius ys xs p ≡ some q)
  unfolding resolve
  resolve-defined [] xs p h = (p, refl)
  resolve-defined (y ∷ ys) xs p h =
      let (q, e) = row-defined y xs p h.0 in
      let (r, f) = resolve-defined ys xs q h.1 in
      (r, ap (λ o. o >>= λ t. resolve numbers radius ys xs t) e ∙ f)

  pub resolve-undefined :
      (top m a n y x : ℕ) (p : Point F)
      → top ≤ y
      → y < top + m
      → a ≤ x
      → x < a + n
      → 1024 < y * 32 + x
      → resolve numbers radius (count_from top m) (count_from a n) p ≡ none
  unfolding resolve
  resolve-undefined top zero a n y x p l u l' u' out = absurd (omega arith)
  resolve-undefined top (suc m) a n y x p l u l' u' out = elim (ℕ_discrete top y) [
    | yes here ↦
        ap (λ o. o >>= λ q. next q) (row-undefined top a n x p l' u' (omega (arith, here, out)))
    | no later ↦ elim (Option-cases (resolve_row numbers radius top (count_from a n) p)) [
      | inl undefined ↦ ap (λ o. o >>= λ q. next q) undefined
      | inr (q, e) ↦
          ap (λ o. o >>= λ t. next t) e
          ∙ resolve-undefined (suc top) m a n y x q (omega (arith, later)) (omega arith) l' u' out
    ]
  ]
    where
      next : Point F → Option (Point F)
      next q = resolve numbers radius (count_from (suc top) m) (count_from a n) q
