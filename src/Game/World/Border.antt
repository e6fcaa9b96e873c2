-- ===== src/Game/World/Border.antt =====
-- What is known of the map: which accesses to it are defined, and that it is walled in.
use networking_projects.Prelude.{
  ◌>>=◌, ℕ, zero, suc, ◌+◌, ◌*◌, ◌/◌, ◌%◌, ◌<◌, ◌≤◌, ◌≡◌, refl, sym, ap, ◌∙◌, Bool, true, false,
  not, ◌||◌, List, [], ◌∷◌, Option, none, some, length, arith, ◌⊎◌, get_elem?, ◌==◌, Bool-cases,
  inl, inr,
}
use mathlib.Core.Path.{ap₂}
use networking_projects.Prelude.Bits.{passes, passes-at}
use networking_projects.Game.World.{world_size, world_map, lines, is_wall, char_at}

length-world_map : length world_map ≡ 1024
unfolding world_map lines
length-world_map = refl

get_elem?-inside :
    {A : Type 0} (l : List A) (i : ℕ) → i < length l → (a : A) × (get_elem? l i ≡ some a)
get_elem?-inside [] i h = absurd (omega arith)
get_elem?-inside (x ∷ l) zero h = (x, refl)
get_elem?-inside (x ∷ l) (suc i) h = get_elem?-inside l i (omega arith)

get_elem?-outside : {A : Type 0} (l : List A) (i : ℕ) → length l ≤ i → get_elem? l i ≡ none
get_elem?-outside [] i h = refl
get_elem?-outside (x ∷ l) zero h = absurd (omega arith)
get_elem?-outside (x ∷ l) (suc i) h = get_elem?-outside l i (omega arith)

char_at-defined : (text : List ℕ) (i : ℕ) → i ≤ length text → (c : ℕ) × (char_at text i ≡ some c)
unfolding char_at
char_at-defined text i h = elim (Bool-cases (i == length text)) [
  | inl last ↦ (0, rw last refl)
  | inr other ↦ let (c, e) = get_elem?-inside text i (ground arith) in (c, rw other e)
]

char_at-undefined : (text : List ℕ) (i : ℕ) → length text < i → char_at text i ≡ none
unfolding char_at
char_at-undefined text i h = elim (Bool-cases (i == length text)) [
  | inl last ↦ absurd (ground arith)
  | inr other ↦ rw other (get_elem?-outside text i (omega arith))
]

-- An access is defined exactly up to one place behind the last cell.
pub is_wall-defined :
    (x y : ℕ) → y * world_size + x ≤ 1024 → (wall : Bool) × (is_wall x y ≡ some wall)
unfolding is_wall
is_wall-defined x y h =
    let (c, e) = char_at-defined world_map (y * world_size + x) (omega (arith, length-world_map)) in
    (c == b'#', ap (λ o. o >>= λ d. some (d == b'#')) e)

pub is_wall-undefined : (x y : ℕ) → 1024 < y * world_size + x → is_wall x y ≡ none
unfolding is_wall
is_wall-undefined x y h =
    ap (λ o. o >>= λ d. some (d == b'#'))
      (char_at-undefined world_map (y * world_size + x) (omega (arith, length-world_map)))

abbrev holds : Option Bool → Bool
holds none = false
holds (some b) = b

-- A cell of the first or last row or column, by its place in the map.
abbrev on_border : ℕ → Bool
on_border i =
    (i / world_size) == 0
    || (i / world_size) == 31
    || (i % world_size) == 0
    || (i % world_size) == 31

abbrev walled_in : ℕ → Bool
walled_in i = not (on_border i) || holds (is_wall (i % world_size) (i / world_size))

all_walled_in : passes walled_in 1024 ≡ true
unfolding is_wall char_at world_map lines
all_walled_in = refl

abbrev pub IsBorder : ℕ → ℕ → Type 0
IsBorder x y = ((x ≡ 0) ⊎ (x ≡ 31)) ⊎ ((y ≡ 0) ⊎ (y ≡ 31))

holds-some : (o : Option Bool) → holds o ≡ true → o ≡ some true
holds-some none h = absurd (ground arith)
holds-some (some true) h = refl
holds-some (some false) h = absurd (ground arith)

walled :
    (x y i : ℕ)
    → i % world_size ≡ x
    → i / world_size ≡ y
    → IsBorder x y
    → walled_in i ≡ true
    → holds (is_wall (i % world_size) (i / world_size)) ≡ true
walled x y i e f b h = ground arith

-- Every cell of the first or last row or column is a wall.
pub border-is_wall : (x y : ℕ) → x < 32 → y < 32 → IsBorder x y → is_wall x y ≡ some true
border-is_wall x y hx hy b =
    let i = y * world_size + x in
    let column : i % world_size ≡ x = omega arith in
    let row : i / world_size ≡ y = omega arith in
    let there =
      walled x y i column row b (passes-at walled_in 1024 i (omega arith) all_walled_in) in
    ap₂ is_wall (sym column) (sym row) ∙ holds-some _ there
