-- ===== src/Game/World.antt =====
-- MMO_Game/include/game_settings.h, and how the client reads the map: `const std::string`'s operator[].
pub mod Border
use Prim.Native.String.{String}
use networking_projects.Prelude.{
  ◌>>=◌, ℕ, ◌+◌, ◌*◌, Bool, List, [], ◌∷◌, ◌++◌, Option, some, length, get_elem?, ◌==◌,
  if◌then◌else◌, codes,
}

-- `kWorldSize.x` and `kWorldSize.y`.
abbrev pub world_size : ℕ
world_size = 32

-- Adjacent literals are one text.
unfoldable pub lines : List String → List ℕ
lines [] = []
lines (s ∷ rest) = codes s ++ lines rest

unfoldable pub world_map : List ℕ
world_map = lines (
    "################################" ∷ "#..............................#"
    ∷ "#..............................#" ∷ "#..............................#"
    ∷ "#..............................#" ∷ "#..............................#"
    ∷ "#..............................#" ∷ "#..............................#"
    ∷ "#..............................#" ∷ "#..............................#"
    ∷ "#..............................#" ∷ "#..............................#"
    ∷ "#..........####...####.........#" ∷ "#..........#.........#.........#"
    ∷ "#..........#.........#.........#" ∷ "#..........#.........#.........#"
    ∷ "#..........##############......#" ∷ "#..............................#"
    ∷ "#..................#.#.#.#.....#" ∷ "#..............................#"
    ∷ "#..................#.#.#.#.....#" ∷ "#..............................#"
    ∷ "#..............................#" ∷ "#..............................#"
    ∷ "#..............................#" ∷ "#..............................#"
    ∷ "#..............................#" ∷ "#..............................#"
    ∷ "#..............................#" ∷ "#..............................#"
    ∷ "#..............................#" ∷ "################################" ∷ [])

-- `MMOGame::sWorldMap` and `MMOGame::vWorldSize`.
abbrev pub game_map : List ℕ
game_map = world_map

abbrev pub game_size : ℕ
game_size = world_size

-- The character at a position: at the end it is 0, and beyond it the access is undefined.
unfoldable pub char_at : List ℕ → ℕ → Option ℕ
char_at text i = if i == length text then some 0 else get_elem? text i

-- `sWorldMap[y * vWorldSize.x + x] == '#'`.
unfoldable pub is_wall : ℕ → ℕ → Option Bool
unfolding char_at
is_wall x y = do c ← char_at game_map (y * game_size + x); some (c == b'#')
