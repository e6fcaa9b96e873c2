-- ===== src/Prelude/Text.antt =====
-- Texts as lists of the codes of their characters.
use Prim.Native.Nat.{ℕ, zero, suc, ◌+◌, ◌/◌, ◌%◌}
use Prim.Native.Char.{code}
use Prim.Native.String.{String}
use mathlib.Core.List.{List, [], ◌∷◌, ◌++◌}
use networking_projects.Prelude.Tests.{ltb, if◌then◌else◌}

abbrev pub codes : String → List ℕ
codes String.[] = []
codes (String.◌∷◌ c s) = code c ∷ codes s

-- The decimal digits of a number, the last `n` of them at most.
abbrev pub digits : ℕ → ℕ → List ℕ
digits zero i = []
digits (suc n) i =
    let rest = digits n (i / 10) in (if ltb i 10 then [] else rest) ++ (b'0' + i % 10) ∷ []

-- `std::to_string` of a uint32_t, which has ten digits at most.
abbrev pub to_string : ℕ → List ℕ
to_string i = digits 10 i
