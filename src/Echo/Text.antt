-- ===== src/Echo/Text.antt =====
-- What the programs use of std::string and std::getline. A position is a size_t, with `npos` for none.
use networking_projects.Prelude.{
  ℕ, suc, ◌+◌, ◌≡◌, ◌≢◌, refl, ap, false, List, [], ◌∷◌, ◌++◌, Option, none, some, All, Bool-cases,
  inl, inr, ◌==◌, ==_refl, ==_iff, ltb, if◌then◌else◌, arith, length, take, drop,
}

abbrev pub newline : ℕ
newline = 10

abbrev pub semicolon : ℕ
semicolon = 59

abbrev pub npos : ℕ
npos = 0xffff_ffff_ffff_ffff

find_from : ℕ → List ℕ → ℕ → ℕ
find_from c [] i = npos
find_from c (x ∷ xs) i = let later = find_from c xs (suc i) in if x == c then i else later

-- `s.find(c)`.
unfoldable pub find : List ℕ → ℕ → ℕ
unfolding find_from
find s c = find_from c s 0

-- `s.substr(pos, n)`, which throws when `pos` is beyond the end.
unfoldable pub substr : List ℕ → ℕ → ℕ → Option (List ℕ)
substr s pos n = if ltb (length s) pos then none else some (take n (drop pos s))

-- `s.pop_back()`, undefined on an empty string.
unfoldable pub pop_back : List ℕ → Option (List ℕ)
pop_back [] = none
pop_back (x ∷ []) = some []
pop_back (x ∷ y ∷ ys) = elim (pop_back (y ∷ ys)) [ none ↦ none | some zs ↦ some (x ∷ zs) ]

-- `std::getline`: the characters before the first newline.
unfoldable pub getline : List ℕ → List ℕ
getline [] = []
getline (x ∷ xs) = let rest = getline xs in if x == newline then [] else x ∷ rest

abbrev pub Lacks : ℕ → List ℕ → Type 0
Lacks c = All (λ x. x ≢ c)

pub differs : (x c : ℕ) → x ≢ c → (x == c) ≡ false
differs x c h = elim (Bool-cases (x == c)) [
  | inl same ↦ absurd (h ((==_iff x c).0 same))
  | inr other ↦ other
]

find_from-first :
    (c : ℕ) (a b : List ℕ) (i : ℕ) → Lacks c a → find_from c (a ++ c ∷ b) i ≡ length a + i
unfolding find_from
find_from-first c [] b i h = rw (==_refl c) (omega arith)
find_from-first c (x ∷ a) b i h =
    rw (differs x c h.0) (omega (arith, find_from-first c a b (suc i) h.1))

pub find-first : (c : ℕ) (a b : List ℕ) → Lacks c a → find (a ++ c ∷ b) c ≡ length a
unfolding find
find-first c a b h = omega (arith, find_from-first c a b 0 h)

find_from-absent : (c : ℕ) (a : List ℕ) (i : ℕ) → Lacks c a → find_from c a i ≡ npos
unfolding find_from
find_from-absent c [] i h = refl
find_from-absent c (x ∷ a) i h = rw (differs x c h.0) (find_from-absent c a (suc i) h.1)

pub find-absent : (c : ℕ) (a : List ℕ) → Lacks c a → find a c ≡ npos
unfolding find
find-absent c a h = find_from-absent c a 0 h

pub pop_back-append : (a : List ℕ) (c : ℕ) → pop_back (a ++ c ∷ []) ≡ some a
unfolding pop_back
pop_back-append [] c = refl
pop_back-append (x ∷ []) c = refl
pop_back-append (x ∷ y ∷ a) c = rw (pop_back-append (y ∷ a) c)

pub getline-line : (a b : List ℕ) → Lacks newline a → getline (a ++ newline ∷ b) ≡ a
unfolding getline
getline-line [] b h = refl
getline-line (x ∷ a) b h = rw (differs x newline h.0) (ap (◌∷◌ x) (getline-line a b h.1))
