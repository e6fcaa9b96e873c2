-- ===== src/Message/LittleEndian.antt =====
-- Layouts that a common compiler gives: numbers in little-endian order, and a structure's members one
-- after another. The tests use them in place of the parameter that `Layout` makes of the compiler.
use networking_projects.Prelude.{
  ℕ, zero, suc, ◌+◌, ◌*◌, ◌/◌, ◌%◌, ◌<◌, ◌≡◌, refl, ap, ◌∙◌, List, [], ◌∷◌, ◌++◌, arith, length,
  take, drop, length-append, take-append, drop-append,
}
use mathlib.Core.Path.{ap₂, sym}
use networking_projects.Message.Layout.{Pod}

-- What `k` bytes can hold.
abbrev pub bound : ℕ → ℕ
bound zero = 1
bound (suc k) = 256 * bound k

abbrev pub bytes_of : ℕ → ℕ → List ℕ
bytes_of zero n = []
bytes_of (suc k) n = n % 256 ∷ bytes_of k (n / 256)

abbrev pub number_of : List ℕ → ℕ
number_of [] = 0
number_of (b ∷ bs) = b + 256 * number_of bs

pub length-bytes_of : (k n : ℕ) → length (bytes_of k n) ≡ k
length-bytes_of zero n = refl
length-bytes_of (suc k) n = ap suc (length-bytes_of k (n / 256))

pub number_of-bytes_of : (k n : ℕ) → n < bound k → number_of (bytes_of k n) ≡ n
number_of-bytes_of zero n h = omega arith
number_of-bytes_of (suc k) n h = omega (arith, number_of-bytes_of k (n / 256) (omega arith))

-- An unsigned number of `k` bytes.
abbrev pub unsigned : ℕ → Pod ℕ
unsigned k = record {
  size = k;
  to_bytes = bytes_of k;
  of_bytes = number_of;
  IsValue = λ n. n < bound k;
  length-to_bytes = length-bytes_of k;
  of_bytes-to_bytes = number_of-bytes_of k;
}

module _ {A B : Type 0} (first : Pod A) (second : Pod B) where
  unfoldable pub both : A × B → List ℕ
  both (a, b) = first.to_bytes a ++ second.to_bytes b

  unfoldable pub split : List ℕ → A × B
  split l = (first.of_bytes (take first.size l), second.of_bytes (drop first.size l))

  pub length-both : (p : A × B) → length (both p) ≡ first.size + second.size
  unfolding both
  length-both (a, b) = omega (
    arith,
    length-append (first.to_bytes a) (second.to_bytes b),
    first.length-to_bytes a,
    second.length-to_bytes b,
  )

  pub split-both : (p : A × B) → first.IsValue p.0 × second.IsValue p.1 → split (both p) ≡ p
  unfolding both split
  split-both (a, b) (u, v) =
      let xs = first.to_bytes a in
      let ys = second.to_bytes b in
      let len = first.length-to_bytes a in
      let left = ap (λ (n : ℕ). take n (xs ++ ys)) (sym len) ∙ take-append xs ys in
      let right = ap (λ (n : ℕ). drop n (xs ++ ys)) (sym len) ∙ drop-append xs ys in
      ap₂ (λ (x : A) (y : B). (x, y)) (ap first.of_bytes left ∙ first.of_bytes-to_bytes a u)
        (ap second.of_bytes right ∙ second.of_bytes-to_bytes b v)

  -- Two members, one after the other.
  abbrev pub pair : Pod (A × B)
  pair = record {
    size = first.size + second.size;
    to_bytes = both;
    of_bytes = split;
    IsValue = λ p. first.IsValue p.0 × second.IsValue p.1;
    length-to_bytes = length-both;
    of_bytes-to_bytes = split-both;
  }

module _ {A B : Type 0} (pod : Pod A) (members : B → A) (make : A → B) where
  -- A type whose values are laid out as their members are.
  abbrev pub laid_out : Pod B
  laid_out = record {
    size = pod.size;
    to_bytes = λ b. pod.to_bytes (members b);
    of_bytes = λ l. make (pod.of_bytes l);
    IsValue = λ b. pod.IsValue (members b) × (make (members b) ≡ b);
    length-to_bytes = λ b. pod.length-to_bytes (members b);
    of_bytes-to_bytes = λ b v. ap make (pod.of_bytes-to_bytes (members b) v.0) ∙ v.1;
  }
