-- ===== src/Prelude/Bits.antt =====
-- The native bit operations at variables: one equation for the lowest digit, and the laws that
-- follow from it by strong induction. The width is a numeral everywhere, as in the code.
use Prim.Native.Nat.{
  ℕ, zero, suc, ◌+◌, ◌-◌, ◌*◌, ◌/◌, ◌%◌, ◌≤◌, ◌<◌, ◌^◌, min, max, bit_and, bit_or, bit_xor, digits,
  differ, bitwise, bit_and-bitwise, bit_or-bitwise, bit_xor-bitwise,
}
use mathlib.Core.Path.{◌≡◌, refl, ap, ap₂, ◌∙◌}
use mathlib.Core.Bool.{Bool, true, ◌&&◌}
use networking_projects.Prelude.Tests.{◌==◌, ==_iff}
use native.Mathlib.Nat.{
  pow-suc, one-le-pow, mod-lt, div-add-mod, mul-add-mod_self_right, mod-eq_of_lt, mul-one, add-zero,
}
use native.Mathlib.Omega.{arith}

-- A test of the numbers below a bound, by running it.
abbrev pub passes : (ℕ → Bool) → ℕ → Bool
passes test zero = true
passes test (suc k) = passes test k && test k

pub passes-at : (test : ℕ → Bool) (k n : ℕ) → n < k → passes test k ≡ true → test n ≡ true
passes-at test zero n below ran = absurd (omega arith)
passes-at test (suc k) n below ran = ground (arith, passes-at test k n)

module _ (alone : ℕ → ℕ) (digit : ℕ → ℕ → ℕ) where
  -- One more unit of fuel than the first operand needs changes nothing.
  digits_more :
      (fuel x y : ℕ) → x ≤ fuel → digits alone digit (suc fuel) x y ≡ digits alone digit fuel x y
  digits_more zero zero y enough = refl
  digits_more zero (suc x) y enough = absurd (omega arith)
  digits_more (suc fuel) zero y enough = refl
  digits_more (suc fuel) (suc x) y enough = rw (digits_more fuel (suc x / 2) (y / 2) (omega arith))

  digits_spare : (more x y : ℕ) → digits alone digit (more + x) x y ≡ digits alone digit x x y
  digits_spare zero x y = let e : 0 + x ≡ x = omega arith in ap (λ k. digits alone digit k x y) e
  digits_spare (suc more) x y =
      let e : suc more + x ≡ suc (more + x) = omega arith in
      ap (λ k. digits alone digit k x y) e
      ∙ digits_more (more + x) x y (omega arith)
      ∙ digits_spare more x y

  lowest_digit :
      (x y : ℕ)
      → bitwise alone digit (suc x) y
        ≡ bitwise alone digit (suc x / 2) (y / 2) * 2 + digit (suc x % 2) (y % 2)
  lowest_digit x y =
      let h = suc x / 2 in
      let e : x - h + h ≡ x = omega arith in
      omega (arith, ap (λ k. digits alone digit k h (y / 2)) e, digits_spare (x - h) h (y / 2))

and_step : (x y : ℕ) → bit_and x y ≡ bit_and (x / 2) (y / 2) * 2 + min (x % 2) (y % 2)
and_step (suc x) y = simp bit_and-bitwise (lowest_digit (λ t. 0) min x y)
and_step zero y = simp bit_and-bitwise (omega arith)

or_step : (x y : ℕ) → bit_or x y ≡ bit_or (x / 2) (y / 2) * 2 + max (x % 2) (y % 2)
or_step (suc x) y = simp bit_or-bitwise (lowest_digit (λ t. t) max x y)
or_step zero y = simp bit_or-bitwise (omega arith)

differ_digit : (x y : ℕ) → x < 2 → y < 2 → differ x y ≡ (x + y) % 2
differ_digit zero y hx hy = omega arith
differ_digit (suc zero) zero hx hy = refl
differ_digit (suc zero) (suc zero) hx hy = refl
differ_digit (suc zero) (suc (suc y)) hx hy = absurd (omega arith)
differ_digit (suc (suc x)) y hx hy = absurd (omega arith)

xor_step : (x y : ℕ) → bit_xor x y ≡ bit_xor (x / 2) (y / 2) * 2 + (x + y) % 2
xor_step (suc x) y =
    let summed = differ_digit (suc x % 2) (y % 2) (omega arith) (omega arith) in
    simp bit_xor-bitwise (lowest_digit (λ t. t) differ x y ∙ omega (arith, summed))
xor_step zero y = simp bit_xor-bitwise (omega arith)

xor_half : (x y : ℕ) → bit_xor x y / 2 ≡ bit_xor (x / 2) (y / 2)
xor_half x y = omega (arith, xor_step x y)

-- An involution: the same operand twice cancels. The count bounds the digits of both.
xor_cancel_within : (n a c : ℕ) → a ≤ n → c ≤ n → bit_xor (bit_xor a c) c ≡ a
xor_cancel_within zero zero zero p q = refl
xor_cancel_within zero zero (suc c) p q = absurd (omega arith)
xor_cancel_within zero (suc a) c p q = absurd (omega arith)
xor_cancel_within (suc n) a c p q = omega (
  arith,
  xor_step (bit_xor a c) c,
  xor_step a c,
  ap (λ (t : ℕ). bit_xor t (c / 2)) (xor_half a c),
  xor_cancel_within n (a / 2) (c / 2) (omega arith) (omega arith),
)

pub xor_cancel : (a c : ℕ) → bit_xor (bit_xor a c) c ≡ a
xor_cancel a c = xor_cancel_within (a + c) a c (omega arith) (omega arith)

mod_unique : (q m r x : ℕ) → r < m → x ≡ q * m + r → x % m ≡ r
mod_unique q m r x h e = rw e (mul-add-mod_self_right q m r ∙ mod-eq_of_lt h)

pub mod-pow256-suc : (k x : ℕ) → x % 256 ^ suc k ≡ x / 256 % 256 ^ k * 256 + x % 256
mod-pow256-suc k x = rw pow-suc (
    mod_unique (x / 256 / 256 ^ k) (256 ^ k * 256) (x / 256 % 256 ^ k * 256 + x % 256) x
      (omega (arith, mod-lt (x / 256) (one-le-pow k 256 (omega arith))))
      (omega (arith, div-add-mod (x / 256) (256 ^ k))))

-- A remainder by a power of two, digit by digit.
mod-pow-suc : (k x : ℕ) → x % 2 ^ suc k ≡ x / 2 % 2 ^ k * 2 + x % 2
mod-pow-suc k x = rw pow-suc (
    mod_unique (x / 2 / 2 ^ k) (2 ^ k * 2) (x / 2 % 2 ^ k * 2 + x % 2) x
      (omega (arith, mod-lt (x / 2) (one-le-pow k 2 (omega arith))))
      (omega (arith, div-add-mod (x / 2) (2 ^ k))))

-- The low digits of the result depend on the low digits of the operands alone.
pub xor-mod_cong : (k a b c : ℕ) → a % 2 ^ k ≡ b % 2 ^ k → bit_xor a c % 2 ^ k ≡ bit_xor b c % 2 ^ k
xor-mod_cong zero a b c h = omega arith
xor-mod_cong (suc k) a b c h = omega (
  arith,
  mod-pow-suc k (bit_xor a c),
  mod-pow-suc k (bit_xor b c),
  ap (λ (t : ℕ). t % 2 ^ k) (xor_half a c),
  ap (λ (t : ℕ). t % 2 ^ k) (xor_half b c),
  xor_step a c,
  xor_step b c,
  mod-pow-suc k a,
  mod-pow-suc k b,
  xor-mod_cong k (a / 2) (b / 2) (c / 2) (omega (arith, mod-pow-suc k a, mod-pow-suc k b)),
)

pub xor-lt : (k a c : ℕ) → a < 2 ^ k → c < 2 ^ k → bit_xor a c < 2 ^ k
xor-lt zero zero zero p q = omega arith
xor-lt zero (suc a) c p q = absurd (omega arith)
xor-lt zero zero (suc c) p q = absurd (omega arith)
xor-lt (suc k) a c p q = omega (
  arith,
  pow-suc 2 k,
  xor_step a c,
  xor-lt k (a / 2) (c / 2) (omega (arith, pow-suc 2 k)) (omega (arith, pow-suc 2 k)),
)

below_power : (x : ℕ) → x < 2 ^ x
below_power zero = omega arith
below_power (suc x) = omega (arith, pow-suc 2 x, below_power x)

and_nothing : (k x : ℕ) → x < 2 ^ k → bit_and x 0 ≡ 0
and_nothing zero x small = let e : x ≡ 0 = omega arith in rw e refl
and_nothing (suc k) x small =
    omega (arith, pow-suc 2 k, and_step x 0, and_nothing k (x / 2) (omega (arith, pow-suc 2 k)))

pub bit_and-zero : (x : ℕ) → bit_and x 0 ≡ 0
bit_and-zero x = and_nothing x x (below_power x)

-- The operations on a field of low digits and on what stands above it.
field_half : (k q r : ℕ) → (q * 2 ^ suc k + r) / 2 ≡ q * 2 ^ k + r / 2
field_half k q r = omega (arith, ap (λ (t : ℕ). q * t) (pow-suc 2 k))

field_lowest : (k q r : ℕ) → (q * 2 ^ suc k + r) % 2 ≡ r % 2
field_lowest k q r = omega (arith, ap (λ (t : ℕ). q * t) (pow-suc 2 k))

pub and-field :
    (k q r q' r' : ℕ)
    → r < 2 ^ k
    → r' < 2 ^ k
    → bit_and (q * 2 ^ k + r) (q' * 2 ^ k + r') ≡ bit_and q q' * 2 ^ k + bit_and r r'
and-field zero q zero q' zero p p' = simp (mul-one, add-zero)
and-field zero q (suc r) q' r' p p' = absurd (omega arith)
and-field zero q zero q' (suc r') p p' = absurd (omega arith)
and-field (suc k) q r q' r' p p' = omega (
  arith,
  pow-suc 2 k,
  ap (λ (t : ℕ). bit_and q q' * t) (pow-suc 2 k),
  and_step (q * 2 ^ suc k + r) (q' * 2 ^ suc k + r'),
  and_step r r',
  ap₂ bit_and (field_half k q r) (field_half k q' r'),
  ap₂ min (field_lowest k q r) (field_lowest k q' r'),
  and-field k q (r / 2) q' (r' / 2) (omega (arith, pow-suc 2 k)) (omega (arith, pow-suc 2 k)),
)

pub or-field :
    (k q r q' r' : ℕ)
    → r < 2 ^ k
    → r' < 2 ^ k
    → bit_or (q * 2 ^ k + r) (q' * 2 ^ k + r') ≡ bit_or q q' * 2 ^ k + bit_or r r'
or-field zero q zero q' zero p p' = simp (mul-one, add-zero)
or-field zero q (suc r) q' r' p p' = absurd (omega arith)
or-field zero q zero q' (suc r') p p' = absurd (omega arith)
or-field (suc k) q r q' r' p p' = omega (
  arith,
  pow-suc 2 k,
  ap (λ (t : ℕ). bit_or q q' * t) (pow-suc 2 k),
  or_step (q * 2 ^ suc k + r) (q' * 2 ^ suc k + r'),
  or_step r r',
  ap₂ bit_or (field_half k q r) (field_half k q' r'),
  ap₂ max (field_lowest k q r) (field_lowest k q' r'),
  or-field k q (r / 2) q' (r' / 2) (omega (arith, pow-suc 2 k)) (omega (arith, pow-suc 2 k)),
)

pub zero-bit_or : (b : ℕ) → bit_or 0 b ≡ b
zero-bit_or b = bit_or-bitwise 0 b

pub bit_or-zero : (a : ℕ) → a < 16 → bit_or a 0 ≡ a
bit_or-zero a h = (==_iff _ a).0 (passes-at (λ x. bit_or x 0 == x) 16 a h refl)

pub low_nibble : (a : ℕ) → a < 256 → bit_and a 0x0f ≡ a % 16
low_nibble a h = (==_iff _ _).0 (passes-at (λ x. bit_and x 0x0f == (x % 16)) 256 a h refl)

pub high_nibble : (a : ℕ) → a < 256 → bit_and a 0xf0 ≡ a / 16 * 16
high_nibble a h = (==_iff _ _).0 (passes-at (λ x. bit_and x 0xf0 == (x / 16 * 16)) 256 a h refl)
