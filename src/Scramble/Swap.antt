-- ===== src/Scramble/Swap.antt =====
-- Independent description of the masks and shifts: the nibbles of each of the lowest bytes change
-- places, byte by byte.
use Prim.Native.Nat.{bit_and, bit_or}
use mathlib.Core.Path.{ap₂}
use native.Mathlib.Nat.{pow-suc}
use networking_projects.Prelude.{
  ℕ, zero, suc, ◌+◌, ◌*◌, ◌/◌, ◌%◌, ◌^◌, ◌<◌, ◌≡◌, refl, ap, ◌∙◌, arith,
}
use networking_projects.Prelude.Bits.{
  and-field, or-field, bit_or-zero, low_nibble, high_nibble, bit_and-zero, zero-bit_or,
  mod-pow256-suc,
}
use networking_projects.Scramble.{exchange}

-- The lowest `n` bytes of `x` with the nibbles of each exchanged; what is above is dropped.
pub swap_nibbles : ℕ → ℕ → ℕ
swap_nibbles zero x = 0
swap_nibbles (suc n) x = swap_nibbles n (x / 256) * 256 + (x % 16 * 16 + x % 256 / 16)

-- The mask 0x0f0f…0f of `n` bytes.
abbrev pub nibble_mask : ℕ → ℕ
nibble_mask zero = 0
nibble_mask (suc n) = nibble_mask n * 256 + 15

split_byte : (x : ℕ) → x ≡ x / 256 * 2 ^ 8 + x % 256
split_byte x = omega arith

and_low :
    (n x : ℕ) → bit_and x (nibble_mask (suc n)) ≡ bit_and (x / 256) (nibble_mask n) * 256 + x % 16
and_low n x =
    ap₂ bit_and (split_byte x) refl
    ∙ omega (
      arith,
      and-field 8 (x / 256) (x % 256) (nibble_mask n) 15 (omega arith) (omega arith),
      low_nibble (x % 256) (omega arith),
    )

and_high :
    (n x : ℕ)
    → bit_and x (nibble_mask (suc n) * 16)
      ≡ bit_and (x / 256) (nibble_mask n * 16) * 256 + x % 256 / 16 * 16
and_high n x =
    ap₂ bit_and (split_byte x)
      (let e : nibble_mask (suc n) * 16 ≡ nibble_mask n * 16 * 2 ^ 8 + 240 = omega arith in e)
    ∙ omega (
      arith,
      and-field 8 (x / 256) (x % 256) (nibble_mask n * 16) 240 (omega arith) (omega arith),
      high_nibble (x % 256) (omega arith),
    )

and_low-lt : (n x : ℕ) → bit_and x (nibble_mask n) < 256 ^ n
and_low-lt zero x = omega (arith, bit_and-zero x)
and_low-lt (suc n) x = omega (arith, and_low n x, pow-suc 256 n, and_low-lt n (x / 256))

-- The high nibbles leave room for the shift to the right.
and_high-mod : (n x : ℕ) → bit_and x (nibble_mask n * 16) % 16 ≡ 0
and_high-mod zero x = omega (arith, bit_and-zero x)
and_high-mod (suc n) x = omega (arith, and_high n x)

or_nibbles : (d l : ℕ) → d < 16 → bit_or d (l * 16) ≡ l * 16 + d
or_nibbles d l hd =
    let low : d ≡ 0 * 2 ^ 4 + d = omega arith in
    let high : l * 16 ≡ l * 2 ^ 4 + 0 = omega arith in
    ap₂ bit_or low high
    ∙ omega (arith, or-field 4 0 d l 0 hd (omega arith), zero-bit_or l, bit_or-zero d hd)

-- What the shifts and the masks make of the lowest `n` bytes.
masks : ℕ → ℕ → ℕ
masks n x = bit_or (bit_and x (nibble_mask n * 16) / 16) (bit_and x (nibble_mask n) * 16)

masks-suc : (n x : ℕ) → masks (suc n) x ≡ masks n (x / 256) * 256 + (x % 16 * 16 + x % 256 / 16)
unfolding masks
masks-suc n x =
    let high = bit_and (x / 256) (nibble_mask n * 16) in
    let low = bit_and (x / 256) (nibble_mask n) in
    let e : bit_and x (nibble_mask (suc n) * 16) / 16 ≡ high / 16 * 2 ^ 8 + x % 256 / 16 =
      omega (arith, and_high n x, and_high-mod n (x / 256)) in
    let f : bit_and x (nibble_mask (suc n)) * 16 ≡ low * 16 * 2 ^ 8 + x % 16 * 16 =
      omega (arith, and_low n x) in
    ap₂ bit_or e f
    ∙ omega (
      arith,
      or-field 8 (high / 16) (x % 256 / 16) (low * 16) (x % 16 * 16) (omega arith) (omega arith),
      or_nibbles (x % 256 / 16) (x % 16) (omega arith),
    )

masks-eq-swap_nibbles : (n x : ℕ) → masks n x ≡ swap_nibbles n x
unfolding masks swap_nibbles
masks-eq-swap_nibbles zero x = simp bit_and-zero
masks-eq-swap_nibbles (suc n) x = omega (arith, masks-suc n x, masks-eq-swap_nibbles n (x / 256))

-- The result fits the bytes.
pub swap_nibbles-lt : (n x : ℕ) → swap_nibbles n x < 256 ^ n
unfolding swap_nibbles
swap_nibbles-lt zero x = omega arith
swap_nibbles-lt (suc n) x = omega (arith, pow-suc 256 n, swap_nibbles-lt n (x / 256))

-- Twice exchanged, each of the lowest bytes is what it was.
pub swap_nibbles-swap_nibbles : (n x : ℕ) → swap_nibbles n (swap_nibbles n x) ≡ x % 256 ^ n
unfolding swap_nibbles
swap_nibbles-swap_nibbles zero x = omega arith
swap_nibbles-swap_nibbles (suc n) x =
    let above = swap_nibbles n (x / 256) in
    let rest : (above * 256 + (x % 16 * 16 + x % 256 / 16)) / 256 ≡ above = omega arith in
    omega
      (arith, ap (swap_nibbles n) rest, swap_nibbles-swap_nibbles n (x / 256), mod-pow256-suc n x)

-- Only those bytes are read.
pub swap_nibbles-mod : (n x y : ℕ) → x % 256 ^ n ≡ y % 256 ^ n → swap_nibbles n x ≡ swap_nibbles n y
unfolding swap_nibbles
swap_nibbles-mod zero x y h = refl
swap_nibbles-mod (suc n) x y h =
    let both : x / 256 % 256 ^ n * 256 + x % 256 ≡ y / 256 % 256 ^ n * 256 + y % 256 =
      omega (arith, mod-pow256-suc n x, mod-pow256-suc n y) in
    omega (arith, swap_nibbles-mod n (x / 256) (y / 256) (omega arith))

-- `exchange` exchanges the nibbles of the lowest seven bytes, and drops the eighth.
pub exchange-eq-swap_nibbles : (x : ℕ) → exchange x ≡ swap_nibbles 7 x
unfolding exchange masks
exchange-eq-swap_nibbles x =
    let cut : bit_and x (nibble_mask 7) * 2 ^ 4 % 2 ^ 64 ≡ bit_and x (nibble_mask 7) * 16 =
      omega (arith, and_low-lt 7 x) in
    ap₂ bit_or refl cut ∙ masks-eq-swap_nibbles 7 x
