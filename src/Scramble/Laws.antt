-- ===== src/Scramble/Laws.antt =====
-- What the puzzle tells apart: the challenge's lowest 56 bits.
use Prim.Native.Nat.{bit_xor}
use networking_projects.Prelude.{ℕ, ◌%◌, ◌^◌, ◌<◌, ◌≡◌, ◌↔◌, sym, ap, ◌∙◌, arith}
use networking_projects.Prelude.Bits.{xor_cancel, xor-mod_cong, xor-lt}
use networking_projects.Scramble.{exchange, scramble}
use networking_projects.Scramble.Swap.{
  swap_nibbles, swap_nibbles-lt, swap_nibbles-swap_nibbles, swap_nibbles-mod,
  exchange-eq-swap_nibbles,
}

-- The solution of a uint64_t challenge is a uint64_t.
pub scramble-lt : (x : ℕ) → scramble x < 2 ^ 64
unfolding scramble
scramble-lt x =
    xor-lt 64 (exchange (bit_xor x 0xdead_beef_c0de_cafe)) 0xc0de_face_1234_5678
      (omega (
        arith,
        exchange-eq-swap_nibbles (bit_xor x 0xdead_beef_c0de_cafe),
        swap_nibbles-lt 7 (bit_xor x 0xdead_beef_c0de_cafe),
      ))
      (omega arith)

-- The same operand on the right is told from the left.
xor-mod_iff : (k a b c : ℕ) → (bit_xor a c % 2 ^ k ≡ bit_xor b c % 2 ^ k) ↔ (a % 2 ^ k ≡ b % 2 ^ k)
xor-mod_iff k a b c = (
  λ h.
      sym (ap (λ (t : ℕ). t % 2 ^ k) (xor_cancel a c))
      ∙ xor-mod_cong k (bit_xor a c) (bit_xor b c) c h
      ∙ ap (λ (t : ℕ). t % 2 ^ k) (xor_cancel b c),
  xor-mod_cong k a b c,
)

exchange_iff : (a b : ℕ) → (exchange a ≡ exchange b) ↔ (a % 2 ^ 56 ≡ b % 2 ^ 56)
exchange_iff a b = (
  λ h.
      sym (swap_nibbles-swap_nibbles 7 a)
      ∙ ap (swap_nibbles 7) (sym (exchange-eq-swap_nibbles a) ∙ h ∙ exchange-eq-swap_nibbles b)
      ∙ swap_nibbles-swap_nibbles 7 b,
  λ h. exchange-eq-swap_nibbles a ∙ swap_nibbles-mod 7 a b h ∙ sym (exchange-eq-swap_nibbles b),
)

-- Two challenges have the same solution exactly when their lowest 56 bits are the same: the top
-- byte of a challenge is not part of the puzzle.
pub scramble-eq_iff : (x y : ℕ) → (scramble x ≡ scramble y) ↔ (x % 2 ^ 56 ≡ y % 2 ^ 56)
unfolding scramble
scramble-eq_iff x y = (
  λ h. (xor-mod_iff 56 x y 0xdead_beef_c0de_cafe).0 (
      (exchange_iff _ _).0 (
        sym (xor_cancel _ 0xc0de_face_1234_5678)
        ∙ ap (λ (t : ℕ). bit_xor t 0xc0de_face_1234_5678) h
        ∙ xor_cancel _ 0xc0de_face_1234_5678)),
  λ h.
      ap (λ (t : ℕ). bit_xor t 0xc0de_face_1234_5678)
        ((exchange_iff _ _).1 ((xor-mod_iff 56 x y 0xdead_beef_c0de_cafe).1 h)),
)
