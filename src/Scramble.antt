-- ===== src/Scramble.antt =====
-- `Connection::scramble` of MMO_Game/include/olcPGEX_Network/connection.h: the puzzle that a client
-- solves to be let in. A uint64_t is a number below 2 ^ 64; the shift to the left is cut to 64 bits.
pub mod Swap
pub mod Laws
mod Tests
use Prim.Native.Nat.{bit_and, bit_or, bit_xor}
use networking_projects.Prelude.{ℕ, ◌*◌, ◌/◌, ◌%◌, ◌^◌}

-- The second statement of the body: the high nibbles go down, the low nibbles go up.
pub exchange : ℕ → ℕ
exchange out =
    bit_or (bit_and out 0xf0_f0f0_f0f0_f0f0 / 2 ^ 4)
      (bit_and out 0x0f_0f0f_0f0f_0f0f * 2 ^ 4 % 2 ^ 64)

unfoldable pub scramble : ℕ → ℕ
unfolding exchange
scramble input = bit_xor (exchange (bit_xor input 0xdead_beef_c0de_cafe)) 0xc0de_face_1234_5678
