-- ===== src/Scramble/Tests.antt =====
-- The solution of one challenge, and another with the same solution.
use networking_projects.Prelude.{◌%◌, ◌^◌, ◌<◌, ◌≡◌, ◌↔◌, refl}
use networking_projects.Scramble.{exchange, scramble}
use networking_projects.Scramble.Laws.{scramble-lt, scramble-eq_iff}

scramble_zero : scramble 0 ≡ 0xc004_1130_1ed9_fa97
unfolding scramble exchange
scramble_zero = refl

greatest_scrambled : scramble 0xffff_ffff_ffff_ffff < 2 ^ 64
greatest_scrambled = scramble-lt 0xffff_ffff_ffff_ffff

scramble-eq_iff_example :
    (scramble 0x0123_4567_89ab_cdef ≡ scramble 0xff23_4567_89ab_cdef)
    ↔ (0x0123_4567_89ab_cdef % 2 ^ 56 ≡ 0xff23_4567_89ab_cdef % 2 ^ 56)
scramble-eq_iff_example = scramble-eq_iff 0x0123_4567_89ab_cdef 0xff23_4567_89ab_cdef
