-- ===== src/Tests/BitPuzzles.antt =====
-- Runs of the puzzles of Lab1/bits.c, with the examples of its comments.
use model_lib.Prelude.{◌-◌, ◌^◌, ◌≡◌, refl, arith}
use model_lib.BitPuzzles.{
  bit_nor, any_odd_bit, negate, sign, logical_shift, subtraction_ok, is_less, bang, lnot,
  test_negate, test_sign, test_is_less, test_bang, test_subtraction_ok,
}
use model_lib.BitPuzzles.Signs.{
  least, puzzles-tests, subtraction_ok-test_subtraction_ok, subtraction_ok-least,
}

puzzles-tests_example :
    (negate 4 ≡ test_negate 4)
    × (sign 4 ≡ test_sign 4)
    × (is_less 4 (2 ^ 64 - 5) ≡ test_is_less 4 (2 ^ 64 - 5))
    × (bang 4 ≡ test_bang 4)
puzzles-tests_example = puzzles-tests 4 (2 ^ 64 - 5) (omega arith) (omega arith)

subtraction_ok-test_subtraction_ok_example :
    subtraction_ok 5 (2 ^ 64 - 1) ≡ test_subtraction_ok 5 (2 ^ 64 - 1)
subtraction_ok-test_subtraction_ok_example =
    subtraction_ok-test_subtraction_ok 5 (2 ^ 64 - 1) (omega arith) (omega arith) (omega arith)

subtraction_ok-least_example :
    subtraction_ok (2 ^ 63) least ≡ lnot (test_subtraction_ok (2 ^ 63) least)
subtraction_ok-least_example = subtraction_ok-least (2 ^ 63) (omega arith)

nor_six_five : bit_nor 6 5 ≡ 0xFFFFFFFFFFFFFFF8
unfolding bit_nor
nor_six_five = refl

odd_bits : (any_odd_bit 5 ≡ 0) × (any_odd_bit 7 ≡ 1)
unfolding any_odd_bit
odd_bits = (refl, refl)

shifted : logical_shift 0x8765432100000000 4 ≡ 0x0876543210000000
unfolding logical_shift
shifted = refl

-- The comment of `subtractionOK` has 1 here.
least_minus_least : subtraction_ok 0x8000000000000000 0x8000000000000000 ≡ 0
unfolding subtraction_ok
least_minus_least = refl
