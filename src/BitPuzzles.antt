-- ===== src/BitPuzzles.antt =====
-- Lab1/bits.c: the integer puzzles, and the reference functions of Lab1/tests.c. A `long` is its 64-bit pattern,
-- a number below `2 ^ 64`, so that the negative numbers are those from `2 ^ 63` on.
pub mod Signs
use Prim.Native.Nat.{bit_and, bit_or, bit_xor}
use model_lib.Prelude.{
  ℕ, zero, suc, ◌+◌, ◌-◌, ◌*◌, ◌/◌, ◌%◌, ◌^◌, Bool, true, false, ltb, leb, ◌==◌, ◌&&◌,
  if◌then◌else◌,
}

-- `~x`
abbrev pub not64 : ℕ → ℕ
not64 x = 2 ^ 64 - 1 - x

abbrev pub add64 : ℕ → ℕ → ℕ
add64 x y = (x + y) % 2 ^ 64

-- `!x`
abbrev pub lnot : ℕ → ℕ
lnot x = if x == 0 then 1 else 0

-- `x << n`
abbrev pub shl : ℕ → ℕ → ℕ
shl x n = x * 2 ^ n % 2 ^ 64

-- `x >> n`, which keeps the sign.
abbrev pub sar : ℕ → ℕ → ℕ
sar x n = if ltb x (2 ^ 63) then x / 2 ^ n else x / 2 ^ n + (2 ^ 64 - 2 ^ (64 - n))

unfoldable pub bit_nor : ℕ → ℕ → ℕ
bit_nor x y = bit_and (not64 x) (not64 y)

unfoldable pub any_odd_bit : ℕ → ℕ
any_odd_bit x =
    let mask1 =
      bit_or (bit_or (bit_or (bit_or 0xAA (shl 0xAA 8)) (shl 0xAA 16)) (shl 0xAA 24))
        (shl 0xAA 32) in
    let mask = bit_or mask1 (shl mask1 32) in bit_xor (lnot (bit_and mask x)) 1

unfoldable pub negate : ℕ → ℕ
negate x = add64 (not64 x) 1

unfoldable pub sign : ℕ → ℕ
sign x = bit_or (sar x 63) (lnot (lnot x))

unfoldable pub logical_shift : ℕ → ℕ → ℕ
logical_shift x n =
    let max_neg = shl 1 63 in let mask = shl (sar max_neg n) 1 in bit_and (sar x n) (not64 mask)

-- The result of `subtractionOK` from the tests on the signs.
abbrev pub signs_ok : (z_pos x_pos sum_pos : ℕ) → ℕ
signs_ok z_pos x_pos sum_pos = lnot (
    bit_or (bit_and (bit_and z_pos x_pos) (not64 sum_pos))
      (bit_and (bit_and (not64 z_pos) (not64 x_pos)) sum_pos))

unfoldable pub subtraction_ok : ℕ → ℕ → ℕ
subtraction_ok x y =
    let z = add64 (not64 y) 1 in
    signs_ok (lnot (sar z 63)) (lnot (sar x 63)) (lnot (sar (add64 x z) 63))

-- The result of `isLess` from the sign bits.
abbrev pub signs_less : (xs ys ss : ℕ) → ℕ
signs_less xs ys ss =
    bit_or
      (bit_and
        (bit_and (bit_or (bit_or xs (not64 ys)) (not64 ss)) (bit_or (bit_or (not64 xs) ys) ss)) ss)
      (bit_and
        (bit_or (bit_and (bit_and (not64 xs) ys) ss) (bit_and (bit_and xs (not64 ys)) (not64 ss)))
        (not64 ss))

unfoldable pub is_less : ℕ → ℕ → ℕ
is_less x y =
    let s = add64 x (add64 (not64 y) 1) in
    signs_less (bit_and (sar x 63) 1) (bit_and (sar y 63) 1) (bit_and (sar s 63) 1)

unfoldable pub bang : ℕ → ℕ
bang x = let y = add64 (not64 x) 1 in add64 (bit_or (sar x 63) (sar y 63)) 1

-- A number with the order of the `long`: `2 ^ 63` more than its value.
abbrev pub value : ℕ → ℕ
value x = (x + 2 ^ 63) % 2 ^ 64

-- The references of tests.c.
unfoldable pub test_negate : ℕ → ℕ
test_negate x = (2 ^ 64 - x) % 2 ^ 64

unfoldable pub test_sign : ℕ → ℕ
test_sign x = if x == 0 then 0 else if ltb (value x) (2 ^ 63) then 2 ^ 64 - 1 else 1

-- The difference fits in a `long`.
unfoldable pub test_subtraction_ok : ℕ → ℕ → ℕ
test_subtraction_ok x y =
    if leb (value y) (value x + 2 ^ 63) && ltb (value x) (value y + 2 ^ 63) then 1 else 0

unfoldable pub test_is_less : ℕ → ℕ → ℕ
test_is_less x y = if ltb (value x) (value y) then 1 else 0

unfoldable pub test_bang : ℕ → ℕ
test_bang x = lnot x
