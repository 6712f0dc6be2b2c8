-- ===== src/BitPuzzles/Signs.antt =====
-- Lab1/bits.c: the puzzles on sign bits against their references.
use Prim.Native.Nat.{bit_and, bit_or}
use model_lib.Prelude.{
  ℕ, ◌-◌, ◌^◌, ◌<◌, ◌≡◌, ◌≢◌, Bool, true, false, ltb, ◌==◌, not, if◌then◌else◌, inl, inr,
  Bool-cases, arith,
}
use model_lib.BitPuzzles.{
  not64, add64, lnot, sar, negate, sign, signs_ok, subtraction_ok, signs_less, is_less, bang,
  test_negate, test_sign, test_subtraction_ok, test_is_less, test_bang,
}

-- The words that `x >> 63` gives.
abbrev word : Bool → ℕ
word b = if b then 2 ^ 64 - 1 else 0

-- The sign of a word.
abbrev HasSign : ℕ → Bool → Type 0
HasSign x b = (sar x 63 ≡ word b) × (ltb x (2 ^ 63) ≡ not b)

sign_of : (x : ℕ) → x < 2 ^ 64 → (b : Bool) × HasSign x b
sign_of x h = elim (Bool-cases (ltb x (2 ^ 63))) [
  | inl e ↦ (false, (ground (arith, e), e))
  | inr e ↦ (true, (ground (arith, e, h), e))
]

pub negate-test_negate : (x : ℕ) → x < 2 ^ 64 → negate x ≡ test_negate x
unfolding negate test_negate
negate-test_negate x h = omega (arith, h)

sign-signs :
    (b : Bool) (x : ℕ) → x < 2 ^ 64 → HasSign x b → bit_or (word b) (lnot (lnot x)) ≡ test_sign x
unfolding test_sign
sign-signs false x h s = elim (Bool-cases (x == 0)) [
  | inl e ↦ ground (arith, e)
  | inr e ↦ ground (arith, e, s.1)
]
sign-signs true x h s = elim (Bool-cases (x == 0)) [
  | inl e ↦ ground (arith, e, s.1)
  | inr e ↦ rw e (ground (arith, h, s.1))
]

pub sign-test_sign : (x : ℕ) → x < 2 ^ 64 → sign x ≡ test_sign x
unfolding sign
sign-test_sign x h = let (b, s) = sign_of x h in rw (s.0) (sign-signs b x h s)

abbrev difference : ℕ → ℕ → ℕ
difference x y = add64 x (add64 (not64 y) 1)

less-signs :
    (a b c : Bool) (x y : ℕ)
    → x < 2 ^ 64
    → y < 2 ^ 64
    → ltb x (2 ^ 63) ≡ not a
    → ltb y (2 ^ 63) ≡ not b
    → ltb (difference x y) (2 ^ 63) ≡ not c
    → signs_less (bit_and (word a) 1) (bit_and (word b) 1) (bit_and (word c) 1) ≡ test_is_less x y
unfolding test_is_less
less-signs false false false x y h k p q r = ground (arith, h, k, p, q, r)
less-signs false false true x y h k p q r = ground (arith, h, k, p, q, r)
less-signs false true false x y h k p q r = ground (arith, h, k, p, q, r)
less-signs false true true x y h k p q r = ground (arith, h, k, p, q, r)
less-signs true false false x y h k p q r = ground (arith, h, k, p, q, r)
less-signs true false true x y h k p q r = ground (arith, h, k, p, q, r)
less-signs true true false x y h k p q r = ground (arith, h, k, p, q, r)
less-signs true true true x y h k p q r = ground (arith, h, k, p, q, r)

-- `isLess` is the comparison of two `long`s.
pub is_less-test_is_less : (x y : ℕ) → x < 2 ^ 64 → y < 2 ^ 64 → is_less x y ≡ test_is_less x y
unfolding is_less
is_less-test_is_less x y h k =
    let (a, s) = sign_of x h in
    let (b, t) = sign_of y k in
    let (c, u) = sign_of (difference x y) (omega arith) in
    rw (s.0, t.0, u.0) (less-signs a b c x y h k s.1 t.1 u.1)

bang-signs :
    (a b : Bool) (x : ℕ)
    → x < 2 ^ 64
    → ltb x (2 ^ 63) ≡ not a
    → ltb (add64 (not64 x) 1) (2 ^ 63) ≡ not b
    → add64 (bit_or (word a) (word b)) 1 ≡ lnot x
bang-signs false false x h p q = ground (arith, h, p, q)
bang-signs false true x h p q = ground (arith, h, p, q)
bang-signs true false x h p q = ground (arith, h, p, q)
bang-signs true true x h p q = ground (arith, h, p, q)

pub bang-test_bang : (x : ℕ) → x < 2 ^ 64 → bang x ≡ test_bang x
unfolding bang test_bang
bang-test_bang x h =
    let (a, s) = sign_of x h in
    let (b, t) = sign_of (add64 (not64 x) 1) (omega arith) in
    rw (s.0, t.0) (bang-signs a b x h s.1 t.1)

-- The least `long`, which has no opposite.
abbrev pub least : ℕ
least = 2 ^ 63

ok-signs :
    (a b c : Bool) (x y : ℕ)
    → x < 2 ^ 64
    → y < 2 ^ 64
    → y ≢ least
    → ltb x (2 ^ 63) ≡ not a
    → ltb (add64 (not64 y) 1) (2 ^ 63) ≡ not b
    → ltb (difference x y) (2 ^ 63) ≡ not c
    → signs_ok (lnot (word b)) (lnot (word a)) (lnot (word c)) ≡ test_subtraction_ok x y
unfolding test_subtraction_ok
ok-signs false false false x y h k n p q r = ground (arith, h, k, n, p, q, r)
ok-signs false false true x y h k n p q r = ground (arith, h, k, n, p, q, r)
ok-signs false true false x y h k n p q r = ground (arith, h, k, n, p, q, r)
ok-signs false true true x y h k n p q r = ground (arith, h, k, n, p, q, r)
ok-signs true false false x y h k n p q r = ground (arith, h, k, n, p, q, r)
ok-signs true false true x y h k n p q r = ground (arith, h, k, n, p, q, r)
ok-signs true true false x y h k n p q r = ground (arith, h, k, n, p, q, r)
ok-signs true true true x y h k n p q r = ground (arith, h, k, n, p, q, r)

-- For all words, if the subtrahend is not the least `long`, `subtractionOK` gives what its
-- reference gives.
pub subtraction_ok-test_subtraction_ok :
    (x y : ℕ) → x < 2 ^ 64 → y < 2 ^ 64 → y ≢ least → subtraction_ok x y ≡ test_subtraction_ok x y
unfolding subtraction_ok
subtraction_ok-test_subtraction_ok x y h k n =
    let (a, s) = sign_of x h in
    let (b, t) = sign_of (add64 (not64 y) 1) (omega arith) in
    let (c, u) = sign_of (difference x y) (omega arith) in
    rw (s.0, t.0, u.0) (ok-signs a b c x y h k n s.1 t.1 u.1)

least-signs :
    (a c : Bool) (x : ℕ)
    → x < 2 ^ 64
    → ltb x (2 ^ 63) ≡ not a
    → ltb (difference x least) (2 ^ 63) ≡ not c
    → signs_ok (lnot (word true)) (lnot (word a)) (lnot (word c))
      ≡ lnot (test_subtraction_ok x least)
unfolding test_subtraction_ok
least-signs false false x h p r = ground (arith, h, p, r)
least-signs false true x h p r = ground (arith, h, p, r)
least-signs true false x h p r = ground (arith, h, p, r)
least-signs true true x h p r = ground (arith, h, p, r)

-- If the subtrahend is the least `long`, `subtractionOK` gives the opposite of what its reference
-- gives, whatever the minuend.
pub subtraction_ok-least :
    (x : ℕ) → x < 2 ^ 64 → subtraction_ok x least ≡ lnot (test_subtraction_ok x least)
unfolding subtraction_ok
subtraction_ok-least x h =
    let (a, s) = sign_of x h in
    let (c, u) = sign_of (difference x least) (omega arith) in
    rw (s.0, u.0) (least-signs a c x h s.1 u.1)

-- For all words `negate`, `sign`, `isLess` and `bang` give what their references in tests.c give.
pub puzzles-tests :
    (x y : ℕ)
    → x < 2 ^ 64
    → y < 2 ^ 64
    → (negate x ≡ test_negate x)
      × (sign x ≡ test_sign x)
      × (is_less x y ≡ test_is_less x y)
      × (bang x ≡ test_bang x)
puzzles-tests x y h k =
    (negate-test_negate x h, sign-test_sign x h, is_less-test_is_less x y h k, bang-test_bang x h)
