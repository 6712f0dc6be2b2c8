-- ===== src/Malloc/Words.antt =====
-- Lab5/mm.c: what the words, the rounding and the size classes are for.
use model_lib.Prelude.{ℕ, ◌+◌, ◌-◌, ◌*◌, ◌/◌, ◌%◌, ◌^◌, ◌<◌, ◌≤◌, ◌≡◌, ap, ◌∙◌, Bool, arith}
use native.Mathlib.Nat.{div-add-mod, mod-lt, mod-eq_of_lt}
use model_lib.Malloc.{
  has_bit, set_bit, pack, extract_size, extract_alloc, extract_prev_alloc, extract_prev_min,
  round_up, get_index, size_t,
}

-- A word that holds a size and three flags.
pub record Holds (size : ℕ) (prev_min prev_alloc alloc : Bool) (word : ℕ) : Type 0 where
  pub of_size : extract_size word ≡ size
  pub of_prev_min : extract_prev_min word ≡ prev_min
  pub of_prev_alloc : extract_prev_alloc word ≡ prev_alloc
  pub of_alloc : extract_alloc word ≡ alloc

-- For a size that is a multiple of 16, the word that `pack` makes gives back the size and each of
-- the three flags.
pub pack-Holds :
    (size : ℕ) (prev_min prev_alloc alloc : Bool)
    → size % 16 ≡ 0
    → Holds size prev_min prev_alloc alloc (pack size prev_min prev_alloc alloc)
unfolding pack extract_size extract_alloc extract_prev_alloc extract_prev_min has_bit set_bit
pack-Holds size a b c h = record {
  of_size = ground arith;
  of_prev_min = ground arith;
  of_prev_alloc = ground arith;
  of_alloc = ground arith;
}

-- The least multiple of `n` that is not less than the size.
pub record IsRounded (size n r : ℕ) : Type 0 where
  pub quotient : ℕ
  pub multiple : r ≡ n * quotient
  pub enough : size ≤ r
  pub tight : r < size + n

wrap_small : (a : ℕ) → a < 2 ^ 64 → size_t a ≡ a
wrap_small a h = mod-eq_of_lt h

floor : (m n : ℕ) → 0 < n → (n * (m / n) ≤ m) × (m < n * (m / n) + n)
floor m n p = (omega (arith, div-add-mod m n), omega (arith, div-add-mod m n, mod-lt m p))

round_up_small :
    (size n : ℕ) → 0 < n → size + n < 2 ^ 64 → round_up size n ≡ n * ((size + (n - 1)) / n)
unfolding round_up
round_up_small size n p h =
    (let m = size + (n - 1) in
      let small : m < 2 ^ 64 = omega arith in
      let (low, high) = floor m n p in
      ap (λ k. size_t (n * (k / n))) (wrap_small m small)
      ∙ wrap_small (n * (m / n)) (omega (arith, low)))

-- For a positive `n` and a size that does not overflow, `round_up` gives a multiple of `n` that is
-- not less than the size and less than `n` above it.
pub round_up-IsRounded :
    (size n : ℕ) → 0 < n → size + n < 2 ^ 64 → IsRounded size n (round_up size n)
round_up-IsRounded size n p h =
    (let (low, high) = floor (size + (n - 1)) n p in
      let e = round_up_small size n p h in
      record {
        quotient = (size + (n - 1)) / n;
        multiple = e;
        enough = omega (arith, e, low, high);
        tight = omega (arith, e, low, high);
      })

-- The sizes of the class `i` are from `2 ^ (i + 5)` on and below `2 ^ (i + 6)`, with no lower limit for
-- the first class and no upper limit for the last one.
pub record IsClass (asize i : ℕ) : Type 0 where
  pub within : i < 8
  pub least : 0 < i → 2 ^ (i + 5) ≤ asize
  pub below : i < 7 → asize < 2 ^ (i + 6)

-- `get_index` gives every size one of the eight classes, and the one that its size belongs to.
pub get_index-IsClass : (asize : ℕ) → IsClass asize (get_index asize)
unfolding get_index
get_index-IsClass asize = record {
  within = ground arith;
  least = ground arith;
  below = ground arith;
}
