-- ===== src/Malloc/Requests.antt =====
-- Lab5/mm.c: the sizes that `malloc` and `calloc` make of a request.
use model_lib.Prelude.{
  ℕ, ◌+◌, ◌*◌, ◌/◌, ◌%◌, ◌^◌, ◌<◌, ◌≤◌, ◌≡◌, refl, ap, ◌≢◌, false, some, leb, ◌==◌, arith,
  Bool-cases, inl, inr,
}
use native.Mathlib.Nat.{div-add-mod, mod-lt, mod-eq_of_lt}
use model_lib.Malloc.{Heap, size_t, round_up}
use model_lib.Malloc.Words.{IsRounded, round_up-IsRounded}
use model_lib.Malloc.Calls.{adjusted_size, calloc}

-- A size that a block can have and that holds the request behind the header.
pub record Serves (size asize : ℕ) : Type 0 where
  pub aligned : asize % 16 ≡ 0
  pub smallest : 16 ≤ asize
  pub holds : size + 8 ≤ asize
  pub tight : asize < size + 24

Serves-of : (size r : ℕ) → 8 < size → IsRounded (size + 8) 16 r → Serves size r
Serves-of size r large d =
    (let m = d.multiple in
      let e = d.enough in
      let t = d.tight in
      record {
        aligned = omega (arith, m);
        smallest = omega (arith, e);
        holds = omega (arith, e);
        tight = omega (arith, t);
      })

-- The block size that `malloc` takes for a request that does not overflow is a multiple of 16,
-- holds the header and the request, and is less than 24 bytes above the request.
pub adjusted_size-Serves : (size : ℕ) → size + 24 < 2 ^ 64 → Serves size (adjusted_size size)
unfolding adjusted_size
adjusted_size-Serves size h = elim (Bool-cases (leb size 8)) [
  | inl small ↦
      rw small (record {
        aligned = refl;
        smallest = omega arith;
        holds = ground arith;
        tight = omega arith;
      })
  | inr large ↦
      (let e : size_t (size + 8) ≡ size + 8 = mod-eq_of_lt (omega arith) in
        let r = round_up-IsRounded (size + 8) 16 (omega arith) (omega arith) in
        rw (large, e) (Serves-of size (round_up (size + 8) 16) (ground arith) r))
]

quotient_small : (m n q : ℕ) → 0 < n → m / n ≡ q → n * q ≤ m
quotient_small m n q p e = omega (arith, div-add-mod m n, ap (λ k. n * k) e)

overflow_seen :
    (elements size : ℕ)
    → elements ≢ 0
    → 2 ^ 64 ≤ elements * size
    → (size_t (elements * size) / elements == size) ≡ false
overflow_seen elements size nz big =
    elim (Bool-cases (size_t (elements * size) / elements == size)) [
      | inl same ↦
          (let low =
              quotient_small (size_t (elements * size)) elements size (omega arith)
                (ground arith) in
            let wrap = mod-lt (elements * size) {m = 2 ^ 64} (omega arith) in
            absurd (omega (arith, low, wrap, big)))
      | inr other ↦ other
    ]

module _ (memcpy : (ℕ → ℕ) → ℕ → ℕ → ℕ → ℕ → ℕ) (memset : (ℕ → ℕ) → ℕ → ℕ → ℕ → ℕ → ℕ) where
  -- A `calloc` whose size overflows gives NULL and leaves the heap as it is.
  pub calloc-refuses :
      (fuel : ℕ) (h : Heap) (elements size : ℕ)
      → 2 ^ 64 ≤ elements * size
      → calloc memcpy memset fuel h elements size ≡ some (h, 0)
  unfolding calloc
  calloc-refuses fuel h elements size big = elim (Bool-cases (elements == 0)) [
    | inl nothing ↦ rw nothing refl
    | inr other ↦ rw (other, overflow_seen elements size (ground arith) big) refl
  ]
