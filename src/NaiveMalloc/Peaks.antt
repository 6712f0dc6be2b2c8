-- ===== src/NaiveMalloc/Peaks.antt =====
-- Lab5/mm-naive.c under `eval_mm_util` of Lab5/mdriver.c.
use model_lib.Prelude.{
  ℕ, zero, suc, ◌+◌, ◌-◌, ◌≤◌, ◌≡◌, ◌≢◌, refl, ◌∙◌, ap, arith, Bool, true, false, ◌==◌, some, List,
  [], ◌∷◌, Bool-cases, ltb, if◌then◌else◌, inl, inr,
}
use model_lib.Driver.{TraceOp, alloc, realloc, free, eval_mm_util}
use model_lib.Driver.Peak.{Serves, IsTrace, peak, eval_mm_util-peak}
use model_lib.NaiveMalloc.{Heap, moved, get_size, memcpy, realloc as naive_realloc}
use model_lib.NaiveMalloc.Fresh.{IsHeap, block_bytes, grown, malloc-grown, grown-IsHeap}
use model_lib.NaiveMalloc.Driven.{naive}

-- The bytes that a request takes from the heap: each gets a block of its own, but a reallocation to no bytes none.
abbrev pub request_bytes : TraceOp → ℕ
request_bytes (alloc i size) = block_bytes size
request_bytes (realloc i zero) = 0
request_bytes (realloc i (suc n)) = block_bytes (suc n)
request_bytes (free i) = 0

abbrev pub heap_bytes : List TraceOp → ℕ
heap_bytes [] = 0
heap_bytes (op ∷ ops) = request_bytes op + heap_bytes ops

module _ (sbrk_grants : ℕ → Bool) (grants : (n : ℕ) → sbrk_grants n ≡ true) where
  -- The heap begins at `lo`, and the requests take it up to `top`.
  abbrev Can : (lo top : ℕ) → Heap → List TraceOp → Type 0
  Can lo top h ops =
      IsHeap h × (h.heap ≡ lo) × (h.mem_brk + heap_bytes ops ≡ top) × (top ≤ h.mem_max_addr)

  Can-grown :
      (lo top : ℕ) (h : Heap) (bytes : ℕ → ℕ) (size : ℕ) (ops : List TraceOp)
      → IsHeap h
      → h.heap ≡ lo
      → h.mem_brk + (block_bytes size + heap_bytes ops) ≡ top
      → top ≤ h.mem_max_addr
      → Can lo top (record (grown sbrk_grants h size) { bytes = bytes }) ops
  Can-grown lo top h bytes size ops w l t r =
      (grown-IsHeap sbrk_grants h size w, l, omega (arith, t), r)

  moved-copied :
      (h : Heap) (newp p n : ℕ)
      → newp ≢ 0
      → (bytes : ℕ → ℕ) × (moved sbrk_grants p n (newp, h) ≡ (newp, record h { bytes = bytes }))
  unfolding moved
  moved-copied h newp p n ne =
      let old = get_size h.bytes (p - 16) in
      let test : (newp == 0) ≡ false = ground (arith, ne) in
      (memcpy h.bytes newp p (if ltb n old then n else old), rw test refl)

  realloc-grown :
      (h : Heap) (p n : ℕ)
      → IsHeap h
      → h.mem_brk + block_bytes (suc n) ≤ h.mem_max_addr
      → (bytes : ℕ → ℕ) × (naive_realloc sbrk_grants h p (suc n)
          ≡ (h.mem_brk + 16, record (grown sbrk_grants h (suc n)) { bytes = bytes }))
  unfolding naive_realloc
  realloc-grown h p n w r =
      let some_bytes : (suc n == 0) ≡ false = ground arith in
      let m = malloc-grown sbrk_grants h (suc n) w r (grants (block_bytes (suc n))) in
      elim (Bool-cases (p == 0)) [
        | inl null ↦ ((grown sbrk_grants h (suc n)).bytes, rw (naive_realloc, some_bytes, null) m)
        | inr old ↦
            (let c =
                moved-copied (grown sbrk_grants h (suc n)) (h.mem_brk + 16) p (suc n)
                  (λ e. absurd (omega (arith, e))) in
              (c.0, rw (naive_realloc, some_bytes, old) (ap (moved sbrk_grants p (suc n)) m ∙ c.1)))
      ]

  realloc-Can :
      (lo top : ℕ) (h : Heap) (p i size : ℕ) (ops : List TraceOp)
      → Can lo top h (realloc i size ∷ ops)
      → (size ≢ 0 → (naive_realloc sbrk_grants h p size).0 ≢ 0)
        × Can lo top (naive_realloc sbrk_grants h p size).1 ops
  unfolding naive_realloc
  realloc-Can lo top h p i zero ops k =
      ((λ ne. absurd (ne refl)), (k.0, k.1, omega (arith, k.2), k.3))
  realloc-Can lo top h p i (suc n) ops k =
      let c = realloc-grown h p n k.0 (omega (arith, k.2, k.3)) in
      rw (c.1)
        ((λ ne e. absurd (omega (arith, e))), Can-grown lo top h c.0 (suc n) ops k.0 k.1 k.2 k.3)

  naive-Serves : (lo top : ℕ) → Serves (naive sbrk_grants) (Can lo top)
  unfolding naive
  naive-Serves lo top = record {
    allocates = λ h i size ops k.
        rw
          (malloc-grown sbrk_grants h size k.0 (omega (arith, k.2, k.3))
            (grants (block_bytes size)))
          (
            (λ e. absurd (omega (arith, e))),
            Can-grown lo top h (grown sbrk_grants h size).bytes size ops k.0 k.1 k.2 k.3,
          );
    reallocates = λ h p i size ops k. realloc-Can lo top h p i size ops k;
    frees = λ h p i ops k. (k.0, k.1, omega (arith, k.2), k.3);
  }

  -- For mm-naive.c on an aligned heap below `2 ^ 63`, where the system gives the memory for `sbrk`,
  -- and a trace that allocates unused indices and reallocates and frees used ones, to no bytes
  -- included, whose sizes do not overflow and whose blocks fit into the heap, `eval_mm_util` ends
  -- without an error: its high-water mark is the peak of the bytes that are allocated at one time,
  -- and the size of the heap is the sum of the blocks, rounded up and with their headers.
  pub eval_mm_util-peak-naive :
      (h : Heap) (ops : List TraceOp)
      → IsHeap h
      → IsTrace [] ops
      → h.heap + heap_bytes ops ≤ h.mem_max_addr
      → eval_mm_util (naive sbrk_grants) h ops ≡ some (peak 0 [] ops, heap_bytes ops)
  unfolding naive
  eval_mm_util-peak-naive h ops w t r =
      let c =
        eval_mm_util-peak (naive sbrk_grants) (Can h.heap (h.heap + heap_bytes ops)) h ops
          (naive-Serves h.heap (h.heap + heap_bytes ops)) refl
          ((w.0, w.1, w.1, omega arith, w.4), refl, refl, r) t in
      c.1 ∙ ap (λ n. some (peak 0 [] ops, n)) (omega (arith, c.2))
