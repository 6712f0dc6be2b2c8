-- ===== src/NaiveMalloc/Fresh.antt =====
-- Lab5/mm-naive.c: a payload of `malloc`.
use model_lib.Prelude.{ℕ, ◌+◌, ◌*◌, ◌/◌, ◌%◌, ◌^◌, ◌<◌, ◌≤◌, ◌≡◌, ◌∙◌, ap, arith, Bool, true, some}
use model_lib.NaiveMalloc.{Heap, round_up, mem_sbrk, set_size, with_header, malloc}

-- The heap is aligned and below `2 ^ 63`.
abbrev pub IsHeap : Heap → Type 0
IsHeap h =
    (0 < h.heap)
    × (h.heap % 16 ≡ 0)
    × (h.mem_brk % 16 ≡ 0)
    × (h.heap ≤ h.mem_brk)
    × (h.mem_max_addr < 2 ^ 63)

-- The payload rounded up to 16 bytes, with its header.
abbrev pub block_bytes : ℕ → ℕ
block_bytes size = 16 * ((size + 15) / 16) + 16

pub round_up-block_bytes :
    (size : ℕ) → size < 2 ^ 63 → round_up ((size + 16) % 2 ^ 64) 16 ≡ block_bytes size
unfolding round_up
round_up-block_bytes size l = omega (arith, l)

module _ (sbrk_grants : ℕ → Bool) (h : Heap) (size : ℕ) where
  -- The heap after a block for `size` bytes.
  abbrev pub grown : Heap
  grown = record h {
    mem_brk = h.mem_brk + block_bytes size;
    bytes = set_size h.bytes h.mem_brk (block_bytes size);
  }

  mem_sbrk-grown :
      (n : ℕ)
      → n < 2 ^ 63
      → h.mem_brk + n ≤ h.mem_max_addr
      → sbrk_grants n ≡ true
      → mem_sbrk sbrk_grants h n ≡ some (record h { mem_brk = h.mem_brk + n }, h.mem_brk)
  unfolding mem_sbrk
  mem_sbrk-grown n l r g = ground (arith, l, r, g)

  pub malloc-grown :
      IsHeap h
      → h.mem_brk + block_bytes size ≤ h.mem_max_addr
      → sbrk_grants (block_bytes size) ≡ true
      → malloc sbrk_grants h size ≡ (h.mem_brk + 16, grown)
  unfolding malloc with_header
  malloc-grown w r g =
      let l : size < 2 ^ 63 = omega (arith, r, w.4) in
      ap (λ n. with_header sbrk_grants h n (mem_sbrk sbrk_grants h n)) (round_up-block_bytes size l)
      ∙ ap (with_header sbrk_grants h (block_bytes size))
          (mem_sbrk-grown (block_bytes size) (omega (arith, r, w.4)) r g)

  pub grown-IsHeap : IsHeap h → IsHeap grown
  grown-IsHeap w = (w.0, w.1, omega (arith, w.2), omega (arith, w.3), w.4)
