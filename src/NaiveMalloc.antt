-- ===== src/NaiveMalloc.antt =====
-- Lab5/mm-naive.c: the allocator that never reuses a block, on the dense heap of Lab5/memlib.c. Whether the system
-- gives the memory that `sbrk` asks for is a parameter.
pub mod Fresh
pub mod Driven
pub mod Rounds
pub mod Kept
pub mod Runs
pub mod Peaks
use model_lib.Prelude.{
  ℕ, zero, suc, ◌+◌, ◌-◌, ◌*◌, ◌/◌, ◌%◌, ◌^◌, ◌&&◌, Bool, true, Option, none, some, ltb, leb, ◌==◌,
  if◌then◌else◌,
}

-- The variables of memlib.c, and the bytes of the heap.
pub record Heap : Type 0 where
  pub heap : ℕ
  pub mem_brk : ℕ
  pub mem_max_addr : ℕ
  pub bytes : ℕ → ℕ

abbrev pub mem_reset_brk : Heap → Heap
mem_reset_brk h = record h { mem_brk = h.heap }

abbrev pub mem_heap_hi : Heap → ℕ
mem_heap_hi h = h.mem_brk - 1

abbrev pub mem_heapsize : Heap → ℕ
mem_heapsize h = h.mem_brk - h.heap

abbrev pub mm_init : Heap → Bool × Heap
mm_init h = (true, h)

unfoldable pub round_up : (size multiple : ℕ) → ℕ
round_up size multiple =
    (multiple * ((size + multiple + (2 ^ 64 - 1)) % 2 ^ 64 / multiple)) % 2 ^ 64

-- `block->size = size`, in eight bytes.
abbrev pub set_size : (ℕ → ℕ) → (block size : ℕ) → ℕ → ℕ
set_size bytes block size a =
    if leb block a && ltb a (block + 8) then size / 2 ^ (8 * (a - block)) % 256 else bytes a

abbrev pub bytes_value : (ℕ → ℕ) → ℕ → ℕ → ℕ
bytes_value bytes a zero = 0
bytes_value bytes a (suc n) = bytes a + 256 * bytes_value bytes (a + 1) n

-- `block->size`
abbrev pub get_size : (ℕ → ℕ) → ℕ → ℕ
get_size bytes block = bytes_value bytes block 8

-- `memcpy` and `memset` of the standard library.
abbrev pub memcpy : (ℕ → ℕ) → (to from n : ℕ) → ℕ → ℕ
memcpy bytes to from n a = if leb to a && ltb a (to + n) then bytes (from + (a - to)) else bytes a

abbrev pub memset : (ℕ → ℕ) → (to value n : ℕ) → ℕ → ℕ
memset bytes to value n a = if leb to a && ltb a (to + n) then value % 256 else bytes a

module _ (sbrk_grants : ℕ → Bool) where
  -- The old end of the heap, or `none` for -1. An increment from `2 ^ 63` on is negative.
  unfoldable pub mem_sbrk : Heap → ℕ → Option (Heap × ℕ)
  mem_sbrk h incr =
      if leb (2 ^ 63) incr
      then none
      else if ltb h.mem_max_addr (h.mem_brk + incr)
      then none
      else if sbrk_grants incr
      then some (record h { mem_brk = h.mem_brk + incr }, h.mem_brk)
      else none

  -- The header and the payload of the new block; 0 is NULL.
  unfoldable pub with_header : Heap → ℕ → Option (Heap × ℕ) → ℕ × Heap
  with_header h newsize none = (0, h)
  with_header h newsize (some (h', block)) =
      (block + 16, record h' { bytes = set_size h'.bytes block newsize })

  unfoldable pub malloc : Heap → ℕ → ℕ × Heap
  malloc h size =
      let newsize = round_up ((size + 16) % 2 ^ 64) 16 in with_header h newsize (mem_sbrk h newsize)

  -- The copy of the old data.
  unfoldable pub moved : (oldptr size : ℕ) → ℕ × Heap → ℕ × Heap
  moved oldptr size (newptr, h) =
      let old = get_size h.bytes (oldptr - 16) in
      let copysize = if ltb size old then size else old in
      if newptr == 0
      then (0, h)
      else (newptr, record h { bytes = memcpy h.bytes newptr oldptr copysize })

  unfoldable pub realloc : Heap → (oldptr size : ℕ) → ℕ × Heap
  realloc h oldptr size =
      if size == 0
      then (0, h)
      else if oldptr == 0
      then malloc h size
      else moved oldptr size (malloc h size)

  -- `none` is `memset` at NULL.
  unfoldable pub cleared : ℕ → ℕ × Heap → Option (ℕ × Heap)
  cleared n (newptr, h) =
      if newptr == 0 then none else some (newptr, record h { bytes = memset h.bytes newptr 0 n })

  unfoldable pub calloc : Heap → (nmemb size : ℕ) → Option (ℕ × Heap)
  calloc h nmemb size = let n = (nmemb * size) % 2 ^ 64 in cleared n (malloc h n)
