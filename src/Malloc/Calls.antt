-- ===== src/Malloc/Calls.antt =====
-- Lab5/mm.c: the functions that a program calls.
use model_lib.Prelude.{ℕ, ◌+◌, ◌*◌, ◌/◌, false, not, Option, some, ltb, leb, ◌==◌, if◌then◌else◌}
use model_lib.Malloc.{
  Heap, store, wsize, dsize, min_block_size, chunksize, prev_alloc_mask, clear_bit, size_t, max,
  round_up, get_size, get_prev_alloc, get_prev_min, get_payload_size, payload_to_header,
  header_to_payload, write_block, find_next,
}
use model_lib.Malloc.Lists.{find_fit}
use model_lib.Malloc.Blocks.{◌>>=◌, coalesce_block, extend_heap, mm_init, split_block}

-- The size of the block for a request.
unfoldable pub adjusted_size : ℕ → ℕ
adjusted_size size =
    if leb size wsize then min_block_size else round_up (size_t (size + wsize)) dsize

unfoldable pub initialised : ℕ → Heap → Option Heap
initialised fuel h =
    let start = mm_init fuel h >>= λ (h1, b). some h1 in if h.heap_start == 0 then start else some h

unfoldable pub place : ℕ → Heap → ℕ → ℕ → Option (Heap × ℕ)
place fuel h block asize =
    split_block fuel h block asize >>= λ h1. some (h1, header_to_payload block)

-- No list has a block: more memory, or NULL.
unfoldable pub place_new : ℕ → Heap → ℕ → Option (Heap × ℕ)
place_new fuel h asize = extend_heap fuel h (max asize chunksize) >>= λ (h1, block).
    if block == 0 then some (h1, 0) else place fuel h1 block asize

-- The block that `find_fit` gave, or a new one.
unfoldable pub place_at : ℕ → Heap → ℕ → ℕ → Option (Heap × ℕ)
place_at fuel h asize block =
    if block == 0 then place_new fuel h asize else place fuel h block asize

unfoldable pub malloc : ℕ → Heap → ℕ → Option (Heap × ℕ)
malloc fuel h size = initialised fuel h >>= λ h1.
    if size == 0
    then some (h1, 0)
    else (find_fit fuel h1 (adjusted_size size) >>= place_at fuel h1 (adjusted_size size))

unfoldable pub free_block : ℕ → Heap → ℕ → Option Heap
free_block fuel h block =
    let size = get_size h block in
    let h1 = write_block h block size (get_prev_min h block) (get_prev_alloc h block) false in
    let next = find_next h1 block in
    let h2 = store h1 next (clear_bit (h1.mem next) prev_alloc_mask) in
    coalesce_block fuel h2 block >>= λ (h3, b). some h3

unfoldable pub free : ℕ → Heap → ℕ → Option Heap
free fuel h bp = if bp == 0 then some h else free_block fuel h (payload_to_header bp)

-- `memcpy` and `memset` move bytes, below the words of this model; they are given.
module _ (memcpy : (ℕ → ℕ) → ℕ → ℕ → ℕ → ℕ → ℕ) (memset : (ℕ → ℕ) → ℕ → ℕ → ℕ → ℕ → ℕ) where
  unfoldable pub move_payload : ℕ → ℕ → ℕ → Heap × ℕ → Option (Heap × ℕ)
  move_payload fuel ptr size (h, newptr) =
      let old = get_payload_size h (payload_to_header ptr) in
      let copysize = if ltb size old then size else old in
      let h1 = record h { mem = memcpy h.mem newptr ptr copysize } in
      if newptr == 0 then some (h, 0) else (free fuel h1 ptr >>= λ h2. some (h2, newptr))

  unfoldable pub realloc : ℕ → Heap → ℕ → ℕ → Option (Heap × ℕ)
  realloc fuel h ptr size =
      if size == 0
      then (free fuel h ptr >>= λ h1. some (h1, 0))
      else if ptr == 0
      then malloc fuel h size
      else (malloc fuel h size >>= move_payload fuel ptr size)

  unfoldable pub calloc : ℕ → Heap → ℕ → ℕ → Option (Heap × ℕ)
  calloc fuel h elements size =
      let asize = size_t (elements * size) in
      let zeroed = malloc fuel h asize >>= λ (h1, bp).
      if bp == 0 then some (h1, 0) else some (record h1 { mem = memset h1.mem bp 0 asize }, bp) in
      if elements == 0
      then some (h, 0)
      else if not (asize / elements == size)
      then some (h, 0)
      else zeroed
