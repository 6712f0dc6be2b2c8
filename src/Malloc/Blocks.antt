-- ===== src/Malloc/Blocks.antt =====
-- Lab5/mm.c: joining, adding and splitting blocks. The result `none` is as in the free lists.
use model_lib.Prelude.{
  ℕ, ◌+◌, ◌-◌, ◌*◌, ◌^◌, Bool, true, false, not, ◌&&◌, ◌||◌, Option, none, some, ltb, leb, ◌==◌,
  if◌then◌else◌,
}
use model_lib.Malloc.{
  Heap, store, wsize, dsize, min_block_size, chunksize, prev_alloc_mask, prev_min_mask, set_bit,
  clear_bit, size_t, round_up, pack, get_size, get_alloc, get_prev_alloc, get_prev_min,
  payload_to_header, write_epilogue, write_block, find_next, find_prev,
}
use model_lib.Malloc.Lists.{pop, push}

infixl 5 ◌>>=◌
abbrev pub ◌>>=◌ {ℓ κ} : {A : Type ℓ} {B : Type κ} → Option A → (A → Option B) → Option B
none >>= f = none
some a >>= f = f a

abbrev pub set_end : Heap → ℕ → Heap
set_end h p = record h { heap_end = p }

-- A free block with the flags that the block at the address has, put on its list.
abbrev pub write_free : Heap → ℕ → ℕ → Heap
write_free h block size =
    push (write_block h block size (get_prev_min h block) (get_prev_alloc h block) false) block

-- `if(nnext_valid && get_prev_min(next_next)) next_next->header &= ~prev_min_mask;`
unfoldable pub clear_min : Heap → ℕ → Bool → Heap
clear_min h next_next valid =
    if valid && get_prev_min h next_next
    then store h next_next (clear_bit (h.mem next_next) prev_min_mask)
    else h

abbrev pub move_end : Bool → Heap → ℕ → Heap
move_end b h p = if b then set_end h p else h

-- The previous block, which has no footer if it is a smallest one.
unfoldable pub prev_of : Heap → ℕ → ℕ
prev_of h block = if get_prev_min h block then block - 2 * wsize else find_prev h block

unfoldable pub coalesce_next : ℕ → Heap → ℕ → ℕ → Bool → Option (Heap × ℕ)
coalesce_next fuel h block next_block valid = do
  let next_next = find_next h next_block
  let size = get_size h block
  let next_size = get_size h next_block
  h1 ← pop fuel h next_block
  let h2 = write_free h1 block (size_t (size + next_size))
  let h3 = clear_min h2 next_next valid
  some (move_end (next_block == h3.heap_end) h3 block, block)

unfoldable pub coalesce_prev : ℕ → Heap → ℕ → ℕ → Option (Heap × ℕ)
coalesce_prev fuel h block next_block = do
  let size = get_size h block
  let prev_block = prev_of h block
  let prev_size = get_size h prev_block
  h1 ← pop fuel (clear_min h next_block true) prev_block
  some (write_free h1 prev_block (size_t (prev_size + size)), prev_block)

unfoldable pub coalesce_both : ℕ → Heap → ℕ → ℕ → Bool → Option (Heap × ℕ)
coalesce_both fuel h block next_block valid = do
  let next_next = find_next h next_block
  let size = get_size h block
  let next_size = get_size h next_block
  let prev_block = prev_of h block
  let prev_size = get_size h prev_block
  h1 ← pop fuel h prev_block
  h2 ← pop fuel h1 next_block
  let h3 = write_free h2 prev_block (size_t (prev_size + size + next_size))
  let h4 = clear_min h3 next_next valid
  some (move_end ((next_block == h4.heap_end) || (block == h4.heap_end)) h4 prev_block, prev_block)

-- The case of a block right behind the prologue at `heap_start`.
unfoldable pub coalesce_first : ℕ → Heap → ℕ → ℕ → Option (Heap × ℕ)
coalesce_first fuel h block next_block =
    let size = size_t (get_size h block + get_size h next_block) in
    if get_alloc h next_block
    then some (push h block, block)
    else (pop fuel h next_block >>= λ h1. some (write_free h1 block size, block))

unfoldable pub coalesce_block : ℕ → Heap → ℕ → Option (Heap × ℕ)
coalesce_block fuel h block =
    let next_block = find_next h block in
    let tmp = block - wsize in
    let next_next = find_next h next_block in
    let valid = not (h.mem next_next == 1) in
    let no_prev = not (get_prev_min h block) && (find_prev h block == 0) in
    if (h.mem tmp == 1) && (tmp == h.heap_start) && not (h.mem next_block == 1)
    then coalesce_first fuel h block next_block
    else if get_prev_alloc h block && get_alloc h next_block
    then some (push h block, block)
    else if get_prev_alloc h block
    then coalesce_next fuel h block next_block valid
    else if no_prev
    then none
    else if get_alloc h next_block
    then coalesce_prev fuel h block next_block
    else coalesce_both fuel h block next_block valid

-- `mem_sbrk` of memlib.c: the old end of the heap, or `none` for -1.
unfoldable pub mem_sbrk : Heap → ℕ → Option (Heap × ℕ)
mem_sbrk h incr =
    if ltb incr (2 ^ 63) && leb (h.brk + incr) h.max_addr
    then some (record h { brk = h.brk + incr }, h.brk)
    else none

-- A new free block at the end, behind an allocated one or behind the prologue.
unfoldable pub add_free : Heap → ℕ → ℕ → Bool → Heap
add_free h block size prev_min =
    let h1 = set_end (push (write_block h block size prev_min true false) block) block in
    write_epilogue h1 (find_next h1 block)

-- The new bytes join the free block at `heap_end`.
unfoldable pub grow_last : ℕ → Heap → ℕ → Option (Heap × ℕ)
grow_last fuel h size = do
  h1 ← pop fuel h h.heap_end
  let h2 = write_free h1 h1.heap_end (size_t (size + get_size h1 h1.heap_end))
  some (write_epilogue h2 (find_next h2 h2.heap_end), h2.heap_end)

unfoldable pub extend_with : ℕ → Heap → ℕ → ℕ → Option (Heap × ℕ)
extend_with fuel h size bp =
    let block = payload_to_header bp in
    let last_min = get_size h h.heap_end == min_block_size in
    if (h.mem (block - wsize) == 1) && (h.mem block == 1)
    then some (add_free h block size false, block)
    else if get_alloc h h.heap_end
    then some (add_free h block size last_min, block)
    else grow_last fuel h size

-- The block is 0 if there is no memory left.
unfoldable pub extend_heap : ℕ → Heap → ℕ → Option (Heap × ℕ)
extend_heap fuel h size = elim (mem_sbrk h (round_up size dsize)) [
  | none ↦ some (h, 0)
  | some (h1, bp) ↦ extend_with fuel h1 (round_up size dsize) bp
]

abbrev empty_lists : Heap → Heap
empty_lists h = record h { seg_list = λ i. 0; min_list = λ i. 0 }

unfoldable pub mm_init : ℕ → Heap → Option (Heap × Bool)
mm_init fuel h = elim (mem_sbrk h (2 * wsize)) [
  | none ↦ some (empty_lists h, false)
  | some (h1, start) ↦
      (let h2 = store (empty_lists h1) start (pack 0 false false true) in
        let h3 = store h2 (start + wsize) (pack 0 false false true) in
        let h4 = record h3 { heap_start = start + wsize; heap_end = start + wsize } in
        extend_heap fuel h4 chunksize >>= λ (h5, block). some (h5, not (block == 0)))
]

-- The two ways through `split_block`, with the block taken off its list.
unfoldable pub split_in_two : Heap → ℕ → ℕ → ℕ → Bool → Heap
split_in_two h block asize left is_last =
    let h1 = write_block h block asize (get_prev_min h block) (get_prev_alloc h block) true in
    let free_block = find_next h1 block in
    let h2 = push (write_block h1 free_block left (asize == dsize) true false) free_block in
    let tmp = find_next h2 free_block in
    let word = h2.mem tmp in
    let h3 =
      if not (word == 1) && (left == dsize)
      then store h2 tmp (set_bit word prev_min_mask)
      else store h2 tmp (clear_bit word prev_min_mask) in
    move_end is_last h3 free_block

unfoldable pub take_whole : Heap → ℕ → ℕ → Bool → Heap
take_whole h block block_size is_last =
    let h1 = write_block h block block_size (get_prev_min h block) (get_prev_alloc h block) true in
    let next = find_next h1 block in
    let h2 = store h1 next (set_bit (h1.mem next) prev_alloc_mask) in
    let h3 =
      if block_size == min_block_size
      then store h2 next (set_bit (h2.mem next) prev_min_mask)
      else h2 in
    move_end is_last h3 block

unfoldable pub split_block : ℕ → Heap → ℕ → ℕ → Option Heap
split_block fuel h block asize = do
  let block_size = get_size h block
  let is_last = h.mem (find_next h block) == 1
  h1 ← pop fuel h block
  let left = size_t (block_size + 2 ^ 64 - asize)
  some (
      if leb min_block_size left
      then split_in_two h1 block asize left is_last
      else take_whole h1 block block_size is_last)
