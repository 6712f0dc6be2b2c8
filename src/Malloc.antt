-- ===== src/Malloc.antt =====
-- Lab5/mm.c: the words, headers and blocks of the allocator. The memory holds a word at every address;
-- a pointer is its address, and 0 is NULL.
pub mod Words
pub mod Lists
pub mod Blocks
pub mod Calls
pub mod Requests
pub mod Chains
pub mod Unlink
pub mod Pop
use model_lib.Prelude.{
  ℕ, zero, suc, ◌+◌, ◌-◌, ◌*◌, ◌/◌, ◌%◌, ◌^◌, Bool, true, false, not, ◌&&◌, Option, none, some, ltb,
  leb, ◌==◌, if◌then◌else◌,
}

-- The global variables, and what `memlib.c` keeps: the end of the heap and its limit.
pub record Heap : Type 0 where
  pub mem : ℕ → ℕ
  pub heap_start : ℕ
  pub heap_end : ℕ
  pub seg_list : ℕ → ℕ
  pub min_list : ℕ → ℕ
  pub brk : ℕ
  pub max_addr : ℕ

abbrev pub put : (ℕ → ℕ) → ℕ → ℕ → ℕ → ℕ
put f k v j = if j == k then v else f j

-- `*a = v`
abbrev pub store : Heap → ℕ → ℕ → Heap
store h a v = record h { mem = put h.mem a v }

abbrev pub wsize : ℕ
wsize = 8

abbrev pub dsize : ℕ
dsize = 16

abbrev pub min_block_size : ℕ
min_block_size = 16

abbrev pub chunksize : ℕ
chunksize = 4096

abbrev pub alloc_mask : ℕ
alloc_mask = 1

abbrev pub prev_alloc_mask : ℕ
prev_alloc_mask = 2

abbrev pub prev_min_mask : ℕ
prev_min_mask = 4

-- `w & m`, `w | m` and `w & ~m` for a mask of one bit.
unfoldable pub has_bit : ℕ → ℕ → Bool
has_bit w m = (w / m % 2) == 1

unfoldable pub set_bit : ℕ → ℕ → ℕ
set_bit w m = if has_bit w m then w else w + m

unfoldable pub clear_bit : ℕ → ℕ → ℕ
clear_bit w m = if has_bit w m then w - m else w

-- The arithmetic of `size_t`.
abbrev pub size_t : ℕ → ℕ
size_t n = n % 2 ^ 64

unfoldable pub max : ℕ → ℕ → ℕ
max x y = if ltb y x then x else y

unfoldable pub round_up : ℕ → ℕ → ℕ
round_up size n = size_t (n * (size_t (size + (n - 1)) / n))

unfoldable pub pack : ℕ → Bool → Bool → Bool → ℕ
pack size prev_min prev_alloc alloc =
    let w1 = if prev_min then set_bit size prev_min_mask else size in
    let w2 = if prev_alloc then set_bit w1 prev_alloc_mask else w1 in
    if alloc then set_bit w2 alloc_mask else w2

-- `word & size_mask`
unfoldable pub extract_size : ℕ → ℕ
extract_size word = word / 16 * 16

unfoldable pub extract_alloc : ℕ → Bool
extract_alloc word = has_bit word alloc_mask

unfoldable pub extract_prev_alloc : ℕ → Bool
extract_prev_alloc word = has_bit word prev_alloc_mask

unfoldable pub extract_prev_min : ℕ → Bool
extract_prev_min word = has_bit word prev_min_mask

-- The fields of the block at an address.
unfoldable pub get_size : Heap → ℕ → ℕ
get_size h block = extract_size (h.mem block)

unfoldable pub get_alloc : Heap → ℕ → Bool
get_alloc h block = extract_alloc (h.mem block)

unfoldable pub get_prev_alloc : Heap → ℕ → Bool
get_prev_alloc h block = extract_prev_alloc (h.mem block)

unfoldable pub get_prev_min : Heap → ℕ → Bool
get_prev_min h block = extract_prev_min (h.mem block)

-- `val.next` of a smallest block, `val.list.prev` and `val.list.next` of another.
abbrev pub min_next : ℕ → ℕ
min_next block = block + 8

abbrev pub list_prev : ℕ → ℕ
list_prev block = block + 8

abbrev pub list_next : ℕ → ℕ
list_next block = block + 16

unfoldable pub payload_to_header : ℕ → ℕ
payload_to_header bp = bp - wsize

unfoldable pub header_to_payload : ℕ → ℕ
header_to_payload block = block + wsize

unfoldable pub header_to_footer : Heap → ℕ → ℕ
header_to_footer h block = block + wsize + get_size h block - dsize

unfoldable pub footer_to_header : Heap → ℕ → ℕ
footer_to_header h footer = footer + wsize - extract_size (h.mem footer)

unfoldable pub get_payload_size : Heap → ℕ → ℕ
get_payload_size h block = size_t (get_size h block + 2 ^ 64 - wsize)

unfoldable pub write_epilogue : Heap → ℕ → Heap
write_epilogue h block = store h block (pack 0 false false true)

unfoldable pub write_block : Heap → ℕ → ℕ → Bool → Bool → Bool → Heap
write_block h block size prev_min prev_alloc alloc =
    let word = pack size prev_min prev_alloc alloc in
    let h1 = store h block word in
    if not alloc && not (size == min_block_size)
    then store h1 (header_to_footer h1 block) word
    else h1

unfoldable pub find_next : Heap → ℕ → ℕ
find_next h block = block + get_size h block

unfoldable pub find_prev_footer : ℕ → ℕ
find_prev_footer block = block - wsize

-- The result is 0 for the first block.
unfoldable pub find_prev : Heap → ℕ → ℕ
find_prev h block =
    let footer = find_prev_footer block in
    if extract_size (h.mem footer) == 0 then 0 else footer_to_header h footer

unfoldable pub get_index : ℕ → ℕ
get_index asize =
    if ltb asize (2 ^ 6)
    then 0
    else if ltb asize (2 ^ 7)
    then 1
    else if ltb asize (2 ^ 8)
    then 2
    else if ltb asize (2 ^ 9)
    then 3
    else if ltb asize (2 ^ 10)
    then 4
    else if ltb asize (2 ^ 11)
    then 5
    else if ltb asize (2 ^ 12)
    then 6
    else 7
