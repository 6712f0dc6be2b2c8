-- ===== src/Tests/StaleEnd.antt =====
-- A run of the allocator of Lab5/mm.c that ends in a crash: the last block is freed behind a free one.
use model_lib.Prelude.{ℕ, ◌≡◌, refl, Option, none, some}
use model_lib.Malloc.{
  Heap, has_bit, set_bit, clear_bit, max, round_up, pack, extract_size, extract_alloc,
  extract_prev_alloc, extract_prev_min, get_size, get_alloc, get_prev_alloc, get_prev_min,
  payload_to_header, header_to_payload, header_to_footer, footer_to_header, write_epilogue,
  write_block, find_next, find_prev_footer, find_prev, get_index,
}
use model_lib.Malloc.Lists.{
  search_min, unlink_min, pop_min_block, push_min_block, pop_root, pop_inner, pop, push_class, push,
  first_min, walk_fit, or_later, walk_classes, find_fit,
}
use model_lib.Malloc.Blocks.{
  ◌>>=◌, clear_min, prev_of, coalesce_next, coalesce_prev, coalesce_both, coalesce_first,
  coalesce_block, mem_sbrk, add_free, grow_last, extend_with, extend_heap, mm_init, split_in_two,
  take_whole, split_block,
}
use model_lib.Malloc.Calls.{
  adjusted_size, initialised, place, place_new, place_at, malloc, free_block, free,
}

-- No heap yet; memory reads 0.
abbrev fresh : Heap
fresh = record {
  mem = λ a. 0;
  heap_start = 0;
  heap_end = 0;
  seg_list = λ i. 0;
  min_list = λ i. 0;
  brk = 1600;
  max_addr = 1000000;
}

abbrev result : Option (Heap × ℕ) → ℕ
result none = 0
result (some (h, p)) = p

abbrev last_block : Option Heap → ℕ
last_block none = 0
last_block (some h) = h.heap_end

everything : Unit {0}
unfolding has_bit set_bit clear_bit max round_up pack extract_size extract_alloc extract_prev_alloc
    extract_prev_min get_size get_alloc get_prev_alloc get_prev_min payload_to_header
    header_to_payload header_to_footer footer_to_header write_epilogue write_block find_next
    find_prev_footer find_prev get_index search_min unlink_min pop_min_block push_min_block pop_root
    pop_inner pop push_class push first_min walk_fit or_later walk_classes find_fit clear_min
    prev_of coalesce_next coalesce_prev coalesce_both coalesce_first coalesce_block mem_sbrk
    add_free grow_last extend_with extend_heap mm_init split_in_two take_whole split_block
    adjusted_size initialised place place_new place_at malloc free_block free
everything = tt

-- The first block takes 112 bytes, and the second one the rest of the 4096.
first_malloc : result (malloc 10 fresh 100) ≡ 1616
unfolding everything
first_malloc = refl

abbrev both : Option Heap
both = malloc 10 fresh 100 >>= λ (h, p).
    malloc 10 h 3976 >>= λ (h', q). free 10 h' p >>= λ h''. free 10 h'' q

-- Both are free, and the joined block begins at 1608; `heap_end` still is the second block.
stale : last_block both ≡ 1720
unfolding everything
stale = refl

-- The next `malloc` that needs more memory reads through NULL.
crash : (both >>= λ h. malloc 10 h 5000) ≡ none
unfolding everything
crash = refl
