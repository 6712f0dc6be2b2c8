-- ===== src/Malloc/Lists.antt =====
-- Lab5/mm.c: the free lists. The result `none` stands for a run that reads through NULL or that follows
-- a list without end.
use model_lib.Prelude.{
  ℕ, zero, suc, ◌-◌, ◌%◌, not, ◌&&◌, Option, none, some, leb, ◌==◌, if◌then◌else◌,
}
use model_lib.Malloc.{
  Heap, put, store, min_block_size, min_next, list_prev, list_next, get_size, get_index,
}

abbrev pub num_classes : ℕ
num_classes = 8

abbrev pub set_seg : Heap → ℕ → ℕ → Heap
set_seg h i p = record h { seg_list = put h.seg_list i p }

abbrev pub set_min : Heap → ℕ → ℕ → Heap
set_min h i p = record h { min_list = put h.min_list i p }

-- The search of `pop_min_block`: the block before `block`, from `tmp` on.
unfoldable pub search_min : ℕ → Heap → ℕ → ℕ → ℕ → Option ℕ
search_min zero h block prev tmp = none
search_min (suc fuel) h block prev tmp =
    let rest = search_min fuel h block tmp (h.mem (min_next tmp)) in
    if tmp == block then some prev else if tmp == 0 then none else rest

-- The end of `pop_min_block`, for a block that is not at the root.
unfoldable pub unlink_min : Heap → ℕ → Option ℕ → Option Heap
unlink_min h block none = none
unlink_min h block (some prev) =
    let h1 = if h.mem (min_next block) == 0 then store h (min_next prev) 0 else h in
    let h2 = store h1 (min_next prev) (h1.mem (min_next block)) in
    some (store h2 (min_next block) 0)

unfoldable pub pop_min_block : ℕ → Heap → ℕ → Option Heap
pop_min_block fuel h block =
    let index = block % 6 in
    let root = h.min_list index in
    let next = h.mem (min_next block) in
    if block == root && next == 0
    then some (set_min h index 0)
    else if block == root
    then some (store (set_min h index next) (min_next block) 0)
    else unlink_min h block (search_min fuel h block root root)

unfoldable pub push_min_block : Heap → ℕ → Heap
push_min_block h block =
    let index = block % 6 in
    let root = h.min_list index in
    if root == 0
    then set_min (store h (min_next block) 0) index block
    else set_min (store h (min_next block) root) index block

-- The cases of `pop` for a block at the root.
unfoldable pub pop_root : Heap → ℕ → ℕ → ℕ → ℕ → Option Heap
pop_root h block i prev_block next_block =
    let cut = set_seg (store (store h (list_prev next_block) 0) (list_next block) 0) i next_block in
    if prev_block == 0 && next_block == 0
    then some (set_seg h i 0)
    else if next_block == 0
    then none
    else if (h.mem (list_next next_block) == 0) && prev_block == 0
    then some cut
    else if not (h.mem (list_next next_block) == 0) && prev_block == 0
    then some cut
    else some h

-- The cases of `pop` for a block behind the root.
unfoldable pub pop_inner : Heap → ℕ → ℕ → ℕ → Option Heap
pop_inner h block prev_block next_block =
    let cut = store (store h (list_next prev_block) 0) (list_prev block) 0 in
    let h1 = store h (list_next prev_block) next_block in
    let h2 = store h1 (list_prev next_block) prev_block in
    let h3 = store h2 (list_next block) 0 in
    if prev_block == 0
    then none
    else if (h.mem (list_prev prev_block) == 0) && next_block == 0
    then some cut
    else if not (next_block == 0)
    then some (store h3 (list_prev block) 0)
    else some cut

unfoldable pub pop : ℕ → Heap → ℕ → Option Heap
pop fuel h block =
    let size = get_size h block in
    let i = get_index size in
    let prev_block = h.mem (list_prev block) in
    let next_block = h.mem (list_next block) in
    if size == min_block_size
    then pop_min_block fuel h block
    else if block == h.seg_list i
    then pop_root h block i prev_block next_block
    else pop_inner h block prev_block next_block

-- The end of `push`, for a block of the class `i`.
unfoldable pub push_class : Heap → ℕ → ℕ → Heap
push_class h block i =
    let root = h.seg_list i in
    let alone = store (store h (list_prev block) 0) (list_next block) 0 in
    let h1 = store h (list_prev root) block in
    let h2 = store h1 (list_next block) root in
    let front = store h2 (list_prev block) 0 in
    if root == 0 then set_seg alone i block else set_seg front i block

unfoldable pub push : Heap → ℕ → Heap
push h block =
    let size = get_size h block in
    if size == min_block_size then push_min_block h block else push_class h block (get_index size)

-- The loop over the smallest blocks' lists, with `n` of the six to go; 0 if they are all empty.
unfoldable pub first_min : Heap → ℕ → ℕ → ℕ
first_min h zero i = 0
first_min h (suc n) i =
    let rest = first_min h n (suc i) in if h.min_list i == 0 then rest else h.min_list i

-- The loop along one list: the first block that is large enough, or 0.
unfoldable pub walk_fit : ℕ → Heap → ℕ → ℕ → Option ℕ
walk_fit zero h asize tmp = none
walk_fit (suc fuel) h asize tmp =
    let rest = walk_fit fuel h asize (h.mem (list_next tmp)) in
    if tmp == 0 then some 0 else if leb asize (get_size h tmp) then some tmp else rest

unfoldable pub or_later : Option ℕ → Option ℕ → Option ℕ
or_later none later = none
or_later (some p) later = if p == 0 then later else some p

-- The loop over the classes, with `n` to go.
unfoldable pub walk_classes : ℕ → Heap → ℕ → ℕ → ℕ → Option ℕ
walk_classes fuel h asize zero i = some 0
walk_classes fuel h asize (suc n) i =
    or_later (walk_fit fuel h asize (h.seg_list i)) (walk_classes fuel h asize n (suc i))

unfoldable pub find_fit : ℕ → Heap → ℕ → Option ℕ
find_fit fuel h asize =
    let smallest = first_min h 6 0 in
    let start = get_index asize in
    let larger = walk_classes fuel h asize (num_classes - start) start in
    if asize == min_block_size && not (smallest == 0) then some smallest else larger
