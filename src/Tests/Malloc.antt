-- ===== src/Tests/Malloc.antt =====
-- Runs of the allocator of Lab5/mm.c.
use model_lib.Prelude.{ℕ, ◌≡◌, refl, true, false, [], ◌∷◌, arith, inl, inr, ◌≢◌}
use model_lib.Malloc.{Heap, pack, put, get_index, get_size, extract_size}
use model_lib.Malloc.Lists.{push, pop}
use model_lib.Malloc.Pop.{Popped, pop-Popped}
use model_lib.Malloc.Words.{Holds, pack-Holds}
use model_lib.Malloc.Chains.{Chain, ends, next, Apart, IsApart, Pushed, push-Pushed}

-- One free block of 64 bytes at 1000, on the list of its class.
abbrev heap : Heap
heap = record {
  mem = put (λ a. 0) 1000 64;
  heap_start = 992;
  heap_end = 1000;
  seg_list = put (λ i. 0) 1 1000;
  min_list = λ i. 0;
  brk = 2000;
  max_addr = 4000;
}

chain : Chain heap.mem 0 1000 (1000 ∷ [])
chain = next 1000 (omega arith) refl ends

fresh-IsApart : IsApart (1100 ∷ 1000 ∷ [])
fresh-IsApart =
    IsApart.and_more (Apart.and_more (inr (omega arith)) Apart.none_left)
      (IsApart.and_more Apart.none_left IsApart.none_left)

-- The block of 64 bytes at 1100 has just been freed.
abbrev freed : Heap
freed = record heap { mem = put heap.mem 1100 64 }

freed_chain : Chain freed.mem 0 1000 (1000 ∷ [])
freed_chain = next 1000 (omega arith) refl ends

large : get_size freed 1100 ≢ 16
unfolding get_size extract_size
large = omega arith

class : get_index (get_size freed 1100) ≡ 1
unfolding get_index get_size extract_size
class = refl

push-Pushed_example : Pushed freed (push freed 1100) 1100 1 (1000 ∷ [])
push-Pushed_example =
    push-Pushed freed 1100 1 (1000 ∷ []) (omega arith) large class freed_chain fresh-IsApart

-- Both blocks are on the list, the one at 1000 first.
abbrev linked : Heap
linked = record freed { mem = put (put freed.mem 1016 1100) 1108 1000 }

linked_chain : Chain linked.mem 0 1000 (1000 ∷ 1100 ∷ [])
linked_chain = next 1000 (omega arith) refl (next 1100 (omega arith) refl ends)

linked-IsApart : IsApart (1000 ∷ 1100 ∷ [])
linked-IsApart =
    IsApart.and_more (Apart.and_more (inl (omega arith)) Apart.none_left)
      (IsApart.and_more Apart.none_left IsApart.none_left)

linked_large : get_size linked 1100 ≢ 16
unfolding get_size extract_size
linked_large = omega arith

linked_class : get_index (get_size linked 1100) ≡ 1
unfolding get_index get_size extract_size
linked_class = refl

pop-Popped_example : Popped linked (pop 10 linked 1100) 1 (1000 ∷ [])
pop-Popped_example =
    pop-Popped 10 linked 1100 1 (1000 ∷ []) [] linked_large linked_class linked_chain linked-IsApart

pack-Holds_example : Holds 48 true false true (pack 48 true false true)
pack-Holds_example = pack-Holds 48 true false true refl

abbrev given : (ℕ → ℕ) → ℕ → ℕ → ℕ → ℕ → ℕ
given mem a b n = mem
