-- ===== src/Tests/Driver.antt =====
-- Runs of the driver's evaluations of Lab5/mdriver.c with an allocator that never reuses memory.
use model_lib.Prelude.{ℕ, ◌+◌, ◌-◌, ◌%◌, ◌≡◌, refl, ◌↔◌, [], ◌∷◌, some, true, arith}
use model_lib.Prelude.Int.{pos}
use model_lib.RangeSet.{dbg_cheap}
use model_lib.Driver.{Allocator, Trace, put}
use model_lib.Driver.Fill.{
  Bytes, Holds, smaller, check_index, randomize_block, check_index-Holds,
  randomize_block-check_index,
}
use model_lib.Driver.Valid.{Checks, Valid, valid_alloc}
use model_lib.Driver.Accepts.{Judged, valid_alloc-Judged}
use model_lib.Tests.RangeSet.{one, one-Tracks, cheap}

-- The end of the heap, and the bytes.
abbrev Memory : Type 0
Memory = ℕ × (ℕ → ℕ)

abbrev bump : Allocator Memory
bump = record {
  mem_reset_brk = λ m. (64, λ a. 0);
  mm_init = λ m. (true, m);
  mm_malloc = λ m size. (m.0 + 16, (m.0 + 16 + size, m.1));
  mm_realloc = λ m p size. (m.0 + 16, (m.0 + 16 + size, m.1));
  mm_free = λ m p. m;
  mem_heapsize = λ m. m.0 - 64;
}

abbrev memory_bytes : Bytes Memory
memory_bytes = record {
  mem_read = λ m a. m.1 a;
  mem_write = λ m a v. (m.0, put m.1 a (v % 256));
  read_written = λ m a v. ground arith;
  read_other = λ m a b v h. ground (arith, h);
}

abbrev trace : Trace
trace = record { blocks = λ i. 128; block_sizes = λ i. 16 }

check_index-Holds_example :
    (check_index memory_bytes (λ i. i) 8 dbg_cheap (1024, λ a. 0) trace (λ i. 7) (pos 0) ≡ true)
    ↔ Holds memory_bytes (λ i. i) 8 (1024, λ a. 0) 128 7 (smaller 16 8)
check_index-Holds_example =
    check_index-Holds memory_bytes (λ i. i) 8 dbg_cheap (1024, λ a. 0) trace (λ i. 7) 0 cheap

randomize_block-check_index_example :
    check_index memory_bytes
      (λ i. i)
      8
      dbg_cheap
      (randomize_block memory_bytes (λ i. i) 8 dbg_cheap (1024, λ a. 0) trace (λ i. 0) 0 7).0
      trace
      (randomize_block memory_bytes (λ i. i) 8 dbg_cheap (1024, λ a. 0) trace (λ i. 0) 0 7).1
      (pos 0)
    ≡ true
randomize_block-check_index_example =
    randomize_block-check_index memory_bytes (λ i. i) 8 dbg_cheap (1024, λ a. 0) trace (λ i. 0) 0 7

abbrev all_well : Checks Memory
all_well = record { mm_checkheap = λ m. true; mem_heap_lo = λ m. 64; mem_heap_hi = λ m. m.0 - 1 }

abbrev state : Valid Memory
state = record {
  mem = (144, λ a. 0);
  trace = trace;
  bases = λ i. 0;
  ranges = one;
  all_check = true;
}

valid_alloc-Judged_example :
    Judged bump memory_bytes all_well
      (λ i. i)
      8
      dbg_cheap
      state
      ((128, 1) ∷ [])
      1
      160
      2
      32
      (valid_alloc bump memory_bytes all_well (λ i. i) 8 dbg_cheap state 1 32 (some 2) 7)
valid_alloc-Judged_example =
    valid_alloc-Judged bump memory_bytes all_well (λ i. i) 8 dbg_cheap state 1 32 2 7
      ((128, 1) ∷ []) cheap (omega arith) (omega arith, refl, omega arith, omega arith, omega arith)
      one-Tracks (omega arith, tt) (omega arith)
