-- ===== src/Tests/NaiveMalloc.antt =====
-- Runs of Lab5/mm-naive.c.
use model_lib.Prelude.{ℕ, ◌-◌, ◌^◌, ◌≡◌, refl, arith, Bool, true, some, none, List, [], ◌∷◌}
use model_lib.RangeSet.{dbg_cheap, Range, new_range_set}
use model_lib.Prelude.Int.{pos, negsuc}
use model_lib.Driver.{TraceOp, alloc, realloc, free, eval_mm_util}
use model_lib.Driver.Peak.{IsTrace}
use model_lib.Driver.Valid.{eval_mm_valid}
use model_lib.NaiveMalloc.{
  Heap, malloc, realloc as naive_realloc, calloc, round_up, mem_sbrk, with_header, moved, cleared,
}
use model_lib.NaiveMalloc.Driven.{naive, naive_checks, naive_bytes}
use model_lib.NaiveMalloc.Peaks.{eval_mm_util-peak-naive}
use model_lib.NaiveMalloc.Runs.{Request, eval_mm_valid-AllocsAndFrees}

abbrev heap : Heap
heap = record { heap = 64; mem_brk = 64; mem_max_addr = 4096; bytes = λ a. 0 }

abbrev grants : ℕ → Bool
grants n = true

abbrev requests : List Request
requests =
    (alloc 0 100, some 1, 7)
    ∷ (alloc 1 16, some 2, 9)
    ∷ (free (pos 0), none, 0)
    ∷ (free (negsuc 0), none, 0)
    ∷ (alloc 0 32, some 3, 11)
    ∷ []

abbrev no_range : ℕ → Range
no_range p = record { lo = 0; hi = 0; index = pos 0; next = none; prev = none }

eval_mm_valid-AllocsAndFrees_example :
    eval_mm_valid
      (naive grants)
      naive_bytes
      naive_checks
      (λ i. i)
      8
      dbg_cheap
      10
      heap
      (λ i. 0)
      (new_range_set no_range)
      requests
    ≡ some true
eval_mm_valid-AllocsAndFrees_example =
    eval_mm_valid-AllocsAndFrees grants (λ i. i) 8 (λ n. refl) 10 heap (λ i. 0) no_range requests
      (omega arith, refl, refl, omega arith, omega arith)
      (
        omega arith,
        tt,
        (omega arith, (omega arith, tt), (omega arith, (omega arith, (omega arith, tt)), tt)),
      )
      (omega arith)

-- A reallocation to no bytes gives NULL and takes nothing from the heap.
abbrev ops : List TraceOp
ops = alloc 0 100 ∷ alloc 1 50 ∷ free (pos 0) ∷ realloc 1 80 ∷ realloc 1 0 ∷ free (negsuc 0) ∷ []

ops-IsTrace : IsTrace [] ops
ops-IsTrace = (
  (refl, omega arith),
  (
    (refl, omega arith),
    ((100, refl), (((50, refl), omega arith), (((80, refl), omega arith), (tt, tt)))),
  ),
)

eval_mm_util-peak-naive_example : eval_mm_util (naive grants) heap ops ≡ some (150, 304)
eval_mm_util-peak-naive_example =
    eval_mm_util-peak-naive grants (λ n. refl) heap ops
      (omega arith, refl, refl, omega arith, omega arith) ops-IsTrace (omega arith)

-- The payload and the end of the heap.
abbrev result : ℕ × Heap → ℕ × ℕ
result (p, h) = (p, h.mem_brk)

malloc-small : result (malloc grants heap 100) ≡ (80, 192)
unfolding malloc round_up mem_sbrk with_header
malloc-small = refl

-- The sum with the header wraps around: the payload begins at the end of the heap.
malloc-wraps : result (malloc grants heap (2 ^ 64 - 1)) ≡ (80, 80)
unfolding malloc round_up mem_sbrk with_header
malloc-wraps = refl

malloc-full : result (malloc grants heap 5000) ≡ (0, 64)
unfolding malloc round_up mem_sbrk with_header
malloc-full = refl

calloc-full : calloc grants heap 50 100 ≡ none
unfolding calloc cleared malloc round_up mem_sbrk with_header
calloc-full = refl

realloc-moves : result (naive_realloc grants (malloc grants heap 16).1 80 40) ≡ (112, 160)
unfolding naive_realloc moved malloc round_up mem_sbrk with_header
realloc-moves = refl
