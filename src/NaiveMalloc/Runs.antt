-- ===== src/NaiveMalloc/Runs.antt =====
-- Lab5/mm-naive.c: whole traces of `ALLOC` and `FREE` under `eval_mm_valid` of Lab5/mdriver.c.
use model_lib.Prelude.{
  ℕ, zero, suc, ◌+◌, ◌<◌, ◌≤◌, ◌≡◌, refl, ◌∙◌, ap, arith, Bool, true, false, Option, none, some,
  List, [], ◌∷◌,
}
use model_lib.Prelude.Int.{ℤ, pos, negsuc}
use model_lib.SplayTree.Sorted.{insert}
use model_lib.SplayTree.Insert.{tree_new-Holds}
use model_lib.RangeSet.{dbg_cheap, Range, new_range_set}
use model_lib.RangeSet.Chain.{Unused}
use model_lib.Driver.{TraceOp, alloc, realloc, free, reinit_trace}
use model_lib.Driver.Fill.{check_index, check_block}
use model_lib.Driver.Valid.{
  Valid, Round, goes_on, fails, stops, valid_alloc, valid_free, valid_switch, check_all, valid_loop,
  eval_mm_valid,
}
use model_lib.NaiveMalloc.{Heap, mem_reset_brk}
use model_lib.NaiveMalloc.Fresh.{IsHeap, block_bytes}
use model_lib.NaiveMalloc.Driven.{naive, naive_checks, naive_bytes, Unused-insert}
use model_lib.NaiveMalloc.Rounds.{Ready, with_payload, valid_alloc-GoesOn}
use model_lib.NaiveMalloc.Kept.{Kept, with_payload-Kept, valid_free-Frees, valid_free-null}

-- An operation with the memory for its range and its random number.
abbrev pub Request : Type 0
Request = TraceOp × Option ℕ × ℕ

-- The bytes of all blocks that are allocated.
abbrev pub all_bytes : List Request → ℕ
all_bytes [] = 0
all_bytes ((alloc index size, slot, base) ∷ ops) = block_bytes size + all_bytes ops
all_bytes ((realloc index size, slot, base) ∷ ops) = all_bytes ops
all_bytes ((free index, slot, base) ∷ ops) = all_bytes ops

-- Allocations of a byte or more, each with a pointer that neither `es` nor an earlier one has, and frees, also of
-- NULL.
abbrev pub AllocsAndFrees : List (ℕ × ℕ) → List Request → Type 0
AllocsAndFrees es [] = Unit
AllocsAndFrees es ((alloc index size, some q, base) ∷ ops) =
    (0 < size) × Unused q es × AllocsAndFrees ((0, q) ∷ es) ops
AllocsAndFrees es ((alloc index size, none, base) ∷ ops) = ⊥
AllocsAndFrees es ((realloc index size, slot, base) ∷ ops) = ⊥
AllocsAndFrees es ((free (pos index), slot, base) ∷ ops) = AllocsAndFrees es ops
AllocsAndFrees es ((free (negsuc zero), slot, base) ∷ ops) = AllocsAndFrees es ops
AllocsAndFrees es ((free (negsuc (suc n)), slot, base) ∷ ops) = ⊥

-- A pointer that `es` does not have is not of the ranges `fs`.
abbrev Covers : (es fs : List (ℕ × ℕ)) → Type 0
Covers es fs = (q : ℕ) → Unused q es → Unused q fs

module _ (sbrk_grants : ℕ → Bool) (random_data : ℕ → ℕ) (maxfill : ℕ)
    (grants : (n : ℕ) → sbrk_grants n ≡ true) where
  abbrev loop : ℕ → Valid Heap → List Request → Option Bool
  loop = valid_loop (naive sbrk_grants) naive_bytes naive_checks random_data maxfill dbg_cheap

  -- What follows a round.
  abbrev rest : ℕ → List Request → Round Heap → Option Bool
  rest fuel ops (goes_on s) = loop fuel s ops
  rest fuel ops fails = some false
  rest fuel ops stops = none

  loop-alloc :
      (fuel : ℕ) (s : Valid Heap) (index size q base : ℕ) (ops : List Request) (r : Round Heap)
      → valid_alloc
          (naive sbrk_grants)
          naive_bytes
          naive_checks
          random_data
          maxfill
          dbg_cheap
          s
          index
          size
          (some q)
          base
        ≡ r
      → loop fuel s ((alloc index size, some q, base) ∷ ops) ≡ rest fuel ops r
  unfolding valid_loop check_all valid_switch
  loop-alloc fuel s index size q base ops r e = ap (rest fuel ops) e

  loop-free :
      (fuel : ℕ) (s : Valid Heap) (i : ℤ) (slot : Option ℕ) (base : ℕ) (ops : List Request)
      (r : Round Heap)
      → valid_free (naive sbrk_grants) naive_bytes naive_checks random_data maxfill dbg_cheap s i
        ≡ r
      → loop fuel s ((free i, slot, base) ∷ ops) ≡ rest fuel ops r
  unfolding valid_loop check_all valid_switch
  loop-free fuel s i slot base ops r e = ap (rest fuel ops) e

  -- What every round keeps; `ops` are to come.
  abbrev Goes : Valid Heap → (es fs : List (ℕ × ℕ)) → List Request → Type 0
  Goes s es fs ops =
      Ready s fs
      × Covers es fs
      × Kept sbrk_grants random_data maxfill s
      × (s.mem.mem_brk + all_bytes ops ≤ s.mem.mem_max_addr)
      × (s.all_check ≡ true)
      × AllocsAndFrees es ops

  valid_loop-Goes :
      (fuel : ℕ) (s : Valid Heap) (es fs : List (ℕ × ℕ)) (ops : List Request)
      → Goes s es fs ops
      → loop fuel s ops ≡ some true
  unfolding valid_loop check_all valid_switch
  valid_loop-Goes fuel s es fs [] g = ap some g.4
  valid_loop-Goes fuel s es fs ((alloc index size, some q, base) ∷ ops) g =
      let c =
        valid_alloc-GoesOn sbrk_grants random_data maxfill dbg_cheap s index size q base fs
          (ground arith) g.5.0 (omega (arith, g.3)) (grants (block_bytes size)) g.0 (g.1 q g.5.1) in
      loop-alloc fuel s index size q base ops
        (goes_on (with_payload sbrk_grants random_data maxfill dbg_cheap s c.0 index size base))
        c.1.0
      ∙ valid_loop-Goes fuel
          (with_payload sbrk_grants random_data maxfill dbg_cheap s c.0 index size base)
          ((0, q) ∷ es) (insert (s.mem.mem_brk + 16) q fs) ops
          (
            c.1.1,
            (λ x u. Unused-insert x (s.mem.mem_brk + 16) q fs u.0 (g.1 x u.1)),
            with_payload-Kept sbrk_grants random_data maxfill s c.0 index size base g.2,
            omega (arith, g.3, c.1.2, c.1.3),
            c.1.4 ∙ g.4,
            g.5.2,
          )
  valid_loop-Goes fuel s es fs ((alloc index size, none, base) ∷ ops) g = absurd g.5
  valid_loop-Goes fuel s es fs ((realloc index size, slot, base) ∷ ops) g = absurd g.5
  valid_loop-Goes fuel s es fs ((free (pos index), slot, base) ∷ ops) g =
      let c = valid_free-Frees sbrk_grants random_data maxfill s index fs g.2 g.0 g.4 in
      loop-free fuel s (pos index) slot base ops (goes_on c.0) c.2
      ∙ valid_loop-Goes fuel c.0 es c.1 ops
          (c.3, (λ q u. c.4 q (g.1 q u)), c.5, rw (c.6) (g.3), c.7, g.5)
  valid_loop-Goes fuel s es fs ((free (negsuc zero), slot, base) ∷ ops) g =
      let c = valid_free-null sbrk_grants random_data maxfill s fs g.2 g.0 g.4 in
      loop-free fuel s (negsuc zero) slot base ops (goes_on c.0) c.2
      ∙ valid_loop-Goes fuel c.0 es c.1 ops
          (c.3, (λ q u. c.4 q (g.1 q u)), c.5, rw (c.6) (g.3), c.7, g.5)
  valid_loop-Goes fuel s es fs ((free (negsuc (suc n)), slot, base) ∷ ops) g = absurd g.5

  new-Kept :
      (h : Heap) (bases : ℕ → ℕ) (rs : ℕ → Range)
      → Kept sbrk_grants random_data maxfill (record {
        mem = mem_reset_brk h;
        trace = reinit_trace;
        bases = bases;
        ranges = new_range_set rs;
        all_check = true;
      })
  unfolding check_index check_block reinit_trace
  new-Kept h bases rs i = (omega arith, refl)

  -- On an aligned heap below `2 ^ 63`, where the system gives the memory for `sbrk`,
  -- `eval_mm_valid` of mm-naive.c in the mode `DBG_CHEAP` ends with the result true on every trace
  -- of allocations and frees, if each allocation asks for a byte or more and gets a pointer of its
  -- own for its range, and if all allocated blocks, rounded up and with their headers, fit into the
  -- heap: no payload overlaps another, and no data are lost.
  pub eval_mm_valid-AllocsAndFrees :
      (fuel : ℕ) (h : Heap) (bases : ℕ → ℕ) (rs : ℕ → Range) (ops : List Request)
      → IsHeap h
      → AllocsAndFrees [] ops
      → h.heap + all_bytes ops ≤ h.mem_max_addr
      → eval_mm_valid
          (naive sbrk_grants)
          naive_bytes
          naive_checks
          random_data
          maxfill
          dbg_cheap
          fuel
          h
          bases
          (new_range_set rs)
          ops
        ≡ some true
  unfolding eval_mm_valid naive new_range_set
  eval_mm_valid-AllocsAndFrees fuel h bases rs ops w a r =
      valid_loop-Goes fuel
        (record {
          mem = mem_reset_brk h;
          trace = reinit_trace;
          bases = bases;
          ranges = new_range_set rs;
          all_check = true;
        })
        [] [] ops
        (
          ((w.0, w.1, w.1, omega arith, w.4), (tree_new-Holds, refl, tt, tt), tt),
          (λ q u. u),
          new-Kept h bases rs,
          r,
          refl,
          a,
        )
