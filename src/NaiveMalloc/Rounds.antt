-- ===== src/NaiveMalloc/Rounds.antt =====
-- Lab5/mm-naive.c: an `ALLOC` round of the memory driver with this allocator.
use model_lib.Prelude.{
  ℕ, ◌+◌, ◌-◌, ◌<◌, ◌≤◌, ◌≡◌, ◌≢◌, refl, sym, ◌∙◌, ap, ◌==◌, if◌then◌else◌, arith, Bool, true,
  false, some, List, inl, inr,
}
use model_lib.Prelude.Int.{pos}
use model_lib.SplayTree.Sorted.{insert}
use model_lib.RangeSet.{DebugMode, dbg_none, RangeSet, accepted, add_range}
use model_lib.RangeSet.Chain.{Unused, Tracks}
use model_lib.RangeSet.Clear.{Fits}
use model_lib.RangeSet.Checked.{add_range-Checked}
use model_lib.RangeSet.Ends.{EndsAt, add_range-EndsAt}
use model_lib.Driver.{Trace, put}
use model_lib.Driver.Valid.{Valid, Round, goes_on, fails, remember, with_range, valid_alloc}
use model_lib.NaiveMalloc.{Heap, malloc}
use model_lib.NaiveMalloc.Fresh.{IsHeap, block_bytes, grown, malloc-grown, grown-IsHeap}
use mathlib.Core.Path.{subst}
use model_lib.NaiveMalloc.Driven.{
  naive, naive_checks, naive_bytes, Below, Below-StartsBelow, Below-Clear, Below-later,
  Below-insert, SameEnds, SameEnds-IsHeap, randomize_block-SameEnds,
}

-- The ranges are linked and end below the end of an aligned heap.
abbrev pub Ready : Valid Heap → List (ℕ × ℕ) → Type 0
Ready s es = IsHeap s.mem × Tracks s.ranges es × Below s.mem.mem_brk s.ranges.ranges es

module _ (sbrk_grants : ℕ → Bool) (random_data : ℕ → ℕ) (maxfill : ℕ) (mode : DebugMode) where
  abbrev pub with_payload : Valid Heap → RangeSet → (index size base : ℕ) → Valid Heap
  with_payload s ranges index size base =
      remember (naive sbrk_grants) naive_bytes naive_checks random_data maxfill mode s
        (grown sbrk_grants s.mem size) ranges index (s.mem.mem_brk + 16) size base s.all_check

  with_payload-SameEnds :
      (s : Valid Heap) (ranges : RangeSet) (index size base : ℕ)
      → (let s' = with_payload s ranges index size base in
          SameEnds (grown sbrk_grants s.mem size) s'.mem
          × (s'.ranges ≡ ranges)
          × (s'.all_check ≡ s.all_check))
  unfolding remember
  with_payload-SameEnds s ranges index size base =
      let t : Trace = record {
        blocks = put s.trace.blocks index (s.mem.mem_brk + 16);
        block_sizes = put s.trace.block_sizes index size;
      } in
      (
        randomize_block-SameEnds random_data maxfill mode (grown sbrk_grants s.mem size) t s.bases
            index base,
        refl,
        refl,
      )

  module _ (s : Valid Heap) (index size q base : ℕ) (es : List (ℕ × ℕ)) where
    -- The round goes on with the heap longer by one block, and with one range more.
    abbrev pub GoesOn : Type 0
    GoesOn =
        (ranges : RangeSet) × (let s' = with_payload s ranges index size base in
          (valid_alloc (naive sbrk_grants) naive_bytes naive_checks random_data maxfill mode s index
              size (some q) base
            ≡ goes_on s')
          × Ready s' (insert (s.mem.mem_brk + 16) q es)
          × (s'.mem.mem_brk ≡ s.mem.mem_brk + block_bytes size)
          × (s'.mem.mem_max_addr ≡ s.mem.mem_max_addr)
          × (s'.all_check ≡ s.all_check))

    abbrev h' : Heap
    h' = grown sbrk_grants s.mem size

    -- What follows from `malloc`.
    abbrev after : ℕ × Heap → Round Heap
    after (p, m) =
        if p == 0
        then fails
        else with_range (naive sbrk_grants) naive_bytes naive_checks random_data maxfill mode
            (add_range mode m.heap (m.mem_brk - 1) (some q) s.ranges p size (pos index))
            (λ ranges.
              remember (naive sbrk_grants) naive_bytes naive_checks random_data maxfill mode s m
                ranges index p size base s.all_check)

    valid_alloc-after :
        valid_alloc
          (naive sbrk_grants)
          naive_bytes
          naive_checks
          random_data
          maxfill
          mode
          s
          index
          size
          (some q)
          base
        ≡ after (malloc sbrk_grants s.mem size)
    unfolding valid_alloc naive
    valid_alloc-after = refl

    after-accepted :
        (ranges : RangeSet)
        → add_range mode h'.heap
            (h'.mem_brk - 1)
            (some q)
            s.ranges
            (s.mem.mem_brk + 16)
            size
            (pos index)
          ≡ accepted ranges
        → after (s.mem.mem_brk + 16, h') ≡ goes_on (with_payload s ranges index size base)
    unfolding with_range
    after-accepted ranges e =
        let test : ((s.mem.mem_brk + 16) == 0) ≡ false = ground arith in rw (test, e) refl

    pub valid_alloc-GoesOn :
        mode ≢ dbg_none
        → 0 < size
        → s.mem.mem_brk + block_bytes size ≤ s.mem.mem_max_addr
        → sbrk_grants (block_bytes size) ≡ true
        → Ready s es
        → Unused q es
        → GoesOn
    valid_alloc-GoesOn d z r g w u =
        let f : Fits h'.heap (h'.mem_brk - 1) q s.ranges (s.mem.mem_brk + 16) size (pos index) = (
          z,
          omega (arith, w.0.2),
          omega (arith, w.0.3),
          omega (arith, w.0.0, w.0.3),
          omega (arith, r, w.0.4),
        ) in
        elim (add_range-Checked mode h'.heap (h'.mem_brk - 1) q s.ranges (s.mem.mem_brk + 16) size
          (pos index) es d f w.1 u (Below-StartsBelow s.mem.mem_brk s.ranges.ranges es w.2)) [
            | inl c ↦
                let ends = subst (EndsAt s.ranges q (s.mem.mem_brk + 16 + size - 1)) c.2 (
                  add_range-EndsAt h'.heap (h'.mem_brk - 1) q s.ranges (s.mem.mem_brk + 16) size
                    (pos index) mode d f) in
                let s' = with_payload s c.1 index size base in
                let same = with_payload-SameEnds s c.1 index size base in
                let below : Below (s.mem.mem_brk + block_bytes size) c.1.ranges
                    (insert (s.mem.mem_brk + 16) q es) =
                  Below-insert (s.mem.mem_brk + block_bytes size) c.1.ranges (s.mem.mem_brk + 16) q
                    es (omega (arith, z)) (omega (arith, c.4, z))
                    (Below-later s.mem.mem_brk (s.mem.mem_brk + block_bytes size) s.ranges.ranges
                      c.1.ranges q (s.mem.mem_brk + 16 + size - 1) es (omega arith) u ends w.2) in
                (
                  c.1,
                  (
                    valid_alloc-after
                        ∙ ap after (malloc-grown sbrk_grants s.mem size w.0 r g)
                        ∙ after-accepted c.1 c.2,
                    (
                      SameEnds-IsHeap h' s'.mem same.0 (grown-IsHeap sbrk_grants s.mem size w.0),
                      subst (λ ranges. Tracks ranges (insert (s.mem.mem_brk + 16) q es))
                          (sym same.1) c.3,
                      subst (λ brk. Below brk s'.ranges.ranges (insert (s.mem.mem_brk + 16) q es))
                          (sym same.0.1)
                          (subst
                            (λ ranges.
                              Below h'.mem_brk ranges.ranges (insert (s.mem.mem_brk + 16) q es))
                            (sym same.1) below),
                    ),
                    same.0.1,
                    same.0.2,
                    same.2,
                  ),
                )
            | inr c ↦ absurd (
                c.0 (
                  Below-Clear s.mem.mem_brk s.ranges.ranges (s.mem.mem_brk + 16 + size - 1) es w.2))
          ]
