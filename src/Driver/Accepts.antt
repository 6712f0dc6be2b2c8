-- ===== src/Driver/Accepts.antt =====
-- Lab5/mdriver.c: what `eval_mm_valid` decides about a new payload, and its walk along the ranges.
use model_lib.Prelude.{
  ℕ, zero, suc, ◌+◌, ◌-◌, ◌<◌, ◌≡◌, ◌≢◌, refl, sym, ◌∙◌, ap, ◌==◌, if◌then◌else◌, arith, Bool, true,
  false, Option, some, List, [], ◌∷◌, inl, inr, ◌⊎◌, length,
}
use model_lib.Prelude.Int.{pos}
use model_lib.SplayTree.Sorted.{insert}
use model_lib.RangeSet.{
  DebugMode, dbg_none, RangeSet, Verdict, refused, accepted, overlaps, add_range,
}
use model_lib.RangeSet.Chain.{Chain, Unused, Tracks}
use model_lib.RangeSet.Clear.{Clear, StartsBelow, Fits}
use model_lib.RangeSet.Checked.{add_range-Checked}
use model_lib.Driver.{Allocator, Trace, put}
use model_lib.Driver.Peak.{put_self}
use mathlib.Core.Path.{subst}
use model_lib.Driver.Fill.{Bytes, randomize_block-check_index}
use model_lib.Driver.Valid.{
  Checks, Valid, Round, goes_on, fails, remember, with_range, valid_alloc, check_list, intact,
}

module _ {ℓ} {M : Type ℓ} (mm : Allocator M) (bytes : Bytes M) (checks : Checks M)
    (random_data : ℕ → ℕ) (maxfill : ℕ) (mode : DebugMode) where
  -- The verdict on a payload from `p` on, of `size` bytes, whose range gets the pointer `q`.
  abbrev pub Judged : Valid M → List (ℕ × ℕ) → (index p q size : ℕ) → Round M → Type ℓ
  Judged s es index p q size r =
      (Clear s.ranges.ranges p (p + size - 1) es
        × (s' : Valid M) × (r ≡ goes_on s')
        × Tracks s'.ranges (insert p q es)
        × (s'.trace.blocks index ≡ p)
        × (s'.trace.block_sizes index ≡ size)
        × (intact mm bytes checks random_data maxfill mode s'.mem s'.trace s'.bases (pos index)
            ≡ true))
      ⊎ ((Clear s.ranges.ranges p (p + size - 1) es → ⊥) × (r ≡ fails))

  pub valid_alloc-run :
      (s : Valid M) (index size q base : ℕ) (v : Verdict)
      → (mm.mm_malloc s.mem size).0 ≢ 0
      → (let (p, m) = mm.mm_malloc s.mem size in
          add_range mode
            (checks.mem_heap_lo m)
            (checks.mem_heap_hi m)
            (some q)
            s.ranges
            p
            size
            (pos index))
        ≡ v
      → valid_alloc mm bytes checks random_data maxfill mode s index size (some q) base
        ≡ with_range mm bytes checks random_data maxfill mode v (λ ranges.
          remember mm bytes checks random_data maxfill mode s
            (mm.mm_malloc s.mem size).1
            ranges
            index
            (mm.mm_malloc s.mem size).0
            size
            base
            s.all_check)
  unfolding valid_alloc
  valid_alloc-run s index size q base v ne e =
      let test : ((mm.mm_malloc s.mem size).0 == 0) ≡ false = ground (arith, ne) in
      rw (test, e) refl

  module _ (s : Valid M) (index size q base : ℕ) where
    abbrev p : ℕ
    p = (mm.mm_malloc s.mem size).0

    abbrev m : M
    m = (mm.mm_malloc s.mem size).1

    abbrev next : RangeSet → Valid M
    next ranges =
        remember mm bytes checks random_data maxfill mode s m ranges index p size base s.all_check

    remember-intact :
        (ranges : RangeSet)
        → ((next ranges).ranges ≡ ranges)
          × ((next ranges).trace.blocks index ≡ p)
          × ((next ranges).trace.block_sizes index ≡ size)
          × (intact mm bytes checks random_data maxfill mode
                (next ranges).mem
                (next ranges).trace
                (next ranges).bases
                (pos index)
              ≡ true)
    unfolding remember
    remember-intact ranges =
        let t : Trace = record {
          blocks = put s.trace.blocks index p;
          block_sizes = put s.trace.block_sizes index size;
        } in
        (
          refl,
          put_self s.trace.blocks index p,
          put_self s.trace.block_sizes index size,
          randomize_block-check_index bytes random_data maxfill mode m t s.bases index base,
        )

    pub with_range-accepted :
        (ranges : RangeSet)
        → with_range mm bytes checks random_data maxfill mode (accepted ranges) next
          ≡ goes_on (next ranges)
    unfolding with_range
    with_range-accepted ranges = refl

    with_range-refused :
        (lo hi : ℕ) (ranges : RangeSet)
        → with_range mm bytes checks random_data maxfill mode (refused (overlaps lo hi) ranges) next
          ≡ fails
    unfolding with_range
    with_range-refused lo hi ranges = refl

    -- In the modes that check overlaps, that is, all but `DBG_NONE`: where tree and list of the
    -- ranges have the same ranges, there is memory for the record of the range that none of them
    -- uses, and there is either no range or the lowest one begins at or below the payload, if
    -- `mm_malloc` gives an aligned payload of a byte or more within a heap below `2 ^ 63`, the
    -- `ALLOC` round of `eval_mm_valid` goes on if and only if the payload overlaps no range, and
    -- fails otherwise; when it goes on, the ranges are linked again with the new one, the trace has
    -- the payload and its size, and its data pass the check.
    pub valid_alloc-Judged :
        (es : List (ℕ × ℕ))
        → mode ≢ dbg_none
        → p ≢ 0
        → Fits (checks.mem_heap_lo m) (checks.mem_heap_hi m) q s.ranges p size (pos index)
        → Tracks s.ranges es
        → Unused q es
        → StartsBelow p es
        → Judged s es index p q size
            (valid_alloc mm bytes checks random_data maxfill mode s index size (some q) base)
    valid_alloc-Judged es d ne f h u b =
        elim (add_range-Checked mode (checks.mem_heap_lo m) (checks.mem_heap_hi m) q s.ranges p size
          (pos index) es d f h u b) [
            | inl c ↦
                let r = remember-intact c.1 in
                inl (
                  c.0,
                  next c.1,
                  valid_alloc-run s index size q base (accepted c.1) ne c.2
                      ∙ with_range-accepted c.1,
                  subst (λ ranges. Tracks ranges (insert p q es)) (sym r.0) c.3,
                  r.1,
                  r.2,
                  r.3,
                )
            | inr c ↦ inr (
              c.0,
              valid_alloc-run s index size q base (refused (overlaps c.1.0 c.1.1) c.2) ne c.3
                  ∙ with_range-refused c.1.0 c.1.1 c.2,
            )
          ]

  -- All of these ranges have their data.
  abbrev pub all_intact : Valid M → List (ℕ × ℕ) → Bool
  all_intact s [] = true
  all_intact s (e ∷ es) =
      if intact mm bytes checks random_data maxfill mode s.mem s.trace s.bases
        (s.ranges.ranges e.1).index
      then all_intact s es
      else false

  -- With more fuel than ranges, the walk of `DBG_EXPENSIVE` along a linked list checks the data of every range.
  pub check_list-all_intact :
      (f : ℕ) (s : Valid M) (link before : Option ℕ) (es : List (ℕ × ℕ))
      → length es < f
      → Chain s.ranges.ranges link before es
      → check_list mm bytes checks random_data maxfill mode f s link ≡ all_intact s es
  unfolding check_list
  check_list-all_intact zero s link before es l c = absurd (omega (arith, l))
  check_list-all_intact (suc f) s link before [] l c = rw c refl
  check_list-all_intact (suc f) s link before (e ∷ es) l c = rw (c.0) (
      ap
        (λ b.
          if intact mm bytes checks random_data maxfill mode s.mem s.trace s.bases
            (s.ranges.ranges e.1).index
          then b
          else false)
        (check_list-all_intact f s (s.ranges.ranges e.1).next (some e.1) es (omega (arith, l)) c.3))
