-- ===== src/NaiveMalloc/Kept.antt =====
-- Lab5/mm-naive.c: the data of the payloads, which no later call changes, and the `FREE` rounds of the driver.
use model_lib.Prelude.{
  ℕ, ◌+◌, ◌<◌, ◌≤◌, ◌≡◌, refl, sym, ◌∙◌, ◌==◌, arith, Bool, true, Bool-cases, ==_iff, List, [], ◌∷◌,
  inl, inr,
}
use model_lib.Prelude.Int.{ℤ, pos, negsuc}
use model_lib.SplayTree.Sorted.{erase}
use model_lib.RangeSet.{RangeSet, Range, dbg_cheap, remove_range}
use model_lib.RangeSet.Chain.{Unused}
use model_lib.RangeSet.Ends.{remove_range-ends}
use model_lib.RangeSet.Remove.{remove_range-Tracks}
use model_lib.Driver.{Trace, put}
use model_lib.Driver.Fill.{
  check_index, randomize_block, check_index-Holds, randomize_block-check_index,
}
use model_lib.Driver.Valid.{Valid, goes_on, remember, valid_free, intact}
use model_lib.NaiveMalloc.{Heap}
use model_lib.NaiveMalloc.Fresh.{grown}
use model_lib.NaiveMalloc.Driven.{
  naive, naive_checks, naive_bytes, Below, randomize_block-SameEnds, randomize_block-below,
}
use mathlib.Core.Path.{subst}
use model_lib.NaiveMalloc.Rounds.{Ready, with_payload}

Unused-erase : (x k : ℕ) (es : List (ℕ × ℕ)) → Unused x es → Unused x (erase k es)
Unused-erase x k [] u = tt
Unused-erase x k (e ∷ es) u = elim (Bool-cases (k == e.0)) [
  | inl y ↦ rw y (u.1)
  | inr n ↦ rw n (u.0, Unused-erase x k es u.1)
]

Below-erase :
    (brk : ℕ) (rs rs' : ℕ → Range) (k : ℕ) (es : List (ℕ × ℕ))
    → ((q : ℕ) → (rs' q).hi ≤ (rs q).hi)
    → Below brk rs es
    → Below brk rs' es × Below brk rs' (erase k es)
Below-erase brk rs rs' k [] f b = (tt, tt)
Below-erase brk rs rs' k (e ∷ es) f b =
    let rest = Below-erase brk rs rs' k es f b.2 in
    let h : (rs' e.1).hi < brk = omega (arith, f e.1, b.1) in
    (
      (b.0, h, rest.0),
      elim (Bool-cases (k == e.0)) [ inl y ↦ rw y (rest.0) | inr n ↦ rw n (b.0, h, rest.1) ],
    )

module _ (sbrk_grants : ℕ → Bool) (random_data : ℕ → ℕ) (maxfill : ℕ) where
  -- The block of every index ends below the end of the heap, and has its data.
  abbrev pub Kept : Valid Heap → Type 0
  Kept s =
      (i : ℕ)
      → (s.trace.blocks i + s.trace.block_sizes i ≤ s.mem.mem_brk)
        × (intact (naive sbrk_grants) naive_bytes naive_checks random_data maxfill dbg_cheap s.mem
              s.trace s.bases (pos i)
            ≡ true)

  grown-below :
      (h : Heap) (size a : ℕ) → a < h.mem_brk → (grown sbrk_grants h size).bytes a ≡ h.bytes a
  grown-below h size a l = ground (arith, l)

  pub with_payload-Kept :
      (s : Valid Heap) (ranges : RangeSet) (index size base : ℕ)
      → Kept s
      → Kept (with_payload sbrk_grants random_data maxfill dbg_cheap s ranges index size base)
  unfolding remember randomize_block naive_bytes
  with_payload-Kept s ranges index size base k i =
      let h = grown sbrk_grants s.mem size in
      let t : Trace = record {
        blocks = put s.trace.blocks index (s.mem.mem_brk + 16);
        block_sizes = put s.trace.block_sizes index size;
      } in
      let ends = randomize_block-SameEnds random_data maxfill dbg_cheap h t s.bases index base in
      let filled =
        randomize_block naive_bytes random_data maxfill dbg_cheap h t s.bases index base in
      elim (Bool-cases (i == index)) [
        | inl y ↦ (
          rw y (omega (arith, ends.1)),
          subst
              (λ x.
                check_index naive_bytes random_data maxfill dbg_cheap filled.0 t filled.1 (pos x)
                ≡ true)
              (sym ((==_iff i index).0 y))
              (randomize_block-check_index naive_bytes random_data maxfill dbg_cheap h t s.bases
                index base),
        )
        | inr n ↦
            let old =
              (check_index-Holds naive_bytes random_data maxfill dbg_cheap s.mem s.trace s.bases i
                  (ground arith)).0
                (k i).1 in
            (
              rw n (omega (arith, ends.1, (k i).0)),
              (check_index-Holds naive_bytes random_data maxfill dbg_cheap filled.0 t filled.1 i
                    (ground arith)).1
                  (rw n (λ j l.
                    let below : s.trace.blocks i + j < s.mem.mem_brk = ground (arith, l, (k i).0) in
                    randomize_block-below random_data maxfill h t s.bases index base
                      (s.trace.blocks i + j) (ground (arith, below))
                    ∙ grown-below s.mem size (s.trace.blocks i + j) below
                    ∙ old j l)),
            )
      ]

  -- A `FREE` round goes on: the range of the block is removed, and the checks have not failed.
  abbrev pub Frees : Valid Heap → ℤ → List (ℕ × ℕ) → Type 0
  Frees s index es =
      (s' : Valid Heap) × (fs : List (ℕ × ℕ)) × (valid_free (naive sbrk_grants) naive_bytes
          naive_checks random_data maxfill dbg_cheap s index
        ≡ goes_on s')
      × Ready s' fs
      × ((q : ℕ) → Unused q es → Unused q fs)
      × Kept s'
      × (s'.mem ≡ s.mem)
      × (s'.all_check ≡ true)

  pub valid_free-Frees :
      (s : Valid Heap) (i : ℕ) (es : List (ℕ × ℕ))
      → Kept s
      → Ready s es
      → s.all_check ≡ true
      → Frees s (pos i) es
  unfolding valid_free naive
  valid_free-Frees s i es k w c = (
    record s { ranges = remove_range s.ranges (s.trace.blocks i); all_check = true },
    erase (s.trace.blocks i) es,
    rw ((k i).1, c) refl,
    (
      w.0,
      remove_range-Tracks s.ranges (s.trace.blocks i) es w.1,
      (Below-erase s.mem.mem_brk s.ranges.ranges (remove_range s.ranges (s.trace.blocks i)).ranges
          (s.trace.blocks i) es (remove_range-ends s.ranges (s.trace.blocks i)) w.2).1,
    ),
    (λ q. Unused-erase q (s.trace.blocks i) es),
    k,
    refl,
    refl,
  )

  pub valid_free-null :
      (s : Valid Heap) (es : List (ℕ × ℕ))
      → Kept s
      → Ready s es
      → s.all_check ≡ true
      → Frees s (negsuc 0) es
  unfolding valid_free naive
  valid_free-null s es k w c = (s, es, refl, w, (λ q u. u), k, refl, c)
