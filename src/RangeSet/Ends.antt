-- ===== src/RangeSet/Ends.antt =====
-- Lab5/mdriver.c: the ends of the ranges after `add_range`.
use model_lib.Prelude.{
  ℕ, ◌+◌, ◌-◌, ◌≡◌, ◌≤◌, ◌≢◌, refl, Option, none, some, arith, ◌==◌, Bool, true, if◌then◌else◌,
}
use model_lib.Prelude.Int.{ℤ}
use model_lib.SplayTree.{Tree, tree_insert, tree_remove, tree_find_nearest}
use model_lib.RangeSet.{
  DebugMode, dbg_none, Range, set_range, set_prev, freed, RangeSet, Refusal, Verdict, stopped,
  refused, accepted, overlap_before, overlap_after, link_range, place_between, place_range,
  add_range, remove_range, set_next, next_of,
}
use model_lib.RangeSet.Clear.{Fits, add_range-place}
use model_lib.RangeSet.Chain.{set_next-hi, set_prev-hi}

-- In what is accepted, the range `p` ends at `last`, and the others where they did.
abbrev pub EndsAt : RangeSet → (p last : ℕ) → Verdict → Type 0
EndsAt s p last stopped = Unit
EndsAt s p last (refused m s') = Unit
EndsAt s p last (accepted s') =
    (q : ℕ) → (s'.ranges q).hi ≡ (if q == p then last else (s.ranges q).hi)

module _ (s : RangeSet) (p : ℕ) (before after : Option ℕ) (first last : ℕ) (i : ℤ) where
  link_range-EndsAt : EndsAt s p last (link_range s p before after first last i)
  unfolding link_range
  link_range-EndsAt = go (tree_insert true s.lo_tree first p) refl
    where
      go :
          (x : Option (Tree ℕ × Bool))
          → tree_insert true s.lo_tree first p ≡ x
          → EndsAt s p last (link_range s p before after first last i)
      go none e = rw (e, link_range) tt
      go (some (t, b)) e =
          rw (e, link_range)
            (λ q. ground (
              arith,
              set_prev-hi (set_next s.ranges before (some p)) after (some p) q,
              set_next-hi s.ranges before (some p) q,
            ))

  place_between-EndsAt : EndsAt s p last (place_between (some p) s before after first last i)
  unfolding place_between
  place_between-EndsAt =
      go (overlap_before s.ranges before first) (overlap_after s.ranges after last) refl refl
    where
      go :
          (x y : Option Refusal)
          → overlap_before s.ranges before first ≡ x
          → overlap_after s.ranges after last ≡ y
          → EndsAt s p last (place_between (some p) s before after first last i)
      go (some m) y e f = rw (e, place_between) tt
      go none (some m) e f = rw (e, f, place_between) tt
      go none none e f = rw (e, f, place_between) link_range-EndsAt

module _ (heap_lo heap_hi p : ℕ) (s : RangeSet) (first size : ℕ) (i : ℤ) where
  place_range-EndsAt : (last : ℕ) → EndsAt s p last (place_range (some p) s first last i)
  unfolding place_range
  place_range-EndsAt last =
      let (t, before) = tree_find_nearest s.lo_tree first in
      place_between-EndsAt (record s { lo_tree = t }) p before (next_of s.ranges before) first last
        i

  pub add_range-EndsAt :
      (mode : DebugMode)
      → mode ≢ dbg_none
      → Fits heap_lo heap_hi p s first size i
      → EndsAt s p (first + size - 1) (add_range mode heap_lo heap_hi (some p) s first size i)
  add_range-EndsAt mode m f =
      rw (add_range-place heap_lo heap_hi p s first size i mode m f)
        (place_range-EndsAt (first + size - 1))

freed-ends : (rs : ℕ → Range) (p q : ℕ) → (set_range rs p freed q).hi ≤ (rs q).hi
freed-ends rs p q = ground arith

-- `remove_range` puts the end of no range further up.
pub remove_range-ends :
    (s : RangeSet) (first q : ℕ) → ((remove_range s first).ranges q).hi ≤ (s.ranges q).hi
unfolding remove_range
remove_range-ends s first q = go (tree_remove s.lo_tree first).1 refl
  where
    go :
        (x : Option ℕ)
        → (tree_remove s.lo_tree first).1 ≡ x
        → ((remove_range s first).ranges q).hi ≤ (s.ranges q).hi
    go none e = rw (remove_range, e) (omega arith)
    go (some p) e =
        let linked = set_next s.ranges (s.ranges p).prev (s.ranges p).next in
        let removed = set_prev linked (s.ranges p).next (s.ranges p).prev in
        rw (remove_range, e)
          (omega (
            arith,
            freed-ends removed p q,
            set_prev-hi linked (s.ranges p).next (s.ranges p).prev q,
            set_next-hi s.ranges (s.ranges p).prev (s.ranges p).next q,
          ))
