-- ===== src/RangeSet/Checked.antt =====
-- Lab5/mdriver.c: what `add_range` decides about a payload.
use model_lib.Prelude.{
  ℕ, ◌+◌, ◌-◌, ◌≤◌, ◌≡◌, ◌≢◌, refl, sym, ◌∙◌, none, some, List, [], ◌∷◌, ◌++◌, ◌⊎◌, inl, inr, arith,
  true, leb, Bool-cases, leb→le,
}
use model_lib.Prelude.Int.{ℤ}
use model_lib.SplayTree.{Tree, tree_insert, tree_find_nearest}
use model_lib.SplayTree.Order.{Above, Ascending-right}
use model_lib.SplayTree.Sorted.{insert, floor-cases, floor-Above}
use model_lib.SplayTree.Insert.{Holds, tree_insert-between}
use model_lib.SplayTree.Lookup.{tree_find_nearest-floor}
use model_lib.RangeSet.{
  Range, RangeSet, DebugMode, dbg_none, overlaps, Verdict, refused, accepted, set_range, link_range,
  place_between, place_range, add_range, next_of,
}
use model_lib.RangeSet.Chain.{Chain, Unused, Apart, Tracks, set_range-same}
use mathlib.Core.Path.{subst}
use model_lib.RangeSet.Add.{link_range-Tracks, Chain-end}
use model_lib.RangeSet.Clear.{
  not_le, Clear, StartsBelow, Fits, add_range-place, place_between-first, place_between-before,
  place_between-after, place_between-fits, Apart-right, Clear-split, Clear-at, insert_behind,
  after-cases, Clear-right, behind-Clear,
}

abbrev pub Checked : RangeSet → List (ℕ × ℕ) → (p first last : ℕ) → Verdict → Type 0
Checked s es p first last v =
    (Clear s.ranges first last es
      × (s' : RangeSet) × (v ≡ accepted s')
      × Tracks s' (insert first p es)
      × ((s'.ranges p).hi ≡ last))
    ⊎ ((Clear s.ranges first last es → ⊥)
        × (m : ℕ × ℕ) × (s' : RangeSet) × (v ≡ refused (overlaps m.0 m.1) s')
        × Tracks s' es)

between-Checked :
    (s : RangeSet) (p first last : ℕ) (i : ℤ) (xs : List (ℕ × ℕ)) (e : ℕ × ℕ) (ys : List (ℕ × ℕ))
    → Tracks s (xs ++ e ∷ ys)
    → Unused p (xs ++ e ∷ ys)
    → e.0 ≤ first
    → Above first ys
    → first ≤ last
    → Checked s
        (xs ++ e ∷ ys)
        p
        first
        last
        (place_between (some p) s (some e.1) (s.ranges e.1).next first last i)
between-Checked s p first last i xs e ys h u le above order =
    let rs = s.ranges in
    let q = e.1 in
    let all = xs ++ e ∷ ys in
    let here = Apart-right rs xs (e ∷ ys) h.3 in
    elim (Bool-cases (leb first (rs q).hi)) [
      | inl k ↦ inr (
        λ c. elim (Clear-at rs first last xs e ys c) [
          | inl l ↦ omega (arith, l, le, order)
          | inr l ↦ omega (arith, l, leb→le first (rs q).hi k)
        ],
        ((rs q).lo, (rs q).hi),
        s,
        place_between-before s p first last i q (rs q).next k,
        h,
      )
      | inr k ↦
          let less = not_le first (rs q).hi k in
          elim (after-cases rs (rs q).next (some q) last ys
            (Chain-end s xs e ys p first last i rs s.list none xs h.1)
            (Ascending-right xs (e ∷ ys) h.0.1).1) [
              | inl o ↦
                  let done =
                    link_range-Tracks s xs e ys p first last i h u here.0 less order above o.1 in
                  let same =
                    insert_behind first p xs e ys h.0.1 (omega (arith, here.0, less)) above in
                  inl (
                    Clear-split rs first last xs e ys h.3 less o.1,
                    done.0,
                    place_between-fits s p first last i q (rs q).next k o.0 ∙ done.1,
                    subst (λ l. Tracks done.0 l) (sym same) done.2,
                    done.3,
                  )
              | inr o ↦ inr (
                λ c.
                    behind-Clear rs first last o.0 o.1 (subst (λ l. Apart rs l) o.3 here.2)
                      (subst (λ l. Above first l) o.3 above).0 o.5
                      (subst (λ l. Clear rs first last l) o.3
                        (Clear-right rs first last xs (e ∷ ys) c).1),
                o.2,
                s,
                place_between-after s p first last i q (rs q).next (overlaps o.2.0 o.2.1) k o.4,
                h,
              )
            ]
    ]

link_range-empty :
    (s : RangeSet) (p first last : ℕ) (i : ℤ) (t' : Tree ℕ)
    → tree_insert true s.lo_tree first p ≡ some (t', true)
    → link_range s p none none first last i
      ≡ accepted (record {
        list = some p;
        lo_tree = t';
        ranges =
            set_range s.ranges p
              (record { lo = first; hi = last; index = i; next = none; prev = none });
      })
unfolding link_range
link_range-empty s p first last i t' h = rw (h, link_range) refl

-- The first payload of an empty set.
empty-Checked :
    (s : RangeSet) (p first last : ℕ) (i : ℤ)
    → Tracks s []
    → first ≤ last
    → Checked s [] p first last (place_between (some p) s none none first last i)
empty-Checked s p first last i h order =
    let added = tree_insert-between s.lo_tree first p [] [] h.0 tt tt in
    let new : Range = record { lo = first; hi = last; index = i; next = none; prev = none } in
    let same = set_range-same s.ranges p new in
    inl (
      tt,
      record { list = some p; lo_tree = added.0; ranges = set_range s.ranges p new },
      place_between-first s p first last i ∙ link_range-empty s p first last i added.0 added.1,
      (added.2, rw same (refl, refl, refl, refl), (tt, tt), rw same (order, tt, tt)),
      rw same refl,
    )

place_range-none :
    (s : RangeSet) (p first last : ℕ) (i : ℤ)
    → (tree_find_nearest s.lo_tree first).1 ≡ none
    → place_range (some p) s first last i
      ≡ link_range
          (record s { lo_tree = (tree_find_nearest s.lo_tree first).0 })
          p
          none
          none
          first
          last
          i
unfolding place_range
place_range-none s p first last i h =
    rw (h, place_range)
      (place_between-first (record s { lo_tree = (tree_find_nearest s.lo_tree first).0 }) p first
        last i)

StartsBelow-nil : (first : ℕ) (es : List (ℕ × ℕ)) → StartsBelow first es → Above first es → es ≡ []
StartsBelow-nil first [] r a = refl
StartsBelow-nil first (e ∷ es) r a = absurd (omega (arith, r, a.0))

range-Checked :
    (s : RangeSet) (es : List (ℕ × ℕ)) (p first last : ℕ) (i : ℤ)
    → Tracks s es
    → Unused p es
    → StartsBelow first es
    → first ≤ last
    → Checked s es p first last (place_range (some p) s first last i)
unfolding place_range
range-Checked s es p first last i h u r order =
    let found = tree_find_nearest-floor s.lo_tree first es h.0 in
    let t = (tree_find_nearest s.lo_tree first).0 in
    let s' : RangeSet = record s { lo_tree = t } in
    elim (floor-cases first none es h.0.1) [
      | inl c ↦
          let none_left = StartsBelow-nil first es r c.0 in
          subst
            (λ b.
              Checked s es p first last
                (place_between (some p) s' b (next_of s.ranges b) first last i))
            (sym (found.0 ∙ c.1))
            (subst
              (λ l. Checked s l p first last (place_between (some p) s' none none first last i))
              (sym none_left)
              (empty-Checked s' p first last i
                (subst (λ l. Tracks s' l) none_left (found.1, h.1, h.2, h.3)) order))
      | inr c ↦
          subst
            (λ b.
              Checked s es p first last
                (place_between (some p) s' b (next_of s.ranges b) first last i))
            (sym (found.0 ∙ c.4))
            (subst
              (λ l.
                Checked s l p first last
                  (place_between (some p) s' (some c.1.1) (s.ranges c.1.1).next first last i))
              (sym c.3)
              (between-Checked s' p first last i c.0 c.1 c.2
                (subst (λ l. Tracks s' l) c.3 (found.1, h.1, h.2, h.3))
                (subst (λ l. Unused p l) c.3 u) c.5 c.6 order))
    ]

-- In the modes that check overlaps, that is, all but `DBG_NONE`: where tree and list of the ranges
-- have the same ranges, `malloc` gives a record that none of them uses, and there is either no
-- range or the lowest one begins at or below the payload, `add_range` accepts an aligned payload of
-- a byte or more, within a heap below `2 ^ 63`, if and only if it overlaps no range, and then keeps
-- its range, with its end, among the others; a payload that overlaps is refused, and the ranges
-- stay.
pub add_range-Checked :
    (mode : DebugMode) (heap_lo heap_hi p : ℕ) (s : RangeSet) (first size : ℕ) (i : ℤ)
    (es : List (ℕ × ℕ))
    → mode ≢ dbg_none
    → Fits heap_lo heap_hi p s first size i
    → Tracks s es
    → Unused p es
    → StartsBelow first es
    → Checked s es p first
        (first + size - 1)
        (add_range mode heap_lo heap_hi (some p) s first size i)
add_range-Checked mode heap_lo heap_hi p s first size i es m f h u r =
    subst (λ v. Checked s es p first (first + size - 1) v)
      (sym (add_range-place heap_lo heap_hi p s first size i mode m f))
      (range-Checked s es p first (first + size - 1) i h u r (omega (arith, f.0)))

-- In the modes that check overlaps, that is, all but `DBG_NONE`, where there is memory for its
-- record, an aligned payload of a byte or more within a heap below `2 ^ 63` that begins below all
-- ranges of the tree is accepted, whether or not it overlaps the first of them; the tree then has
-- its range with the others, but the list has it alone.
pub add_range-below :
    (mode : DebugMode) (heap_lo heap_hi p : ℕ) (s : RangeSet) (first size : ℕ) (i : ℤ)
    (es : List (ℕ × ℕ))
    → mode ≢ dbg_none
    → Fits heap_lo heap_hi p s first size i
    → Holds s.lo_tree es
    → Above first es
    → (s' : RangeSet) × (add_range mode heap_lo heap_hi (some p) s first size i ≡ accepted s')
      × Chain s'.ranges s'.list none ((first, p) ∷ [])
      × Holds s'.lo_tree ((first, p) ∷ es)
add_range-below mode heap_lo heap_hi p s first size i es m f h a =
    let found = tree_find_nearest-floor s.lo_tree first es h in
    let s' : RangeSet = record s { lo_tree = (tree_find_nearest s.lo_tree first).0 } in
    let added = tree_insert-between s'.lo_tree first p [] es found.1 tt a in
    let new : Range = record {
      lo = first;
      hi = first + size - 1;
      index = i;
      next = none;
      prev = none;
    } in
    (
      record { list = some p; lo_tree = added.0; ranges = set_range s.ranges p new },
      add_range-place heap_lo heap_hi p s first size i mode m f
          ∙ place_range-none s p first (first + size - 1) i (found.0 ∙ floor-Above first none es a)
          ∙ link_range-empty s' p first (first + size - 1) i added.0 added.1,
      rw (set_range-same s.ranges p new) (refl, refl, refl, refl),
      added.2,
    )
