-- ===== src/RangeSet/Clear.antt =====
-- Lab5/mdriver.c: payloads that overlap no range, and the search of `add_range` for the place of one.
use model_lib.Prelude.{
  ℕ, ◌+◌, ◌-◌, ◌^◌, ◌%◌, ◌<◌, ◌≤◌, ◌≡◌, ◌≢◌, refl, Option, none, some, List, [], ◌∷◌, ◌++◌, ◌⊎◌,
  inl, inr, arith, true, false, leb, Bool-cases, leb→le,
}
use model_lib.Prelude.Int.{ℤ}
use model_lib.SplayTree.Order.{Above, Ascending, Above-trans, Above-right}
use model_lib.SplayTree.Sorted.{insert, insert-between}
use model_lib.RangeSet.{
  Range, RangeSet, DebugMode, dbg_none, Refusal, overlaps, refused, link_range, place_between,
  place_range, add_range, overlap_after, last_address,
}
use model_lib.RangeSet.Chain.{Chain, Apart}

pub not_le : (m n : ℕ) → leb m n ≡ false → n < m
not_le m n h = ground arith

-- The addresses from `first` to `last` are in none of the ranges.
abbrev pub Clear : (ℕ → Range) → ℕ → ℕ → List (ℕ × ℕ) → Type 0
Clear rs first last [] = Unit
Clear rs first last (e ∷ es) = ((last < e.0) ⊎ ((rs e.1).hi < first)) × Clear rs first last es

-- No range begins above `first`, or some range does not.
abbrev pub StartsBelow : ℕ → List (ℕ × ℕ) → Type 0
StartsBelow first [] = Unit
StartsBelow first (e ∷ es) = e.0 ≤ first

last_address-lem :
    (first size : ℕ) → 0 < size → first + size ≤ 2 ^ 64 → last_address first size ≡ first + size - 1
last_address-lem first size h k = omega arith

module _ (heap_lo heap_hi p : ℕ) (s : RangeSet) (first size : ℕ) (i : ℤ) where
  -- What the checks before the search ask for.
  abbrev pub Fits : Type 0
  Fits =
      (0 < size)
      × (first % 16 ≡ 0)
      × (heap_lo ≤ first)
      × (first + size ≤ heap_hi + 1)
      × (heap_hi < 2 ^ 63)

  pub add_range-place :
      (mode : DebugMode)
      → mode ≢ dbg_none
      → Fits
      → add_range mode heap_lo heap_hi (some p) s first size i
        ≡ place_range (some p) s first (first + size - 1) i
  unfolding add_range
  add_range-place mode m f =
      ground (arith, last_address-lem first size f.0 (omega (arith, f.3, f.4)), f.0, f.1, f.2, f.3)

module _ (s : RangeSet) (p first last : ℕ) (i : ℤ) where
  pub place_between-first :
      place_between (some p) s none none first last i ≡ link_range s p none none first last i
  unfolding place_between
  place_between-first = refl

  module _ (q : ℕ) (after : Option ℕ) where
    pub place_between-before :
        leb first (s.ranges q).hi ≡ true
        → place_between (some p) s (some q) after first last i
          ≡ refused (overlaps (s.ranges q).lo (s.ranges q).hi) s
    unfolding place_between
    place_between-before k = rw (k, place_between) refl

    pub place_between-after :
        (m : Refusal)
        → leb first (s.ranges q).hi ≡ false
        → overlap_after s.ranges after last ≡ some m
        → place_between (some p) s (some q) after first last i ≡ refused m s
    unfolding place_between
    place_between-after m k o = rw (k, o, place_between) refl

    pub place_between-fits :
        leb first (s.ranges q).hi ≡ false
        → overlap_after s.ranges after last ≡ none
        → place_between (some p) s (some q) after first last i
          ≡ link_range s p (some q) after first last i
    unfolding place_between
    place_between-fits k o = rw (k, o, place_between) refl

Clear-Above :
    (rs : ℕ → Range) (first last : ℕ) (ys : List (ℕ × ℕ)) → Above last ys → Clear rs first last ys
Clear-Above rs first last [] b = tt
Clear-Above rs first last (y ∷ ys) b = (inl b.0, Clear-Above rs first last ys b.1)

pub Apart-right : (rs : ℕ → Range) (xs ys : List (ℕ × ℕ)) → Apart rs (xs ++ ys) → Apart rs ys
Apart-right rs [] ys a = a
Apart-right rs (x ∷ xs) ys a = Apart-right rs xs ys a.2

pub Clear-split :
    (rs : ℕ → Range) (first last : ℕ) (xs : List (ℕ × ℕ)) (e : ℕ × ℕ) (ys : List (ℕ × ℕ))
    → Apart rs (xs ++ e ∷ ys)
    → (rs e.1).hi < first
    → Above last ys
    → Clear rs first last (xs ++ e ∷ ys)
Clear-split rs first last [] e ys a h b = (inr h, Clear-Above rs first last ys b)
Clear-split rs first last (x ∷ xs) e ys a h b = (
  inr (
      omega (
        arith,
        h,
        (Above-right (rs x.1).hi xs (e ∷ ys) a.1).0,
        (Apart-right rs xs (e ∷ ys) a.2).0,
      )),
  Clear-split rs first last xs e ys a.2 h b,
)

pub Clear-at :
    (rs : ℕ → Range) (first last : ℕ) (xs : List (ℕ × ℕ)) (e : ℕ × ℕ) (ys : List (ℕ × ℕ))
    → Clear rs first last (xs ++ e ∷ ys)
    → (last < e.0) ⊎ ((rs e.1).hi < first)
Clear-at rs first last [] e ys c = c.0
Clear-at rs first last (x ∷ xs) e ys c = Clear-at rs first last xs e ys c.1

pub insert_behind :
    (first p : ℕ) (xs : List (ℕ × ℕ)) (e : ℕ × ℕ) (ys : List (ℕ × ℕ))
    → Ascending (xs ++ e ∷ ys)
    → e.0 < first
    → Above first ys
    → insert first p (xs ++ e ∷ ys) ≡ xs ++ e ∷ (first, p) ∷ ys
insert_behind first p [] e ys a h b = insert-between first p (e ∷ []) ys (h, tt) b
insert_behind first p (x ∷ xs) e ys a h b =
    ground (arith, insert_behind first p xs e ys a.1 h b, (Above-right x.0 xs (e ∷ ys) a.0).0, h)

-- The range behind begins after `last`, or it overlaps.
pub after-cases :
    (rs : ℕ → Range) (link before : Option ℕ) (last : ℕ) (ys : List (ℕ × ℕ))
    → Chain rs link before ys
    → Ascending ys
    → ((overlap_after rs link last ≡ none) × Above last ys)
      ⊎ ((y : ℕ × ℕ) × (ys' : List (ℕ × ℕ)) × (m : ℕ × ℕ) × (ys ≡ y ∷ ys')
          × (overlap_after rs link last ≡ some (overlaps m.0 m.1))
          × (y.0 ≤ last))
after-cases rs link before last [] c a = inl (rw c refl, tt)
after-cases rs link before last (y ∷ ys) c a = elim (Bool-cases (leb y.0 last)) [
  | inl h ↦ inr (y, ys, ((rs y.1).lo, (rs y.1).hi), refl, rw (c.0, c.2, h) refl, leb→le y.0 last h)
  | inr h ↦
      inl (
        rw (c.0, c.2, h) refl,
        (not_le y.0 last h, Above-trans y.0 last ys (not_le y.0 last h) a.0),
      )
]

pub Clear-right :
    (rs : ℕ → Range) (first last : ℕ) (xs ys : List (ℕ × ℕ))
    → Clear rs first last (xs ++ ys)
    → Clear rs first last ys
Clear-right rs first last [] ys c = c
Clear-right rs first last (x ∷ xs) ys c = Clear-right rs first last xs ys c.1

pub behind-Clear :
    (rs : ℕ → Range) (first last : ℕ) (y : ℕ × ℕ) (ys : List (ℕ × ℕ))
    → Apart rs (y ∷ ys)
    → first < y.0
    → y.0 ≤ last
    → Clear rs first last (y ∷ ys)
    → ⊥
behind-Clear rs first last y ys a h k c = elim c.0 [
  | inl l ↦ omega (arith, l, k)
  | inr l ↦ omega (arith, l, h, a.0)
]

-- The verdict on a payload at the addresses from `first` to `last` where the set keeps the ranges `es`.
