-- ===== src/NaiveMalloc/Driven.antt =====
-- Lab5/mm-naive.c under the memory driver of Lab5/mdriver.c.
use model_lib.Prelude.{
  ℕ, ◌+◌, ◌%◌, ◌<◌, ◌≤◌, ◌≡◌, ◌≢◌, refl, ◌==◌, if◌then◌else◌, arith, Bool, true, false, Bool-cases,
  ltb, zero, suc, ◌^◌, List, [], ◌∷◌, inl, inr,
}
use model_lib.SplayTree.Sorted.{insert}
use model_lib.RangeSet.{DebugMode, dbg_none, dbg_cheap, dbg_expensive, Range}
use model_lib.RangeSet.Chain.{Unused}
use model_lib.RangeSet.Clear.{Clear, StartsBelow}
use model_lib.Driver.{Allocator, Trace, put}
use model_lib.Driver.Fill.{Bytes, smaller, fill_from, fill_from-other, randomize_block}
use model_lib.Driver.Valid.{Checks}
use model_lib.NaiveMalloc.{Heap, mem_reset_brk, mem_heap_hi, mem_heapsize, mm_init, malloc, realloc}
use model_lib.NaiveMalloc.Fresh.{IsHeap}

-- `free` does nothing.
unfoldable pub naive : (ℕ → Bool) → Allocator Heap
naive sbrk_grants = record {
  mem_reset_brk = mem_reset_brk;
  mm_init = mm_init;
  mm_malloc = malloc sbrk_grants;
  mm_realloc = realloc sbrk_grants;
  mm_free = λ h p. h;
  mem_heapsize = mem_heapsize;
}

abbrev pub naive_checks : Checks Heap
naive_checks = record {
  mm_checkheap = λ h. true;
  mem_heap_lo = λ h. h.heap;
  mem_heap_hi = mem_heap_hi;
}

-- A byte after a write of one.
abbrev pub written : Heap → ℕ → ℕ → Heap
written h a v = record h { bytes = put h.bytes a (v % 256) }

pub written-same : (h : Heap) (a v : ℕ) → (written h a v).bytes a ≡ v % 256
written-same h a v = ground arith

pub written-other : (h : Heap) (a b v : ℕ) → a ≢ b → (written h a v).bytes b ≡ h.bytes b
written-other h a b v n = ground (arith, n)

unfoldable pub naive_bytes : Bytes Heap
naive_bytes = record {
  mem_read = λ h a. h.bytes a;
  mem_write = written;
  read_written = written-same;
  read_other = written-other;
}

-- All ranges end below the end of the heap.
abbrev pub Below : ℕ → (ℕ → Range) → List (ℕ × ℕ) → Type 0
Below brk rs [] = Unit
Below brk rs (e ∷ es) = (e.0 < brk) × ((rs e.1).hi < brk) × Below brk rs es

pub Below-StartsBelow :
    (brk : ℕ) (rs : ℕ → Range) (es : List (ℕ × ℕ)) → Below brk rs es → StartsBelow (brk + 16) es
Below-StartsBelow brk rs [] b = tt
Below-StartsBelow brk rs (e ∷ es) b = omega (arith, b.0)

pub Below-Clear :
    (brk : ℕ) (rs : ℕ → Range) (last : ℕ) (es : List (ℕ × ℕ))
    → Below brk rs es
    → Clear rs (brk + 16) last es
Below-Clear brk rs last [] b = tt
Below-Clear brk rs last (e ∷ es) b = (inr (omega (arith, b.1)), Below-Clear brk rs last es b.2)

-- A longer heap, and ranges that differ at `q` only.
pub Below-later :
    (brk brk' : ℕ) (rs rs' : ℕ → Range) (q last : ℕ) (es : List (ℕ × ℕ))
    → brk ≤ brk'
    → Unused q es
    → ((x : ℕ) → (rs' x).hi ≡ (if x == q then last else (rs x).hi))
    → Below brk rs es
    → Below brk' rs' es
Below-later brk brk' rs rs' q last [] l u f b = tt
Below-later brk brk' rs rs' q last (e ∷ es) l u f b = (
  omega (arith, b.0, l),
  ground (arith, f e.1, u.0, b.1, l),
  Below-later brk brk' rs rs' q last es l u.1 f b.2,
)

pub Below-insert :
    (brk : ℕ) (rs : ℕ → Range) (p q : ℕ) (es : List (ℕ × ℕ))
    → p < brk
    → (rs q).hi < brk
    → Below brk rs es
    → Below brk rs (insert p q es)
Below-insert brk rs p q [] l k b = (l, k, tt)
Below-insert brk rs p q (e ∷ es) l k b = elim (Bool-cases (ltb p e.0)) [
  | inl y ↦ rw y (l, k, b)
  | inr n ↦ rw n (b.0, b.1, Below-insert brk rs p q es l k b.2)
]

pub Unused-insert : (x p q : ℕ) (es : List (ℕ × ℕ)) → x ≢ q → Unused x es → Unused x (insert p q es)
Unused-insert x p q [] n u = (n, tt)
Unused-insert x p q (e ∷ es) n u = elim (Bool-cases (ltb p e.0)) [
  | inl y ↦ rw y (n, u)
  | inr m ↦ rw m (u.0, Unused-insert x p q es n u.1)
]

-- Heaps that differ in their bytes only.
abbrev pub SameEnds : (h h' : Heap) → Type 0
SameEnds h h' = (h'.heap ≡ h.heap) × (h'.mem_brk ≡ h.mem_brk) × (h'.mem_max_addr ≡ h.mem_max_addr)

pub SameEnds-IsHeap : (h h' : Heap) → SameEnds h h' → IsHeap h → IsHeap h'
SameEnds-IsHeap h h' e w = rw (e.0, e.1, e.2) w

either : (b : Bool) (h h' : Heap) → SameEnds h h' → SameEnds h (if b then h else h')
either true h h' e = (refl, refl, refl)
either false h h' e = e

module _ (random_data : ℕ → ℕ) (maxfill : ℕ) where
  fill_from-SameEnds :
      (n i : ℕ) (h : Heap) (block base : ℕ)
      → SameEnds h (fill_from naive_bytes random_data maxfill n i h block base)
  unfolding fill_from naive_bytes
  fill_from-SameEnds zero i h block base = (refl, refl, refl)
  fill_from-SameEnds (suc n) i h block base =
      fill_from-SameEnds n (i + 1) (written h (block + i) (random_data ((base + i) % 2 ^ 16) % 256))
        block base

  pub randomize_block-SameEnds :
      (mode : DebugMode) (h : Heap) (t : Trace) (bases : ℕ → ℕ) (index base : ℕ)
      → SameEnds h (randomize_block naive_bytes random_data maxfill mode h t bases index base).0
  unfolding randomize_block
  randomize_block-SameEnds dbg_none h t bases index base = (refl, refl, refl)
  randomize_block-SameEnds dbg_cheap h t bases index base =
      either (t.block_sizes index == 0) h
        (fill_from naive_bytes random_data maxfill (smaller (t.block_sizes index) maxfill) 0 h
          (t.blocks index) base)
        (fill_from-SameEnds (smaller (t.block_sizes index) maxfill) 0 h (t.blocks index) base)
  randomize_block-SameEnds dbg_expensive h t bases index base =
      either (t.block_sizes index == 0) h
        (fill_from naive_bytes random_data maxfill (smaller (t.block_sizes index) maxfill) 0 h
          (t.blocks index) base)
        (fill_from-SameEnds (smaller (t.block_sizes index) maxfill) 0 h (t.blocks index) base)

-- Filling a payload leaves the bytes below it.
pub randomize_block-below :
    (random_data : ℕ → ℕ) (maxfill : ℕ) (h : Heap) (t : Trace) (bases : ℕ → ℕ) (index base a : ℕ)
    → a < t.blocks index
    → (randomize_block naive_bytes random_data maxfill dbg_cheap h t bases index base).0.bytes a
      ≡ h.bytes a
unfolding randomize_block naive_bytes
randomize_block-below random_data maxfill h t bases index base a l =
    elim (Bool-cases (t.block_sizes index == 0)) [
      | inl y ↦ rw y refl
      | inr n ↦ rw n (
          fill_from-other naive_bytes random_data maxfill (smaller (t.block_sizes index) maxfill) 0
            h (t.blocks index) base a (inl (omega (arith, l))))
    ]
