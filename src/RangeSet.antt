-- ===== src/RangeSet.antt =====
-- Lab5/mdriver.c: the set of ranges with which the memory driver finds payloads that overlap. An address
-- is below `2 ^ 63`, so that it is its own key in the tree.
pub mod Chain
pub mod Add
pub mod Clear
pub mod Checked
pub mod Remove
pub mod Ends
use model_lib.Prelude.{
  ℕ, zero, suc, ◌+◌, ◌-◌, ◌%◌, ◌^◌, Bool, true, false, not, ◌||◌, Option, none, some, List, [], ◌∷◌,
  ltb, leb, ◌==◌, if◌then◌else◌,
}
use model_lib.Prelude.Int.{ℤ, pos}
use model_lib.SplayTree.{Tree, tree_new, tree_find_nearest, tree_insert, tree_remove, free_subtree}

-- `debug_mode_t`
pub data DebugMode : Type 0 where
  dbg_none dbg_cheap dbg_expensive : DebugMode

-- `range_t`
pub record Range : Type 0 where
  pub lo : ℕ
  pub hi : ℕ
  pub index : ℤ
  pub next : Option ℕ
  pub prev : Option ℕ

-- `range_set_t`, with the memory of the ranges that it points to.
pub record RangeSet : Type 0 where
  pub list : Option ℕ
  pub lo_tree : Tree ℕ
  pub ranges : ℕ → Range

-- The message with which a range is refused.
pub data Refusal : Type 0 where
  not_aligned outside_heap : Refusal
  overlaps : (lo hi : ℕ) → Refusal

pub data Verdict : Type 0 where
  -- A failed assertion, or an error of `malloc`.
  stopped : Verdict
  refused : Refusal → RangeSet → Verdict
  accepted : RangeSet → Verdict

abbrev pub set_range : (ℕ → Range) → ℕ → Range → ℕ → Range
set_range rs p r q = if q == p then r else rs q

unfoldable pub new_range_set : (ℕ → Range) → RangeSet
new_range_set rs = record { list = none; lo_tree = tree_new; ranges = rs }

abbrev pub set_next : (ℕ → Range) → Option ℕ → Option ℕ → ℕ → Range
set_next rs none p = rs
set_next rs (some q) p = set_range rs q (let r = rs q in record r { next = p })

abbrev pub set_prev : (ℕ → Range) → Option ℕ → Option ℕ → ℕ → Range
set_prev rs none p = rs
set_prev rs (some q) p = set_range rs q (let r = rs q in record r { prev = p })

-- `if (prev) prev->next = p; else ranges->list = p;`
abbrev pub list_after : Option ℕ → Option ℕ → Option ℕ → Option ℕ
list_after list none p = p
list_after list (some q) p = list

-- The new range is `p`.
unfoldable pub link_range : RangeSet → ℕ → Option ℕ → Option ℕ → ℕ → ℕ → ℤ → Verdict
link_range s p before after first last i =
    let linked = set_prev (set_next s.ranges before (some p)) after (some p) in
    let ranges =
      set_range linked p
        (record { lo = first; hi = last; index = i; next = after; prev = before }) in
    elim (tree_insert true s.lo_tree first p) [
      | none ↦ stopped
      | some (t', b) ↦
          accepted
            (record { list = list_after s.list before (some p); lo_tree = t'; ranges = ranges })
    ]

abbrev pub next_of : (ℕ → Range) → Option ℕ → Option ℕ
next_of rs none = none
next_of rs (some q) = (rs q).next

-- `prev && lo <= prev->hi` and `next && hi >= next->lo`, with the message of each.
abbrev pub overlap_before : (ℕ → Range) → Option ℕ → ℕ → Option Refusal
overlap_before rs none first = none
overlap_before rs (some q) first =
    if leb first (rs q).hi then some (overlaps (rs q).lo (rs q).hi) else none

abbrev pub overlap_after : (ℕ → Range) → Option ℕ → ℕ → Option Refusal
overlap_after rs none last = none
overlap_after rs (some q) last =
    if leb (rs q).lo last then some (overlaps (rs q).lo (rs q).hi) else none

-- The check against the neighbours. `memory` is what `malloc` gives for the range, and `none` as well where it
-- then gives no node for the tree: both end the driver.
unfoldable pub place_between : Option ℕ → RangeSet → Option ℕ → Option ℕ → ℕ → ℕ → ℤ → Verdict
place_between memory s before after first last i = elim (overlap_before s.ranges before first) [
  | some m ↦ refused m s
  | none ↦ elim (overlap_after s.ranges after last) [
    | some m ↦ refused m s
    | none ↦ elim memory [ none ↦ stopped | some p ↦ link_range s p before after first last i ]
  ]
]

unfoldable pub place_range : Option ℕ → RangeSet → ℕ → ℕ → ℤ → Verdict
place_range memory s first last i =
    let (t, before) = tree_find_nearest s.lo_tree first in
    place_between memory (record s { lo_tree = t }) before (next_of s.ranges before) first last i

-- `lo + size - 1`
abbrev pub last_address : ℕ → ℕ → ℕ
last_address first size = (first + size + (2 ^ 64 - 1)) % 2 ^ 64

-- The heap lies from `heap_lo` to `heap_hi`.
unfoldable pub add_range : DebugMode → ℕ → ℕ → Option ℕ → RangeSet → ℕ → ℕ → ℤ → Verdict
add_range mode heap_lo heap_hi memory s first size i =
    let last = last_address first size in
    if size == 0
    then stopped
    else if not (first % 16 == 0)
    then refused not_aligned s
    else if ltb first heap_lo || ltb heap_hi first || ltb last heap_lo || ltb heap_hi last
    then refused outside_heap s
    else elim mode [ dbg_none ↦ accepted s | _ ↦ place_range memory s first last i ]

-- What is left of a range after `free`: nothing that was in it.
abbrev pub freed : Range
freed = record { lo = 0; hi = 0; index = pos 0; next = none; prev = none }

unfoldable pub remove_range : RangeSet → ℕ → RangeSet
remove_range s first =
    let (t, found) = tree_remove s.lo_tree first in
    elim found [
      | none ↦ record s { lo_tree = t }
      | some p ↦
          let before = (s.ranges p).prev in
          let after = (s.ranges p).next in
          record {
            list = list_after s.list before after;
            lo_tree = t;
            ranges = set_range (set_prev (set_next s.ranges before after) after before) p freed;
          }
    ]

-- The ranges that are freed, in order.
unfoldable pub free_range_set : RangeSet → List ℕ
free_range_set s = free_subtree s.lo_tree.root
