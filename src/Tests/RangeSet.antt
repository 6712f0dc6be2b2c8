-- ===== src/Tests/RangeSet.antt =====
-- Runs of the model of the ranges of Lab5/mdriver.c.
use model_lib.Prelude.{◌≡◌, refl, [], ◌∷◌, none, some, arith}
use model_lib.Prelude.Int.{pos}
use model_lib.SplayTree.{leaf, node}
use model_lib.SplayTree.Sorted.{erase}
use model_lib.SplayTree.Insert.{Holds}
use model_lib.RangeSet.{RangeSet, dbg_cheap, dbg_none, accepted, add_range, remove_range}
use model_lib.RangeSet.Chain.{Chain, Tracks}
use model_lib.RangeSet.Checked.{Checked, add_range-Checked, add_range-below}
use model_lib.RangeSet.Remove.{remove_range-Tracks}

-- The payload of 16 bytes at the address 128, with the pointer 1.
abbrev pub one : RangeSet
one = record {
  list = some 1;
  lo_tree = record { root = node leaf 128 1 leaf; node_count = 1; comparison_count = 0 };
  ranges = λ p. record { lo = 128; hi = 143; index = pos 0; next = none; prev = none };
}

pub one-Tracks : Tracks one ((128, 1) ∷ [])
one-Tracks = ((refl, (tt, tt), refl), (refl, refl, refl, refl), (tt, tt), (omega arith, tt, tt))

pub cheap : dbg_cheap ≡ dbg_none → ⊥
cheap e = cc

add_range-Checked_example :
    Checked one ((128, 1) ∷ []) 2 144 175 (add_range dbg_cheap 64 1023 (some 2) one 144 32 (pos 1))
add_range-Checked_example =
    add_range-Checked dbg_cheap 64 1023 2 one 144 32 (pos 1) ((128, 1) ∷ []) cheap
      (omega arith, refl, omega arith, omega arith, omega arith) one-Tracks (omega arith, tt)
      (omega arith)

remove_range-Tracks_example : Tracks (remove_range one 128) (erase 128 ((128, 1) ∷ []))
remove_range-Tracks_example = remove_range-Tracks one 128 ((128, 1) ∷ []) one-Tracks

-- 32 bytes at the address 112 overlap the payload at 128.
add_range-below_example :
    (s' : RangeSet) × (add_range dbg_cheap 64 1023 (some 2) one 112 32 (pos 1) ≡ accepted s')
    × Chain s'.ranges s'.list none ((112, 2) ∷ [])
    × Holds s'.lo_tree ((112, 2) ∷ (128, 1) ∷ [])
add_range-below_example =
    add_range-below dbg_cheap 64 1023 2 one 112 32 (pos 1) ((128, 1) ∷ []) cheap
      (omega arith, refl, omega arith, omega arith, omega arith) (refl, (tt, tt), refl)
      (omega arith, tt)
