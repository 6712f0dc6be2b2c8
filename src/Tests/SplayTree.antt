-- ===== src/Tests/SplayTree.antt =====
-- Runs of the model of Lab5/stree.c on a tree of two nodes.
use model_lib.Prelude.{ℕ, ◌≡◌, refl, [], ◌∷◌, none, some, true, arith}
use model_lib.SplayTree.{
  leaf, node, Tree, insert_at, search, splay, splay_round, left_rotate, right_rotate, remove_at,
  seek, remove_root, take_minimum, tree_insert, tree_find_nearest, tree_remove, show_subtree,
  opening, closing, shown,
}
use model_lib.SplayTree.Sorted.{lookup, erase, floor}
use model_lib.SplayTree.Insert.{Holds, Inserted, tree_insert-Inserted}
use model_lib.SplayTree.Lookup.{tree_find_nearest-floor}
use model_lib.SplayTree.Remove.{tree_remove-erase}

abbrev two : Tree ℕ
two = record { root = node (node leaf 5 50 leaf) 9 90 leaf; node_count = 2; comparison_count = 3 }

two-Holds : Holds two ((5, 50) ∷ (9, 90) ∷ [])
two-Holds = (refl, ((omega arith, tt), (tt, tt)), refl)

tree_insert-Inserted_example :
    Inserted true two 7 70
      ((5, 50) ∷ (9, 90) ∷ [])
      (lookup 7 ((5, 50) ∷ (9, 90) ∷ []))
      (tree_insert true two 7 70)
tree_insert-Inserted_example = tree_insert-Inserted true two 7 70 ((5, 50) ∷ (9, 90) ∷ []) two-Holds

tree_find_nearest-floor_example :
    ((tree_find_nearest two 7).1 ≡ floor 7 none ((5, 50) ∷ (9, 90) ∷ []))
    × Holds (tree_find_nearest two 7).0 ((5, 50) ∷ (9, 90) ∷ [])
tree_find_nearest-floor_example = tree_find_nearest-floor two 7 ((5, 50) ∷ (9, 90) ∷ []) two-Holds

tree_remove-erase_example :
    ((tree_remove two 5).1 ≡ lookup 5 ((5, 50) ∷ (9, 90) ∷ []))
    × Holds (tree_remove two 5).0 (erase 5 ((5, 50) ∷ (9, 90) ∷ []))
tree_remove-erase_example = tree_remove-erase two 5 ((5, 50) ∷ (9, 90) ∷ []) two-Holds

-- The new node becomes the root, with the other nodes on its two sides.
insert_seven :
    tree_insert true two 7 70
    ≡ some (
      record {
        root = node (node leaf 5 50 leaf) 7 70 (node leaf 9 90 leaf);
        node_count = 3;
        comparison_count = 7;
      },
      true,
    )
unfolding tree_insert insert_at search splay splay_round left_rotate right_rotate
insert_seven = refl

abbrev three : Tree ℕ
three = record {
  root = node (node leaf 5 50 leaf) 7 70 (node leaf 9 90 leaf);
  node_count = 3;
  comparison_count = 0;
}

-- A node with two children gives its place to the least one on its right.
remove_root_node : tree_remove three 7 ≡ (
  record { root = node (node leaf 5 50 leaf) 9 90 leaf; node_count = 2; comparison_count = 0 },
  some 70,
)
unfolding tree_remove remove_at seek splay remove_root take_minimum
remove_root_node = refl

show_two :
    show_subtree true two.root ≡ opening ∷ opening ∷ shown 5 ∷ closing ∷ shown 9 ∷ closing ∷ []
unfolding show_subtree
show_two = refl
