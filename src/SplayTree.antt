-- ===== src/SplayTree.antt =====
-- Lab5/stree.c: the splay tree of the memory driver. A key `k` stands for the `long` `k - 2 ^ 63`; keys
-- are only compared. A node is a value: its parent pointer is the path that leads to it from the root.
pub mod Entries
pub mod Order
pub mod Release
pub mod Sorted
pub mod Search
pub mod Insert
pub mod Lookup
pub mod Remove
use model_lib.Prelude.{
  ℕ, zero, suc, ◌+◌, ◌-◌, Bool, true, false, Option, none, some, List, [], ◌∷◌, ◌++◌, ltb, ◌==◌,
  if◌then◌else◌,
}

module _ {ℓ} (R : Type ℓ) where
  -- `left`, `key`, `record` and `right`.
  pub data Node : Type ℓ where
    leaf : Node
    node : Node → ℕ → R → Node → Node

  -- A step from a parent to its left or right child, with the rest of the parent.
  pub data Step : Type ℓ where
    went_left : ℕ → R → Node → Step
    went_right : Node → ℕ → R → Step

  -- `tree_t`
  pub record Tree : Type ℓ where
    pub root : Node
    pub node_count : ℕ
    pub comparison_count : ℕ

  -- Where a search ends, with the number of comparisons so far.
  pub data Descent : Type ℓ where
    found : Node → R → Node → List Step → ℕ → Descent
    missing : List Step → ℕ → Descent

-- A part of what `tree_show` prints.
pub data Token : Type 0 where
  opening closing : Token
  shown : ℕ → Token

module _ {ℓ} {R : Type ℓ} where
  unfoldable pub tree_new : Tree R
  tree_new = record { root = leaf; node_count = 0; comparison_count = 0 }

  -- The parent with the node as its child.
  abbrev pub up : Step R → Node R → Node R
  up (went_left k r right) t = node t k r right
  up (went_right left k r) t = node left k r t

  -- Without a right child the link to `x` becomes NULL.
  unfoldable pub left_rotate : Node R → Node R
  left_rotate leaf = leaf
  left_rotate (node a k r leaf) = leaf
  left_rotate (node a k r (node b k' r' c)) = node (node a k r b) k' r' c

  unfoldable pub right_rotate : Node R → Node R
  right_rotate leaf = leaf
  right_rotate (node leaf k r c) = leaf
  right_rotate (node (node a k' r' b) k r c) = node a k' r' (node b k r c)

  -- The last round of the loop of `splay`, with no grandparent.
  unfoldable pub splay_root : Step R → Node R → Node R
  splay_root (went_left k r right) x = right_rotate (up (went_left k r right) x)
  splay_root (went_right left k r) x = left_rotate (up (went_right left k r) x)

  -- A round with the parent `p` and the grandparent `g`.
  unfoldable pub splay_round : Step R → Step R → Node R → Node R
  splay_round (went_left k r a) (went_left k' r' b) x =
      right_rotate (right_rotate (up (went_left k' r' b) (up (went_left k r a) x)))
  splay_round (went_right a k r) (went_right b k' r') x =
      left_rotate (left_rotate (up (went_right b k' r') (up (went_right a k r) x)))
  splay_round (went_left k r a) (went_right b k' r') x =
      left_rotate (up (went_right b k' r') (right_rotate (up (went_left k r a) x)))
  splay_round (went_right a k r) (went_left k' r' b) x =
      right_rotate (up (went_left k' r' b) (left_rotate (up (went_right a k r) x)))

  -- `while (x->parent)`
  unfoldable pub splay : Node R → List (Step R) → Node R
  splay x [] = x
  splay x (p ∷ []) = splay_root p x
  splay x (p ∷ g ∷ path) = splay (splay_round p g x) path

  -- The loop of `tree_insert` and `tree_find`: two comparisons where the keys differ.
  unfoldable pub search : ℕ → Node R → List (Step R) → ℕ → Descent R
  search key leaf path n = missing path n
  search key (node l k r right) path n =
      let later = search key right (went_right l k r ∷ path) (n + 2) in
      let earlier = search key l (went_left k r right ∷ path) (n + 2) in
      if key == k then found l r right path (n + 1) else if ltb k key then later else earlier

  -- The loop of `tree_remove`: one comparison where the keys differ.
  unfoldable pub seek : ℕ → Node R → List (Step R) → ℕ → Descent R
  seek key leaf path n = missing path n
  seek key (node l k r right) path n =
      let later = seek key right (went_right l k r ∷ path) (n + 1) in
      let earlier = seek key l (went_left k r right ∷ path) (n + 1) in
      if key == k then found l r right path n else if ltb k key then later else earlier

  -- The result is `none` where `malloc` finds no memory and the driver exits.
  unfoldable pub insert_at : Bool → Tree R → ℕ → R → Descent R → Option (Tree R × Bool)
  insert_at memory t key record' (found l r right path n) =
      some (record t { comparison_count = n }, false)
  insert_at memory t key record' (missing path n) =
      if memory
      then some (
        record {
          root = splay (node leaf key record' leaf) path;
          node_count = t.node_count + 1;
          comparison_count = n;
        },
        true,
      )
      else none

  unfoldable pub tree_insert : Bool → Tree R → ℕ → R → Option (Tree R × Bool)
  tree_insert memory t key record' =
      insert_at memory t key record' (search key t.root [] t.comparison_count)

  unfoldable pub found_record : Tree R → Descent R → Tree R × Option R
  found_record t (found l r right path n) = (record t { comparison_count = n }, some r)
  found_record t (missing path n) = (record t { comparison_count = n }, none)

  unfoldable pub tree_find : Tree R → ℕ → Tree R × Option R
  tree_find t key = found_record t (search key t.root [] t.comparison_count)

  -- `if (!n || n->key < z->key) n = z;`
  abbrev pub nearer : Option (ℕ × R) → ℕ → R → Option (ℕ × R)
  nearer none k r = some (k, r)
  nearer (some (k', r')) k r = if ltb k' k then some (k, r) else some (k', r')

  abbrev pub record_of : Option (ℕ × R) → Option R
  record_of none = none
  record_of (some (k, r)) = some r

  -- The loop of `tree_find_nearest`: the record, and the number of comparisons.
  unfoldable pub nearest : ℕ → Node R → Option (ℕ × R) → ℕ → Option R × ℕ
  nearest key leaf best n = (record_of best, n)
  nearest key (node l k r right) best n =
      let later = nearest key right (nearer best k r) (n + 2) in
      let earlier = nearest key l best (n + 2) in
      if key == k then (some r, n + 1) else if ltb k key then later else earlier

  unfoldable pub tree_find_nearest : Tree R → ℕ → Tree R × Option R
  tree_find_nearest t key =
      let (r, n) = nearest key t.root none t.comparison_count in
      (record t { comparison_count = n }, r)

  -- The node of `subtree_minimum` in a node with these fields, and the node that is left when its right
  -- child takes its place.
  unfoldable pub take_minimum : Node R → ℕ → R → Node R → ℕ × R × Node R
  take_minimum leaf k r right = (k, r, right)
  take_minimum (node a k' r' b) k r right =
      let (key, record', rest) = take_minimum a k' r' b in (key, record', node rest k r right)

  -- The node `z` at the root gives way to a child, or to the least node on its right.
  unfoldable pub remove_root : Node R → Node R
  remove_root leaf = leaf
  remove_root (node leaf k r right) = right
  remove_root (node (node a k' r' b) k r leaf) = node a k' r' b
  remove_root (node (node a k' r' b) k r (node c k'' r'' d)) =
      let (key, record', rest) = take_minimum c k'' r'' d in node (node a k' r' b) key record' rest

  unfoldable pub remove_at : Tree R → ℕ → Descent R → Tree R × Option R
  remove_at t key (found l r right path n) = (
    record {
      root = remove_root (splay (node l key r right) path);
      node_count = t.node_count - 1;
      comparison_count = n;
    },
    some r,
  )
  remove_at t key (missing path n) = (record t { comparison_count = n }, none)

  unfoldable pub tree_remove : Tree R → ℕ → Tree R × Option R
  tree_remove t key = remove_at t key (seek key t.root [] t.comparison_count)

  -- The records that `tree_free` hands to `free_fun`, in order.
  unfoldable pub free_subtree : Node R → List R
  free_subtree leaf = []
  free_subtree (node l k r right) = free_subtree l ++ free_subtree right ++ r ∷ []

  unfoldable pub show_subtree : Bool → Node R → List Token
  show_subtree tree_mode leaf = []
  show_subtree tree_mode (node l k r right) =
      let inner = show_subtree tree_mode l ++ shown k ∷ show_subtree tree_mode right in
      if tree_mode then opening ∷ inner ++ closing ∷ [] else inner
