-- ===== src/SplayTree/Lookup.antt =====
-- Lab5/stree.c: `tree_find` and `tree_find_nearest` on the entries of the tree.
use model_lib.Prelude.{ℕ, ◌≡◌, refl, sym, List, [], ◌∷◌, ◌++◌, Option, none, some, ◌+◌, lt→ltb}
use model_lib.SplayTree.{
  Node, leaf, node, Tree, Descent, found, missing, search, found_record, tree_find, nearer,
  record_of, nearest, tree_find_nearest,
}
use model_lib.SplayTree.Entries.{entries, before, after}
use model_lib.SplayTree.Order.{
  Above, Ascending, Ascending-Below, Ascending-left, Ascending-right, Above-trans, Above-left,
  Above-right,
}
use model_lib.SplayTree.Sorted.{
  lookup, lookup-found, lookup-missing, floor, floor-found, floor-later, floor-cut,
}
use model_lib.SplayTree.Search.{Reaches, compare-elim}
use model_lib.SplayTree.Insert.{Holds, start-Reaches}

module _ {ℓ} {R : Type ℓ} where
  found_record-lookup :
      (t : Tree R) (key : ℕ) (d : Descent R)
      → Reaches key d (entries t.root)
      → (found_record t d).1 ≡ lookup key (entries t.root)
  unfolding found_record
  found_record-lookup t key (found l r right path n) h =
      rw (h.0, lookup-found key r (before path ++ entries l) (entries right ++ after path) h.1) refl
  found_record-lookup t key (missing path n) h =
      rw (h.0, lookup-missing key (before path) (after path) h.1 h.2) refl

  found_record-Holds :
      (t : Tree R) (d : Descent R) (es : List (ℕ × R)) → Holds t es → Holds (found_record t d).0 es
  unfolding found_record
  found_record-Holds t (found l r right path n) es h = h
  found_record-Holds t (missing path n) es h = h

  -- On a tree that holds a map, `tree_find` gives the record that the map has under the key, NULL
  -- where it has none, and keeps the map.
  pub tree_find-lookup :
      (t : Tree R) (key : ℕ) (es : List (ℕ × R))
      → Holds t es
      → ((tree_find t key).1 ≡ lookup key es) × Holds (tree_find t key).0 es
  unfolding tree_find
  tree_find-lookup t key es h = (
    rw (sym h.0) (
        found_record-lookup t key (search key t.root [] t.comparison_count)
          (start-Reaches key t.root t.comparison_count (rw h.0 h.1))),
    found_record-Holds t (search key t.root [] t.comparison_count) es h,
  )

  -- The nearest entry so far stands before the tree.
  abbrev IsBefore : Option (ℕ × R) → List (ℕ × R) → Type 0
  IsBefore none es = Unit
  IsBefore (some e) es = Above e.0 es

  IsBefore-left :
      (best : Option (ℕ × R)) (xs ys : List (ℕ × R)) → IsBefore best (xs ++ ys) → IsBefore best xs
  IsBefore-left none xs ys b = tt
  IsBefore-left (some e) xs ys b = Above-left e.0 xs ys b

  nearer-some :
      (best : Option (ℕ × R)) (xs : List (ℕ × R)) (k : ℕ) (r : R) (ys : List (ℕ × R))
      → IsBefore best (xs ++ (k, r) ∷ ys)
      → nearer best k r ≡ some (k, r)
  nearer-some none xs k r ys b = refl
  nearer-some (some e) xs k r ys b = rw (lt→ltb e.0 k (Above-right e.0 xs ((k, r) ∷ ys) b).0) refl

  nearest-floor :
      (key : ℕ) (t : Node R) (best : Option (ℕ × R)) (n : ℕ)
      → Ascending (entries t)
      → IsBefore best (entries t)
      → (nearest key t best n).0 ≡ floor key (record_of best) (entries t)
  unfolding nearest
  nearest-floor key leaf best n a b = refl
  nearest-floor key (node l k r right) best n a b =
      let below = Ascending-Below (entries l) (k, r) (entries right) a in
      let a' = Ascending-right (entries l) ((k, r) ∷ entries right) a in
      compare-elim
        (λ (x : Option R × ℕ). x.0 ≡ floor key (record_of best) (entries (node l k r right))) key k
        (λ e. rw e (sym (floor-found k (record_of best) r (entries l) (entries right) below a'.0)))
        (λ h.
          rw
            (
              floor-later k key (record_of best) (entries l) r (entries right) h below,
              nearer-some best (entries l) k r (entries right) b,
            )
            (nearest-floor key right (some (k, r)) (n + 2) a'.1 a'.0))
        (λ h.
          rw
            (floor-cut key (record_of best) (entries l) ((k, r) ∷ entries right)
              (h, Above-trans k key (entries right) h a'.0))
            (nearest-floor key l best (n + 2)
              (Ascending-left (entries l) ((k, r) ∷ entries right) a)
              (IsBefore-left best (entries l) ((k, r) ∷ entries right) b)))

  -- On a tree that holds a map, `tree_find_nearest` gives the record of the greatest key that is at
  -- most the given one, NULL where there is none, and keeps the map.
  pub tree_find_nearest-floor :
      (t : Tree R) (key : ℕ) (es : List (ℕ × R))
      → Holds t es
      → ((tree_find_nearest t key).1 ≡ floor key none es) × Holds (tree_find_nearest t key).0 es
  unfolding tree_find_nearest
  tree_find_nearest-floor t key es h =
      (rw (sym h.0) (nearest-floor key t.root none t.comparison_count (rw h.0 h.1) tt), h)
