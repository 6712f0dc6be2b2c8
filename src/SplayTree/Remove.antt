-- ===== src/SplayTree/Remove.antt =====
-- Lab5/stree.c: `tree_remove` on the entries of the tree.
use model_lib.Prelude.{ℕ, ◌≡◌, refl, sym, ◌∙◌, List, [], ◌∷◌, ◌++◌, some, arith, ap}
use model_lib.SplayTree.{
  Node, leaf, node, Tree, Descent, found, missing, seek, splay, take_minimum, remove_root,
  remove_at, tree_remove,
}
use model_lib.SplayTree.Entries.{entries, before, after, splay-entries, splay-top, top}
use model_lib.SplayTree.Order.{Ascending, Ascending-Below, Above-append, Above-left, Above-right}
use model_lib.SplayTree.Sorted.{
  lookup, erase, lookup-found, lookup-missing, erase-found, erase-missing,
}
use model_lib.SplayTree.Search.{Reaches, Reaches-cast, seek-Reaches}
use model_lib.SplayTree.Insert.{Holds, length-middle}
use mathlib.Core.Option.{none-ne-some, some_inj}
use mathlib.Core.List.{append_assoc, append-nil}

module _ {ℓ} {R : Type ℓ} where
  -- The least entry comes first.
  take_minimum-entries :
      (l : Node R) (k : ℕ) (r : R) (right : Node R)
      → (let (key, record', rest) = take_minimum l k r right in (key, record') ∷ entries rest)
        ≡ entries (node l k r right)
  unfolding take_minimum
  take_minimum-entries leaf k r right = refl
  take_minimum-entries (node a k' r' b) k r right =
      ap (λ es. es ++ (k, r) ∷ entries right) (take_minimum-entries a k' r' b)

  -- The root goes, all else stays.
  remove_root-entries :
      (l : Node R) (k : ℕ) (r : R) (right : Node R)
      → entries (remove_root (node l k r right)) ≡ entries l ++ entries right
  unfolding remove_root
  remove_root-entries leaf k r right = refl
  remove_root-entries (node a k' r' b) k r leaf = sym (append-nil (entries (node a k' r' b)))
  remove_root-entries (node a k' r' b) k r (node c k'' r'' d) =
      ap (λ es. entries (node a k' r' b) ++ es) (take_minimum-entries c k'' r'' d)

  remove_root-erase :
      (t : Node R) (key : ℕ) (r : R)
      → top t ≡ some (key, r)
      → Ascending (entries t)
      → entries (remove_root t) ≡ erase key (entries t)
  remove_root-erase leaf key r e a = absurd (none-ne-some (key, r) e)
  remove_root-erase (node l k r' right) key r e a =
      let same = ap (λ (x : ℕ × R). x.0) (some_inj.0 e) in
      remove_root-entries l k r' right
      ∙ rw (sym same) (
          sym (
            erase-found k r' (entries l) (entries right)
              (Ascending-Below (entries l) (k, r') (entries right) a)))

  remove_middle-Ascending :
      (xs : List (ℕ × R)) (e : ℕ × R) (ys : List (ℕ × R))
      → Ascending (xs ++ e ∷ ys)
      → Ascending (xs ++ ys)
  remove_middle-Ascending [] e ys a = a.1
  remove_middle-Ascending (x ∷ xs) e ys a = (
    Above-append x.0 xs ys (Above-left x.0 xs (e ∷ ys) a.0) (Above-right x.0 xs (e ∷ ys) a.0).1,
    remove_middle-Ascending xs e ys a.1,
  )

  start-Reaches :
      (key : ℕ) (t : Node R) (n : ℕ)
      → Ascending (entries t)
      → Reaches key (seek key t [] n) (entries t)
  start-Reaches key t n a =
      Reaches-cast key (seek key t [] n) (append-nil (entries t))
        (seek-Reaches key t [] n (tt, tt, a))

  remove_at-Removes :
      (t : Tree R) (key : ℕ) (d : Descent R) (es : List (ℕ × R))
      → Holds t es
      → Reaches key d es
      → ((remove_at t key d).1 ≡ lookup key es) × Holds (remove_at t key d).0 (erase key es)
  unfolding remove_at
  remove_at-Removes t key (found l r right path n) es h d =
      let xs = before path ++ entries l in
      let ys = entries right ++ after path in
      let e =
        splay-entries l key r right path
        ∙ sym (append_assoc (before path) (entries l) ((key, r) ∷ ys))
        ∙ sym d.0 in
      (
        sym (rw d.0 (lookup-found key r xs ys d.1)),
        (
          remove_root-erase (splay (node l key r right) path) key r (splay-top l key r right path)
                (rw e h.1)
              ∙ ap (erase key) e,
          rw (d.0, erase-found key r xs ys d.1)
              (remove_middle-Ascending xs (key, r) ys (rw (sym d.0) h.1)),
          rw (h.2, d.0, erase-found key r xs ys d.1, length-middle xs (key, r) ys) (omega arith),
        ),
      )
  remove_at-Removes t key (missing path n) es h d =
      let same : erase key es ≡ es =
        rw d.0 (erase-missing key (before path) (after path) d.1 d.2) in
      (sym (rw d.0 (lookup-missing key (before path) (after path) d.1 d.2)), rw same h)

  -- On a tree that holds a map, `tree_remove` gives the record of the key, NULL where there is
  -- none, and takes the entry out of the map; what is left is a search tree again that counts its
  -- nodes.
  pub tree_remove-erase :
      (t : Tree R) (key : ℕ) (es : List (ℕ × R))
      → Holds t es
      → ((tree_remove t key).1 ≡ lookup key es) × Holds (tree_remove t key).0 (erase key es)
  unfolding tree_remove
  tree_remove-erase t key es h =
      remove_at-Removes t key (seek key t.root [] t.comparison_count) es h (
        Reaches-cast key (seek key t.root [] t.comparison_count) h.0
          (start-Reaches key t.root t.comparison_count (rw h.0 h.1)))
