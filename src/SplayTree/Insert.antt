-- ===== src/SplayTree/Insert.antt =====
-- Lab5/stree.c: `tree_insert` and `tree_find` on the entries of the tree.
use model_lib.Prelude.{
  ℕ, ◌≡◌, refl, sym, ◌∙◌, List, [], ◌∷◌, ◌++◌, Option, none, some, arith, ap, ◌+◌, Bool, true,
  false, length, length-append,
}
use model_lib.SplayTree.{
  Node, leaf, node, Tree, tree_new, Descent, found, missing, search, splay, insert_at, tree_insert,
}
use model_lib.SplayTree.Entries.{entries, before, after, splay-entries, splay-top, top}
use model_lib.SplayTree.Order.{Below, Above, Ascending, Above-append, Above-left, Above-right}
use model_lib.SplayTree.Sorted.{lookup, insert, lookup-found, lookup-missing, insert-between}
use model_lib.SplayTree.Search.{Reaches, Reaches-cast, search-Reaches}
use mathlib.Core.Path.{subst}
use mathlib.Core.List.{append-nil}

module _ {ℓ} {R : Type ℓ} where
  -- The tree holds these entries: its keys ascend, and `node_count` counts them.
  abbrev pub Holds : Tree R → List (ℕ × R) → Type ℓ
  Holds t es = (entries t.root ≡ es) × Ascending es × (t.node_count ≡ length es)

  pub tree_new-Holds : Holds tree_new []
  unfolding tree_new
  tree_new-Holds = (refl, tt, refl)

  -- What `tree_insert` gives where the map has, and where it has not, an entry of the key.
  abbrev pub Inserted :
      Bool → Tree R → ℕ → R → List (ℕ × R) → Option R → Option (Tree R × Bool) → Type ℓ
  Inserted memory t key r es (some old) result =
      (t' : Tree R) × (result ≡ some (t', false)) × (t'.root ≡ t.root) × Holds t' es
  Inserted true t key r es none result =
      (t' : Tree R) × (result ≡ some (t', true))
      × (top t'.root ≡ some (key, r))
      × Holds t' (insert key r es)
  Inserted false t key r es none result = result ≡ none

  insert_middle-Ascending :
      (key : ℕ) (r : R) (xs ys : List (ℕ × R))
      → Ascending (xs ++ ys)
      → Below key xs
      → Above key ys
      → Ascending (xs ++ (key, r) ∷ ys)
  insert_middle-Ascending key r [] ys a b c = (c, a)
  insert_middle-Ascending key r (x ∷ xs) ys a b c = (
    Above-append x.0 xs ((key, r) ∷ ys) (Above-left x.0 xs ys a.0) (b.0, Above-right x.0 xs ys a.0),
    insert_middle-Ascending key r xs ys a.1 b.1 c,
  )

  pub length-middle :
      (xs : List (ℕ × R)) (e : ℕ × R) (ys : List (ℕ × R))
      → length (xs ++ e ∷ ys) ≡ length (xs ++ ys) + 1
  length-middle xs e ys = rw (length-append xs (e ∷ ys), length-append xs ys) (omega arith)

  pub start-Reaches :
      (key : ℕ) (t : Node R) (n : ℕ)
      → Ascending (entries t)
      → Reaches key (search key t [] n) (entries t)
  start-Reaches key t n a =
      Reaches-cast key (search key t [] n) (append-nil (entries t))
        (search-Reaches key t [] n (tt, tt, a))

  insert_at-Inserted :
      (memory : Bool) (t : Tree R) (key : ℕ) (r : R) (d : Descent R)
      → Ascending (entries t.root)
      → t.node_count ≡ length (entries t.root)
      → Reaches key d (entries t.root)
      → Inserted memory t key r
          (entries t.root)
          (lookup key (entries t.root))
          (insert_at memory t key r d)
  unfolding insert_at
  insert_at-Inserted memory t key r (found l old right path n) a c h =
      rw (h.0, lookup-found key old (before path ++ entries l) (entries right ++ after path) h.1)
        (record t { comparison_count = n }, refl, refl, (h.0, rw (sym h.0) a, c ∙ ap length h.0))
  insert_at-Inserted true t key r (missing path n) a c h =
      rw
        (
          h.0,
          lookup-missing key (before path) (after path) h.1 h.2,
          insert-between key r (before path) (after path) h.1 h.2,
        )
        (
          record {
            root = splay (node leaf key r leaf) path;
            node_count = t.node_count + 1;
            comparison_count = n;
          },
          refl,
          splay-top leaf key r leaf path,
          (
            splay-entries leaf key r leaf path,
            insert_middle-Ascending key r (before path) (after path) (rw (sym h.0) a) h.1 h.2,
            rw (c, h.0, length-middle (before path) (key, r) (after path)) refl,
          ),
        )
  insert_at-Inserted false t key r (missing path n) a c h =
      rw (h.0, lookup-missing key (before path) (after path) h.1 h.2) refl

  -- On a tree that holds a map, `tree_insert` is insertion into the map: where the key is there,
  -- the map stays, and nothing is inserted; where it is missing and there is memory, the map gets
  -- the entry, and its node is the new root; where it is missing and there is no memory, there is
  -- no result.
  pub tree_insert-Inserted :
      (memory : Bool) (t : Tree R) (key : ℕ) (r : R) (es : List (ℕ × R))
      → Holds t es
      → Inserted memory t key r es (lookup key es) (tree_insert memory t key r)
  unfolding tree_insert
  tree_insert-Inserted memory t key r es h = rw (sym h.0) (
      insert_at-Inserted memory t key r (search key t.root [] t.comparison_count) (rw h.0 h.1)
        (h.2 ∙ ap length (sym h.0)) (start-Reaches key t.root t.comparison_count (rw h.0 h.1)))

  -- The insertion between the entries below the key and those above it.
  pub tree_insert-between :
      (t : Tree R) (key : ℕ) (r : R) (xs ys : List (ℕ × R))
      → Holds t (xs ++ ys)
      → Below key xs
      → Above key ys
      → (t' : Tree R) × (tree_insert true t key r ≡ some (t', true))
        × Holds t' (xs ++ (key, r) ∷ ys)
  tree_insert-between t key r xs ys h b a =
      let stored : Inserted true t key r (xs ++ ys) none (tree_insert true t key r) =
        subst (λ o. Inserted true t key r (xs ++ ys) o (tree_insert true t key r))
          (lookup-missing key xs ys b a) (tree_insert-Inserted true t key r (xs ++ ys) h) in
      (
        stored.0,
        stored.1,
        subst (λ es. Holds stored.0 es) (insert-between key r xs ys b a) stored.3,
      )
