-- ===== src/SplayTree/Release.antt =====
-- Lab5/stree.c: `free_subtree` and `show_subtree` on the entries of the tree.
use model_lib.Prelude.{ℕ, ◌≡◌, refl, List, [], ◌∷◌, ◌++◌, Bool, true, false, ap}
use model_lib.SplayTree.{
  Node, leaf, node, Token, opening, closing, shown, free_subtree, show_subtree,
}
use model_lib.SplayTree.Entries.{entries}
use mathlib.Core.List.{Perm, perm_append_singleton, perm_middle, append-nil}
use mathlib.Core.List.Perm

module _ {ℓ} {R : Type ℓ} where
  abbrev pub records : List (ℕ × R) → List R
  records [] = []
  records (e ∷ es) = e.1 ∷ records es

  abbrev pub keys : List (ℕ × R) → List ℕ
  keys [] = []
  keys (e ∷ es) = e.0 ∷ keys es

  records-append : (xs ys : List (ℕ × R)) → records (xs ++ ys) ≡ records xs ++ records ys
  records-append [] ys = refl
  records-append (x ∷ xs) ys = ap (λ rs. x.1 ∷ rs) (records-append xs ys)

  keys-append : (xs ys : List (ℕ × R)) → keys (xs ++ ys) ≡ keys xs ++ keys ys
  keys-append [] ys = refl
  keys-append (x ∷ xs) ys = ap (λ ks. x.0 ∷ ks) (keys-append xs ys)

  -- `free_subtree` hands every record of the tree to `free_fun`, each once.
  pub free_subtree-records : (t : Node R) → Perm (free_subtree t) (records (entries t))
  unfolding free_subtree
  free_subtree-records leaf = Perm.refl []
  free_subtree-records (node l k r right) =
      rw (records-append (entries l) ((k, r) ∷ entries right)) (
        Perm.trans (perm_append_singleton r (free_subtree l ++ free_subtree right)) (
          Perm.trans
            (Perm.cons r (Perm.append (free_subtree-records l) (free_subtree-records right)))
            (Perm.symm (perm_middle (records (entries l)) (records (entries right))))))

-- The keys among the tokens, in order.
abbrev pub printed : List Token → List ℕ
printed [] = []
printed (opening ∷ ts) = printed ts
printed (closing ∷ ts) = printed ts
printed (shown k ∷ ts) = k ∷ printed ts

printed-append : (xs ys : List Token) → printed (xs ++ ys) ≡ printed xs ++ printed ys
printed-append [] ys = refl
printed-append (opening ∷ xs) ys = printed-append xs ys
printed-append (closing ∷ xs) ys = printed-append xs ys
printed-append (shown k ∷ xs) ys = ap (λ ks. k ∷ ks) (printed-append xs ys)

-- In both modes `tree_show` prints the keys in ascending order.
pub show_subtree-keys {ℓ} :
    {R : Type ℓ} (mode : Bool) (t : Node R) → printed (show_subtree mode t) ≡ keys (entries t)
unfolding show_subtree
show_subtree-keys mode leaf = refl
show_subtree-keys true (node l k r right) = simp (
  printed-append,
  keys-append,
  append-nil,
  show_subtree-keys true l,
  show_subtree-keys true right,
)
show_subtree-keys false (node l k r right) =
    simp (printed-append, keys-append, show_subtree-keys false l, show_subtree-keys false right)
