-- ===== src/SplayTree/Entries.antt =====
-- What a splay tree of Lab5/stree.c holds, as a list in the order of its nodes, and lists in ascending order.
use model_lib.Prelude.{ℕ, ◌≡◌, refl, List, [], ◌∷◌, ◌++◌, Option, none, some}
use model_lib.SplayTree.{
  Node, leaf, node, Step, went_left, went_right, splay, splay_round, splay_root, left_rotate,
  right_rotate,
}
use mathlib.Core.List.{append_assoc, append-nil}

module _ {ℓ} {R : Type ℓ} where
  abbrev pub entries : Node R → List (ℕ × R)
  entries leaf = []
  entries (node l k r right) = entries l ++ (k, r) ∷ entries right

  -- What stands before and after a node in the tree around it.
  abbrev pub before : List (Step R) → List (ℕ × R)
  before [] = []
  before (went_left k r right ∷ path) = before path
  before (went_right l k r ∷ path) = before path ++ entries l ++ (k, r) ∷ []

  abbrev pub after : List (Step R) → List (ℕ × R)
  after [] = []
  after (went_left k r right ∷ path) = (k, r) ∷ entries right ++ after path
  after (went_right l k r ∷ path) = after path

  pub splay-entries :
      (a : Node R) (k : ℕ) (r : R) (b : Node R) (path : List (Step R))
      → entries (splay (node a k r b) path)
        ≡ before path ++ (entries a ++ (k, r) ∷ (entries b ++ after path))
  unfolding splay splay_root splay_round left_rotate right_rotate
  splay-entries a k r b [] = simp append-nil
  splay-entries a k r b (went_left k1 r1 c ∷ []) = simp append-nil
  splay-entries a k r b (went_right c k1 r1 ∷ []) = simp (append_assoc, append-nil)
  splay-entries a k r b (went_left k1 r1 c ∷ went_left k2 r2 d ∷ path) =
      simp (splay-entries a k r (node b k1 r1 (node c k2 r2 d)) path, append_assoc)
  splay-entries a k r b (went_right c k1 r1 ∷ went_right d k2 r2 ∷ path) =
      simp (splay-entries (node (node d k2 r2 c) k1 r1 a) k r b path, append_assoc)
  splay-entries a k r b (went_left k1 r1 c ∷ went_right d k2 r2 ∷ path) =
      simp (splay-entries (node d k2 r2 a) k r (node b k1 r1 c) path, append_assoc)
  splay-entries a k r b (went_right c k1 r1 ∷ went_left k2 r2 d ∷ path) =
      simp (splay-entries (node c k1 r1 a) k r (node b k2 r2 d) path, append_assoc)

  abbrev pub top : Node R → Option (ℕ × R)
  top leaf = none
  top (node l k r right) = some (k, r)

  -- The node that `splay` moves is the root at the end.
  pub splay-top :
      (a : Node R) (k : ℕ) (r : R) (b : Node R) (path : List (Step R))
      → top (splay (node a k r b) path) ≡ some (k, r)
  unfolding splay splay_root splay_round left_rotate right_rotate
  splay-top a k r b [] = refl
  splay-top a k r b (went_left k1 r1 c ∷ []) = refl
  splay-top a k r b (went_right c k1 r1 ∷ []) = refl
  splay-top a k r b (went_left k1 r1 c ∷ went_left k2 r2 d ∷ path) =
      splay-top a k r (node b k1 r1 (node c k2 r2 d)) path
  splay-top a k r b (went_right c k1 r1 ∷ went_right d k2 r2 ∷ path) =
      splay-top (node (node d k2 r2 c) k1 r1 a) k r b path
  splay-top a k r b (went_left k1 r1 c ∷ went_right d k2 r2 ∷ path) =
      splay-top (node d k2 r2 a) k r (node b k1 r1 c) path
  splay-top a k r b (went_right c k1 r1 ∷ went_left k2 r2 d ∷ path) =
      splay-top (node c k1 r1 a) k r (node b k2 r2 d) path
