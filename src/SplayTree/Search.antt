-- ===== src/SplayTree/Search.antt =====
-- Lab5/stree.c: where the searches of `tree_insert`, `tree_find` and `tree_remove` end.
use model_lib.Prelude.{
  false, ℕ, ◌<◌, ◌≡◌, sym, List, [], ◌∷◌, ◌++◌, ltb, ◌==◌, if◌then◌else◌, arith, Bool-cases, ==_iff,
  ltb→lt, inl, inr, ◌+◌,
}
use model_lib.SplayTree.{
  Node, leaf, node, Step, went_left, went_right, Descent, found, missing, search, seek,
}
use model_lib.SplayTree.Entries.{entries, before, after}
use model_lib.SplayTree.Order.{
  Below, Above, Ascending, Below-append, Below-trans, Above-append, Above-trans, Ascending-Below,
  Ascending-left, Ascending-right,
}
use mathlib.Core.List.{append_assoc, append-nil}

greater : (i j : ℕ) → (i == j) ≡ false → ltb j i ≡ false → i < j
greater i j e e' = ground arith

-- The three ways of a comparison.
pub compare-elim {ℓ κ} :
    {A : Type ℓ} (P : A → Type κ) (i j : ℕ) {x y z : A}
    → (i ≡ j → P x)
    → (j < i → P y)
    → (i < j → P z)
    → P (if i == j then x else if ltb j i then y else z)
compare-elim P i j f g h = elim (Bool-cases (i == j)) [
  | inl e ↦ rw e (f ((==_iff i j).0 e))
  | inr e ↦ rw e (elim (Bool-cases (ltb j i)) [
    | inl e' ↦ rw e' (g (ltb→lt j i e'))
    | inr e' ↦ rw e' (h (greater i j e e'))
  ])
]

module _ {ℓ} {R : Type ℓ} where
  -- The search ends in a tree with the entries `es`: at the entry of the key, or between the
  -- entries below it and those above it.
  abbrev pub Reaches : ℕ → Descent R → List (ℕ × R) → Type ℓ
  Reaches key (found l r right path n) es =
      (es ≡ (before path ++ entries l) ++ (key, r) ∷ (entries right ++ after path))
      × Below key (before path ++ entries l)
      × Above key (entries right ++ after path)
  Reaches key (missing path n) es =
      (es ≡ before path ++ after path) × Below key (before path) × Above key (after path)

  -- The keys around a node bound the search.
  abbrev pub Bounded : ℕ → Node R → List (Step R) → Type 0
  Bounded key t path = Below key (before path) × Above key (after path) × Ascending (entries t)

  Bounded-right :
      (key : ℕ) (l : Node R) (k : ℕ) (r : R) (right : Node R) (path : List (Step R))
      → Bounded key (node l k r right) path
      → k < key
      → Bounded key right (went_right l k r ∷ path)
  Bounded-right key l k r right path b h = (
    Below-append key (before path ++ entries l) ((k, r) ∷ [])
        (Below-append key (before path) (entries l) b.0 (
          Below-trans k key (entries l) h (Ascending-Below (entries l) (k, r) (entries right) b.2)))
        (h, tt),
    b.1,
    (Ascending-right (entries l) ((k, r) ∷ entries right) b.2).1,
  )

  Bounded-left :
      (key : ℕ) (l : Node R) (k : ℕ) (r : R) (right : Node R) (path : List (Step R))
      → Bounded key (node l k r right) path
      → key < k
      → Bounded key l (went_left k r right ∷ path)
  Bounded-left key l k r right path b h =
      let a = Ascending-right (entries l) ((k, r) ∷ entries right) b.2 in
      (
        b.0,
        (
          h,
          Above-append key (entries right) (after path) (Above-trans k key (entries right) h a.0)
              b.1,
        ),
        Ascending-left (entries l) ((k, r) ∷ entries right) b.2,
      )

  Bounded-found :
      (key : ℕ) (l : Node R) (k : ℕ) (r : R) (right : Node R) (path : List (Step R)) (n : ℕ)
      → Bounded key (node l k r right) path
      → key ≡ k
      → Reaches key
          (found l r right path n)
          (before path ++ entries (node l k r right) ++ after path)
  Bounded-found key l k r right path n b e = rw e (
    simp append_assoc,
    Below-append k (before path) (entries l) (rw (sym e) b.0)
        (Ascending-Below (entries l) (k, r) (entries right) b.2),
    Above-append k (entries right) (after path)
        (Ascending-right (entries l) ((k, r) ∷ entries right) b.2).0 (rw (sym e) b.1),
  )

  pub Reaches-cast :
      (key : ℕ) (d : Descent R) {es es' : List (ℕ × R)}
      → es ≡ es'
      → Reaches key d es
      → Reaches key d es'
  Reaches-cast key d e h = rw (sym e) h

  pub search-Reaches :
      (key : ℕ) (t : Node R) (path : List (Step R)) (n : ℕ)
      → Bounded key t path
      → Reaches key (search key t path n) (before path ++ entries t ++ after path)
  unfolding search
  search-Reaches key leaf path n b = (simp append-nil, b.0, b.1)
  search-Reaches key (node l k r right) path n b =
      compare-elim (λ d. Reaches key d (before path ++ entries (node l k r right) ++ after path))
        key k (λ e. Bounded-found key l k r right path (n + 1) b e)
        (λ h.
          Reaches-cast key (search key right (went_right l k r ∷ path) (n + 2)) (simp append_assoc)
            (search-Reaches key right (went_right l k r ∷ path) (n + 2)
              (Bounded-right key l k r right path b h)))
        (λ h.
          Reaches-cast key (search key l (went_left k r right ∷ path) (n + 2)) (simp append_assoc) (
            search-Reaches key l (went_left k r right ∷ path) (n + 2)
              (Bounded-left key l k r right path b h)))

  pub seek-Reaches :
      (key : ℕ) (t : Node R) (path : List (Step R)) (n : ℕ)
      → Bounded key t path
      → Reaches key (seek key t path n) (before path ++ entries t ++ after path)
  unfolding seek
  seek-Reaches key leaf path n b = (simp append-nil, b.0, b.1)
  seek-Reaches key (node l k r right) path n b =
      compare-elim (λ d. Reaches key d (before path ++ entries (node l k r right) ++ after path))
        key k (λ e. Bounded-found key l k r right path n b e)
        (λ h.
          Reaches-cast key (seek key right (went_right l k r ∷ path) (n + 1)) (simp append_assoc) (
            seek-Reaches key right (went_right l k r ∷ path) (n + 1)
              (Bounded-right key l k r right path b h)))
        (λ h.
          Reaches-cast key (seek key l (went_left k r right ∷ path) (n + 1)) (simp append_assoc) (
            seek-Reaches key l (went_left k r right ∷ path) (n + 1)
              (Bounded-left key l k r right path b h)))
