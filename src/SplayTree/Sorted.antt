-- ===== src/SplayTree/Sorted.antt =====
-- What the operations of Lab5/stree.c do to a map that is a list of entries with ascending keys.
use model_lib.Prelude.{
  Bool-cases, ltb→lt, false, ◌⊎◌, inl, inr, ◌≤◌, ap, ℕ, ◌<◌, ◌≡◌, refl, List, [], ◌∷◌, ◌++◌, ltb,
  ◌==◌, if◌then◌else◌, Option, none, some, arith,
}
use model_lib.SplayTree.Order.{Below, Above, Ascending, Below-trans, Above-trans}

not_less : (k m : ℕ) → ltb k m ≡ false → m ≤ k
not_less k m h = ground arith

module _ {ℓ} {R : Type ℓ} where
  abbrev pub lookup : ℕ → List (ℕ × R) → Option R
  lookup k [] = none
  lookup k (e ∷ es) = if k == e.0 then some e.1 else lookup k es

  -- The entry goes before the first greater key.
  abbrev pub insert : ℕ → R → List (ℕ × R) → List (ℕ × R)
  insert k r [] = (k, r) ∷ []
  insert k r (e ∷ es) = if ltb k e.0 then (k, r) ∷ e ∷ es else e ∷ insert k r es

  abbrev pub erase : ℕ → List (ℕ × R) → List (ℕ × R)
  erase k [] = []
  erase k (e ∷ es) = if k == e.0 then es else e ∷ erase k es

  -- The record of the greatest key that is at most `k`, `best` where there is none.
  abbrev pub floor : ℕ → Option R → List (ℕ × R) → Option R
  floor k best [] = best
  floor k best (e ∷ es) = if ltb k e.0 then best else floor k (some e.1) es

  pub lookup-found :
      (k : ℕ) (r : R) (xs ys : List (ℕ × R)) → Below k xs → lookup k (xs ++ (k, r) ∷ ys) ≡ some r
  lookup-found k r [] ys b = ground arith
  lookup-found k r (x ∷ xs) ys b = ground (arith, lookup-found k r xs ys b.1, b.0)

  pub lookup-Above : (k : ℕ) (ys : List (ℕ × R)) → Above k ys → lookup k ys ≡ none
  lookup-Above k [] a = refl
  lookup-Above k (y ∷ ys) a = ground (arith, lookup-Above k ys a.1, a.0)

  pub lookup-missing :
      (k : ℕ) (xs ys : List (ℕ × R)) → Below k xs → Above k ys → lookup k (xs ++ ys) ≡ none
  lookup-missing k [] ys b a = lookup-Above k ys a
  lookup-missing k (x ∷ xs) ys b a = ground (arith, lookup-missing k xs ys b.1 a, b.0)

  pub insert-between :
      (k : ℕ) (r : R) (xs ys : List (ℕ × R))
      → Below k xs
      → Above k ys
      → insert k r (xs ++ ys) ≡ xs ++ (k, r) ∷ ys
  insert-between k r [] [] b a = refl
  insert-between k r [] (y ∷ ys) b a = ground (arith, a.0)
  insert-between k r (x ∷ xs) ys b a = ground (arith, insert-between k r xs ys b.1 a, b.0)

  pub erase-found :
      (k : ℕ) (r : R) (xs ys : List (ℕ × R)) → Below k xs → erase k (xs ++ (k, r) ∷ ys) ≡ xs ++ ys
  erase-found k r [] ys b = ground arith
  erase-found k r (x ∷ xs) ys b = ground (arith, erase-found k r xs ys b.1, b.0)

  pub erase-Above : (k : ℕ) (ys : List (ℕ × R)) → Above k ys → erase k ys ≡ ys
  erase-Above k [] a = refl
  erase-Above k (y ∷ ys) a = ground (arith, erase-Above k ys a.1, a.0)

  pub erase-missing :
      (k : ℕ) (xs ys : List (ℕ × R)) → Below k xs → Above k ys → erase k (xs ++ ys) ≡ xs ++ ys
  erase-missing k [] ys b a = erase-Above k ys a
  erase-missing k (x ∷ xs) ys b a = ground (arith, erase-missing k xs ys b.1 a, b.0)

  pub floor-Above :
      (k : ℕ) (best : Option R) (ys : List (ℕ × R)) → Above k ys → floor k best ys ≡ best
  floor-Above k best [] a = refl
  floor-Above k best (y ∷ ys) a = ground (arith, a.0)

  pub floor-append :
      (k : ℕ) (best : Option R) (xs ys : List (ℕ × R))
      → Below k xs
      → floor k best (xs ++ ys) ≡ floor k (floor k best xs) ys
  floor-append k best [] ys b = refl
  floor-append k best (x ∷ xs) ys b = ground (arith, floor-append k (some x.1) xs ys b.1, b.0)

  pub floor-found :
      (k : ℕ) (best : Option R) (r : R) (xs ys : List (ℕ × R))
      → Below k xs
      → Above k ys
      → floor k best (xs ++ (k, r) ∷ ys) ≡ some r
  floor-found k best r [] ys b a = ground (arith, floor-Above k (some r) ys a)
  floor-found k best r (x ∷ xs) ys b a = ground (arith, floor-found k (some x.1) r xs ys b.1 a, b.0)

  pub floor-cut :
      (k : ℕ) (best : Option R) (xs ys : List (ℕ × R))
      → Above k ys
      → floor k best (xs ++ ys) ≡ floor k best xs
  floor-cut k best [] ys a = floor-Above k best ys a
  floor-cut k best (x ∷ xs) ys a = ground (arith, floor-cut k (some x.1) xs ys a)

  pub floor-later :
      (k m : ℕ) (best : Option R) (xs : List (ℕ × R)) (r : R) (ys : List (ℕ × R))
      → k < m
      → Below k xs
      → floor m best (xs ++ (k, r) ∷ ys) ≡ floor m (some r) ys
  floor-later k m best xs r ys h b =
      rw (floor-append m best xs ((k, r) ∷ ys) (Below-trans k m xs h b)) (ground arith)

  -- All keys are greater, or the last entry that is not splits the list.
  pub floor-cases :
      (k : ℕ) (best : Option R) (es : List (ℕ × R))
      → Ascending es
      → (Above k es × (floor k best es ≡ best))
        ⊎ ((xs : List (ℕ × R)) × (e : ℕ × R) × (ys : List (ℕ × R)) × (es ≡ xs ++ e ∷ ys)
            × (floor k best es ≡ some e.1)
            × (e.0 ≤ k)
            × Above k ys)
  floor-cases k best [] a = inl (tt, refl)
  floor-cases k best (e ∷ es) a = elim (Bool-cases (ltb k e.0)) [
    | inl h ↦ inl ((ltb→lt k e.0 h, Above-trans e.0 k es (ltb→lt k e.0 h) a.0), rw h refl)
    | inr h ↦ elim (floor-cases k (some e.1) es a.1) [
      | inl c ↦ inr ([], e, es, refl, rw h c.1, not_less k e.0 h, c.0)
      | inr c ↦ inr (e ∷ c.0, c.1, c.2, ap (λ l. e ∷ l) c.3, rw h c.4, c.5, c.6)
    ]
  ]
