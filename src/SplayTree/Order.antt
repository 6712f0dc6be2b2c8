-- ===== src/SplayTree/Order.antt =====
-- The order of the keys of a splay tree of Lab5/stree.c.
use model_lib.Prelude.{ℕ, ◌<◌, List, [], ◌∷◌, ◌++◌, arith}

module _ {ℓ} {R : Type ℓ} where
  -- Every key is less than `k`, and every key is greater.
  abbrev pub Below : ℕ → List (ℕ × R) → Type 0
  Below k [] = Unit
  Below k (e ∷ es) = (e.0 < k) × Below k es

  abbrev pub Above : ℕ → List (ℕ × R) → Type 0
  Above k [] = Unit
  Above k (e ∷ es) = (k < e.0) × Above k es

  abbrev pub Ascending : List (ℕ × R) → Type 0
  Ascending [] = Unit
  Ascending (e ∷ es) = Above e.0 es × Ascending es

  pub Below-append : (k : ℕ) (xs ys : List (ℕ × R)) → Below k xs → Below k ys → Below k (xs ++ ys)
  Below-append k [] ys b c = c
  Below-append k (x ∷ xs) ys b c = (b.0, Below-append k xs ys b.1 c)

  pub Below-left : (k : ℕ) (xs ys : List (ℕ × R)) → Below k (xs ++ ys) → Below k xs
  Below-left k [] ys b = tt
  Below-left k (x ∷ xs) ys b = (b.0, Below-left k xs ys b.1)

  pub Below-right : (k : ℕ) (xs ys : List (ℕ × R)) → Below k (xs ++ ys) → Below k ys
  Below-right k [] ys b = b
  Below-right k (x ∷ xs) ys b = Below-right k xs ys b.1

  pub Above-append : (k : ℕ) (xs ys : List (ℕ × R)) → Above k xs → Above k ys → Above k (xs ++ ys)
  Above-append k [] ys b c = c
  Above-append k (x ∷ xs) ys b c = (b.0, Above-append k xs ys b.1 c)

  pub Above-left : (k : ℕ) (xs ys : List (ℕ × R)) → Above k (xs ++ ys) → Above k xs
  Above-left k [] ys b = tt
  Above-left k (x ∷ xs) ys b = (b.0, Above-left k xs ys b.1)

  pub Above-right : (k : ℕ) (xs ys : List (ℕ × R)) → Above k (xs ++ ys) → Above k ys
  Above-right k [] ys b = b
  Above-right k (x ∷ xs) ys b = Above-right k xs ys b.1

  pub Below-trans : (k m : ℕ) (xs : List (ℕ × R)) → k < m → Below k xs → Below m xs
  Below-trans k m [] h b = tt
  Below-trans k m (x ∷ xs) h b = (omega (arith, h, b.0), Below-trans k m xs h b.1)

  pub Above-trans : (k m : ℕ) (xs : List (ℕ × R)) → m < k → Above k xs → Above m xs
  Above-trans k m [] h b = tt
  Above-trans k m (x ∷ xs) h b = (omega (arith, h, b.0), Above-trans k m xs h b.1)

  pub Ascending-left : (xs ys : List (ℕ × R)) → Ascending (xs ++ ys) → Ascending xs
  Ascending-left [] ys a = tt
  Ascending-left (x ∷ xs) ys a = (Above-left x.0 xs ys a.0, Ascending-left xs ys a.1)

  pub Ascending-right : (xs ys : List (ℕ × R)) → Ascending (xs ++ ys) → Ascending ys
  Ascending-right [] ys a = a
  Ascending-right (x ∷ xs) ys a = Ascending-right xs ys a.1

  -- In an ascending list what stands before an entry is below it.
  pub Ascending-Below :
      (xs : List (ℕ × R)) (e : ℕ × R) (ys : List (ℕ × R)) → Ascending (xs ++ e ∷ ys) → Below e.0 xs
  Ascending-Below [] e ys a = tt
  Ascending-Below (x ∷ xs) e ys a =
      ((Above-right x.0 xs (e ∷ ys) a.0).0, Ascending-Below xs e ys a.1)

  pub Ascending-append :
      (k : ℕ) (xs ys : List (ℕ × R))
      → Ascending xs
      → Ascending ys
      → Below k xs
      → Above k ys
      → Ascending (xs ++ ys)
  Ascending-append k [] ys a b c d = b
  Ascending-append k (x ∷ xs) ys a b c d = (
    Above-append x.0 xs ys a.0 (Above-trans k x.0 ys c.0 d),
    Ascending-append k xs ys a.1 b c.1 d,
  )
