-- ===== src/Transpose/Regions.antt =====
-- Loops of Lab3/trans.c that copy entries of `A` to `B`, and the regions of `B` that they write.
use model_lib.Prelude.{
  ℕ, zero, suc, ◌+◌, ◌<◌, ◌≤◌, ◌≡◌, refl, ap, ◌∙◌, Bool, true, false, ◌||◌, ◌==◌, if◌then◌else◌,
  arith, Bool-cases, inl, inr,
}
use model_lib.Transpose.{Matrix, for_from}

-- Some number from `lo` on and below `lo + n` passes the test.
unfoldable pub some_from : ℕ → ℕ → (ℕ → Bool) → Bool
some_from zero lo p = false
some_from (suc n) lo p = let rest = some_from n (suc lo) p in p lo || rest

eq_of_== : (a b : ℕ) → (a == b) ≡ true → a ≡ b
eq_of_== a b e = ground arith

pub some_from-intro :
    (n lo : ℕ) (p : ℕ → Bool) (k : ℕ) → lo ≤ k → k < lo + n → p k ≡ true → some_from n lo p ≡ true
unfolding some_from
some_from-intro zero lo p k a b e = absurd (omega arith)
some_from-intro (suc n) lo p k a b e = elim (Bool-cases (k == lo)) [
  | inl here ↦ ground (arith, eq_of_== k lo here)
  | inr there ↦ ground (arith, some_from-intro n (suc lo) p k (ground arith) (omega arith) e)
]

pub some_from-elim :
    (n lo : ℕ) (p : ℕ → Bool)
    → some_from n lo p ≡ true
    → (k : ℕ) × (lo ≤ k) × (k < lo + n) × (p k ≡ true)
unfolding some_from
some_from-elim zero lo p e = ground arith
some_from-elim (suc n) lo p e = elim (Bool-cases (p lo)) [
  | inl here ↦ (lo, omega arith, omega arith, here)
  | inr there ↦
      (let (k, a, b, h) = some_from-elim n (suc lo) p (ground arith) in
        (k, omega (arith, a), omega (arith, b), h))
]

merge {ℓ} :
    {A : Type ℓ} (r x : Bool) (a v : A)
    → (if x then a else if r then a else v) ≡ (if r || x then a else v)
merge true true a v = refl
merge true false a v = refl
merge false true a v = refl
merge false false a v = refl

module _ {ℓ} {V : Type ℓ} (a : Matrix V) {S : Type ℓ} (view : S → Matrix V) where
  -- A step that copies the entries of a region of `B`, given by row and column, and leaves the others.
  abbrev pub Copies : (S → S) → (ℕ → ℕ → Bool) → Type ℓ
  Copies f r = (s : S) (j i : ℕ) → view (f s) j i ≡ (if r j i then a i j else view s j i)

  pub for_from-Copies :
      (n lo : ℕ) (f : ℕ → S → S) (r : ℕ → ℕ → ℕ → Bool)
      → ((k : ℕ) → Copies (f k) (r k))
      → Copies (for_from n lo f) (λ j i. some_from n lo (λ k. r k j i))
  unfolding for_from some_from
  for_from-Copies zero lo f r h s j i = refl
  for_from-Copies (suc n) lo f r h s j i =
      for_from-Copies n (suc lo) f r h (f lo s) j i
      ∙ ap (λ v. if some_from n (suc lo) (λ k. r k j i) then a i j else v) (h lo s j i)
      ∙ merge (r lo j i) (some_from n (suc lo) (λ k. r k j i)) (a i j) (view s j i)

  pub Copies-region :
      (f : S → S) (r r' : ℕ → ℕ → Bool) → ((j i : ℕ) → r j i ≡ r' j i) → Copies f r → Copies f r'
  Copies-region f r r' e h s j i = rw⁻¹ (e j i) (h s j i)
