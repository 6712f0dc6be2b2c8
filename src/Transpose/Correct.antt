-- ===== src/Transpose/Correct.antt =====
-- The transposes of Lab3/trans.c, for every size of the matrix.
use model_lib.Prelude.{
  ℕ, zero, suc, ◌+◌, ◌*◌, ◌/◌, ◌%◌, ◌<◌, ◌≡◌, refl, sym, ap, ◌∙◌, Bool, true, false, ◌&&◌, ◌==◌,
  ltb, if◌then◌else◌, arith, Bool-cases, inl, inr,
}
use model_lib.Transpose.{
  Matrix, assign, trans_basic, trans_tmp, through_tmp, set_tmp, tmp_count, trans_blocks,
  transpose_submit, all_from, is_transpose,
}
use model_lib.Transpose.Regions.{
  some_from, some_from-intro, some_from-elim, Copies, for_from-Copies, Copies-region,
}

-- What a transpose does to `B`: the entries of the transpose of `A`, which has `n` rows and `m` columns,
-- and every other entry as it was.
abbrev pub Transposes {ℓ} : {V : Type ℓ} → ℕ → ℕ → Matrix V → Matrix V → Matrix V → Type ℓ
Transposes m n a b b' = (j i : ℕ) → b' j i ≡ (if ltb j m && ltb i n then a i j else b j i)

-- The entry in column `i` and row `j` alone.
abbrev at : ℕ → ℕ → ℕ → ℕ → Bool
at j i j' i' = j == j' && i == i'

at_row : (l k j i : ℕ) → at l k j i ≡ true → l ≡ j
at_row l k j i e = ground arith

at_column : (l k j i : ℕ) → at l k j i ≡ true → k ≡ i
at_column l k j i e = ground arith

at_self : (j i : ℕ) → at j i j i ≡ true
at_self j i = ground arith

below : (j m i n : ℕ) → j < m → i < n → (ltb j m && ltb i n) ≡ true
below j m i n a b = ground arith

row_below : (j m i n : ℕ) → (ltb j m && ltb i n) ≡ true → j < m
row_below j m i n e = ground arith

column_below : (j m i n : ℕ) → (ltb j m && ltb i n) ≡ true → i < n
column_below j m i n e = ground arith

first_size : (m n k : ℕ) → (m == k && n == k) ≡ true → m ≡ k
first_size m n k e = ground arith

second_size : (m n k : ℕ) → (m == k && n == k) ≡ true → n ≡ k
second_size m n k e = ground arith

bool_ext : (p q : Bool) → (p ≡ true → q ≡ true) → (q ≡ true → p ≡ true) → p ≡ q
bool_ext true true f g = refl
bool_ext true false f g = sym (f refl)
bool_ext false true f g = g refl
bool_ext false false f g = refl

set_here {ℓ} : {V : Type ℓ} (tmp : ℕ → V) (k : ℕ) (x : V) → set_tmp tmp k x k ≡ x
set_here tmp k x = rw (same k)
  where
    same : (k : ℕ) → (k == k) ≡ true
    same k = ground arith

module _ {ℓ} {V : Type ℓ} (a : Matrix V) where
  same_entry : (j i j' i' : ℕ) → at j i j' i' ≡ true → a i j ≡ a i' j'
  same_entry j i j' i' e =
      ap (λ r. a i r) (at_row j i j' i' e) ∙ ap (λ c. a c j') (at_column j i j' i' e)

  assign-Copies : (i j : ℕ) → Copies a (λ b. b) (λ b. assign b j i (a i j)) (at j i)
  unfolding assign
  assign-Copies i j b j' i' = elim (Bool-cases (at j i j' i')) [
    | inl here ↦ rw here (same_entry j i j' i' here)
    | inr other ↦ rw other refl
  ]

  assign_twice :
      (b : Matrix V) (i j : ℕ) (x y : V)
      → x ≡ a i j
      → y ≡ a i j
      → (j' i' : ℕ)
      → assign (assign b j i x) j i y j' i' ≡ (if at j i j' i' then a i' j' else b j' i')
  unfolding assign
  assign_twice b i j x y p q j' i' = elim (Bool-cases (at j i j' i')) [
    | inl here ↦ rw here (q ∙ same_entry j i j' i' here)
    | inr other ↦ rw other refl
  ]

  through_tmp-Copies : (i j : ℕ) → Copies a (λ s. s.0) (through_tmp a i j) (at j i)
  unfolding through_tmp
  through_tmp-Copies i j (b, tmp) j' i' =
      assign_twice b i j _ _ (set_here tmp (i % tmp_count) (a i j))
        (set_here (set_tmp tmp (i % tmp_count) (a i j)) (2 * (i % 2) + j % 2) (a i j)) j' i'

rows-region :
    (m n j i : ℕ) → some_from n 0 (λ i'. some_from m 0 (λ j'. at j' i' j i)) ≡ (ltb j m && ltb i n)
rows-region m n j i =
    bool_ext _ _
      (λ e.
        (let (k, _, hi, f) = some_from-elim n 0 _ e in
          let (l, _, hi', g) = some_from-elim m 0 _ f in
          below j m i n (omega (arith, hi', at_row l k j i g))
            (omega (arith, hi, at_column l k j i g))))
      (λ e.
        some_from-intro n 0 _ i (omega arith) (omega (arith, column_below j m i n e)) (
          some_from-intro m 0 _ j (omega arith) (omega (arith, row_below j m i n e)) (at_self j i)))

blocks-region :
    (q j i : ℕ)
    → some_from q 0 (λ ii.
      some_from q 0 (λ jj. some_from 8 (8 * ii) (λ i'. some_from 8 (8 * jj) (λ j'. at j' i' j i))))
      ≡ (ltb j (8 * q) && ltb i (8 * q))
blocks-region q j i =
    bool_ext _ _
      (λ e.
        (let (ii, _, hi1, f) = some_from-elim q 0 _ e in
          let (jj, _, hi2, g) = some_from-elim q 0 _ f in
          let (k, _, hi3, h) = some_from-elim 8 (8 * ii) _ g in
          let (l, _, hi4, w) = some_from-elim 8 (8 * jj) _ h in
          below j (8 * q) i (8 * q) (omega (arith, hi2, hi4, at_row l k j i w))
            (omega (arith, hi1, hi3, at_column l k j i w))))
      (λ e.
        (let a = column_below j (8 * q) i (8 * q) e in
          let b = row_below j (8 * q) i (8 * q) e in
          some_from-intro q 0 _ (i / 8) (omega arith) (omega (arith, a)) (
            some_from-intro q 0 _ (j / 8) (omega arith) (omega (arith, b)) (
              some_from-intro 8 (8 * (i / 8)) _ i (omega arith) (omega arith)
                (some_from-intro 8 (8 * (j / 8)) _ j (omega arith) (omega arith) (at_self j i))))))

all_from-true :
    (n lo : ℕ) (test : ℕ → Bool)
    → ((k : ℕ) → k < lo + n → test k ≡ true)
    → all_from n lo test ≡ true
unfolding all_from
all_from-true zero lo test h = refl
all_from-true (suc n) lo test h =
    rw (h lo (omega arith)) (all_from-true n (suc lo) test (λ k b. h k (omega (arith, b))))

module _ {ℓ} {V : Type ℓ} (a : Matrix V) where
  trans_basic-Transposes : (m n : ℕ) (b : Matrix V) → Transposes m n a b (trans_basic m n a b)
  unfolding trans_basic
  trans_basic-Transposes m n b =
      Copies-region a (λ b. b) _ _ (λ j i. ltb j m && ltb i n) (rows-region m n)
        (for_from-Copies a (λ b. b) n 0 _ _
          (λ i. for_from-Copies a (λ b. b) m 0 _ _ (λ j. assign-Copies a i j)))
        b

  trans_blocks-Transposes :
      (q : ℕ) (b : Matrix V) → Transposes (8 * q) (8 * q) a b (trans_blocks q 8 a b)
  unfolding trans_blocks
  trans_blocks-Transposes q b =
      Copies-region a (λ b. b) _ _ (λ j i. ltb j (8 * q) && ltb i (8 * q)) (blocks-region q)
        (for_from-Copies a (λ b. b) q 0 _ _
          (λ ii.
            for_from-Copies a (λ b. b) q 0 _ _
              (λ jj.
                for_from-Copies a (λ b. b) 8 (8 * ii) _ _
                  (λ i. for_from-Copies a (λ b. b) 8 (8 * jj) _ _ (λ j. assign-Copies a i j)))))
        b

  -- For matrices of every size, those of 32 and 1024 rows and columns included, `transpose_submit`
  -- writes the transpose of `A` to `B` and nothing outside it.
  pub transpose_submit-Transposes :
      (m n : ℕ) (b : Matrix V) → Transposes m n a b (transpose_submit m n a b)
  unfolding transpose_submit
  transpose_submit-Transposes m n b = elim (Bool-cases (m == 32 && n == 32)) [
    | inl small ↦
        rw (first_size m n 32 small, second_size m n 32 small) (trans_blocks-Transposes 4 b)
    | inr other ↦ elim (Bool-cases (m == 1024 && n == 1024)) [
      | inl large ↦
          rw (first_size m n 1024 large, second_size m n 1024 large) (trans_blocks-Transposes 128 b)
      | inr rest ↦ rw (other, rest) (trans_basic-Transposes m n b)
    ]
  ]

  -- `trans_tmp` writes the transpose of `A` to `B` and nothing outside it, whatever its temporary
  -- array holds.
  pub trans_tmp-Transposes :
      (m n : ℕ) (b : Matrix V) (tmp : ℕ → V) → Transposes m n a b (trans_tmp m n a (b, tmp)).0
  unfolding trans_tmp
  trans_tmp-Transposes m n b tmp =
      Copies-region a (λ s. s.0) (trans_tmp m n a) _ (λ j i. ltb j m && ltb i n) (rows-region m n)
        (for_from-Copies a (λ s. s.0) n 0 _ _
          (λ i. for_from-Copies a (λ s. s.0) m 0 _ _ (λ j. through_tmp-Copies a i j)))
        (b, tmp)

  -- If the comparison of values accepts equal ones, `is_transpose` accepts what `transpose_submit`
  -- writes.
  pub is_transpose-transpose_submit :
      (eq : V → V → Bool)
      → ((x : V) → eq x x ≡ true)
      → (m n : ℕ) (b : Matrix V) → is_transpose eq m n a (transpose_submit m n a b) ≡ true
  unfolding is_transpose
  is_transpose-transpose_submit eq same m n b = all_from-true n 0 _ (λ i hi.
      all_from-true m 0 _ (λ j hj.
        rw
          (
            transpose_submit-Transposes m n b j i,
            below j m i n (omega (arith, hj)) (omega (arith, hi)),
          )
          (same (a i j))))
