-- ===== src/Transpose.antt =====
-- Lab3/trans.c: the matrix transposes. A matrix is a function of its row and column; a value of type
-- `V` stands for a `double`. The assertions, which are off when the program is measured, are left out.
pub mod Regions
pub mod Correct
use model_lib.Prelude.{
  ℕ, zero, suc, ◌+◌, ◌*◌, ◌/◌, ◌%◌, Bool, true, false, ◌&&◌, ◌==◌, if◌then◌else◌,
}

abbrev pub Matrix {ℓ} : Type ℓ → Type ℓ
Matrix V = ℕ → ℕ → V

-- `for (k = lo; k < lo + n; k++) body`
unfoldable pub for_from {ℓ} : {S : Type ℓ} → ℕ → ℕ → (ℕ → S → S) → S → S
for_from zero lo body s = s
for_from (suc n) lo body s = for_from n (suc lo) body (body lo s)

-- `B[j][i] = x`
unfoldable pub assign {ℓ} : {V : Type ℓ} → Matrix V → ℕ → ℕ → V → Matrix V
assign b j i x j' i' = if j == j' && i == i' then x else b j' i'

-- `for (lo ≤ k < lo + n) if (!test) return false; return true`
unfoldable pub all_from : ℕ → ℕ → (ℕ → Bool) → Bool
all_from zero lo test = true
all_from (suc n) lo test = let rest = all_from n (suc lo) test in if test lo then rest else false

abbrev pub tmp_count : ℕ
tmp_count = 256

module _ {ℓ} {V : Type ℓ} where
  unfoldable pub is_transpose : (V → V → Bool) → ℕ → ℕ → Matrix V → Matrix V → Bool
  is_transpose eq m n a b = all_from n 0 (λ i. all_from m 0 (λ j. eq (a i j) (b j i)))

  unfoldable pub trans_basic : ℕ → ℕ → Matrix V → Matrix V → Matrix V
  trans_basic m n a = for_from n 0 (λ i. for_from m 0 (λ j b. assign b j i (a i j)))

  abbrev pub set_tmp : (ℕ → V) → ℕ → V → ℕ → V
  set_tmp tmp k x l = if k == l then x else tmp l

  -- The body of the loops of `trans_tmp`.
  unfoldable pub through_tmp : Matrix V → ℕ → ℕ → Matrix V × (ℕ → V) → Matrix V × (ℕ → V)
  through_tmp a i j (b, tmp) =
      let di = i % 2 in
      let dj = j % 2 in
      let tmp1 = set_tmp tmp (i % tmp_count) (a i j) in
      let b1 = assign b j i (tmp1 (i % tmp_count)) in
      let tmp2 = set_tmp tmp1 (2 * di + dj) (a i j) in (assign b1 j i (tmp2 (2 * di + dj)), tmp2)

  unfoldable pub trans_tmp : ℕ → ℕ → Matrix V → Matrix V × (ℕ → V) → Matrix V × (ℕ → V)
  trans_tmp m n a = for_from n 0 (λ i. for_from m 0 (λ j. through_tmp a i j))

  -- The four loops over `q` times `q` blocks of `w` times `w` entries.
  unfoldable pub trans_blocks : ℕ → ℕ → Matrix V → Matrix V → Matrix V
  trans_blocks q w a = for_from q 0 (λ ii.
      for_from q 0
        (λ jj. for_from w (w * ii) (λ i. for_from w (w * jj) (λ j b. assign b j i (a i j)))))

  unfoldable pub transpose_submit : ℕ → ℕ → Matrix V → Matrix V → Matrix V
  transpose_submit m n a b =
      if m == 32 && n == 32
      then trans_blocks (m / 8) (m / 4) a b
      else if m == 1024 && n == 1024
      then trans_blocks (m / 8) (m / 128) a b
      else trans_basic m n a b
