-- ===== src/Tests/Transpose.antt =====
-- Runs of the transposes of Lab3/trans.c.
use model_lib.Prelude.{ℕ, ◌+◌, ◌*◌, ◌≡◌, true, ◌==◌, arith}
use model_lib.Transpose.{Matrix, transpose_submit}
use model_lib.Transpose.Correct.{Transposes, transpose_submit-Transposes}

abbrev source : Matrix ℕ
source i j = 100 * i + j

abbrev zeros : Matrix ℕ
zeros j i = 0

same : (x : ℕ) → (x == x) ≡ true
same x = ground arith

transpose_submit-Transposes_example :
    Transposes 32 32 source zeros (transpose_submit 32 32 source zeros)
transpose_submit-Transposes_example = transpose_submit-Transposes source 32 32 zeros
