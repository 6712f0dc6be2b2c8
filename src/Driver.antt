-- ===== src/Driver.antt =====
-- Lab5/mdriver.c: the traces of requests, and `eval_mm_util`. The allocator under test is a parameter. The arrays
-- of a trace are functions of the index: `read_trace` asserts that the indices of `ALLOC` and `REALLOC` are in range.
pub mod Peak
pub mod Fill
pub mod Valid
pub mod Accepts
use model_lib.Prelude.{
  ℕ, zero, suc, ◌+◌, ◌-◌, ◌%◌, ◌^◌, Bool, true, false, not, ◌&&◌, Option, none, some, List, [], ◌∷◌,
  ltb, ◌==◌, if◌then◌else◌,
}
use model_lib.Prelude.Int.{ℤ, pos, negsuc}

-- `traceop_t`
pub data TraceOp : Type 0 where
  alloc realloc : (index size : ℕ) → TraceOp
  free : ℤ → TraceOp

-- The functions of the allocator on its memory; 0 is NULL.
pub record Allocator {ℓ} (M : Type ℓ) : Type ℓ where
  pub mem_reset_brk : M → M
  pub mm_init : M → Bool × M
  pub mm_malloc : M → ℕ → ℕ × M
  pub mm_realloc : M → ℕ → ℕ → ℕ × M
  pub mm_free : M → ℕ → M
  pub mem_heapsize : M → ℕ

-- The arrays `blocks` and `block_sizes` of `trace_t`.
pub record Trace : Type 0 where
  pub blocks : ℕ → ℕ
  pub block_sizes : ℕ → ℕ

abbrev pub put : (ℕ → ℕ) → ℕ → ℕ → ℕ → ℕ
put f i v j = if j == i then v else f j

unfoldable pub reinit_trace : Trace
reinit_trace = record { blocks = λ i. 0; block_sizes = λ i. 0 }

-- The local variables of `eval_mm_util`.
pub record Util {ℓ} (M : Type ℓ) : Type ℓ where
  pub mem : M
  pub trace : Trace
  pub total_size : ℕ
  pub max_total_size : ℕ

-- The high-water mark after an operation.
abbrev pub raise_mark {ℓ} : {M : Type ℓ} → Util M → Util M
raise_mark u = record u {
  max_total_size = if ltb u.max_total_size u.total_size then u.total_size else u.max_total_size;
}

module _ {ℓ} {M : Type ℓ} (mm : Allocator M) where
  -- The cases of the `switch`; `none` is `app_error`, which ends the driver.
  unfoldable pub util_alloc : Util M → ℕ → ℕ → Option (Util M)
  util_alloc u index size =
      let (p, mem) = mm.mm_malloc u.mem size in
      if p == 0
      then none
      else some (record u {
        mem = mem;
        trace = record {
          blocks = put u.trace.blocks index p;
          block_sizes = put u.trace.block_sizes index size;
        };
        total_size = (u.total_size + size) % 2 ^ 64;
      })

  unfoldable pub util_realloc : Util M → ℕ → ℕ → Option (Util M)
  util_realloc u index newsize =
      let oldsize = u.trace.block_sizes index in
      let (newp, mem) = mm.mm_realloc u.mem (u.trace.blocks index) newsize in
      if (newp == 0) && not (newsize == 0)
      then none
      else some (record u {
        mem = mem;
        trace = record {
          blocks = put u.trace.blocks index newp;
          block_sizes = put u.trace.block_sizes index newsize;
        };
        total_size = (u.total_size + (newsize + 2 ^ 64 - oldsize) % 2 ^ 64) % 2 ^ 64;
      })

  unfoldable pub util_free : Util M → ℤ → Util M
  util_free u (pos index) = record u {
    mem = mm.mm_free u.mem (u.trace.blocks index);
    total_size = (u.total_size + 2 ^ 64 - u.trace.block_sizes index) % 2 ^ 64;
  }
  util_free u (negsuc n) = record u {
    mem = mm.mm_free u.mem 0;
    total_size = (u.total_size + 2 ^ 64 - 0) % 2 ^ 64;
  }

  unfoldable pub util_switch : Util M → TraceOp → Option (Util M)
  util_switch u (alloc index size) = util_alloc u index size
  util_switch u (realloc index size) = util_realloc u index size
  util_switch u (free index) = some (util_free u index)

  unfoldable pub util_loop : Util M → List TraceOp → Option (Util M)
  util_loop u [] = some u
  util_loop u (op ∷ ops) = elim (util_switch u op) [
    | none ↦ none
    | some u' ↦ util_loop (raise_mark u') ops
  ]

  -- The high-water mark and the size of the heap, whose ratio is the result.
  unfoldable pub eval_mm_util : M → List TraceOp → Option (ℕ × ℕ)
  eval_mm_util mem ops =
      let (ready, mem') = mm.mm_init (mm.mem_reset_brk mem) in
      let start : Util M = record {
        mem = mem';
        trace = reinit_trace;
        total_size = 0;
        max_total_size = 0;
      } in
      let result : Option (ℕ × ℕ) = elim (util_loop start ops) [
        | none ↦ none
        | some u ↦ some (u.max_total_size, mm.mem_heapsize u.mem)
      ] in
      if ready then result else none
