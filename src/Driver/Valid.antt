-- ===== src/Driver/Valid.antt =====
-- Lab5/mdriver.c: `eval_mm_valid`, which runs a trace and checks what the allocator gives. `setUBCheck` only
-- switches checks of memlib.c on and off and is left out.
use model_lib.Prelude.{
  ℕ, zero, suc, ◌==◌, if◌then◌else◌, Bool, true, false, not, ◌&&◌, ltb, Option, none, some, List,
  [], ◌∷◌,
}
use model_lib.Prelude.Int.{ℤ, pos, negsuc}
use model_lib.RangeSet.{
  DebugMode, dbg_expensive, RangeSet, Verdict, stopped, refused, accepted, add_range, remove_range,
}
use model_lib.Driver.{TraceOp, alloc, realloc, free, Allocator, Trace, put, reinit_trace}
use model_lib.Driver.Fill.{Bytes, randomize_block, check_index}

-- What the driver asks of the allocator and of memlib.c besides.
pub record Checks {ℓ} (M : Type ℓ) : Type ℓ where
  pub mm_checkheap : M → Bool
  pub mem_heap_lo : M → ℕ
  pub mem_heap_hi : M → ℕ

-- The state of the loop.
pub record Valid {ℓ} (M : Type ℓ) : Type ℓ where
  pub mem : M
  pub trace : Trace
  pub bases : ℕ → ℕ
  pub ranges : RangeSet
  pub all_check : Bool

-- A round goes on, returns false, or ends the driver.
pub data Round {ℓ} (M : Type ℓ) : Type ℓ where
  goes_on : Valid M → Round M
  fails stops : Round M

module _ {ℓ} {M : Type ℓ} (mm : Allocator M) (bytes : Bytes M) (checks : Checks M)
    (random_data : ℕ → ℕ) (maxfill : ℕ) (mode : DebugMode) where
  abbrev pub intact : M → Trace → (ℕ → ℕ) → ℤ → Bool
  intact = check_index bytes random_data maxfill mode

  -- `ranges->list` under `DBG_EXPENSIVE`.
  unfoldable pub check_list : ℕ → Valid M → Option ℕ → Bool
  check_list zero s link = true
  check_list (suc f) s none = true
  check_list (suc f) s (some q) =
      let r = s.ranges.ranges q in
      let rest = check_list f s r.next in
      if intact s.mem s.trace s.bases r.index then rest else false

  -- The region with its new data; `base` is the random number.
  unfoldable pub remember : Valid M → M → RangeSet → ℕ → ℕ → ℕ → ℕ → Bool → Valid M
  remember s m ranges index p size base ok =
      let t : Trace = record {
        blocks = put s.trace.blocks index p;
        block_sizes = put s.trace.block_sizes index size;
      } in
      let (m', bases) = randomize_block bytes random_data maxfill mode m t s.bases index base in
      record { mem = m'; trace = t; bases = bases; ranges = ranges; all_check = ok }

  -- What follows the verdict of `add_range`.
  unfoldable pub with_range : Verdict → (RangeSet → Valid M) → Round M
  with_range stopped next = stops
  with_range (refused m ranges) next = fails
  with_range (accepted ranges) next = goes_on (next ranges)

  -- `slot` is what `malloc` gives for the range.
  unfoldable pub valid_alloc : Valid M → ℕ → ℕ → Option ℕ → ℕ → Round M
  valid_alloc s index size slot base =
      let (p, m) = mm.mm_malloc s.mem size in
      let verdict =
        add_range mode (checks.mem_heap_lo m) (checks.mem_heap_hi m) slot s.ranges p size
          (pos index) in
      if p == 0
      then fails
      else with_range verdict (λ ranges. remember s m ranges index p size base s.all_check)

  unfoldable pub valid_realloc : Valid M → ℕ → ℕ → Option ℕ → ℕ → Round M
  valid_realloc s index size slot base =
      let ok = s.all_check && intact s.mem s.trace s.bases (pos index) in
      let oldp = s.trace.blocks index in
      let (newp, m) = mm.mm_realloc s.mem oldp size in
      let ranges = remove_range s.ranges oldp in
      let verdict =
        if size == 0
        then accepted ranges
        else add_range mode (checks.mem_heap_lo m) (checks.mem_heap_hi m) slot ranges newp size
            (pos index) in
      let kept = if ltb size (s.trace.block_sizes index) then size else s.trace.block_sizes index in
      let moved : Trace = record {
        blocks = put s.trace.blocks index newp;
        block_sizes = put s.trace.block_sizes index kept;
      } in
      let ok' = ok && intact m moved s.bases (pos index) in
      if (newp == 0) && not (size == 0)
      then fails
      else if not (newp == 0) && (size == 0)
      then fails
      else with_range verdict (λ ranges'. remember s m ranges' index newp size base ok')

  -- An index below -1 reads outside the arrays.
  unfoldable pub valid_free : Valid M → ℤ → Round M
  valid_free s (pos index) =
      let p = s.trace.blocks index in
      goes_on (record s {
        mem = mm.mm_free s.mem p;
        ranges = remove_range s.ranges p;
        all_check = s.all_check && intact s.mem s.trace s.bases (pos index);
      })
  valid_free s (negsuc zero) = goes_on (record s { mem = mm.mm_free s.mem 0 })
  valid_free s (negsuc (suc n)) = stops

  unfoldable pub valid_switch : Valid M → TraceOp → Option ℕ → ℕ → Round M
  valid_switch s (alloc index size) slot base = valid_alloc s index size slot base
  valid_switch s (realloc index size) slot base = valid_realloc s index size slot base
  valid_switch s (free index) slot base = valid_free s index

  -- The checks before an operation under `DBG_EXPENSIVE`; the fuel bounds the walk along the list.
  unfoldable pub check_all : ℕ → Valid M → Option (Valid M)
  check_all fuel s =
      let checked = record s { all_check = s.all_check && check_list fuel s s.ranges.list } in
      elim mode [
        | dbg_expensive ↦ if checks.mm_checkheap s.mem then some checked else none
        | _ ↦ some s
      ]

  -- Each operation with the memory for its range and its random number.
  unfoldable pub valid_loop : ℕ → Valid M → List (TraceOp × Option ℕ × ℕ) → Option Bool
  valid_loop fuel s [] = some s.all_check
  valid_loop fuel s ((op, slot, base) ∷ ops) = elim (check_all fuel s) [
    | none ↦ some false
    | some s' ↦ elim (valid_switch s' op slot base) [
      | goes_on s'' ↦ valid_loop fuel s'' ops
      | fails ↦ some false
      | stops ↦ none
    ]
  ]

  unfoldable pub eval_mm_valid :
      ℕ → M → (ℕ → ℕ) → RangeSet → List (TraceOp × Option ℕ × ℕ) → Option Bool
  eval_mm_valid fuel m bases ranges ops =
      let (ready, m') = mm.mm_init (mm.mem_reset_brk m) in
      let result =
        valid_loop fuel
          (record {
            mem = m';
            trace = reinit_trace;
            bases = bases;
            ranges = ranges;
            all_check = true;
          })
          ops in
      if ready then result else some false
