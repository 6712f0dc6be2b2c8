-- ===== src/Driver/Peak.antt =====
-- Lab5/mdriver.c: the high-water mark of `eval_mm_util` is the peak of the bytes that are allocated at one time.
use model_lib.Prelude.{
  ℕ, zero, suc, ◌&&◌, not, ◌+◌, ◌-◌, ◌%◌, ◌^◌, ◌<◌, ◌≡◌, ◌≢◌, refl, ◌∙◌, ap, none, some, List, [],
  ◌∷◌, ◌==◌, if◌then◌else◌, inl, inr, arith, true, false, ltb, Bool-cases,
}
use model_lib.Prelude.Int.{ℤ, pos, negsuc}
use model_lib.SplayTree.Sorted.{lookup, erase}
use model_lib.Driver.{
  TraceOp, alloc, realloc, free, Allocator, put, reinit_trace, Util, util_alloc, util_realloc,
  util_free, util_switch, raise_mark, util_loop, eval_mm_util,
}

abbrev Live : Type 0
Live = List (ℕ × ℕ)

-- The bytes of the blocks that are allocated: pairs of an index and a size.
abbrev pub total : Live → ℕ
total [] = 0
total (e ∷ es) = e.1 + total es

abbrev pub after : TraceOp → Live → Live
after (alloc i size) es = (i, size) ∷ es
after (realloc i size) es = (i, size) ∷ erase i es
after (free (pos i)) es = erase i es
after (free (negsuc n)) es = es

abbrev pub larger : ℕ → ℕ → ℕ
larger m n = if ltb m n then n else m

-- The greatest total so far, over the rest of the trace.
abbrev pub peak : ℕ → Live → List TraceOp → ℕ
peak m es [] = m
peak m es (op ∷ ops) = peak (larger m (total (after op es))) (after op es) ops

-- What an operation of a trace may do: allocate an index that is not in use, and reallocate or free one that is; the
-- sizes do not overflow.
abbrev pub May : TraceOp → Live → Type 0
May (alloc i size) es = (lookup i es ≡ none) × (total es + size < 2 ^ 64)
May (realloc i size) es = ((old : ℕ) × (lookup i es ≡ some old)) × (total es + size < 2 ^ 64)
May (free (pos i)) es = (old : ℕ) × (lookup i es ≡ some old)
May (free (negsuc n)) es = Unit

abbrev pub IsTrace : Live → List TraceOp → Type 0
IsTrace es [] = Unit
IsTrace es (op ∷ ops) = May op es × IsTrace (after op es) ops

abbrev Unique : Live → Type 0
Unique [] = Unit
Unique (e ∷ es) = (lookup e.0 es ≡ none) × Unique es

abbrev KeepsSizes : (ℕ → ℕ) → Live → Type 0
KeepsSizes f [] = Unit
KeepsSizes f (e ∷ es) = (f e.0 ≡ e.1) × KeepsSizes f es

lookup-skip :
    (i : ℕ) (e : ℕ × ℕ) (es : Live) → lookup i (e ∷ es) ≡ none → (i ≢ e.0) × (lookup i es ≡ none)
lookup-skip i e es h = elim (Bool-cases (i == e.0)) [
  | inl hit ↦ (ground (arith, hit, h), ground (arith, hit, h))
  | inr miss ↦ (λ k. ground (arith, miss, k), ground (arith, miss, h))
]

KeepsSizes-put :
    (f : ℕ → ℕ) (i v : ℕ) (es : Live)
    → lookup i es ≡ none
    → KeepsSizes f es
    → KeepsSizes (put f i v) es
KeepsSizes-put f i v [] h k = tt
KeepsSizes-put f i v (e ∷ es) h k =
    let s = lookup-skip i e es h in (ground (arith, s.0, k.0), KeepsSizes-put f i v es s.1 k.1)

KeepsSizes-lookup :
    (f : ℕ → ℕ) (i old : ℕ) (es : Live)
    → lookup i es ≡ some old
    → KeepsSizes f es
    → (f i ≡ old) × (total es ≡ old + total (erase i es))
KeepsSizes-lookup f i old [] h k = (ground (arith, h), ground (arith, h))
KeepsSizes-lookup f i old (e ∷ es) h k = elim (Bool-cases (i == e.0)) [
  | inl hit ↦ ground (arith, hit, h, k.0)
  | inr miss ↦
      (let r = KeepsSizes-lookup f i old es (ground (arith, miss, h)) k.1 in
        (r.0, rw miss (omega (arith, r.1))))
]

lookup-erase_self : (i : ℕ) (es : Live) → Unique es → lookup i (erase i es) ≡ none
lookup-erase_self i [] u = refl
lookup-erase_self i (e ∷ es) u = ground (arith, lookup-erase_self i es u.1, u.0)

lookup-erase-none : (i j : ℕ) (es : Live) → lookup j es ≡ none → lookup j (erase i es) ≡ none
lookup-erase-none i j [] h = refl
lookup-erase-none i j (e ∷ es) h =
    let s = lookup-skip j e es h in ground (arith, s.0, s.1, lookup-erase-none i j es s.1)

Unique-erase : (i : ℕ) (es : Live) → Unique es → Unique (erase i es)
Unique-erase i [] u = tt
Unique-erase i (e ∷ es) u = elim (Bool-cases (i == e.0)) [
  | inl hit ↦ rw hit u.1
  | inr miss ↦ rw miss (lookup-erase-none i e.0 es u.0, Unique-erase i es u.1)
]

KeepsSizes-erase : (f : ℕ → ℕ) (i : ℕ) (es : Live) → KeepsSizes f es → KeepsSizes f (erase i es)
KeepsSizes-erase f i [] k = tt
KeepsSizes-erase f i (e ∷ es) k = elim (Bool-cases (i == e.0)) [
  | inl hit ↦ rw hit k.1
  | inr miss ↦ rw miss (k.0, KeepsSizes-erase f i es k.1)
]

pub put_self : (f : ℕ → ℕ) (i v : ℕ) → put f i v i ≡ v
put_self f i v = ground arith

no_failure : (newp size : ℕ) → (size ≢ 0 → newp ≢ 0) → ((newp == 0) && not (size == 0)) ≡ false
no_failure newp zero h = ground arith
no_failure newp (suc size) h =
    let ne : newp ≢ 0 = h (λ e. absurd (omega (arith, e))) in ground (arith, ne)

module _ {ℓ κ} {M : Type ℓ} (mm : Allocator M) (Can : M → List TraceOp → Type κ) where
  -- The counters and the sizes are those of the blocks that are allocated.
  abbrev Counts : Util M → Live → Type 0
  Counts u es =
      (u.total_size ≡ total es)
      × (total es < 2 ^ 64)
      × Unique es
      × KeepsSizes u.trace.block_sizes es

  -- What an allocator keeps while it serves a trace: `Can m ops` says that from the memory `m` on it has a payload
  -- for every request of `ops`. A reallocation to no bytes may give NULL.
  pub record Serves : Type (ℓ ⊔ κ) where
    pub allocates :
        (m : M) (i size : ℕ) (ops : List TraceOp)
        → Can m (alloc i size ∷ ops)
        → ((mm.mm_malloc m size).0 ≢ 0) × Can (mm.mm_malloc m size).1 ops
    pub reallocates :
        (m : M) (p i size : ℕ) (ops : List TraceOp)
        → Can m (realloc i size ∷ ops)
        → (size ≢ 0 → (mm.mm_realloc m p size).0 ≢ 0) × Can (mm.mm_realloc m p size).1 ops
    pub frees :
        (m : M) (p : ℕ) (i : ℤ) (ops : List TraceOp)
        → Can m (free i ∷ ops)
        → Can (mm.mm_free m p) ops

  switch-Counts :
      (u : Util M) (op : TraceOp) (es : Live) (ops : List TraceOp)
      → Serves
      → Can u.mem (op ∷ ops)
      → Counts u es
      → May op es
      → (u' : Util M) × (util_switch mm u op ≡ some u')
        × Can u'.mem ops
        × (u'.max_total_size ≡ u.max_total_size)
        × Counts u' (after op es)
  unfolding util_switch util_alloc util_realloc util_free
  switch-Counts u (alloc i size) es ops s k c m =
      let served = s.allocates u.mem i size ops k in
      let test : ((mm.mm_malloc u.mem size).0 == 0) ≡ false = ground (arith, served.0) in
      (
        record u {
          mem = (mm.mm_malloc u.mem size).1;
          trace = record {
            blocks = put u.trace.blocks i (mm.mm_malloc u.mem size).0;
            block_sizes = put u.trace.block_sizes i size;
          };
          total_size = (u.total_size + size) % 2 ^ 64;
        },
        rw test refl,
        served.1,
        refl,
        (
          omega (arith, c.0, m.1),
          omega (arith, m.1),
          (m.0, c.2),
          (
            put_self u.trace.block_sizes i size,
            KeepsSizes-put u.trace.block_sizes i size es m.0 c.3,
          ),
        ),
      )
  switch-Counts u (realloc i size) es ops s k c m =
      let newp = (mm.mm_realloc u.mem (u.trace.blocks i) size).0 in
      let served = s.reallocates u.mem (u.trace.blocks i) i size ops k in
      let test : ((newp == 0) && not (size == 0)) ≡ false = no_failure newp size served.0 in
      let old = KeepsSizes-lookup u.trace.block_sizes i m.0.0 es m.0.1 c.3 in
      let gone = lookup-erase_self i es c.2 in
      (
        record u {
          mem = (mm.mm_realloc u.mem (u.trace.blocks i) size).1;
          trace = record {
            blocks = put u.trace.blocks i (mm.mm_realloc u.mem (u.trace.blocks i) size).0;
            block_sizes = put u.trace.block_sizes i size;
          };
          total_size = (u.total_size + (size + 2 ^ 64 - u.trace.block_sizes i) % 2 ^ 64) % 2 ^ 64;
        },
        rw test refl,
        served.1,
        refl,
        (
          omega (arith, c.0, c.1, old.0, old.1, m.1),
          omega (arith, m.1, old.1),
          (gone, Unique-erase i es c.2),
          (
            put_self u.trace.block_sizes i size,
            KeepsSizes-put u.trace.block_sizes i size (erase i es) gone
                (KeepsSizes-erase u.trace.block_sizes i es c.3),
          ),
        ),
      )
  switch-Counts u (free (pos i)) es ops s k c m =
      let old = KeepsSizes-lookup u.trace.block_sizes i m.0 es m.1 c.3 in
      (
        util_free mm u (pos i),
        refl,
        s.frees u.mem (u.trace.blocks i) (pos i) ops k,
        refl,
        (
          omega (arith, c.0, c.1, old.0, old.1),
          omega (arith, c.1, old.1),
          Unique-erase i es c.2,
          KeepsSizes-erase u.trace.block_sizes i es c.3,
        ),
      )
  switch-Counts u (free (negsuc n)) es ops s k c m = (
    util_free mm u (negsuc n),
    refl,
    s.frees u.mem 0 (negsuc n) ops k,
    refl,
    (omega (arith, c.0, c.1), c.1, c.2, c.3),
  )

  util_loop-step :
      (u u' : Util M) (op : TraceOp) (ops : List TraceOp)
      → util_switch mm u op ≡ some u'
      → util_loop mm u (op ∷ ops) ≡ util_loop mm (raise_mark u') ops
  unfolding util_loop
  util_loop-step u u' op ops h = rw (h, util_loop) refl

  loop-peak :
      (u : Util M) (ops : List TraceOp) (es : Live)
      → Serves
      → Can u.mem ops
      → Counts u es
      → IsTrace es ops
      → (u' : Util M) × (util_loop mm u ops ≡ some u')
        × (u'.max_total_size ≡ peak u.max_total_size es ops)
        × Can u'.mem []
  unfolding util_loop
  loop-peak u [] es s k c t = (u, refl, refl, k)
  loop-peak u (op ∷ ops) es s k c t =
      let (u1, run, k1, mark, c1) = switch-Counts u op es ops s k c t.0 in
      let (u2, run', top, done) = loop-peak (raise_mark u1) ops (after op es) s k1 c1 t.1 in
      (
        u2,
        util_loop-step u u1 op ops run ∙ run',
        top
            ∙ ap (λ m. peak (larger m u1.total_size) (after op es) ops) mark
            ∙ ap (λ n. peak (larger u.max_total_size n) (after op es) ops) c1.0,
        done,
      )

  -- An allocator that is ready and can serve the trace does so, and the high-water mark of `eval_mm_util` is the peak
  -- of the bytes that are allocated at one time.
  pub eval_mm_util-peak :
      (mem : M) (ops : List TraceOp)
      → Serves
      → (mm.mm_init (mm.mem_reset_brk mem)).0 ≡ true
      → Can (mm.mm_init (mm.mem_reset_brk mem)).1 ops
      → IsTrace [] ops
      → (m : M) × (eval_mm_util mm mem ops ≡ some (peak 0 [] ops, mm.mem_heapsize m)) × Can m []
  unfolding eval_mm_util
  eval_mm_util-peak mem ops s ready k t =
      let mem' = (mm.mm_init (mm.mem_reset_brk mem)).1 in
      let start : Util M = record {
        mem = mem';
        trace = reinit_trace;
        total_size = 0;
        max_total_size = 0;
      } in
      let (u, run, top, done) = loop-peak start ops [] s k (refl, omega arith, tt, tt) t in
      (u.mem, rw (ready, run) (ap (λ (m : ℕ). some (m, mm.mem_heapsize u.mem)) top), done)
