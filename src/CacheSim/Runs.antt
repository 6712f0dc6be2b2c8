-- ===== src/CacheSim/Runs.antt =====
-- Whole traces of Lab3/csim.c against least-recently-used lists, one for each set.
use model_lib.Prelude.{
  ℕ, zero, suc, ◌+◌, ◌*◌, ◌%◌, ltb, true, ◌/◌, ◌^◌, ◌<◌, ◌≡◌, refl, ap, ◌∙◌, Option, none, some,
  List, [], ◌∷◌, get_elem?, set, length, replicate, length-set, length-replicate, arith,
}
use native.Mathlib.Nat.{mod-lt}
use model_lib.CacheSim.{
  CacheSet, Cache, Stats, Mode, Effect, access, init_set, make_cache, init_cache, count, load_row,
  access_row, load_address, set_index, tag_of, load_at, run_trace,
}
use model_lib.CacheSim.Lru.{
  Blocks, Agrees, Shows, ShowsOne, use_block, access-Agrees, access-Agrees_direct, init_set-Shows,
}

abbrev or_empty : Option Blocks → Blocks
or_empty none = []
or_empty (some bs) = bs

-- The set and the tag of an address.
abbrev pub home : ℕ → ℕ → ℕ → ℕ
home s b addr = addr / 2 ^ b % 2 ^ s

abbrev pub block_of : ℕ → ℕ → ℕ → ℕ
block_of s b addr = addr / 2 ^ (s + b) * 2 ^ (s + b)

-- The specification of a trace: each access uses its block in the list of its set, and is counted.
unfoldable pub use_blocks : ℕ → ℕ → ℕ → List (Mode × ℕ) → List Blocks → Stats → List Blocks × Stats
use_blocks ways s b [] rows st = (rows, st)
use_blocks ways s b ((mode, addr) ∷ rest) rows st =
    let i = home s b addr in
    let (bs, e) = use_block ways (block_of s b addr) mode (or_empty (get_elem? rows i)) in
    use_blocks ways s b rest (set rows i bs) (count (2 ^ b) st e)

positive : (s : ℕ) → 0 < 2 ^ s
positive zero = omega arith
positive (suc s) = omega (arith, positive s)

in_bound : (s b addr l : ℕ) → l ≡ 2 ^ s → home s b addr < l
in_bound s b addr l e = rw e (mod-lt (addr / 2 ^ b) (positive s))

load_step :
    (c : Cache) (st : Stats) (i tag : ℕ) (mode : Mode) {row row' : CacheSet} {e : Effect}
    {block : ℕ}
    → c.block ≡ block
    → get_elem? c.rows i ≡ some row
    → access c.ways tag mode row ≡ some (row', e)
    → load_address c st i tag mode ≡ some (record c { rows = set c.rows i row' }, count block st e)
unfolding load_address load_row access_row
load_step c st i tag mode {row' = row'} {e = e} k h a =
    rw (h, a) (ap (λ n. some (record c { rows = set c.rows i row' }, count n st e)) k)

load_at-located :
    (s b : ℕ) (mode : Mode) (addr : ℕ) (c : Cache) (st : Stats)
    → s + b < 32
    → load_at c st mode (set_index s b addr) (tag_of s b addr)
      ≡ load_address c st (home s b addr) (block_of s b addr) mode
unfolding set_index tag_of load_at
load_at-located s b mode addr c st l =
    let small : ltb (s + b) 32 ≡ true = ground (arith, l) in rw small refl

run_step :
    (s b : ℕ) (mode : Mode) (addr : ℕ) (rest : List (Mode × ℕ)) (c : Cache) (st : Stats)
    {c' : Cache} {st' : Stats}
    → s + b < 32
    → load_address c st (home s b addr) (block_of s b addr) mode ≡ some (c', st')
    → run_trace s b ((mode, addr) ∷ rest) c st ≡ run_trace s b rest c' st'
unfolding run_trace
run_step s b mode addr rest c st l h = rw (load_at-located s b mode addr c st l ∙ h, run_trace) refl

use_step :
    (ways s b : ℕ) (mode : Mode) (addr : ℕ) (rest : List (Mode × ℕ)) (bss : List Blocks)
    (st : Stats) {bs bs' : Blocks} {e : Effect}
    → or_empty (get_elem? bss (home s b addr)) ≡ bs
    → use_block ways (block_of s b addr) mode bs ≡ (bs', e)
    → use_blocks ways s b ((mode, addr) ∷ rest) bss st
      ≡ use_blocks ways s b rest (set bss (home s b addr) bs') (count (2 ^ b) st e)
unfolding use_blocks
use_step ways s b mode addr rest bss st h u = rw (h, u) refl

module _ (Shows : CacheSet → Blocks → Type 0) where
  pub data AllShow : List CacheSet → List Blocks → Type 0 where
    no_rows : AllShow [] []
    rows :
        {row : CacheSet} {bs : Blocks} {rs : List CacheSet} {bss : List Blocks}
        → Shows row bs
        → AllShow rs bss
        → AllShow (row ∷ rs) (bs ∷ bss)

  replicate-AllShow :
      (n : ℕ) {row : CacheSet} {bs : Blocks}
      → Shows row bs
      → AllShow (replicate n row) (replicate n bs)
  replicate-AllShow zero h = no_rows
  replicate-AllShow (suc n) h = rows h (replicate-AllShow n h)

  -- A set of the cache, and the cache with another set in its place.
  record Row (rs : List CacheSet) (bss : List Blocks) (i : ℕ) : Type 0 where
    row : CacheSet
    blocks : Blocks
    here : get_elem? rs i ≡ some row
    there : or_empty (get_elem? bss i) ≡ blocks
    shows : Shows row blocks
    replaced :
        (row' : CacheSet) (bs' : Blocks) → Shows row' bs' → AllShow (set rs i row') (set bss i bs')

  find-Row :
      (rs : List CacheSet) (bss : List Blocks) (i : ℕ)
      → AllShow rs bss
      → i < length rs
      → Row rs bss i
  find-Row [] bss i a h = absurd (omega (arith, h))
  find-Row (row ∷ rs) [] i a lt = elim a [ ]
  find-Row (row ∷ rs) (bs ∷ bss) zero (rows h a) lt = record {
    row = row;
    blocks = bs;
    here = refl;
    there = refl;
    shows = h;
    replaced = λ r b k. rows k a;
  }
  find-Row (row ∷ rs) (bs ∷ bss) (suc i) (rows h a) lt =
      (let f = find-Row rs bss i a (omega (arith, lt)) in
        record {
          row = f.row;
          blocks = f.blocks;
          here = f.here;
          there = f.there;
          shows = f.shows;
          replaced = λ r b k. rows h (f.replaced r b k);
        })

  pub record Simulated (o : Option (Cache × Stats)) (spec : List Blocks × Stats) : Type 0 where
    pub cache' : Cache
    pub runs : o ≡ some (cache', spec.1)
    pub shown : AllShow cache'.rows spec.0

  module _ (ways : ℕ)
      (agrees : (tag : ℕ) (mode : Mode) (row : CacheSet) (bs : Blocks)
        → Shows row bs
        → Agrees Shows ways tag mode row bs) where
    simulate :
        (s b : ℕ) (trace : List (Mode × ℕ)) (c : Cache) (bss : List Blocks) (st : Stats)
        → s + b < 32
        → c.ways ≡ ways
        → c.block ≡ 2 ^ b
        → length c.rows ≡ 2 ^ s
        → AllShow c.rows bss
        → Simulated (run_trace s b trace c st) (use_blocks ways s b trace bss st)
    unfolding run_trace use_blocks
    simulate s b [] c bss st sb w k l a = record { cache' = c; runs = refl; shown = a }
    simulate s b ((mode, addr) ∷ rest) c bss st sb w k l a =
        (let i = home s b addr in
          let f = find-Row c.rows bss i a (in_bound s b addr (length c.rows) l) in
          let g = agrees (block_of s b addr) mode f.row f.blocks f.shows in
          let hit : access c.ways (block_of s b addr) mode f.row ≡ some (g.row', g.effect) =
            rw w g.code in
          rw
            (
              run_step s b mode addr rest c st sb
                  (load_step c st i (block_of s b addr) mode k f.here hit),
              use_step ways s b mode addr rest bss st f.there g.spec,
            )
            (simulate s b rest (record c { rows = set c.rows i g.row' }) (set bss i g.blocks')
              (count (2 ^ b) st g.effect) sb w k (length-set c.rows i g.row' ∙ l)
              (f.replaced g.row' g.blocks' g.shows)))

    simulate_new :
        (s b : ℕ) (trace : List (Mode × ℕ)) (st : Stats)
        → s + b < 32
        → Shows (init_set ways) []
        → Simulated
            (run_trace s b trace (make_cache (2 ^ s) ways (2 ^ b)) st)
            (use_blocks ways s b trace (replicate (2 ^ s) []) st)
    unfolding make_cache
    simulate_new s b trace st sb h =
        simulate s b trace (make_cache (2 ^ s) ways (2 ^ b)) (replicate (2 ^ s) []) st sb refl refl
          (length-replicate (2 ^ s) (init_set ways)) (replicate-AllShow (2 ^ s) h)

init_cache-make :
    (s ways b : ℕ) → s < 31 → b < 31 → init_cache s ways b ≡ some (make_cache (2 ^ s) ways (2 ^ b))
unfolding init_cache
init_cache-make s ways b ls lb =
    let ts : ltb s 31 ≡ true = ground (arith, ls) in
    let tb : ltb b 31 ≡ true = ground (arith, lb) in rw (ts, tb) refl

-- For `s` and `b` below 31 whose sum is below 32, so that the shifts of `int` are defined: on a new
-- cache of two ways every trace runs to its end within the bounds of the arrays; the counters are
-- those of least-recently-used lists of two blocks, one for each set, and the sets then show these
-- lists.
pub run_trace-Simulated :
    (s b : ℕ) (trace : List (Mode × ℕ)) (st : Stats)
    → s < 31
    → b < 31
    → s + b < 32
    → (c : Cache) × (init_cache s 2 b ≡ some c)
      × Simulated Shows
          (run_trace s b trace c st)
          (use_blocks 2 s b trace (replicate (2 ^ s) []) st)
run_trace-Simulated s b trace st ls lb lt = (
  make_cache (2 ^ s) 2 (2 ^ b),
  init_cache-make s 2 b ls lb,
  simulate_new Shows 2 (λ tag mode row bs h. access-Agrees tag mode h) s b trace st lt
      init_set-Shows.0,
)

-- On a new direct-mapped cache every trace runs to its end within the bounds of the arrays: the
-- counters are those of lists of at most one block, one for each set, and the sets then show these
-- lists.
pub run_trace-Simulated_direct :
    (s b : ℕ) (trace : List (Mode × ℕ)) (st : Stats)
    → s < 31
    → b < 31
    → s + b < 32
    → (c : Cache) × (init_cache s 1 b ≡ some c)
      × Simulated ShowsOne
          (run_trace s b trace c st)
          (use_blocks 1 s b trace (replicate (2 ^ s) []) st)
run_trace-Simulated_direct s b trace st ls lb lt = (
  make_cache (2 ^ s) 1 (2 ^ b),
  init_cache-make s 1 b ls lb,
  simulate_new ShowsOne 1 (λ tag mode row bs h. access-Agrees_direct tag mode h) s b trace st lt
      init_set-Shows.1,
)
