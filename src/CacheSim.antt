-- ===== src/CacheSim.antt =====
-- Lab3/csim.c: the cache simulator. An access is a tag within one set; `main` takes the set index and
-- the tag from the address, and counts.
pub mod Count
pub mod Lru
pub mod Stuck
pub mod Runs
use model_lib.Prelude.{
  ℕ, zero, suc, ◌+◌, ◌*◌, ◌/◌, ◌%◌, ◌^◌, Bool, true, false, not, ◌||◌, ◌&&◌, Option, none, some,
  List, [], ◌∷◌, ltb, ◌==◌, if◌then◌else◌, get_elem?, set, replicate,
}
use model_lib.Prelude.Int.{ℤ, pos, negsuc}

pub record Line : Type 0 where
  pub tag : ℕ
  pub d : Bool
  pub v : Bool
  pub index : ℕ

pub record CacheSet : Type 0 where
  pub lines : List Line
  pub lru : ℤ

pub record Cache : Type 0 where
  pub sets : ℕ
  pub block : ℕ
  pub ways : ℕ
  pub rows : List CacheSet

pub record Stats : Type 0 where
  pub hits : ℕ
  pub misses : ℕ
  pub evictions : ℕ
  pub dirty_bytes : ℕ
  pub dirty_evictions : ℕ

-- `for (j = 0; j < E; j++)`, with `n` lines to go.
unfoldable pub init_lines : ℕ → ℕ → List Line
init_lines zero j = []
init_lines (suc n) j = record { tag = 0; d = false; v = false; index = j } ∷ init_lines n (suc j)

unfoldable pub init_set : ℕ → CacheSet
init_set ways = record { lines = init_lines ways 0; lru = if ways == 1 then pos 0 else negsuc 0 }

unfoldable pub make_cache : (sets ways block : ℕ) → Cache
make_cache sets ways block = record {
  sets = sets;
  block = block;
  ways = ways;
  rows = replicate sets (init_set ways);
}

-- `S = 0x1 << s` and `B = 0x1 << b` are of type `int`: from 31 on, `none`, they are undefined.
unfoldable pub init_cache : ℕ → ℕ → ℕ → Option Cache
init_cache s ways b = if ltb s 31 && ltb b 31 then some (make_cache (2 ^ s) ways (2 ^ b)) else none

pub data Mode : Type 0 where
  load store : Mode

abbrev pub is_store : Mode → Bool
is_store load = false
is_store store = true

-- `if (C->E > 1) { if (index == 1) LRU = 0; if (index == 0) LRU = 1; }`
unfoldable pub touch_lru : ℕ → ℕ → ℤ → ℤ
touch_lru ways index lru =
    if ltb 1 ways then if index == 0 then pos 1 else if index == 1 then pos 0 else lru else lru

-- How the loop over the lines ends: a line that is filled or hit, or no such line.
pub data Scan : Type 0 where
  filled : List Line → ℕ → Scan
  hit : List Line → ℕ → Scan
  missed : Scan

abbrev pub behind : Line → Scan → Scan
behind l (filled ls i) = filled (l ∷ ls) i
behind l (hit ls i) = hit (l ∷ ls) i
behind l missed = missed

unfoldable pub scan_lines : ℕ → Mode → List Line → Scan
scan_lines tag mode [] = missed
scan_lines tag mode (l ∷ ls) =
    if not l.v
    then filled (record l { tag = tag; v = true; d = is_store mode || l.d } ∷ ls) l.index
    else if l.tag == tag
    then hit (record l { d = is_store mode || l.d } ∷ ls) l.index
    else behind l (scan_lines tag mode ls)

-- What an access did; an eviction tells whether the line was dirty.
pub data Effect : Type 0 where
  hits fills : Effect
  evicts : Bool → Effect

-- The line in `replace`, which becomes the new one.
unfoldable pub evict_line : ℕ → ℕ → Mode → CacheSet → Option Line → ℕ → Option (CacheSet × Effect)
evict_line ways tag mode row none i = none
evict_line ways tag mode row (some l) i = some (
  record {
    lines = set row.lines i (record l { tag = tag; d = is_store mode });
    lru = touch_lru ways l.index row.lru;
  },
  evicts l.d,
)

-- `currSet->lines[currSet->LRU]`; `none` is an access out of bounds.
unfoldable pub evict : ℕ → ℕ → Mode → CacheSet → ℤ → Option (CacheSet × Effect)
evict ways tag mode row (negsuc n) = none
evict ways tag mode row (pos i) = evict_line ways tag mode row (get_elem? row.lines i) i

unfoldable pub after_scan : ℕ → ℕ → Mode → CacheSet → Scan → Option (CacheSet × Effect)
after_scan ways tag mode row (filled ls i) =
    some (record { lines = ls; lru = touch_lru ways i row.lru }, fills)
after_scan ways tag mode row (hit ls i) =
    some (record { lines = ls; lru = touch_lru ways i row.lru }, hits)
after_scan ways tag mode row missed = evict ways tag mode row row.lru

-- `load` within its set.
unfoldable pub access : ℕ → ℕ → Mode → CacheSet → Option (CacheSet × Effect)
access ways tag mode row = after_scan ways tag mode row (scan_lines tag mode row.lines)

-- The counters that an access changes.
unfoldable pub count : ℕ → Stats → Effect → Stats
count block st hits = record st { hits = st.hits + 1 }
count block st fills = record st { misses = st.misses + 1 }
count block st (evicts dirty) = record st {
  misses = st.misses + 1;
  evictions = st.evictions + 1;
  dirty_evictions = if dirty then st.dirty_evictions + block else st.dirty_evictions;
}

unfoldable pub load_row : Cache → Stats → ℕ → Option (CacheSet × Effect) → Option (Cache × Stats)
load_row c st i none = none
load_row c st i (some (row, e)) = some (record c { rows = set c.rows i row }, count c.block st e)

unfoldable pub access_row : Cache → ℕ → Mode → Option CacheSet → Option (CacheSet × Effect)
access_row c tag mode none = none
access_row c tag mode (some row) = access c.ways tag mode row

-- `load`.
unfoldable pub load_address : Cache → Stats → ℕ → ℕ → Mode → Option (Cache × Stats)
load_address c st i tag mode = load_row c st i (access_row c tag mode (get_elem? c.rows i))

-- The bits `b … b + s - 1` of the address, and the address with the bits below `s + b` cleared. The masks are
-- made of `-1 << (s + b)`, of type `int`: from 32 on, `none`, the shift is undefined.
unfoldable pub set_index : ℕ → ℕ → ℕ → Option ℕ
set_index s b addr = if ltb (s + b) 32 then some (addr / 2 ^ b % 2 ^ s) else none

unfoldable pub tag_of : ℕ → ℕ → ℕ → Option ℕ
tag_of s b addr = if ltb (s + b) 32 then some (addr / 2 ^ (s + b) * 2 ^ (s + b)) else none

unfoldable pub load_at : Cache → Stats → Mode → (i tag : Option ℕ) → Option (Cache × Stats)
load_at c st mode (some i) (some tag) = load_address c st i tag mode
load_at c st mode (some i) none = none
load_at c st mode none tag = none

-- The loop of `main` over the `S` and `L` lines of the trace.
unfoldable pub run_trace : ℕ → ℕ → List (Mode × ℕ) → Cache → Stats → Option (Cache × Stats)
run_trace s b [] c st = some (c, st)
run_trace s b ((mode, addr) ∷ rest) c st =
    elim (load_at c st mode (set_index s b addr) (tag_of s b addr)) [
      | none ↦ none
      | some (c', st') ↦ run_trace s b rest c' st'
    ]

unfoldable pub dirty_lines : List Line → ℕ
dirty_lines [] = 0
dirty_lines (l ∷ ls) = (if l.d then 1 else 0) + dirty_lines ls

unfoldable pub dirty_rows : List CacheSet → ℕ
dirty_rows [] = 0
dirty_rows (row ∷ rows) = dirty_lines row.lines + dirty_rows rows

-- What `printSummary` prints.
pub record Summary : Type 0 where
  pub counted : Stats
  pub dirty_evictions : ℤ

abbrev pub minus_one : ℕ → ℤ
minus_one zero = negsuc 0
minus_one (suc n) = pos n

-- The loop that frees the cache, and the correction of `dirty_evictions` behind it. `main` never sets the counters,
-- so their first values are those of the stack.
unfoldable pub finish : Cache → Stats → Summary
finish c st = record {
  counted = record st { dirty_bytes = st.dirty_bytes + dirty_rows c.rows * c.block };
  dirty_evictions = minus_one st.dirty_evictions;
}
