-- ===== src/CacheSim/Count.antt =====
-- The counters that `main` of Lab3/csim.c prints after a trace.
use model_lib.Prelude.{
  ℕ, suc, ◌+◌, ◌≤◌, ◌≡◌, refl, ◌∙◌, Option, none, some, List, [], ◌∷◌, arith, length,
}
use model_lib.CacheSim.{
  Cache, CacheSet, Stats, Mode, Effect, hits, fills, evicts, count, load_row, load_address, load_at,
  run_trace,
}

-- The counters after some accesses: each is a hit or a miss, and no more lines are evicted than missed.
pub record Counts (n : ℕ) (st st' : Stats) : Type 0 where
  pub accesses : st'.hits + st'.misses ≡ st.hits + st.misses + n
  pub few : st'.evictions + st.misses ≤ st.evictions + st'.misses
  pub bytes : st'.dirty_bytes ≡ st.dirty_bytes

count-Counts : (block : ℕ) (st : Stats) (e : Effect) → Counts 1 st (count block st e)
unfolding count
count-Counts block st hits = record { accesses = omega arith; few = omega arith; bytes = refl }
count-Counts block st fills = record { accesses = omega arith; few = omega arith; bytes = refl }
count-Counts block st (evicts d) = record {
  accesses = omega arith;
  few = omega arith;
  bytes = refl;
}

chain_sum : (a b c d e f n : ℕ) → c + d ≡ a + b + 1 → e + f ≡ c + d + n → e + f ≡ a + b + suc n
chain_sum a b c d e f n p q = omega arith

trans_few : (e0 m0 e1 m1 e2 m2 : ℕ) → e1 + m0 ≤ e0 + m1 → e2 + m1 ≤ e1 + m2 → e2 + m0 ≤ e0 + m2
trans_few e0 m0 e1 m1 e2 m2 p q = omega arith

Counts-trans : {n : ℕ} {a b c : Stats} → Counts 1 a b → Counts n b c → Counts (suc n) a c
Counts-trans {n} {a} {b} {c} p q = record {
  accesses = chain_sum a.hits a.misses b.hits b.misses c.hits c.misses n p.accesses q.accesses;
  few = trans_few a.evictions a.misses b.evictions b.misses c.evictions c.misses p.few q.few;
  bytes = q.bytes ∙ p.bytes;
}

Counts-refl : {a : Stats} → Counts 0 a a
Counts-refl {a} = record { accesses = omega arith; few = omega arith; bytes = refl }

-- The state of a run that has one.
pub data Gives {A : Type 0} (P : A → Type 0) : Option A → Type 0 where
  failed : Gives P none
  gives : {a : A} → P a → Gives P (some a)

Gives-map :
    {A : Type 0} {P Q : A → Type 0} {o : Option A} → ((a : A) → P a → Q a) → Gives P o → Gives Q o
Gives-map f failed = failed
Gives-map f (gives {a} p) = gives (f a p)

load_row-Counts :
    (c : Cache) (st : Stats) (i : ℕ) (o : Option (CacheSet × Effect))
    → Gives (λ r. Counts 1 st r.1) (load_row c st i o)
unfolding load_row
load_row-Counts c st i none = failed
load_row-Counts c st i (some (row, e)) = gives (count-Counts c.block st e)

load_at-Counts :
    (c : Cache) (st : Stats) (mode : Mode) (i tag : Option ℕ)
    → Gives (λ r. Counts 1 st r.1) (load_at c st mode i tag)
unfolding load_at load_address
load_at-Counts c st mode (some i) (some tag) = load_row-Counts c st _ _
load_at-Counts c st mode (some i) none = failed
load_at-Counts c st mode none tag = failed

after-Counts :
    (n : ℕ) (st : Stats) (o : Option (Cache × Stats))
    (next : Cache → Stats → Option (Cache × Stats))
    → Gives (λ r. Counts 1 st r.1) o
    → ((c : Cache) (st' : Stats) → Gives (λ r. Counts n st' r.1) (next c st'))
    → Gives (λ r. Counts (suc n) st r.1) (elim o [ none ↦ none | some (c', st') ↦ next c' st' ])
after-Counts n st none next failed h = failed
after-Counts n st (some (c', st')) next (gives p) h = Gives-map (λ r q. Counts-trans p q) (h c' st')

-- Over a whole trace that stays within the cache, every `L` and every `S` counts as one hit or one
-- miss, no more evictions are counted than misses, and `dirty_bytes` is left as it was.
pub run_trace-Gives :
    (s b : ℕ) (trace : List (Mode × ℕ)) (c : Cache) (st : Stats)
    → Gives (λ r. Counts (length trace) st r.1) (run_trace s b trace c st)
unfolding run_trace
run_trace-Gives s b [] c st = gives Counts-refl
run_trace-Gives s b ((mode, addr) ∷ rest) c st =
    after-Counts (length rest) st _ (λ c' st'. run_trace s b rest c' st')
      (load_at-Counts c st mode _ _) (λ c' st'. run_trace-Gives s b rest c' st')
