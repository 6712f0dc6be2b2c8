-- ===== src/Tests/CacheSim.antt =====
-- Runs of the cache simulator of Lab3/csim.c.
use model_lib.Prelude.{ℕ, ◌≡◌, some, refl, true, false, List, [], ◌∷◌, arith, inl}
use model_lib.Prelude.Int.{pos}
use model_lib.CacheSim.{Cache, CacheSet, Stats, Mode, store, load, access, init_cache, run_trace}
use model_lib.CacheSim.Lru.{Agrees, Shows, first_newer, full, access-Agrees}
use model_lib.CacheSim.Stuck.{IsFull, full_lines, Stays, access-Stays}
use model_lib.Prelude.{replicate}
use model_lib.CacheSim.Runs.{Simulated, use_blocks, run_trace-Simulated}

abbrev two : CacheSet
two = record { lines = full 0 16 true ∷ full 1 32 false ∷ []; lru = pos 1 }

abbrev one : CacheSet
one = record { lines = full 0 16 true ∷ []; lru = pos 0 }

abbrev three : CacheSet
three = record { lines = full 0 16 true ∷ full 1 32 false ∷ full 2 48 false ∷ []; lru = pos 0 }

three-IsFull : IsFull (48 ∷ []) three
three-IsFull = record { held = full_lines _ _ _ refl refl refl refl; victim = inl refl }

access-Agrees_example : Agrees Shows 2 48 load two ((16, true) ∷ (32, false) ∷ [])
access-Agrees_example = access-Agrees 48 load (first_newer 16 32 true false (omega arith))

access-Stays_example : Stays (48 ∷ []) (access 3 64 store three)
access-Stays_example = access-Stays 3 64 store three three-IsFull

abbrev trace : List (Mode × ℕ)
trace = (load, 0) ∷ (store, 16) ∷ (load, 64) ∷ (load, 0) ∷ []

abbrev zeroed : Stats
zeroed = record { hits = 0; misses = 0; evictions = 0; dirty_bytes = 0; dirty_evictions = 0 }

run_trace-Simulated_example :
    (c : Cache) × (init_cache 1 2 4 ≡ some c)
    × Simulated Shows
        (run_trace 1 4 trace c zeroed)
        (use_blocks 2 1 4 trace (replicate 2 []) zeroed)
run_trace-Simulated_example =
    run_trace-Simulated 1 4 trace zeroed (omega arith) (omega arith) (omega arith)
