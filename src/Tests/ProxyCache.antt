-- ===== src/Tests/ProxyCache.antt =====
-- Runs of the object cache of Lab6/proxy.c.
use model_lib.Prelude.{◌+◌, ◌≡◌, refl, [], ◌∷◌, some, none, arith}
use model_lib.ProxyCache.{Cache, write, cache_add, replace_tail, max_cache_size}
use model_lib.ProxyCache.Queue.{Entry, object, IsQueue, IsPending}
use model_lib.ProxyCache.Find.{address_of}
use model_lib.ProxyCache.Touch.{Returns, replace_tail-IsQueue}
use model_lib.ProxyCache.Lost.{IsLost, replace_tail-IsLost}
use model_lib.ProxyCache.Add.{IsAdded, cache_add-IsAdded, cache_add_exceeds}

-- Two objects in the cache, and one that is not yet there.
abbrev a : Entry
a = record { addr = 1; key = 65 ∷ []; value = []; len = 10 }

abbrev b : Entry
b = record { addr = 2; key = 66 ∷ []; value = []; len = 1048566 }

abbrev c : Entry
c = record { addr = 3; key = 67 ∷ []; value = []; len = 11 }

abbrev one : Cache
one = record { cell = write (λ p. none) 1 (some (object a 0)); head = 1; tail = 1; size = 10 }

abbrev two : Cache
two = record {
  cell = write (write (λ p. none) 1 (some (object a 2))) 2 (some (object b 0));
  head = 1;
  tail = 2;
  size = 1048576;
}

one-IsQueue : IsQueue one (a ∷ [])
one-IsQueue = record {
  linked = (omega arith, refl, tt);
  head = refl;
  tail = refl;
  apart = refl;
  size = refl;
}

two-IsQueue : IsQueue two (a ∷ b ∷ [])
two-IsQueue = record {
  linked = (omega arith, refl, (omega arith, refl, tt));
  head = refl;
  tail = refl;
  apart = refl;
  size = refl;
}

two-IsPending : IsPending two (a ∷ b ∷ []) 0
two-IsPending = record {
  linked = two-IsQueue.linked;
  head = refl;
  tail = refl;
  apart = refl;
  size = refl;
}

replace_tail-IsQueue_example : Returns (λ c'. IsQueue c' (b ∷ a ∷ [])) (replace_tail 3 1 two)
replace_tail-IsQueue_example = replace_tail-IsQueue 3 two a b [] [] (omega arith) two-IsQueue

replace_tail-IsLost_example : Returns (λ c'. IsLost two c' (a ∷ []) b) (replace_tail 3 2 two)
replace_tail-IsLost_example = replace_tail-IsLost 3 two a [] b (omega arith) two-IsQueue

cache_add-IsAdded_example : Returns (IsAdded (a ∷ b ∷ []) c) (cache_add 3 3 (67 ∷ []) [] 11 two)
unfolding address_of
cache_add-IsAdded_example =
    cache_add-IsAdded 3 two (a ∷ b ∷ []) c two-IsQueue (omega arith) (omega arith) refl
      (omega arith) (omega arith) refl

cache_add_exceeds_example :
    Returns (λ c'. c'.size ≡ max_cache_size + 1) (cache_add 3 3 (67 ∷ []) [] 11 two)
unfolding address_of
cache_add_exceeds_example =
    cache_add_exceeds 3 two a (b ∷ []) c two-IsQueue (omega arith) (omega arith) refl (omega arith)
      refl refl refl (omega arith)
