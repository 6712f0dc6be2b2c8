-- ===== src/CacheSim/Lru.antt =====
-- With one or two ways the simulator of Lab3/csim.c is a least-recently-used cache.
use model_lib.Prelude.{
  ℕ, suc, ◌≡◌, sym, ◌≢◌, Bool, true, false, ◌||◌, Option, none, some, List, [], ◌∷◌, ltb, ◌==◌,
  if◌then◌else◌, arith, Bool-cases, inl, inr,
}
use model_lib.Prelude.Int.{pos, negsuc}
use model_lib.CacheSim.{
  Line, CacheSet, Mode, is_store, Effect, hits, fills, evicts, access, scan_lines, after_scan,
  evict, evict_line, touch_lru, init_set, init_lines,
}

-- The specification: the blocks of a set with their dirty bits, most recently used first.
abbrev pub Blocks : Type 0
Blocks = List (ℕ × Bool)

-- The dirty bit of the block with the tag, if it is there.
unfoldable pub find : ℕ → Blocks → Option Bool
find tag [] = none
find tag ((t, d) ∷ bs) = if t == tag then some d else find tag bs

unfoldable pub without : ℕ → Blocks → Blocks
without tag [] = []
without tag ((t, d) ∷ bs) = if t == tag then bs else (t, d) ∷ without tag bs

abbrev len : Blocks → ℕ
len [] = 0
len (b ∷ bs) = suc (len bs)

-- All but the last block, and whether that is dirty.
unfoldable pub drop_last : Blocks → Blocks × Bool
drop_last [] = ([], false)
drop_last ((t, d) ∷ []) = ([], d)
drop_last (b ∷ b' ∷ bs) = let (front, d) = drop_last (b' ∷ bs) in (b ∷ front, d)

-- A hit moves its block to the front; a miss puts a new block there, and the least recently used one
-- goes if the set is full.
unfoldable pub use_block : ℕ → ℕ → Mode → Blocks → Blocks × Effect
use_block ways tag mode bs = elim (find tag bs) [
  | some d ↦ ((tag, is_store mode || d) ∷ without tag bs, hits)
  | none ↦
      if ltb (len bs) ways
      then ((tag, is_store mode) ∷ bs, fills)
      else let (front, d) = drop_last bs in ((tag, is_store mode) ∷ front, evicts d)
]

-- What a set with one or with two lines stands for.
abbrev pub blank : ℕ → Line
blank j = record { tag = 0; d = false; v = false; index = j }

abbrev pub full : ℕ → ℕ → Bool → Line
full j t d = record { tag = t; d = d; v = true; index = j }

pub data ShowsOne : CacheSet → Blocks → Type 0 where
  empty : ShowsOne (record { lines = blank 0 ∷ []; lru = pos 0 }) []
  held :
      (t : ℕ) (d : Bool) → ShowsOne (record { lines = full 0 t d ∷ []; lru = pos 0 }) ((t, d) ∷ [])

pub data Shows : CacheSet → Blocks → Type 0 where
  empty : Shows (record { lines = blank 0 ∷ blank 1 ∷ []; lru = negsuc 0 }) []
  one :
      (t : ℕ) (d : Bool)
      → Shows (record { lines = full 0 t d ∷ blank 1 ∷ []; lru = pos 1 }) ((t, d) ∷ [])
  second_newer :
      (t t' : ℕ) (d d' : Bool)
      → t ≢ t'
      → Shows
          (record { lines = full 0 t d ∷ full 1 t' d' ∷ []; lru = pos 0 })
          ((t', d') ∷ (t, d) ∷ [])
  first_newer :
      (t t' : ℕ) (d d' : Bool)
      → t ≢ t'
      → Shows
          (record { lines = full 0 t d ∷ full 1 t' d' ∷ []; lru = pos 1 })
          ((t, d) ∷ (t', d') ∷ [])

program : Unit {0}
unfolding access scan_lines after_scan evict evict_line touch_lru find without drop_last use_block
program = tt

-- An access and the specification come to the same: the same hit, fill or eviction with the same
-- dirty bit, and the same blocks in the same order of use afterwards.
pub record Agrees (Shows : CacheSet → Blocks → Type 0) (ways tag : ℕ) (mode : Mode) (row : CacheSet)
    (bs : Blocks) : Type 0 where
  pub row' : CacheSet
  pub blocks' : Blocks
  pub effect : Effect
  pub code : access ways tag mode row ≡ some (row', effect)
  pub spec : use_block ways tag mode bs ≡ (blocks', effect)
  pub shows : Shows row' blocks'

ne_of_test : (a b : ℕ) → (a == b) ≡ false → a ≢ b
ne_of_test a b h e = ground arith

module _ (tag : ℕ) (mode : Mode) where
  abbrev new : Bool → Bool
  new d = is_store mode || d

  fill-Agrees :
      Agrees Shows 2 tag mode (record { lines = blank 0 ∷ blank 1 ∷ []; lru = negsuc 0 }) []
  unfolding program
  fill-Agrees = record {
    row' = record { lines = full 0 tag (new false) ∷ blank 1 ∷ []; lru = pos 1 };
    blocks' = (tag, new false) ∷ [];
    effect = fills;
    code = ground arith;
    spec = ground arith;
    shows = one tag (new false);
  }

  one-Agrees :
      (t : ℕ) (d : Bool)
      → Agrees Shows 2 tag mode
          (record { lines = full 0 t d ∷ blank 1 ∷ []; lru = pos 1 })
          ((t, d) ∷ [])
  unfolding program
  one-Agrees t d = elim (Bool-cases (t == tag)) [
    | inl here ↦ record {
      row' = record { lines = full 0 t (new d) ∷ blank 1 ∷ []; lru = pos 1 };
      blocks' = (t, new d) ∷ [];
      effect = hits;
      code = ground arith;
      spec = ground arith;
      shows = one t (new d);
    }
    | inr other ↦ record {
      row' = record { lines = full 0 t d ∷ full 1 tag (new false) ∷ []; lru = pos 0 };
      blocks' = (tag, new false) ∷ (t, d) ∷ [];
      effect = fills;
      code = ground arith;
      spec = ground arith;
      shows = second_newer t tag d (new false) (ne_of_test t tag other);
    }
  ]

  second-Agrees :
      (t t' : ℕ) (d d' : Bool)
      → t ≢ t'
      → Agrees Shows 2 tag mode
          (record { lines = full 0 t d ∷ full 1 t' d' ∷ []; lru = pos 0 })
          ((t', d') ∷ (t, d) ∷ [])
  unfolding program
  second-Agrees t t' d d' ne = elim (Bool-cases (t == tag)) [
    | inl here ↦ record {
      row' = record { lines = full 0 t (new d) ∷ full 1 t' d' ∷ []; lru = pos 1 };
      blocks' = (t, new d) ∷ (t', d') ∷ [];
      effect = hits;
      code = ground arith;
      spec = ground arith;
      shows = first_newer t t' (new d) d' ne;
    }
    | inr other ↦ elim (Bool-cases (t' == tag)) [
      | inl here ↦ record {
        row' = record { lines = full 0 t d ∷ full 1 t' (new d') ∷ []; lru = pos 0 };
        blocks' = (t', new d') ∷ (t, d) ∷ [];
        effect = hits;
        code = ground arith;
        spec = ground arith;
        shows = second_newer t t' d (new d') ne;
      }
      | inr other' ↦ record {
        row' = record { lines = full 0 tag (new false) ∷ full 1 t' d' ∷ []; lru = pos 1 };
        blocks' = (tag, new false) ∷ (t', d') ∷ [];
        effect = evicts d;
        code = ground arith;
        spec = ground arith;
        shows = first_newer tag t' (new false) d' (λ e. ne_of_test t' tag other' (sym e));
      }
    ]
  ]

  first-Agrees :
      (t t' : ℕ) (d d' : Bool)
      → t ≢ t'
      → Agrees Shows 2 tag mode
          (record { lines = full 0 t d ∷ full 1 t' d' ∷ []; lru = pos 1 })
          ((t, d) ∷ (t', d') ∷ [])
  unfolding program
  first-Agrees t t' d d' ne = elim (Bool-cases (t == tag)) [
    | inl here ↦ record {
      row' = record { lines = full 0 t (new d) ∷ full 1 t' d' ∷ []; lru = pos 1 };
      blocks' = (t, new d) ∷ (t', d') ∷ [];
      effect = hits;
      code = ground arith;
      spec = ground arith;
      shows = first_newer t t' (new d) d' ne;
    }
    | inr other ↦ elim (Bool-cases (t' == tag)) [
      | inl here ↦ record {
        row' = record { lines = full 0 t d ∷ full 1 t' (new d') ∷ []; lru = pos 0 };
        blocks' = (t', new d') ∷ (t, d) ∷ [];
        effect = hits;
        code = ground arith;
        spec = ground arith;
        shows = second_newer t t' d (new d') ne;
      }
      | inr other' ↦ record {
        row' = record { lines = full 0 t d ∷ full 1 tag (new false) ∷ []; lru = pos 0 };
        blocks' = (tag, new false) ∷ (t, d) ∷ [];
        effect = evicts d';
        code = ground arith;
        spec = ground arith;
        shows = second_newer t tag d (new false) (ne_of_test t tag other);
      }
    ]
  ]

  -- On a set of two lines, `load` does what a least-recently-used list does: the same hit, fill or
  -- eviction with the same dirty bit, and the same blocks in the same order of use afterwards.
  pub access-Agrees : {row : CacheSet} {bs : Blocks} → Shows row bs → Agrees Shows 2 tag mode row bs
  access-Agrees Shows.empty = fill-Agrees
  access-Agrees (one t d) = one-Agrees t d
  access-Agrees (second_newer t t' d d' ne) = second-Agrees t t' d d' ne
  access-Agrees (first_newer t t' d d' ne) = first-Agrees t t' d d' ne

  direct_empty : Agrees ShowsOne 1 tag mode (record { lines = blank 0 ∷ []; lru = pos 0 }) []
  unfolding program
  direct_empty = record {
    row' = record { lines = full 0 tag (new false) ∷ []; lru = pos 0 };
    blocks' = (tag, new false) ∷ [];
    effect = fills;
    code = ground arith;
    spec = ground arith;
    shows = held tag (new false);
  }

  direct_held :
      (t : ℕ) (d : Bool)
      → Agrees ShowsOne 1 tag mode (record { lines = full 0 t d ∷ []; lru = pos 0 }) ((t, d) ∷ [])
  unfolding program
  direct_held t d = elim (Bool-cases (t == tag)) [
    | inl here ↦ record {
      row' = record { lines = full 0 t (new d) ∷ []; lru = pos 0 };
      blocks' = (t, new d) ∷ [];
      effect = hits;
      code = ground arith;
      spec = ground arith;
      shows = held t (new d);
    }
    | inr other ↦ record {
      row' = record { lines = full 0 tag (new false) ∷ []; lru = pos 0 };
      blocks' = (tag, new false) ∷ [];
      effect = evicts d;
      code = ground arith;
      spec = ground arith;
      shows = held tag (new false);
    }
  ]

  -- On a set of one line, `load` does what a direct-mapped cache does: the same hit, fill or
  -- eviction with the same dirty bit, and the same block afterwards.
  pub access-Agrees_direct :
      {row : CacheSet} {bs : Blocks} → ShowsOne row bs → Agrees ShowsOne 1 tag mode row bs
  access-Agrees_direct ShowsOne.empty = direct_empty
  access-Agrees_direct (held t d) = direct_held t d

-- `initCache` makes sets that hold no block.
pub init_set-Shows : Shows (init_set 2) [] × ShowsOne (init_set 1) []
unfolding init_set init_lines
init_set-Shows = (Shows.empty, ShowsOne.empty)
