-- ===== src/Malloc/Pop.antt =====
-- Lab5/mm.c: `pop` takes a block off the list of its size class.
use model_lib.Prelude.{
  ℕ, ◌+◌, ◌≡◌, refl, sym, ◌∙◌, ◌≢◌, ◌⊎◌, true, false, Option, some, List, [], ◌∷◌, ◌++◌, ◌==◌,
  arith, Bool-cases, inl, inr,
}
use model_lib.Malloc.{Heap, put, store, list_prev, list_next, get_size, get_index}
use model_lib.Malloc.Lists.{set_seg, pop, pop_root, pop_inner}
use model_lib.Malloc.Chains.{Chain, ends, next, Apart, and_more, IsApart, keep, put_here, put_other}
use model_lib.Malloc.Unlink.{Far, Far-sym, Unlinked, unlink-Chain, chain_cons, chain_nil, from}

-- A run that gives a heap in which the list of the class has the blocks, and the other lists their roots.
pub record Popped (h : Heap) (o : Option Heap) (i : ℕ) (xs : List ℕ) : Type 0 where
  pub heap' : Heap
  pub runs : o ≡ some heap'
  pub chain : Chain heap'.mem 0 (heap'.seg_list i) xs
  pub others : (j : ℕ) → j ≢ i → heap'.seg_list j ≡ h.seg_list j

-- The neighbours of a block that is not the first.
record Between (before block after : ℕ) : Type 0 where
  not_null : before ≢ 0
  apart_before : Far block before
  apart_after : (after ≡ 0) ⊎ (Far after before × Far after block)

after_block :
    {after : ℕ} (block y : ℕ) (zs : List ℕ) {mem : ℕ → ℕ} {prev p : ℕ}
    → Chain mem prev p (block ∷ zs)
    → mem (list_next block) ≡ after
    → IsApart (y ∷ block ∷ zs)
    → (after ≡ 0) ⊎ (Far after y × Far after block)
after_block block y [] c ea a = (let (_, _, _, c') = chain_cons c in inl (sym ea ∙ chain_nil c'))
after_block block y (z ∷ zs) c ea
      (and_more (and_more _ (and_more f _)) (and_more (and_more g _) _)) =
    (let (_, _, _, c') = chain_cons c in
      let (pz, _, _, _) = chain_cons c' in
      let e = sym ea ∙ pz in inr (rw e (Far-sym f), rw e (Far-sym g)))

between :
    {mem : ℕ → ℕ} {before after : ℕ} (block : ℕ)
    → mem (list_prev block) ≡ before
    → mem (list_next block) ≡ after
    → (ys zs : List ℕ) (y : ℕ) {prev p : ℕ} → Chain mem prev p (y ∷ ys ++ block ∷ zs)
    → IsApart (y ∷ ys ++ block ∷ zs)
    → Between before block after
between block eb ea [] zs y c (and_more (and_more f a) rest) =
    (let (py, nz, e, c1) = chain_cons c in
      let (pb, nzb, e', c2) = chain_cons c1 in
      let is_y = sym eb ∙ e' in
      record {
        not_null = rw is_y nz;
        apart_before = rw is_y (Far-sym f);
        apart_after = rw is_y (after_block block y zs c1 ea (and_more (and_more f a) rest));
      })
between block eb ea (x ∷ xs) zs y c (and_more a rest) =
    (let (_, _, _, c1) = chain_cons c in between block eb ea xs zs x c1 rest)

module _ (mem : ℕ → ℕ) (before block after : ℕ) (b : Between before block after) where
  last-Unlinked :
      after ≡ 0
      → Unlinked mem (put (put mem (list_next before) 0) (list_prev block) 0) before block after
  last-Unlinked e = record {
    forward = ground (arith, e, b.apart_before);
    back = λ ne. absurd (ne e);
    others = λ x p q r s. ground arith;
  }

  middle-Unlinked :
      after ≢ 0
      → Unlinked mem
          (put
            (put
              (put (put mem (list_next before) after) (list_prev after) before)
              (list_next block)
              0)
            (list_prev block)
            0)
          before
          block
          after
  middle-Unlinked ne = elim b.apart_after [
    | inl e ↦ absurd (ne e)
    | inr far ↦ record {
      forward = ground (arith, far.0, far.1, b.apart_before);
      back = λ _. ground (arith, far.0, far.1, b.apart_before);
      others = λ x p q r s. ground arith;
    }
  ]

-- The run of `pop` on a block that is not the first of its class.
inner-last :
    (h : Heap) (block before after : ℕ)
    → before ≢ 0
    → after ≡ 0
    → pop_inner h block before after
      ≡ some (store (store h (list_next before) 0) (list_prev block) 0)
unfolding pop_inner
inner-last h block before after nz e = elim (Bool-cases (h.mem (list_prev before) == 0)) [
  | inl first ↦ ground (arith, first)
  | inr later ↦ ground (arith, later)
]

inner-middle :
    (h : Heap) (block before after : ℕ)
    → before ≢ 0
    → after ≢ 0
    → pop_inner h block before after
      ≡ some (
          store
            (store
              (store (store h (list_next before) after) (list_prev after) before)
              (list_next block)
              0)
            (list_prev block)
            0)
unfolding pop_inner
inner-middle h block before after nz ne = ground arith

pop_inner-Popped :
    (h : Heap) (block i : ℕ) (ys zs : List ℕ) (y : ℕ)
    → Chain h.mem 0 (h.seg_list i) (y ∷ ys ++ block ∷ zs)
    → IsApart (y ∷ ys ++ block ∷ zs)
    → Popped h
        (pop_inner h block (h.mem (list_prev block)) (h.mem (list_next block)))
        i
        (y ∷ ys ++ zs)
pop_inner-Popped h block i ys zs y c a =
    (let before = h.mem (list_prev block) in
      let after = h.mem (list_next block) in
      let b : Between before block after = between block refl refl ys zs y c a in
      elim (Bool-cases (after == 0)) [
        | inl null ↦ record {
          heap' = store (store h (list_next before) 0) (list_prev block) 0;
          runs = inner-last h block before after b.not_null (ground arith);
          chain =
              unlink-Chain before block after refl refl
                (last-Unlinked h.mem before block after b (ground arith)) ys zs y c a;
          others = λ j ne. refl;
        }
        | inr more ↦ record {
          heap' =
              store
                (store (store (store h (list_next before) after) (list_prev after) before)
                  (list_next block) 0)
                (list_prev block) 0;
          runs = inner-middle h block before after b.not_null (ground arith);
          chain =
              unlink-Chain before block after refl refl
                (middle-Unlinked h.mem before block after b (ground arith)) ys zs y c a;
          others = λ j ne. refl;
        }
      ])

-- The run of `pop` on the first block of its class.
root-only : (h : Heap) (block i : ℕ) → pop_root h block i 0 0 ≡ some (set_seg h i 0)
unfolding pop_root
root-only h block i = refl

root-more :
    (h : Heap) (block i z : ℕ)
    → z ≢ 0
    → pop_root h block i 0 z
      ≡ some (set_seg (store (store h (list_prev z) 0) (list_next block) 0) i z)
unfolding pop_root
root-more h block i z nz = elim (Bool-cases (h.mem (list_next z) == 0)) [
  | inl first ↦ ground (arith, first)
  | inr later ↦ ground (arith, later)
]

pop_root-Popped :
    (h : Heap) (block i : ℕ) (zs : List ℕ)
    → Chain h.mem 0 (h.seg_list i) (block ∷ zs)
    → IsApart (block ∷ zs)
    → Popped h (pop_root h block i (h.mem (list_prev block)) (h.mem (list_next block))) i zs
pop_root-Popped h block i [] c a =
    (let (_, _, e, c') = chain_cons c in
      rw (e, chain_nil c')
        (record {
          heap' = set_seg h i 0;
          runs = root-only h block i;
          chain = from (put_here h.seg_list i 0) ends;
          others = λ j ne. put_other h.seg_list i 0 j ne;
        }))
pop_root-Popped h block i (z ∷ zs) c (and_more (and_more f ab) (and_more az _)) =
    (let (_, _, e, c') = chain_cons c in
      let (pz, nz, ez, rest) = chain_cons c' in
      let m1 = put h.mem (list_prev z) 0 in
      let c1 : Chain m1 0 z (z ∷ zs) = next z nz (put_here h.mem (list_prev z) 0) (
        from (put_other h.mem (z + 8) 0 (z + 16) (omega arith))
          (keep z (z + 8) 0 az (omega arith) (omega arith) rest)) in
      rw (e, pz)
        (record {
          heap' = set_seg (store (store h (list_prev z) 0) (list_next block) 0) i z;
          runs = root-more h block i z nz;
          chain =
              from (put_here h.seg_list i z)
                (keep block (block + 16) 0 (and_more f ab) (omega arith) (omega arith) c1);
          others = λ j ne. put_other h.seg_list i z j ne;
        }))

Apart-at : (y block : ℕ) (ys zs : List ℕ) → Apart y (ys ++ block ∷ zs) → Far y block
Apart-at y block [] zs (and_more f a) = f
Apart-at y block (x ∷ xs) zs (and_more f a) = Apart-at y block xs zs a

at_root :
    (fuel : ℕ) (h : Heap) (block i : ℕ)
    → get_size h block ≢ 16
    → get_index (get_size h block) ≡ i
    → h.seg_list i ≡ block
    → pop fuel h block ≡ pop_root h block i (h.mem (list_prev block)) (h.mem (list_next block))
unfolding pop
at_root fuel h block i large e first =
    (let other : (get_size h block == 16) ≡ false = ground arith in
      let same : (block == block) ≡ true = ground arith in rw (other, e, first, same) refl)

behind_root :
    (fuel : ℕ) (h : Heap) (block i : ℕ)
    → get_size h block ≢ 16
    → get_index (get_size h block) ≡ i
    → block ≢ h.seg_list i
    → pop fuel h block ≡ pop_inner h block (h.mem (list_prev block)) (h.mem (list_next block))
unfolding pop
behind_root fuel h block i large e later =
    (let other : (get_size h block == 16) ≡ false = ground arith in
      let differs : (block == h.seg_list i) ≡ false = ground arith in rw (other, e, differs) refl)

-- `pop` of a block that is not of the smallest size and that is on the well linked list of its
-- class, wherever it stands there, returns without reading through NULL: the list then has the
-- other blocks in their order, and the other classes keep their roots.
pub pop-Popped :
    (fuel : ℕ) (h : Heap) (block i : ℕ) (ys zs : List ℕ)
    → get_size h block ≢ 16
    → get_index (get_size h block) ≡ i
    → Chain h.mem 0 (h.seg_list i) (ys ++ block ∷ zs)
    → IsApart (ys ++ block ∷ zs)
    → Popped h (pop fuel h block) i (ys ++ zs)
pop-Popped fuel h block i [] zs large e c a =
    (let (first, _, _, _) = chain_cons c in
      rw (at_root fuel h block i large e first) (pop_root-Popped h block i zs c a))
pop-Popped fuel h block i (y ∷ ys) zs large e c (and_more ay rest) =
    (let (first, _, _, _) = chain_cons c in
      let far = Apart-at y block ys zs ay in
      let later : block ≢ h.seg_list i = ground (arith, far, first) in
      rw (behind_root fuel h block i large e later)
        (pop_inner-Popped h block i ys zs y c (and_more ay rest)))
