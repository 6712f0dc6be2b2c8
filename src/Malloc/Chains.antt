-- ===== src/Malloc/Chains.antt =====
-- Lab5/mm.c: the list of a size class as the addresses of its blocks.
use model_lib.Prelude.{
  ℕ, zero, suc, ◌+◌, ◌<◌, ◌≤◌, ◌≡◌, refl, sym, ap, ◌∙◌, ◌≢◌, ◌⊎◌, false, Option, some, List, [],
  ◌∷◌, leb, ◌==◌, arith, Bool-cases, inl, inr, length,
}
use model_lib.Malloc.{get_index, Heap, put, list_prev, list_next, get_size}
use model_lib.Malloc.Lists.{push, push_class, walk_fit}

-- The links from `p` on run through the blocks and back, `prev` being the block before.
pub data Chain (mem : ℕ → ℕ) : ℕ → ℕ → List ℕ → Type 0 where
  ends : {prev : ℕ} → Chain mem prev 0 []
  next :
      {prev : ℕ} (x : ℕ) {xs : List ℕ}
      → x ≢ 0
      → mem (list_prev x) ≡ prev
      → Chain mem x (mem (list_next x)) xs
      → Chain mem prev x (x ∷ xs)

-- The block shares no word with the blocks of the list.
pub data Apart (b : ℕ) : List ℕ → Type 0 where
  none_left : Apart b []
  and_more : {x : ℕ} {xs : List ℕ} → (b + 32 ≤ x) ⊎ (x + 32 ≤ b) → Apart b xs → Apart b (x ∷ xs)

-- The list of blocks, which have their own words each.
pub data IsApart : List ℕ → Type 0 where
  none_left : IsApart []
  and_more : {x : ℕ} {xs : List ℕ} → Apart x xs → IsApart xs → IsApart (x ∷ xs)

pub put_other : (f : ℕ → ℕ) (a v j : ℕ) → j ≢ a → put f a v j ≡ f j
put_other f a v j ne = ground arith

pub put_here : (f : ℕ → ℕ) (a v : ℕ) → put f a v a ≡ v
put_here f a v = ground arith

pub starting :
    {mem : ℕ → ℕ} {prev p q : ℕ} {xs : List ℕ} → p ≡ q → Chain mem prev p xs → Chain mem prev q xs
starting e c = rw⁻¹ e c

-- A write into a block leaves the chain of others.
pub keep :
    {mem : ℕ → ℕ} {prev p : ℕ} {xs : List ℕ} (b a v : ℕ)
    → Apart b xs
    → b ≤ a
    → a ≤ b + 16
    → Chain mem prev p xs
    → Chain (put mem a v) prev p xs
keep b a v ap lo hi ends = ends
keep {mem} b a v (and_more far apart) lo hi (next x nz e c) =
    next x nz (put_other mem a v (x + 8) (ground (arith, far)) ∙ e)
      (starting (sym (put_other mem a v (x + 16) (ground (arith, far)))) (keep b a v apart lo hi c))

-- What `push` leaves: the block before the others on the list of its class, the other lists' roots, and
-- every word but the two links of the block and the back link of the old root.
pub record Pushed (h h' : Heap) (block i : ℕ) (xs : List ℕ) : Type 0 where
  pub chain : Chain h'.mem 0 (h'.seg_list i) (block ∷ xs)
  pub others : (j : ℕ) → j ≢ i → h'.seg_list j ≡ h.seg_list j
  pub words :
      (x : ℕ)
      → x ≢ list_prev block
      → x ≢ list_next block
      → x ≢ list_prev (h.seg_list i)
      → h'.mem x ≡ h.mem x

push_empty :
    (h : Heap) (block i : ℕ)
    → block ≢ 0
    → h.seg_list i ≡ 0
    → Pushed h (push_class h block i) block i []
unfolding push_class
push_empty h block i nz e = rw e (record {
  chain = starting (sym (put_here h.seg_list i block)) (
      next block nz (ground arith)
        (starting (sym (put_here (put h.mem (block + 8) 0) (block + 16) 0)) ends));
  others = λ j ne. put_other h.seg_list i block j ne;
  words = λ x p n r. ground arith;
})

push_front :
    (h : Heap) (block i root : ℕ) (ys : List ℕ)
    → block ≢ 0
    → root ≢ 0
    → h.seg_list i ≡ root
    → Chain h.mem root (h.mem (list_next root)) ys
    → Apart block (root ∷ ys)
    → Apart root ys
    → Pushed h (push_class h block i) block i (root ∷ ys)
unfolding push_class
push_front h block i root ys nz nr e c (and_more far apart) r =
    (let m1 = put h.mem (list_prev root) block in
      let m2 = put m1 (list_next block) root in
      let m3 = put m2 (list_prev block) 0 in
      let c1 : Chain m1 root (h.mem (list_next root)) ys =
        keep root (root + 8) block r (omega arith) (omega arith) c in
      let c2 : Chain m1 block root (root ∷ ys) =
        next root nr (put_here h.mem (root + 8) block)
          (starting (sym (put_other h.mem (root + 8) block (root + 16) (omega arith))) c1) in
      let c3 : Chain m2 block root (root ∷ ys) =
        keep block (block + 16) root (and_more far apart) (omega arith) (omega arith) c2 in
      let c4 : Chain m3 block root (root ∷ ys) =
        keep block (block + 8) 0 (and_more far apart) (omega arith) (omega arith) c3 in
      let link : m3 (list_next block) ≡ root = ground arith in
      let front : Chain m3 0 block (block ∷ root ∷ ys) =
        next block nz (put_here m2 (block + 8) 0) (starting (sym link) c4) in
      let other : (root == 0) ≡ false = ground arith in
      rw (e, other)
        (record {
          chain = starting (sym (put_here h.seg_list i block)) front;
          others = λ j ne. put_other h.seg_list i block j ne;
          words = λ x p n q. ground arith;
        }))

push_at :
    (h : Heap) (block i root : ℕ) (xs : List ℕ)
    → block ≢ 0
    → h.seg_list i ≡ root
    → Chain h.mem 0 root xs
    → IsApart (block ∷ xs)
    → Pushed h (push_class h block i) block i xs
push_at h block i root xs nz e ends a = push_empty h block i nz e
push_at h block i root xs nz e (next x {xs = ys} nr b c) (and_more far (and_more apart rest)) =
    push_front h block i x ys nz nr e c far apart

push_class-Pushed :
    (h : Heap) (block i : ℕ) (xs : List ℕ)
    → block ≢ 0
    → Chain h.mem 0 (h.seg_list i) xs
    → IsApart (block ∷ xs)
    → Pushed h (push_class h block i) block i xs
push_class-Pushed h block i xs nz c a = push_at h block i (h.seg_list i) xs nz refl c a

push-class :
    (h : Heap) (block i : ℕ)
    → get_size h block ≢ 16
    → get_index (get_size h block) ≡ i
    → push h block ≡ push_class h block i
unfolding push
push-class h block i large e =
    (let other : (get_size h block == 16) ≡ false = ground arith in rw (other, e) refl)

-- `push` of a block that is not of the smallest size, and that shares no word with those on the
-- well linked list of its class, puts the block at the front of the list; the other classes keep
-- their roots, and no word is changed but the two links of the block and the back link of the old
-- root.
pub push-Pushed :
    (h : Heap) (block i : ℕ) (xs : List ℕ)
    → block ≢ 0
    → get_size h block ≢ 16
    → get_index (get_size h block) ≡ i
    → Chain h.mem 0 (h.seg_list i) xs
    → IsApart (block ∷ xs)
    → Pushed h (push h block) block i xs
push-Pushed h block i xs nz large e c a =
    rw (push-class h block i large e) (push_class-Pushed h block i xs nz c a)

-- The result of a first fit over the blocks: 0 if none of them is large enough, else the first that is.
pub data IsFirstFit (h : Heap) (asize : ℕ) : List ℕ → ℕ → Type 0 where
  no_fit : IsFirstFit h asize [] 0
  fits : {x : ℕ} {xs : List ℕ} → asize ≤ get_size h x → IsFirstFit h asize (x ∷ xs) x
  too_small :
      {x r : ℕ} {xs : List ℕ}
      → get_size h x < asize
      → IsFirstFit h asize xs r
      → IsFirstFit h asize (x ∷ xs) r

-- A walk that ends, with the result of a first fit.
pub record Walked (h : Heap) (asize : ℕ) (xs : List ℕ) (o : Option ℕ) : Type 0 where
  pub block : ℕ
  pub runs : o ≡ some block
  pub first : IsFirstFit h asize xs block

walk_fit-null : (h : Heap) (asize fuel : ℕ) → walk_fit (suc fuel) h asize 0 ≡ some 0
unfolding walk_fit
walk_fit-null h asize fuel = refl

walk_step :
    {h : Heap} {asize : ℕ} {xs : List ℕ} (fuel x : ℕ)
    → x ≢ 0
    → Walked h asize xs (walk_fit fuel h asize (h.mem (list_next x)))
    → Walked h asize (x ∷ xs) (walk_fit (suc fuel) h asize x)
unfolding walk_fit
walk_step {h} {asize} fuel x nz w = elim (Bool-cases (leb asize (get_size h x))) [
  | inl large ↦ record { block = x; runs = ground arith; first = fits (ground arith) }
  | inr small ↦ record {
    block = w.block;
    runs = ground (arith, w.runs);
    first = too_small (ground arith) w.first;
  }
]

-- The walk of `find_fit` along a well linked list ends, with a fuel of one more than its length, at
-- the first block that is large enough, or with NULL if there is none.
pub walk_fit-Walked :
    (h : Heap) (asize fuel prev p : ℕ) (xs : List ℕ)
    → Chain h.mem prev p xs
    → length xs < fuel
    → Walked h asize xs (walk_fit fuel h asize p)
walk_fit-Walked h asize zero prev p xs c few = absurd (omega (arith, few))
walk_fit-Walked h asize (suc fuel) prev p xs ends few = record {
  block = 0;
  runs = walk_fit-null h asize fuel;
  first = no_fit;
}
walk_fit-Walked h asize (suc fuel) prev p xs (next x {xs = ys} nz e c) few =
    walk_step fuel x nz (walk_fit-Walked h asize fuel x (h.mem (list_next x)) ys c (omega arith))
