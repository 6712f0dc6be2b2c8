-- ===== src/Malloc/Unlink.antt =====
-- Lab5/mm.c: `pop` of a block that is on the list of its size class.
use model_lib.Prelude.{
  ℕ, ◌+◌, ◌≤◌, ◌≡◌, refl, sym, ap, ◌∙◌, ◌≢◌, ◌⊎◌, List, [], ◌∷◌, ◌++◌, arith, inl, inr,
}
use model_lib.Malloc.{list_prev, list_next}
use model_lib.Malloc.Chains.{Chain, ends, next, Apart, and_more, IsApart, starting}

abbrev pub Far : ℕ → ℕ → Type 0
Far x y = (x + 32 ≤ y) ⊎ (y + 32 ≤ x)

-- What unlinking a block between `before` and `after` does to the memory.
pub record Unlinked (mem mem' : ℕ → ℕ) (before block after : ℕ) : Type 0 where
  pub forward : mem' (list_next before) ≡ after
  pub back : after ≢ 0 → mem' (list_prev after) ≡ before
  pub others :
      (x : ℕ)
      → x ≢ list_next before
      → x ≢ list_prev after
      → x ≢ list_prev block
      → x ≢ list_next block
      → mem' x ≡ mem x

-- Blocks that share no word with the three; `after` may be NULL.
data AllOff (before block after : ℕ) : List ℕ → Type 0 where
  all_off : AllOff before block after []
  off :
      {x : ℕ} {xs : List ℕ}
      → Far before x
      → Far block x
      → (after ≡ 0) ⊎ Far after x
      → AllOff before block after xs
      → AllOff before block after (x ∷ xs)

same_links :
    {mem mem' : ℕ → ℕ} {before block after : ℕ} (x : ℕ)
    → x ≢ 0
    → Unlinked mem mem' before block after
    → Far before x
    → Far block x
    → (after ≡ 0) ⊎ Far after x
    → (mem' (x + 8) ≡ mem (x + 8)) × (before ≢ x → mem' (x + 16) ≡ mem (x + 16))
same_links x nz u a b c = (
  u.others (x + 8) (ground (arith, a)) (ground (arith, c)) (ground (arith, b)) (ground (arith, b)),
  λ ne.
      u.others (x + 16) (ground (arith, a)) (ground (arith, c)) (ground (arith, b))
        (ground (arith, b)),
)

-- A chain of such blocks is left.
keep_all :
    {mem mem' : ℕ → ℕ} {before block after prev p : ℕ} {xs : List ℕ}
    → Unlinked mem mem' before block after
    → AllOff before block after xs
    → Chain mem prev p xs
    → Chain mem' prev p xs
keep_all u o ends = ends
keep_all {before = before} u (off a b c o) (next x nz e rest) =
    (let (back, forward) = same_links x nz u a b c in
      next x nz (back ∙ e) (starting (sym (forward (ground (arith, a)))) (keep_all u o rest)))

-- The parts of a chain that is not empty.
pub chain_cons :
    {mem : ℕ → ℕ} {prev p x : ℕ} {xs : List ℕ}
    → Chain mem prev p (x ∷ xs)
    → (p ≡ x) × (x ≢ 0) × (mem (list_prev x) ≡ prev) × Chain mem x (mem (list_next x)) xs
chain_cons (next x nz e c) = (refl, nz, e, c)

pub chain_nil : {mem : ℕ → ℕ} {prev p : ℕ} → Chain mem prev p [] → p ≡ 0
chain_nil ends = refl

pub from :
    {mem : ℕ → ℕ} {prev p x : ℕ} {xs : List ℕ} → p ≡ x → Chain mem prev x xs → Chain mem prev p xs
from e c = starting (sym e) c

pub Far-sym : {x y : ℕ} → Far x y → Far y x
Far-sym (inl a) = inr a
Far-sym (inr a) = inl a

off_of :
    {before block after : ℕ} (xs : List ℕ)
    → Apart before xs
    → Apart block xs
    → (after ≡ 0) ⊎ Apart after xs
    → AllOff before block after xs
off_of [] a b c = all_off
off_of (x ∷ xs) (and_more f a) (and_more g b) (inl n) = off f g (inl n) (off_of xs a b (inl n))
off_of (x ∷ xs) (and_more f a) (and_more g b) (inr (and_more k c)) =
    off f g (inr k) (off_of xs a b (inr c))

behind : {mem : ℕ → ℕ} {q r p : ℕ} {xs : List ℕ} → q ≡ r → Chain mem q p xs → Chain mem r p xs
behind e c = rw⁻¹ e c

module _ {mem : ℕ → ℕ} (before block after : ℕ) (eb : mem (list_prev block) ≡ before)
    (ea : mem (list_next block) ≡ after) where
  -- A block that is apart from the block and what follows it is apart from the one after it, if there is one.
  pub next_to :
      (y : ℕ) (zs : List ℕ) {prev p : ℕ}
      → Chain mem prev p (block ∷ zs)
      → Apart y (block ∷ zs)
      → Far block y × ((after ≡ 0) ⊎ Far after y)
  next_to y [] c (and_more f a) =
      (let (_, _, _, c') = chain_cons c in (Far-sym f, inl (sym ea ∙ chain_nil c')))
  next_to y (z ∷ zs) c (and_more f (and_more g a)) =
      (let (_, _, _, c') = chain_cons c in
        let (pz, _, _, _) = chain_cons c' in (Far-sym f, inr (rw (sym ea ∙ pz) (Far-sym g))))

  -- The same for the neighbours on both sides.
  neighbours :
      (y : ℕ) (ys zs : List ℕ) {prev p : ℕ}
      → Chain mem prev p (ys ++ block ∷ zs)
      → Apart y (ys ++ block ∷ zs)
      → Far prev y
      → Far before y × Far block y × ((after ≡ 0) ⊎ Far after y)
  neighbours y [] zs c a h =
      (let (_, _, e, _) = chain_cons c in
        let (f, g) = next_to y zs c a in (rw (sym eb ∙ e) h, f, g))
  neighbours y (x ∷ xs) zs c (and_more f a) h =
      (let (_, _, _, c') = chain_cons c in neighbours y xs zs c' a (Far-sym f))

  module _ {mem' : ℕ → ℕ} (u : Unlinked mem mem' before block after) where
    -- The rest of the chain behind the block follows the block before it.
    rest-Chain :
        (zs : List ℕ)
        → Chain mem block (mem (list_next block)) zs
        → IsApart (before ∷ block ∷ zs)
        → Chain mem' before after zs
    rest-Chain [] c a = from (sym ea ∙ chain_nil c) ends
    rest-Chain (z ∷ zs) c
          (and_more (and_more _ (and_more fz az)) (and_more (and_more gz bz) (and_more cz _))) =
        (let (pz, nz, e, c') = chain_cons c in
          let is_z : after ≡ z = sym ea ∙ pz in
          let some_after : after ≢ 0 = omega (arith, is_z, nz) in
          let forward : mem' (list_next z) ≡ mem (list_next z) =
            u.others (z + 16) (ground (arith, fz)) (omega (arith, is_z)) (ground (arith, gz))
              (ground (arith, gz)) in
          from is_z (
            next z nz (ap (λ r. mem' (list_prev r)) (sym is_z) ∙ u.back some_after)
              (from forward (keep_all u (off_of zs az bz (inr (rw is_z cz))) c'))))

    pub unlink-Chain :
        (ys zs : List ℕ) (y : ℕ) {prev p : ℕ}
        → Chain mem prev p (y ∷ ys ++ block ∷ zs)
        → IsApart (y ∷ ys ++ block ∷ zs)
        → Chain mem' prev p (y ∷ ys ++ zs)
    unlink-Chain [] zs y c (and_more ay rest) =
        (let (py, nz, e, c1) = chain_cons c in
          let (pb, nzb, e', c2) = chain_cons c1 in
          let is_y : before ≡ y = sym eb ∙ e' in
          let (f, g) = next_to y zs c1 ay in
          let back : mem' (list_prev y) ≡ mem (list_prev y) =
            u.others (y + 8) (omega (arith, is_y)) (ground (arith, g)) (ground (arith, f))
              (ground (arith, f)) in
          from py (
            next y nz (back ∙ e) (
              from (ap (λ r. mem' (list_next r)) (sym is_y) ∙ u.forward)
                (behind is_y (rest-Chain zs c2 (rw is_y (and_more ay rest)))))))
    unlink-Chain (x ∷ xs) zs y c (and_more (and_more f ay) rest) =
        (let (py, nz, e, c1) = chain_cons c in
          let (_, _, _, c2) = chain_cons c1 in
          let (fb, fk, fa) = neighbours y xs zs c2 ay (Far-sym f) in
          let (back, forward) = same_links y nz u fb fk fa in
          from py (
            next y nz (back ∙ e)
              (from (forward (ground (arith, fb))) (unlink-Chain xs zs x c1 rest))))
