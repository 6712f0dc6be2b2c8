-- ===== src/Driver/Fill.antt =====
-- Lab5/mdriver.c: the random data with which the driver fills the payloads (`randomize_block`), and its check
-- (`check_index`). A random number of the block is a parameter.
use model_lib.Prelude.{
  ℕ, zero, suc, ◌+◌, ◌%◌, ◌^◌, ◌<◌, ◌≤◌, ◌≡◌, ◌≢◌, refl, ◌∙◌, ◌==◌, if◌then◌else◌, arith, Bool,
  true, ltb, Bool-cases, inl, inr, ◌⊎◌, ◌↔◌, ==_iff,
}
use mathlib.Core.Path.{subst}
use model_lib.Prelude.Int.{ℤ, pos, negsuc}
use model_lib.RangeSet.{DebugMode, dbg_none, dbg_cheap, dbg_expensive}
use model_lib.Driver.{Trace, put}
use model_lib.Driver.Peak.{put_self}

-- The payload bytes as memlib.c gives them, with its two laws.
pub record Bytes {ℓ} (M : Type ℓ) : Type ℓ where
  pub mem_read : M → ℕ → ℕ
  pub mem_write : M → ℕ → ℕ → M
  pub read_written : (m : M) (a v : ℕ) → mem_read (mem_write m a v) a ≡ v % 256
  pub read_other : (m : M) (a b v : ℕ) → a ≢ b → mem_read (mem_write m a v) b ≡ mem_read m b

abbrev pub smaller : ℕ → ℕ → ℕ
smaller m n = if ltb n m then n else m

module _ {ℓ} {M : Type ℓ} (mem : Bytes M) (random_data : ℕ → ℕ) (maxfill : ℕ) where
  -- The byte `i` of a block with this base.
  abbrev pub data_byte : ℕ → ℕ → ℕ
  data_byte base i = random_data ((base + i) % 2 ^ 16) % 256

  -- The loop of `randomize_block`: `n` bytes from the byte `i` on.
  unfoldable pub fill_from : ℕ → ℕ → M → (block base : ℕ) → M
  fill_from zero i m block base = m
  fill_from (suc n) i m block base =
      fill_from n (i + 1) (mem.mem_write m (block + i) (data_byte base i)) block base

  -- The memory and `block_rand_base`; `base` is what `random` gives.
  unfoldable pub randomize_block : DebugMode → M → Trace → (ℕ → ℕ) → ℕ → ℕ → M × (ℕ → ℕ)
  randomize_block mode m t bases index base =
      let size = t.block_sizes index in
      let filled = fill_from (smaller size maxfill) 0 m (t.blocks index) base in
      elim mode [
        | dbg_none ↦ (m, bases)
        | _ ↦ (if size == 0 then m else filled, put bases index base)
      ]

  -- The loop of `check_index`: the number of garbled bytes.
  unfoldable pub garbled_from : ℕ → ℕ → M → (block base : ℕ) → ℕ
  garbled_from zero i m block base = 0
  garbled_from (suc n) i m block base =
      let rest = garbled_from n (i + 1) m block base in
      if mem.mem_read m (block + i) == data_byte base i then rest else rest + 1

  unfoldable pub check_block : DebugMode → M → Trace → (ℕ → ℕ) → ℕ → Bool
  check_block mode m t bases index =
      let size = t.block_sizes index in
      let garbled = garbled_from (smaller size maxfill) 0 m (t.blocks index) (bases index) in
      elim mode [ dbg_none ↦ true | _ ↦ if size == 0 then true else garbled == 0 ]

  -- A negative index is the one of `free(NULL)`.
  unfoldable pub check_index : DebugMode → M → Trace → (ℕ → ℕ) → ℤ → Bool
  check_index mode m t bases (pos index) = check_block mode m t bases index
  check_index mode m t bases (negsuc n) = true

  -- The first bytes of the block hold the data.
  abbrev pub Holds : M → (block base n : ℕ) → Type 0
  Holds m block base n = (i : ℕ) → i < n → mem.mem_read m (block + i) ≡ data_byte base i

  pub fill_from-other :
      (n i : ℕ) (m : M) (block base a : ℕ)
      → (a < block + i) ⊎ (block + i + n ≤ a)
      → mem.mem_read (fill_from n i m block base) a ≡ mem.mem_read m a
  unfolding fill_from
  fill_from-other zero i m block base a h = refl
  fill_from-other (suc n) i m block base a h =
      fill_from-other n (i + 1) (mem.mem_write m (block + i) (data_byte base i)) block base a
        (ground (arith, h))
      ∙ mem.read_other m (block + i) a (data_byte base i) (ground (arith, h))

  fill_from-Holds :
      (n i : ℕ) (m : M) (block base j : ℕ)
      → i ≤ j
      → j < i + n
      → mem.mem_read (fill_from n i m block base) (block + j) ≡ data_byte base j
  unfolding fill_from
  fill_from-Holds zero i m block base j h k = absurd (omega (arith, h, k))
  fill_from-Holds (suc n) i m block base j h k =
      let m' = mem.mem_write m (block + i) (data_byte base i) in
      elim (Bool-cases (i == j)) [
        | inl same ↦
            let e = (==_iff i j).0 same in
            subst
              (λ x. mem.mem_read (fill_from n (i + 1) m' block base) (block + x) ≡ data_byte base x)
              e
              (fill_from-other n (i + 1) m' block base (block + i) (inl (omega arith))
                ∙ mem.read_written m (block + i) (data_byte base i)
                ∙ omega arith)
        | inr other ↦
            fill_from-Holds n (i + 1) m' block base j (ground (arith, h, other)) (omega (arith, k))
      ]

  garbled_from-zero :
      (n i : ℕ) (m : M) (block base : ℕ)
      → ((j : ℕ) → i ≤ j → j < i + n → mem.mem_read m (block + j) ≡ data_byte base j)
      → garbled_from n i m block base ≡ 0
  unfolding garbled_from
  garbled_from-zero zero i m block base h = refl
  garbled_from-zero (suc n) i m block base h =
      rw
        ((==_iff (mem.mem_read m (block + i)) (data_byte base i)).1
          (h i (omega arith) (omega arith)))
        (garbled_from-zero n (i + 1) m block base
          (λ j a b. h j (omega (arith, a)) (omega (arith, b))))

  garbled_from-Holds :
      (n i : ℕ) (m : M) (block base : ℕ)
      → garbled_from n i m block base ≡ 0
      → (j : ℕ) → i ≤ j
      → j < i + n
      → mem.mem_read m (block + j) ≡ data_byte base j
  unfolding garbled_from
  garbled_from-Holds zero i m block base g j h k = absurd (omega (arith, h, k))
  garbled_from-Holds (suc n) i m block base g j h k =
      elim (Bool-cases (mem.mem_read m (block + i) == data_byte base i)) [
        | inl same ↦ elim (Bool-cases (i == j)) [
          | inl e ↦
              subst (λ x. mem.mem_read m (block + x) ≡ data_byte base x) ((==_iff i j).0 e)
                ((==_iff (mem.mem_read m (block + i)) (data_byte base i)).0 same)
          | inr e ↦
              garbled_from-Holds n (i + 1) m block base (ground (arith, g, same)) j
                (ground (arith, h, e)) (omega (arith, k))
        ]
        | inr other ↦ absurd (ground (arith, g, other))
      ]

  check_iff :
      (m : M) (size block base : ℕ)
      → ((if size == 0 then true else garbled_from (smaller size maxfill) 0 m block base == 0)
          ≡ true)
        ↔ Holds m block base (smaller size maxfill)
  check_iff m size block base =
      let n = smaller size maxfill in
      (
        λ e i l.
            garbled_from-Holds n 0 m block base (ground (arith, e, l)) i (omega arith)
              (omega (arith, l)),
        λ h.
            rw (garbled_from-zero n 0 m block base (λ j a b. h j (omega (arith, b))))
              (ground arith),
      )

  filled-check :
      (m : M) (size block : ℕ) (bases : ℕ → ℕ) (index base : ℕ)
      → (if size == 0
          then true
          else garbled_from
              (smaller size maxfill)
              0
              (if size == 0 then m else fill_from (smaller size maxfill) 0 m block base)
              block
              (put bases index base index)
            == 0)
        ≡ true
  filled-check m size block bases index base =
      let n = smaller size maxfill in
      rw (put_self bases index base) (elim (Bool-cases (size == 0)) [
        | inl e ↦ rw e refl
        | inr e ↦
            rw
              (
                e,
                garbled_from-zero n 0 (fill_from n 0 m block base) block base
                    (λ j a b. fill_from-Holds n 0 m block base j a b),
              )
              refl
      ])

  -- Unless the driver checks nothing, `check_index` accepts a block if and only if its first bytes,
  -- at most `maxfill` of them, hold the data that `randomize_block` writes.
  pub check_index-Holds :
      (mode : DebugMode) (m : M) (t : Trace) (bases : ℕ → ℕ) (index : ℕ)
      → mode ≢ dbg_none
      → (check_index mode m t bases (pos index) ≡ true)
        ↔ Holds m (t.blocks index) (bases index) (smaller (t.block_sizes index) maxfill)
  unfolding check_index check_block
  check_index-Holds dbg_none m t bases index d = absurd (d refl)
  check_index-Holds dbg_cheap m t bases index d =
      check_iff m (t.block_sizes index) (t.blocks index) (bases index)
  check_index-Holds dbg_expensive m t bases index d =
      check_iff m (t.block_sizes index) (t.blocks index) (bases index)

  -- In every mode a block that `randomize_block` has just filled passes `check_index`.
  pub randomize_block-check_index :
      (mode : DebugMode) (m : M) (t : Trace) (bases : ℕ → ℕ) (index base : ℕ)
      → check_index mode
          (randomize_block mode m t bases index base).0
          t
          (randomize_block mode m t bases index base).1
          (pos index)
        ≡ true
  unfolding check_index check_block randomize_block
  randomize_block-check_index dbg_none m t bases index base = refl
  randomize_block-check_index dbg_cheap m t bases index base =
      filled-check m (t.block_sizes index) (t.blocks index) bases index base
  randomize_block-check_index dbg_expensive m t bases index base =
      filled-check m (t.block_sizes index) (t.blocks index) bases index base
