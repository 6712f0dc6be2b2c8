-- ===== src/CacheSim/Stuck.antt =====
-- Lab3/csim.c with three ways or more: which lines the simulator can evict.
use model_lib.Prelude.{
  ℕ, ◌≡◌, refl, ap, ◌∙◌, Bool, true, false, ◌||◌, Option, some, List, [], ◌∷◌, ◌==◌, if◌then◌else◌,
  arith, Bool-cases, inl, inr, ◌⊎◌,
}
use model_lib.Prelude.Int.{ℤ, pos}
use model_lib.CacheSim.{
  Line, CacheSet, Mode, is_store, Effect, hits, access, scan_lines, after_scan, evict, evict_line,
  touch_lru, behind, Scan, hit, missed,
}

abbrev pub tags : List Line → List ℕ
tags [] = []
tags (l ∷ ls) = l.tag ∷ tags ls

abbrev pub all_valid : List Line → Bool
all_valid [] = true
all_valid (l ∷ ls) = if l.v then all_valid ls else false

-- Lines that all hold a block, with the tags `rest` from the third one on.
pub data FullLines (rest : List ℕ) : List Line → Type 0 where
  full_lines :
      (l0 l1 : Line) (ls : List Line)
      → l0.v ≡ true
      → l1.v ≡ true
      → tags ls ≡ rest
      → all_valid ls ≡ true
      → FullLines rest (l0 ∷ l1 ∷ ls)

-- A set with such lines whose next victim is one of the first two.
pub record IsFull (rest : List ℕ) (row : CacheSet) : Type 0 where
  pub held : FullLines rest row.lines
  pub victim : (row.lru ≡ pos 0) ⊎ (row.lru ≡ pos 1)

-- What the scan of a full set gives.
pub data FullScan (ls : List Line) : Scan → Type 0 where
  found :
      {ls' : List Line} {i : ℕ}
      → tags ls' ≡ tags ls
      → all_valid ls' ≡ true
      → FullScan ls (hit ls' i)
  not_found : FullScan ls missed

head_valid :
    (l : Line) (ls : List Line) → all_valid (l ∷ ls) ≡ true → (l.v ≡ true) × (all_valid ls ≡ true)
head_valid l ls a = elim (Bool-cases l.v) [ inl v ↦ (v, ground arith) | inr f ↦ ground arith ]

behind-FullScan :
    {l : Line} {ls : List Line} {s : Scan}
    → l.v ≡ true
    → FullScan ls s
    → FullScan (l ∷ ls) (behind l s)
behind-FullScan {l} v (found t a) = found (ap (λ ts. l.tag ∷ ts) t) (ground arith)
behind-FullScan v not_found = not_found

scan_lines-hit :
    (tag : ℕ) (mode : Mode) (l : Line) (ls : List Line)
    → l.v ≡ true
    → (l.tag == tag) ≡ true
    → scan_lines tag mode (l ∷ ls) ≡ hit (record l { d = is_store mode || l.d } ∷ ls) l.index
unfolding scan_lines
scan_lines-hit tag mode l ls v here = ground arith

scan_lines-later :
    (tag : ℕ) (mode : Mode) (l : Line) (ls : List Line)
    → l.v ≡ true
    → (l.tag == tag) ≡ false
    → scan_lines tag mode (l ∷ ls) ≡ behind l (scan_lines tag mode ls)
unfolding scan_lines
scan_lines-later tag mode l ls v other = ground arith

scan_lines-nil : (tag : ℕ) (mode : Mode) → scan_lines tag mode [] ≡ missed
unfolding scan_lines
scan_lines-nil tag mode = refl

all_valid-cons :
    (l : Line) (ls : List Line) → l.v ≡ true → all_valid ls ≡ true → all_valid (l ∷ ls) ≡ true
all_valid-cons l ls v a = ground arith

scan_lines-FullScan :
    (tag : ℕ) (mode : Mode) (ls : List Line)
    → all_valid ls ≡ true
    → FullScan ls (scan_lines tag mode ls)
scan_lines-FullScan tag mode [] a = rw (scan_lines-nil tag mode) not_found
scan_lines-FullScan tag mode (l ∷ ls) a =
    (let (v, rest) = head_valid l ls a in
      let later = behind-FullScan v (scan_lines-FullScan tag mode ls rest) in
      elim (Bool-cases (l.tag == tag)) [
        | inl here ↦
            rw (scan_lines-hit tag mode l ls v here)
              (found refl (all_valid-cons (record l { d = is_store mode || l.d }) ls v rest))
        | inr other ↦ rw (scan_lines-later tag mode l ls v other) later
      ])

full_of :
    (ls : List Line) {a b : ℕ} {rest : List ℕ}
    → tags ls ≡ a ∷ b ∷ rest
    → all_valid ls ≡ true
    → FullLines rest ls
full_of [] t v = ground arith
full_of (l0 ∷ []) t v = ground arith
full_of (l0 ∷ l1 ∷ ls) t v =
    (let (v0, w) = head_valid l0 (l1 ∷ ls) v in
      let (v1, z) = head_valid l1 ls w in full_lines l0 l1 ls v0 v1 (ground arith) z)

touch_lru-victim :
    (ways i : ℕ) (lru : ℤ)
    → (lru ≡ pos 0) ⊎ (lru ≡ pos 1)
    → (touch_lru ways i lru ≡ pos 0) ⊎ (touch_lru ways i lru ≡ pos 1)
unfolding touch_lru
touch_lru-victim ways i lru v = ground (arith, v)

-- An access that goes well and leaves such a set.
pub record Stays (rest : List ℕ) (o : Option (CacheSet × Effect)) : Type 0 where
  pub row' : CacheSet
  pub effect : Effect
  pub runs : o ≡ some (row', effect)
  pub full : IsFull rest row'

valid_of : {rest : List ℕ} {ls : List Line} → FullLines rest ls → all_valid ls ≡ true
valid_of (full_lines l0 l1 ls v0 v1 t v) =
    all_valid-cons l0 (l1 ∷ ls) v0 (all_valid-cons l1 ls v1 v)

same_tags :
    {rest : List ℕ} {ls : List Line} (ls' : List Line)
    → FullLines rest ls
    → tags ls' ≡ tags ls
    → all_valid ls' ≡ true
    → FullLines rest ls'
same_tags ls' (full_lines l0 l1 ls v0 v1 t v) e w =
    full_of ls' (e ∙ ap (λ ts. l0.tag ∷ l1.tag ∷ ts) t) w

-- The line that goes, and the set afterwards.
evicted :
    {rest : List ℕ} (ways tag : ℕ) (mode : Mode) (row : CacheSet) (lines : List Line) (lru : ℤ)
    → row ≡ record { lines = lines; lru = lru }
    → FullLines rest lines
    → (lru ≡ pos 0) ⊎ (lru ≡ pos 1)
    → Stays rest (evict ways tag mode row lru)
unfolding evict evict_line
evicted ways tag mode row lines lru e (full_lines l0 l1 ls v0 v1 t v) (inl first) =
    rw (e, first)
      (record {
        row' = _;
        effect = _;
        runs = refl;
        full = record {
          held = full_lines (record l0 { tag = tag; d = is_store mode }) l1 ls v0 v1 t v;
          victim = touch_lru-victim ways l0.index (pos 0) (inl refl);
        };
      })
evicted ways tag mode row lines lru e (full_lines l0 l1 ls v0 v1 t v) (inr second) =
    rw (e, second)
      (record {
        row' = _;
        effect = _;
        runs = refl;
        full = record {
          held = full_lines l0 (record l1 { tag = tag; d = is_store mode }) ls v0 v1 t v;
          victim = touch_lru-victim ways l1.index (pos 1) (inr refl);
        };
      })

after_scan-Stays :
    {rest : List ℕ} (ways tag : ℕ) (mode : Mode) (row : CacheSet) {s : Scan}
    → IsFull rest row
    → FullScan row.lines s
    → Stays rest (after_scan ways tag mode row s)
unfolding after_scan
after_scan-Stays ways tag mode row f (found {ls' = ls'} {i = i} t v) = record {
  row' = _;
  effect = hits;
  runs = refl;
  full = record {
    held = same_tags ls' f.held t v;
    victim = touch_lru-victim ways i row.lru f.victim;
  };
}
after_scan-Stays ways tag mode row f not_found =
    evicted ways tag mode row row.lines row.lru refl f.held f.victim

-- On a full set whose next victim is one of the first two lines, every access succeeds, the lines
-- from the third one on keep their tags, and the next victim is one of the first two lines again.
pub access-Stays :
    {rest : List ℕ} (ways tag : ℕ) (mode : Mode) (row : CacheSet)
    → IsFull rest row
    → Stays rest (access ways tag mode row)
unfolding access
access-Stays ways tag mode row f =
    after_scan-Stays ways tag mode row f (scan_lines-FullScan tag mode row.lines (valid_of f.held))
