-- ===== src/Jobs/Search.antt =====
-- What the searches through the job list of Lab4/tsh_helper.c return.
use model_lib.Prelude.{
  ℕ, zero, suc, ◌+◌, ◌≤◌, ◌<◌, ◌≡◌, refl, ◌≢◌, Bool, true, false, arith, Bool-cases, ◌==◌, inl, inr,
  sym,
}
use model_lib.Prelude.Int.{pos}
use model_lib.Jobs.{Job, Table, first_jid, maxjid_from, job_exists}

module _ (test : Job → Bool) (job : ℕ → Job) where
  pub first_jid-miss :
      (n k j : ℕ) → first_jid test job n (suc k) ≡ 0 → k < j → j ≤ k + n → test (job j) ≡ false
  unfolding first_jid
  first_jid-miss zero k j e lo hi = absurd (omega arith)
  first_jid-miss (suc n) k j e lo hi = elim (Bool-cases (test (job (suc k)))) [
    | inl hit ↦ absurd (zero-ne k (rw hit at e))
    | inr miss ↦ elim (Bool-cases (j == suc k)) [
      | inl here ↦ (let same : j ≡ suc k = ground arith in rw same miss)
      | inr there ↦ first_jid-miss n (suc k) j (rw miss at e) (ground arith) (omega arith)
    ]
  ]
    where
      zero-ne : (m : ℕ) → suc m ≢ 0
      zero-ne m h = omega arith

  -- The search returns the first entry of its range that passes.
  pub record IsFirst (n k m : ℕ) : Type 0 where
    pub passes : test (job m) ≡ true
    pub above : k < m
    pub within : m ≤ k + n
    pub least : (j : ℕ) → k < j → j < m → test (job j) ≡ false

  pub first_jid-IsFirst : (n k m : ℕ) → first_jid test job n (suc k) ≡ m → m ≢ 0 → IsFirst n k m
  unfolding first_jid
  first_jid-IsFirst zero k m e h = absurd (h (omega arith))
  first_jid-IsFirst (suc n) k m e h = elim (Bool-cases (test (job (suc k)))) [
    | inl hit ↦
        (let e' : suc k ≡ m = rw hit at e in
          record {
            passes = rw (← e') hit;
            above = omega arith;
            within = omega arith;
            least = λ j lo hi. absurd (omega arith);
          })
    | inr miss ↦ later miss (first_jid-IsFirst n (suc k) m (rw miss at e) h)
  ]
    where
      later : test (job (suc k)) ≡ false → IsFirst n (suc k) m → IsFirst (suc n) k m
      later miss f = record {
        passes = f.passes;
        above = omega (arith, f.above);
        within = omega (arith, f.within);
        least = λ j lo hi. elim (Bool-cases (j == suc k)) [
          | inl here ↦ (let same : j ≡ suc k = ground arith in rw same miss)
          | inr there ↦ f.least j (ground arith) hi
        ];
      }

  -- An entry in the range that passes, with none before it, is the one that is returned.
  pub first_jid_unique :
      (n k m : ℕ)
      → k < m
      → m ≤ k + n
      → test (job m) ≡ true
      → ((j : ℕ) → k < j → j < m → test (job j) ≡ false)
      → first_jid test job n (suc k) ≡ m
  unfolding first_jid
  first_jid_unique zero k m lo hi t least = absurd (omega arith)
  first_jid_unique (suc n) k m lo hi t least = elim (Bool-cases (m == suc k)) [
    | inl here ↦ (let same : m ≡ suc k = ground arith in rw (← same, t))
    | inr there ↦ rw (least (suc k) (omega arith) (ground arith)) (
        first_jid_unique n (suc k) m (ground arith) (omega arith) t
          (λ j lo' hi'. least j (omega arith) hi'))
  ]

-- `maxjid_from` depends only on which jobs exist.
pub maxjid_from-above :
    (t : Table) (n j : ℕ) → maxjid_from t n < j → j ≤ n → job_exists t (pos j) ≡ false
unfolding maxjid_from
maxjid_from-above t zero j lo hi = absurd (omega arith)
maxjid_from-above t (suc n) j lo hi = elim (Bool-cases (job_exists t (pos (suc n)))) [
  | inl is ↦ absurd (let lo' : suc n < j = rw is at lo in omega arith)
  | inr miss ↦ elim (Bool-cases (j == suc n)) [
    | inl here ↦ (let same : j ≡ suc n = ground arith in rw same miss)
    | inr there ↦ maxjid_from-above t n j (rw miss at lo) (ground arith)
  ]
]

pub maxjid_from-le : (t : Table) (n : ℕ) → maxjid_from t n ≤ n
unfolding maxjid_from
maxjid_from-le t zero = omega arith
maxjid_from-le t (suc n) = ground (arith, maxjid_from-le t n)

pub maxjid_from_unique :
    (t : Table) (n m : ℕ)
    → m ≤ n
    → (0 < m → job_exists t (pos m) ≡ true)
    → ((j : ℕ) → m < j → j ≤ n → job_exists t (pos j) ≡ false)
    → maxjid_from t n ≡ m
unfolding maxjid_from
maxjid_from_unique t zero m le is above = omega arith
maxjid_from_unique t (suc n) m le is above = elim (Bool-cases (m == suc n)) [
  | inl here ↦
      (let same : m ≡ suc n = ground arith in
        let live : job_exists t (pos (suc n)) ≡ true = rw (← same) (is (omega arith)) in
        rw live (sym same))
  | inr there ↦
      rw (above (suc n) (ground arith) (omega arith))
        (maxjid_from_unique t n m (ground arith) is (λ j lo hi. above j lo (omega arith)))
]

pub maxjid_from_cong :
    (t u : Table) (n : ℕ)
    → ((j : ℕ) → job_exists t (pos j) ≡ job_exists u (pos j))
    → maxjid_from t n ≡ maxjid_from u n
unfolding maxjid_from
maxjid_from_cong t u zero h = refl
maxjid_from_cong t u (suc n) h = rw (h (suc n), maxjid_from_cong t u n h)
