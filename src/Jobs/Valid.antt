-- ===== src/Jobs/Valid.antt =====
-- The invariant of the job list of Lab4/tsh_helper.c.
use model_lib.Prelude.{ℕ, ◌+◌, ◌≤◌, ◌<◌, ◌≡◌, refl, sym, ◌∙◌, true, false, arith}
use model_lib.Prelude.Int.{ℤ, pos, ltb_ℤ}
use model_lib.Jobs.{
  Table, State, max_jobs, is_fg, is_defined, job_exists, maxjid, init_job_list, destroy_job_list,
  fg_job,
}
use model_lib.Jobs.Search.{
  maxjid_from-above, maxjid_from-le, maxjid_from_unique, maxjid_from_cong, first_jid-miss,
}

pub record IsValid (t : Table) : Type 0 where
  -- `nextjid` is one more than the largest job that exists
  pub tight : t.nextjid ≡ maxjid t + 1
  -- a job knows its own number, and belongs to a process
  pub numbered :
      (j : ℕ) → 0 < j → j ≤ max_jobs → is_defined (t.job j).state ≡ true → (t.job j).jid ≡ j
  pub owned :
      (j : ℕ)
      → 0 < j
      → j ≤ max_jobs
      → is_defined (t.job j).state ≡ true
      → ltb_ℤ (pos 0) (t.job j).pid ≡ true
  -- there is one foreground job at most
  pub single :
      (i j : ℕ)
      → 0 < i
      → i ≤ max_jobs
      → 0 < j
      → j ≤ max_jobs
      → is_fg (t.job i).state ≡ true
      → is_fg (t.job j).state ≡ true
      → i ≡ j

pub job_exists-in_range :
    (t : Table) (j : ℕ) → 0 < j → j ≤ max_jobs → job_exists t (pos j) ≡ is_defined (t.job j).state
unfolding job_exists
job_exists-in_range t j lo hi = ground arith

pub maxjid-le : (t : Table) → maxjid t ≤ max_jobs
unfolding maxjid
maxjid-le t = maxjid_from-le t max_jobs

pub above-maxjid :
    (t : Table) (j : ℕ) → maxjid t < j → j ≤ max_jobs → is_defined (t.job j).state ≡ false
unfolding maxjid
above-maxjid t j lo hi =
    sym (job_exists-in_range t j (omega arith) hi) ∙ maxjid_from-above t max_jobs j lo hi

pub maxjid_unique :
    (t : Table) (m : ℕ)
    → m ≤ max_jobs
    → (0 < m → is_defined (t.job m).state ≡ true)
    → ((j : ℕ) → m < j → j ≤ max_jobs → is_defined (t.job j).state ≡ false)
    → maxjid t ≡ m
unfolding maxjid
maxjid_unique t m le is above =
    maxjid_from_unique t max_jobs m le (λ lo. job_exists-in_range t m lo le ∙ is lo)
      (λ j lo hi. job_exists-in_range t j (omega arith) hi ∙ above j lo hi)

pub maxjid_cong :
    (t u : Table)
    → ((j : ℕ) → is_defined (t.job j).state ≡ is_defined (u.job j).state)
    → maxjid t ≡ maxjid u
unfolding maxjid job_exists
maxjid_cong t u h = maxjid_from_cong t u max_jobs (λ j. ground (arith, h j))

-- In a valid list the entry at `nextjid` is free, so the assertion of `add_job` holds.
pub nextjid-free :
    (t : Table) → IsValid t → t.nextjid ≤ max_jobs → is_defined (t.job t.nextjid).state ≡ false
nextjid-free t v le = above-maxjid t t.nextjid (omega (arith, v.tight)) le

pub fg_job-none :
    (t : Table) (j : ℕ) → fg_job t ≡ 0 → 0 < j → j ≤ max_jobs → is_fg (t.job j).state ≡ false
unfolding fg_job
fg_job-none t j e lo hi = first_jid-miss (λ x. is_fg x.state) t.job max_jobs 0 j e lo (omega arith)

no_jobs-IsValid :
    (t : Table) → t.nextjid ≡ 1 → ((j : ℕ) → (t.job j).state ≡ State.undef) → IsValid t
no_jobs-IsValid t e none = record {
  tight =
      omega
        (arith, maxjid_unique t 0 (omega arith) (λ h. absurd (omega arith)) (λ j _ _. rw (none j)));
  numbered = λ j _ _ d. absurd (impossible j d);
  owned = λ j _ _ d. absurd (impossible j d);
  single = λ i j _ _ _ _ d _. cc (none i);
}
  where
    impossible : (j : ℕ) → is_defined (t.job j).state ≡ true → ⊥
    impossible j d = cc (none j)

-- Whatever the list held, `init_job_list` and `destroy_job_list` leave a valid list in which no job
-- exists.
pub init_job_list-IsValid :
    (t : Table)
    → IsValid (init_job_list t)
      × IsValid (destroy_job_list t)
      × ((jid : ℤ) → job_exists (init_job_list t) jid ≡ false)
      × ((jid : ℤ) → job_exists (destroy_job_list t) jid ≡ false)
unfolding init_job_list destroy_job_list job_exists
init_job_list-IsValid t = (
  no_jobs-IsValid _ refl (λ j. refl),
  no_jobs-IsValid _ refl (λ j. refl),
  λ jid. ground arith,
  λ jid. ground arith,
)
