-- ===== src/Jobs/Change.antt =====
-- `delete_job`, `job_set_state` and `job_from_pid` of Lab4/tsh_helper.c.
use model_lib.Prelude.{
  ℕ, ◌+◌, ◌≤◌, ◌<◌, ◌≡◌, refl, ap, sym, ◌≢◌, ◌&&◌, true, false, arith, Bool-cases, inl, inr,
}
use model_lib.Prelude.Int.{ℤ, pos, ltb_ℤ, ◌==ℤ◌}
use model_lib.Jobs.{
  Table, State, ok, max_jobs, is_fg, is_defined, is_valid_state, update, delete_job, job_exists,
  clearjob, set_job, maxjid, job_set_state, require_job_exists, require_valid_state, fg_job,
  job_from_pid,
}
use model_lib.Jobs.Valid.{IsValid, job_exists-in_range, maxjid_cong, fg_job-none}
use model_lib.Jobs.Add.{get_job-in_range}
use model_lib.Jobs.Search.{first_jid-miss, first_jid-IsFirst}

-- The list without job `j`.
abbrev pub dropped : Table → ℕ → Table
dropped t j = record t { job = update t.job j (clearjob (t.job j)) }

abbrev pub deleted : Table → ℕ → Table
deleted t j = record (dropped t j) { nextjid = maxjid (dropped t j) + 1 }

-- `delete_job` on a job that exists.
pub delete_job-deleted :
    (t : Table) (j : ℕ)
    → 0 < j
    → j ≤ max_jobs
    → is_defined (t.job j).state ≡ true
    → delete_job t (pos j) ≡ ok (deleted t j, true)
unfolding delete_job set_job
delete_job-deleted t j lo hi live =
    ground (arith, job_exists-in_range t j lo hi, get_job-in_range t j lo hi)

pub delete_job-absent :
    (t : Table) (jid : ℤ) → job_exists t jid ≡ false → delete_job t jid ≡ ok (t, false)
unfolding delete_job
delete_job-absent t jid e = rw e

pub deleted-IsValid : {t : Table} → IsValid t → (j : ℕ) → IsValid (deleted t j)
unfolding clearjob
deleted-IsValid {t} v j = record {
  tight = ap (λ n. n + 1) (maxjid_cong (dropped t j) (deleted t j) (λ i. refl));
  numbered = λ i lo hi. ground (arith, v.numbered i lo hi);
  owned = λ i lo hi. ground (arith, v.owned i lo hi);
  single = λ i k lo hi lo' hi'. ground (arith, v.single i k lo hi lo' hi');
}

-- The list with job `j` in state `s`.
abbrev pub with_state : Table → ℕ → State → Table
with_state t j s = record t { job = update t.job j (record (t.job j) { state = s }) }

pub job_set_state-with_state :
    (t : Table) (j : ℕ) (s : State)
    → 0 < j
    → j ≤ max_jobs
    → is_defined (t.job j).state ≡ true
    → is_valid_state s ≡ true
    → (is_fg s ≡ true → fg_job t ≡ 0)
    → job_set_state t (pos j) s ≡ ok (with_state t j s)
unfolding job_set_state require_job_exists require_valid_state set_job
job_set_state-with_state t j s lo hi live valid alone =
    ground (arith, job_exists-in_range t j lo hi, get_job-in_range t j lo hi)

valid_state-defined : (s : State) → is_valid_state s ≡ true → is_defined s ≡ true
valid_state-defined State.undef h = cc
valid_state-defined State.fg h = refl
valid_state-defined State.bg h = refl
valid_state-defined State.st h = refl

pub with_state-IsValid :
    {t : Table}
    → IsValid t
    → (j : ℕ) (s : State) → 0 < j
    → j ≤ max_jobs
    → is_defined (t.job j).state ≡ true
    → is_valid_state s ≡ true
    → (is_fg s ≡ true → fg_job t ≡ 0)
    → IsValid (with_state t j s)
with_state-IsValid {t} v j s lo hi live valid alone = record {
  tight = omega (
    arith,
    maxjid_cong t (with_state t j s) (λ i. ground (arith, valid_state-defined s valid)),
    v.tight,
  );
  numbered = λ i lo' hi'. ground (arith, v.numbered i lo' hi');
  owned = λ i lo' hi'. ground (arith, v.owned i lo' hi');
  single = λ i k lo' hi' lo'' hi''.
      ground (arith, v.single i k lo' hi' lo'' hi'', fg_job-none t i, fg_job-none t k);
}

-- In a valid list `job_from_pid` returns 0, and then no job has the process id; or it returns the
-- first job that has it.
pub job_from_pid-miss :
    (t : Table) (pid : ℤ) (j : ℕ)
    → job_from_pid t pid ≡ 0
    → ltb_ℤ pid (pos 1) ≡ false
    → 0 < j
    → j ≤ max_jobs
    → is_defined (t.job j).state ≡ true
    → (t.job j).pid ==ℤ pid ≡ false
unfolding job_from_pid
job_from_pid-miss t pid j e p lo hi live = ground (
  arith,
  first_jid-miss (λ x. is_defined x.state && x.pid ==ℤ pid) t.job max_jobs 0 j (rw p at e) lo
      (omega arith),
)

-- If `job_from_pid` gives a number other than 0, that is the number of a job that exists and whose
-- process it is.
pub job_from_pid-live :
    (t : Table) (pid : ℤ) (j : ℕ)
    → job_from_pid t pid ≡ j
    → j ≢ 0
    → (0 < j)
      × (j ≤ max_jobs)
      × (is_defined (t.job j).state ≡ true)
      × ((t.job j).pid ==ℤ pid ≡ true)
unfolding job_from_pid
job_from_pid-live t pid j e ne = elim (Bool-cases (ltb_ℤ pid (pos 1))) [
  | inl low ↦ absurd (ne (sym (rw low at e)))
  | inr high ↦
      (let f =
          first_jid-IsFirst (λ x. is_defined x.state && x.pid ==ℤ pid) t.job max_jobs 0 j
            (rw high at e) ne in
        (f.above, omega (arith, f.within), ground (arith, f.passes), ground (arith, f.passes)))
]
