-- ===== src/Shell/Steps.antt =====
-- What one child that is reaped changes for the jobs of Lab4/tsh.c: jobs leave the foreground, and the processes
-- of other jobs stay theirs.
use model_lib.Prelude.{
  ℕ, zero, suc, ◌<◌, ◌≤◌, ◌≡◌, ◌≢◌, refl, ap, sym, Bool, true, false, ◌&&◌, ◌==◌, if◌then◌else◌,
  arith, Bool-cases, inl, inr,
}
use model_lib.Prelude.Int.{ℤ, pos, ltb_ℤ, ◌==ℤ◌, eq_of_==ℤ}
use model_lib.Jobs.{
  Table, Job, State, ok, is_fg, is_defined, first_jid, job_from_pid, job_get_state,
  require_job_exists, max_jobs, clearjob,
}
use model_lib.Jobs.Valid.{job_exists-in_range}
use model_lib.Jobs.Change.{deleted, with_state}
use model_lib.Jobs.Add.{get_job-in_range}
use mathlib.Core.Path.{subst}
use model_lib.Shell.{in_foreground}

-- The job is not in the foreground, or there is none.
abbrev pub Off : Table → ℕ → Type 0
Off t j = is_fg (t.job j).state ≡ false

pub Off-in_foreground :
    (t : Table) (j : ℕ) → 0 < j → j ≤ max_jobs → Off t j → in_foreground t (pos j) ≡ ok false
unfolding in_foreground job_get_state require_job_exists
Off-in_foreground t j lo hi off = elim (Bool-cases (is_defined (t.job j).state)) [
  | inl live ↦ rw (job_exists-in_range t j lo hi, live, get_job-in_range t j lo hi, off) refl
  | inr gone ↦ ground (arith, job_exists-in_range t j lo hi, gone)
]

first_jid_cong :
    (test : Job → Bool) (f g : ℕ → Job) (n k : ℕ)
    → ((i : ℕ) → test (f i) ≡ test (g i))
    → first_jid test f n k ≡ first_jid test g n k
unfolding first_jid
first_jid_cong test f g zero k h = refl
first_jid_cong test f g (suc n) k h = rw (h k, first_jid_cong test f g n (suc k) h) refl

-- How the reaping of the process `q` changes the jobs.
pub record Step (t t' : Table) (q : ℤ) : Type 0 where
  pub keeps_off : (j : ℕ) → Off t j → Off t' j
  pub puts_off : job_from_pid t q ≢ 0 → Off t' (job_from_pid t q)
  pub keeps_job : (p : ℤ) → (q ==ℤ p) ≡ false → job_from_pid t' p ≡ job_from_pid t p

same_test :
    (t t' : Table) (p : ℤ)
    → ((i : ℕ)
        → (is_defined (t'.job i).state && (t'.job i).pid ==ℤ p)
          ≡ (is_defined (t.job i).state && (t.job i).pid ==ℤ p))
    → job_from_pid t' p ≡ job_from_pid t p
unfolding job_from_pid
same_test t t' p h =
    ap (λ n. if ltb_ℤ p (pos 1) then 0 else n)
      (first_jid_cong (λ j. is_defined j.state && j.pid ==ℤ p) t'.job t.job max_jobs 1 h)

pub deleted-Step :
    (t : Table) (q : ℤ) (i : ℕ)
    → job_from_pid t q ≡ i
    → (t.job i).pid ==ℤ q ≡ true
    → Step t (deleted t i) q
unfolding clearjob
deleted-Step t q i e his = record {
  keeps_off = λ j off. ground (arith, off);
  puts_off = λ n. rw e (ground arith);
  keeps_job = λ p ne. same_test t (deleted t i) p (λ k. elim (Bool-cases (k == i)) [
    | inl here ↦
        (let same : k ≡ i = ground (arith, here) in
          let other : (t.job i).pid ==ℤ p ≡ false =
            subst (λ x. x ==ℤ p ≡ false) (sym (eq_of_==ℤ (t.job i).pid q his)) ne in
          rw same (ground (arith, other)))
    | inr there ↦ ground (arith, there)
  ]);
}

pub with_state-Step :
    (t : Table) (q : ℤ) (i : ℕ)
    → job_from_pid t q ≡ i
    → is_defined (t.job i).state ≡ true
    → Step t (with_state t i State.st) q
with_state-Step t q i e live = record {
  keeps_off = λ j off. ground (arith, off);
  puts_off = λ n. rw e (ground arith);
  keeps_job = λ p ne. same_test t (with_state t i State.st) p (λ k. elim (Bool-cases (k == i)) [
    | inl here ↦ (let same : k ≡ i = ground (arith, here) in rw same (ground (arith, live)))
    | inr there ↦ ground (arith, there)
  ]);
}
