-- ===== src/Tests/Jobs.antt =====
-- Runs of the job list of Lab4/tsh_helper.c.
use model_lib.Prelude.{ℕ, ◌≡◌, refl, true, false, List, [], ◌∷◌, some, arith}
use model_lib.Prelude.Int.{pos}
use model_lib.Jobs.{
  Table, State, ok, cleared, init_job_list, may_add, fg_job, first_jid, add_job, job_from_pid,
}
use model_lib.Prelude.{false}
use model_lib.Jobs.Valid.{IsValid, init_job_list-IsValid}
use model_lib.Jobs.Add.{added, added-IsValid, add_job-added}

abbrev garbage : Table
garbage = record { job = λ _. cleared; nextjid = 7; init = false }

abbrev pub no_jobs : Table
no_jobs = record { job = λ _. cleared; nextjid = 1; init = true }

abbrev ls : List ℕ
ls = 108 ∷ 115 ∷ []

pub no_jobs-IsValid : IsValid no_jobs
unfolding init_job_list
no_jobs-IsValid = (init_job_list-IsValid garbage).0

may : may_add no_jobs State.fg ≡ true
unfolding fg_job first_jid
may = refl

-- The list with one job in the foreground.
abbrev pub one_job : Table
one_job = added no_jobs (pos 300) State.fg ls

pub one_job-IsValid : IsValid one_job
one_job-IsValid = added-IsValid no_jobs-IsValid (pos 300) State.fg ls may refl (omega arith)

pub one_job-pid : job_from_pid one_job (pos 300) ≡ 1
unfolding job_from_pid first_jid
one_job-pid = refl

add_job-added_example : add_job no_jobs (pos 300) State.fg (some ls) true ≡ ok (one_job, 1)
add_job-added_example = add_job-added no_jobs-IsValid (pos 300) State.fg ls may refl (omega arith)
