-- ===== src/Shell/Unknown.antt =====
-- Lab4/tsh.c: `bg` and `fg` with the number of a process that has no job.
use model_lib.Prelude.{◌≡◌, refl, false, List}
use model_lib.Prelude.Int.{ℤ, pos, ◌==ℤ◌}
use model_lib.Jobs.{
  Table, State, ok, abort, ◌>>=◌, job_from_pid, job_exists, job_set_state, require_job_exists,
}
use model_lib.Handlers.{Shell, Kernel, Mask}
use model_lib.Shell.{Wake, target, find_process, run_bg, run_fg, resume}

pub job_set_state-zero : (t : Table) (s : State) → job_set_state t (pos 0) s ≡ abort
unfolding job_set_state require_job_exists job_exists
job_set_state-zero t s = refl

resume-zero :
    (k : Kernel) (s : Shell) (pid : ℤ) (state : State) → resume k s (pos 0) pid state ≡ abort
unfolding resume
resume-zero k s pid state = rw (job_set_state-zero s.table state) refl

find_process-unknown :
    (t : Table) (pid : ℤ)
    → (pid ==ℤ pos 0) ≡ false
    → job_from_pid t pid ≡ 0
    → find_process t pid ≡ ok (target (pos 0) pid)
unfolding find_process
find_process-unknown t pid nz e = rw (nz, e) refl

-- `bg` and `fg` with a number other than 0 that is the process of no job abort the shell.
pub find_process_aborts :
    (k : Kernel) (m : Mask) (ws : List Wake) (s : Shell) (pid : ℤ)
    → (pid ==ℤ pos 0) ≡ false
    → job_from_pid s.table pid ≡ 0
    → ((find_process s.table pid >>= run_bg k m s) ≡ abort)
      × ((find_process s.table pid >>= run_fg k m ws s) ≡ abort)
unfolding run_bg run_fg
find_process_aborts k m ws s pid nz e =
    rw
      (
        find_process-unknown s.table pid nz e,
        resume-zero k s pid State.bg,
        resume-zero k s pid State.fg,
      )
      (refl, refl)
