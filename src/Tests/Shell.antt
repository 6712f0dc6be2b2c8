-- ===== src/Tests/Shell.antt =====
-- Runs of `eval` and the handlers of Lab4/tsh.c.
use model_lib.Prelude.{◌≡◌, refl, true, false, List, [], ◌∷◌, some, arith}
use model_lib.Prelude.Int.{ℤ, pos, eq_of_==ℤ}
use model_lib.Jobs.{Outcome}
use model_lib.Jobs.Keeps.{Holds}
use model_lib.Handlers.{
  Shell, Event, exited, stopped, Kernel, enoent, mask_none, set_mask, sigchld_handler,
}
use model_lib.Shell.{child, Ended, eval, wait_fg}
use model_lib.Shell.Keeps.{Settled}
use model_lib.Shell.Eval.{eval-Settled}
use model_lib.Shell.Reap.{Expected, HasJob, Reaped, reports_stop, sigchld_handler-Reaped}
use model_lib.Shell.{find_process, run_bg, run_fg}
use model_lib.Jobs.{abort, job_from_pid, first_jid, ◌>>=◌}
use model_lib.Shell.Unknown.{find_process_aborts}
use model_lib.Shell.Ends.{wait_fg-Ends}
use model_lib.Jobs.Valid.{IsValid}
use model_lib.Jobs.{ok, job_exists, job_get_state, require_job_exists, get_job}
use model_lib.Shell.{in_foreground, returned}
use model_lib.Tests.Jobs.{one_job, one_job-IsValid}

abbrev kernel : Kernel
kernel = record {
  getpgid = λ p. p;
  killpg = λ p s. true;
  open_rw = λ n. enoent;
  open_w = λ n. enoent;
  open_r = λ n. enoent;
  dup2 = λ m n. true;
  close = λ n. true;
  dprintf = λ n l. true;
  execve = λ argv. true;
}

abbrev shell : Shell
shell = record { table = one_job; mask = mask_none; out = [] }

-- The child is stopped, and then it ends.
abbrev events : List Event
events = (pos 300, stopped 20) ∷ (pos 300, exited) ∷ []

has_job : HasJob one_job (pos 300)
has_job = record {
  job = 1;
  above = omega arith;
  within = omega arith;
  live = refl;
  mine = refl;
  positive = refl;
}

known : (p : ℤ) → reports_stop p events ≡ true → HasJob one_job p
known p r = rw⁻¹ (eq_of_==ℤ (pos 300) p (ground arith)) has_job

expected : Expected one_job events
expected = record { valid = one_job-IsValid; in_order = refl; known = known }

eval-Settled_example :
    (r : Outcome Ended) × (eval kernel [] shell (102 ∷ 103 ∷ 32 ∷ 49 ∷ []) (pos 301) true ≡ some r)
    × Holds (Settled mask_none) r
eval-Settled_example =
    eval-Settled kernel [] shell (102 ∷ 103 ∷ 32 ∷ 49 ∷ []) (pos 301) true one_job-IsValid refl

sigchld_handler-Reaped_example : Reaped shell events
sigchld_handler-Reaped_example = sigchld_handler-Reaped shell events expected

nobody : job_from_pid one_job (pos 999) ≡ 0
unfolding job_from_pid first_jid
nobody = refl

find_process_aborts_example :
    ((find_process one_job (pos 999) >>= run_bg kernel mask_none shell) ≡ abort)
    × ((find_process one_job (pos 999) >>= run_fg kernel mask_none [] shell) ≡ abort)
find_process_aborts_example = find_process_aborts kernel mask_none [] shell (pos 999) refl nobody

found : job_from_pid one_job (pos 300) ≡ 1
unfolding job_from_pid first_jid
found = refl

in_front : in_foreground one_job (pos 1) ≡ ok true
unfolding in_foreground job_exists job_get_state require_job_exists get_job
in_front = refl

-- Two children are reaped at once, and that of the job is not the first.
abbrev batch : List Event
batch = (pos 301, exited) ∷ events

batch-Expected : Expected one_job batch
batch-Expected = record { valid = one_job-IsValid; in_order = refl; known = known }

wait_fg-Ends_example :
    (s' : Shell) × (sigchld_handler shell batch ≡ ok s')
    × (wait_fg kernel mask_none (pos 1) (child batch ∷ []) shell
        ≡ ok (returned (set_mask s' mask_none)))
    × (in_foreground s'.table (pos 1) ≡ ok false)
    × IsValid s'.table
wait_fg-Ends_example =
    wait_fg-Ends kernel mask_none shell (pos 300) 1 batch [] batch-Expected found (omega arith)
      in_front refl
