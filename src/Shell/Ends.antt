-- ===== src/Shell/Ends.antt =====
-- The wait for the foreground job in Lab4/tsh.c ends.
use model_lib.Prelude.{ℕ, ◌≡◌, ◌≢◌, refl, true, false, List, [], ◌∷◌}
use model_lib.Prelude.Int.{ℤ, pos}
use model_lib.Jobs.{ok, job_from_pid}
use model_lib.Jobs.Valid.{IsValid}
use model_lib.Jobs.Change.{job_from_pid-live}
use model_lib.Handlers.{Shell, Event, Kernel, Mask, set_mask, sigchld_handler}
use model_lib.Shell.{Wake, wake, child, in_foreground, wait_fg, returned}
use model_lib.Shell.Reap.{Expected, sigchld_handler-Reaped}
use model_lib.Shell.Steps.{Off, Off-in_foreground}
use mathlib.Core.Path.{subst}
use model_lib.Shell.Batch.{reports, sigchld_handler-TakenOff}

-- The wait is over when the job is not in the foreground.
wait_fg-over :
    (k : Kernel) (m : Mask) (jid : ℤ) (ws : List Wake) (s : Shell)
    → in_foreground s.table jid ≡ ok false
    → wait_fg k m jid ws s ≡ ok (returned (set_mask s m))
unfolding wait_fg
wait_fg-over k m jid [] s h = rw h refl
wait_fg-over k m jid (w ∷ ws) s h = rw h refl

-- From a valid job list, the wait for a job in the foreground returns when the next signal is a
-- SIGCHLD that reports its process, ended or stopped, among however many children and wherever in
-- the batch, if every child reported as stopped has a job and none is reported as stopped after its
-- end: the handler reaps all of the batch without an abort, the wait then returns with the mask
-- asked for, whatever signals would follow, the job is not in the foreground any more, and the job
-- list is valid.
pub wait_fg-Ends :
    (k : Kernel) (m : Mask) (s : Shell) (pid : ℤ) (j : ℕ) (es : List Event) (ws : List Wake)
    → Expected s.table es
    → job_from_pid s.table pid ≡ j
    → j ≢ 0
    → in_foreground s.table (pos j) ≡ ok true
    → reports pid es ≡ true
    → (s' : Shell) × (sigchld_handler s es ≡ ok s')
      × (wait_fg k m (pos j) (child es ∷ ws) s ≡ ok (returned (set_mask s' m)))
      × (in_foreground s'.table (pos j) ≡ ok false)
      × IsValid s'.table
unfolding wait_fg wake
wait_fg-Ends k m s pid j es ws x h n fg r =
    let (s', run, v) = sigchld_handler-Reaped s es x in
    let (lo, hi, _, _) = job_from_pid-live s.table pid j h n in
    let off = (sigchld_handler-TakenOff s s' es run).1 pid in
    let over : in_foreground s'.table (pos j) ≡ ok false =
      Off-in_foreground s'.table j lo hi (subst (λ i. i ≢ 0 → Off s'.table i) h (λ a. off a r) n) in
    (s', run, rw (fg, run, wait_fg-over k m (pos j) ws s' over) refl, over, v)
