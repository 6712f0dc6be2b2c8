-- ===== src/Shell/Eval.antt =====
-- `eval` of Lab4/tsh.c, over all of its branches.
use model_lib.Prelude.{◌≡◌, refl, sym, Bool, List, Option, some, none, Bool-cases, inl, inr}
use model_lib.Prelude.Int.{ℤ, pos, ltb_ℤ}
use model_lib.Jobs.{State, Outcome, add_job, job_get_cmdline, list_jobs}
use model_lib.Jobs.Valid.{IsValid}
use model_lib.Jobs.Keeps.{Holds, Holds-bind, Holds-any, add_job-keeps}
use model_lib.Parse.{
  Text, Parsed, ParselineReturn, BuiltinState, error, empty, quit, jobs, no_builtin,
}
use model_lib.Handlers.{Shell, Kernel, Mask, getout_fd, set_mask, mask_none}
use model_lib.Shell.{
  Wake, Ended, resume, run_bg, run_fg, run_jobs, with_target, find_target, Target, target,
  complaint, run_in_background, run_in_foreground, run_command, dispatch, evaluate, eval,
}
use model_lib.Shell.Keeps.{KeepsShell, Settled, wait_fg-Settled, resume-keeps}
use model_lib.Parse.Total.{parseline-Classified}
use model_lib.Handlers.{mask_all}

module _ (k : Kernel) (m : Mask) (free : m ≡ mask_none) (s : Shell) (v : IsValid s.table) where
  run_bg-Settled : (t : Target) → Holds (Settled m) (run_bg k m s t)
  unfolding run_bg
  run_bg-Settled (complaint o) = (v, sym free)
  run_bg-Settled (target jid pid) =
      Holds-bind KeepsShell (Settled m) (resume k s jid pid State.bg) _
        (resume-keeps k s jid pid _ v)
        (λ s' v'.
          Holds-bind (λ _. Unit {0}) (Settled m) (job_get_cmdline s'.table jid) _ (Holds-any _)
            (λ c _. (v', refl)))

  run_fg-Settled : (ws : List Wake) (t : Target) → Holds (Settled m) (run_fg k m ws s t)
  unfolding run_fg
  run_fg-Settled ws (complaint o) = (v, sym free)
  run_fg-Settled ws (target jid pid) =
      Holds-bind KeepsShell (Settled m) (resume k s jid pid State.fg) _
        (resume-keeps k s jid pid _ v) (λ s' v'. wait_fg-Settled k m jid ws s' v')

  with_target-Settled :
      (arg : Option Text) (command : Target → Outcome Ended)
      → ((t : Target) → Holds (Settled m) (command t))
      → Holds (Settled m) (with_target m s arg command)
  unfolding with_target
  with_target-Settled none command h = (v, refl)
  with_target-Settled (some arg) command h =
      Holds-bind (λ _. Unit {0}) (Settled m) (find_target s.table arg) command (Holds-any _)
        (λ t _. h t)

  run_jobs-Settled : (name : Option Text) → Holds (Settled m) (run_jobs k m s name)
  unfolding run_jobs
  run_jobs-Settled none =
      Holds-bind (λ _. Unit {0}) (Settled m) (list_jobs _ s.table _) _ (Holds-any _)
        (λ x _. (v, refl))
  run_jobs-Settled (some name) =
      Holds-bind (λ _. Unit {0}) (Settled m) (getout_fd k name) _ (Holds-any _)
        (λ n _.
          Holds-bind (λ _. Unit {0}) (Settled m) (list_jobs _ s.table n) _ (Holds-any _)
            (λ x _. (v, refl)))

  run_command-Settled :
      (ws : List Wake) (c : Text) (r : ParselineReturn) (pid : ℤ) (memory : Bool)
      → Holds (Settled m) (run_command k m ws s c r pid memory)
  unfolding run_command run_in_background run_in_foreground
  run_command-Settled ws c ParselineReturn.bg pid memory =
      Holds-bind (λ x. IsValid x.0) (Settled m) (add_job s.table pid State.bg (some c) memory) _
        (add_job-keeps v pid State.bg (some c) memory) (λ x h. (h, refl))
  run_command-Settled ws c ParselineReturn.fg pid memory =
      Holds-bind (λ x. IsValid x.0) (Settled m) (add_job s.table pid State.fg (some c) memory) _
        (add_job-keeps v pid State.fg (some c) memory)
        (λ x h. wait_fg-Settled k m _ ws (record s { table = x.0 }) h)
  run_command-Settled ws c ParselineReturn.empty pid memory = (v, refl)
  run_command-Settled ws c ParselineReturn.error pid memory = (v, refl)

  dispatch-Settled :
      (ws : List Wake) (c : Text) (p : Parsed) (pid : ℤ) (memory : Bool) (b : BuiltinState)
      → Holds (Settled m) (dispatch k m ws s c p pid memory b)
  unfolding dispatch
  dispatch-Settled ws c p pid memory quit = tt
  dispatch-Settled ws c p pid memory jobs = run_jobs-Settled p.token.outfile
  dispatch-Settled ws c p pid memory BuiltinState.bg =
      with_target-Settled _ (run_bg k m s) run_bg-Settled
  dispatch-Settled ws c p pid memory BuiltinState.fg =
      with_target-Settled _ (run_fg k m ws s) (run_fg-Settled ws)
  dispatch-Settled ws c p pid memory no_builtin = elim (Bool-cases (ltb_ℤ pid (pos 0))) [
    | inl failed ↦ rw failed tt
    | inr forked ↦ rw forked (run_command-Settled ws c p.result pid memory)
  ]

  evaluate-Settled :
      (ws : List Wake) (c : Text) (pid : ℤ) (memory : Bool) (p : Parsed) (r : ParselineReturn)
      → Holds (Settled m) (evaluate k m ws s c pid memory p r)
  unfolding evaluate
  evaluate-Settled ws c pid memory p error = (v, refl)
  evaluate-Settled ws c pid memory p empty = (v, refl)
  evaluate-Settled ws c pid memory p ParselineReturn.fg = dispatch-Settled ws c p pid memory _
  evaluate-Settled ws c pid memory p ParselineReturn.bg = dispatch-Settled ws c p pid memory _

-- From a valid job list and with no signal blocked, `eval` of any command line ends, whatever the
-- kernel answers and whichever signals arrive: it exits or aborts, or it returns or waits with a
-- valid job list, and on return no signal is blocked.
pub eval-Settled :
    (k : Kernel) (ws : List Wake) (s : Shell) (c : Text) (pid : ℤ) (memory : Bool)
    → IsValid s.table
    → s.mask ≡ mask_none
    → (r : Outcome Ended) × (eval k ws s c pid memory ≡ some r) × Holds (Settled s.mask) r
unfolding eval
eval-Settled k ws s c pid memory v free =
    let (p, e, _) = parseline-Classified (some c) in
    (_, rw e, evaluate-Settled k s.mask free (set_mask s mask_all) v ws c pid memory p p.result)
