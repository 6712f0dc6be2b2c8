-- ===== src/Handlers.antt =====
-- Lab4/tsh.c: the state of the shell, its kernel, and the signal handlers. Children change state by the
-- events that `waitpid` reports.
use model_lib.Prelude.{ℕ, Bool, true, false, Option, List, [], ◌∷◌, ◌++◌, ltb, if◌then◌else◌}
use model_lib.Prelude.Int.{ℤ, pos, ◌==ℤ◌}
use model_lib.Parse.{Text}
use model_lib.Jobs.{
  Table, State, Outcome, ok, exit, ◌>>=◌, delete_job, job_from_pid, job_get_pid, job_set_state,
  fg_job, Line,
}

pub data Signal : Type 0 where
  sigint sigtstp sigcont : Signal

-- What `waitpid` reports of a child; the number is a signal.
pub data Status : Type 0 where
  exited : Status
  stopped : ℕ → Status
  signaled : ℕ → Status

abbrev pub Event : Type 0
Event = ℤ × Status

-- What the shell prints, and the signals that it sends to process groups.
pub data Output : Type 0 where
  needs_argument : Output
  bad_argument : Output
  no_such_job : ℤ → Output
  job_line : ℕ → ℤ → Option Text → Output
  resumed : ℤ → ℤ → Option Text → Output
  job_stopped : ℕ → ℤ → ℕ → Output
  job_terminated : ℕ → ℤ → ℕ → Output
  listing : List Line → Output
  killpg_failed : Output
  file_error : Text → Output
  sent : ℤ → Signal → Output

-- Which of SIGCHLD, SIGINT and SIGTSTP are blocked.
pub record Mask : Type 0 where
  pub chld : Bool
  pub int : Bool
  pub tstp : Bool

abbrev pub mask_none : Mask
mask_none = record { chld = false; int = false; tstp = false }

abbrev pub mask_all : Mask
mask_all = record { chld = true; int = true; tstp = true }

pub record Shell : Type 0 where
  pub table : Table
  pub mask : Mask
  pub out : List Output

abbrev pub print : Shell → Output → Shell
print s o = record s { out = s.out ++ o ∷ [] }

abbrev pub set_mask : Shell → Mask → Shell
set_mask s m = record s { mask = m }

-- One round of the loop of `sigchld_handler`.
unfoldable pub reap : Shell → Event → Outcome Shell
reap s (pid, exited) = do
  (t, _) ← delete_job s.table (pos (job_from_pid s.table pid))
  ok (record s { table = t })
reap s (pid, stopped sig) = do
  let jid = job_from_pid s.table pid
  t ← job_set_state s.table (pos jid) State.st
  ok (print (record s { table = t }) (job_stopped jid pid sig))
reap s (pid, signaled sig) = do
  let jid = job_from_pid s.table pid
  (t, _) ← delete_job s.table (pos jid)
  ok (print (record s { table = t }) (job_terminated jid pid sig))

-- The events are those that `waitpid` returns until it has no more. The kernel restores the mask
-- when a handler returns.
unfoldable pub sigchld_handler : Shell → List Event → Outcome Shell
sigchld_handler s [] = ok s
sigchld_handler s (e ∷ es) = do s' ← reap s e; sigchld_handler s' es

-- What `open` gives: a descriptor, or `errno`.
pub data Opened : Type 0 where
  fd : ℤ → Opened
  eacces enoent other_error : Opened

-- What the shell asks of the kernel; a Boolean says whether the call succeeds. `open_rw` is `open`
-- with `O_RDWR`, `open_w` with `O_WRONLY`, and `open_r` with `O_RDONLY`.
pub record Kernel : Type 0 where
  pub getpgid : ℤ → ℤ
  pub killpg : ℤ → Signal → Bool
  pub open_rw : Text → Opened
  pub open_w : Text → Opened
  pub open_r : Text → Opened
  pub dup2 : ℤ → ℤ → Bool
  pub close : ℤ → Bool
  pub dprintf : ℤ → Line → Bool
  pub execve : List Text → Bool

unfoldable pub signal_group : Kernel → Signal → Shell → ℤ → Outcome Shell
signal_group k sig s pid =
    if pid ==ℤ k.getpgid pid
    then if k.killpg (k.getpgid pid) sig then ok (print s (sent (k.getpgid pid) sig)) else exit 0
    else ok s

-- `sigint_handler` and `sigtstp_handler` differ in the signal.
unfoldable pub forward_signal : Kernel → Signal → Shell → Outcome Shell
forward_signal k sig s =
    if ltb 0 (fg_job s.table)
    then job_get_pid s.table (pos (fg_job s.table)) >>= signal_group k sig s
    else ok s

unfoldable pub sigint_handler : Kernel → Shell → Outcome Shell
sigint_handler k = forward_signal k sigint

unfoldable pub sigtstp_handler : Kernel → Shell → Outcome Shell
sigtstp_handler k = forward_signal k sigtstp

unfoldable pub open_write_only : Kernel → Text → Outcome ℤ
open_write_only k name = elim (k.open_w name) [ fd n ↦ ok n | _ ↦ exit 0 ]

unfoldable pub getout_fd : Kernel → Text → Outcome ℤ
getout_fd k name = elim (k.open_rw name) [
  | fd n ↦ ok n
  | eacces ↦ open_write_only k name
  | enoent ↦ exit 0
  | other_error ↦ exit 0
]
