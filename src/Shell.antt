-- ===== src/Shell.antt =====
-- Lab4/tsh.c: `eval` in the parent process.
pub mod Child
pub mod Eval
pub mod Keeps
pub mod Reap
pub mod Unknown
pub mod Steps
pub mod Batch
pub mod Ends
use model_lib.Prelude.{
  ℕ, zero, suc, ◌+◌, ◌-◌, ◌*◌, ◌%◌, ◌^◌, Bool, true, false, not, ◌||◌, ◌&&◌, Option, none, some,
  List, [], ◌∷◌, ◌++◌, ltb, leb, ◌==◌, if◌then◌else◌, drop,
}
use mathlib.Core.Option
use model_lib.Prelude.Int.{ℤ, pos, negsuc, ltb_ℤ, ◌==ℤ◌}
use model_lib.Parse.{
  Text, Tokens, first_byte, ParselineReturn, BuiltinState, error, empty, no_builtin, quit, jobs,
  Parsed, parseline,
}
use model_lib.Jobs.{
  Table, State, is_fg, Outcome, ok, abort, exit, ◌>>=◌, ◌>>◌, add_job, delete_job, job_exists,
  job_from_pid, job_get_cmdline, job_get_pid, job_get_state, job_set_state, fg_job, Line, list_jobs,
}
use model_lib.Handlers.{
  Event, Kernel, Mask, Opened, Output, Shell, Signal, Status, bad_argument, eacces, enoent, exited,
  fd, file_error, forward_signal, getout_fd, job_line, job_stopped, job_terminated, killpg_failed,
  listing, mask_all, mask_none, needs_argument, no_such_job, open_write_only, other_error, print,
  reap, resumed, sent, set_mask, sigchld_handler, sigcont, sigint, sigint_handler, signal_group,
  signaled, sigtstp, sigtstp_handler, stopped,
}

-- `isspace` and `isdigit`.
abbrev pub is_space : ℕ → Bool
is_space c = c == b' ' || (leb 9 c && leb c 13)

abbrev pub is_digit : ℕ → Bool
is_digit c = leb b'0' c && leb c b'9'

unfoldable pub digits_from : ℕ → Text → ℕ
digits_from n [] = n
digits_from n (c ∷ s) =
    let rest = digits_from (n * 10 + (c - b'0')) s in if is_digit c then rest else n

abbrev pub negate : ℕ → ℤ
negate zero = pos 0
negate (suc n) = negsuc n

abbrev pub smaller : ℕ → ℕ → ℕ
smaller m n = if ltb n m then n else m

-- A `long` as an `int`: its low 32 bits, with a sign.
unfoldable pub to_int : ℕ → ℤ
to_int n = let w = n % 2 ^ 32 in if ltb w (2 ^ 31) then pos w else negate (2 ^ 32 - w)

-- `strtol` stops at the ends of a `long`.
unfoldable pub atoi_signed : Text → ℤ
atoi_signed [] = pos 0
atoi_signed (c ∷ s) =
    if c == b'-'
    then to_int (2 ^ 64 - smaller (digits_from 0 s) (2 ^ 63))
    else if c == b'+'
    then to_int (smaller (digits_from 0 s) (2 ^ 63 - 1))
    else to_int (smaller (digits_from 0 (c ∷ s)) (2 ^ 63 - 1))

-- The standard library's `atoi`, which is `(int) strtol(s, NULL, 10)`.
unfoldable pub atoi : Text → ℤ
atoi [] = pos 0
atoi (c ∷ s) = let rest = atoi s in if is_space c then rest else atoi_signed (c ∷ s)

-- The argument of `bg` and `fg`: the job and its process, or the message for the user.
pub data Target : Type 0 where
  target : ℤ → ℤ → Target
  complaint : Output → Target

-- `%jobid`
unfoldable pub find_job : Table → ℤ → Outcome Target
find_job t jid =
    if job_exists t jid
    then job_get_pid t jid >>= (λ pid. ok (target jid pid))
    else ok (complaint (no_such_job jid))

-- `PID`
unfoldable pub find_process : Table → ℤ → Outcome Target
find_process t pid =
    if pid ==ℤ pos 0
    then ok (complaint needs_argument)
    else ok (target (pos (job_from_pid t pid)) pid)

unfoldable pub find_target : Table → Text → Outcome Target
find_target t arg =
    if first_byte arg == b'%'
    then find_job t (atoi (drop 1 arg))
    else if not (is_digit (first_byte arg))
    then ok (complaint bad_argument)
    else find_process t (atoi arg)

-- An asynchronous signal that ends a `sigsuspend`, with what `waitpid` then reports.
pub data Wake : Type 0 where
  child : List Event → Wake
  interrupt : Wake
  suspend : Wake

unfoldable pub wake : Kernel → Shell → Wake → Outcome Shell
wake k s (child es) = sigchld_handler s es
wake k s interrupt = sigint_handler k s
wake k s suspend = sigtstp_handler k s

-- `job_exists(jid) && job_get_state(jid) == FG`
unfoldable pub in_foreground : Table → ℤ → Outcome Bool
in_foreground t jid =
    if job_exists t jid then job_get_state t jid >>= (λ st. ok (is_fg st)) else ok false

-- How `eval` ends: it returns, or it still waits when the signals that were given are used up.
pub data Ended : Type 0 where
  returned : Shell → Ended
  waiting : Shell → Ended

-- `while (job_exists(jid) && job_get_state(jid) == FG) sigsuspend(&mask_none);` and the mask `m`
-- that is set behind it.
unfoldable pub wait_fg : Kernel → Mask → ℤ → List Wake → Shell → Outcome Ended
wait_fg k m jid [] s =
    in_foreground s.table jid >>= (λ b. ok (if b then waiting s else returned (set_mask s m)))
wait_fg k m jid (w ∷ ws) s = do
  b ← in_foreground s.table jid
  let next = wake k s w >>= wait_fg k m jid ws
  if b then next else ok (returned (set_mask s m))

-- `job_set_state` and `killpg` of `bg` and `fg`.
unfoldable pub resume : Kernel → Shell → ℤ → ℤ → State → Outcome Shell
resume k s jid pid state = do
  t ← job_set_state s.table jid state
  if k.killpg pid sigcont then ok (print (record s { table = t }) (sent pid sigcont)) else exit 0

unfoldable pub run_bg : Kernel → Mask → Shell → Target → Outcome Ended
run_bg k m s (complaint o) = ok (returned (set_mask (print s o) mask_none))
run_bg k m s (target jid pid) = do
  s' ← resume k s jid pid State.bg
  cmdline ← job_get_cmdline s'.table jid
  ok (returned (set_mask (print s' (resumed jid pid cmdline)) m))

unfoldable pub run_fg : Kernel → Mask → List Wake → Shell → Target → Outcome Ended
run_fg k m ws s (complaint o) = ok (returned (set_mask (print s o) mask_none))
run_fg k m ws s (target jid pid) = resume k s jid pid State.fg >>= wait_fg k m jid ws

-- `token.argv[1]`, or `none` if `argc == 1`.
abbrev pub first_argument : List Text → Option Text
first_argument [] = none
first_argument (_ ∷ []) = none
first_argument (_ ∷ a ∷ _) = some a

-- `bg` and `fg`: the argument, and then the command.
unfoldable pub with_target : Mask → Shell → Option Text → (Target → Outcome Ended) → Outcome Ended
with_target m s none command = ok (returned (set_mask (print s needs_argument) m))
with_target m s (some arg) command = find_target s.table arg >>= command

unfoldable pub run_jobs : Kernel → Mask → Shell → Option Text → Outcome Ended
run_jobs k m s none = do
  (lines, _) ← list_jobs (k.dprintf (pos 1)) s.table (pos 1)
  ok (returned (set_mask (print s (listing lines)) m))
run_jobs k m s (some name) = do
  out_fd ← getout_fd k name
  (lines, _) ← list_jobs (k.dprintf out_fd) s.table out_fd
  ok (returned (set_mask (print s (listing lines)) m))

-- The parent behind `Fork`, which exits if there is no process.
unfoldable pub run_in_background : Mask → Shell → Text → ℤ → Bool → Outcome Ended
run_in_background m s cmdline pid realloc_ok = do
  (t, _) ← add_job s.table pid State.bg (some cmdline) realloc_ok
  let s' = print (record s { table = t }) (job_line (job_from_pid t pid) pid (some cmdline))
  ok (returned (set_mask s' m))

unfoldable pub run_in_foreground :
    Kernel → Mask → List Wake → Shell → Text → ℤ → Bool → Outcome Ended
run_in_foreground k m ws s cmdline pid realloc_ok = do
  (t, _) ← add_job s.table pid State.fg (some cmdline) realloc_ok
  wait_fg k m (pos (job_from_pid t pid)) ws (record s { table = t })

unfoldable pub run_command :
    Kernel → Mask → List Wake → Shell → Text → ParselineReturn → ℤ → Bool → Outcome Ended
run_command k m ws s cmdline ParselineReturn.bg pid r = run_in_background m s cmdline pid r
run_command k m ws s cmdline ParselineReturn.fg pid r = run_in_foreground k m ws s cmdline pid r
run_command k m ws s cmdline _ pid r = ok (returned (set_mask s m))

-- `m` is the mask on entry; `pid` is what `fork` returns to the parent.
unfoldable pub dispatch :
    Kernel → Mask → List Wake → Shell → Text → Parsed → ℤ → Bool → BuiltinState → Outcome Ended
dispatch k m ws s cmdline p pid r quit = exit 0
dispatch k m ws s cmdline p pid r jobs = run_jobs k m s p.token.outfile
dispatch k m ws s cmdline p pid r BuiltinState.bg =
    with_target m s (first_argument p.token.argv) (run_bg k m s)
dispatch k m ws s cmdline p pid r BuiltinState.fg =
    with_target m s (first_argument p.token.argv) (run_fg k m ws s)
dispatch k m ws s cmdline p pid r no_builtin =
    if ltb_ℤ pid (pos 0) then exit 0 else run_command k m ws s cmdline p.result pid r

unfoldable pub evaluate :
    Kernel → Mask → List Wake → Shell → Text → ℤ → Bool → Parsed → ParselineReturn → Outcome Ended
evaluate k m ws s cmdline pid r p error = ok (returned (set_mask s m))
evaluate k m ws s cmdline pid r p empty = ok (returned (set_mask s m))
evaluate k m ws s cmdline pid r p _ = dispatch k m ws s cmdline p pid r p.token.builtin

-- `eval` in the parent; `none` is exhausted fuel of `parseline`.
unfoldable pub eval : Kernel → List Wake → Shell → Text → ℤ → Bool → Option (Outcome Ended)
eval k ws s cmdline pid realloc_ok =
    Option.map (λ p. evaluate k s.mask ws (set_mask s mask_all) cmdline pid realloc_ok p p.result)
      (parseline (some cmdline))
