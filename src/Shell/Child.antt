-- ===== src/Shell/Child.antt =====
-- Lab4/tsh.c: what the child of `eval` does between `fork` and `execve`.
use model_lib.Prelude.{Bool, Option, none, some, List, if◌then◌else◌}
use model_lib.Prelude.Int.{ℤ, pos}
use model_lib.Jobs.{Outcome, ok, exit, ◌>>=◌, ◌>>◌}
use model_lib.Parse.{Text, Tokens}
use model_lib.Handlers.{Kernel, Opened, fd, eacces, enoent, other_error, getout_fd}

-- The child runs a program, or it returns from `eval` into the read loop.
pub data ChildEnd : Type 0 where
  executed : List Text → ChildEnd
  back_in_loop : ChildEnd

abbrev check : Bool → Outcome (Unit {0})
check b = if b then ok tt else exit 0

-- `dup2(fd, std)`, `close(fd)`, `dup2(std, std)`, each with its exit on failure.
unfoldable pub redirect : Kernel → ℤ → ℤ → Outcome (Unit {0})
redirect k n std = do check (k.dup2 n std); check (k.close n); check (k.dup2 std std)

unfoldable pub redirect_output : Kernel → Option Text → Outcome (Unit {0})
redirect_output k none = ok tt
redirect_output k (some name) = do n ← getout_fd k name; redirect k n (pos 1)

unfoldable pub execute : Kernel → List Text → Outcome ChildEnd
execute k argv = if k.execve argv then ok (executed argv) else exit 0

unfoldable pub redirect_input : Kernel → List Text → Opened → Outcome ChildEnd
redirect_input k argv (fd n) = do redirect k n (pos 0); execute k argv
redirect_input k argv enoent = exit 0
redirect_input k argv eacces = ok back_in_loop
redirect_input k argv other_error = ok back_in_loop

unfoldable pub run_child_in : Kernel → List Text → Option Text → Outcome ChildEnd
run_child_in k argv none = execute k argv
run_child_in k argv (some name) = redirect_input k argv (k.open_r name)

unfoldable pub run_child : Kernel → Tokens → Outcome ChildEnd
run_child k token = do redirect_output k token.outfile; run_child_in k token.argv token.infile
