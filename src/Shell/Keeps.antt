-- ===== src/Shell/Keeps.antt =====
-- The steps of Lab4/tsh.c keep the job list valid: the handlers, the wait, and `bg` and `fg`.
use model_lib.Prelude.{
  ◌≡◌, refl, Bool, true, false, List, [], ◌∷◌, Bool-cases, inl, inr, if◌then◌else◌, ltb,
}
use model_lib.Prelude.Int.{ℤ, ◌==ℤ◌}
use model_lib.Jobs.{State, ok, ◌>>=◌, job_set_state, delete_job, fg_job, job_get_pid}
use model_lib.Jobs.Valid.{IsValid}
use model_lib.Jobs.Keeps.{
  Holds, Holds-bind, Holds-any, Holds-mono, delete_job-keeps, job_set_state-keeps,
}
use model_lib.Handlers.{
  Shell, Event, exited, stopped, signaled, Signal, sigcont, Kernel, Mask, reap, sigchld_handler,
  signal_group, forward_signal, sigint_handler, sigtstp_handler, set_mask,
}
use model_lib.Shell.{
  Wake, child, interrupt, suspend, wake, in_foreground, wait_fg, Ended, returned, waiting, resume,
}

abbrev pub KeepsShell : Shell → Type 0
KeepsShell s = IsValid s.table

pub reap-keeps : (s : Shell) (e : Event) → IsValid s.table → Holds KeepsShell (reap s e)
unfolding reap
reap-keeps s (pid, exited) v =
    Holds-bind (λ x. IsValid x.0) KeepsShell (delete_job s.table _) _ (delete_job-keeps v _)
      (λ a h. h)
reap-keeps s (pid, stopped n) v =
    Holds-bind IsValid KeepsShell (job_set_state s.table _ _) _ (job_set_state-keeps v _ _)
      (λ a h. h)
reap-keeps s (pid, signaled n) v =
    Holds-bind (λ x. IsValid x.0) KeepsShell (delete_job s.table _) _ (delete_job-keeps v _)
      (λ a h. h)

pub sigchld_handler-keeps :
    (s : Shell) (es : List Event) → IsValid s.table → Holds KeepsShell (sigchld_handler s es)
unfolding sigchld_handler
sigchld_handler-keeps s [] v = v
sigchld_handler-keeps s (e ∷ es) v =
    Holds-bind KeepsShell KeepsShell (reap s e) _ (reap-keeps s e v)
      (λ s' h. sigchld_handler-keeps s' es h)

-- Forwarding a signal leaves the job list alone.
abbrev pub SameTable : Shell → Shell → Type 0
SameTable s s' = s'.table ≡ s.table

signal_group-same :
    (k : Kernel) (sig : Signal) (s : Shell) (pid : ℤ)
    → Holds (SameTable s) (signal_group k sig s pid)
unfolding signal_group
signal_group-same k sig s pid = elim (Bool-cases (pid ==ℤ k.getpgid pid)) [
  | inr other ↦ rw other refl
  | inl leader ↦ rw leader (elim (Bool-cases (k.killpg (k.getpgid pid) sig)) [
    | inl sent ↦ rw sent refl
    | inr failed ↦ rw failed tt
  ])
]

pub forward_signal-same :
    (k : Kernel) (sig : Signal) (s : Shell) → Holds (SameTable s) (forward_signal k sig s)
unfolding forward_signal
forward_signal-same k sig s = elim (Bool-cases (ltb 0 (fg_job s.table))) [
  | inr idle ↦ rw idle refl
  | inl busy ↦ rw busy (
      Holds-bind (λ _. Unit {0}) (SameTable s) (job_get_pid s.table _) _ (Holds-any _)
        (λ pid _. signal_group-same k sig s pid))
]

pub forward_signal-keeps :
    (k : Kernel) (sig : Signal) (s : Shell)
    → IsValid s.table
    → Holds KeepsShell (forward_signal k sig s)
forward_signal-keeps k sig s v =
    Holds-mono (SameTable s) KeepsShell (forward_signal k sig s) (forward_signal-same k sig s)
      (λ s' e. rw e v)

pub wake-keeps :
    (k : Kernel) (s : Shell) (w : Wake) → IsValid s.table → Holds KeepsShell (wake k s w)
unfolding wake sigint_handler sigtstp_handler
wake-keeps k s (child es) v = sigchld_handler-keeps s es v
wake-keeps k s interrupt v = forward_signal-keeps k _ s v
wake-keeps k s suspend v = forward_signal-keeps k _ s v

-- A call of `eval` that ends leaves a valid list and the mask `m`.
abbrev pub Settled : Mask → Ended → Type 0
Settled m (returned s) = IsValid s.table × (s.mask ≡ m)
Settled m (waiting s) = IsValid s.table

pub wait_fg-Settled :
    (k : Kernel) (m : Mask) (jid : ℤ) (ws : List Wake) (s : Shell)
    → IsValid s.table
    → Holds (Settled m) (wait_fg k m jid ws s)
unfolding wait_fg
wait_fg-Settled k m jid [] s v =
    Holds-bind (λ _. Unit {0}) (Settled m) (in_foreground s.table jid) _ (Holds-any _)
      (λ b _. still b)
  where
    still : (b : Bool) → Holds (Settled m) (ok (if b then waiting s else returned (set_mask s m)))
    still true = v
    still false = (v, refl)
wait_fg-Settled k m jid (w ∷ ws) s v =
    Holds-bind (λ _. Unit {0}) (Settled m) (in_foreground s.table jid) _ (Holds-any _)
      (still (
        Holds-bind KeepsShell (Settled m) (wake k s w) (wait_fg k m jid ws) (wake-keeps k s w v)
          (λ s' v'. wait_fg-Settled k m jid ws s' v')))
  where
    still :
        Holds (Settled m) (wake k s w >>= wait_fg k m jid ws)
        → (b : Bool) → Unit {0}
        → Holds
            (Settled m)
            (if b then wake k s w >>= wait_fg k m jid ws else ok (returned (set_mask s m)))
    still next true _ = next
    still next false _ = (v, refl)

pub resume-keeps :
    (k : Kernel) (s : Shell) (jid pid : ℤ) (st : State)
    → IsValid s.table
    → Holds KeepsShell (resume k s jid pid st)
unfolding resume
resume-keeps k s jid pid state v =
    Holds-bind IsValid KeepsShell (job_set_state s.table jid state) _
      (job_set_state-keeps v jid state)
      (λ t h. elim (Bool-cases (k.killpg pid sigcont)) [
        | inl sent ↦ rw sent h
        | inr failed ↦ rw failed tt
      ])
