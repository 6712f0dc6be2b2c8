-- ===== src/Shell/Reap.antt =====
-- `sigchld_handler` of Lab4/tsh.c reaps every child without an abort.
use model_lib.Prelude.{
  ℕ, ◌≡◌, refl, Bool, true, false, List, [], ◌∷◌, arith, Bool-cases, inl, inr, if◌then◌else◌, not,
  ◌==◌,
}
use model_lib.Prelude.Int.{ℤ, pos, ltb_ℤ, ◌==ℤ◌}
use model_lib.Jobs.{Table, State, ok, job_set_state, delete_job, job_from_pid}
use model_lib.Prelude.Int.{eq_of_==ℤ}
use model_lib.Handlers.{job_terminated, job_stopped}
use mathlib.Core.Bool.{◌||◌, ◌&&◌}
use mathlib.Core.Logic.{◌≢◌}
use Prim.Native.Nat.{◌<◌, ◌≤◌}
use model_lib.Jobs.Valid.{IsValid}
use model_lib.Handlers.{
  Shell, Event, Status, exited, stopped, signaled, reap, sigchld_handler, print,
}
use model_lib.Jobs.Change.{
  job_from_pid-miss, job_from_pid-live, delete_job-deleted, deleted, deleted-IsValid,
  delete_job-absent, job_set_state-with_state, with_state, with_state-IsValid,
}
use model_lib.Jobs.{max_jobs, is_defined, job_exists}

-- The events report that the child `p` was stopped.
abbrev pub reports_stop : ℤ → List Event → Bool
reports_stop p [] = false
reports_stop p ((q, exited) ∷ es) = reports_stop p es
reports_stop p ((q, stopped n) ∷ es) = q ==ℤ p || reports_stop p es
reports_stop p ((q, signaled n) ∷ es) = reports_stop p es

-- A child that has ended is not reported as stopped afterwards.
abbrev pub orderly : List Event → Bool
orderly [] = true
orderly ((q, exited) ∷ es) = not (reports_stop q es) && orderly es
orderly ((q, stopped n) ∷ es) = orderly es
orderly ((q, signaled n) ∷ es) = not (reports_stop q es) && orderly es

-- Some job in the list belongs to the process.
pub record HasJob (t : Table) (p : ℤ) : Type 0 where
  pub job : ℕ
  pub above : 0 < job
  pub within : job ≤ max_jobs
  pub live : is_defined (t.job job).state ≡ true
  pub mine : (t.job job).pid ==ℤ p ≡ true
  pub positive : ltb_ℤ p (pos 1) ≡ false

job_from_pid-found : (t : Table) (p : ℤ) → HasJob t p → job_from_pid t p ≢ 0
job_from_pid-found t p h e =
    cc (job_from_pid-miss t p h.job e h.positive h.above h.within h.live, h.mine)

-- The list when the child `q` has ended.
abbrev pub after_death : Table → ℤ → Table
after_death t q = if job_from_pid t q == 0 then t else deleted t (job_from_pid t q)

no_job_zero : (t : Table) → job_exists t (pos 0) ≡ false
unfolding job_exists
no_job_zero t = refl

pub delete_job-after_death :
    (t : Table) (q : ℤ)
    → (b : Bool) × (delete_job t (pos (job_from_pid t q)) ≡ ok (after_death t q, b))
delete_job-after_death t q = elim (Bool-cases (job_from_pid t q == 0)) [
  | inl gone ↦
      (let zero_jid : job_from_pid t q ≡ 0 = ground arith in
        (false, rw zero_jid (delete_job-absent t (pos 0) (no_job_zero t))))
  | inr found ↦
      (let (lo, hi, live, _) = job_from_pid-live t q (job_from_pid t q) refl (ground arith) in
        (true, rw found (delete_job-deleted t (job_from_pid t q) lo hi live)))
]

after_death-IsValid : (t : Table) (q : ℤ) → IsValid t → IsValid (after_death t q)
after_death-IsValid t q v = elim (Bool-cases (job_from_pid t q == 0)) [
  | inl gone ↦ rw gone v
  | inr found ↦ rw found (deleted-IsValid v (job_from_pid t q))
]

-- A job of another process is still there.
deleted-HasJob :
    (t : Table) (q p : ℤ) (i : ℕ)
    → (t.job i).pid ==ℤ q ≡ true
    → (q ==ℤ p) ≡ false
    → HasJob t p
    → HasJob (deleted t i) p
deleted-HasJob t q p i his ne h =
    let apart : (i == h.job) ≡ false = elim (Bool-cases (i == h.job)) [
      | inr other ↦ other
      | inl here ↦
          (let same : i ≡ h.job = ground arith in
            let his' : (t.job h.job).pid ==ℤ q ≡ true = rw same at his in ground (arith, h.mine))
    ] in
    record {
      job = h.job;
      above = h.above;
      within = h.within;
      live = rw apart h.live;
      mine = rw apart h.mine;
      positive = h.positive;
    }

after_death-HasJob :
    (t : Table) (q p : ℤ) → (q ==ℤ p) ≡ false → HasJob t p → HasJob (after_death t q) p
after_death-HasJob t q p ne h = elim (Bool-cases (job_from_pid t q == 0)) [
  | inl gone ↦ rw gone h
  | inr found ↦
      (let (_, _, _, his) = job_from_pid-live t q (job_from_pid t q) refl (ground arith) in
        rw found (deleted-HasJob t q p (job_from_pid t q) his ne h))
]

with_state-HasJob :
    (t : Table) (p : ℤ) (i : ℕ) (st : State)
    → is_defined st ≡ true
    → HasJob t p
    → HasJob (with_state t i st) p
with_state-HasJob t p i state d h = record {
  job = h.job;
  above = h.above;
  within = h.within;
  live = ground (arith, h.live);
  mine = ground (arith, h.mine);
  positive = h.positive;
}

-- What is known of the events at the start of the handler.
pub record Expected (t : Table) (es : List Event) : Type 0 where
  pub valid : IsValid t
  pub in_order : orderly es ≡ true
  pub known : (p : ℤ) → reports_stop p es ≡ true → HasJob t p

abbrev pub Reaped : Shell → List Event → Type 0
Reaped s es = (s' : Shell) × (sigchld_handler s es ≡ ok s') × IsValid s'.table

handler-cons :
    (s s' : Shell) (e : Event) (es : List Event)
    → reap s e ≡ ok s'
    → Reaped s' es
    → Reaped s (e ∷ es)
unfolding sigchld_handler
handler-cons s s' e es step (s'', run, v) = (s'', rw step run, v)

not_reported :
    (p q : ℤ) (es : List Event)
    → reports_stop q es ≡ false
    → reports_stop p es ≡ true
    → (q ==ℤ p) ≡ false
not_reported p q es a b = elim (Bool-cases (q ==ℤ p)) [
  | inr other ↦ other
  | inl here ↦ cc (eq_of_==ℤ q p here)
]

exited-Reaped :
    (s : Shell) (q : ℤ) (es : List Event) (status : Status)
    → ((t : Table) (b : Bool)
        → delete_job s.table (pos (job_from_pid s.table q)) ≡ ok (t, b)
        → (s' : Shell) × (reap s (q, status) ≡ ok s') × (s'.table ≡ t))
    → ((s' : Shell) → Expected s'.table es → Reaped s' es)
    → IsValid s.table
    → reports_stop q es ≡ false
    → orderly es ≡ true
    → ((p : ℤ) → reports_stop p es ≡ true → HasJob s.table p)
    → Reaped s ((q, status) ∷ es)
exited-Reaped s q es status step rest v gone ord known =
    let (b, e) = delete_job-after_death s.table q in
    let (s', run, same) = step (after_death s.table q) b e in
    handler-cons s s' (q, status) es run
      (rest s' (
        rw same (record {
          valid = after_death-IsValid s.table q v;
          in_order = ord;
          known = λ p r. after_death-HasJob s.table q p (not_reported p q es gone r) (known p r);
        })))

-- When the job list is valid, every child that is reported as stopped has a job, and no child is
-- reported as stopped after its end, `sigchld_handler` reaps all the events without an abort and
-- leaves a valid list.
pub sigchld_handler-Reaped : (s : Shell) (es : List Event) → Expected s.table es → Reaped s es
unfolding sigchld_handler reap
sigchld_handler-Reaped s [] h = (s, refl, h.valid)
sigchld_handler-Reaped s ((q, exited) ∷ es) h =
    exited-Reaped s q es exited (λ t b e. (record s { table = t }, rw e, refl))
      (λ s' h'. sigchld_handler-Reaped s' es h') h.valid (ground (arith, h.in_order))
      (ground (arith, h.in_order)) h.known
sigchld_handler-Reaped s ((q, signaled n) ∷ es) h =
    exited-Reaped s q es (signaled n)
      (λ t b e.
        (print (record s { table = t }) (job_terminated (job_from_pid s.table q) q n), rw e, refl))
      (λ s' h'. sigchld_handler-Reaped s' es h') h.valid (ground (arith, h.in_order))
      (ground (arith, h.in_order)) h.known
sigchld_handler-Reaped s ((q, stopped n) ∷ es) h =
    let mine = h.known q (ground arith) in
    let (lo, hi, live, _) =
      job_from_pid-live s.table q (job_from_pid s.table q) refl
        (job_from_pid-found s.table q mine) in
    let t' = with_state s.table (job_from_pid s.table q) State.st in
    let e : job_set_state s.table (pos (job_from_pid s.table q)) State.st ≡ ok t' =
      job_set_state-with_state s.table (job_from_pid s.table q) State.st lo hi live refl
        (λ f. cc) in
    handler-cons s (print (record s { table = t' }) (job_stopped (job_from_pid s.table q) q n))
      (q, stopped n) es (rw e)
      (sigchld_handler-Reaped _ es (record {
        valid =
            with_state-IsValid h.valid (job_from_pid s.table q) State.st lo hi live refl (λ f. cc);
        in_order = h.in_order;
        known = λ p r. with_state-HasJob s.table p _ State.st refl (h.known p (ground arith));
      }))
