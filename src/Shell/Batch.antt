-- ===== src/Shell/Batch.antt =====
-- `sigchld_handler` of Lab4/tsh.c over several events: what it does to the jobs in the foreground.
use model_lib.Prelude.{
  ℕ, zero, suc, ap, ◌≡◌, ◌≢◌, refl, sym, ◌∙◌, Bool, true, false, List, [], ◌∷◌, if◌then◌else◌, ◌==◌,
  arith, Bool-cases, inl, inr,
}
use model_lib.Prelude.Int.{ℤ, pos, ◌==ℤ◌, eq_of_==ℤ}
use mathlib.Core.Path.{subst}
use model_lib.Jobs.{Table, State, Outcome, ok, abort, exit, ◌>>=◌, job_set_state, job_from_pid}
use model_lib.Jobs.Change.{job_from_pid-live, job_set_state-with_state, with_state}
use model_lib.Handlers.{
  Shell, Event, Status, exited, stopped, signaled, reap, sigchld_handler, print, job_terminated,
  job_stopped,
}
use model_lib.Shell.Unknown.{job_set_state-zero}
use model_lib.Shell.Steps.{Off, Step, deleted-Step, with_state-Step}
use model_lib.Shell.Reap.{after_death, delete_job-after_death}

-- The events report something of the process.
abbrev pub reports : ℤ → List Event → Bool
reports p [] = false
reports p ((q, st) ∷ es) = if q ==ℤ p then true else reports p es

bind-ok {ℓ ℓ'} :
    {A : Type ℓ} {B : Type ℓ'} (m : Outcome A) (f : A → Outcome B) (b : B)
    → (m >>= f) ≡ ok b
    → (a : A) × (m ≡ ok a) × (f a ≡ ok b)
bind-ok (ok a) f b e = (a, refl, e)
bind-ok abort f b e = absurd (ground (arith, e))
bind-ok (exit n) f b e = absurd (ground (arith, e))

Step-same : (t : Table) (q : ℤ) → job_from_pid t q ≡ 0 → Step t t q
Step-same t q z = record {
  keeps_off = λ j off. off;
  puts_off = λ n. absurd (n z);
  keeps_job = λ p ne. refl;
}

after_death-Step : (t : Table) (q : ℤ) → Step t (after_death t q) q
after_death-Step t q = elim (Bool-cases (job_from_pid t q == 0)) [
  | inl gone ↦ rw gone (Step-same t q (ground (arith, gone)))
  | inr found ↦
      (let (_, _, _, his) = job_from_pid-live t q (job_from_pid t q) refl (ground (arith, found)) in
        rw found (deleted-Step t q (job_from_pid t q) refl his))
]

abbrev table_of : Table → Outcome Shell → Table
table_of t (ok s) = s.table
table_of t abort = t
table_of t (exit n) = t

abbrev result_table : Table → Outcome Table → Table
result_table t (ok t') = t'
result_table t abort = t
result_table t (exit n) = t

stopped-Step :
    (t t' : Table) (q : ℤ) (i : ℕ)
    → job_from_pid t q ≡ i
    → job_set_state t (pos i) State.st ≡ ok t'
    → Step t t' q
stopped-Step t t' q zero e run = absurd (ground (arith, run, job_set_state-zero t State.st))
stopped-Step t t' q (suc i) e run =
    let (lo, hi, live, _) = job_from_pid-live t q (suc i) e (omega arith) in
    let set = job_set_state-with_state t (suc i) State.st lo hi live refl (λ f. cc) in
    let same : with_state t (suc i) State.st ≡ t' = ap (result_table t) (sym set ∙ run) in
    subst (λ x. Step t x q) same (with_state-Step t q (suc i) e live)

reap-Step : (s s' : Shell) (q : ℤ) (st : Status) → reap s (q, st) ≡ ok s' → Step s.table s'.table q
unfolding reap
reap-Step s s' q exited run =
    let (b, e) = delete_job-after_death s.table q in
    let run' : ok (record s { table = after_death s.table q }) ≡ ok s' = rw e at run in
    subst (λ x. Step s.table x q) (ap (table_of s.table) run') (after_death-Step s.table q)
reap-Step s s' q (signaled n) run =
    let (b, e) = delete_job-after_death s.table q in
    let run' : ok (
          print (record s { table = after_death s.table q })
            (job_terminated (job_from_pid s.table q) q n))
        ≡ ok s' =
      rw e at run in
    subst (λ x. Step s.table x q) (ap (table_of s.table) run') (after_death-Step s.table q)
reap-Step s s' q (stopped n) run =
    let (t, set, rest) =
      bind-ok (job_set_state s.table (pos (job_from_pid s.table q)) State.st)
        (λ t. ok (print (record s { table = t }) (job_stopped (job_from_pid s.table q) q n))) s'
        run in
    subst (λ x. Step s.table x q) (ap (table_of s.table) rest)
      (stopped-Step s.table t q (job_from_pid s.table q) refl set)

-- The events leave the jobs that are not in the foreground there, and take those they report out of it.
abbrev TakenOff : Table → List Event → Table → Type 0
TakenOff t es t' =
    ((j : ℕ) → Off t j → Off t' j)
    × ((p : ℤ) → job_from_pid t p ≢ 0 → reports p es ≡ true → Off t' (job_from_pid t p))

pub sigchld_handler-TakenOff :
    (s s' : Shell) (es : List Event) → sigchld_handler s es ≡ ok s' → TakenOff s.table es s'.table
unfolding sigchld_handler
sigchld_handler-TakenOff s s' [] run = (
  (λ j off. subst (λ x. Off x j) (ap (table_of s.table) run) off),
  (λ p n r. absurd (ground (arith, r))),
)
sigchld_handler-TakenOff s s' ((q, st) ∷ es) run =
    let (s1, first, rest) = bind-ok (reap s (q, st)) (λ x. sigchld_handler x es) s' run in
    let step = reap-Step s s1 q st first in
    let later = sigchld_handler-TakenOff s1 s' es rest in
    (
      (λ j off. later.0 j (step.keeps_off j off)),
      (λ p n r. elim (Bool-cases (q ==ℤ p)) [
        | inl mine ↦
            (let same = eq_of_==ℤ q p mine in
              subst (λ x. job_from_pid s.table x ≢ 0 → Off s'.table (job_from_pid s.table x)) same
                (λ m. later.0 (job_from_pid s.table q) (step.puts_off m)) n)
        | inr other ↦
            subst (λ j. j ≢ 0 → Off s'.table j) (step.keeps_job p other)
              (λ m. later.1 p m (ground (arith, r, other))) n
      ]),
    )
