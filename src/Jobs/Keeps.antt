-- ===== src/Jobs/Keeps.antt =====
-- Every call of the job list of Lab4/tsh_helper.c that returns leaves the list valid.
use model_lib.Prelude.{
  ℕ, ◌≤◌, ◌<◌, ◌≡◌, refl, true, false, Bool, List, Option, some, none, arith, Bool-cases, inl, inr,
  ltb, if◌then◌else◌, not, ◌==◌, ◌&&◌,
}
use model_lib.Prelude.Int.{ℤ, pos, negsuc, ltb_ℤ, pos_part}
use model_lib.Jobs.{
  Table, State, Outcome, ok, abort, exit, ◌>>=◌, require, max_jobs, is_fg, is_defined,
  is_valid_state, may_add, add_job, fill_job, set_job, delete_job, job_exists, job_set_state,
  require_job_exists, require_valid_state, fg_job, get_job,
}
use model_lib.Jobs.Valid.{IsValid}
use model_lib.Jobs.Add.{fill_job-added, added-IsValid, get_job-in_range}
use model_lib.Jobs.Change.{
  delete_job-deleted, delete_job-absent, deleted, deleted-IsValid, with_state-IsValid,
}

-- What holds of the result of a call, if it returns.
abbrev pub Holds {ℓ κ} : {A : Type ℓ} → (A → Type κ) → Outcome A → Type κ
Holds P (ok a) = P a
Holds P abort = Unit
Holds P (exit n) = Unit

pub Holds-bind {ℓ κ μ ν} :
    {A : Type ℓ} {B : Type κ} (P : A → Type μ) (Q : B → Type ν) (m : Outcome A) (f : A → Outcome B)
    → Holds P m
    → ((a : A) → P a → Holds Q (f a))
    → Holds Q (m >>= f)
Holds-bind P Q (ok a) f h k = k a h
Holds-bind P Q abort f h k = tt
Holds-bind P Q (exit n) f h k = tt

pub Holds-mono {ℓ κ μ} :
    {A : Type ℓ} (P : A → Type κ) (Q : A → Type μ) (m : Outcome A)
    → Holds P m
    → ((a : A) → P a → Q a)
    → Holds Q m
Holds-mono P Q (ok a) h k = k a h
Holds-mono P Q abort h k = tt
Holds-mono P Q (exit n) h k = tt

pub Holds-ok {ℓ κ} :
    {A : Type ℓ} (P : A → Type κ) (m : Outcome A) {a : A} → Holds P m → m ≡ ok a → P a
Holds-ok P m h e = rw e at h

pub require-Holds : (b : Bool) → Holds (λ _. b ≡ true) (require b)
require-Holds true = refl
require-Holds false = tt

pub Holds-any {ℓ} : {A : Type ℓ} (m : Outcome A) → Holds (λ _. Unit {0}) m
Holds-any (ok a) = tt
Holds-any abort = tt
Holds-any (exit n) = tt

module _ {t : Table} (v : IsValid t) (pid : ℤ) (s : State) (c : List ℕ) (may : may_add t s ≡ true)
    (positive : ltb_ℤ (pos 0) pid ≡ true) where
  -- If `realloc` finds no memory the shell exits.
  fill_job-no_memory : Holds (λ x. IsValid x.0) (fill_job t pid s (some c) false)
  unfolding fill_job
  fill_job-no_memory =
      Holds-bind (λ _. Unit {0}) _ (get_job t (pos t.nextjid)) _ (Holds-any _)
        (λ j _.
          Holds-bind (λ _. Unit {0}) _ (require (not (is_defined j.state))) _ (Holds-any _)
            (λ _ _. tt))

  add_job-keeps_room :
      (r : Bool)
      → (ltb max_jobs t.nextjid) ≡ false
      → Holds (λ x. IsValid x.0) (fill_job t pid s (some c) r)
  add_job-keeps_room false room = fill_job-no_memory
  add_job-keeps_room true room =
      let fits : t.nextjid ≤ max_jobs = ground arith in
      rw (fill_job-added v pid s c may positive fits) (added-IsValid v pid s c may positive fits)

  add_job-keeps_some :
      (r : Bool)
      → Holds
          (λ x. IsValid x.0)
          (if ltb max_jobs t.nextjid then ok (t, 0) else fill_job t pid s (some c) r)
  add_job-keeps_some r = elim (Bool-cases (ltb max_jobs t.nextjid)) [
    | inl full ↦ rw full v
    | inr room ↦ rw room (add_job-keeps_room r room)
  ]

-- Whatever its arguments, an `add_job` on a valid list that returns leaves a valid list.
pub add_job-keeps :
    {t : Table}
    → IsValid t
    → (pid : ℤ) (s : State) (c : Option (List ℕ)) (r : Bool)
    → Holds (λ x. IsValid x.0) (add_job t pid s c r)
unfolding add_job
add_job-keeps {t} v pid s none r =
    Holds-bind (λ _. Unit {0}) _ (require (may_add t s)) _ (Holds-any _)
      (λ _ _.
        Holds-bind (λ _. Unit {0}) _ (require (ltb_ℤ (pos 0) pid)) _ (Holds-any _) (λ _ _. tt))
add_job-keeps {t} v pid s (some c) r =
    Holds-bind (λ _. may_add t s ≡ true) _ (require (may_add t s)) _ (require-Holds _)
      (λ _ may.
        Holds-bind (λ _. ltb_ℤ (pos 0) pid ≡ true) _ (require (ltb_ℤ (pos 0) pid)) _
          (require-Holds _)
          (λ _ positive.
            Holds-bind (λ _. Unit {0}) _ (require (ltb 0 t.nextjid)) _ (Holds-any _)
              (λ _ _. add_job-keeps_some v pid s c may positive r)))

-- A job that exists has a number in the range.
pub in_range_of_exists :
    (t : Table) (jid : ℤ)
    → job_exists t jid ≡ true
    → (jid ≡ pos (pos_part jid))
      × (0 < pos_part jid)
      × (pos_part jid ≤ max_jobs)
      × (is_defined (t.job (pos_part jid)).state ≡ true)
unfolding job_exists
in_range_of_exists t (pos n) e = (refl, ground arith, ground arith, ground arith)
in_range_of_exists t (negsuc n) e = ground arith

-- `delete_job` of any number on a valid list returns with a valid list, whether or not the job
-- exists.
pub delete_job-returns :
    {t : Table}
    → IsValid t
    → (jid : ℤ) → (t' : Table) × (b : Bool) × (delete_job t jid ≡ ok (t', b)) × IsValid t'
delete_job-returns {t} v jid = elim (Bool-cases (job_exists t jid)) [
  | inr no_job ↦ (t, false, delete_job-absent t jid no_job, v)
  | inl is ↦
      (let (e, lo, hi, live) = in_range_of_exists t jid is in
        rw e (
          deleted t (pos_part jid),
          true,
          delete_job-deleted t (pos_part jid) lo hi live,
          deleted-IsValid v (pos_part jid),
        ))
]

pub delete_job-keeps :
    {t : Table} → IsValid t → (jid : ℤ) → Holds (λ x. IsValid x.0) (delete_job t jid)
delete_job-keeps {t} v jid = elim (Bool-cases (job_exists t jid)) [
  | inr no_job ↦ rw (delete_job-absent t jid no_job) v
  | inl is ↦
      (let (e, lo, hi, live) = in_range_of_exists t jid is in
        rw (e, delete_job-deleted t (pos_part jid) lo hi live) (deleted-IsValid v (pos_part jid)))
]

valid_state-Holds :
    (t : Table) (s : State)
    → Holds
        (λ _. (is_valid_state s ≡ true) × (is_fg s ≡ true → fg_job t ≡ 0))
        (require_valid_state t s)
unfolding require_valid_state
valid_state-Holds t s =
    Holds-bind (λ _. is_valid_state s ≡ true) _ (require (is_valid_state s)) _ (require-Holds _)
      (λ _ valid. first valid (require-Holds (not (is_fg s && not (fg_job t == 0)))))
  where
    first :
        is_valid_state s ≡ true
        → Holds
            (λ _. not (is_fg s && not (fg_job t == 0)) ≡ true)
            (require (not (is_fg s && not (fg_job t == 0))))
        → Holds
            (λ _. (is_valid_state s ≡ true) × (is_fg s ≡ true → fg_job t ≡ 0))
            (require (not (is_fg s && not (fg_job t == 0))))
    first valid h =
        Holds-mono _ (λ _. (is_valid_state s ≡ true) × (is_fg s ≡ true → fg_job t ≡ 0)) _ h
          (λ _ q. (valid, λ f. ground arith))

-- A `job_set_state` on a valid list that returns leaves a valid list; the other calls abort.
pub job_set_state-keeps :
    {t : Table} → IsValid t → (jid : ℤ) (s : State) → Holds IsValid (job_set_state t jid s)
unfolding job_set_state require_job_exists set_job
job_set_state-keeps {t} v jid s =
    Holds-bind (λ _. job_exists t jid ≡ true) _ (require (job_exists t jid)) _ (require-Holds _)
      (λ _ is.
        Holds-bind (λ _. (is_valid_state s ≡ true) × (is_fg s ≡ true → fg_job t ≡ 0)) _
          (require_valid_state t s) _ (valid_state-Holds t s)
          (λ _ ok.
            (let (e, lo, hi, live) = in_range_of_exists t jid is in
              rw (e, get_job-in_range t (pos_part jid) lo hi)
                (with_state-IsValid v (pos_part jid) s lo hi live ok.0 ok.1))))
