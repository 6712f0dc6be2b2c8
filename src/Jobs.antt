-- ===== src/Jobs.antt =====
-- Lab4/tsh_helper.c: the job list of the tiny shell. Entry `jid` of the model's array is
-- `job_list[jid - 1]`. Diagnostics on standard error, `check_blocked` and `verbose` among them, are
-- left out; an abort or an exit is a result.
pub mod Search
pub mod Valid
pub mod Add
pub mod Change
pub mod Keeps
use model_lib.Prelude.{
  ℕ, zero, suc, ◌+◌, ◌≡◌, Bool, true, false, not, ◌&&◌, ◌||◌, Option, none, some, List, [], ◌∷◌,
  ltb, leb, ◌==◌, if◌then◌else◌,
}
use model_lib.Prelude.Int.{ℤ, pos, pos_part, ltb_ℤ, ◌==ℤ◌}

pub data State : Type 0 where
  undef fg bg st : State

pub record Job : Type 0 where
  pub pid : ℤ
  pub jid : ℕ
  pub state : State
  pub cmdline : Option (List ℕ)

pub record Table : Type 0 where
  pub job : ℕ → Job
  pub nextjid : ℕ
  pub init : Bool

-- How a call ends: it returns, it aborts, or it exits with a status.
pub data Outcome {ℓ} (A : Type ℓ) : Type ℓ where
  ok : A → Outcome A
  abort : Outcome A
  exit : ℕ → Outcome A

infixl 5 ◌>>=◌ ◌>>◌
abbrev pub ◌>>=◌ {ℓ κ} : {A : Type ℓ} {B : Type κ} → Outcome A → (A → Outcome B) → Outcome B
ok a >>= f = f a
abort >>= f = abort
exit s >>= f = exit s

abbrev pub ◌>>◌ {ℓ} : {B : Type ℓ} → Outcome (Unit {0}) → Outcome B → Outcome B
m >> k = m >>= λ _. k

-- `if (!cond) abort();`
abbrev pub require : Bool → Outcome (Unit {0})
require true = ok tt
require false = abort

abbrev pub max_jobs : ℕ
max_jobs = 64

abbrev pub is_fg : State → Bool
is_fg fg = true
is_fg _ = false

abbrev pub is_defined : State → Bool
is_defined undef = false
is_defined _ = true

abbrev pub is_valid_state : State → Bool
is_valid_state undef = false
is_valid_state fg = true
is_valid_state bg = true
is_valid_state st = true

-- `jid < 1 || jid > MAXJOBS`
abbrev pub out_of_range : ℤ → Bool
out_of_range jid = ltb_ℤ jid (pos 1) || ltb_ℤ (pos max_jobs) jid

unfoldable pub get_job : Table → ℤ → Outcome Job
get_job t jid = if out_of_range jid then abort else ok (t.job (pos_part jid))

abbrev pub update : (ℕ → Job) → ℕ → Job → ℕ → Job
update f i v j = if i == j then v else f j

unfoldable pub set_job : Table → ℕ → Job → Table
set_job t jid v = record t { job = update t.job jid v }

unfoldable pub clearjob : Job → Job
clearjob j = record j { pid = pos 0; jid = 0; state = undef }

abbrev pub cleared : Job
cleared = record { pid = pos 0; jid = 0; state = undef; cmdline = none }

unfoldable pub init_job_list : Table → Table
init_job_list t = record { job = λ _. cleared; nextjid = 1; init = true }

unfoldable pub destroy_job_list : Table → Table
destroy_job_list t = record t { job = λ _. cleared; nextjid = 1 }

unfoldable pub job_exists : Table → ℤ → Bool
job_exists t jid = if out_of_range jid then false else is_defined (t.job (pos_part jid)).state

-- `for (jid = n; jid >= 1; jid--)`
unfoldable pub maxjid_from : Table → ℕ → ℕ
maxjid_from t zero = 0
maxjid_from t (suc n) =
    let rest = maxjid_from t n in if job_exists t (pos (suc n)) then suc n else rest

unfoldable pub maxjid : Table → ℕ
maxjid t = maxjid_from t max_jobs

-- `for (jid = ...; jid <= MAXJOBS; jid++) if (test) return jid;` with `n` rounds left.
unfoldable pub first_jid : (Job → Bool) → (ℕ → Job) → ℕ → ℕ → ℕ
first_jid test job zero jid = 0
first_jid test job (suc n) jid =
    let rest = first_jid test job n (suc jid) in if test (job jid) then jid else rest

unfoldable pub fg_job : Table → ℕ
fg_job t = first_jid (λ j. is_fg j.state) t.job max_jobs 1

unfoldable pub job_from_pid : Table → ℤ → ℕ
job_from_pid t pid =
    if ltb_ℤ pid (pos 1)
    then 0
    else first_jid (λ j. is_defined j.state && j.pid ==ℤ pid) t.job max_jobs 1

unfoldable pub require_job_exists : Table → ℤ → Outcome (Unit {0})
require_job_exists t jid = require (job_exists t jid)

unfoldable pub require_valid_state : Table → State → Outcome (Unit {0})
require_valid_state t s = do
  require (is_valid_state s)
  require (not (is_fg s && not (fg_job t == 0)))

-- The guard at the head of `add_job`.
abbrev pub may_add : Table → State → Bool
may_add t undef = false
may_add t fg = fg_job t == 0
may_add t bg = true
may_add t st = true

abbrev pub is_null {ℓ} : {A : Type ℓ} → Option A → Bool
is_null none = true
is_null (some _) = false

-- The part of `add_job` behind its guards; `realloc_ok` says whether `realloc` found memory.
unfoldable pub fill_job : Table → ℤ → State → Option (List ℕ) → Bool → Outcome (Table × ℕ)
fill_job t pid s cmdline realloc_ok = do
  j ← get_job t (pos t.nextjid)
  require (not (is_defined j.state))
  let new : Job = record { pid = pid; jid = t.nextjid; state = s; cmdline = cmdline }
  let t' = record (set_job t t.nextjid new) { nextjid = suc t.nextjid }
  if realloc_ok then ok (t', t.nextjid) else exit 1

unfoldable pub add_job : Table → ℤ → State → Option (List ℕ) → Bool → Outcome (Table × ℕ)
add_job t pid s cmdline realloc_ok = do
  require (may_add t s)
  require (ltb_ℤ (pos 0) pid)
  require (not (is_null cmdline))
  require (ltb 0 t.nextjid)
  if ltb max_jobs t.nextjid then ok (t, 0) else fill_job t pid s cmdline realloc_ok

unfoldable pub delete_job : Table → ℤ → Outcome (Table × Bool)
delete_job t jid = if not (job_exists t jid) then ok (t, false) else do
  j ← get_job t jid
  let t' = set_job t (pos_part jid) (clearjob j)
  let next = maxjid t' + 1
  require (ltb 0 next)
  ok (record t' { nextjid = next }, true)

unfoldable pub job_get_state : Table → ℤ → Outcome State
job_get_state t jid = do require_job_exists t jid; j ← get_job t jid; ok j.state

unfoldable pub job_get_pid : Table → ℤ → Outcome ℤ
job_get_pid t jid = do require_job_exists t jid; j ← get_job t jid; ok j.pid

unfoldable pub job_get_cmdline : Table → ℤ → Outcome (Option (List ℕ))
job_get_cmdline t jid = do require_job_exists t jid; j ← get_job t jid; ok j.cmdline

unfoldable pub job_set_state : Table → ℤ → State → Outcome Table
job_set_state t jid s = do
  require_job_exists t jid
  require_valid_state t s
  j ← get_job t jid
  ok (set_job t (pos_part jid) (record j { state = s }))

-- A line of `list_jobs`: the arguments of its one format string.
pub record Line : Type 0 where
  pub jid : ℕ
  pub pid : ℤ
  pub status : State
  pub cmdline : Option (List ℕ)

abbrev pub line : Job → Line
line j = record { jid = j.jid; pid = j.pid; status = j.state; cmdline = j.cmdline }

-- The loop of `list_jobs`: what was written, and whether every write succeeded. `dprintf` says
-- whether the descriptor takes a line.
unfoldable pub list_from : (Line → Bool) → (ℕ → Job) → ℕ → ℕ → List Line × Bool
list_from dprintf job zero jid = ([], true)
list_from dprintf job (suc n) jid =
    let (out, done) = list_from dprintf job n (suc jid) in
    if is_defined (job jid).state
    then if dprintf (line (job jid)) then (line (job jid) ∷ out, done) else ([], false)
    else (out, done)

unfoldable pub list_jobs : (Line → Bool) → Table → ℤ → Outcome (List Line × Bool)
list_jobs dprintf t output_fd =
    if ltb_ℤ output_fd (pos 0) then abort else ok (list_from dprintf t.job max_jobs 1)
