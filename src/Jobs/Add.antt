-- ===== src/Jobs/Add.antt =====
-- `add_job` of Lab4/tsh_helper.c.
use model_lib.Prelude.{ℕ, suc, ◌≤◌, ◌<◌, ◌≡◌, refl, true, List, some, arith, Bool}
use model_lib.Prelude.Int.{ℤ, pos, ltb_ℤ}
use model_lib.Jobs.{
  Table, State, undef, fg, bg, st, ok, max_jobs, is_fg, is_defined, get_job, may_add, fg_job,
  update, add_job, fill_job, set_job,
}
use model_lib.Jobs.Valid.{IsValid, nextjid-free, fg_job-none, maxjid_unique, above-maxjid}

pub get_job-in_range : (t : Table) (j : ℕ) → 0 < j → j ≤ max_jobs → get_job t (pos j) ≡ ok (t.job j)
unfolding get_job
get_job-in_range t j lo hi = ground arith

pub may_add-fg : (t : Table) (s : State) → may_add t s ≡ true → is_fg s ≡ true → fg_job t ≡ 0
may_add-fg t undef m f = cc
may_add-fg t fg m f = ground arith
may_add-fg t bg m f = cc
may_add-fg t st m f = cc

may_add-defined : (t : Table) (s : State) → may_add t s ≡ true → is_defined s ≡ true
may_add-defined t undef m = cc
may_add-defined t fg m = refl
may_add-defined t bg m = refl
may_add-defined t st m = refl

-- The list with a new job at `nextjid`.
abbrev pub added : Table → ℤ → State → List ℕ → Table
added t pid s c = record t {
  job = update t.job t.nextjid (record { pid = pid; jid = t.nextjid; state = s; cmdline = some c });
  nextjid = suc t.nextjid;
}

module _ {t : Table} (v : IsValid t) (pid : ℤ) (s : State) (c : List ℕ) (may : may_add t s ≡ true)
    (positive : ltb_ℤ (pos 0) pid ≡ true) where
  pub fill_job-added :
      t.nextjid ≤ max_jobs → fill_job t pid s (some c) true ≡ ok (added t pid s c, t.nextjid)
  unfolding fill_job set_job
  fill_job-added room =
      let e : get_job t (pos t.nextjid) ≡ ok (t.job t.nextjid) =
        get_job-in_range t t.nextjid (omega (arith, v.tight)) room in
      ground (arith, e, nextjid-free t v room)

  -- On a valid list with room and with memory for the command line, `add_job` of a positive process
  -- number, with a state that may be added, returns the number of the new job and the list with
  -- that job; none of its assertions fails.
  pub add_job-added :
      t.nextjid ≤ max_jobs → add_job t pid s (some c) true ≡ ok (added t pid s c, t.nextjid)
  unfolding add_job
  add_job-added room = ground (arith, fill_job-added room, v.tight)

  -- On a full list it returns 0 and changes nothing.
  pub add_job_full : (r : Bool) → max_jobs < t.nextjid → add_job t pid s (some c) r ≡ ok (t, 0)
  unfolding add_job
  add_job_full r full = ground (arith, v.tight)

  pub added-IsValid : t.nextjid ≤ max_jobs → IsValid (added t pid s c)
  added-IsValid room = record {
    tight = omega (
      arith,
      maxjid_unique (added t pid s c) t.nextjid room (λ _. ground (arith, may_add-defined t s may))
          (λ j lo hi. ground (arith, above-maxjid t j, v.tight)),
    );
    numbered = λ j lo hi. ground (arith, v.numbered j lo hi);
    owned = λ j lo hi. ground (arith, v.owned j lo hi);
    single = λ i j lo hi lo' hi'.
        ground
          (arith, v.single i j lo hi lo' hi', may_add-fg t s may, fg_job-none t i, fg_job-none t j);
  }
