-- ===== src/Scheduler/Grants.antt =====
-- What Claim of internal/scheduler/store.go grants: the run that it returns. Pending has what that is,
-- and the pending runs.
pub mod Pending
use mosaid.Scheduler.Grants.Pending.{
  row_of, lock_of, IsFirst, Granted, Bounded, Unspent, recover-Unspent, lock_granted,
  count_where-last, start_pending-Granted,
}
use mosaid.Base.{
  ℕ, ◌+◌, ◌≤◌, ◌≡◌, refl, subst, ap, String, Bool, true, false, ◌||◌, Option, none, some, [], ◌∷◌,
  ◌++◌, arith, str_eq, eq_iff, Bool-cases, Option-cases, inl, inr, count_where, exists_where,
  min_where, min_where-passes, All, All-min_where, min_where-first,
}
use mosaid.Int.{ℤ, pos, leb_ℤ}
use mosaid.Scheduler.Types.{run_key, Job, Db, Run}
use mosaid.Scheduler.Store.{is_locked, is_job, find_job, not_cancelled, purge_locks}
use mosaid.Scheduler.Claim.{
  bury_spent, started, insert_run, first_run, is_missed, advance, skip_missed, acquire_lock,
  begin_due, start_due, is_due, job_before, claim_due_job, recover, claim_recovered, claim,
  retake_stale, new_lock, due_run, key_eq,
}
use mosaid.Scheduler.Sound.Runs.{IsSound}
use mosaid.Scheduler.Sound.Recovery.{recover-IsSound}
use mosaid.Scheduler.Sound.Claims.{with_started, claim_pending_run_cases}

-- The run of a due job is inserted, unless its key is taken.
abbrev taken : Db → Job → Bool
taken db job = exists_where (λ x. key_eq x.idempotency_key (run_key job.id job.next_run)) db.runs

abbrev with_inserted : Db → Job → ℕ → Db
with_inserted db job now =
    let moved = advance db job now in
    record moved {
      runs = moved.runs ++ first_run moved.next_run_id job now ∷ [];
      next_run_id = moved.next_run_id + 1;
    }

begin_due_new :
    (db : Db) (job : Job) (owner : String) (now : ℕ)
    → taken db job ≡ false
    → begin_due db job owner now ≡ (with_inserted db job now, some (due_run db.next_run_id job now))
unfolding begin_due insert_run advance first_run
begin_due_new db job owner now e = rw e refl

begin_due_old :
    (db : Db) (job : Job) (owner : String) (now : ℕ)
    → taken db job ≡ true
    → (begin_due db job owner now).1 ≡ none
unfolding begin_due insert_run advance first_run
begin_due_old db job owner now e = rw e refl

due_run-Granted :
    (before db : Db) (job : Job) (owner : String) (now : ℕ) (lock_ttl : ℤ)
    → 1 ≤ count_where (lock_of (due_run db.next_run_id job now) owner now lock_ttl) db.locks
    → not_cancelled job ≡ true
    → Bounded job
    → find_job before.jobs job.id ≡ some job
    → IsFirst now (due_run db.next_run_id job now)
    → Granted before (with_inserted db job now) owner now lock_ttl (due_run db.next_run_id job now)
unfolding advance
due_run-Granted before db job owner now lock_ttl lock live bounded its first = record {
  row =
      count_where-last (row_of (due_run db.next_run_id job now)) db.runs _
        (unfold first_run in ground (arith, eq_iff job.id job.id));
  lock = lock;
  live = live;
  its_job = its;
  due = inr first;
  attempts_least = omega arith;
  attempts_most = omega arith;
}

begin_due-Granted :
    (before db : Db) (job : Job) (owner : String) (now : ℕ) (lock_ttl : ℤ) (run : Run)
    → 1 ≤ count_where (lock_of (due_run db.next_run_id job now) owner now lock_ttl) db.locks
    → not_cancelled job ≡ true
    → Bounded job
    → find_job before.jobs job.id ≡ some job
    → IsFirst now (due_run db.next_run_id job now)
    → (begin_due db job owner now).1 ≡ some run
    → Granted before (begin_due db job owner now).0 owner now lock_ttl run
begin_due-Granted before db job owner now lock_ttl run lock live bounded its first h =
    elim (Bool-cases (taken db job)) [
      | inl e ↦ let old = begin_due_old db job owner now e in cc
      | inr e ↦
          let eq = begin_due_new db job owner now e in
          let same : due_run db.next_run_id job now ≡ run =
            cc (ap (λ (x : Db × Option Run). x.1) eq) in
          rw eq (
            subst (Granted before (with_inserted db job now) owner now lock_ttl) same
              (due_run-Granted before db job owner now lock_ttl lock live bounded its first))
    ]

start_due-Granted :
    (db : Db) (job : Job) (owner : String) (now : ℕ) (lock_ttl : ℤ) (run : Run)
    → is_due db now job ≡ true
    → Bounded job
    → find_job db.jobs job.id ≡ some job
    → (start_due db job owner now lock_ttl).1 ≡ some run
    → Granted db (start_due db job owner now lock_ttl).0 owner now lock_ttl run
unfolding start_due acquire_lock
start_due-Granted db job owner now lock_ttl run due bounded its h =
    let free : is_locked db job.id ≡ false = unfold is_due in ground arith in
    let live : not_cancelled job ≡ true = unfold is_due in ground arith in
    let first : IsFirst now (due_run db.next_run_id job now) = record {
      enabled = unfold is_due in ground arith;
      job_due = unfold is_due in ground arith;
      at_its_time = refl;
      first_attempt = refl;
    } in
    let locked : Db = record db { locks = db.locks ++ new_lock job owner now lock_ttl ∷ [] } in
    elim (Bool-cases (is_missed job now)) [
      | inl e ↦
          let no_run : ◌≡◌ {A = Option Run} none (some run) =
            unfold skip_missed in rw e at (rw free at h) in
          cc
      | inr e ↦ rw free (
          rw e (
            begin_due-Granted db locked job owner now lock_ttl run
              (lock_granted db (due_run db.next_run_id job now) owner now lock_ttl) live bounded its
              first (rw e at (rw free at h))))
    ]

claim_due_job-Granted :
    (id_lt : String → String → Bool) (db : Db) (owner : String) (now : ℕ) (lock_ttl : ℤ) (run : Run)
    → IsSound db
    → All Bounded db.jobs
    → (claim_due_job id_lt db owner now lock_ttl).1 ≡ some run
    → Granted db (claim_due_job id_lt db owner now lock_ttl).0 owner now lock_ttl run
unfolding claim_due_job
claim_due_job-Granted id_lt db owner now lock_ttl run s bounded h =
    elim (Option-cases (min_where (job_before id_lt) (is_due db now) db.jobs)) [
      | inl e ↦ let no_run : ◌≡◌ {A = Option Run} none (some run) = rw (e, claim_due_job) at h in cc
      | inr (job, e) ↦
          rw (e, claim_due_job)
            (start_due-Granted db job owner now lock_ttl run
              (min_where-passes (job_before id_lt) (is_due db now) db.jobs job e)
              (All-min_where Bounded (job_before id_lt) (is_due db now) db.jobs job bounded e)
              (min_where-first (job_before id_lt) (is_due db now) (is_job job.id) db.jobs job
                (s.jobs job.id) e ((eq_iff job.id job.id).1 refl))
              (rw (e, claim_due_job) at h))
    ]

claim_recovered-Granted :
    (id_lt : String → String → Bool) (db : Db) (owner : String) (now : ℕ) (lock_ttl : ℤ) (run : Run)
    → IsSound db
    → All (Unspent db.jobs) db.runs
    → All Bounded db.jobs
    → (claim_recovered id_lt db owner now lock_ttl).1 ≡ some run
    → Granted db (claim_recovered id_lt db owner now lock_ttl).0 owner now lock_ttl run
unfolding claim_recovered
claim_recovered-Granted id_lt db owner now lock_ttl run s unspent bounded h =
    elim (claim_pending_run_cases db owner now lock_ttl s) [
      | inl c ↦
          rw (c.1, claim_recovered)
            (rw c.1 (
              claim_due_job-Granted id_lt db owner now lock_ttl run s bounded
                (rw c.1 at (rw (c.1, claim_recovered) at h))))
      | inr c ↦
          let same : some (started c.0 c.1 now) ≡ some run = rw (c.3, claim_recovered) at h in
          let eq : started c.0 c.1 now ≡ run = cc in
          rw (c.3, claim_recovered)
            (rw c.3 (
              subst (Granted db (with_started db c.0 c.1 owner now lock_ttl) owner now lock_ttl) eq
                (start_pending-Granted db c.0 c.1 owner now lock_ttl unspent c.2)))
    ]

-- Whenever a claim returns a run, from sound tables whose jobs allow from 1 to 20 attempts: the
-- run's row is running with the attempt that is returned, the owner has a lock on its job that lasts
-- for the time to live and for a second more than the job's timeout, the job is the one of the
-- tables and is not cancelled, the attempt is one of those that the job allows, and, once stale runs
-- are recovered, either the run was pending with one attempt fewer and its time, as the database
-- compares texts, is not after now, or it is the first attempt at the time of its job, which is
-- enabled and whose time is not after now.
pub claim-Granted :
    (id_lt : String → String → Bool) (db : Db) (now : ℕ) (owner : String) (lock_ttl : ℤ) (run : Run)
    → IsSound db
    → All Bounded db.jobs
    → (claim id_lt db now owner lock_ttl).1 ≡ some run
    → Granted (recover db now) (claim id_lt db now owner lock_ttl).0 owner now lock_ttl run
unfolding claim
claim-Granted id_lt db now owner lock_ttl run s bounded h =
    elim (Bool-cases (str_eq owner "" || leb_ℤ lock_ttl (pos 0))) [
      | inl e ↦ let no_run : ◌≡◌ {A = Option Run} none (some run) = rw e at h in cc
      | inr e ↦ rw e (
          claim_recovered-Granted id_lt (recover db now) owner now lock_ttl run
            (recover-IsSound db now s) (recover-Unspent db now)
            (unfold recover bury_spent retake_stale purge_locks in bounded) (rw e at h))
    ]
