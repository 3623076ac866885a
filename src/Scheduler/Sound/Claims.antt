-- ===== src/Scheduler/Sound/Claims.antt =====
-- Claim of internal/scheduler/store.go keeps the invariant of the tables.
use mosaid.Base.{
  ℕ, ◌≤◌, ◌≡◌, refl, String, Bool, true, false, ◌&&◌, ◌||◌, none, some, List, [], ◌∷◌, ◌++◌, arith,
  str_eq, eq_iff, ◌==◌, ◌⊎◌, Bool-cases, Option-cases, inl, inr, update_where, count_where,
  exists_where, min_where, count_where_mono, exists_where-count, min_where-passes, min_where-none,
  min_where-counted, first_where-passes,
}
use mosaid.Int.{ℤ, pos, leb_ℤ}
use mosaid.Scheduler.Types.{Job, is_running, RunRow, Db}
use mosaid.Scheduler.Store.{is_job, is_run, locks_job, is_locked, find_job}
use mosaid.Scheduler.Claim.{
  acquire_lock, drop_lock, run_before, is_ready, has_live_job, waits, start_run, started,
  start_pending, claim_pending_run, insert_run, first_run, skipped_run, is_missed, advance_job,
  advance, skip_missed, begin_due, start_due, is_due, job_before, claim_due_job, recover,
  claim_recovered, claim, new_lock, key_eq,
}
use mosaid.Scheduler.Sound.Runs.{
  IsSound, of_job, occupies, has_key, insert-RunsSound, start-RunsSound,
}
use mosaid.Scheduler.Sound.Methods.{with_fewer_locks, with_jobs}
use mosaid.Scheduler.Sound.Recovery.{Guarded, recover-IsSound, recover-Guarded, lock-IsSound}

-- What the query of claimPendingRun finds.
pub record Found (db : Db) (now : ℕ) (r : RunRow) (job : Job) : Type 0 where
  pub query : min_where run_before (is_ready db now) db.runs ≡ some r
  pub ready : is_ready db now r ≡ true
  pub here : 1 ≤ count_where (of_job r.id r.job_id) db.runs
  pub waiting : 1 ≤ count_where (waits r.id) db.runs
  pub is_its_job : find_job db.jobs r.job_id ≡ some job

pub find_job-id :
    (jobs : List Job) (id : String) (job : Job) → find_job jobs id ≡ some job → job.id ≡ id
find_job-id jobs id job e = (eq_iff job.id id).0 (first_where-passes (is_job id) jobs job e)

found :
    (db : Db) (now : ℕ) (r : RunRow) (job : Job)
    → min_where run_before (is_ready db now) db.runs ≡ some r
    → find_job db.jobs r.job_id ≡ some job
    → Found db now r job
unfolding is_ready
found db now r job e j =
    let ready = min_where-passes run_before (is_ready db now) db.runs r e in
    let refl_id : str_eq r.job_id r.job_id ≡ true = (eq_iff r.job_id r.job_id).1 refl in
    record {
      query = e;
      ready = ready;
      here =
          min_where-counted run_before (is_ready db now) (of_job r.id r.job_id) db.runs r e
            (ground arith);
      waiting =
          min_where-counted run_before (is_ready db now) (waits r.id) db.runs r e (ground arith);
      is_its_job = j;
    }

-- The tables once the run has been started.
abbrev pub with_started : Db → RunRow → Job → String → ℕ → ℤ → Db
with_started db r job owner now lock_ttl = record db {
  locks = db.locks ++ new_lock job owner now lock_ttl ∷ [];
  runs = update_where (waits r.id) (start_run now) db.runs;
}

Found-unlocked :
    {db : Db} {now : ℕ} {r : RunRow} {job : Job} → Found db now r job → is_locked db job.id ≡ false
unfolding is_ready
Found-unlocked {db} {now} {r} {job} f =
    let ready = f.ready in
    let same = find_job-id db.jobs r.job_id job f.is_its_job in
    let free : is_locked db r.job_id ≡ false = ground arith in rw same free

-- A found run is started: no other outcome is possible.
start_pending_lem :
    (db : Db) (r : RunRow) (job : Job) (owner : String) (now : ℕ) (lock_ttl : ℤ)
    → IsSound db
    → Found db now r job
    → start_pending db r job owner now lock_ttl
      ≡ (with_started db r job owner now lock_ttl, some (started r job now))
unfolding start_pending acquire_lock
start_pending_lem db r job owner now lock_ttl s f =
    let free = Found-unlocked f in
    let few = count_where_mono (waits r.id) (is_run r.id) (λ x p. ground arith) db.runs in
    let one : (count_where (waits r.id) db.runs == 1) ≡ true =
      (let most = s.runs.ids r.id in let least = f.waiting in ground arith) in
    rw free (rw one refl)

start_pending-IsSound :
    (db : Db) (r : RunRow) (job : Job) (owner : String) (now : ℕ) (lock_ttl : ℤ)
    → IsSound db
    → Guarded db
    → Found db now r job
    → IsSound (with_started db r job owner now lock_ttl)
unfolding start_run
start_pending-IsSound db r job owner now lock_ttl s g f =
    let free = Found-unlocked f in
    let locked = lock-IsSound db job owner now lock_ttl free s in
    let same = find_job-id db.jobs r.job_id job f.is_its_job in
    record {
      runs =
          start-RunsSound r.id r.job_id (start_run now) (λ x p. ground arith) db.next_run_id db.runs
            f.here (g r.job_id (rw same at free)) s.runs;
      jobs = s.jobs;
      locks = locked.locks;
    }

-- The two outcomes of claimPendingRun: no run is ready and nothing changes, or one is started.
pub claim_pending_run_cases :
    (db : Db) (owner : String) (now : ℕ) (lock_ttl : ℤ)
    → IsSound db
    → ((count_where (is_ready db now) db.runs ≡ 0)
        × (claim_pending_run db owner now lock_ttl ≡ (db, none)))
      ⊎ ((r : RunRow) × (job : Job) × Found db now r job
          × (claim_pending_run db owner now lock_ttl
              ≡ (with_started db r job owner now lock_ttl, some (started r job now))))
claim_pending_run_cases db owner now lock_ttl s =
    elim (Option-cases (min_where run_before (is_ready db now) db.runs)) [
      | inl e ↦ inl (
        min_where-none run_before (is_ready db now) db.runs e,
        unfold claim_pending_run in rw (e, claim_pending_run),
      )
      | inr (r, e) ↦ elim (Option-cases (find_job db.jobs r.job_id)) [
        | inl j ↦
            let ready = min_where-passes run_before (is_ready db now) db.runs r e in
            absurd (unfold is_ready has_live_job in ground arith)
        | inr (job, j) ↦
            let f = found db now r job e j in
            inr (
              r,
              job,
              f,
              unfold claim_pending_run in
                  rw (e, j, claim_pending_run) (start_pending_lem db r job owner now lock_ttl s f),
            )
      ]
    ]

advance-IsSound : (db : Db) (job : Job) (now : ℕ) → IsSound db → IsSound (advance db job now)
unfolding advance advance_job
advance-IsSound db job now s = with_jobs db (is_job job.id) (advance_job now) (λ j. ground arith) s

drop_lock-IsSound : (db : Db) (id owner : String) → IsSound db → IsSound (drop_lock db id owner)
unfolding drop_lock
drop_lock-IsSound db id owner s =
    with_fewer_locks db (λ l. locks_job id l && str_eq l.owner owner) s

insert_run-IsSound :
    (db : Db) (r : RunRow)
    → r.id ≡ db.next_run_id
    → (is_running r.state ≡ true → count_where (occupies r.job_id) db.runs ≡ 0)
    → IsSound db
    → IsSound (insert_run db r).0
unfolding insert_run
insert_run-IsSound db r here free s =
    elim (Bool-cases (exists_where (λ x. key_eq x.idempotency_key r.idempotency_key) db.runs)) [
      | inl e ↦ rw e s
      | inr e ↦ rw e (record {
        runs =
            insert-RunsSound db.next_run_id db.runs r here
              (exists_where-count (has_key r.idempotency_key) db.runs e) free s.runs;
        jobs = s.jobs;
        locks = s.locks;
      })
    ]

skip_missed-IsSound :
    (db : Db) (job : Job) (owner : String) (now : ℕ)
    → IsSound db
    → IsSound (skip_missed db job owner now).0
unfolding skip_missed
skip_missed-IsSound db job owner now s = drop_lock-IsSound _ job.id owner (
    advance-IsSound _ job now (
      insert_run-IsSound db (skipped_run db.next_run_id job now) (unfold skipped_run in refl)
        (unfold skipped_run in λ p. cc) s))

begin_due-IsSound :
    (db : Db) (job : Job) (owner : String) (now : ℕ)
    → count_where (occupies job.id) db.runs ≡ 0
    → IsSound db
    → IsSound (begin_due db job owner now).0
begin_due-IsSound db job owner now free s =
    let moved = advance db job now in
    let r = first_run moved.next_run_id job now in
    let sound =
      insert_run-IsSound moved r (unfold first_run in refl) (unfold first_run advance in λ p. free)
        (advance-IsSound db job now s) in
    elim (Bool-cases (insert_run moved r).1) [
      | inl e ↦ unfold begin_due in rw (e, begin_due) sound
      | inr e ↦ unfold begin_due in rw (e, begin_due) (drop_lock-IsSound _ job.id owner sound)
    ]

start_due-IsSound :
    (db : Db) (job : Job) (owner : String) (now : ℕ) (lock_ttl : ℤ)
    → IsSound db
    → Guarded db
    → is_locked db job.id ≡ false
    → IsSound (start_due db job owner now lock_ttl).0
unfolding start_due acquire_lock
start_due-IsSound db job owner now lock_ttl s g free =
    let locked = lock-IsSound db job owner now lock_ttl free s in
    rw free (elim (Bool-cases (is_missed job now)) [
      | inl e ↦ rw e (skip_missed-IsSound _ job owner now locked)
      | inr e ↦ rw e (begin_due-IsSound _ job owner now (g job.id free) locked)
    ])

claim_due_job-IsSound :
    (id_lt : String → String → Bool) (db : Db) (owner : String) (now : ℕ) (lock_ttl : ℤ)
    → IsSound db
    → Guarded db
    → IsSound (claim_due_job id_lt db owner now lock_ttl).0
unfolding claim_due_job
claim_due_job-IsSound id_lt db owner now lock_ttl s g =
    elim (Option-cases (min_where (job_before id_lt) (is_due db now) db.jobs)) [
      | inl e ↦ rw (e, claim_due_job) s
      | inr (job, e) ↦
          let due = min_where-passes (job_before id_lt) (is_due db now) db.jobs job e in
          rw (e, claim_due_job)
            (start_due-IsSound db job owner now lock_ttl s g (unfold is_due in ground arith))
    ]

claim_recovered-IsSound :
    (id_lt : String → String → Bool) (db : Db) (owner : String) (now : ℕ) (lock_ttl : ℤ)
    → IsSound db
    → Guarded db
    → IsSound (claim_recovered id_lt db owner now lock_ttl).0
unfolding claim_recovered
claim_recovered-IsSound id_lt db owner now lock_ttl s g =
    elim (claim_pending_run_cases db owner now lock_ttl s) [
      | inl h ↦
          rw (h.1, claim_recovered) (rw h.1 (claim_due_job-IsSound id_lt db owner now lock_ttl s g))
      | inr h ↦
          rw (h.3, claim_recovered)
            (rw h.3 (start_pending-IsSound db h.0 h.1 owner now lock_ttl s g h.2))
    ]

-- Claim keeps the invariant of the tables, whatever the owner, the clock and the lock's time to live.
pub claim-IsSound :
    (id_lt : String → String → Bool) (db : Db) (now : ℕ) (owner : String) (lock_ttl : ℤ)
    → IsSound db
    → IsSound (claim id_lt db now owner lock_ttl).0
unfolding claim
claim-IsSound id_lt db now owner lock_ttl s =
    elim (Bool-cases (str_eq owner "" || leb_ℤ lock_ttl (pos 0))) [
      | inl e ↦ rw e s
      | inr e ↦ rw e (
          claim_recovered-IsSound id_lt (recover db now) owner now lock_ttl
            (recover-IsSound db now s) (recover-Guarded db now))
    ]
