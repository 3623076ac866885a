-- ===== src/Scheduler/Grants/Pending.antt =====
-- What a claim of internal/scheduler/store.go grants, and that claimPendingRun grants it.
use mosaid.Base.{
  ℕ, ◌+◌, ◌≤◌, ◌≡◌, sym, String, Bool, true, false, ◌&&◌, some, List, [], ◌∷◌, ◌++◌, arith, str_eq,
  eq_iff, ◌==◌, Bool-cases, inl, inr, update_where, count_where, min_where, count_where-append,
  count_where-update_ge, min_where-passes, min_where-counted, All, All-min_where, ◌⊎◌,
}
use mosaid.Int.{ℤ, pos_part}
use mosaid.Scheduler.Types.{Job, is_running, is_pending, RunRow, Lock, Db, Run}
use mosaid.Scheduler.Timestamps.{sql_le}
use mosaid.Scheduler.Store.{find_job, not_cancelled}
use mosaid.Scheduler.Normalize.Bounds.{Within}
use mosaid.Scheduler.Claim.{
  has_spent, bury_run, bury_spent, run_before, is_ready, has_live_job, waits, start_run, started,
  recover, new_lock, lock_span,
}
use mosaid.Scheduler.Sound.Claims.{find_job-id, Found, with_started}

-- The row of the run, as it stands while it runs.
abbrev pub row_of : Run → RunRow → Bool
row_of run r =
    r.id == run.id
    && (str_eq r.job_id run.job.id && (is_running r.state && r.attempts == run.attempts))

-- The lock of the run's job: held by the owner until the time to live, or a second more than the
-- job's timeout if that is later, has passed.
abbrev pub lock_of : Run → String → ℕ → ℤ → Lock → Bool
lock_of run owner now lock_ttl l =
    str_eq l.job_id run.job.id
    && (str_eq l.owner owner && l.expires_at == now + pos_part (lock_span lock_ttl run.job.timeout))

-- The row of a pending run that is due, with an attempt fewer than the run that is granted.
abbrev pub was_pending : Run → ℕ → RunRow → Bool
was_pending run now r =
    r.id == run.id
    && (is_pending r.state
        && (sql_le r.available_at now
            && (r.scheduled_for == run.scheduled_for && r.attempts + 1 == run.attempts)))

-- The run is the first attempt at the time of its job, which is enabled and due.
pub record IsFirst (now : ℕ) (run : Run) : Type 0 where
  pub enabled : run.job.enabled ≡ true
  pub job_due : sql_le run.job.next_run now ≡ true
  pub at_its_time : run.scheduled_for ≡ run.job.next_run
  pub first_attempt : run.attempts ≡ 1

-- `before` are the tables that the run is looked for in, and `db` those after.
pub record Granted (before db : Db) (owner : String) (now : ℕ) (lock_ttl : ℤ) (run : Run)
    : Type 0 where
  pub row : 1 ≤ count_where (row_of run) db.runs
  pub lock : 1 ≤ count_where (lock_of run owner now lock_ttl) db.locks
  pub live : not_cancelled run.job ≡ true
  pub its_job : find_job before.jobs run.job.id ≡ some run.job
  pub due : (1 ≤ count_where (was_pending run now) before.runs) ⊎ IsFirst now run
  pub attempts_least : 1 ≤ run.attempts
  pub attempts_most : run.attempts ≤ pos_part run.job.max_attempts

abbrev pub Bounded : Job → Type 0
Bounded j = Within 1 20 j.max_attempts

-- No pending run has used up its attempts.
abbrev pub Unspent : List Job → RunRow → Type 0
Unspent jobs r = is_pending r.state ≡ true → has_spent jobs r ≡ false

bury-Unspent :
    (jobs : List Job) (now : ℕ) (runs : List RunRow)
    → All
        (Unspent jobs)
        (update_where (λ r. is_pending r.state && has_spent jobs r) (bury_run now) runs)
unfolding bury_run
bury-Unspent jobs now [] = tt
bury-Unspent jobs now (r ∷ rs) = elim (Bool-cases (is_pending r.state && has_spent jobs r)) [
  | inl e ↦ rw e (λ p. cc, bury-Unspent jobs now rs)
  | inr e ↦ rw e (λ p. ground arith, bury-Unspent jobs now rs)
]

pub recover-Unspent :
    (db : Db) (now : ℕ) → All (Unspent (recover db now).jobs) (recover db now).runs
unfolding recover bury_spent
recover-Unspent db now = bury-Unspent _ now _

row_granted :
    (db : Db) (r : RunRow) (job : Job) (now : ℕ)
    → job.id ≡ r.job_id
    → min_where run_before (is_ready db now) db.runs ≡ some r
    → 1
      ≤ count_where (row_of (started r job now)) (update_where (waits r.id) (start_run now) db.runs)
unfolding is_ready start_run
row_granted db r job now same e =
    let this =
      λ (x : RunRow). waits r.id x && (str_eq x.job_id job.id && x.attempts == r.attempts) in
    let ready = min_where-passes run_before (is_ready db now) db.runs r e in
    let its : str_eq r.job_id job.id ≡ true = (eq_iff r.job_id job.id).1 (sym same) in
    let counted = min_where-counted run_before (is_ready db now) this db.runs r e (ground arith) in
    let kept =
      count_where-update_ge (row_of (started r job now)) (waits r.id) this (start_run now)
        (λ x p. (ground arith, ground arith)) db.runs in
    omega arith

pub count_where-last {ℓ} :
    {A : Type ℓ} (p : A → Bool) (xs : List A) (x : A)
    → p x ≡ true
    → 1 ≤ count_where p (xs ++ x ∷ [])
count_where-last p xs x h = rw (count_where-append p xs (x ∷ [])) (rw h (omega arith))

pub lock_granted :
    (db : Db) (run : Run) (owner : String) (now : ℕ) (lock_ttl : ℤ)
    → 1
      ≤ count_where
          (lock_of run owner now lock_ttl)
          (db.locks ++ new_lock run.job owner now lock_ttl ∷ [])
lock_granted db run owner now lock_ttl =
    count_where-last (lock_of run owner now lock_ttl) db.locks (new_lock run.job owner now lock_ttl)
      (ground (arith, eq_iff run.job.id run.job.id, eq_iff owner owner))

-- A pending run is granted with an attempt that the job still has.
pub start_pending-Granted :
    (db : Db) (r : RunRow) (job : Job) (owner : String) (now : ℕ) (lock_ttl : ℤ)
    → All (Unspent db.jobs) db.runs
    → Found db now r job
    → Granted db (with_started db r job owner now lock_ttl) owner now lock_ttl (started r job now)
start_pending-Granted db r job owner now lock_ttl unspent f =
    let same = find_job-id db.jobs r.job_id job f.is_its_job in
    let left =
      All-min_where (Unspent db.jobs) run_before (is_ready db now) db.runs r unspent f.query in
    let ready = f.ready in
    let its = f.is_its_job in
    record {
      row = row_granted db r job now same f.query;
      lock = lock_granted db (started r job now) owner now lock_ttl;
      live = unfold is_ready has_live_job in ground arith;
      its_job = rw (sym same) at its;
      due = inl (
          min_where-counted run_before (is_ready db now) (was_pending (started r job now) now)
            db.runs r f.query (unfold is_ready in ground arith));
      attempts_least = omega arith;
      attempts_most =
          let kept = left (unfold is_ready in ground arith) in unfold has_spent in ground arith;
    }
