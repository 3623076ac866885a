-- ===== src/Scheduler/Sound/Recovery.antt =====
-- The recovery that every claim of internal/scheduler/store.go begins with, and a new lock: the
-- invariant of the tables, and that a running run has its job locked afterwards.
use mosaid.Base.{
  ℕ, ◌≤◌, ◌≡◌, refl, subst, String, false, ◌&&◌, List, [], ◌∷◌, ◌++◌, arith, str_eq, eq_iff,
  Bool-cases, inl, inr, count_where, exists_where, count_where-append, count_where-update_zero,
  count_where-update_mono, exists_where-count,
}
use mosaid.Int.{ℤ}
use mosaid.Scheduler.Types.{Job, is_pending, RunRow, Lock, Db}
use mosaid.Scheduler.Timestamps.{sql_le}
use mosaid.Scheduler.Store.{locks_job, is_locked, is_stale, purge_locks}
use mosaid.Scheduler.Claim.{
  retake_run, retake_stale, has_spent, bury_run, bury_spent, recover, new_lock,
}
use mosaid.Scheduler.Sound.Runs.{IsSound, occupies}
use mosaid.Scheduler.Sound.Methods.{with_runs, with_fewer_locks}

-- A job with no lock has no running run.
abbrev pub Guarded : Db → Type 0
Guarded db = (id : String) → is_locked db id ≡ false → count_where (occupies id) db.runs ≡ 0

retake-IsSound : (db : Db) (now : ℕ) → IsSound db → IsSound (retake_stale db now)
unfolding retake_stale retake_run
retake-IsSound db now s = with_runs db (is_stale db) (retake_run now) (λ r p. ground arith) s

bury-IsSound : (db : Db) (now : ℕ) → IsSound db → IsSound (bury_spent db now)
unfolding bury_spent bury_run
bury-IsSound db now s =
    with_runs db (λ r. is_pending r.state && has_spent db.jobs r) (bury_run now)
      (λ r p. ground arith) s

pub recover-IsSound : (db : Db) (now : ℕ) → IsSound db → IsSound (recover db now)
unfolding recover purge_locks
recover-IsSound db now s =
    bury-IsSound _ now (retake-IsSound _ now (with_fewer_locks db (λ l. sql_le l.expires_at now) s))

stale_unlocked :
    (db : Db) (id : String) (r : RunRow)
    → is_locked db id ≡ false
    → is_stale db r ≡ false
    → occupies id r ≡ false
stale_unlocked db id r free h = elim (Bool-cases (str_eq r.job_id id)) [
  | inl e ↦
      let same : r.job_id ≡ id = (eq_iff r.job_id id).0 e in
      let open' : is_locked db r.job_id ≡ false = rw same free in ground arith
  | inr e ↦ ground arith
]

retake-Guarded : (db : Db) (now : ℕ) → Guarded (retake_stale db now)
unfolding retake_stale retake_run
retake-Guarded db now id free =
    count_where-update_zero (occupies id) (is_stale db) (retake_run now) (λ r p. refl)
      (λ r p. stale_unlocked db id r free p) db.runs

bury-Guarded : (db : Db) (now : ℕ) → Guarded db → Guarded (bury_spent db now)
unfolding bury_spent bury_run
bury-Guarded db now g id free =
    let le =
      count_where-update_mono (occupies id) (λ r. is_pending r.state && has_spent db.jobs r)
        (bury_run now) (λ r p. ground arith) db.runs in
    omega (arith, g id free)

pub recover-Guarded : (db : Db) (now : ℕ) → Guarded (recover db now)
unfolding recover
recover-Guarded db now = bury-Guarded _ now (retake-Guarded (purge_locks db now) now)

one_lock :
    (locks : List Lock) (l : Lock) (id : String)
    → exists_where (locks_job l.job_id) locks ≡ false
    → count_where (locks_job id) locks ≤ 1
    → count_where (locks_job id) (locks ++ l ∷ []) ≤ 1
one_lock locks l id new le =
    rw (count_where-append (locks_job id) locks (l ∷ [])) (elim (Bool-cases (str_eq l.job_id id)) [
      | inl e ↦
          let zero_id : count_where (locks_job id) locks ≡ 0 =
            subst (λ (x : String). count_where (locks_job x) locks ≡ 0) ((eq_iff l.job_id id).0 e)
              (exists_where-count (locks_job l.job_id) locks new) in
          ground arith
      | inr e ↦ ground arith
    ])

pub lock-IsSound :
    (db : Db) (job : Job) (owner : String) (now : ℕ) (lock_ttl : ℤ)
    → is_locked db job.id ≡ false
    → IsSound db
    → IsSound (record db { locks = db.locks ++ new_lock job owner now lock_ttl ∷ [] })
lock-IsSound db job owner now lock_ttl free s = record {
  runs = s.runs;
  jobs = s.jobs;
  locks = λ id. one_lock db.locks (new_lock job owner now lock_ttl) id free (s.locks id);
}
