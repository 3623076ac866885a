-- ===== src/Scheduler/Sound/Methods.antt =====
-- The methods of internal/scheduler/store.go but Claim keep the invariant of the tables.
use mosaid.Base.{
  ℕ, ◌≤◌, ◌≡◌, refl, subst, String, Bool, true, false, ◌&&◌, Option, none, List, [], ◌∷◌, ◌++◌,
  arith, str_eq, eq_iff, ◌==◌, Bool-cases, Option-cases, inl, inr, update_where, delete_where,
  count_where, exists_where, first_where, count_where-append, count_where-update_same,
  count_where-delete_mono, exists_where-count,
}
use mosaid.Scheduler.Types.{Job, RunState, is_running, is_pending, RunRow, Lock, Db}
use mosaid.Scheduler.Timestamps.{sql_le}
use mosaid.Scheduler.Store.{
  is_job, is_run, runs_now, locks_job, find_job, insert_job, set_enabled, cancel, cancel_job,
  cancel_run, release, end_run, finish, fail_run, fail, requeue_run, requeue, recover_run,
  recover_stale, is_stale, purge_locks, safe_summary,
}
use mosaid.Scheduler.Sound.Runs.{IsSound, Settles, update-RunsSound}

pub with_runs :
    (db : Db) (q : RunRow → Bool) (f : RunRow → RunRow)
    → ((r : RunRow) → q r ≡ true → Settles r (f r))
    → IsSound db
    → IsSound (record db { runs = update_where q f db.runs })
with_runs db q f h s = record {
  runs = update-RunsSound q f h db.next_run_id db.runs s.runs;
  jobs = s.jobs;
  locks = s.locks;
}

pub with_fewer_locks :
    (db : Db) (q : Lock → Bool)
    → IsSound db
    → IsSound (record db { locks = delete_where q db.locks })
with_fewer_locks db q s = record {
  runs = s.runs;
  jobs = s.jobs;
  locks =
      λ id. let le = count_where-delete_mono (locks_job id) q db.locks in omega (arith, s.locks id);
}

pub with_jobs :
    (db : Db) (q : Job → Bool) (f : Job → Job)
    → ((j : Job) → (f j).id ≡ j.id)
    → IsSound db
    → IsSound (record db { jobs = update_where q f db.jobs })
with_jobs db q f h s = record {
  runs = s.runs;
  jobs = λ id.
      rw (count_where-update_same (is_job id) q f (λ j _. let e = h j in rw e refl) db.jobs)
        (s.jobs id);
  locks = s.locks;
}

release-IsSound :
    (db : Db) (run_id : ℕ) (owner : String) → IsSound db → IsSound (release db run_id owner)
unfolding release
release-IsSound db run_id owner s = elim (Option-cases (first_where (is_run run_id) db.runs)) [
  | inl e ↦ rw (e, release) s
  | inr (r, e) ↦
      rw (e, release) (with_fewer_locks db (λ l. locks_job r.job_id l && str_eq l.owner owner) s)
]

one_job :
    (jobs : List Job) (job : Job) (id : String)
    → exists_where (is_job job.id) jobs ≡ false
    → count_where (is_job id) jobs ≤ 1
    → count_where (is_job id) (jobs ++ record job { cancelled_at = none } ∷ []) ≤ 1
one_job jobs job id new le =
    rw (count_where-append (is_job id) jobs (record job { cancelled_at = none } ∷ []))
      (elim (Bool-cases (str_eq job.id id)) [
        | inl e ↦
            let zero_id : count_where (is_job id) jobs ≡ 0 =
              subst (λ (x : String). count_where (is_job x) jobs ≡ 0) ((eq_iff job.id id).0 e)
                (exists_where-count (is_job job.id) jobs new) in
            ground arith
        | inr e ↦ ground arith
      ])

pub insert_job-IsSound : (db : Db) (job : Job) → IsSound db → IsSound (insert_job db job).0
unfolding insert_job
insert_job-IsSound db job s =
    elim (Bool-cases (exists_where (λ j. str_eq j.creation_key job.creation_key) db.jobs)) [
      | inl k ↦ rw k s
      | inr k ↦ elim (Bool-cases (exists_where (is_job job.id) db.jobs)) [
        | inl e ↦ rw (k, e) s
        | inr e ↦
            rw (k, e)
              (record {
                runs = s.runs;
                jobs = λ id. one_job db.jobs job id e (s.jobs id);
                locks = s.locks;
              })
      ]
    ]

pub finish-IsSound :
    (db : Db) (now run_id : ℕ) (owner : String) (state : RunState) (summary : List ℕ)
    → is_running state ≡ false
    → IsSound db
    → IsSound (finish db now run_id owner state summary).0
unfolding finish end_run
finish-IsSound db now run_id owner state summary quiet s =
    elim (Bool-cases (count_where (runs_now run_id) db.runs == 1)) [
      | inl e ↦ rw e (
          release-IsSound _ run_id owner (with_runs db (runs_now run_id) _ (λ r p. ground arith) s))
      | inr e ↦ rw e s
    ]

pub fail-IsSound :
    (db : Db) (now run_id : ℕ) (owner : String) (cause : Option (List ℕ))
    → IsSound db
    → IsSound (fail db now run_id owner cause).0
unfolding fail
fail-IsSound db now run_id owner cause s =
    elim (Option-cases (first_where (runs_now run_id) db.runs)) [
      | inl e ↦ rw (e, fail) s
      | inr (r, e) ↦ elim (Option-cases (find_job db.jobs r.job_id)) [
        | inl j ↦ rw (e, j, fail) s
        | inr (job, j) ↦
            rw (e, j, fail)
              (release-IsSound _ run_id owner (
                with_runs db (runs_now run_id) (fail_run now job r.attempts (safe_summary cause))
                  (λ x p. unfold fail_run in ground arith) s))
      ]
    ]

pub requeue-IsSound :
    (db : Db) (now run_id : ℕ) (owner : String) (summary : List ℕ)
    → IsSound db
    → IsSound (requeue db now run_id owner summary)
unfolding requeue requeue_run
requeue-IsSound db now run_id owner summary s =
    release-IsSound _ run_id owner (with_runs db (runs_now run_id) _ (λ r p. ground arith) s)

pub set_enabled-IsSound :
    (db : Db) (now : ℕ) (id : String) (enabled : Bool)
    → IsSound db
    → IsSound (set_enabled db now id enabled).0
unfolding set_enabled
set_enabled-IsSound db now id enabled s = with_jobs db _ _ (λ j. refl) s

pub cancel-IsSound : (db : Db) (now : ℕ) (id : String) → IsSound db → IsSound (cancel db now id).0
unfolding cancel cancel_job cancel_run
cancel-IsSound db now id s = elim (Bool-cases (count_where (is_job id) db.jobs == 1)) [
  | inl e ↦ rw e (
      with_jobs (record db { runs = _ }) (is_job id) _ (λ j. refl)
        (with_runs db (λ r. str_eq r.job_id id && is_pending r.state) _ (λ r p. ground arith) s))
  | inr e ↦ rw e s
]

pub recover_stale-IsSound : (db : Db) (now : ℕ) → IsSound db → IsSound (recover_stale db now).0
unfolding recover_stale purge_locks recover_run
recover_stale-IsSound db now s =
    with_runs _ (is_stale (purge_locks db now)) (recover_run db.jobs now) (λ r p. ground arith)
      (with_fewer_locks db (λ l. sql_le l.expires_at now) s)
