-- ===== src/Scheduler/Store.antt =====
-- The methods of Store in internal/scheduler/store.go but Claim. A method runs one transaction: it
-- takes the tables and the clock's reading, and gives the tables after the commit, or those before
-- it with an error. The database answers every statement; its I/O errors are left out.
use mosaid.Base.{
  ℕ, ◌-◌, ◌+◌, String, Bool, false, ◌&&◌, ◌||◌, not, Option, none, some, List, [], ◌∷◌, ◌++◌, map,
  str_eq, ◌==◌, if◌then◌else◌, is_none, update_where, delete_where, count_where, exists_where,
  first_where, codes, take,
}
use mosaid.Int.{pos, leb_ℤ}
use mosaid.Scheduler.Timestamps.{sql_le}
use mosaid.Scheduler.Types.{
  Job, RunState, pending, completed, dead, denied, cancelled, is_pending, is_running, RunRow, Lock,
  Db,
}
use mosaid.Scheduler.Normalize.{Invalid, accepted, rejected, normalize}
use mosaid.Scheduler.Recurrence.{bounded_backoff}

pub data StoreError : Type 0 where
  invalid : Invalid → StoreError
  duplicate_creation_key no_rows not_running owner_required : StoreError

abbrev pub is_job : String → Job → Bool
is_job id j = str_eq j.id id

abbrev pub not_cancelled : Job → Bool
not_cancelled j = is_none j.cancelled_at

-- SELECT ... FROM scheduled_jobs WHERE id=?
abbrev pub find_job : List Job → String → Option Job
find_job jobs id = first_where (is_job id) jobs

abbrev pub is_run : ℕ → RunRow → Bool
is_run id r = r.id == id

-- WHERE id=? AND state='running'
abbrev pub runs_now : ℕ → RunRow → Bool
runs_now id r = r.id == id && is_running r.state

abbrev pub locks_job : String → Lock → Bool
locks_job id l = str_eq l.job_id id

abbrev pub is_locked : Db → String → Bool
is_locked db id = exists_where (locks_job id) db.locks

spaced : ℕ → ℕ
spaced c = if c == 10 then 32 else c

-- An error's text on one line, cut at 500 bytes; `none` is the nil error.
unfoldable pub safe_summary : Option (List ℕ) → List ℕ
unfolding spaced
safe_summary none = []
safe_summary (some e) = take 500 (map spaced e)

pub data Created : Type 0 where
  created : Job → Created
  refused : StoreError → Created

-- The insertion of Create: the identifier is the primary key, and the creation key is unique.
unfoldable pub insert_job : Db → Job → Db × Created
insert_job db job =
    if exists_where (λ j. str_eq j.creation_key job.creation_key) db.jobs
      || exists_where (is_job job.id) db.jobs
    then (db, refused duplicate_creation_key)
    else (record db { jobs = db.jobs ++ record job { cancelled_at = none } ∷ [] }, created job)

module _ (valid_object : List ℕ → Bool) (compact : List ℕ → Option (List ℕ))
    (known_zone : String → Bool) where
  unfoldable pub create : Db → ℕ → Job → Db × Created
  create db now input = elim (normalize valid_object compact known_zone input now) [
    | rejected e ↦ (db, refused (invalid e))
    | accepted job ↦ insert_job db job
  ]

unfoldable pub set_enabled : Db → ℕ → String → Bool → Db × Option StoreError
set_enabled db now id enabled =
    let found = λ (j : Job). is_job id j && not_cancelled j in
    (
      record db {
        jobs = update_where found (λ j. record j { enabled = enabled; updated_at = now }) db.jobs;
      },
      if count_where found db.jobs == 1 then none else some no_rows,
    )

abbrev cancelled_since : ℕ → Option ℕ → Option ℕ
cancelled_since now none = some now
cancelled_since now (some t) = some t

unfoldable pub cancel_job : ℕ → Job → Job
cancel_job now j = record j {
  enabled = false;
  cancelled_at = cancelled_since now j.cancelled_at;
  updated_at = now;
}

unfoldable pub cancel_run : ℕ → RunRow → RunRow
cancel_run now r = record r {
  state = cancelled;
  finished_at = some now;
  last_error = codes "job cancelled";
  updated_at = now;
}

unfoldable pub cancel : Db → ℕ → String → Db × Option StoreError
cancel db now id =
    if count_where (is_job id) db.jobs == 1
    then (
      record db {
        jobs = update_where (is_job id) (cancel_job now) db.jobs;
        runs =
            update_where (λ r. str_eq r.job_id id && is_pending r.state) (cancel_run now) db.runs;
      },
      none,
    )
    else (db, some no_rows)

-- `none` where there is no such job.
unfoldable pub is_cancelled : Db → String → Option Bool
is_cancelled db id = elim (find_job db.jobs id) [
  | none ↦ none
  | some j ↦ some (not (not_cancelled j))
]

-- DELETE FROM job_locks WHERE job_id=(SELECT job_id FROM scheduled_runs WHERE id=?) AND owner=?
unfoldable pub release : Db → ℕ → String → Db
release db run_id owner = elim (first_where (is_run run_id) db.runs) [
  | none ↦ db
  | some r ↦ record db {
    locks = delete_where (λ l. locks_job r.job_id l && str_eq l.owner owner) db.locks;
  }
]

unfoldable pub end_run : ℕ → RunState → List ℕ → RunRow → RunRow
end_run now state summary r = record r {
  state = state;
  finished_at = some now;
  last_error = summary;
  updated_at = now;
}

unfoldable pub finish : Db → ℕ → ℕ → String → RunState → List ℕ → Db × Option StoreError
finish db now run_id owner state summary =
    if count_where (runs_now run_id) db.runs == 1
    then (
      release
          (record db { runs = update_where (runs_now run_id) (end_run now state summary) db.runs })
          run_id owner,
      none,
    )
    else (db, some not_running)

unfoldable pub complete : Db → ℕ → ℕ → String → Db × Option StoreError
complete db now run_id owner = finish db now run_id owner completed []

unfoldable pub deny : Db → ℕ → ℕ → String → Option (List ℕ) → Db × Option StoreError
deny db now run_id owner cause = finish db now run_id owner denied (safe_summary cause)

unfoldable pub mark_cancelled : Db → ℕ → ℕ → String → Db × Option StoreError
mark_cancelled db now run_id owner = finish db now run_id owner cancelled (codes "job cancelled")

-- What a failed attempt makes of its run: dead once the attempts are used up, and else pending again
-- after the backoff.
unfoldable pub fail_run : ℕ → Job → ℕ → List ℕ → RunRow → RunRow
fail_run now job attempts summary r =
    let spent = leb_ℤ job.max_attempts (pos attempts) in
    record r {
      state = if spent then dead else pending;
      available_at = if spent then now else now + bounded_backoff job.retry_backoff attempts;
      finished_at = if spent then some now else none;
      last_error = summary;
      updated_at = now;
    }

unfoldable pub fail : Db → ℕ → ℕ → String → Option (List ℕ) → Db × Option StoreError
fail db now run_id owner cause = elim (first_where (runs_now run_id) db.runs) [
  | none ↦ (db, some no_rows)
  | some r ↦ elim (find_job db.jobs r.job_id) [
    | none ↦ (db, some no_rows)
    | some job ↦ (
      release
          (record db {
            runs =
                update_where (runs_now run_id) (fail_run now job r.attempts (safe_summary cause))
                  db.runs;
          })
          run_id owner,
      none,
    )
  ]
]

-- The attempt does not count. `attempts - 1` stops at 0, as the CASE does.
unfoldable pub requeue_run : ℕ → List ℕ → RunRow → RunRow
requeue_run now summary r = record r {
  state = pending;
  attempts = r.attempts - 1;
  available_at = now;
  started_at = none;
  last_error = summary;
  updated_at = now;
}

unfoldable pub requeue : Db → ℕ → ℕ → String → List ℕ → Db
requeue db now run_id owner summary =
    release
      (record db {
        runs =
            update_where (runs_now run_id) (requeue_run now (safe_summary (some summary))) db.runs;
      })
      run_id owner

-- EXISTS(SELECT 1 FROM scheduled_jobs j WHERE j.id=... AND j.cancelled_at IS NOT NULL)
abbrev pub job_cancelled : List Job → String → Bool
job_cancelled jobs id = exists_where (λ j. is_job id j && not (not_cancelled j)) jobs

unfoldable pub purge_locks : Db → ℕ → Db
purge_locks db now = record db { locks = delete_where (λ l. sql_le l.expires_at now) db.locks }

-- A running run with no lock on its job.
abbrev pub is_stale : Db → RunRow → Bool
is_stale db r = is_running r.state && not (is_locked db r.job_id)

unfoldable pub recover_run : List Job → ℕ → RunRow → RunRow
recover_run jobs now r =
    let gone = job_cancelled jobs r.job_id in
    record r {
      state = if gone then cancelled else pending;
      available_at = now;
      finished_at = if gone then some now else none;
      last_error = codes "recovered after stale lock";
      updated_at = now;
    }

unfoldable pub recover_stale : Db → ℕ → Db × ℕ
recover_stale db now =
    let purged = purge_locks db now in
    (
      record purged { runs = update_where (is_stale purged) (recover_run db.jobs now) purged.runs },
      count_where (is_stale purged) purged.runs,
    )
