-- ===== src/Scheduler/Claim.antt =====
-- Claim of internal/scheduler/store.go, with the parts that it calls in its transaction.
use mosaid.Base.{
  ℕ, ◌+◌, String, Bool, true, false, ◌&&◌, ◌||◌, not, Option, none, some, List, [], ◌∷◌, ◌++◌,
  str_eq, ltb, ◌==◌, if◌then◌else◌, update_where, delete_where, count_where, exists_where,
  min_where, codes,
}
use mosaid.Int.{ℤ, pos, pos_part, leb_ℤ, ltb_ℤ, ◌+ℤ◌}
use mosaid.Scheduler.Timestamps.{second, sql_le}
use mosaid.Scheduler.Types.{
  Kind, recurring, MissedPolicy, skip, Job, pending, running, skipped, dead, is_pending, RunKey,
  run_key, RunRow, Lock, Db, Run,
}
use mosaid.Scheduler.Recurrence.{next_recurring}
use mosaid.Scheduler.Store.{
  StoreError, owner_required, is_job, not_cancelled, find_job, locks_job, is_locked, purge_locks,
  is_stale,
}

-- Back to pending, whatever became of the job.
unfoldable pub retake_run : ℕ → RunRow → RunRow
retake_run now r = record r {
  state = pending;
  available_at = now;
  last_error = codes "recovered after stale lock";
  updated_at = now;
}

unfoldable pub retake_stale : Db → ℕ → Db
retake_stale db now = record db { runs = update_where (is_stale db) (retake_run now) db.runs }

-- attempts>=(SELECT max_attempts FROM scheduled_jobs ...), which is no hit without the job
unfoldable pub has_spent : List Job → RunRow → Bool
has_spent jobs r = elim (find_job jobs r.job_id) [
  | none ↦ false
  | some j ↦ leb_ℤ j.max_attempts (pos r.attempts)
]

unfoldable pub bury_run : ℕ → RunRow → RunRow
bury_run now r = record r {
  state = dead;
  finished_at = some now;
  last_error = codes "retry budget exhausted during recovery";
  updated_at = now;
}

unfoldable pub bury_spent : Db → ℕ → Db
bury_spent db now = record db {
  runs = update_where (λ r. is_pending r.state && has_spent db.jobs r) (bury_run now) db.runs;
}

-- The lock outlives the job's timeout by a second at least.
abbrev pub lock_span : ℤ → ℤ → ℤ
lock_span lock_ttl timeout =
    let long = timeout +ℤ pos second in if ltb_ℤ lock_ttl long then long else lock_ttl

abbrev pub new_lock : Job → String → ℕ → ℤ → Lock
new_lock job owner now lock_ttl = record {
  job_id = job.id;
  owner = owner;
  acquired_at = now;
  expires_at = now + pos_part (lock_span lock_ttl job.timeout);
}

-- INSERT OR IGNORE on the primary key job_id
unfoldable pub acquire_lock : Db → Job → String → ℕ → ℤ → Db × Bool
acquire_lock db job owner now lock_ttl =
    if is_locked db job.id
    then (db, false)
    else (record db { locks = db.locks ++ new_lock job owner now lock_ttl ∷ [] }, true)

unfoldable pub drop_lock : Db → String → String → Db
drop_lock db job_id owner = record db {
  locks = delete_where (λ l. locks_job job_id l && str_eq l.owner owner) db.locks;
}

-- ORDER BY r.available_at,r.id
abbrev pub run_before : RunRow → RunRow → Bool
run_before a b =
    if sql_le a.available_at b.available_at
    then (if sql_le b.available_at a.available_at then ltb a.id b.id else true)
    else false

-- JOIN scheduled_jobs j ON j.id=r.job_id WHERE ... j.cancelled_at IS NULL
unfoldable pub has_live_job : List Job → RunRow → Bool
has_live_job jobs r = elim (find_job jobs r.job_id) [ none ↦ false | some j ↦ not_cancelled j ]

unfoldable pub is_ready : Db → ℕ → RunRow → Bool
is_ready db now r =
    is_pending r.state
    && (sql_le r.available_at now && (has_live_job db.jobs r && not (is_locked db r.job_id)))

-- WHERE id=? AND state='pending'
abbrev pub waits : ℕ → RunRow → Bool
waits id r = r.id == id && is_pending r.state

unfoldable pub start_run : ℕ → RunRow → RunRow
start_run now r = record r {
  state = running;
  attempts = r.attempts + 1;
  started_at = some now;
  updated_at = now;
}

-- The run as the claim returns it.
abbrev pub started : RunRow → Job → ℕ → Run
started r job now = record {
  id = r.id;
  job = job;
  scheduled_for = r.scheduled_for;
  idempotency_key = r.idempotency_key;
  state = running;
  attempts = r.attempts + 1;
  available_at = r.available_at;
  started_at = some now;
}

unfoldable pub start_pending : Db → RunRow → Job → String → ℕ → ℤ → Db × Option Run
start_pending db r job owner now lock_ttl =
    let (locked, got) = acquire_lock db job owner now lock_ttl in
    if not got then (locked, none) else (
      record locked { runs = update_where (waits r.id) (start_run now) locked.runs },
      if count_where (waits r.id) locked.runs == 1 then some (started r job now) else none,
    )

unfoldable pub claim_pending_run : Db → String → ℕ → ℤ → Db × Option Run
claim_pending_run db owner now lock_ttl = elim (min_where run_before (is_ready db now) db.runs) [
  | none ↦ (db, none)
  | some r ↦ elim (find_job db.jobs r.job_id) [
    | none ↦ (db, none)
    | some job ↦ start_pending db r job owner now lock_ttl
  ]
]

abbrev pub key_eq : RunKey → RunKey → Bool
key_eq (run_key i s) (run_key j t) = str_eq i j && s == t

-- INSERT OR IGNORE on the unique idempotency_key
unfoldable pub insert_run : Db → RunRow → Db × Bool
insert_run db r =
    if exists_where (λ x. key_eq x.idempotency_key r.idempotency_key) db.runs
    then (db, false)
    else (record db { runs = db.runs ++ r ∷ []; next_run_id = db.next_run_id + 1 }, true)

-- The row of a run that starts now, and of one that is recorded as skipped.
unfoldable pub first_run : ℕ → Job → ℕ → RunRow
first_run id job now = record {
  id = id;
  job_id = job.id;
  scheduled_for = job.next_run;
  idempotency_key = run_key job.id job.next_run;
  state = running;
  attempts = 1;
  available_at = now;
  started_at = some now;
  finished_at = none;
  last_error = [];
  created_at = now;
  updated_at = now;
}

unfoldable pub skipped_run : ℕ → Job → ℕ → RunRow
skipped_run id job now = record {
  id = id;
  job_id = job.id;
  scheduled_for = job.next_run;
  idempotency_key = run_key job.id job.next_run;
  state = skipped;
  attempts = 0;
  available_at = now;
  started_at = none;
  finished_at = some now;
  last_error = codes "missed run skipped";
  created_at = now;
  updated_at = now;
}

abbrev pub is_recurring : Kind → Bool
is_recurring recurring = true
is_recurring _ = false

abbrev pub is_skip : MissedPolicy → Bool
is_skip skip = true
is_skip _ = false

-- A whole interval has passed since the run was due: `!scheduled.Add(job.Every).After(now)`.
unfoldable pub is_missed : Job → ℕ → Bool
is_missed job now =
    is_recurring job.kind && (is_skip job.missed && leb_ℤ (pos job.next_run +ℤ job.every) (pos now))

-- A recurring job moves on, a one-time job is disabled.
unfoldable pub advance_job : ℕ → Job → Job
advance_job now job =
    if is_recurring job.kind
    then record job { next_run = next_recurring job.next_run job.every now; updated_at = now }
    else record job { enabled = false; updated_at = now }

unfoldable pub advance : Db → Job → ℕ → Db
advance db job now = record db { jobs = update_where (is_job job.id) (advance_job now) db.jobs }

-- The branch of a missed run of a job that skips those: it is noted, and nothing starts.
unfoldable pub skip_missed : Db → Job → String → ℕ → Db × Option Run
skip_missed db job owner now =
    let noted = (insert_run db (skipped_run db.next_run_id job now)).0 in
    (drop_lock (advance noted job now) job.id owner, none)

abbrev pub due_run : ℕ → Job → ℕ → Run
due_run id job now = record {
  id = id;
  job = job;
  scheduled_for = job.next_run;
  idempotency_key = run_key job.id job.next_run;
  state = running;
  attempts = 1;
  available_at = now;
  started_at = some now;
}

unfoldable pub begin_due : Db → Job → String → ℕ → Db × Option Run
begin_due db job owner now =
    let moved = advance db job now in
    let (inserted, done) = insert_run moved (first_run moved.next_run_id job now) in
    if not done
    then (drop_lock inserted job.id owner, none)
    else (inserted, some (due_run moved.next_run_id job now))

unfoldable pub start_due : Db → Job → String → ℕ → ℤ → Db × Option Run
start_due db job owner now lock_ttl =
    let (locked, got) = acquire_lock db job owner now lock_ttl in
    if not got
    then (locked, none)
    else if is_missed job now
    then skip_missed locked job owner now
    else begin_due locked job owner now

-- enabled=1 AND cancelled_at IS NULL AND next_run<=? AND NOT EXISTS(... job_locks ...)
unfoldable pub is_due : Db → ℕ → Job → Bool
is_due db now j =
    j.enabled && (not_cancelled j && (sql_le j.next_run now && not (is_locked db j.id)))

-- ORDER BY next_run,id, where `id_lt` is the order of the identifiers' texts.
abbrev pub job_before : (String → String → Bool) → Job → Job → Bool
job_before id_lt a b =
    if sql_le a.next_run b.next_run
    then (if sql_le b.next_run a.next_run then id_lt a.id b.id else true)
    else false

-- The recovery that every claim begins with.
unfoldable pub recover : Db → ℕ → Db
recover db now = bury_spent (retake_stale (purge_locks db now) now) now

module _ (id_lt : String → String → Bool) where
  unfoldable pub claim_due_job : Db → String → ℕ → ℤ → Db × Option Run
  claim_due_job db owner now lock_ttl =
      elim (min_where (job_before id_lt) (is_due db now) db.jobs) [
        | none ↦ (db, none)
        | some job ↦ start_due db job owner now lock_ttl
      ]

  unfoldable pub claim_recovered : Db → String → ℕ → ℤ → Db × Option Run
  claim_recovered db owner now lock_ttl =
      let (tried, run) = claim_pending_run db owner now lock_ttl in
      elim run [ none ↦ claim_due_job tried owner now lock_ttl | some r ↦ (tried, some r) ]

  unfoldable pub claim : Db → ℕ → String → ℤ → Db × Option Run × Option StoreError
  claim db now owner lock_ttl =
      if str_eq owner "" || leb_ℤ lock_ttl (pos 0)
      then (db, none, some owner_required)
      else let (after, run) = claim_recovered (recover db now) owner now lock_ttl in
        (after, run, none)
