-- ===== src/Scheduler/Types.antt =====
-- internal/scheduler/types.go, and the rows of the tables scheduled_jobs, scheduled_runs and
-- job_locks that internal/storage/db.go creates.
use mosaid.Base.{ℕ, String, Bool, true, false, Option, List}
use mosaid.Int.{ℤ}
use mosaid.Policy.{Risk}

-- The named texts of each Go string type, and any other text; the unset value is `other ""`.
pub data Kind : Type 0 where
  one_time recurring : Kind
  other : String → Kind

pub data Class : Type 0 where
  reminder read_only write publish : Class
  other : String → Class

pub data MissedPolicy : Type 0 where
  skip run_once : MissedPolicy
  other : String → MissedPolicy

pub record Job : Type 0 where
  pub id : String
  pub skill_id : String
  pub input : List ℕ
  pub kind : Kind
  pub class : Class
  pub risk : Risk
  pub timezone : String
  pub every : ℤ
  pub next_run : ℕ
  pub enabled : Bool
  pub missed : MissedPolicy
  pub max_attempts : ℤ
  pub retry_backoff : ℤ
  pub timeout : ℤ
  pub creation_key : String
  pub approval_ref : String
  pub cancelled_at : Option ℕ
  pub created_at : ℕ
  pub updated_at : ℕ

pub data RunState : Type 0 where
  pending running completed failed dead denied cancelled skipped : RunState

abbrev pub is_pending : RunState → Bool
is_pending pending = true
is_pending _ = false

abbrev pub is_running : RunState → Bool
is_running running = true
is_running _ = false

-- A key names a job and a time: the text `"job:" + jobID + ":" + formatTime(scheduled)` of runKey
-- determines both, since an identifier holds no colon.
pub data RunKey : Type 0 where
  run_key : String → ℕ → RunKey

-- A row of scheduled_runs.
pub record RunRow : Type 0 where
  pub id : ℕ
  pub job_id : String
  pub scheduled_for : ℕ
  pub idempotency_key : RunKey
  pub state : RunState
  pub attempts : ℕ
  pub available_at : ℕ
  pub started_at : Option ℕ
  pub finished_at : Option ℕ
  pub last_error : List ℕ
  pub created_at : ℕ
  pub updated_at : ℕ

-- A row of job_locks.
pub record Lock : Type 0 where
  pub job_id : String
  pub owner : String
  pub acquired_at : ℕ
  pub expires_at : ℕ

pub record Db : Type 0 where
  pub jobs : List Job
  pub runs : List RunRow
  pub locks : List Lock
  pub next_run_id : ℕ

-- What a claim hands to the scheduler.
pub record Run : Type 0 where
  pub id : ℕ
  pub job : Job
  pub scheduled_for : ℕ
  pub idempotency_key : RunKey
  pub state : RunState
  pub attempts : ℕ
  pub available_at : ℕ
  pub started_at : Option ℕ

pub record Invocation : Type 0 where
  pub run_id : ℕ
  pub job_id : String
  pub skill_id : String
  pub input : List ℕ
  pub class : Class
  pub risk : Risk
  pub scheduled_for : ℕ
  pub idempotency_key : RunKey
  pub approval_ref : String
