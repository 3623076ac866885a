-- ===== src/Scheduler/Examples.antt =====
-- A job through the scheduler of internal/scheduler: created, claimed, executed; and a refused one.
use mathlib.Core.List.{Memᴰ}
use mosaid.Base.{
  suc, ℕ, ◌+◌, ◌*◌, ◌-◌, ◌^◌, ◌≡◌, refl, subst, String, Bool, true, false, Option, none, some, List,
  [], ◌∷◌, arith, str_eq, count_where,
}
use Prim.Native.Nat.{min}
use mosaid.Int.{pos}
use mosaid.Policy.{Risk}
use mosaid.Scheduler.Timestamps.{second, minute, day, sql_le, sql_le_whole}
use mosaid.Scheduler.Types.{
  recurring, Class, publish, read_only, MissedPolicy, run_once, Job, running, completed, Invocation,
  run_key, RunRow, Db, Run,
}
use mosaid.Scheduler.Normalize.{
  accepted, normalize, normal_input, normal_zone, normal_kind, normal_class, normal_risk,
  normal_missed, normal_attempts, normal_backoff, normal_timeout, normal_key,
}
use mosaid.Scheduler.Normalize.Bounds.{IsNormal, normalize-IsNormal}
use mosaid.Scheduler.Recurrence.{next_recurring, bounded_backoff, bounded_backoff_lem}
use mosaid.Scheduler.Store.{
  create, complete, finish, release, runs_now, end_run, purge_locks, StoreError,
}
use mosaid.Scheduler.Claim.{
  claim, claim_recovered, recover, claim_pending_run, claim_due_job, start_due, begin_due,
  insert_run, acquire_lock, advance, is_due, is_missed, bury_spent, retake_stale, advance_job,
  first_run,
}
use mosaid.Scheduler.Sound.Runs.{IsSound}
use mosaid.Scheduler.Sound.Steps.{empty, Step, Reach, Reach-IsSound}
use mosaid.Scheduler.Sound.Claims.{claim-IsSound}
use mosaid.Policy.{evaluate}
use mosaid.Scheduler.Gate.{
  ApprovalBinding, Denial, approval_required, judged, spec_of, binding_of, verify, authorize,
}
use mosaid.Scheduler.Gate.Approvals.{authorize-sensitive, authorize_plain}
use mosaid.Scheduler.Loop.{
  Outcome, returned, invocation_of, settle, execute, settle_stops, execute_denied,
}
use mosaid.Scheduler.Grants.{claim-Granted}
use mosaid.Scheduler.Grants.Pending.{Granted}
use mosaid.Scheduler.Ended.{Reach-Keeps}

abbrev valid : List ℕ → Bool
valid text = true

abbrev same_text : List ℕ → Option (List ℕ)
same_text text = some text

abbrev any_zone : String → Bool
any_zone zone = true

abbrev by_nothing : String → String → Bool
by_nothing a b = false

-- What a caller writes, with most fields unset.
abbrev request : Job
request = record {
  id = "digest";
  skill_id = "research";
  input = [];
  kind = recurring;
  class = Class.other "";
  risk = Risk.other "";
  timezone = "";
  every = pos (60 * second);
  next_run = 100 * second;
  enabled = true;
  missed = MissedPolicy.other "";
  max_attempts = pos 0;
  retry_backoff = pos 0;
  timeout = pos 0;
  creation_key = "";
  approval_ref = "";
  cancelled_at = none;
  created_at = 0;
  updated_at = 0;
}

abbrev stored : Job
stored = record request {
  input = b'{' ∷ b'}' ∷ [];
  class = read_only;
  risk = Risk.safe;
  timezone = "UTC";
  missed = run_once;
  max_attempts = pos 3;
  retry_backoff = pos second;
  timeout = pos minute;
  creation_key = "create:digest";
  created_at = 90 * second;
  updated_at = 90 * second;
}

request_accepted : normalize valid same_text any_zone request (90 * second) ≡ accepted stored
unfolding normalize normal_input normal_zone normal_kind normal_class normal_risk normal_missed
    normal_attempts normal_backoff normal_timeout normal_key
request_accepted = refl

normalize-IsNormal_example : IsNormal stored
normalize-IsNormal_example =
    normalize-IsNormal valid same_text any_zone request (90 * second) stored request_accepted

-- The tables after Create, and what a claim 130 seconds after the start of time returns.
abbrev tables : Db
tables = record { jobs = stored ∷ []; runs = []; locks = []; next_run_id = 1 }

abbrev granted : Run
granted = record {
  id = 1;
  job = stored;
  scheduled_for = 100 * second;
  idempotency_key = run_key "digest" (100 * second);
  state = running;
  attempts = 1;
  available_at = 130 * second;
  started_at = some (130 * second);
}

abbrev with_granted : Db
with_granted = record {
  jobs = record stored { next_run = 160 * second; updated_at = 130 * second } ∷ [];
  runs =
      record {
        id = 1;
        job_id = "digest";
        scheduled_for = 100 * second;
        idempotency_key = run_key "digest" (100 * second);
        state = running;
        attempts = 1;
        available_at = 130 * second;
        started_at = some (130 * second);
        finished_at = none;
        last_error = [];
        created_at = 130 * second;
        updated_at = 130 * second;
      }
      ∷ [];
  locks =
      record {
        job_id = "digest";
        owner = "worker";
        acquired_at = 130 * second;
        expires_at = 430 * second;
      }
      ∷ [];
  next_run_id = 2;
}

tables-IsSound : IsSound tables
tables-IsSound = record {
  runs = record {
    fresh = tt;
    ids = λ k. omega arith;
    keys = λ k. omega arith;
    alone = λ k. omega arith;
  };
  jobs = λ id. ground arith;
  locks = λ id. omega arith;
}

claims_first :
    claim by_nothing tables (130 * second) "worker" (pos (300 * second))
    ≡ (with_granted, some granted, none)
unfolding claim claim_recovered claim_pending_run recover bury_spent retake_stale purge_locks
    claim_due_job is_due sql_le start_due acquire_lock is_missed begin_due advance advance_job
    insert_run first_run next_recurring
claims_first = refl

claim-Granted_example :
    Granted
      (recover tables (130 * second))
      (claim by_nothing tables (130 * second) "worker" (pos (300 * second))).0
      "worker"
      (130 * second)
      (pos (300 * second))
      granted
claim-Granted_example =
    claim-Granted by_nothing tables (130 * second) "worker" (pos (300 * second)) granted
      tables-IsSound (omega arith) (rw claims_first)

claim-IsSound_example :
    IsSound (claim by_nothing tables (130 * second) "worker" (pos (300 * second))).0
claim-IsSound_example =
    claim-IsSound by_nothing tables (130 * second) "worker" (pos (300 * second)) tables-IsSound

Reach-IsSound_example : IsSound (create valid same_text any_zone empty (90 * second) request).0
Reach-IsSound_example =
    Reach-IsSound valid same_text any_zone by_nothing
      (Reach.next Reach.here (Step.creates (90 * second) request))

-- The granted run, completed.
abbrev ended : RunRow
ended = record {
  id = 1;
  job_id = "digest";
  scheduled_for = 100 * second;
  idempotency_key = run_key "digest" (100 * second);
  state = completed;
  attempts = 1;
  available_at = 130 * second;
  started_at = some (130 * second);
  finished_at = some (140 * second);
  last_error = [];
  created_at = 130 * second;
  updated_at = 140 * second;
}

abbrev with_ended : Db
with_ended = record with_granted { runs = ended ∷ []; locks = [] }

completes_first : complete with_granted (140 * second) 1 "worker" ≡ (with_ended, none)
unfolding complete finish release end_run
completes_first = refl

Reach-Keeps_example :
    Memᴰ ended (claim by_nothing with_ended (500 * second) "worker" (pos (300 * second))).0.runs
Reach-Keeps_example =
    Reach-Keeps valid same_text any_zone by_nothing ended
      (Reach.next Reach.here (Step.claims (500 * second) "worker" (pos (300 * second))))
      (refl, refl) (Memᴰ.head refl)

bounded_backoff_lem_example : bounded_backoff (pos second) 4 ≡ min day (second * 2 ^ min 10 (4 - 1))
bounded_backoff_lem_example = bounded_backoff_lem second 4 (omega arith)

sql_le_whole_example :
    (sql_le (7 * second + 500) (7 * second) ≡ true)
    × (sql_le (7 * second) (7 * second + 500) ≡ false)
sql_le_whole_example = sql_le_whole (7 * second + 500) 7

abbrev hash : List ℕ → String
hash text = "h"

abbrev accepting : Option (ApprovalBinding → Bool)
accepting = some (λ b. str_eq b.reference "ref")

abbrev publication : Invocation
publication = record {
  run_id = 1;
  job_id = "post";
  skill_id = "social";
  input = [];
  class = publish;
  risk = Risk.high;
  scheduled_for = 100 * second;
  idempotency_key = run_key "post" (100 * second);
  approval_ref = "ref";
}

authorize-sensitive_example :
    (str_eq "ref" "" ≡ false)
    × ((check : ApprovalBinding → Bool) × (accepting ≡ some check)
        × (check (binding_of hash publication) ≡ true))
authorize-sensitive_example =
    authorize-sensitive hash accepting publication refl
      (unfold authorize verify judged evaluate spec_of binding_of in refl)

authorize_plain_example : authorize hash none (invocation_of granted) ≡ none
unfolding invocation_of
authorize_plain_example = authorize_plain hash none (invocation_of granted) refl

abbrev refused : Run
refused = record granted { job = record stored { class = publish } }

abbrev text_of : Denial → List ℕ
text_of d = []

with_granted-IsSound : IsSound with_granted
with_granted-IsSound =
    subst (λ (x : Db × Option Run × Option StoreError). IsSound x.0) claims_first
      claim-IsSound_example

settle_stops_example :
    count_where (runs_now 1) (settle with_granted (140 * second) "worker" granted returned).0.runs
    ≡ 0
settle_stops_example =
    settle_stops with_granted (140 * second) "worker" granted returned with_granted-IsSound
      (unfold settle in rw completes_first)

-- An executor that counts its calls.
abbrev counting : ℕ → Invocation → ℕ × Outcome
counting n i = (suc n, returned)

execute_denied_example :
    ((execute hash none text_of counting 0 with_granted (140 * second) "worker" refused).0 ≡ 0)
    × (count_where
          (runs_now 1)
          (execute hash none text_of counting 0 with_granted
            (140 * second)
            "worker"
            refused).1.0.runs
        ≡ 0)
execute_denied_example =
    execute_denied hash none text_of counting 0 with_granted (140 * second) "worker" refused
      approval_required with_granted-IsSound
      (unfold authorize invocation_of verify judged evaluate spec_of in refl)
