-- ===== src/Scheduler/Loop.antt =====
-- internal/scheduler/scheduler.go: RunOnce claims a run, asks the gate, executes, and settles the run.
-- The executor is a parameter with a state of its own, which stands for all that it reads and does:
-- it gives the state after, and whether its error or the context's is a cancellation. While it runs
-- other transactions may change the tables; `settle` is stated of any tables, and `execute` is the
-- case where nothing else changes them.
use mosaid.Base.{
  ℕ, ◌≤◌, ◌≡◌, refl, String, Bool, true, false, Option, none, some, List, arith, ◌==◌,
  if◌then◌else◌, Bool-cases, Option-cases, inl, inr, update_where, count_where,
  count_where-update_zero, count_where_mono, first_where, codes,
}
use mosaid.Scheduler.Types.{
  Db, Run, RunRow, RunState, is_running, cancelled, completed, denied, Invocation,
}
use mosaid.Scheduler.Store.{
  StoreError, no_rows, runs_now, is_run, is_cancelled, complete, deny, mark_cancelled, finish, fail,
  requeue, release, end_run, find_job, requeue_run, fail_run, safe_summary,
}
use mosaid.Scheduler.Gate.{ApprovalBinding, Denial, authorize}
use mosaid.Scheduler.Sound.Runs.{IsSound}

pub data Outcome : Type 0 where
  returned : Outcome
  failed : Bool → List ℕ → Outcome

-- The invocation that execute builds from a run.
unfoldable pub invocation_of : Run → Invocation
invocation_of run = record {
  run_id = run.id;
  job_id = run.job.id;
  skill_id = run.job.skill_id;
  input = run.job.input;
  class = run.job.class;
  risk = run.job.risk;
  scheduled_for = run.scheduled_for;
  idempotency_key = run.idempotency_key;
  approval_ref = run.job.approval_ref;
}

-- After a cancellation: the run is cancelled with its job, or goes back to the queue.
unfoldable pub settle_cancelled : Db → ℕ → String → Run → Db × Option StoreError
settle_cancelled db now owner run = elim (is_cancelled db run.job.id) [
  | none ↦ (db, some no_rows)
  | some gone ↦
      if gone
      then mark_cancelled db now run.id owner
      else (requeue db now run.id owner (codes "scheduler shutdown before completion"), none)
]

unfoldable pub settle : Db → ℕ → String → Run → Outcome → Db × Option StoreError
settle db now owner run returned = complete db now run.id owner
settle db now owner run (failed by_cancel text) =
    if by_cancel then settle_cancelled db now owner run else fail db now run.id owner (some text)

module _ (hash : List ℕ → String) (verifier : Option (ApprovalBinding → Bool))
    (denial_text : Denial → List ℕ) {E : Type 0} (executor : E → Invocation → E × Outcome) where
  -- What follows the claim, at the reading `now` of the settling.
  unfoldable pub execute : E → Db → ℕ → String → Run → E × (Db × Option StoreError)
  execute env db now owner run = elim (authorize hash verifier (invocation_of run)) [
    | some d ↦ (env, deny db now run.id owner (some (denial_text d)))
    | none ↦
        let (after, outcome) = executor env (invocation_of run) in
        (after, settle db now owner run outcome)
  ]

runs_ended :
    (run_id : ℕ) (f : RunRow → RunRow)
    → ((r : RunRow) → is_running (f r).state ≡ false)
    → (runs : List RunRow)
    → count_where (runs_now run_id) (update_where (runs_now run_id) f runs) ≡ 0
runs_ended run_id f h runs =
    count_where-update_zero (runs_now run_id) (runs_now run_id) f
      (λ r p. let quiet = h r in ground arith) (λ r p. p) runs

release-runs : (db : Db) (run_id : ℕ) (owner : String) → (release db run_id owner).runs ≡ db.runs
unfolding release
release-runs db run_id owner = ground arith

-- In sound tables a run with this id runs at most once.
at_most_one : (db : Db) (run_id : ℕ) → IsSound db → count_where (runs_now run_id) db.runs ≤ 1
at_most_one db run_id s =
    let le = count_where_mono (runs_now run_id) (is_run run_id) (λ r p. ground arith) db.runs in
    omega (arith, s.runs.ids run_id)

finish_stops :
    (db : Db) (now run_id : ℕ) (owner : String) (state : RunState) (summary : List ℕ)
    → is_running state ≡ false
    → IsSound db
    → count_where (runs_now run_id) (finish db now run_id owner state summary).0.runs ≡ 0
unfolding finish end_run
finish_stops db now run_id owner state summary quiet s =
    elim (Bool-cases (count_where (runs_now run_id) db.runs == 1)) [
      | inl e ↦ rw e (rw release-runs (runs_ended run_id _ (λ r. quiet) db.runs))
      | inr e ↦ rw e (let le = at_most_one db run_id s in ground arith)
    ]

fail_stops :
    (db : Db) (now run_id : ℕ) (owner : String) (cause : Option (List ℕ))
    → (fail db now run_id owner cause).1 ≡ none
    → count_where (runs_now run_id) (fail db now run_id owner cause).0.runs ≡ 0
unfolding fail
fail_stops db now run_id owner cause h =
    elim (Option-cases (first_where (runs_now run_id) db.runs)) [
      | inl e ↦ let no : ◌≡◌ {A = Option StoreError} (some no_rows) none = rw (e, fail) at h in cc
      | inr (r, e) ↦ elim (Option-cases (find_job db.jobs r.job_id)) [
        | inl j ↦
            let no : ◌≡◌ {A = Option StoreError} (some no_rows) none = rw (e, j, fail) at h in cc
        | inr (job, j) ↦
            rw (e, j, fail)
              (rw release-runs (
                runs_ended run_id (fail_run now job r.attempts (safe_summary cause))
                  (λ x. unfold fail_run in ground arith) db.runs))
      ]
    ]

-- Settling an executed run without an error leaves no running row with its id, whatever the executor
-- returned: it is completed, cancelled, dead, or pending again.
pub settle_stops :
    (db : Db) (now : ℕ) (owner : String) (run : Run) (outcome : Outcome)
    → IsSound db
    → (settle db now owner run outcome).1 ≡ none
    → count_where (runs_now run.id) (settle db now owner run outcome).0.runs ≡ 0
unfolding settle complete
settle_stops db now owner run returned s h = finish_stops db now run.id owner completed _ refl s
settle_stops db now owner run (failed false text) s h = fail_stops db now run.id owner (some text) h
settle_stops db now owner run (failed true text) s h =
    elim (Option-cases (is_cancelled db run.job.id)) [
      | inl e ↦
          let no : ◌≡◌ {A = Option StoreError} (some no_rows) none =
            unfold settle_cancelled in rw (e, settle_cancelled) at h in
          cc
      | inr (true, e) ↦
          unfold settle_cancelled mark_cancelled in
          rw (e, settle_cancelled) (finish_stops db now run.id owner cancelled _ refl s)
      | inr (false, e) ↦
          unfold settle_cancelled requeue requeue_run in
          rw (e, settle_cancelled) (rw release-runs (runs_ended run.id _ (λ r. refl) db.runs))
    ]

-- A run that the gate refuses is not executed: the executor's state stays as it is, whatever a call
-- would make of it, and in sound tables no row with the run's id runs any more.
pub execute_denied :
    (hash : List ℕ → String) (verifier : Option (ApprovalBinding → Bool))
    (denial_text : Denial → List ℕ) {E : Type 0} (executor : E → Invocation → E × Outcome) (env : E)
    (db : Db) (now : ℕ) (owner : String) (run : Run) (d : Denial)
    → IsSound db
    → authorize hash verifier (invocation_of run) ≡ some d
    → ((execute hash verifier denial_text executor env db now owner run).0 ≡ env)
      × (count_where
            (runs_now run.id)
            (execute hash verifier denial_text executor env db now owner run).1.0.runs
          ≡ 0)
unfolding execute deny
execute_denied hash verifier denial_text executor env db now owner run d s h =
    (rw (h, execute) refl, rw (h, execute) (finish_stops db now run.id owner denied _ refl s))
