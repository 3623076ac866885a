-- ===== src/Scheduler/Ended.antt =====
-- Runs that have ended, in internal/scheduler/store.go: no transaction changes one again.
use mathlib.Core.List.{Memᴰ}
use mosaid.Base.{
  ℕ, ◌≡◌, refl, sym, subst, ap, String, Bool, false, ◌&&◌, ◌||◌, Option, List, [], ◌∷◌, ◌++◌, arith,
  str_eq, ◌==◌, Bool-cases, Option-cases, inl, inr, update_where, count_where, exists_where,
  first_where, min_where,
}
use mosaid.Int.{ℤ, pos, leb_ℤ}
use mosaid.Scheduler.Types.{Job, RunState, is_running, is_pending, RunRow, Db}
use mosaid.Scheduler.Normalize.{normalize, Checked-cases}
use mosaid.Scheduler.Store.{
  is_job, runs_now, find_job, is_stale, create, insert_job, set_enabled, cancel, release, finish,
  complete, deny, mark_cancelled, fail, requeue, recover_stale, purge_locks,
}
use mosaid.Scheduler.Claim.{
  retake_stale, has_spent, bury_spent, acquire_lock, drop_lock, run_before, is_ready, waits,
  start_pending, claim_pending_run, insert_run, is_missed, advance, skip_missed, begin_due,
  start_due, is_due, job_before, claim_due_job, recover, claim_recovered, claim, key_eq, start_run,
  bury_run, retake_run, skipped_run, first_run,
}
use mosaid.Scheduler.Sound.Steps.{Step, Reach}

-- Neither pending nor running.
abbrev pub HasEnded : RunRow → Type 0
HasEnded r = (is_pending r.state ≡ false) × (is_running r.state ≡ false)

-- Every run of the first table that has ended stands, as it is, in the second.
abbrev pub Keeps : List RunRow → List RunRow → Type 0
Keeps a b = (r : RunRow) → HasEnded r → Memᴰ r a → Memᴰ r b

update_keeps :
    (q : RunRow → Bool) (f : RunRow → RunRow) (runs : List RunRow) (r : RunRow)
    → q r ≡ false
    → Memᴰ r runs
    → Memᴰ r (update_where q f runs)
update_keeps q f [] r h m = elim m [ ]
update_keeps q f (x ∷ xs) r h (Memᴰ.head e) =
    let other : q x ≡ false = rw (sym e) h in Memᴰ.head (rw other e)
update_keeps q f (x ∷ xs) r h (Memᴰ.tail m) = Memᴰ.tail (update_keeps q f xs r h m)

append_keeps : (runs : List RunRow) (x r : RunRow) → Memᴰ r runs → Memᴰ r (runs ++ x ∷ [])
append_keeps [] x r m = elim m [ ]
append_keeps (y ∷ ys) x r (Memᴰ.head e) = Memᴰ.head e
append_keeps (y ∷ ys) x r (Memᴰ.tail m) = Memᴰ.tail (append_keeps ys x r m)

update-Keeps :
    (q : RunRow → Bool) (f : RunRow → RunRow) (runs after : List RunRow)
    → ((r : RunRow) → HasEnded r → q r ≡ false)
    → after ≡ update_where q f runs
    → Keeps runs after
update-Keeps q f runs after h e r ended m = rw e (update_keeps q f runs r (h r ended) m)

same-Keeps : (runs after : List RunRow) → after ≡ runs → Keeps runs after
same-Keeps runs after e r ended m = rw e m

release-runs : (db : Db) (run_id : ℕ) (owner : String) → (release db run_id owner).runs ≡ db.runs
unfolding release
release-runs db run_id owner = ground arith

finish-Keeps :
    (db : Db) (now run_id : ℕ) (owner : String) (state : RunState) (summary : List ℕ)
    → Keeps db.runs (finish db now run_id owner state summary).0.runs
unfolding finish
finish-Keeps db now run_id owner state summary =
    elim (Bool-cases (count_where (runs_now run_id) db.runs == 1)) [
      | inl e ↦ rw e (
          update-Keeps (runs_now run_id) _ db.runs _ (λ r h. ground arith)
            (release-runs _ run_id owner))
      | inr e ↦ rw e (same-Keeps db.runs db.runs refl)
    ]

fail-Keeps :
    (db : Db) (now run_id : ℕ) (owner : String) (cause : Option (List ℕ))
    → Keeps db.runs (fail db now run_id owner cause).0.runs
unfolding fail
fail-Keeps db now run_id owner cause = elim (Option-cases (first_where (runs_now run_id) db.runs)) [
  | inl e ↦ rw (e, fail) (same-Keeps db.runs db.runs refl)
  | inr (r, e) ↦ elim (Option-cases (find_job db.jobs r.job_id)) [
    | inl j ↦ rw (e, j, fail) (same-Keeps db.runs db.runs refl)
    | inr (job, j) ↦
        rw (e, j, fail)
          (update-Keeps (runs_now run_id) _ db.runs _ (λ x h. ground arith)
            (release-runs _ run_id owner))
  ]
]

cancel-Keeps : (db : Db) (now : ℕ) (id : String) → Keeps db.runs (cancel db now id).0.runs
unfolding cancel
cancel-Keeps db now id = elim (Bool-cases (count_where (is_job id) db.jobs == 1)) [
  | inl e ↦ rw e (
      update-Keeps (λ r. str_eq r.job_id id && is_pending r.state) _ db.runs _ (λ r h. ground arith)
        refl)
  | inr e ↦ rw e (same-Keeps db.runs db.runs refl)
]

insert_job-runs : (db : Db) (job : Job) → (insert_job db job).0.runs ≡ db.runs
unfolding insert_job
insert_job-runs db job = ground arith

insert_run-Keeps : (db : Db) (r : RunRow) → Keeps db.runs (insert_run db r).0.runs
unfolding insert_run
insert_run-Keeps db r =
    elim (Bool-cases (exists_where (λ x. key_eq x.idempotency_key r.idempotency_key) db.runs)) [
      | inl e ↦ rw e (same-Keeps db.runs db.runs refl)
      | inr e ↦ rw e (λ x ended m. append_keeps db.runs r x m)
    ]

acquire_lock-runs :
    (db : Db) (job : Job) (owner : String) (now : ℕ) (lock_ttl : ℤ)
    → (acquire_lock db job owner now lock_ttl).0.runs ≡ db.runs
unfolding acquire_lock
acquire_lock-runs db job owner now lock_ttl = ground arith

start_pending-Keeps :
    (db : Db) (r : RunRow) (job : Job) (owner : String) (now : ℕ) (lock_ttl : ℤ)
    → Keeps db.runs (start_pending db r job owner now lock_ttl).0.runs
unfolding start_pending
start_pending-Keeps db r job owner now lock_ttl =
    let locked = (acquire_lock db job owner now lock_ttl).0 in
    let same = acquire_lock-runs db job owner now lock_ttl in
    elim (Bool-cases (acquire_lock db job owner now lock_ttl).1) [
      | inl e ↦ rw e (
          update-Keeps (waits r.id) _ db.runs _ (λ x h. ground arith)
            (ap (update_where (waits r.id) (start_run now)) same))
      | inr e ↦ rw e (same-Keeps db.runs locked.runs same)
    ]

skip_missed-Keeps :
    (db : Db) (job : Job) (owner : String) (now : ℕ)
    → Keeps db.runs (skip_missed db job owner now).0.runs
unfolding skip_missed drop_lock advance
skip_missed-Keeps db job owner now = insert_run-Keeps db (skipped_run db.next_run_id job now)

begin_due-Keeps :
    (db : Db) (job : Job) (owner : String) (now : ℕ)
    → Keeps db.runs (begin_due db job owner now).0.runs
begin_due-Keeps db job owner now =
    let moved = advance db job now in
    let kept : Keeps db.runs (insert_run moved (first_run moved.next_run_id job now)).0.runs =
      unfold advance in insert_run-Keeps moved (first_run moved.next_run_id job now) in
    elim (Bool-cases (insert_run moved (first_run moved.next_run_id job now)).1) [
      | inl e ↦ unfold begin_due in rw (e, begin_due) kept
      | inr e ↦ unfold begin_due drop_lock in rw (e, begin_due) kept
    ]

start_due-Keeps :
    (db : Db) (job : Job) (owner : String) (now : ℕ) (lock_ttl : ℤ)
    → Keeps db.runs (start_due db job owner now lock_ttl).0.runs
unfolding start_due
start_due-Keeps db job owner now lock_ttl =
    let locked = (acquire_lock db job owner now lock_ttl).0 in
    let same = acquire_lock-runs db job owner now lock_ttl in
    elim (Bool-cases (acquire_lock db job owner now lock_ttl).1) [
      | inl e ↦ elim (Bool-cases (is_missed job now)) [
        | inl m ↦
            rw (e, m)
              (subst (λ (x : List RunRow). Keeps x (skip_missed locked job owner now).0.runs) same
                (skip_missed-Keeps locked job owner now))
        | inr m ↦
            rw (e, m)
              (subst (λ (x : List RunRow). Keeps x (begin_due locked job owner now).0.runs) same
                (begin_due-Keeps locked job owner now))
      ]
      | inr e ↦ rw e (same-Keeps db.runs locked.runs same)
    ]

claim_pending_run-Keeps :
    (db : Db) (owner : String) (now : ℕ) (lock_ttl : ℤ)
    → Keeps db.runs (claim_pending_run db owner now lock_ttl).0.runs
unfolding claim_pending_run
claim_pending_run-Keeps db owner now lock_ttl =
    elim (Option-cases (min_where run_before (is_ready db now) db.runs)) [
      | inl e ↦ rw (e, claim_pending_run) (same-Keeps db.runs db.runs refl)
      | inr (r, e) ↦ elim (Option-cases (find_job db.jobs r.job_id)) [
        | inl j ↦ rw (e, j, claim_pending_run) (same-Keeps db.runs db.runs refl)
        | inr (job, j) ↦
            rw (e, j, claim_pending_run) (start_pending-Keeps db r job owner now lock_ttl)
      ]
    ]

module _ (id_lt : String → String → Bool) where
  claim_due_job-Keeps :
      (db : Db) (owner : String) (now : ℕ) (lock_ttl : ℤ)
      → Keeps db.runs (claim_due_job id_lt db owner now lock_ttl).0.runs
  unfolding claim_due_job
  claim_due_job-Keeps db owner now lock_ttl =
      elim (Option-cases (min_where (job_before id_lt) (is_due db now) db.jobs)) [
        | inl e ↦ rw (e, claim_due_job) (same-Keeps db.runs db.runs refl)
        | inr (job, e) ↦ rw (e, claim_due_job) (start_due-Keeps db job owner now lock_ttl)
      ]

  claim_recovered-Keeps :
      (db : Db) (owner : String) (now : ℕ) (lock_ttl : ℤ)
      → Keeps db.runs (claim_recovered id_lt db owner now lock_ttl).0.runs
  unfolding claim_recovered
  claim_recovered-Keeps db owner now lock_ttl =
      let first = claim_pending_run-Keeps db owner now lock_ttl in
      elim (Option-cases (claim_pending_run db owner now lock_ttl).1) [
        | inl e ↦
            rw (e, claim_recovered)
              (λ r ended m. claim_due_job-Keeps _ owner now lock_ttl r ended (first r ended m))
        | inr (run, e) ↦ rw (e, claim_recovered) first
      ]

  recover-Keeps : (db : Db) (now : ℕ) → Keeps db.runs (recover db now).runs
  unfolding recover bury_spent retake_stale purge_locks
  recover-Keeps db now r ended m =
      let purged = purge_locks db now in
      let retaken = retake_stale purged now in
      update_keeps (λ x. is_pending x.state && has_spent db.jobs x) (bury_run now) retaken.runs r
        (ground arith) (update_keeps (is_stale purged) (retake_run now) db.runs r (ground arith) m)

  claim-Keeps :
      (db : Db) (now : ℕ) (owner : String) (lock_ttl : ℤ)
      → Keeps db.runs (claim id_lt db now owner lock_ttl).0.runs
  unfolding claim
  claim-Keeps db now owner lock_ttl =
      elim (Bool-cases (str_eq owner "" || leb_ℤ lock_ttl (pos 0))) [
        | inl e ↦ rw e (same-Keeps db.runs db.runs refl)
        | inr e ↦ rw e (λ r ended m.
            claim_recovered-Keeps (recover db now) owner now lock_ttl r ended
              (recover-Keeps db now r ended m))
      ]

module _ (valid_object : List ℕ → Bool) (compact : List ℕ → Option (List ℕ))
    (known_zone : String → Bool) (id_lt : String → String → Bool) where
  create-Keeps :
      (db : Db) (now : ℕ) (input : Job)
      → Keeps db.runs (create valid_object compact known_zone db now input).0.runs
  unfolding create
  create-Keeps db now input =
      elim (Checked-cases (normalize valid_object compact known_zone input now)) [
        | inl (job, e) ↦ rw (e, create) (same-Keeps db.runs _ (insert_job-runs db job))
        | inr (x, e) ↦ rw (e, create) (same-Keeps db.runs db.runs refl)
      ]

  -- One transaction leaves every ended run as it is.
  Step-Keeps : {a b : Db} → Step valid_object compact known_zone id_lt a b → Keeps a.runs b.runs
  unfolding complete deny mark_cancelled set_enabled requeue recover_stale purge_locks
  Step-Keeps (Step.creates now input) = create-Keeps _ now input
  Step-Keeps {a} (Step.enables now id enabled) = same-Keeps a.runs _ refl
  Step-Keeps (Step.cancels now id) = cancel-Keeps _ now id
  Step-Keeps (Step.claims now owner lock_ttl) = claim-Keeps id_lt _ now owner lock_ttl
  Step-Keeps (Step.completes now run_id owner) = finish-Keeps _ now run_id owner _ _
  Step-Keeps (Step.denies now run_id owner cause) = finish-Keeps _ now run_id owner _ _
  Step-Keeps (Step.marks now run_id owner) = finish-Keeps _ now run_id owner _ _
  Step-Keeps (Step.fails now run_id owner cause) = fail-Keeps _ now run_id owner cause
  Step-Keeps {a} (Step.requeues now run_id owner summary) =
      update-Keeps (runs_now run_id) _ a.runs _ (λ r h. ground arith) (release-runs _ run_id owner)
  Step-Keeps {a} (Step.recovers now) =
      update-Keeps (is_stale (purge_locks a now)) _ a.runs _ (λ r h. ground arith) refl

  -- A run that is completed, dead, denied, cancelled or skipped keeps its row, unchanged, through
  -- every sequence of transactions: it is never started again, and never ends twice.
  pub Reach-Keeps :
      {a b : Db} (r : RunRow)
      → Reach valid_object compact known_zone id_lt a b
      → HasEnded r
      → Memᴰ r a.runs
      → Memᴰ r b.runs
  Reach-Keeps r Reach.here ended m = m
  Reach-Keeps r (Reach.next before st) ended m =
      Step-Keeps st r ended (Reach-Keeps r before ended m)
