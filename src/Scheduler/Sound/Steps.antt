-- ===== src/Scheduler/Sound/Steps.antt =====
-- Every sequence of the scheduler's transactions, by any owners at any times.
use mosaid.Base.{inl, inr, ℕ, refl, String, Bool, Option, List, [], arith}
use mosaid.Int.{ℤ}
use mosaid.Scheduler.Types.{Job, Db}
use mosaid.Scheduler.Normalize.{normalize, Checked-cases}
use mosaid.Scheduler.Store.{
  create, set_enabled, cancel, complete, deny, mark_cancelled, fail, requeue, recover_stale,
}
use mosaid.Scheduler.Claim.{claim}
use mosaid.Scheduler.Sound.Runs.{IsSound}
use mosaid.Scheduler.Sound.Methods.{
  insert_job-IsSound, set_enabled-IsSound, cancel-IsSound, finish-IsSound, fail-IsSound,
  requeue-IsSound, recover_stale-IsSound,
}
use mosaid.Scheduler.Sound.Claims.{claim-IsSound}

abbrev pub empty : Db
empty = record { jobs = []; runs = []; locks = []; next_run_id = 1 }

module _ (valid_object : List ℕ → Bool) (compact : List ℕ → Option (List ℕ))
    (known_zone : String → Bool) (id_lt : String → String → Bool) where
  -- One transaction, with whatever arguments and clock reading.
  pub data Step (db : Db) : Db → Type 0 where
    creates :
        (now : ℕ) (input : Job) → Step db (create valid_object compact known_zone db now input).0
    enables : (now : ℕ) (id : String) (enabled : Bool) → Step db (set_enabled db now id enabled).0
    cancels : (now : ℕ) (id : String) → Step db (cancel db now id).0
    claims :
        (now : ℕ) (owner : String) (lock_ttl : ℤ) → Step db (claim id_lt db now owner lock_ttl).0
    completes : (now run_id : ℕ) (owner : String) → Step db (complete db now run_id owner).0
    denies :
        (now run_id : ℕ) (owner : String) (cause : Option (List ℕ))
        → Step db (deny db now run_id owner cause).0
    marks : (now run_id : ℕ) (owner : String) → Step db (mark_cancelled db now run_id owner).0
    fails :
        (now run_id : ℕ) (owner : String) (cause : Option (List ℕ))
        → Step db (fail db now run_id owner cause).0
    requeues :
        (now run_id : ℕ) (owner : String) (summary : List ℕ)
        → Step db (requeue db now run_id owner summary)
    recovers : (now : ℕ) → Step db (recover_stale db now).0

  pub data Reach (db : Db) : Db → Type 0 where
    here : Reach db db
    next : {a b : Db} → Reach db a → Step a b → Reach db b

  create-IsSound :
      (db : Db) (now : ℕ) (input : Job)
      → IsSound db
      → IsSound (create valid_object compact known_zone db now input).0
  unfolding create
  create-IsSound db now input s =
      elim (Checked-cases (normalize valid_object compact known_zone input now)) [
        | inl (job, e) ↦ rw (e, create) (insert_job-IsSound db job s)
        | inr (x, e) ↦ rw (e, create) s
      ]

  pub Step-IsSound : {a b : Db} → Step a b → IsSound a → IsSound b
  unfolding complete deny mark_cancelled
  Step-IsSound (creates now input) s = create-IsSound _ now input s
  Step-IsSound (enables now id enabled) s = set_enabled-IsSound _ now id enabled s
  Step-IsSound (cancels now id) s = cancel-IsSound _ now id s
  Step-IsSound (claims now owner lock_ttl) s = claim-IsSound id_lt _ now owner lock_ttl s
  Step-IsSound (completes now run_id owner) s = finish-IsSound _ now run_id owner _ _ refl s
  Step-IsSound (denies now run_id owner cause) s = finish-IsSound _ now run_id owner _ _ refl s
  Step-IsSound (marks now run_id owner) s = finish-IsSound _ now run_id owner _ _ refl s
  Step-IsSound (fails now run_id owner cause) s = fail-IsSound _ now run_id owner cause s
  Step-IsSound (requeues now run_id owner summary) s = requeue-IsSound _ now run_id owner summary s
  Step-IsSound (recovers now) s = recover_stale-IsSound _ now s

  -- After any sequence of transactions from empty tables the run ids are unique and below the next
  -- one, no two runs have one idempotency key, and no job has two running runs or two locks.
  pub Reach-IsSound : {db : Db} → Reach empty db → IsSound db
  Reach-IsSound here = record {
    runs = record {
      fresh = tt;
      ids = λ k. omega arith;
      keys = λ k. omega arith;
      alone = λ k. omega arith;
    };
    jobs = λ id. omega arith;
    locks = λ id. omega arith;
  }
  Reach-IsSound (next r st) = Step-IsSound st (Reach-IsSound r)
