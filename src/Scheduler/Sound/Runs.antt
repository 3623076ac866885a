-- ===== src/Scheduler/Sound/Runs.antt =====
-- The invariant of the tables, and the changes of scheduled_runs that keep it.
use mosaid.Base.{
  ℕ, ◌+◌, ◌≤◌, ◌<◌, ◌≡◌, refl, ap, subst, String, Bool, true, false, ◌&&◌, List, [], ◌∷◌, ◌++◌,
  arith, str_eq, eq_iff, ◌==◌, Bool-cases, inl, inr, update_where, count_where, All, bit,
  count_where-append, count_where-update_le, count_where-update_mono, count_where-update_same,
  count_where_mono, count_where-disjoint, All-update, All-append, All-imp,
}
use mosaid.Scheduler.Types.{is_running, RunKey, run_key, RunRow, Db}
use mosaid.Scheduler.Store.{is_job, is_run, locks_job}
use mosaid.Scheduler.Claim.{key_eq, waits}

-- A running run of the job.
abbrev pub occupies : String → RunRow → Bool
occupies id r = is_running r.state && str_eq r.job_id id

abbrev pub has_key : RunKey → RunRow → Bool
has_key k r = key_eq r.idempotency_key k

-- Of the runs: their ids lie below the next one and are unique, so are their idempotency keys, and
-- each job has at most one running run.
pub record RunsSound (next : ℕ) (runs : List RunRow) : Type 0 where
  pub fresh : All (λ r. r.id < next) runs
  pub ids : (k : ℕ) → count_where (is_run k) runs ≤ 1
  pub keys : (k : RunKey) → count_where (has_key k) runs ≤ 1
  pub alone : (id : String) → count_where (occupies id) runs ≤ 1

-- The invariant of the tables, with the primary keys of the jobs and of the locks.
pub record IsSound (db : Db) : Type 0 where
  pub runs : RunsSound db.next_run_id db.runs
  pub jobs : (id : String) → count_where (is_job id) db.jobs ≤ 1
  pub locks : (id : String) → count_where (locks_job id) db.locks ≤ 1

-- An update that keeps a run's identity.
pub record SameRun (a b : RunRow) : Type 0 where
  pub id : b.id ≡ a.id
  pub job_id : b.job_id ≡ a.job_id
  pub key : b.idempotency_key ≡ a.idempotency_key

-- The same, and it starts nothing.
pub record Settles (a b : RunRow) : Type 0 where
  pub same : SameRun a b
  pub quiet : is_running b.state ≡ true → is_running a.state ≡ true

occupies-le : (id : String) (a b : RunRow) → Settles a b → bit (occupies id b) ≤ bit (occupies id a)
occupies-le id a b s = let job = s.same.job_id in rw job (ground (arith, s.quiet))

module _ (q : RunRow → Bool) (f : RunRow → RunRow) where
  update-fresh :
      (h : (r : RunRow) → q r ≡ true → SameRun r (f r)) (n : ℕ) (runs : List RunRow)
      → All (λ r. r.id < n) runs
      → All (λ r. r.id < n) (update_where q f runs)
  update-fresh h n runs a =
      All-update (λ r. r.id < n) q f (λ r p lt. let s = h r p in ground (arith, s.id)) runs a

  pub update-ids :
      (h : (r : RunRow) → q r ≡ true → SameRun r (f r)) (k : ℕ) (runs : List RunRow)
      → count_where (is_run k) (update_where q f runs) ≡ count_where (is_run k) runs
  update-ids h k runs =
      count_where-update_same (is_run k) q f (λ r p. ap (λ (x : ℕ). x == k) (h r p).id) runs

  pub update-keys :
      (h : (r : RunRow) → q r ≡ true → SameRun r (f r)) (k : RunKey) (runs : List RunRow)
      → count_where (has_key k) (update_where q f runs) ≡ count_where (has_key k) runs
  update-keys h k runs =
      count_where-update_same (has_key k) q f (λ r p. ap (λ (x : RunKey). key_eq x k) (h r p).key)
        runs

  -- Runs stay sound under an update that starts none.
  pub update-RunsSound :
      (h : (r : RunRow) → q r ≡ true → Settles r (f r)) (n : ℕ) (runs : List RunRow)
      → RunsSound n runs
      → RunsSound n (update_where q f runs)
  update-RunsSound h n runs s =
      let same = λ (r : RunRow) (p : q r ≡ true). (h r p).same in
      record {
        fresh = update-fresh same n runs s.fresh;
        ids = λ k. rw (update-ids same k runs) (s.ids k);
        keys = λ k. rw (update-keys same k runs) (s.keys k);
        alone = λ id.
            let le =
              count_where-update_mono (occupies id) q f (λ r p. occupies-le id r (f r) (h r p))
                runs in
            omega (arith, s.alone id);
      }

str_eq_refl : (a : String) → str_eq a a ≡ true
str_eq_refl a = (eq_iff a a).1 refl

-- The run with this id, if it is of the job.
abbrev pub of_job : ℕ → String → RunRow → Bool
of_job k id r = r.id == k && str_eq r.job_id id

-- Starting a waiting run of a job with none running.
module _ (k : ℕ) (job : String) (f : RunRow → RunRow) where
  of_job-apart :
      (id : String)
      → str_eq job id ≡ false
      → (r : RunRow) → bit (of_job k job r) + bit (of_job k id r) ≤ bit (is_run k r)
  of_job-apart id ne r = ground (arith, eq_iff r.job_id job, eq_iff r.job_id id, eq_iff job id)

  start-alone :
      (h : (r : RunRow) → waits k r ≡ true → SameRun r (f r)) (runs : List RunRow) (id : String)
      → count_where (is_run k) runs ≤ 1
      → 1 ≤ count_where (of_job k job) runs
      → count_where (occupies job) runs ≡ 0
      → count_where (occupies id) runs ≤ 1
      → count_where (occupies id) (update_where (waits k) f runs) ≤ 1
  start-alone h runs id one here free before =
      let grows =
        count_where-update_le (occupies id) (waits k) (of_job k id) f
          (λ r p. let same = (h r p).job_id in rw same (ground arith)) runs in
      let few = count_where_mono (of_job k id) (is_run k) (λ r p. ground arith) runs in
      elim (Bool-cases (str_eq job id)) [
        | inl e ↦
            let zero_id : count_where (occupies id) runs ≡ 0 =
              subst (λ (x : String). count_where (occupies x) runs ≡ 0) ((eq_iff job id).0 e)
                free in
            omega arith
        | inr ne ↦
            let apart =
              count_where-disjoint (of_job k job) (of_job k id) (is_run k) (of_job-apart id ne)
                runs in
            omega arith
      ]

  pub start-RunsSound :
      (h : (r : RunRow) → waits k r ≡ true → SameRun r (f r)) (n : ℕ) (runs : List RunRow)
      → 1 ≤ count_where (of_job k job) runs
      → count_where (occupies job) runs ≡ 0
      → RunsSound n runs
      → RunsSound n (update_where (waits k) f runs)
  start-RunsSound h n runs here free s = record {
    fresh = update-fresh (waits k) f h n runs s.fresh;
    ids = λ i. rw (update-ids (waits k) f h i runs) (s.ids i);
    keys = λ i. rw (update-keys (waits k) f h i runs) (s.keys i);
    alone = λ id. start-alone h runs id (s.ids k) here free (s.alone id);
  }

key_eq_sound : (a b : RunKey) → key_eq a b ≡ true → a ≡ b
key_eq_sound (run_key i s) (run_key j t) h = ground (arith, eq_iff i j)

fresh-ids :
    (n : ℕ) (runs : List RunRow) → All (λ r. r.id < n) runs → count_where (is_run n) runs ≡ 0
fresh-ids n [] a = refl
fresh-ids n (r ∷ rs) a = let p = a.0 in ground (arith, fresh-ids n rs a.1)

one_more :
    (p : RunRow → Bool) (runs : List RunRow) (r : RunRow)
    → (p r ≡ true → count_where p runs ≡ 0)
    → count_where p runs ≤ 1
    → count_where p (runs ++ r ∷ []) ≤ 1
one_more p runs r h le = rw (count_where-append p runs (r ∷ [])) (ground (arith, h))

-- A new run, with the next id and a new key, whose job has none running if it starts at once.
module _ (n : ℕ) (runs : List RunRow) (r : RunRow) where
  pub insert-RunsSound :
      r.id ≡ n
      → count_where (has_key r.idempotency_key) runs ≡ 0
      → (is_running r.state ≡ true → count_where (occupies r.job_id) runs ≡ 0)
      → RunsSound n runs
      → RunsSound (n + 1) (runs ++ r ∷ [])
  insert-RunsSound here new free s = record {
    fresh =
        All-append (λ x. x.id < n + 1) runs (r ∷ [])
          (All-imp (λ x. x.id < n) (λ x p. omega arith) runs s.fresh) (omega arith, tt);
    ids = λ k.
        one_more (is_run k) runs r
          (λ p.
            let same : n ≡ k = ground arith in
            subst (λ (x : ℕ). count_where (is_run x) runs ≡ 0) same (fresh-ids n runs s.fresh))
          (s.ids k);
    keys = λ k.
        one_more (has_key k) runs r
          (λ p.
            subst (λ (x : RunKey). count_where (has_key x) runs ≡ 0)
              (key_eq_sound r.idempotency_key k p) new)
          (s.keys k);
    alone = λ id.
        one_more (occupies id) runs r
          (λ p.
            subst (λ (x : String). count_where (occupies x) runs ≡ 0)
              ((eq_iff r.job_id id).0 (ground arith)) (free (ground arith)))
          (s.alone id);
  }
