-- ===== src/Scheduler/Normalize/Bounds.antt =====
-- What normalizeJob guarantees of a job that it accepts.
use mosaid.Base.{
  ℕ, ◌*◌, ◌≡◌, sym, subst, ◌≤◌, ◌<◌, String, Bool, false, Option, List, arith, str_eq, ◌==◌, ◌&&◌,
}
use mosaid.Int.{ℤ, pos, negsuc, pos_part, neg_part}
use mosaid.Policy.{Risk}
use mosaid.Scheduler.Timestamps.{second, minute, day}
use mosaid.Scheduler.Types.{Kind, one_time, recurring, Class, publish, MissedPolicy, Job}
use mosaid.Scheduler.Normalize.{
  Checked, accepted, rejected, normal_kind, normal_class, normal_risk, normal_missed,
  normal_attempts, normal_backoff, normal_timeout, normalize, is_publish, bounded, Invalid,
}

-- A natural number from `least` to `most`.
abbrev pub Within : ℕ → ℕ → ℤ → Type 0
Within least most n = (neg_part n ≡ 0) × (least ≤ pos_part n) × (pos_part n ≤ most)

-- The interval fits the kind.
abbrev pub Timed : Kind → ℤ → Type 0
Timed one_time every = (pos_part every ≡ 0) × (neg_part every ≡ 0)
Timed recurring every = Within 1 (366 * day) every
Timed (Kind.other s) every = ⊥

abbrev pub Named : Risk → Type 0
Named (Risk.other s) = ⊥
Named _ = Unit

abbrev pub Chosen : MissedPolicy → Type 0
Chosen (MissedPolicy.other s) = ⊥
Chosen _ = Unit

abbrev pub Classified : Class → Type 0
Classified (Class.other s) = ⊥
Classified _ = Unit

pub record IsNormal (j : Job) : Type 0 where
  pub timed : Timed j.kind j.every
  pub classified : Classified j.class
  pub named : Named j.risk
  pub chosen : Chosen j.missed
  pub attempts : Within 1 20 j.max_attempts
  pub backoff : Within 0 day j.retry_backoff
  pub timeout : Within 1 day j.timeout
  pub has_run : 0 < j.next_run
  pub approved : j.class ≡ publish → str_eq j.approval_ref "" ≡ false

-- `P` holds of the value, if there is one.
abbrev pub Ensures {ℓ κ} : {A : Type ℓ} → (A → Type κ) → Checked A → Type κ
Ensures P (accepted a) = P a
Ensures P (rejected e) = Unit

bounded-Within :
    (d least most : ℕ) (n : ℤ) (e : Invalid)
    → least ≤ d
    → d ≤ most
    → Ensures (Within least most) (bounded (pos d) (pos least) (pos most) n e)
bounded-Within d least most (pos n) e h k = ground arith
bounded-Within d least most (negsuc n) e h k = ground arith

normal_kind-Timed : (k : Kind) (every : ℤ) → Ensures (λ k'. Timed k' every) (normal_kind k every)
unfolding normal_kind
normal_kind-Timed one_time every = ground arith
normal_kind-Timed recurring every = ground arith
normal_kind-Timed (Kind.other s) every = ground arith

normal_class-Classified : (c : Class) → Ensures Classified (normal_class c)
unfolding normal_class
normal_class-Classified (Class.other s) = ground arith
normal_class-Classified _ = tt

normal_risk-Named : (c : Class) (r : Risk) → Ensures Named (normal_risk c r)
unfolding normal_risk
normal_risk-Named c (Risk.other s) = ground arith
normal_risk-Named c _ = tt

normal_missed-Chosen : (m : MissedPolicy) → Ensures Chosen (normal_missed m)
unfolding normal_missed
normal_missed-Chosen (MissedPolicy.other s) = ground arith
normal_missed-Chosen _ = tt

normal_attempts-Within : (n : ℤ) → Ensures (Within 1 20) (normal_attempts n)
unfolding normal_attempts
normal_attempts-Within n = bounded-Within 3 1 20 n _ (omega arith) (omega arith)

normal_backoff-Within : (n : ℤ) → Ensures (Within 0 day) (normal_backoff n)
unfolding normal_backoff
normal_backoff-Within n = bounded-Within second 0 day n _ (omega arith) (omega arith)

normal_timeout-Within : (n : ℤ) → Ensures (Within 1 day) (normal_timeout n)
unfolding normal_timeout
normal_timeout-Within n = bounded-Within minute 1 day n _ (omega arith) (omega arith)

Ensures-ok {ℓ κ} :
    {A : Type ℓ} (P : A → Type κ) {a : A} (r : Checked A) → Ensures P r → r ≡ accepted a → P a
Ensures-ok P (accepted b) p e = let same : b ≡ _ = cc in subst P same p
Ensures-ok P (rejected x) p e = cc

-- What each step returned for the job that comes out.
record Steps (job j : Job) : Type 0 where
  every : j.every ≡ job.every
  next_run : j.next_run ≡ job.next_run
  approval_ref : j.approval_ref ≡ job.approval_ref
  kind : normal_kind job.kind job.every ≡ accepted j.kind
  class : normal_class job.class ≡ accepted j.class
  risk : normal_risk j.class job.risk ≡ accepted j.risk
  missed : normal_missed job.missed ≡ accepted j.missed
  max_attempts : normal_attempts job.max_attempts ≡ accepted j.max_attempts
  retry_backoff : normal_backoff job.retry_backoff ≡ accepted j.retry_backoff
  timeout : normal_timeout job.timeout ≡ accepted j.timeout
  has_run : (job.next_run == 0) ≡ false
  approved : (is_publish j.class && str_eq j.approval_ref "") ≡ false

module _ (valid_object : List ℕ → Bool) (compact : List ℕ → Option (List ℕ))
    (known_zone : String → Bool) where
  normalize-Steps :
      (job : Job) (now : ℕ) (j : Job)
      → normalize valid_object compact known_zone job now ≡ accepted j
      → Steps job j
  unfolding normalize
  normalize-Steps job now j h = ground arith

  -- A job that normalizeJob accepts is normal: its kind, class, risk and missed-run policy are named
  -- ones; the interval is 0 for a one-time job and from 1 ns to 366 days for a recurring one; the
  -- attempts are from 1 to 20, the backoff is at most a day, the timeout is positive and at most a
  -- day; the next run is set; and a publishing job has an approval reference.
  pub normalize-IsNormal :
      (job : Job) (now : ℕ) (j : Job)
      → normalize valid_object compact known_zone job now ≡ accepted j
      → IsNormal j
  normalize-IsNormal job now j h =
      let s = normalize-Steps job now j h in
      record {
        timed = subst (Timed j.kind) (sym s.every) (
            Ensures-ok (λ k. Timed k job.every) (normal_kind job.kind job.every)
              (normal_kind-Timed job.kind job.every) s.kind);
        classified =
            Ensures-ok Classified (normal_class job.class) (normal_class-Classified job.class)
              s.class;
        named =
            Ensures-ok Named (normal_risk j.class job.risk) (normal_risk-Named j.class job.risk)
              s.risk;
        chosen =
            Ensures-ok Chosen (normal_missed job.missed) (normal_missed-Chosen job.missed) s.missed;
        attempts =
            Ensures-ok (Within 1 20) (normal_attempts job.max_attempts)
              (normal_attempts-Within job.max_attempts) s.max_attempts;
        backoff =
            Ensures-ok (Within 0 day) (normal_backoff job.retry_backoff)
              (normal_backoff-Within job.retry_backoff) s.retry_backoff;
        timeout =
            Ensures-ok (Within 1 day) (normal_timeout job.timeout)
              (normal_timeout-Within job.timeout) s.timeout;
        has_run = ground arith;
        approved = ground arith;
      }
