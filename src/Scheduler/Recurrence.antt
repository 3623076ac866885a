-- ===== src/Scheduler/Recurrence.antt =====
-- NextRecurring and boundedBackoff of internal/scheduler/store.go, with the arithmetic of
-- `time.Duration`, an int64: a difference of times saturates, and a product wraps.
use Prim.Native.Nat.{min}
use mosaid.Base.{
  ℕ, zero, suc, ◌+◌, ◌-◌, ◌*◌, ◌/◌, ◌%◌, ◌^◌, ◌≤◌, ◌≡◌, ◌||◌, arith, ltb, leb, ◌==◌, if◌then◌else◌,
}
use mosaid.Int.{ℤ, pos, negsuc}
use mosaid.Scheduler.Timestamps.{day}

abbrev pub max_duration : ℕ
max_duration = 9_223_372_036_854_775_807

-- now.Sub(anchor) where the anchor is not after now
abbrev pub sub_saturated : ℕ → ℕ → ℕ
sub_saturated now anchor = if ltb max_duration (now - anchor) then max_duration else now - anchor

-- anchor.Add(d) for a duration given modulo 2^64
abbrev pub add_wrapped : ℕ → ℕ → ℕ
add_wrapped anchor d =
    let r = d % 18_446_744_073_709_551_616 in
    if leb r max_duration then anchor + r else anchor - (18_446_744_073_709_551_616 - r)

unfoldable pub next_recurring : ℕ → ℤ → ℕ → ℕ
next_recurring anchor (negsuc every) now = anchor
next_recurring anchor (pos every) now =
    if every == 0 || ltb now anchor
    then anchor
    else let steps = sub_saturated now anchor / every + 1 in add_wrapped anchor (steps * every)

-- `1 << shift` for the shifts that are made, 0 to 10
abbrev pub backoff_shift : ℕ → ℕ
backoff_shift attempts = let s = attempts - 1 in if ltb 10 s then 10 else s

-- A product that is negative as an int64 is at least 2^63 modulo 2^64, so above a day.
unfoldable pub bounded_backoff : ℤ → ℕ → ℕ
bounded_backoff (negsuc base) attempts = 0
bounded_backoff (pos base) attempts =
    if base == 0
    then 0
    else let delay = (base * 2 ^ backoff_shift attempts) % 18_446_744_073_709_551_616 in
      if ltb day delay || ltb max_duration delay then day else delay

pow-le : (s : ℕ) → s ≤ 10 → 2 ^ s ≤ 1024
pow-le zero h = omega arith
pow-le (suc zero) h = omega arith
pow-le (suc (suc zero)) h = omega arith
pow-le (suc (suc (suc zero))) h = omega arith
pow-le (suc (suc (suc (suc zero)))) h = omega arith
pow-le (suc (suc (suc (suc (suc zero))))) h = omega arith
pow-le (suc (suc (suc (suc (suc (suc zero)))))) h = omega arith
pow-le (suc (suc (suc (suc (suc (suc (suc zero))))))) h = omega arith
pow-le (suc (suc (suc (suc (suc (suc (suc (suc zero)))))))) h = omega arith
pow-le (suc (suc (suc (suc (suc (suc (suc (suc (suc zero))))))))) h = omega arith
pow-le (suc (suc (suc (suc (suc (suc (suc (suc (suc (suc zero)))))))))) h = omega arith
pow-le (suc (suc (suc (suc (suc (suc (suc (suc (suc (suc (suc s))))))))))) h = absurd (omega arith)

scaled-le : (base k : ℕ) → k ≤ 1024 → base * k ≤ base * 1024
scaled-le base k h = grind arith

-- For a base of at most a day there is no wrap-around: the delay is the base, doubled at each
-- attempt after the first up to ten times, or a day if that is less.
pub bounded_backoff_lem :
    (base attempts : ℕ)
    → base ≤ day
    → bounded_backoff (pos base) attempts ≡ min day (base * 2 ^ min 10 (attempts - 1))
unfolding bounded_backoff
bounded_backoff_lem base attempts h =
    let same : backoff_shift attempts ≡ min 10 (attempts - 1) = ground arith in
    let s : ℕ = min 10 (attempts - 1) in
    let small : 2 ^ s ≤ 1024 = pow-le s (omega arith) in
    let bound : base * 2 ^ s ≤ base * 1024 = scaled-le base (2 ^ s) small in
    let plain : (base * 2 ^ s) % 18_446_744_073_709_551_616 ≡ base * 2 ^ s = omega arith in
    rw same (rw plain (ground arith))
