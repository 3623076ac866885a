-- ===== src/Scheduler/Timestamps.antt =====
-- Times and their text form. A time is the number of nanoseconds since Go's zero time (year 1, UTC);
-- the database holds `value.UTC().Format(time.RFC3339Nano)` (formatTime of internal/scheduler/store.go)
-- and its statements compare these texts byte by byte. Up to the year 9999 the part down to the
-- seconds has a fixed width, so its order is that of the seconds. The fraction is written without
-- its trailing zeros and is missing when it is 0.
use mathlib.Core.List.{reverse}
use mosaid.Base.{
  ℕ, zero, suc, ◌+◌, ◌*◌, ◌/◌, ◌%◌, ◌<◌, ◌≤◌, ◌≡◌, refl, Bool, true, false, List, [], ◌∷◌, ◌++◌,
  arith, ltb, leb, ◌||◌, ◌==◌, if◌then◌else◌,
}

abbrev pub second : ℕ
second = 1_000_000_000

abbrev pub minute : ℕ
minute = 60 * second

abbrev pub day : ℕ
day = 86_400 * second

-- The decimal digits of a number, as ASCII codes, the least significant first.
digits : ℕ → ℕ → List ℕ
digits zero n = []
digits (suc k) n = (48 + n % 10) ∷ digits k (n / 10)

skip_zeros : List ℕ → List ℕ
skip_zeros [] = []
skip_zeros (c ∷ cs) = let rest = skip_zeros cs in if c == b'0' then rest else c ∷ cs

-- What follows the seconds in the text.
fraction : ℕ → List ℕ
unfolding digits skip_zeros
fraction n = if n == 0 then b'Z' ∷ [] else b'.' ∷ (reverse (skip_zeros (digits 9 n)) ++ b'Z' ∷ [])

-- The order of two texts, byte by byte.
text_le : List ℕ → List ℕ → Bool
text_le [] ys = true
text_le (x ∷ xs) [] = false
text_le (x ∷ xs) (y ∷ ys) =
    let rest = text_le xs ys in if ltb x y then true else if ltb y x then false else rest

-- `formatTime(a) <= formatTime(b)`, as a statement of the database compares them.
unfoldable pub sql_le : ℕ → ℕ → Bool
unfolding fraction text_le
sql_le a b =
    if ltb (a / second) (b / second)
    then true
    else if ltb (b / second) (a / second)
    then false
    else text_le (fraction (a % second)) (fraction (b % second))

-- The order of the texts is that of the whole seconds.
pub sql_le-second : (a b : ℕ) → sql_le a b ≡ true → a / second ≤ b / second
unfolding sql_le
sql_le-second a b h = ground arith

pub sql_le-lt : (a b : ℕ) → sql_le a b ≡ true → a < b + second
sql_le-lt a b h = omega (arith, sql_le-second a b h)

pub sql_le_of_far : (a b : ℕ) → a + second ≤ b → sql_le a b ≡ true
unfolding sql_le
sql_le_of_far a b h = let p : a / second < b / second = omega arith in ground arith

text_le_refl : (xs : List ℕ) → text_le xs xs ≡ true
unfolding text_le
text_le_refl [] = refl
text_le_refl (x ∷ xs) = ground (arith, text_le_refl xs)

pub sql_le_refl : (a : ℕ) → sql_le a a ≡ true
unfolding sql_le
sql_le_refl a = ground (arith, text_le_refl (fraction (a % second)))

pub sql_le_total : (a b : ℕ) → sql_le a b ≡ false → b < a + second
sql_le_total a b h = ground (arith, sql_le_of_far a b)

-- A time passes as not after a whole second exactly if it is less than a second after it, and that
-- whole second passes as not after the time exactly if they are equal or it is a second earlier at
-- least: within the second the later time passes as the earlier one.
pub sql_le_whole :
    (t s : ℕ)
    → (sql_le t (s * second) ≡ ltb t ((s + 1) * second))
      × (sql_le (s * second) t ≡ (t == s * second || leb ((s + 1) * second) t))
unfolding sql_le
sql_le_whole t s =
    let b : (s * second) / second ≡ s = omega arith in
    let d : (s * second) % second ≡ 0 = omega arith in
    let parts : t ≡ t / second * second + t % second = omega arith in (ground arith, ground arith)
