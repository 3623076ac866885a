-- ===== src/Gateway/Drains/Steps.antt =====
-- What one round of the loops of internal/telegram/gateway.go takes off the queues.
use mosaid.Base.{
  ℕ, suc, ◌+◌, ◌-◌, ◌≤◌, ◌<◌, ◌≡◌, refl, ap, Bool, true, some, List, arith, ◌==◌, if◌then◌else◌,
  update_where, count_where, first_where, min_where, first_where-update, count_where-update_same,
  count_where_mono, min_where-first, min_where-passes, sum_of, sum_of-update_one,
}
use mosaid.Queue.{InboxRow, is_waiting, is_inbox, is_ready, takes, inbox_before, start_inbox}

-- The claims that a message may still take: it is dead after `max` of them.
abbrev pub weight : ℕ → InboxRow → ℕ
weight max r = if is_waiting r.state then suc (max - r.attempts) else 0

abbrev pub load : ℕ → List InboxRow → ℕ
load max rows = sum_of (weight max) rows

abbrev pub HasIds : List InboxRow → Type 0
HasIds rows = (id : ℕ) → count_where (is_inbox id) rows ≤ 1

pub update-HasIds :
    (q : InboxRow → Bool) (f : InboxRow → InboxRow) (rows : List InboxRow)
    → ((x : InboxRow) → (f x).id ≡ x.id)
    → HasIds rows
    → HasIds (update_where q f rows)
update-HasIds q f rows k u id =
    omega
      (arith, u id, count_where-update_same (is_inbox id) q f (λ x h. ap (λ i. i == id) (k x)) rows)

-- A claimed row, in the rows after the claim.
module _ (now max : ℕ) (rows : List InboxRow) (u : HasIds rows) (x : InboxRow)
    (found : min_where inbox_before (is_ready now) rows ≡ some x) where
  abbrev pub claimed : List InboxRow
  claimed = update_where (takes x.id) (start_inbox now) rows

  waits : is_waiting x.state ≡ true
  unfolding is_ready
  waits = let ready = min_where-passes inbox_before (is_ready now) rows x found in ground arith

  pub taken : takes x.id x ≡ true
  taken = let w = waits in ground arith

  pub one_taken : count_where (takes x.id) rows ≤ 1
  one_taken =
      omega
        (arith, u x.id, count_where_mono (takes x.id) (is_inbox x.id) (λ r h. ground arith) rows)

  pub claimed_row : first_where (is_inbox x.id) claimed ≡ some (start_inbox now x)
  unfolding start_inbox
  claimed_row =
      let row =
        min_where-first inbox_before (is_ready now) (is_inbox x.id) rows x (u x.id) found
          (ground arith) in
      let moved : first_where (is_inbox x.id) claimed
          ≡ some (if takes x.id x then start_inbox now x else x) =
        first_where-update (is_inbox x.id) (takes x.id) (start_inbox now) (λ r. refl) rows x row in
      rw taken at moved

  pub claimed-HasIds : HasIds claimed
  unfolding start_inbox
  claimed-HasIds = update-HasIds (takes x.id) (start_inbox now) rows (λ r. refl) u

  load-claimed : load max claimed + suc (max - x.attempts) ≡ load max rows
  unfolding start_inbox
  load-claimed =
      let row =
        min_where-first inbox_before (is_ready now) (takes x.id) rows x one_taken found taken in
      let change =
        sum_of-update_one (weight max) (takes x.id) (start_inbox now) rows x one_taken row in
      let w = waits in ground (arith, change)

  -- What the round leaves of the load, by what it makes of the claimed row.
  pub load-settled :
      (f : InboxRow → InboxRow)
      → weight max (f (start_inbox now x)) ≤ max - x.attempts
      → load max (update_where (is_inbox x.id) f claimed) < load max rows
  unfolding start_inbox
  load-settled f h =
      let change =
        sum_of-update_one (weight max) (is_inbox x.id) f claimed (start_inbox now x)
          (claimed-HasIds x.id) claimed_row in
      omega (arith, change, load-claimed, h)
