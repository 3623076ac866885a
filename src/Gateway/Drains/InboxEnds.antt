-- ===== src/Gateway/Drains/InboxEnds.antt =====
-- The loop drainInbox of internal/telegram/gateway.go ends, and leaves no message that is ready.
use mosaid.Base.{
  ℕ, zero, suc, ◌<◌, ◌≡◌, refl, true, Option, none, some, List, arith, ◌==◌, Bool-cases,
  Option-cases, inl, inr, count_where, min_where, exists_where, min_where-none, min_where-counted,
  subst,
}
use mosaid.Queue.{
  Inbound, Outbound, InboxRow, Inbox, QueueDb, is_inbox, is_ready, takes, inbox_before, start_inbox,
  finish_inbox, retry_inbox, claim_inbox, complete_with_outbox, insert_outbox, fail_inbox, has_key,
}
use mosaid.Queue.Unique.{empty, Reach, Reach-IsSingle}
use mosaid.Gateway.Drains.{
  Handled, answered, over_budget, failed, settle_inbox, drain_inbox, budget_notice,
}
use mosaid.Gateway.Drains.Steps.{
  load, HasIds, update-HasIds, claimed, claimed_row, claimed-HasIds, load-settled, taken, one_taken,
}

-- What a row that is claimed is given out as.
abbrev given : InboxRow → Inbox
given x = record { id = x.id; message = x.message; attempts = x.attempts }

insert_outbox-inbox :
    (db : QueueDb) (now inbox : ℕ) (out : Outbound) (key : ℕ)
    → (insert_outbox db now inbox out key).inbox ≡ db.inbox
unfolding insert_outbox
insert_outbox-inbox db now inbox out key =
    elim (Bool-cases (exists_where (has_key key) db.outbox)) [
      | inl e ↦ rw e refl
      | inr e ↦ rw e refl
    ]

module _ (db : QueueDb) (now max : ℕ) (u : HasIds db.inbox) (x : InboxRow)
    (found : min_where inbox_before (is_ready now) db.inbox ≡ some x) where
  abbrev pub after_claim : QueueDb
  after_claim = record db { inbox = claimed now max db.inbox u x found }

  -- A round makes of the rows: those with an identifier through `f`.
  abbrev Rounds : QueueDb → Type 0
  Rounds after = (load max after.inbox < load max db.inbox) × HasIds after.inbox

  completes :
      (at : ℕ) (out : Outbound) (key : ℕ)
      → Rounds (complete_with_outbox after_claim at x.id out key)
  unfolding complete_with_outbox finish_inbox
  completes at out key =
      let done = load-settled now max db.inbox u x found (finish_inbox at) (omega arith) in
      let ids =
        update-HasIds (is_inbox x.id) (finish_inbox at) (claimed now max db.inbox u x found)
          (λ r. refl) (claimed-HasIds now max db.inbox u x found) in
      rw (insert_outbox-inbox after_claim at x.id out key) (done, ids)

  fails : (at : ℕ) (e : List ℕ) → Rounds (fail_inbox after_claim at x.id e max)
  unfolding fail_inbox retry_inbox start_inbox
  fails at e =
      let row = claimed_row now max db.inbox u x found in
      let retry = retry_inbox at (suc x.attempts) e max in
      let done = load-settled now max db.inbox u x found retry (ground arith) in
      let ids =
        update-HasIds (is_inbox x.id) retry (claimed now max db.inbox u x found) (λ r. refl)
          (claimed-HasIds now max db.inbox u x found) in
      rw row (done, ids)

  settles : (at : ℕ) (o : Handled) → Rounds (settle_inbox after_claim at (given x) o max)
  unfolding settle_inbox
  settles at (answered out) = completes at out x.message.update_id
  settles at over_budget = completes at (budget_notice x.message) x.message.update_id
  settles at (failed e) = fails at e

-- A result of the loop: nothing is ready by the clock of the world that it leaves.
pub record Ends {H : Type 0} (clock : H → ℕ) (result : Option (H × QueueDb)) : Type 0 where
  pub handler : H
  pub after : QueueDb
  pub returned : result ≡ some (handler, after)
  pub idle : count_where (is_ready (clock handler)) after.inbox ≡ 0

-- The row that is claimed is the one that the statement takes.
one_claim :
    (db : QueueDb) (now max : ℕ) (u : HasIds db.inbox) (x : InboxRow)
    (found : min_where inbox_before (is_ready now) db.inbox ≡ some x)
    → (count_where (takes x.id) db.inbox == 1) ≡ true
one_claim db now max u x found =
    let most = one_taken now max db.inbox u x found in
    let least =
      min_where-counted inbox_before (is_ready now) (takes x.id) db.inbox x found
        (taken now max db.inbox u x found) in
    ground (arith, most, least)

claim_none :
    (db : QueueDb) (now max : ℕ)
    → min_where inbox_before (is_ready now) db.inbox ≡ none
    → claim_inbox db now max ≡ (db, none)
unfolding claim_inbox
claim_none db now max e = rw (e, claim_inbox) refl

claim_some :
    (db : QueueDb) (now max : ℕ) (u : HasIds db.inbox) (x : InboxRow)
    (found : min_where inbox_before (is_ready now) db.inbox ≡ some x)
    → claim_inbox db now max ≡ (after_claim db now max u x found, some (given x))
unfolding claim_inbox
claim_some db now max u x found = rw (found, claim_inbox, one_claim db now max u x found) refl

module _ {H : Type 0} (handle : H → Inbound → H × Handled) (clock : H → ℕ) (max : ℕ) where
  -- The loop by what the claim gives.
  drain_inbox-claim :
      (fuel : ℕ) (h : H) (db : QueueDb) (p : QueueDb × Option Inbox)
      → claim_inbox db (clock h) max ≡ p
      → drain_inbox handle clock max (suc fuel) h db ≡ (elim p.1 as (λ x. Option (H × QueueDb)) [
        | none ↦ some (h, p.0)
        | some x ↦
            let (after, outcome) = handle h x.message in
            drain_inbox handle clock max fuel after (settle_inbox p.0 (clock after) x outcome max)
      ])
  unfolding drain_inbox
  drain_inbox-claim fuel h db p e =
      subst
        (λ (c : QueueDb × Option Inbox).
          drain_inbox handle clock max (suc fuel) h db ≡ (elim c.1 as (λ x. Option (H × QueueDb)) [
            | none ↦ some (h, c.0)
            | some x ↦
                let (after, outcome) = handle h x.message in
                drain_inbox handle clock max fuel after
                  (settle_inbox c.0 (clock after) x outcome max)
          ]))
        e refl

  ends :
      (fuel : ℕ) (h : H) (db : QueueDb)
      → HasIds db.inbox
      → load max db.inbox < fuel
      → Ends clock (drain_inbox handle clock max fuel h db)
  ends zero h db u l = absurd (omega arith)
  ends (suc fuel) h db u l =
      elim (Option-cases (min_where inbox_before (is_ready (clock h)) db.inbox)) [
        | inl e ↦ rw (drain_inbox-claim fuel h db _ (claim_none db (clock h) max e)) record {
          handler = h;
          after = db;
          returned = refl;
          idle = min_where-none inbox_before (is_ready (clock h)) db.inbox e;
        }
        | inr (x, e) ↦
            let step =
              settles db (clock h) max u x e (clock (handle h x.message).0)
                (handle h x.message).1 in
            rw (drain_inbox-claim fuel h db _ (claim_some db (clock h) max u x e))
              (ends fuel (handle h x.message).0 _ step.1 (omega (arith, step.0, l)))
      ]

  -- Draining the inbox ends: on tables reached from empty ones by the queue's transactions, with fuel
  -- above the claims that the pending messages may still take (for each, its attempts up to `max`
  -- and one more), the loop returns whatever the handler and the clock do, and no message of the
  -- tables that it leaves is ready by the clock of the world that it leaves.
  pub drain_inbox-Ends :
      (fuel : ℕ) (h : H) {db : QueueDb}
      → Reach empty db
      → load max db.inbox < fuel
      → Ends clock (drain_inbox handle clock max fuel h db)
  drain_inbox-Ends fuel h r l = ends fuel h _ (Reach-IsSingle r).inbox_ids l
