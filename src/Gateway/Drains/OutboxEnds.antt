-- ===== src/Gateway/Drains/OutboxEnds.antt =====
-- The loop drainOutbox of internal/telegram/gateway.go ends: nothing is left to send, or the client
-- failed.
use mosaid.Base.{
  ℕ, zero, suc, ◌≤◌, ◌<◌, ◌≡◌, ◌∙◌, refl, ap, Bool, true, Option, none, some, List, [], ◌∷◌, arith,
  ◌==◌, ◌⊎◌, inl, inr, Option-cases, bit, update_where, count_where, min_where, min_where-none,
  min_where-passes, min_where-counted, min_where-first, count_where-update_same,
  count_where-update_mono, count_where_mono, sum_of, sum_of-update_one,
}
use mosaid.Queue.{
  Outbound, OutboxRow, Outbox, QueueDb, is_unsent, is_outbox, is_due, sends, outbox_before,
  start_outbox, mark_sent, claim_outbox, outbox_sent, outbox_failed,
}
use mosaid.Queue.Unique.{empty, Reach, Reach-IsSingle}
use mosaid.Gateway.Drains.{drain_outbox}

abbrev pub unsent : OutboxRow → Bool
unsent r = is_unsent r.state

abbrev HasIds : List OutboxRow → Type 0
HasIds rows = (id : ℕ) → count_where (is_outbox id) rows ≤ 1

update-HasIds :
    (q : OutboxRow → Bool) (f : OutboxRow → OutboxRow) (rows : List OutboxRow)
    → ((x : OutboxRow) → (f x).id ≡ x.id)
    → HasIds rows
    → HasIds (update_where q f rows)
update-HasIds q f rows k u id =
    omega (
      arith,
      u id,
      count_where-update_same (is_outbox id) q f (λ x h. ap (λ i. i == id) (k x)) rows,
    )

count-eq-sum : (rows : List OutboxRow) → count_where unsent rows ≡ sum_of (λ r. bit (unsent r)) rows
count-eq-sum [] = refl
count-eq-sum (r ∷ rows) = omega (arith, count-eq-sum rows)

-- What a row that is claimed is given out as.
abbrev given : OutboxRow → Outbox
given x = record { id = x.id; message = x.message; attempts = x.attempts; key = x.idempotency_key }

module _ (db : QueueDb) (now : ℕ) (u : HasIds db.outbox) (x : OutboxRow)
    (found : min_where outbox_before (is_due now) db.outbox ≡ some x) where
  taken : sends x.id x ≡ true
  unfolding is_due
  taken = let due = min_where-passes outbox_before (is_due now) db.outbox x found in ground arith

  one_taken : count_where (sends x.id) db.outbox ≤ 1
  one_taken = omega (
    arith,
    u x.id,
    count_where_mono (sends x.id) (is_outbox x.id) (λ r h. ground arith) db.outbox,
  )

  abbrev after_claim : QueueDb
  after_claim = record db { outbox = update_where (sends x.id) (start_outbox now) db.outbox }

  claim_some : claim_outbox db now ≡ (after_claim, some (given x))
  unfolding claim_outbox
  claim_some =
      let least =
        min_where-counted outbox_before (is_due now) (sends x.id) db.outbox x found taken in
      let one : (count_where (sends x.id) db.outbox == 1) ≡ true =
        ground (arith, least, one_taken) in
      rw (found, claim_outbox, one) refl

  sent-count :
      (at : ℕ)
      → (count_where unsent (outbox_sent after_claim at x.id).outbox < count_where unsent db.outbox)
        × HasIds (outbox_sent after_claim at x.id).outbox
  unfolding outbox_sent mark_sent start_outbox
  sent-count at =
      let row =
        min_where-first outbox_before (is_due now) (sends x.id) db.outbox x one_taken found taken in
      let change =
        sum_of-update_one (λ r. bit (unsent r)) (sends x.id) (start_outbox now) db.outbox x
          one_taken row in
      let before = count-eq-sum db.outbox in
      let after = count-eq-sum after_claim.outbox in
      let fewer =
        count_where-update_mono unsent (is_outbox x.id) (mark_sent at) (λ r h. omega arith)
          after_claim.outbox in
      (
        ground (arith, change, before, after, fewer, taken),
        update-HasIds (is_outbox x.id) (mark_sent at) _ (λ r. refl)
            (update-HasIds (sends x.id) (start_outbox now) _ (λ r. refl) u),
      )

module _ {C : Type 0} (send : C → Outbound → C × Option (List ℕ)) (clock : C → ℕ) (max : ℕ) where
  -- The loop ended with a reply that it claimed, could not send and recorded as failed.
  pub record Failure (client : C) (after : QueueDb) : Type 0 where
    pub sender : C
    pub before : QueueDb
    pub reply : Outbox
    pub claimed : (claim_outbox before (clock sender)).1 ≡ some reply
    pub error : List ℕ
    pub sent : send sender reply.message ≡ (client, some error)
    pub recorded :
        after
        ≡ outbox_failed (claim_outbox before (clock sender)).0 (clock client) reply.id error max

  -- How the loop returned: with nothing due by the clock of the world that it leaves, or with a
  -- failure to send.
  pub record Stops (result : Option (C × QueueDb)) : Type 0 where
    pub client : C
    pub after : QueueDb
    pub returned : result ≡ some (client, after)
    pub why : (count_where (is_due (clock client)) after.outbox ≡ 0) ⊎ Failure client after

  -- A round of the loop, by what the claim gives.
  abbrev round : ℕ → C → QueueDb × Option Outbox → Option (C × QueueDb)
  round fuel c (claimed, none) = some (c, claimed)
  round fuel c (claimed, some x) =
      let (after, error) = send c x.message in
      elim error as (λ y. Option (C × QueueDb)) [
        | some e ↦ some (after, outbox_failed claimed (clock after) x.id e max)
        | none ↦ drain_outbox send clock max fuel after (outbox_sent claimed (clock after) x.id)
      ]

  drain_outbox-claim :
      (fuel : ℕ) (c : C) (db : QueueDb) (p : QueueDb × Option Outbox)
      → claim_outbox db (clock c) ≡ p
      → drain_outbox send clock max (suc fuel) c db ≡ round fuel c p
  unfolding drain_outbox
  drain_outbox-claim fuel c db p e =
      let whole : drain_outbox send clock max (suc fuel) c db
          ≡ round fuel c (claim_outbox db (clock c)) =
        refl in
      whole ∙ ap (round fuel c) e

  stops :
      (fuel : ℕ) (c : C) (db : QueueDb)
      → HasIds db.outbox
      → count_where unsent db.outbox < fuel
      → Stops (drain_outbox send clock max fuel c db)
  stops zero c db u l = absurd (omega arith)
  stops (suc fuel) c db u l =
      elim (Option-cases (min_where outbox_before (is_due (clock c)) db.outbox)) [
        | inl e ↦
            let nothing : claim_outbox db (clock c) ≡ (db, none) =
              unfold claim_outbox in rw (e, claim_outbox) refl in
            rw (drain_outbox-claim fuel c db _ nothing) record {
              client = c;
              after = db;
              returned = refl;
              why = inl (min_where-none outbox_before (is_due (clock c)) db.outbox e);
            }
        | inr (x, e) ↦
            let step = sent-count db (clock c) u x e (clock (send c x.message).0) in
            let got = claim_some db (clock c) u x e in
            rw (drain_outbox-claim fuel c db _ got) (elim (Option-cases (send c x.message).1) [
              | inr (error, f) ↦
                  rw (f, round)
                    record {
                      client = (send c x.message).0;
                      after =
                          outbox_failed (after_claim db (clock c) u x e)
                            (clock (send c x.message).0) x.id error max;
                      returned = refl;
                      why = inr record {
                        sender = c;
                        before = db;
                        reply = given x;
                        claimed = ap (λ (p : QueueDb × Option Outbox). p.1) got;
                        error = error;
                        sent = λ i. ((send c x.message).0, f i);
                        recorded = rw got refl;
                      };
                    }
              | inl f ↦
                  rw (f, round)
                    (stops fuel (send c x.message).0 _ step.1 (omega (arith, step.0, l)))
            ])
      ]

  -- Draining the outbox ends: on tables reached from empty ones by the queue's transactions, with more
  -- fuel than there are pending replies, the loop returns whatever the client and the clock do, and
  -- no reply of the tables that it leaves is due by the clock of the world that it leaves, or it
  -- ended with a reply that it claimed, could not send and recorded as failed.
  pub drain_outbox-Stops :
      (fuel : ℕ) (c : C) {db : QueueDb}
      → Reach empty db
      → count_where unsent db.outbox < fuel
      → Stops (drain_outbox send clock max fuel c db)
  drain_outbox-Stops fuel c r l = stops fuel c _ (Reach-IsSingle r).outbox_ids l
