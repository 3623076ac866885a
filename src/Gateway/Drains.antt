-- ===== src/Gateway/Drains.antt =====
-- The loops drainInbox and drainOutbox of internal/telegram/gateway.go, which hand the messages that
-- are ready to the handler and the replies to the client. Handler and client are parameters with a
-- state of the world around the tables, which each call may change, and the clock reads that state:
-- a round reads it when it claims and again when it settles what the call gave. A loop takes fuel,
-- and `none` means that it ran out.
pub mod Steps
pub mod InboxEnds
pub mod OutboxEnds
pub mod Examples
use mosaid.Base.{ℕ, zero, suc, String, Option, none, some, List}
use mosaid.Int.{ℤ}
use mosaid.Queue.{
  Inbound, Outbound, Inbox, QueueDb, claim_inbox, complete_with_outbox, fail_inbox, claim_outbox,
  outbox_sent, outbox_failed,
}

-- What the handler answers: a reply, that the budget is exceeded, or another error with its text.
pub data Handled : Type 0 where
  answered : Outbound → Handled
  over_budget : Handled
  failed : List ℕ → Handled

abbrev pub budget_notice : Inbound → Outbound
budget_notice m = record {
  chat_id = m.chat_id;
  text = "Request rejected: execution budget exceeded.";
  reply_to = m.message_id;
}

-- What a round does with the message that it claimed. The database answers, so a completion does not
-- fail.
unfoldable pub settle_inbox : QueueDb → ℕ → Inbox → Handled → ℕ → QueueDb
settle_inbox db now x (answered out) max = complete_with_outbox db now x.id out x.message.update_id
settle_inbox db now x over_budget max =
    complete_with_outbox db now x.id (budget_notice x.message) x.message.update_id
settle_inbox db now x (failed e) max = fail_inbox db now x.id e max

module _ {H : Type 0} (handle : H → Inbound → H × Handled) (clock : H → ℕ) (max : ℕ) where
  unfoldable pub drain_inbox : ℕ → H → QueueDb → Option (H × QueueDb)
  drain_inbox zero h db = none
  drain_inbox (suc fuel) h db =
      let (claimed, got) = claim_inbox db (clock h) max in
      elim got [
        | none ↦ some (h, claimed)
        | some x ↦
            let (after, outcome) = handle h x.message in
            drain_inbox fuel after (settle_inbox claimed (clock after) x outcome max)
      ]

-- `send` gives the error's text or `none`.
module _ {C : Type 0} (send : C → Outbound → C × Option (List ℕ)) (clock : C → ℕ) (max : ℕ) where
  -- A reply that cannot be sent ends the loop.
  unfoldable pub drain_outbox : ℕ → C → QueueDb → Option (C × QueueDb)
  drain_outbox zero c db = none
  drain_outbox (suc fuel) c db =
      let (claimed, got) = claim_outbox db (clock c) in
      elim got [
        | none ↦ some (c, claimed)
        | some x ↦
            let (after, error) = send c x.message in
            elim error [
              | some e ↦ some (after, outbox_failed claimed (clock after) x.id e max)
              | none ↦ drain_outbox fuel after (outbox_sent claimed (clock after) x.id)
            ]
      ]
