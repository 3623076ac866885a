-- ===== src/Queue/Examples.antt =====
-- A message that is queued, answered and left in the making by a stopped process.
use mosaid.Base.{◌+◌, ◌≡◌, refl, count_where}
use mosaid.Int.{pos}
use mosaid.Queue.{
  Inbound, Outbound, QueueDb, ingest, duplicate, claim_inbox, complete_with_outbox, restart, runs,
  leaves,
}
use mosaid.Queue.Unique.{empty, Step, Reach, IsSingle, Reach-IsSingle}
use mosaid.Queue.Once.{ingest_again, restart_lem, waits, unsent}

abbrev hello : Inbound
hello = record {
  update_id = 1;
  message_id = pos 1;
  chat_id = pos 7;
  user_id = pos 7;
  chat_type = "private";
  text = "hello";
  received_at = 5;
}

abbrev greeting : Outbound
greeting = record { chat_id = pos 7; text = "hi"; reply_to = pos 1 }

abbrev queued : QueueDb
queued = (ingest empty 5 hello "h").0

abbrev claimed : QueueDb
claimed = (claim_inbox queued 6 5).0

abbrev answered : QueueDb
answered = complete_with_outbox claimed 7 1 greeting 1

to_answered : Reach queued answered
to_answered =
    Reach.next (Reach.next Reach.here (Step.claims_inbox 6 5)) (Step.completes 7 1 greeting 1)

Reach-IsSingle_example : IsSingle answered
Reach-IsSingle_example = Reach-IsSingle (
    Reach.next
      (Reach.next (Reach.next Reach.here (Step.ingests 5 hello "h")) (Step.claims_inbox 6 5))
      (Step.completes 7 1 greeting 1))

ingest_again_example : ingest answered 8 hello "h" ≡ (answered, duplicate)
ingest_again_example = ingest_again 5 8 hello hello "h" "h" refl Reach.here to_answered

restart_lem_example :
    (count_where runs (restart claimed 9).inbox ≡ 0)
    × (count_where leaves (restart claimed 9).outbox ≡ 0)
    × (count_where waits (restart claimed 9).inbox
        ≡ count_where waits claimed.inbox + count_where runs claimed.inbox)
    × (count_where unsent (restart claimed 9).outbox
        ≡ count_where unsent claimed.outbox + count_where leaves claimed.outbox)
restart_lem_example = restart_lem claimed 9
