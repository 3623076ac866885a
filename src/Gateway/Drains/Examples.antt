-- ===== src/Gateway/Drains/Examples.antt =====
-- A queue with a message and one with a reply, drained.
use mosaid.Base.{ℕ, suc, ◌+◌, ◌*◌, ◌<◌, Option, none, List, [], arith, count_where}
use mosaid.Int.{pos}
use mosaid.Scheduler.Timestamps.{minute}
use mosaid.Queue.{Inbound, Outbound, QueueDb, ingest, complete_with_outbox, insert_outbox}
use mosaid.Queue.Unique.{empty, Step, Reach}
use mosaid.Gateway.Drains.{Handled, failed, drain_inbox, drain_outbox}
use mosaid.Gateway.Drains.Steps.{load}
use mosaid.Gateway.Drains.InboxEnds.{Ends, drain_inbox-Ends}
use mosaid.Gateway.Drains.OutboxEnds.{Stops, unsent, drain_outbox-Stops}

-- A handler that counts its calls and always fails.
abbrev stubborn : ℕ → Inbound → ℕ × Handled
stubborn n m = (suc n, failed [])

abbrev deliver : ℕ → Outbound → ℕ × Option (List ℕ)
deliver n m = (suc n, none)

-- A minute passes with each call.
abbrev clock : ℕ → ℕ
clock n = 1000 + n * minute

abbrev hello : Inbound
hello = record {
  update_id = 1;
  message_id = pos 1;
  chat_id = pos 7;
  user_id = pos 7;
  chat_type = "private";
  text = "hello";
  received_at = 5;
}

abbrev waiting : QueueDb
waiting = (ingest empty 5 hello "h").0

to_waiting : Reach empty waiting
to_waiting = Reach.next Reach.here (Step.ingests 5 hello "h")

small_load : load 5 waiting.inbox < 9
unfolding ingest
small_load = omega arith

drain_inbox-Ends_example : Ends clock (drain_inbox stubborn clock 5 9 0 waiting)
drain_inbox-Ends_example = drain_inbox-Ends stubborn clock 5 9 0 to_waiting small_load

abbrev replying : QueueDb
replying =
    complete_with_outbox waiting 6 1 record { chat_id = pos 7; text = "hi"; reply_to = pos 1 } 1

to_replying : Reach empty replying
to_replying = Reach.next to_waiting (Step.completes 6 1 _ 1)

one_reply : count_where unsent replying.outbox < 2
unfolding ingest complete_with_outbox insert_outbox
one_reply = omega arith

drain_outbox-Stops_example : Stops deliver clock 5 (drain_outbox deliver clock 5 2 0 replying)
drain_outbox-Stops_example = drain_outbox-Stops deliver clock 5 2 0 to_replying one_reply
