-- ===== src/Queue.antt =====
-- internal/storage/db.go: the durable queues of messages, an inbox of updates and an outbox of
-- replies. A method runs one transaction on the tables below; the database answers every statement.
-- Messages are kept as they are (the code stores their JSON and reads it back), times as numbers of
-- nanoseconds, and the identifiers of updates, which Telegram counts from 1, as natural numbers.
pub mod Unique
pub mod Once
pub mod Examples
use mosaid.Base.{
  ℕ, suc, ◌+◌, ◌-◌, ◌*◌, ◌^◌, ◌%◌, String, Bool, true, false, ◌&&◌, Option, none, some, List, [],
  ◌∷◌, ◌++◌, ltb, leb, ◌==◌, if◌then◌else◌, update_where, exists_where, first_where, min_where,
  take, count_where,
}
use mosaid.Int.{ℤ}
use mosaid.Scheduler.Timestamps.{second, sql_le}

pub record Inbound : Type 0 where
  pub update_id : ℕ
  pub message_id : ℤ
  pub chat_id : ℤ
  pub user_id : ℤ
  pub chat_type : String
  pub text : String
  pub received_at : ℕ

pub record Outbound : Type 0 where
  pub chat_id : ℤ
  pub text : String
  pub reply_to : ℤ

-- The states of both queues: an inbox message is pending, running, completed, failed or dead, an
-- outbox message pending, sending, sent or dead.
pub data InboxState : Type 0 where
  pending running completed failed dead : InboxState

pub data OutboxState : Type 0 where
  pending sending sent dead : OutboxState

pub record InboxRow : Type 0 where
  pub id : ℕ
  pub update_id : ℕ
  pub message : Inbound
  pub state : InboxState
  pub attempts : ℕ
  pub last_error : List ℕ
  pub available_at : ℕ
  pub created_at : ℕ
  pub updated_at : ℕ

-- The key `telegram-reply:` followed by an update's identifier is that identifier.
pub record OutboxRow : Type 0 where
  pub id : ℕ
  pub inbox_id : ℕ
  pub idempotency_key : ℕ
  pub message : Outbound
  pub state : OutboxState
  pub attempts : ℕ
  pub last_error : List ℕ
  pub available_at : ℕ
  pub created_at : ℕ
  pub updated_at : ℕ

pub record UpdateRow : Type 0 where
  pub update_id : ℕ
  pub received_at : ℕ
  pub payload_hash : String

pub record QueueDb : Type 0 where
  pub updates : List UpdateRow
  pub inbox : List InboxRow
  pub outbox : List OutboxRow
  pub next_inbox_id : ℕ
  pub next_outbox_id : ℕ

abbrev pub is_waiting : InboxState → Bool
is_waiting InboxState.pending = true
is_waiting _ = false

abbrev pub is_running : InboxState → Bool
is_running running = true
is_running _ = false

abbrev pub is_unsent : OutboxState → Bool
is_unsent OutboxState.pending = true
is_unsent _ = false

abbrev pub is_sending : OutboxState → Bool
is_sending sending = true
is_sending _ = false

abbrev pub is_update : ℕ → UpdateRow → Bool
is_update n u = u.update_id == n

abbrev pub of_update : ℕ → InboxRow → Bool
of_update n r = r.update_id == n

abbrev pub is_inbox : ℕ → InboxRow → Bool
is_inbox id r = r.id == id

abbrev pub is_outbox : ℕ → OutboxRow → Bool
is_outbox id r = r.id == id

abbrev pub has_key : ℕ → OutboxRow → Bool
has_key k r = r.idempotency_key == k

-- datetime('now') drops the fraction of the second.
abbrev pub whole_second : ℕ → ℕ
whole_second now = now - now % second

unfoldable pub free_inbox : ℕ → InboxRow → InboxRow
free_inbox now r = record r { state = InboxState.pending; updated_at = whole_second now }

unfoldable pub free_outbox : ℕ → OutboxRow → OutboxRow
free_outbox now r = record r { state = OutboxState.pending; updated_at = whole_second now }

abbrev pub runs : InboxRow → Bool
runs r = is_running r.state

abbrev pub leaves : OutboxRow → Bool
leaves r = is_sending r.state

-- The statements that Open runs when the migrations are applied: what was in the making when the
-- process stopped is pending again.
unfoldable pub restart : QueueDb → ℕ → QueueDb
restart db now = record db {
  inbox = update_where runs (free_inbox now) db.inbox;
  outbox = update_where leaves (free_outbox now) db.outbox;
}

abbrev pub new_inbox : ℕ → Inbound → ℕ → InboxRow
new_inbox id m now = record {
  id = id;
  update_id = m.update_id;
  message = m;
  state = InboxState.pending;
  attempts = 0;
  last_error = [];
  available_at = now;
  created_at = now;
  updated_at = now;
}

pub data Ingested : Type 0 where
  inserted duplicate conflict : Ingested

-- An update is noted once. The inbox has its identifier as a unique column too, and an insertion
-- that breaks this rolls the note back.
unfoldable pub ingest : QueueDb → ℕ → Inbound → String → QueueDb × Ingested
ingest db now m hash =
    if exists_where (is_update m.update_id) db.updates
    then (db, duplicate)
    else if exists_where (of_update m.update_id) db.inbox
    then (db, conflict)
    else (
      record db {
        updates =
            db.updates
            ++ record { update_id = m.update_id; received_at = now; payload_hash = hash } ∷ [];
        inbox = db.inbox ++ new_inbox db.next_inbox_id m now ∷ [];
        next_inbox_id = suc db.next_inbox_id;
      },
      inserted,
    )

pub record Inbox : Type 0 where
  pub id : ℕ
  pub message : Inbound
  pub attempts : ℕ

-- state='pending' AND available_at<=?
unfoldable pub is_ready : ℕ → InboxRow → Bool
is_ready now r = is_waiting r.state && sql_le r.available_at now

-- ORDER BY id
abbrev pub inbox_before : InboxRow → InboxRow → Bool
inbox_before a b = ltb a.id b.id

unfoldable pub start_inbox : ℕ → InboxRow → InboxRow
start_inbox now r = record r { state = running; attempts = suc r.attempts; updated_at = now }

-- WHERE id=? AND state='pending'
abbrev pub takes : ℕ → InboxRow → Bool
takes id r = is_inbox id r && is_waiting r.state

-- The count of attempts in the result is the one before the claim. The limit `max` that the code
-- passes is not read.
unfoldable pub claim_inbox : QueueDb → ℕ → ℕ → QueueDb × Option Inbox
claim_inbox db now max = elim (min_where inbox_before (is_ready now) db.inbox) [
  | none ↦ (db, none)
  | some x ↦
      if count_where (takes x.id) db.inbox == 1
      then (
        record db { inbox = update_where (takes x.id) (start_inbox now) db.inbox },
        some record { id = x.id; message = x.message; attempts = x.attempts },
      )
      else (db, none)
]

abbrev pub new_outbox : ℕ → ℕ → Outbound → ℕ → ℕ → OutboxRow
new_outbox id inbox out key now = record {
  id = id;
  inbox_id = inbox;
  idempotency_key = key;
  message = out;
  state = OutboxState.pending;
  attempts = 0;
  last_error = [];
  available_at = now;
  created_at = now;
  updated_at = now;
}

-- INSERT OR IGNORE: a reply with a key that is there already is dropped.
unfoldable pub insert_outbox : QueueDb → ℕ → ℕ → Outbound → ℕ → QueueDb
insert_outbox db now inbox out key =
    if exists_where (has_key key) db.outbox then db else record db {
      outbox = db.outbox ++ new_outbox db.next_outbox_id inbox out key now ∷ [];
      next_outbox_id = suc db.next_outbox_id;
    }

unfoldable pub finish_inbox : ℕ → InboxRow → InboxRow
finish_inbox now r = record r { state = completed; updated_at = now }

unfoldable pub complete_with_outbox : QueueDb → ℕ → ℕ → Outbound → ℕ → QueueDb
complete_with_outbox db now inbox out key =
    let queued = insert_outbox db now inbox out key in
    record queued { inbox = update_where (is_inbox inbox) (finish_inbox now) queued.inbox }

-- 1<<min(attempts, 6) seconds
abbrev pub delay : ℕ → ℕ
delay attempts = 2 ^ (if ltb attempts 6 then attempts else 6) * second

-- The attempts that the code reads: 0 where there is no such row.
abbrev pub attempts_of : Option InboxRow → ℕ
attempts_of none = 0
attempts_of (some r) = r.attempts

unfoldable pub retry_inbox : ℕ → ℕ → List ℕ → ℕ → InboxRow → InboxRow
retry_inbox now attempts summary max r = record r {
  state = if leb max attempts then InboxState.dead else InboxState.pending;
  last_error = take 500 summary;
  available_at = now + delay attempts;
  updated_at = now;
}

-- `summary` is the text of the error, empty for the nil error, which is cut at 500 bytes.
unfoldable pub fail_inbox : QueueDb → ℕ → ℕ → List ℕ → ℕ → QueueDb
fail_inbox db now id summary max =
    let attempts = attempts_of (first_where (is_inbox id) db.inbox) in
    record db { inbox = update_where (is_inbox id) (retry_inbox now attempts summary max) db.inbox }

pub record Outbox : Type 0 where
  pub id : ℕ
  pub message : Outbound
  pub attempts : ℕ
  pub key : ℕ

unfoldable pub is_due : ℕ → OutboxRow → Bool
is_due now r = is_unsent r.state && sql_le r.available_at now

abbrev pub outbox_before : OutboxRow → OutboxRow → Bool
outbox_before a b = ltb a.id b.id

unfoldable pub start_outbox : ℕ → OutboxRow → OutboxRow
start_outbox now r = record r { state = sending; attempts = suc r.attempts; updated_at = now }

abbrev pub sends : ℕ → OutboxRow → Bool
sends id r = is_outbox id r && is_unsent r.state

unfoldable pub claim_outbox : QueueDb → ℕ → QueueDb × Option Outbox
claim_outbox db now = elim (min_where outbox_before (is_due now) db.outbox) [
  | none ↦ (db, none)
  | some x ↦
      if count_where (sends x.id) db.outbox == 1
      then (
        record db { outbox = update_where (sends x.id) (start_outbox now) db.outbox },
        some record {
          id = x.id;
          message = x.message;
          attempts = x.attempts;
          key = x.idempotency_key;
        },
      )
      else (db, none)
]

unfoldable pub mark_sent : ℕ → OutboxRow → OutboxRow
mark_sent now r = record r { state = sent; updated_at = now }

unfoldable pub outbox_sent : QueueDb → ℕ → ℕ → QueueDb
outbox_sent db now id = record db { outbox = update_where (is_outbox id) (mark_sent now) db.outbox }

abbrev pub outbox_attempts : Option OutboxRow → ℕ
outbox_attempts none = 0
outbox_attempts (some r) = r.attempts

unfoldable pub retry_outbox : ℕ → ℕ → List ℕ → ℕ → OutboxRow → OutboxRow
retry_outbox now attempts summary max r = record r {
  state = if leb max attempts then OutboxState.dead else OutboxState.pending;
  last_error = take 500 summary;
  available_at = now + delay attempts;
  updated_at = now;
}

unfoldable pub outbox_failed : QueueDb → ℕ → ℕ → List ℕ → ℕ → QueueDb
outbox_failed db now id summary max =
    let attempts = outbox_attempts (first_where (is_outbox id) db.outbox) in
    record db {
      outbox = update_where (is_outbox id) (retry_outbox now attempts summary max) db.outbox;
    }
