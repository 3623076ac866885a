-- ===== src/Queue/Unique.antt =====
-- One inbox message for an update and one reply for a message, over every sequence of transactions of
-- internal/storage/db.go.
use mosaid.Base.{
  All-update, ◌<◌, append_below, ap, append_unique, All, ℕ, ◌≤◌, ◌≡◌, refl, String, Bool, List, [],
  ◌∷◌, arith, ◌==◌, Bool-cases, Option-cases, inl, inr, update_where, count_where, exists_where,
  first_where, min_where, count_where-append, count_where-update_same, exists_where-count,
}
use mosaid.Queue.{
  Inbound, Outbound, InboxRow, OutboxRow, QueueDb, is_update, of_update, is_inbox, is_outbox,
  has_key, runs, leaves, free_inbox, free_outbox, restart, ingest, claim_inbox,
  complete_with_outbox, fail_inbox, claim_outbox, outbox_sent, outbox_failed, start_inbox,
  finish_inbox, retry_inbox, start_outbox, mark_sent, retry_outbox, insert_outbox, is_ready, is_due,
  takes, sends, inbox_before, outbox_before, attempts_of, outbox_attempts, new_inbox, new_outbox,
}

abbrev pub empty : QueueDb
empty = record { updates = []; inbox = []; outbox = []; next_inbox_id = 1; next_outbox_id = 1 }

-- One transaction, with whatever arguments and clock reading, or a restart of the process.
pub data Step (db : QueueDb) : QueueDb → Type 0 where
  restarts : (now : ℕ) → Step db (restart db now)
  ingests : (now : ℕ) (m : Inbound) (hash : String) → Step db (ingest db now m hash).0
  claims_inbox : (now max : ℕ) → Step db (claim_inbox db now max).0
  completes :
      (now inbox : ℕ) (out : Outbound) (key : ℕ)
      → Step db (complete_with_outbox db now inbox out key)
  fails_inbox :
      (now id : ℕ) (summary : List ℕ) (max : ℕ) → Step db (fail_inbox db now id summary max)
  claims_outbox : (now : ℕ) → Step db (claim_outbox db now).0
  sends_outbox : (now id : ℕ) → Step db (outbox_sent db now id)
  fails_outbox :
      (now id : ℕ) (summary : List ℕ) (max : ℕ) → Step db (outbox_failed db now id summary max)

pub data Reach (db : QueueDb) : QueueDb → Type 0 where
  here : Reach db db
  next : {a b : QueueDb} → Reach db a → Step a b → Reach db b

-- Each update is noted at most once, has as many inbox messages as notes, and each key has at most
-- one reply. Identifiers are unique and below the next one.
pub record IsSingle (db : QueueDb) : Type 0 where
  pub noted : (n : ℕ) → count_where (is_update n) db.updates ≤ 1
  pub queued : (n : ℕ) → count_where (of_update n) db.inbox ≡ count_where (is_update n) db.updates
  pub replied : (k : ℕ) → count_where (has_key k) db.outbox ≤ 1
  pub inbox_ids : (id : ℕ) → count_where (is_inbox id) db.inbox ≤ 1
  pub inbox_fresh : All (λ (r : InboxRow). r.id < db.next_inbox_id) db.inbox
  pub outbox_ids : (id : ℕ) → count_where (is_outbox id) db.outbox ≤ 1
  pub outbox_fresh : All (λ (r : OutboxRow). r.id < db.next_outbox_id) db.outbox

update_inbox-IsSingle :
    (db : QueueDb) (q : InboxRow → Bool) (f : InboxRow → InboxRow)
    → ((n : ℕ) (x : InboxRow) → of_update n (f x) ≡ of_update n x)
    → ((x : InboxRow) → (f x).id ≡ x.id)
    → IsSingle db
    → IsSingle (record db { inbox = update_where q f db.inbox })
update_inbox-IsSingle db q f k i s = record {
  noted = s.noted;
  queued = λ n.
      omega (arith, s.queued n, count_where-update_same (of_update n) q f (λ x h. k n x) db.inbox);
  replied = s.replied;
  inbox_ids = λ id. omega (
    arith,
    s.inbox_ids id,
    count_where-update_same (is_inbox id) q f (λ x h. ap (λ n. n == id) (i x)) db.inbox,
  );
  inbox_fresh =
      All-update (λ (r : InboxRow). r.id < db.next_inbox_id) q f (λ x h l. rw (i x) l) db.inbox
        s.inbox_fresh;
  outbox_ids = s.outbox_ids;
  outbox_fresh = s.outbox_fresh;
}

update_outbox-IsSingle :
    (db : QueueDb) (q : OutboxRow → Bool) (f : OutboxRow → OutboxRow)
    → ((k : ℕ) (x : OutboxRow) → has_key k (f x) ≡ has_key k x)
    → ((x : OutboxRow) → (f x).id ≡ x.id)
    → IsSingle db
    → IsSingle (record db { outbox = update_where q f db.outbox })
update_outbox-IsSingle db q f h i s = record {
  noted = s.noted;
  queued = s.queued;
  replied = λ k.
      omega (arith, s.replied k, count_where-update_same (has_key k) q f (λ x e. h k x) db.outbox);
  inbox_ids = s.inbox_ids;
  inbox_fresh = s.inbox_fresh;
  outbox_ids = λ id. omega (
    arith,
    s.outbox_ids id,
    count_where-update_same (is_outbox id) q f (λ x e. ap (λ n. n == id) (i x)) db.outbox,
  );
  outbox_fresh =
      All-update (λ (r : OutboxRow). r.id < db.next_outbox_id) q f (λ x e l. rw (i x) l) db.outbox
        s.outbox_fresh;
}

ingest-IsSingle :
    (db : QueueDb) (now : ℕ) (m : Inbound) (hash : String)
    → IsSingle db
    → IsSingle (ingest db now m hash).0
unfolding ingest
ingest-IsSingle db now m hash s =
    elim (Bool-cases (exists_where (is_update m.update_id) db.updates)) [
      | inl e ↦ rw e s
      | inr e ↦ elim (Bool-cases (exists_where (of_update m.update_id) db.inbox)) [
        | inl f ↦ rw (e, f) s
        | inr f ↦
            let none_noted = exists_where-count (is_update m.update_id) db.updates e in
            rw (e, f)
              record {
                noted = λ n.
                    let all = count_where-append (is_update n) db.updates (
                      record { update_id = m.update_id; received_at = now; payload_hash = hash }
                      ∷ []) in
                    ground (arith, all, none_noted, s.noted n);
                queued = λ n. omega (
                  arith,
                  s.queued n,
                  count_where-append (is_update n) db.updates (
                      record { update_id = m.update_id; received_at = now; payload_hash = hash }
                      ∷ []),
                  count_where-append (of_update n) db.inbox (new_inbox db.next_inbox_id m now ∷ []),
                );
                replied = s.replied;
                inbox_ids =
                    append_unique (λ (r : InboxRow). r.id) db.next_inbox_id db.inbox
                      (new_inbox db.next_inbox_id m now) s.inbox_fresh refl s.inbox_ids;
                inbox_fresh =
                    append_below (λ (r : InboxRow). r.id) db.next_inbox_id db.inbox
                      (new_inbox db.next_inbox_id m now) s.inbox_fresh refl;
                outbox_ids = s.outbox_ids;
                outbox_fresh = s.outbox_fresh;
              }
      ]
    ]

insert_outbox-IsSingle :
    (db : QueueDb) (now inbox : ℕ) (out : Outbound) (key : ℕ)
    → IsSingle db
    → IsSingle (insert_outbox db now inbox out key)
unfolding insert_outbox
insert_outbox-IsSingle db now inbox out key s =
    elim (Bool-cases (exists_where (has_key key) db.outbox)) [
      | inl e ↦ rw e s
      | inr e ↦
          let no_reply = exists_where-count (has_key key) db.outbox e in
          rw e record {
            noted = s.noted;
            queued = s.queued;
            replied = λ k.
                let all =
                  count_where-append (has_key k) db.outbox
                    (new_outbox db.next_outbox_id inbox out key now ∷ []) in
                ground (arith, all, no_reply, s.replied k);
            inbox_ids = s.inbox_ids;
            inbox_fresh = s.inbox_fresh;
            outbox_ids =
                append_unique (λ (r : OutboxRow). r.id) db.next_outbox_id db.outbox
                  (new_outbox db.next_outbox_id inbox out key now) s.outbox_fresh refl s.outbox_ids;
            outbox_fresh =
                append_below (λ (r : OutboxRow). r.id) db.next_outbox_id db.outbox
                  (new_outbox db.next_outbox_id inbox out key now) s.outbox_fresh refl;
          }
    ]

Step-IsSingle : {a b : QueueDb} → Step a b → IsSingle a → IsSingle b
unfolding restart free_inbox free_outbox claim_inbox complete_with_outbox fail_inbox claim_outbox
    outbox_sent outbox_failed start_inbox finish_inbox retry_inbox start_outbox mark_sent
    retry_outbox
Step-IsSingle {a} (restarts now) s =
    update_outbox-IsSingle _ leaves (free_outbox now) (λ k x. refl) (λ x. refl)
      (update_inbox-IsSingle a runs (free_inbox now) (λ n x. refl) (λ x. refl) s)
Step-IsSingle {a} (ingests now m hash) s = ingest-IsSingle a now m hash s
Step-IsSingle {a} (claims_inbox now max) s =
    elim (Option-cases (min_where inbox_before (is_ready now) a.inbox)) [
      | inl e ↦ rw (e, claim_inbox) s
      | inr (x, e) ↦ elim (Bool-cases (count_where (takes x.id) a.inbox == 1)) [
        | inl o ↦
            rw (e, claim_inbox, o)
              (update_inbox-IsSingle a (takes x.id) (start_inbox now) (λ n y. refl) (λ y. refl) s)
        | inr o ↦ rw (e, claim_inbox, o) s
      ]
    ]
Step-IsSingle {a} (completes now inbox out key) s =
    update_inbox-IsSingle _ _ (finish_inbox now) (λ n x. refl) (λ x. refl)
      (insert_outbox-IsSingle a now inbox out key s)
Step-IsSingle {a} (fails_inbox now id summary max) s =
    update_inbox-IsSingle a _
      (retry_inbox now (attempts_of (first_where (is_inbox id) a.inbox)) summary max) (λ n x. refl)
      (λ x. refl) s
Step-IsSingle {a} (claims_outbox now) s =
    elim (Option-cases (min_where outbox_before (is_due now) a.outbox)) [
      | inl e ↦ rw (e, claim_outbox) s
      | inr (x, e) ↦ elim (Bool-cases (count_where (sends x.id) a.outbox == 1)) [
        | inl o ↦
            rw (e, claim_outbox, o)
              (update_outbox-IsSingle a (sends x.id) (start_outbox now) (λ n y. refl) (λ y. refl) s)
        | inr o ↦ rw (e, claim_outbox, o) s
      ]
    ]
Step-IsSingle {a} (sends_outbox now id) s =
    update_outbox-IsSingle a _ (mark_sent now) (λ k x. refl) (λ x. refl) s
Step-IsSingle {a} (fails_outbox now id summary max) s =
    update_outbox-IsSingle a _
      (retry_outbox now (outbox_attempts (first_where (is_outbox id) a.outbox)) summary max)
      (λ k x. refl) (λ x. refl) s

-- After any sequence of transactions and restarts from empty tables an update is noted at most once,
-- it has exactly as many inbox messages as notes, a key has at most one reply, and the identifiers of
-- messages and of replies are unique and below the next one.
pub Reach-IsSingle : {db : QueueDb} → Reach empty db → IsSingle db
Reach-IsSingle here = record {
  noted = λ n. omega arith;
  queued = λ n. refl;
  replied = λ k. omega arith;
  inbox_ids = λ id. omega arith;
  inbox_fresh = tt;
  outbox_ids = λ id. omega arith;
  outbox_fresh = tt;
}
Reach-IsSingle (next r st) = Step-IsSingle st (Reach-IsSingle r)
