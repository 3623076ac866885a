-- ===== src/Queue/Once.antt =====
-- What the transactions of internal/storage/db.go do with an update that comes again, with a message
-- that keeps failing and with what a stopped process left.
use mosaid.Base.{
  ℕ, ◌+◌, ◌≡◌, refl, sym, String, Bool, true, false, List, [], ◌∷◌, ◌++◌, ◌∙◌, arith, ◌==◌,
  Bool-cases, Option-cases, inl, inr, count_where, exists_where, min_where, count_where-update_zero,
  exists_where-count, count_where-update_join, ◌||◌,
}
use mosaid.Queue.{
  Inbound, InboxRow, OutboxRow, QueueDb, is_update, of_update, has_key, restart, ingest, duplicate,
  claim_inbox, complete_with_outbox, fail_inbox, claim_outbox, outbox_sent, outbox_failed, runs,
  leaves, free_inbox, free_outbox, is_waiting, is_unsent, insert_outbox, takes, sends, is_ready,
  is_due, inbox_before, outbox_before,
}
use mosaid.Queue.Unique.{empty, Step, Reach, IsSingle, Reach-IsSingle}

exists_where-last {ℓ} :
    {A : Type ℓ} (p : A → Bool) (xs : List A) (x : A)
    → (exists_where p xs || p x) ≡ true
    → exists_where p (xs ++ x ∷ []) ≡ true
exists_where-last p [] x h = ground arith
exists_where-last p (y ∷ xs) x h = ground (arith, exists_where-last p xs x)

exists_where-none {ℓ} :
    {A : Type ℓ} (p : A → Bool) (xs : List A) → count_where p xs ≡ 0 → exists_where p xs ≡ false
exists_where-none p [] h = refl
exists_where-none p (x ∷ xs) h = ground (arith, exists_where-none p xs)

abbrev pub is_noted : QueueDb → ℕ → Bool
is_noted db n = exists_where (is_update n) db.updates

ingest-noted :
    (db : QueueDb) (now : ℕ) (m : Inbound) (hash : String) (n : ℕ)
    → is_noted db n ≡ true
    → is_noted (ingest db now m hash).0 n ≡ true
unfolding ingest
ingest-noted db now m hash n h =
    elim (Bool-cases (exists_where (is_update m.update_id) db.updates)) [
      | inl e ↦ rw e h
      | inr e ↦ elim (Bool-cases (exists_where (of_update m.update_id) db.inbox)) [
        | inl f ↦ rw (e, f) h
        | inr f ↦ rw (e, f) (exists_where-last (is_update n) db.updates _ (rw h refl))
      ]
    ]

Step-noted : {a b : QueueDb} (n : ℕ) → Step a b → is_noted a n ≡ true → is_noted b n ≡ true
unfolding restart claim_inbox complete_with_outbox fail_inbox claim_outbox outbox_sent outbox_failed
    insert_outbox
Step-noted n (Step.restarts now) h = h
Step-noted {a} n (Step.ingests now m hash) h = ingest-noted a now m hash n h
Step-noted {a} n (Step.claims_inbox now max) h =
    elim (Option-cases (min_where inbox_before (is_ready now) a.inbox)) [
      | inl e ↦ rw (e, claim_inbox) h
      | inr (x, e) ↦ elim (Bool-cases (count_where (takes x.id) a.inbox == 1)) [
        | inl o ↦ rw (e, claim_inbox, o) h
        | inr o ↦ rw (e, claim_inbox, o) h
      ]
    ]
Step-noted {a} n (Step.completes now inbox out key) h =
    elim (Bool-cases (exists_where (has_key key) a.outbox)) [ inl e ↦ rw e h | inr e ↦ rw e h ]
Step-noted n (Step.fails_inbox now id summary max) h = h
Step-noted {a} n (Step.claims_outbox now) h =
    elim (Option-cases (min_where outbox_before (is_due now) a.outbox)) [
      | inl e ↦ rw (e, claim_outbox) h
      | inr (x, e) ↦ elim (Bool-cases (count_where (sends x.id) a.outbox == 1)) [
        | inl o ↦ rw (e, claim_outbox, o) h
        | inr o ↦ rw (e, claim_outbox, o) h
      ]
    ]
Step-noted n (Step.sends_outbox now id) h = h
Step-noted n (Step.fails_outbox now id summary max) h = h

Reach-noted : {a b : QueueDb} (n : ℕ) → Reach a b → is_noted a n ≡ true → is_noted b n ≡ true
Reach-noted n Reach.here h = h
Reach-noted n (Reach.next r st) h = Step-noted n st (Reach-noted n r h)

ingest-notes :
    (db : QueueDb) (now : ℕ) (m : Inbound) (hash : String)
    → IsSingle db
    → is_noted (ingest db now m hash).0 m.update_id ≡ true
unfolding ingest
ingest-notes db now m hash s = elim (Bool-cases (exists_where (is_update m.update_id) db.updates)) [
  | inl e ↦ rw e e
  | inr e ↦ elim (Bool-cases (exists_where (of_update m.update_id) db.inbox)) [
    | inl f ↦
        let some_noted = exists_where-count (is_update m.update_id) db.updates e in
        let none_queued = s.queued m.update_id in
        let here = exists_where-none (of_update m.update_id) db.inbox (none_queued ∙ some_noted) in
        let no : true ≡ false = sym f ∙ here in cc
    | inr f ↦
        rw (e, f) (exists_where-last (is_update m.update_id) db.updates _ (rw e (ground arith)))
  ]
]

-- From empty tables, once an update was passed to Ingest, whatever transactions and restarts follow,
-- an update with its identifier is a duplicate and leaves the tables as they are.
pub ingest_again :
    {db later : QueueDb} (now now_later : ℕ) (m again : Inbound) (hash hash_later : String)
    → again.update_id ≡ m.update_id
    → Reach empty db
    → Reach (ingest db now m hash).0 later
    → ingest later now_later again hash_later ≡ (later, duplicate)
unfolding ingest
ingest_again {db} {later} now now_later m again hash hash_later same start way =
    let noted = Reach-noted m.update_id way (ingest-notes db now m hash (Reach-IsSingle start)) in
    let noted_again : is_noted later again.update_id ≡ true = rw same noted in rw noted_again refl

abbrev pub waits : InboxRow → Bool
waits r = is_waiting r.state

abbrev pub unsent : OutboxRow → Bool
unsent r = is_unsent r.state

runs-waits :
    (now : ℕ) (r : InboxRow) → runs r ≡ true → (waits (free_inbox now r) ≡ true) × (waits r ≡ false)
unfolding free_inbox
runs-waits now r h = (refl, ground arith)

leaves-unsent :
    (now : ℕ) (r : OutboxRow)
    → leaves r ≡ true
    → (unsent (free_outbox now r) ≡ true) × (unsent r ≡ false)
unfolding free_outbox
leaves-unsent now r h = (refl, ground arith)

-- A restart loses nothing: no message is running and no reply sending after it, and as many of each
-- are pending as were pending or in the making before.
pub restart_lem :
    (db : QueueDb) (now : ℕ)
    → (count_where runs (restart db now).inbox ≡ 0)
      × (count_where leaves (restart db now).outbox ≡ 0)
      × (count_where waits (restart db now).inbox
          ≡ count_where waits db.inbox + count_where runs db.inbox)
      × (count_where unsent (restart db now).outbox
          ≡ count_where unsent db.outbox + count_where leaves db.outbox)
unfolding restart free_inbox free_outbox
restart_lem db now = (
  count_where-update_zero runs runs (free_inbox now) (λ x h. refl) (λ x h. h) db.inbox,
  count_where-update_zero leaves leaves (free_outbox now) (λ x h. refl) (λ x h. h) db.outbox,
  count_where-update_join waits runs (free_inbox now) (runs-waits now) db.inbox,
  count_where-update_join unsent leaves (free_outbox now) (leaves-unsent now) db.outbox,
)
