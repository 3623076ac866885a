-- ===== src/Gateway/Owner.antt =====
-- Whose messages internal/telegram/gateway.go lets into the inbox.
use mosaid.Base.{
  ℕ, ◌≡◌, refl, String, Bool, true, false, Option, none, some, List, [], ◌∷◌, str_eq, if◌then◌else◌,
  Bool-cases, Option-cases, inl, inr, All, All-append, exists_where,
}
use mosaid.Int.{ℤ, eq_ℤ}
use mosaid.Queue.{Inbound, Outbound, InboxRow, QueueDb, ingest, is_update, of_update, new_inbox}
use mosaid.Gateway.{World, receive, receive_all, admit, enqueue, answer}

-- A private message of the owner.
abbrev pub is_owned : ℤ → Inbound → Bool
is_owned owner m = if str_eq m.chat_type "private" then eq_ℤ m.user_id owner else false

-- Every message of the inbox is one.
abbrev pub IsOwned : ℤ → Option QueueDb → Type 0
IsOwned owner none = Unit
IsOwned owner (some db) = All (λ (r : InboxRow). is_owned owner r.message ≡ true) db.inbox

ingest-IsOwned :
    (owner : ℤ) (db : QueueDb) (now : ℕ) (m : Inbound) (hash : String)
    → is_owned owner m ≡ true
    → IsOwned owner (some db)
    → IsOwned owner (some (ingest db now m hash).0)
unfolding ingest
ingest-IsOwned owner db now m hash h a =
    elim (Bool-cases (exists_where (is_update m.update_id) db.updates)) [
      | inl e ↦ rw e a
      | inr e ↦ elim (Bool-cases (exists_where (of_update m.update_id) db.inbox)) [
        | inl f ↦ rw (e, f) a
        | inr f ↦
            rw (e, f)
              (All-append (λ (r : InboxRow). is_owned owner r.message ≡ true) db.inbox
                (new_inbox db.next_inbox_id m now ∷ []) a (h, tt))
      ]
    ]

module _ {G H : Type 0} (allow : G → ℤ → String → G × Bool)
    (handle : H → Inbound → H × Option Outbound) (hash : Inbound → String) (owner : ℤ) where
  answer_store :
      (w : World G H) (m : Inbound) → (answer allow handle hash owner w m).store ≡ w.store
  unfolding answer
  answer_store w m = elim (Option-cases (handle w.handler m).1) [
    | inl e ↦ rw (e, answer) refl
    | inr (reply, e) ↦
        rw (e, answer)
          (elim (Bool-cases (str_eq reply.text "")) [ inl f ↦ rw f refl | inr f ↦ rw f refl ])
  ]

  enqueue-IsOwned :
      (w : World G H) (now : ℕ) (m : Inbound)
      → is_owned owner m ≡ true
      → IsOwned owner w.store
      → IsOwned owner (enqueue allow handle hash owner w now m).store
  unfolding enqueue
  enqueue-IsOwned w now m h a = elim (Option-cases w.store) [
    | inl e ↦ rw (e, enqueue, answer_store w m, e) tt
    | inr (db, e) ↦ rw (e, enqueue) (ingest-IsOwned owner db now m (hash m) h (rw e at a))
  ]

  receive-IsOwned :
      (w : World G H) (now : ℕ) (m : Inbound)
      → IsOwned owner w.store
      → IsOwned owner (receive allow handle hash owner w now m).store
  unfolding receive admit
  receive-IsOwned w now m a = elim (Bool-cases (str_eq m.chat_type "private")) [
    | inr e ↦ rw e a
    | inl e ↦ elim (Bool-cases (eq_ℤ m.user_id owner)) [
      | inr f ↦ rw (e, f) a
      | inl f ↦ elim (Bool-cases (allow w.guard m.user_id m.text).1) [
        | inr g ↦ rw (e, f, g) a
        | inl g ↦ rw (e, f, g) (enqueue-IsOwned _ now m (rw (e, f) refl) a)
      ]
    ]
  ]

  -- Only the owner's private messages reach the inbox: if every message in it is one, so is every
  -- message after any updates were received, whatever the guard and the handler do.
  pub receive_all-IsOwned :
      (w : World G H) (updates : List (ℕ × Inbound))
      → IsOwned owner w.store
      → IsOwned owner (receive_all allow handle hash owner w updates).store
  unfolding receive_all
  receive_all-IsOwned w [] a = a
  receive_all-IsOwned w ((now, m) ∷ rest) a =
      receive_all-IsOwned (receive allow handle hash owner w now m) rest (receive-IsOwned w now m a)
