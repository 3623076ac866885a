-- ===== src/Gateway.antt =====
-- The update loop of Gateway.Run in internal/telegram/gateway.go: which updates of a poll reach the
-- inbox. The guard of messages, the handler and the hash of an update are parameters, and a message
-- that the client sends is one more of `sent`: the code ignores whether that succeeds.
pub mod Owner
pub mod Drains
pub mod Examples
use mosaid.Base.{
  ℕ, suc, String, Bool, true, false, not, Option, none, some, List, [], ◌∷◌, ◌++◌, str_eq, leb,
  if◌then◌else◌,
}
use mosaid.Int.{ℤ, pos, eq_ℤ}
use mosaid.Queue.{Inbound, Outbound, QueueDb, ingest}

-- What the loop changes: the guard's state, the handler's, the sent messages, the tables, which are
-- missing where there is no store, and the offset of the next poll.
pub record World (G H : Type 0) : Type 0 where
  pub guard : G
  pub handler : H
  pub sent : List Outbound
  pub store : Option QueueDb
  pub offset : ℕ

abbrev pub notice : Inbound → String → Outbound
notice m text = record { chat_id = m.chat_id; text = text; reply_to = pos 0 }

module _ {G H : Type 0} (allow : G → ℤ → String → G × Bool)
    (handle : H → Inbound → H × Option Outbound) (hash : Inbound → String) (owner : ℤ) where
  abbrev pub send : World G H → Outbound → World G H
  send w out = record w { sent = w.sent ++ out ∷ [] }

  -- in.UpdateID >= offset: the next poll asks for the updates after this one.
  abbrev pub advance_offset : World G H → Inbound → World G H
  advance_offset w m = record w {
    offset = if leb w.offset m.update_id then suc m.update_id else w.offset;
  }

  -- With no store the handler answers at once; `none` is its error.
  unfoldable pub answer : World G H → Inbound → World G H
  answer w m =
      let (h, out) = handle w.handler m in
      let handled = record w { handler = h } in
      elim out [
        | none ↦ handled
        | some reply ↦ if str_eq reply.text "" then handled else send handled reply
      ]

  unfoldable pub enqueue : World G H → ℕ → Inbound → World G H
  enqueue w now m = elim w.store [
    | none ↦ answer w m
    | some db ↦ record w { store = some (ingest db now m (hash m)).0 }
  ]

  unfoldable pub admit : World G H → ℕ → Inbound → World G H
  admit w now m =
      let (g, ok) = allow w.guard m.user_id m.text in
      let guarded = record w { guard = g } in
      if not ok then send guarded (notice m "Request rate limited.") else enqueue guarded now m

  -- The body of the loop over the updates of a poll.
  unfoldable pub receive : World G H → ℕ → Inbound → World G H
  receive w now m =
      let seen = advance_offset w m in
      if not (str_eq m.chat_type "private")
      then seen
      else if not (eq_ℤ m.user_id owner)
      then send seen (notice m "Access denied.")
      else admit seen now m

  -- A poll's updates in turn, each with the clock's reading.
  unfoldable pub receive_all : World G H → List (ℕ × Inbound) → World G H
  receive_all w [] = w
  receive_all w ((now, m) ∷ rest) = receive_all (receive w now m) rest
