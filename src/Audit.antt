-- ===== src/Audit.antt =====
-- internal/audit/audit.go: the log of audited decisions, a chain of entries that name the hash of the
-- one before. The JSON text of a payload and its SHA-256 in hexadecimal are one parameter, `digest`,
-- and a time is the text that the code writes.
pub mod Chain
pub mod Tampering
pub mod Examples
use mosaid.Base.{
  ℕ, zero, suc, String, Bool, true, false, ◌&&◌, not, Option, none, some, List, [], ◌∷◌, ◌++◌,
  str_eq, ltb, ◌==◌, if◌then◌else◌, ◌||◌, exists_where, min_where, order_by,
}
use mosaid.Int.{ℤ}

-- A row of audit_entries, less the payload's text, which the digest is of.
pub record Entry : Type 0 where
  pub seq : ℕ
  pub at : String
  pub kind : String
  pub user_id : ℤ
  pub resource : String
  pub decision : String
  pub prev_hash : String
  pub hash : String

-- The struct that is hashed.
pub record Payload : Type 0 where
  pub seq : ℕ
  pub at : String
  pub kind : String
  pub user_id : ℤ
  pub resource : String
  pub decision : String
  pub prev : String

pub data AuditError : Type 0 where
  broken_at : ℕ → AuditError
  hash_mismatch : AuditError

abbrev pub payload_of : Entry → Payload
payload_of e = record {
  seq = e.seq;
  at = e.at;
  kind = e.kind;
  user_id = e.user_id;
  resource = e.resource;
  decision = e.decision;
  prev = e.prev_hash;
}

-- ORDER BY seq DESC LIMIT 1
abbrev pub latest : List Entry → Option Entry
latest rows = min_where (λ a b. ltb b.seq a.seq) (λ e. true) rows

abbrev pub seq_of : Option Entry → ℕ
seq_of none = 0
seq_of (some e) = e.seq

abbrev pub hash_of : Option Entry → String
hash_of none = ""
hash_of (some e) = e.hash

abbrev pub seq_before : Entry → Entry → Bool
seq_before a b = ltb a.seq b.seq

module _ (digest : Payload → String) where
  -- What Append writes into the entry that it is given, after the entry `last`.
  unfoldable pub chained : Option Entry → String → Entry → Entry
  chained last at e =
      let linked = record e { seq = suc (seq_of last); at = at; prev_hash = hash_of last } in
      record linked { hash = digest (payload_of linked) }

  -- `none` is the failed insertion: seq is the primary key, and the hash is unique.
  unfoldable pub append : List Entry → String → Entry → List Entry × Option Entry
  append rows at e =
      let row = chained (latest rows) at e in
      if exists_where (λ x. x.seq == row.seq) rows
        || exists_where (λ x. str_eq x.hash row.hash) rows
      then (rows, none)
      else (rows ++ row ∷ [], some row)

  -- The loop of Verify over the rows in order.
  unfoldable pub verify_rows : String → ℕ → List Entry → Option AuditError
  verify_rows prev expected [] = none
  verify_rows prev expected (e ∷ rows) =
      let rest = verify_rows e.hash (suc expected) rows in
      if not (e.seq == expected) || not (str_eq e.prev_hash prev)
      then some (broken_at e.seq)
      else if not (str_eq (digest (payload_of e)) e.hash)
      then some hash_mismatch
      else rest

  unfoldable pub verify : List Entry → Option AuditError
  verify rows = verify_rows "" 1 (order_by seq_before rows)
