-- ===== src/Approval.antt =====
-- internal/approval/approval.go: requests for approval, their resolution by the user, and their single
-- use. A method runs one transaction on the tables below; the database answers every statement. The
-- random bytes, base64 and SHA-256 are parameters, a time is its number of nanoseconds, and a time
-- that is written as RFC3339Nano is read back as it was.
pub mod Single
pub mod Steps
pub mod Uses
pub mod Phases
pub mod Refinement
pub mod Examples
use mosaid.Base.{
  ℕ, ◌+◌, ◌-◌, String, Bool, true, false, ◌&&◌, ◌||◌, not, Option, none, some, List, [], ◌∷◌, ◌++◌,
  arith, str_eq, ltb, if◌then◌else◌, update_where, count_where, exists_where, first_where, ◌==◌,
}
use mosaid.Int.{ℤ, pos, negsuc, eq_ℤ}

pub data ApprovalState : Type 0 where
  pending approved denied expired : ApprovalState

abbrev pub is_pending : ApprovalState → Bool
is_pending pending = true
is_pending _ = false

abbrev pub is_approved : ApprovalState → Bool
is_approved approved = true
is_approved _ = false

-- A row of approval_requests.
pub record RequestRow : Type 0 where
  pub id : String
  pub token_hash : String
  pub user_id : ℤ
  pub tool_name : String
  pub args_hash : String
  pub resource : String
  pub expires_at : ℕ
  pub state : ApprovalState
  pub created_at : ℕ
  pub resolved_at : Option ℕ

-- A row of approval_uses.
pub record UseRow : Type 0 where
  pub approval_id : String
  pub used_at : ℕ

-- What is passed to the audit log, whose errors the methods ignore.
pub record AuditEntry : Type 0 where
  pub kind : String
  pub user_id : ℤ
  pub resource : String
  pub decision : String

pub record ApprovalDb : Type 0 where
  pub requests : List RequestRow
  pub uses : List UseRow
  pub audited : List AuditEntry

-- What a request is bound to.
pub record Binding : Type 0 where
  pub user_id : ℤ
  pub tool : String
  pub args_hash : String
  pub resource : String

pub record Request : Type 0 where
  pub id : String
  pub token : String
  pub binding : Binding
  pub expires : ℕ

pub record Receipt : Type 0 where
  pub id : String
  pub binding : Binding
  pub expires : ℕ

pub data ApprovalError : Type 0 where
  constraint not_found binding_mismatch expired not_authorized already_used : ApprovalError
  invalid_decision already_resolved replay : ApprovalError

abbrev pub has_id : String → RequestRow → Bool
has_id id r = str_eq r.id id

abbrev pub has_hash : String → RequestRow → Bool
has_hash h r = str_eq r.token_hash h

abbrev pub uses_id : String → UseRow → Bool
uses_id id u = str_eq u.approval_id id

-- SELECT ... FROM approval_requests WHERE token_hash=?
abbrev pub find_request : ApprovalDb → String → Option RequestRow
find_request db h = first_where (has_hash h) db.requests

-- The row is for this user, tool, arguments and resource.
unfoldable pub is_bound : RequestRow → Binding → Bool
is_bound r b =
    eq_ℤ r.user_id b.user_id
    && (str_eq r.tool_name b.tool
        && (str_eq r.args_hash b.args_hash && str_eq r.resource b.resource))

-- time.Time.Add
abbrev pub add_duration : ℕ → ℤ → ℕ
add_duration t (pos d) = t + d
add_duration t (negsuc d) = t - d - 1

unfoldable pub audit : ApprovalDb → AuditEntry → ApprovalDb
audit db e = record db { audited = db.audited ++ e ∷ [] }

unfoldable pub set_state : ApprovalState → Option ℕ → RequestRow → RequestRow
set_state state resolved r = record r { state = state; resolved_at = resolved }

unfoldable pub expire_row : RequestRow → RequestRow
expire_row r = record r { state = ApprovalState.expired }

-- WHERE id=? AND state='pending'
abbrev pub is_open : String → RequestRow → Bool
is_open id r = has_id id r && is_pending r.state

unfoldable pub decided_state : String → Option ApprovalState
decided_state decision =
    if str_eq decision "approved"
    then some approved
    else if str_eq decision "denied"
    then some denied
    else none

module _ (encode : List ℕ → String) (hash : String → String) (id_of : List ℕ → String) where
  abbrev pub request_of : List ℕ → Binding → ℕ → ℤ → Request
  request_of drawn b now ttl = record {
    id = id_of drawn;
    token = encode drawn;
    binding = b;
    expires = add_duration now ttl;
  }

  abbrev pub request_row : Request → ℕ → RequestRow
  request_row r now = record {
    id = r.id;
    token_hash = hash r.token;
    user_id = r.binding.user_id;
    tool_name = r.binding.tool;
    args_hash = r.binding.args_hash;
    resource = r.binding.resource;
    expires_at = r.expires;
    state = pending;
    created_at = now;
    resolved_at = none;
  }

  -- The identifier is the primary key and the token's hash is unique: an insertion that breaks one
  -- fails, and nothing is audited. `drawn` is the 24 random bytes.
  unfoldable pub create :
      ApprovalDb → ℕ → List ℕ → Binding → ℤ → ApprovalDb × (Request × Option ApprovalError)
  create db now drawn b ttl =
      let r = request_of drawn b now ttl in
      if exists_where (has_id r.id) db.requests
        || exists_where (has_hash (hash r.token)) db.requests
      then (db, (r, some constraint))
      else (
        audit (record db { requests = db.requests ++ request_row r now ∷ [] })
            (record {
              kind = "approval_requested";
              user_id = b.user_id;
              resource = b.resource;
              decision = "pending";
            }),
        (r, none),
      )

-- The rest of Resolve once the row of the token is found: `decision` is the state that the decision
-- stands for.
unfoldable pub resolve_row :
    ApprovalDb
    → ℕ
    → RequestRow
    → Binding
    → String
    → ApprovalState
    → ApprovalDb × Option ApprovalError
resolve_row db now r b decision state =
    if not (is_pending r.state)
    then (db, some already_resolved)
    else if ltb r.expires_at now
    then (
      record db { requests = update_where (has_id r.id) expire_row db.requests },
      some ApprovalError.expired,
    )
    else if not (is_bound r b)
    then (db, some binding_mismatch)
    else if not (count_where (is_open r.id) db.requests == 1)
    then (db, some replay)
    else (
      audit
          (record db {
            requests = update_where (is_open r.id) (set_state state (some now)) db.requests;
          })
          (record {
            kind = "approval_resolved";
            user_id = b.user_id;
            resource = b.resource;
            decision = decision;
          }),
      none,
    )

unfoldable pub receipt_of : RequestRow → Receipt
receipt_of r = record {
  id = r.id;
  binding = record {
    user_id = r.user_id;
    tool = r.tool_name;
    args_hash = r.args_hash;
    resource = r.resource;
  };
  expires = r.expires_at;
}

pub data Authorized : Type 0 where
  granted : Receipt → Authorized
  refused : ApprovalError → Authorized

-- The rest of AuthorizeReceipt once the row of the token is found. The insertion fails where the
-- approval has a use, as approval_id is the primary key.
unfoldable pub use_row : ApprovalDb → ℕ → RequestRow → Binding → ApprovalDb × Authorized
use_row db now r b =
    if not (ltb now r.expires_at)
    then (db, refused ApprovalError.expired)
    else if not (is_approved r.state) || not (is_bound r b)
    then (db, refused not_authorized)
    else if exists_where (uses_id r.id) db.uses
    then (db, refused already_used)
    else (
      record db { uses = db.uses ++ record { approval_id = r.id; used_at = now } ∷ [] },
      granted (receipt_of r),
    )

module _ (hash : String → String) where
  unfoldable pub resolve :
      ApprovalDb → ℕ → String → Binding → String → ApprovalDb × Option ApprovalError
  resolve db now token b decision = elim (decided_state decision) [
    | none ↦ (db, some invalid_decision)
    | some state ↦ elim (find_request db (hash token)) [
      | none ↦ (db, some not_found)
      | some r ↦ resolve_row db now r b decision state
    ]
  ]

  -- The binding is read from the row, whose user has to be the caller.
  unfoldable pub resolve_token :
      ApprovalDb → ℕ → String → ℤ → String → ApprovalDb × Option ApprovalError
  resolve_token db now token user decision = elim (find_request db (hash token)) [
    | none ↦ (db, some not_found)
    | some r ↦
        if not (eq_ℤ r.user_id user)
        then (db, some binding_mismatch)
        else resolve db now token
            record {
              user_id = user;
              tool = r.tool_name;
              args_hash = r.args_hash;
              resource = r.resource;
            }
            decision
  ]

  unfoldable pub authorize_receipt : ApprovalDb → ℕ → String → Binding → ApprovalDb × Authorized
  authorize_receipt db now token b = elim (find_request db (hash token)) [
    | none ↦ (db, refused not_found)
    | some r ↦ use_row db now r b
  ]

  -- Authorize keeps only the error.
  unfoldable pub authorize : ApprovalDb → ℕ → String → Binding → ApprovalDb × Option ApprovalError
  authorize db now token b =
      let (after, outcome) = authorize_receipt db now token b in
      elim outcome [ granted receipt ↦ (after, none) | refused e ↦ (after, some e) ]
