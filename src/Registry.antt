-- ===== src/Registry.antt =====
-- internal/tools/registry.go: the registration of tools, and which calls reach a handler. The map of
-- tools is a list by name. A handler is a parameter that runs after what is modelled: the outcome
-- `runs` says that it is called, with the receipt that it is given.
pub mod Approved
pub mod Examples
use mosaid.Base.{
  ℕ, ◌*◌, String, Bool, true, false, ◌&&◌, not, Option, none, some, List, [], ◌∷◌, ◌++◌, str_eq,
  if◌then◌else◌, exists_where, first_where,
}
use mosaid.Int.{ℤ, pos}
use mosaid.Policy
use mosaid.Policy.{Mode, Tool, Decision, Reason, evaluate, validate}
use mosaid.Approval
use mosaid.Approval.{
  ApprovalDb, Binding, Receipt, ApprovalError, Authorized, granted, refused, authorize_receipt,
}
use mosaid.Budget.{Budget, tool, use_budget}
use mosaid.Scheduler.Timestamps.{minute}

pub data RegisterError : Type 0 where
  invalid : Policy.Invalid → RegisterError
  handler_required duplicate_tool : RegisterError

abbrev pub is_named : String → Tool → Bool
is_named name t = str_eq t.name name

-- `handler` says whether the handler is there.
unfoldable pub register : List Tool → Tool → Bool → List Tool × Option RegisterError
register tools t handler = elim (validate t) [
  | some e ↦ (tools, some (invalid e))
  | none ↦
      if not handler
      then (tools, some handler_required)
      else if exists_where (is_named t.name) tools
      then (tools, some duplicate_tool)
      else (tools ++ t ∷ [], none)
]

pub record Call : Type 0 where
  pub name : String
  pub arguments : List ℕ
  pub mode : Mode
  pub user_id : ℤ
  pub resource : String
  pub approval_token : String

-- What the registry uses: its tools, the approvals, which may be missing, and the execution's budget,
-- which may be missing too.
pub record Services (F : Type 0) : Type 0 where
  pub tools : List Tool
  pub approvals : Option ApprovalDb
  pub budget : Option (Budget F)

pub data Outcome : Type 0 where
  not_registered budget_exceeded approval_unavailable : Outcome
  policy_denied : Decision → Outcome
  asked : Approval.Request → Option ApprovalError → Outcome
  not_authorized : ApprovalError → Outcome
  runs : Option Receipt → Outcome

-- What an approval of the call is bound to, with the hash of its arguments.
abbrev pub binding_of : (List ℕ → String) → Call → Binding
binding_of args_hash q = record {
  user_id = q.user_id;
  tool = q.name;
  args_hash = args_hash q.arguments;
  resource = q.resource;
}

abbrev pub by_receipt : Authorized → Outcome
by_receipt (granted receipt) = runs (some receipt)
by_receipt (refused e) = not_authorized e

module _ {F : Type 0} (zero_cost : F) (add : F → F → F) (exceeds : F → F → Bool)
    (is_usable is_limit : F → Bool) (encode : List ℕ → String) (hash : String → String)
    (id_of : List ℕ → String) (args_hash : List ℕ → String) where
  -- A call without a token asks for an approval of five minutes.
  unfoldable pub ask : Services F → ApprovalDb → ℕ → List ℕ → Call → Services F × Outcome
  ask s db now drawn q =
      let made =
        Approval.create encode hash id_of db now drawn (binding_of args_hash q)
          (pos (5 * minute)) in
      (record s { approvals = some made.0 }, asked made.1.0 made.1.1)

  -- A call with a token uses the approval up.
  unfoldable pub use_token : Services F → ApprovalDb → ℕ → Call → Services F × Outcome
  use_token s db now q =
      let used = authorize_receipt hash db now q.approval_token (binding_of args_hash q) in
      (record s { approvals = some used.0 }, by_receipt used.1)

  unfoldable pub approve : Services F → ApprovalDb → ℕ → List ℕ → Call → Services F × Outcome
  approve s db now drawn q =
      if str_eq q.approval_token "" then ask s db now drawn q else use_token s db now q

  unfoldable pub decide : Services F → ℕ → List ℕ → Call → Decision → Services F × Outcome
  decide s now drawn q d =
      if not d.allowed && not d.needs_approval
      then (s, policy_denied d)
      else if not d.needs_approval
      then (s, runs none)
      else elim s.approvals [
        | none ↦ (s, approval_unavailable)
        | some db ↦ approve s db now drawn q
      ]

  -- With whether the budget allows one more tool call.
  unfoldable pub charge : Services F → Services F × Bool
  charge s = elim s.budget [
    | none ↦ (s, true)
    | some b ↦
        let (after, ok) = use_budget zero_cost add exceeds is_usable is_limit b tool in
        (record s { budget = some after }, ok)
  ]

  unfoldable pub execute : Services F → ℕ → List ℕ → Call → Services F × Outcome
  execute s now drawn q = elim (first_where (is_named q.name) s.tools) [
    | none ↦ (s, not_registered)
    | some t ↦
        let (charged, ok) = charge s in
        if not ok
        then (charged, budget_exceeded)
        else decide charged now drawn q (evaluate t q.mode)
  ]
