-- ===== src/Registry/Approved.antt =====
-- Which calls of internal/tools/registry.go reach a handler.
use mosaid.Base.{
  ℕ, ◌≡◌, refl, String, Bool, true, Option, some, List, str_eq, Bool-cases, Option-cases, inl, inr,
  ◌⊎◌, first_where,
}
use mosaid.Policy.{Tool, Decision, evaluate}
use mosaid.Approval.{ApprovalDb, Receipt, Authorized, granted, refused, authorize_receipt}
use mosaid.Registry.{
  Call, Services, runs, is_named, binding_of, ask, use_token, by_receipt, approve, decide, charge,
  execute,
}

by_receipt-runs :
    (o : Authorized) (r : Option Receipt)
    → by_receipt o ≡ runs r
    → (receipt : Receipt) × (o ≡ granted receipt) × (r ≡ some receipt)
by_receipt-runs (granted receipt) r k = (receipt, refl, cc)
by_receipt-runs (refused e) r k = cc

-- The approval that stands behind a receipt: one given for the call's own binding.
pub record IsApproved {F : Type 0} (hash : String → String) (args_hash : List ℕ → String)
    (s : Services F) (now : ℕ) (q : Call) (r : Option Receipt) : Type 0 where
  pub db : ApprovalDb
  pub approvals : s.approvals ≡ some db
  pub receipt : Receipt
  pub given :
      (authorize_receipt hash db now q.approval_token (binding_of args_hash q)).1 ≡ granted receipt
  pub passed : r ≡ some receipt

module _ {F : Type 0} (zero_cost : F) (add : F → F → F) (exceeds : F → F → Bool)
    (is_usable is_limit : F → Bool) (encode : List ℕ → String) (hash : String → String)
    (id_of : List ℕ → String) (args_hash : List ℕ → String) where
  approve-runs :
      (s : Services F) (db : ApprovalDb) (now : ℕ) (drawn : List ℕ) (q : Call) (r : Option Receipt)
      → s.approvals ≡ some db
      → (approve zero_cost add exceeds is_usable is_limit encode hash id_of args_hash s db now drawn
          q).1
        ≡ runs r
      → IsApproved hash args_hash s now q r
  unfolding approve ask use_token
  approve-runs s db now drawn q r a h = elim (Bool-cases (str_eq q.approval_token "")) [
    | inl e ↦ let no = rw e at h in cc
    | inr e ↦
        let (receipt, given, passed) = by_receipt-runs _ r (rw e at h) in
        record { db = db; approvals = a; receipt = receipt; given = given; passed = passed }
  ]

  decide-runs :
      (s : Services F) (now : ℕ) (drawn : List ℕ) (q : Call) (d : Decision) (r : Option Receipt)
      → (decide zero_cost add exceeds is_usable is_limit encode hash id_of args_hash s now drawn q
          d).1
        ≡ runs r
      → (d.allowed ≡ true) ⊎ IsApproved hash args_hash s now q r
  unfolding decide
  decide-runs s now drawn q d r h = elim (Bool-cases d.allowed) [
    | inl e ↦ inl e
    | inr e ↦ elim (Bool-cases d.needs_approval) [
      | inr n ↦ let no = rw (e, n) at h in cc
      | inl n ↦ elim (Option-cases s.approvals) [
        | inl a ↦ let no = rw (e, n, a) at h in cc
        | inr (db, a) ↦ inr (approve-runs s db now drawn q r a (rw (e, n, a) at h))
      ]
    ]
  ]

  charge_approvals :
      (s : Services F)
      → (charge zero_cost add exceeds is_usable is_limit encode hash id_of args_hash s).0.approvals
        ≡ s.approvals
  unfolding charge
  charge_approvals s = elim (Option-cases s.budget) [
    | inl e ↦ rw (e, charge) refl
    | inr (b, e) ↦ rw (e, charge) refl
  ]

  -- A handler is called only for a registered tool that the policy allows in the call's mode without
  -- approval, or with a receipt that the approvals gave for the call's token, bound to its user,
  -- its tool, the hash of its arguments and its resource.
  pub execute-runs :
      (s : Services F) (now : ℕ) (drawn : List ℕ) (q : Call) (r : Option Receipt)
      → (execute zero_cost add exceeds is_usable is_limit encode hash id_of args_hash s now drawn
          q).1
        ≡ runs r
      → (t : Tool) × (first_where (is_named q.name) s.tools ≡ some t)
        × (((evaluate t q.mode).allowed ≡ true) ⊎ IsApproved hash args_hash s now q r)
  unfolding execute
  execute-runs s now drawn q r h = elim (Option-cases (first_where (is_named q.name) s.tools)) [
    | inl e ↦ let no = rw (e, execute) at h in cc
    | inr (t, e) ↦
        let charged =
          charge zero_cost add exceeds is_usable is_limit encode hash id_of args_hash s in
        elim (Bool-cases charged.1) [
          | inr o ↦ let no = rw (e, execute, o) at h in cc
          | inl o ↦ (
            t,
            e,
            elim (decide-runs charged.0 now drawn q (evaluate t q.mode) r
                (rw (e, execute, o) at h)) [
                  | inl a ↦ inl a
                  | inr g ↦ inr record {
                    db = g.db;
                    approvals = rw (charge_approvals s) at g.approvals;
                    receipt = g.receipt;
                    given = g.given;
                    passed = g.passed;
                  }
                ],
          )
        ]
  ]
