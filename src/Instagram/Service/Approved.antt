-- ===== src/Instagram/Service/Approved.antt =====
-- What internal/instagram/service.go publishes with a token is approved by the owner.
use mosaid.Base.{
  ℕ, ◌<◌, ◌≡◌, ◌⊎◌, refl, String, Bool, true, some, arith, Bool-cases, Option-cases, Option, none,
  inl, inr,
}
use mosaid.Int.{ℤ, eq_ℤ}
use mosaid.Approval
use mosaid.Approval.{ApprovalDb, Receipt, Authorized, granted, authorize_receipt}
use mosaid.Approval.Uses.{Grants, authorize_receipt-Grants}
use mosaid.Instagram.{Draft, find_draft}
use mosaid.Instagram.Publish.{Provider, World}
use mosaid.Instagram.Service.{
  PublishBinding, ServiceLimits, valid_service, binding_for, approval_of, is_authorized_by,
  publish_approved, publish_by, publish_with_approvals, publish_with_token,
}

-- The owner approved the draft, as it stands in `w`: the token's receipt is given now for the draft's
-- binding, and records its use in `after`.
pub record IsApproved {E : Type 0} (format_time : ℕ → String) (args_hash : PublishBinding → String)
    (clock : ℕ → ℕ) (s : ServiceLimits) (hash : String → String) (w : World E)
    (approvals after : Option ApprovalDb) (id : String) (user : ℤ) (token : String) : Type 0 where
  pub draft : Draft
  pub found : find_draft w.db id ≡ some draft
  pub receipt : Receipt
  pub before_use : ApprovalDb
  pub after_use : ApprovalDb
  pub wired : approvals ≡ some before_use
  pub recorded : after ≡ some after_use
  pub grants :
      Grants before_use
        (clock 12)
        (hash token)
        (approval_of format_time args_hash user draft)
        after_use
        receipt
  pub owner : eq_ℤ receipt.binding.user_id s.owner_id ≡ true
  pub in_time : clock 11 < receipt.expires

Authorized-cases :
    (a : Authorized)
    → ((r : Receipt) × (a ≡ granted r)) ⊎ ((e : Approval.ApprovalError) × (a ≡ Approval.refused e))
Authorized-cases (granted r) = inl (r, refl)
Authorized-cases (Approval.refused e) = inr (e, refl)

module _ (format_time : ℕ → String) (args_hash : PublishBinding → String) {E : Type 0}
    (p : Provider E) (valid_url : String → Bool) (clock : ℕ → ℕ) (s : ServiceLimits) where
  -- The provider is left alone, or the receipt is the owner's and in time.
  publish_approved-owner :
      (w : World E) (b : PublishBinding) (receipt : Receipt)
      → ((publish_approved format_time args_hash p valid_url clock s w b receipt).0.env ≡ w.env)
        ⊎ ((eq_ℤ receipt.binding.user_id s.owner_id ≡ true) × (clock 11 < receipt.expires))
  unfolding publish_approved is_authorized_by
  publish_approved-owner w b receipt = elim (Bool-cases (valid_service s)) [
    | inr v ↦ inl (rw (v, publish_approved) refl)
    | inl v ↦ elim (Option-cases (find_draft w.db b.draft_id)) [
      | inl f ↦ inl (rw (v, publish_approved, f) refl)
      | inr (d, f) ↦
          elim (Bool-cases (is_authorized_by format_time args_hash s (clock 11) d b receipt)) [
            | inr a ↦ inl (rw (v, publish_approved, f, a) refl)
            | inl a ↦ inr (ground arith, ground arith)
          ]
    ]
  ]

  -- Publishing with a token leaves the provider as it is, so that nothing is staged, contained or
  -- published, or the service has approvals and the token carries the owner's approval of the draft
  -- as it stands: an approved,
  -- unexpired and unused request for this user, the tool instagram.publish, the draft's own binding
  -- and its account, whose use is recorded.
  pub publish_with_token-IsApproved :
      (hash : String → String) (w : World E) (approvals : Option ApprovalDb) (id : String)
      (user : ℤ) (token : String)
      → let result =
          publish_with_token format_time args_hash p valid_url clock s hash w approvals id user
            token in
        (result.1.0.env ≡ w.env)
        ⊎ IsApproved format_time args_hash clock s hash w approvals result.0 id user token
  unfolding publish_with_token publish_with_approvals publish_by
  publish_with_token-IsApproved hash w none id user token = inl refl
  publish_with_token-IsApproved hash w (some approvals) id user token =
      elim (Option-cases (find_draft w.db id)) [
        | inl f ↦ inl (rw (f, publish_with_approvals) refl)
        | inr (d, f) ↦
            let bound = approval_of format_time args_hash user d in
            let answer = authorize_receipt hash approvals (clock 12) token bound in
            elim (Authorized-cases answer.1) [
              | inr (e, a) ↦ inl (rw (f, publish_with_approvals, a, publish_by) refl)
              | inl (receipt, a) ↦
                  let grants =
                    authorize_receipt-Grants hash approvals (clock 12) token bound receipt a in
                  elim (publish_approved-owner w (binding_for format_time args_hash d) receipt) [
                    | inl same ↦ inl (rw (f, publish_with_approvals, a, publish_by) same)
                    | inr own ↦ inr (
                        rw (f, publish_with_approvals)
                          record {
                            draft = d;
                            found = f;
                            receipt = receipt;
                            before_use = approvals;
                            after_use = (authorize_receipt hash approvals (clock 12) token bound).0;
                            wired = refl;
                            recorded = refl;
                            grants = grants;
                            owner = own.0;
                            in_time = own.1;
                          })
                  ]
            ]
      ]
