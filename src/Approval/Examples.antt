-- ===== src/Approval/Examples.antt =====
-- A request that is created, approved or denied, and used.
use mosaid.Base.{ℕ, ◌≡◌, refl, String, none, List, []}
use mosaid.Int.{pos}
use mosaid.Approval.{
  ApprovalDb, Binding, Receipt, granted, refused, ApprovalError, create, resolve, authorize_receipt,
  decided_state, audit, resolve_row, is_bound, set_state, use_row, receipt_of,
}
use mosaid.Approval.Single.{empty}
use mosaid.Approval.Steps.{Step, Reach}
use mosaid.Approval.Phases.{Move, phase, waiting, allowed}
use mosaid.Approval.Refinement.{Step-Move}
use mosaid.Approval.Uses.{
  Grants, Decided, authorize_receipt-Grants, authorizes_once, resolve-stands, denied-refused,
}

abbrev encode : List ℕ → String
encode drawn = "token"

abbrev hash : String → String
hash s = s

abbrev id_of : List ℕ → String
id_of drawn = "id"

abbrev owner : Binding
owner = record { user_id = pos 7; tool = "mcp.call"; args_hash = "abc"; resource = "mail" }

abbrev asked : ApprovalDb
asked = (create encode hash id_of empty 10 [] owner (pos 60)).0

abbrev settled : ApprovalDb
settled = (resolve hash asked 20 "token" owner "approved").0

abbrev used : ApprovalDb
used = (authorize_receipt hash settled 30 "token" owner).0

abbrev receipt : Receipt
receipt = record { id = "id"; binding = owner; expires = 70 }

abbrev Way : ApprovalDb → ApprovalDb → Type 0
Way = Reach encode hash id_of

to_asked : Way empty asked
to_asked = Reach.next Reach.here (Step.creates 10 [] owner (pos 60))

to_settled : Way empty settled
to_settled = Reach.next to_asked (Step.resolves 20 "token" owner "approved")

grants : (authorize_receipt hash settled 30 "token" owner).1 ≡ granted receipt
unfolding create resolve authorize_receipt decided_state audit resolve_row is_bound set_state
    use_row receipt_of
grants = refl

resolves : (resolve hash asked 20 "token" owner "approved").1 ≡ none
unfolding create resolve decided_state audit resolve_row is_bound
resolves = refl

denies : (resolve hash asked 20 "token" owner "denied").1 ≡ none
unfolding create resolve decided_state audit resolve_row is_bound
denies = refl

authorize_receipt-Grants_example : Grants settled 30 "token" owner used receipt
authorize_receipt-Grants_example =
    authorize_receipt-Grants hash settled 30 "token" owner receipt grants

authorizes_once_example :
    (e : ApprovalError) × (authorize_receipt hash used 40 "token" owner ≡ (used, refused e))
authorizes_once_example =
    authorizes_once encode hash id_of 30 40 "token" owner owner receipt to_settled grants Reach.here

resolve-stands_example : Decided used "token" "approved" 20
resolve-stands_example =
    resolve-stands encode hash id_of 20 "token" owner "approved" to_asked resolves
      (Reach.next Reach.here (Step.authorizes 30 "token" owner))

abbrev denied_db : ApprovalDb
denied_db = (resolve hash asked 20 "token" owner "denied").0

denied-refused_example :
    (e : ApprovalError) × (authorize_receipt hash denied_db 40 "token" owner
      ≡ (denied_db, refused e))
denied-refused_example =
    denied-refused encode hash id_of 20 40 "token" owner owner to_asked denies Reach.here

Step-Move_example : Move (phase asked "token") (phase settled "token")
Step-Move_example =
    Step-Move encode hash id_of "token" to_asked (Step.resolves 20 "token" owner "approved")

phases : (phase asked "token" ≡ waiting) × (phase settled "token" ≡ allowed)
unfolding phase create resolve decided_state audit resolve_row is_bound set_state
phases = (refl, refl)
