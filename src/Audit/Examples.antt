-- ===== src/Audit/Examples.antt =====
-- A log of two entries.
use mosaid.Base.{◌≡◌, refl, String, none, List, [], ◌∷◌, ◌⊎◌, length}
use mosaid.Int.{pos}
use mosaid.Audit.{Entry, Payload, append, chained, verify}
use mosaid.Audit.Chain.{written, verify-written}
use mosaid.Audit.Tampering.{Collision, ordered, verify_unique}

-- A digest of payloads that differ in their resource.
abbrev digest : Payload → String
digest p = p.resource

abbrev entry : String → Entry
entry resource = record {
  seq = 0;
  at = "";
  kind = "approval_resolved";
  user_id = pos 7;
  resource = resource;
  decision = "approved";
  prev_hash = "";
  hash = "";
}

abbrev inputs : List (String × Entry)
inputs = ("now", entry "a") ∷ ("later", entry "b") ∷ []

abbrev log : List Entry
log = written digest [] inputs

verify-written_example : verify digest log ≡ none
verify-written_example = verify-written digest inputs

log_order : length (ordered digest log) ≡ 2
unfolding append chained
log_order = refl

verify_unique_example : (ordered digest log ≡ ordered digest log) ⊎ Collision digest
verify_unique_example =
    verify_unique digest log log verify-written_example verify-written_example refl refl
