-- ===== src/Instagram/Examples.antt =====
-- A draft that is prepared, authorized, claimed and published.
use mosaid.Base.{◌≡◌, refl, String, none, some, [], ◌∷◌, All}
use mosaid.Int.{pos}
use mosaid.Instagram.{
  Draft, DraftDb, PrepareRequest, ready, prepared, publishing, published, create, claim,
  claim_draft, start_draft, clear_staging,
}
use mosaid.Instagram.Attempts.{IsWell}
use mosaid.Instagram.Published.{empty, Step, Reach, Stays, Reach-IsWell, Reach-Stays}
use mosaid.Instagram.Due.{IsDue, claim-IsDue}

abbrev id_of : String → String → String
id_of account key = "draft"

abbrev request : PrepareRequest
request = record {
  account_id = "me";
  artifact_id = "art";
  caption = "hello";
  publish_at = 100;
  creation_key = "k";
  max_attempts = pos 3;
}

abbrev base : Draft
base = record {
  id = "draft";
  account_id = "me";
  artifact_id = "art";
  asset_hash = "a";
  caption = "hello";
  caption_hash = "c";
  publish_at = 100;
  state = prepared;
  container_id = "";
  media_id = "";
  staging_id = "";
  staging_url = "";
  staging_expires_at = none;
  creation_key = "k";
  attempts = 0;
  max_attempts = 3;
  available_at = 100;
  authorized_until = some 500;
  last_error = [];
  created_at = 10;
  updated_at = 20;
}

abbrev authorized : DraftDb
authorized = record { drafts = base ∷ []; events = [] }

abbrev begun : Draft
begun = record base { state = publishing; attempts = 1; updated_at = 200 }

begins : (claim authorized 200 "draft").1 ≡ ready begun
unfolding claim claim_draft start_draft
begins = refl

claim-IsDue_example : IsDue 200 "draft" (claim authorized 200 "draft").0 base begun
claim-IsDue_example = claim-IsDue authorized 200 "draft" base begun refl refl begins

Reach-IsWell_example :
    All IsWell (claim (create id_of empty 10 request "a" "c").0 200 "draft").0.drafts
Reach-IsWell_example =
    Reach-IsWell id_of (
      Reach.next (Reach.next Reach.here (Step.creates 10 request "a" "c"))
        (Step.starts 200 "draft"))

abbrev posted : Draft
posted = record begun { state = published; media_id = "m"; updated_at = 300 }

abbrev done : DraftDb
done = record { drafts = posted ∷ []; events = [] }

Reach-Stays_example : Stays (clear_staging (claim done 400 "draft").0 410 "draft") "draft" posted
Reach-Stays_example =
    Reach-Stays id_of "draft" posted refl refl
      (Reach.next (Reach.next Reach.here (Step.starts 400 "draft")) (Step.clears 410 "draft"))
