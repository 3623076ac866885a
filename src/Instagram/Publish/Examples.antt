-- ===== src/Instagram/Publish/Examples.antt =====
-- A provider whose container is ready at the second look, and the attempt of a draft with it.
use mosaid.Base.{ℕ, zero, suc, true, ◌≡◌, refl, none, some, [], ◌∷◌}
use mosaid.Instagram.{Draft, DraftDb, ready, prepared, publishing, claim, claim_draft, start_draft}
use mosaid.Instagram.Publish.{
  Provider, World, got, finished, in_progress, resume, published_now, run_attempt, close,
  resume_claim, stage_draft, stage_artifact, save_stage, contain, make_container, poll, reauthorize,
  publish, finish,
}
use mosaid.Instagram.Publish.Settled.{IsSettled, resume-IsSettled}

abbrev pub base : Draft
base = record {
  id = "draft";
  account_id = "me";
  artifact_id = "art";
  asset_hash = "a";
  caption = "hello";
  caption_hash = "c";
  publish_at = 100;
  state = prepared;
  container_id = "";
  media_id = "";
  staging_id = "";
  staging_url = "";
  staging_expires_at = none;
  creation_key = "k";
  attempts = 0;
  max_attempts = 3;
  available_at = 100;
  authorized_until = some 500;
  last_error = [];
  created_at = 10;
  updated_at = 20;
}

abbrev begun : Draft
begun = record base { state = publishing; attempts = 1; updated_at = 200 }

-- The state of the provider is the number of looks at the container.
abbrev pub meta : Provider ℕ
meta = record {
  read = λ e a. (e, got (record { id = a; mime = "image/png"; bytes = 1 ∷ []; sha256 = "a" }));
  stage = λ e a until. (e, got (record { id = "st"; url = "https://x"; expires_at = until }));
  create_container = λ e account url caption key. (e, got "container");
  container_status = λ e c. elim e [ zero ↦ (1, got in_progress) | suc n ↦ (1, got finished) ];
  sleep = λ e. (e, got tt);
  publish_container = λ e account c key. (e, got "media");
  cleanup = λ e s. (e, got tt);
}

abbrev pub world : World ℕ
world = record { db = record { drafts = base ∷ []; events = [] }; env = 0; audited = [] }

begins : (claim world.db 200 "draft").1 ≡ ready begun
unfolding claim claim_draft start_draft
begins = refl

resume-IsSettled_example :
    IsSettled (resume meta (λ u. true) (λ k. 200) 3 world "draft").0.db "draft"
resume-IsSettled_example =
    resume-IsSettled meta (λ u. true) (λ k. 200) 3 world "draft" base begun refl refl begins

published : (resume meta (λ u. true) (λ k. 200) 3 world "draft").1 ≡ published_now "draft" "media"
unfolding resume resume_claim run_attempt close stage_draft stage_artifact save_stage contain
    make_container poll reauthorize publish finish claim claim_draft start_draft
    mosaid.Instagram.save_container mosaid.Instagram.insert_event mosaid.Instagram.save_staging
    mosaid.Instagram.stage_draft mosaid.Instagram.contain_draft mosaid.Instagram.complete
published = refl
