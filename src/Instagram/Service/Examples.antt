-- ===== src/Instagram/Service/Examples.antt =====
-- An approved draft that is published with its token, and a post that is prepared.
use mosaid.Base.{false, not, ◌&&◌, ℕ, ◌≡◌, ◌⊎◌, refl, String, true, Option, none, some, [], ◌∷◌}
use mosaid.Int.{pos, negsuc}
use mosaid.Approval.{ApprovalDb, approved}
use mosaid.Instagram.{PrepareRequest}
use mosaid.Instagram.Publish.{World, published_now}
use mosaid.Instagram.Publish.Examples.{meta, world}
use mosaid.Instagram.Service.{
  PublishBinding, ServiceLimits, Published, resumed, binding_refused, valid_service, valid_prepare,
  prepare, publish_with_token,
}
use mosaid.Instagram.Service.Drafted.{is_accepted, is_taken, Stores, prepare-IsDrafted}
use mosaid.Instagram.Service.Approved.{IsApproved, publish_with_token-IsApproved}

abbrev format_time : ℕ → String
format_time t = "time"

abbrev args_hash : PublishBinding → String
args_hash b = b.asset_hash

abbrev hash : String → String
hash s = s

abbrev limits : ServiceLimits
limits = record { owner_id = pos 7; poll_interval = pos 1; max_polls = pos 3 }

abbrev approvals : ApprovalDb
approvals = record {
  requests =
      record {
        id = "id";
        token_hash = "token";
        user_id = pos 7;
        tool_name = "instagram.publish";
        args_hash = "a";
        resource = "me";
        expires_at = 900;
        state = approved;
        created_at = 100;
        resolved_at = none;
      }
      ∷ [];
  uses = [];
  audited = [];
}

abbrev result : Option ApprovalDb × (World ℕ × Published)
result =
    publish_with_token format_time args_hash meta (λ u. true) (λ k. 200) limits hash world
      (some approvals) "draft" (pos 7) "token"

publish_with_token-IsApproved_example :
    (result.1.0.env ≡ 0)
    ⊎ IsApproved format_time args_hash
        (λ k. 200)
        limits
        hash
        world
        (some approvals)
        result.0
        "draft"
        (pos 7)
        "token"
publish_with_token-IsApproved_example =
    publish_with_token-IsApproved format_time args_hash meta (λ u. true) (λ k. 200) limits hash
      world (some approvals) "draft" (pos 7) "token"

-- The media is published, so the second case is the one that holds.
published : result.1.1 ≡ resumed (published_now "draft" "media")
unfolding publish_with_token mosaid.Instagram.Service.publish_with_approvals
    mosaid.Instagram.Service.publish_by mosaid.Instagram.Service.publish_approved
    mosaid.Instagram.Service.valid_service mosaid.Instagram.Service.is_authorized_by
    mosaid.Instagram.Service.publish_marked mosaid.Instagram.Service.resume_draft
    mosaid.Approval.authorize_receipt mosaid.Approval.use_row mosaid.Approval.is_bound
    mosaid.Approval.receipt_of mosaid.Instagram.Publish.resume mosaid.Instagram.Publish.resume_claim
    mosaid.Instagram.Publish.close mosaid.Instagram.Publish.contain mosaid.Instagram.Publish.finish
    mosaid.Instagram.Publish.make_container mosaid.Instagram.Publish.poll
    mosaid.Instagram.Publish.publish mosaid.Instagram.Publish.reauthorize
    mosaid.Instagram.Publish.run_attempt mosaid.Instagram.Publish.save_stage
    mosaid.Instagram.Publish.stage_artifact mosaid.Instagram.Publish.stage_draft
    mosaid.Instagram.mark_authorized mosaid.Instagram.authorize_draft mosaid.Instagram.claim
    mosaid.Instagram.claim_draft mosaid.Instagram.clear_staging mosaid.Instagram.complete
    mosaid.Instagram.contain_draft mosaid.Instagram.insert_event mosaid.Instagram.publish_draft
    mosaid.Instagram.save_container mosaid.Instagram.save_staging mosaid.Instagram.stage_draft
    mosaid.Instagram.start_draft mosaid.Instagram.unstage_draft
published = refl

abbrev request : PrepareRequest
request = record {
  account_id = "1234";
  artifact_id = "0123456789abcdef0123456789abcdef0123456789abcdef0123456789abcdef";
  caption = "hello";
  publish_at = 600;
  creation_key = "post:2";
  max_attempts = pos 0;
}

prepare-IsDrafted_example :
    Stores format_time args_hash
      (λ a k. k)
      some
      hash
      limits
      (is_accepted some limits 500 request && not (is_taken world.db "post:2" "post:2"))
      world
      500
      request
      (prepare format_time args_hash (λ a k. k) some hash limits world 500 request)
prepare-IsDrafted_example =
    prepare-IsDrafted format_time args_hash (λ a k. k) some hash limits world 500 request

-- The request can be stored, and one with a negative number of attempts is not valid.
storable : is_accepted some limits 500 request ≡ true
unfolding valid_service valid_prepare mosaid.Instagram.Service.valid_texts
    mosaid.Instagram.Service.valid_publish_at mosaid.Skills.Text.trim_space
storable = refl

negative : valid_prepare 500 (record request { max_attempts = negsuc 0 }) ≡ false
unfolding valid_prepare mosaid.Instagram.Service.valid_texts
    mosaid.Instagram.Service.valid_publish_at mosaid.Skills.Text.trim_space
negative = refl

-- A service without approvals publishes nothing.
unwired :
    publish_with_token format_time args_hash meta
      (λ u. true)
      (λ k. 200)
      limits
      hash
      world
      none
      "draft"
      (pos 7)
      "token"
    ≡ (none, (world, binding_refused))
unfolding publish_with_token
unwired = refl
