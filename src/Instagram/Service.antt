-- ===== src/Instagram/Service.antt =====
-- internal/instagram/service.go around an attempt: the preparation of a draft, the request for its
-- approval, the publication with a token, and the removal of staged media. The JSON text of a
-- binding with its SHA-256, the text of a time, and what Artifacts.Read gives are parameters. What is
-- audited here is kept in the world, and what the approvals audit in their tables.
pub mod Approved
pub mod Drafted
pub mod Examples
use mosaid.Base.{
  ◌-◌, ◌+◌, ◌*◌, ℕ, String, Bool, true, false, ◌&&◌, ◌||◌, not, Option, none, some, List, [], ◌∷◌,
  str_eq, ltb, leb, ◌==◌, length, codes, exists_where, if◌then◌else◌, delete_where,
}
use mosaid.Int.{ℤ, pos, pos_part, eq_ℤ, ltb_ℤ, leb_ℤ}
use mosaid.Approval
use mosaid.Approval.{
  ApprovalDb, ApprovalError, Binding, Receipt, Authorized, granted, authorize_receipt,
}
use mosaid.Scheduler.Timestamps.{minute, day, sql_le}
use mosaid.Skills.Names.{is_digit, all_in}
use mosaid.Skills.Text.{same_codes, byte_length, trim_space}
use mosaid.Instagram
use mosaid.Instagram.{
  Draft, DraftDb, DraftError, no_rows, PrepareRequest, Prepared, created, find_draft,
  mark_authorized, clear_staging, is_publishing,
}
use mosaid.Instagram.Publish.{
  Provider, World, Reply, got, Resumed, resume, record_note, with_env, hour,
}

pub record PublishBinding : Type 0 where
  pub draft_id : String
  pub account_id : String
  pub asset_hash : String
  pub caption_hash : String
  pub publish_at : String

-- The numbers that a service is set up with.
pub record ServiceLimits : Type 0 where
  pub owner_id : ℤ
  pub poll_interval : ℤ
  pub max_polls : ℤ

pub data Published : Type 0 where
  unavailable binding_refused : Published
  draft_refused : DraftError → Published
  resumed : Resumed → Published

pub data Requested : Type 0 where
  not_requested : Requested
  no_draft : Requested
  requested : Approval.Request → Option ApprovalError → Requested

pub data Preparation : Type 0 where
  invalid_draft no_service : Preparation
  stored : Prepared → Preparation

-- validateDependencies, of a service that is wired.
unfoldable pub valid_service : ServiceLimits → Bool
valid_service s =
    not (eq_ℤ s.owner_id (pos 0))
    && (ltb_ℤ (pos 0) s.poll_interval
        && (leb_ℤ s.poll_interval (pos minute)
            && (leb_ℤ (pos 1) s.max_polls && leb_ℤ s.max_polls (pos 60))))

-- ^[0-9]{1,64}$
abbrev pub account_pattern : String → Bool
account_pattern s =
    leb 1 (length (codes s)) && (leb (length (codes s)) 64 && all_in is_digit (codes s))

abbrev pub has_zero : List ℕ → Bool
has_zero cs = exists_where (λ c. c == 0) cs

-- The texts of a request, their lengths in bytes but that of the caption, which is in characters.
unfoldable pub valid_texts : PrepareRequest → Bool
valid_texts r =
    account_pattern r.account_id
    && (byte_length (codes r.artifact_id) == 64
        && (same_codes (trim_space (codes r.caption)) (codes r.caption)
            && (not (str_eq r.caption "")
                && (leb (length (codes r.caption)) 2200 && not (has_zero (codes r.caption))))))

-- From a minute before now to 75 days after it.
unfoldable pub valid_publish_at : ℕ → ℕ → Bool
valid_publish_at now t =
    not (t == 0) && (not (ltb t (now - minute)) && not (ltb (now + 75 * day) t))

abbrev pub valid_creation_key : String → Bool
valid_creation_key key =
    not (str_eq key "") && (leb (byte_length (codes key)) 256 && not (has_zero (codes key)))

abbrev pub attempts_or_default : ℤ → ℤ
attempts_or_default n = if eq_ℤ n (pos 0) then pos 3 else n

abbrev pub valid_attempts : ℤ → Bool
valid_attempts n = leb_ℤ (pos 1) n && leb_ℤ n (pos 10)

unfoldable pub valid_prepare : ℕ → PrepareRequest → Bool
valid_prepare now r =
    valid_texts r
    && (valid_publish_at now r.publish_at
        && (valid_creation_key r.creation_key
            && valid_attempts (attempts_or_default r.max_attempts)))

-- staging_id<>'' AND staging_expires_at<=? AND state<>'publishing'
abbrev pub staging_expired : ℕ → Option ℕ → Bool
staging_expired now none = false
staging_expired now (some t) = sql_le t now

abbrev pub is_expired_staging : ℕ → Draft → Bool
is_expired_staging now d =
    not (str_eq d.staging_id "")
    && (staging_expired now d.staging_expires_at && not (is_publishing d.state))

abbrev pub expired_staging : DraftDb → ℕ → List Draft
expired_staging db now = delete_where (λ d. not (is_expired_staging now d)) db.drafts

abbrev pub publish_tool : String
publish_tool = "instagram.publish"

module _ (format_time : ℕ → String) (args_hash : PublishBinding → String) where
  abbrev pub binding_for : Draft → PublishBinding
  binding_for d = record {
    draft_id = d.id;
    account_id = d.account_id;
    asset_hash = d.asset_hash;
    caption_hash = d.caption_hash;
    publish_at = format_time d.publish_at;
  }

  abbrev pub same_binding : PublishBinding → PublishBinding → Bool
  same_binding a b =
      str_eq a.draft_id b.draft_id
      && (str_eq a.account_id b.account_id
          && (str_eq a.asset_hash b.asset_hash
              && (str_eq a.caption_hash b.caption_hash && str_eq a.publish_at b.publish_at)))

  -- What an approval of the draft is bound to.
  abbrev pub approval_of : ℤ → Draft → Binding
  approval_of user d = record {
    user_id = user;
    tool = publish_tool;
    args_hash = args_hash (binding_for d);
    resource = d.account_id;
  }

  unfoldable pub is_authorized_by : ServiceLimits → ℕ → Draft → PublishBinding → Receipt → Bool
  is_authorized_by s now d b receipt =
      same_binding b (binding_for d)
      && (eq_ℤ receipt.binding.user_id s.owner_id
          && (str_eq receipt.binding.tool publish_tool
              && (str_eq receipt.binding.resource d.account_id
                  && (str_eq receipt.binding.args_hash (args_hash b) && ltb now receipt.expires))))

  -- A draft that is new is audited.
  abbrev pub note_prepared : {E : Type 0} → World E → Prepared → World E
  note_prepared w (created d) = record_note w "instagram_prepare" d.account_id "prepared"
  note_prepared w _ = w

  -- Artifacts.Read gives the hash of the artifact that it verifies, or an error.
  unfoldable pub prepare :
      {E : Type 0}
      → (String → String → String)
      → (String → Option String)
      → (String → String)
      → ServiceLimits
      → World E
      → ℕ
      → PrepareRequest
      → World E × Preparation
  prepare id_of read_hash hash s w now r =
      if not (valid_service s)
      then (w, no_service)
      else if not (valid_prepare now r)
      then (w, invalid_draft)
      else elim (read_hash r.artifact_id) [
        | none ↦ (w, invalid_draft)
        | some found ↦
            if not (str_eq found r.artifact_id)
            then (w, invalid_draft)
            else (let asked = record r { max_attempts = attempts_or_default r.max_attempts } in
                let (db, made) = Instagram.create id_of w.db now asked found (hash r.caption) in
                (note_prepared (record w { db = db }) made, stored made))
      ]

  -- An approval is asked for at most a day; `none` is a service without approvals.
  unfoldable pub request_approval :
      (List ℕ → String)
      → (String → String)
      → (List ℕ → String)
      → DraftDb
      → Option ApprovalDb
      → ℕ
      → List ℕ
      → String
      → ℤ
      → ℤ
      → Option ApprovalDb × Requested
  request_approval encode hash id_of db none now drawn id user ttl = (none, not_requested)
  request_approval encode hash id_of db (some approvals) now drawn id user ttl =
      if leb_ℤ ttl (pos 0) || ltb_ℤ (pos (24 * hour)) ttl
      then (some approvals, not_requested)
      else elim (find_draft db id) [
        | none ↦ (some approvals, no_draft)
        | some d ↦
            let made =
              Approval.create encode hash id_of approvals now drawn (approval_of user d) ttl in
            (some made.0, requested made.1.0 made.1.1)
      ]

  module _ {E : Type 0} (p : Provider E) (valid_url : String → Bool) (clock : ℕ → ℕ)
      (s : ServiceLimits) where
    -- Resume, with the limits that it checks first.
    unfoldable pub resume_draft : World E → String → World E × Published
    resume_draft w id =
        if not (valid_service s)
        then (w, unavailable)
        else (let (after, result) = resume p valid_url clock (pos_part s.max_polls) w id in
            (after, resumed result))

    -- The draft is marked as authorized and published. The readings of the clock go on from those of
    -- an attempt.
    unfoldable pub publish_marked : World E → Draft → Receipt → World E × Published
    publish_marked w d receipt =
        let (db, e) = mark_authorized w.db (clock 10) d.id receipt.expires in
        elim e [
          | some x ↦ (record w { db = db }, draft_refused x)
          | none ↦
              resume_draft
                (record_note (record w { db = db }) "instagram_publish_approval" d.account_id
                  "authorized")
                d.id
        ]

    unfoldable pub publish_approved : World E → PublishBinding → Receipt → World E × Published
    publish_approved w b receipt =
        if not (valid_service s) then (w, unavailable) else elim (find_draft w.db b.draft_id) [
          | none ↦ (w, draft_refused no_rows)
          | some d ↦
              if not (is_authorized_by s (clock 11) d b receipt)
              then (w, binding_refused)
              else publish_marked w d receipt
        ]

    -- By what AuthorizeReceipt gives.
    unfoldable pub publish_by : World E → PublishBinding → Authorized → World E × Published
    publish_by w b (Approval.refused e) = (w, binding_refused)
    publish_by w b (granted receipt) = publish_approved w b receipt

    unfoldable pub publish_with_approvals :
        (String → String)
        → World E
        → ApprovalDb
        → String
        → ℤ
        → String
        → ApprovalDb × (World E × Published)
    publish_with_approvals hash w approvals id user token = elim (find_draft w.db id) [
      | none ↦ (approvals, (w, draft_refused no_rows))
      | some d ↦
          let (after, answer) =
            authorize_receipt hash approvals (clock 12) token (approval_of user d) in
          (after, publish_by w (binding_for d) answer)
    ]

    -- Nothing is published by a service without approvals.
    unfoldable pub publish_with_token :
        (String → String)
        → World E
        → Option ApprovalDb
        → String
        → ℤ
        → String
        → Option ApprovalDb × (World E × Published)
    publish_with_token hash w none id user token = (none, (w, binding_refused))
    publish_with_token hash w (some approvals) id user token =
        let (after, result) = publish_with_approvals hash w approvals id user token in
        (some after, result)

    -- The loop over the drafts whose staged media have expired, up to the first error.
    unfoldable pub cleanup_drafts : World E → List Draft → World E × Bool
    cleanup_drafts w [] = (w, true)
    cleanup_drafts w (d ∷ ds) =
        let (env, answer) = p.cleanup w.env d.staging_id in
        elim answer [
          | Reply.refused e ↦ (with_env w env, false)
          | got u ↦
              cleanup_drafts (record w { env = env; db = clear_staging w.db (clock 13) d.id }) ds
        ]

    unfoldable pub cleanup_expired : World E → World E × Bool
    cleanup_expired w = cleanup_drafts w (expired_staging w.db (clock 14))
