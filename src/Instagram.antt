-- ===== src/Instagram.antt =====
-- internal/instagram/store.go: the drafts of posts and their way to publication. A method runs one
-- transaction on the tables below; the database answers every statement. SHA-256 is a parameter, and
-- times are numbers of nanoseconds.
pub mod Attempts
pub mod Published
pub mod Due
pub mod Publish
pub mod Service
pub mod Examples
use mosaid.Base.{
  ℕ, suc, ◌+◌, ◌-◌, ◌*◌, ◌^◌, String, Bool, true, false, ◌&&◌, ◌||◌, not, Option, none, some, List,
  [], ◌∷◌, ◌++◌, map, str_eq, ltb, leb, ◌==◌, if◌then◌else◌, update_where, exists_where,
  first_where, count_where, take, codes,
}
use mosaid.Scheduler.Timestamps.{second, sql_le}
use mosaid.Int.{ℤ, pos_part}

pub data DraftState : Type 0 where
  prepared publishing failed published cancelled : DraftState

-- A row of instagram_drafts, and the Draft that is read from it.
pub record Draft : Type 0 where
  pub id : String
  pub account_id : String
  pub artifact_id : String
  pub asset_hash : String
  pub caption : String
  pub caption_hash : String
  pub publish_at : ℕ
  pub state : DraftState
  pub container_id : String
  pub media_id : String
  pub staging_id : String
  pub staging_url : String
  pub staging_expires_at : Option ℕ
  pub creation_key : String
  pub attempts : ℕ
  pub max_attempts : ℕ
  pub available_at : ℕ
  pub authorized_until : Option ℕ
  pub last_error : List ℕ
  pub created_at : ℕ
  pub updated_at : ℕ

pub record PrepareRequest : Type 0 where
  pub account_id : String
  pub artifact_id : String
  pub caption : String
  pub publish_at : ℕ
  pub creation_key : String
  pub max_attempts : ℤ

pub record StagedMedia : Type 0 where
  pub id : String
  pub url : String
  pub expires_at : ℕ

-- The detail of an event: empty, `attempt=` with a number, or the text of an error.
pub data Detail : Type 0 where
  nothing : Detail
  attempt : ℕ → Detail
  failure : List ℕ → Detail

-- A row of instagram_publish_events, less its time.
pub record Event : Type 0 where
  pub draft_id : String
  pub kind : String
  pub provider_ref : String
  pub detail : Detail

pub record DraftDb : Type 0 where
  pub drafts : List Draft
  pub events : List Event

pub data DraftError : Type 0 where
  conflict constraint no_rows approval_binding not_claimable retry_exhausted not_due : DraftError
  claim_race state_mismatch : DraftError

abbrev pub is_publishing : DraftState → Bool
is_publishing publishing = true
is_publishing _ = false

abbrev pub is_published : DraftState → Bool
is_published published = true
is_published _ = false

-- state IN('prepared','failed')
abbrev pub is_claimable : DraftState → Bool
is_claimable prepared = true
is_claimable failed = true
is_claimable _ = false

abbrev pub is_draft : String → Draft → Bool
is_draft id d = str_eq d.id id

abbrev pub has_creation_key : String → Draft → Bool
has_creation_key key d = str_eq d.creation_key key

abbrev pub claims : String → Draft → Bool
claims id d = is_draft id d && is_claimable d.state

-- WHERE id=? AND state='publishing'
abbrev pub publishes : String → Draft → Bool
publishes id d = is_draft id d && is_publishing d.state

abbrev pub find_draft : DraftDb → String → Option Draft
find_draft db id = first_where (is_draft id) db.drafts

unfoldable pub insert_event : DraftDb → String → String → String → Detail → DraftDb
insert_event db id kind ref detail = record db {
  events =
      db.events ++ record { draft_id = id; kind = kind; provider_ref = ref; detail = detail } ∷ [];
}

unspaced : ℕ → ℕ
unspaced c = if c == 10 then 32 else c

-- An error's text on one line, cut at 500 bytes; `none` is the nil error.
unfoldable pub safe_error : Option (List ℕ) → List ℕ
unfolding unspaced
safe_error none = []
safe_error (some e) = take 500 (map unspaced e)

-- The request is the one that the draft was created for.
unfoldable pub same_request : Draft → PrepareRequest → String → String → Bool
same_request d r asset_hash caption_hash =
    str_eq d.account_id r.account_id
    && (str_eq d.artifact_id r.artifact_id
        && (str_eq d.asset_hash asset_hash
            && (str_eq d.caption_hash caption_hash && d.publish_at == r.publish_at)))

-- The number of attempts below 0, which the table's CHECK refuses, stands as 0, which it refuses too.
unfoldable pub new_draft : String → PrepareRequest → String → String → ℕ → Draft
new_draft id r asset_hash caption_hash now = record {
  id = id;
  account_id = r.account_id;
  artifact_id = r.artifact_id;
  asset_hash = asset_hash;
  caption = r.caption;
  caption_hash = caption_hash;
  publish_at = r.publish_at;
  state = prepared;
  container_id = "";
  media_id = "";
  staging_id = "";
  staging_url = "";
  staging_expires_at = none;
  creation_key = r.creation_key;
  attempts = 0;
  max_attempts = pos_part r.max_attempts;
  available_at = r.publish_at;
  authorized_until = none;
  last_error = [];
  created_at = now;
  updated_at = now;
}

pub data Prepared : Type 0 where
  existing created : Draft → Prepared
  refused : DraftError → Prepared

-- CHECK(max_attempts BETWEEN 1 AND 10), and the primary key.
unfoldable pub insert_draft : DraftDb → Draft → DraftDb × Prepared
insert_draft db d =
    if not (leb 1 d.max_attempts && leb d.max_attempts 10) || exists_where (is_draft d.id) db.drafts
    then (db, refused constraint)
    else (
      insert_event (record db { drafts = db.drafts ++ d ∷ [] }) d.id "prepared" "" nothing,
      created d,
    )

-- `id_of` is the identifier that the account and the creation key give.
unfoldable pub create :
    (String → String → String) → DraftDb → ℕ → PrepareRequest → String → String → DraftDb × Prepared
create id_of db now r asset_hash caption_hash =
    elim (first_where (has_creation_key r.creation_key) db.drafts) [
      | some d ↦
          if same_request d r asset_hash caption_hash
          then (db, existing d)
          else (db, refused conflict)
      | none ↦
          insert_draft db
            (new_draft (id_of r.account_id r.creation_key) r asset_hash caption_hash now)
    ]

unfoldable pub authorize_draft : ℕ → ℕ → Draft → Draft
authorize_draft expires now d = record d { authorized_until = some expires; updated_at = now }

unfoldable pub mark_authorized : DraftDb → ℕ → String → ℕ → DraftDb × Option DraftError
mark_authorized db now id expires = (
  record db { drafts = update_where (claims id) (authorize_draft expires now) db.drafts },
  if count_where (claims id) db.drafts == 1 then none else some approval_binding,
)

pub data Claimed : Type 0 where
  ready : Draft → Claimed
  unclaimed : DraftError → Claimed

-- Authorized until a later time.
abbrev pub is_authorized : ℕ → Option ℕ → Bool
is_authorized now none = false
is_authorized now (some until) = ltb now until

unfoldable pub start_draft : ℕ → Draft → Draft
start_draft now d = record d { state = publishing; attempts = suc d.attempts; updated_at = now }

-- The rest of Claim once the row is found.
unfoldable pub claim_draft : DraftDb → ℕ → String → Draft → DraftDb × Claimed
claim_draft db now id d =
    if is_published d.state
    then (db, ready d)
    else if not (is_claimable d.state)
    then (db, unclaimed not_claimable)
    else if leb d.max_attempts d.attempts
    then (db, unclaimed retry_exhausted)
    else if not (is_authorized now d.authorized_until)
    then (db, unclaimed approval_binding)
    else if ltb now d.publish_at || ltb now d.available_at
    then (db, unclaimed not_due)
    else if not (count_where (claims id) db.drafts == 1)
    then (db, unclaimed claim_race)
    else (
      insert_event (record db { drafts = update_where (claims id) (start_draft now) db.drafts }) id
          "claimed" "" (attempt (suc d.attempts)),
      ready (start_draft now d),
    )

unfoldable pub claim : DraftDb → ℕ → String → DraftDb × Claimed
claim db now id = elim (find_draft db id) [
  | none ↦ (db, unclaimed no_rows)
  | some d ↦ claim_draft db now id d
]

unfoldable pub stage_draft : StagedMedia → ℕ → Draft → Draft
stage_draft media now d = record d {
  staging_id = media.id;
  staging_url = media.url;
  staging_expires_at = some media.expires_at;
  updated_at = now;
}

-- The event is written even where no draft is publishing.
unfoldable pub save_staging : DraftDb → ℕ → String → StagedMedia → DraftDb
save_staging db now id media =
    insert_event
      (record db { drafts = update_where (publishes id) (stage_draft media now) db.drafts }) id
      "media_staged" media.id nothing

unfoldable pub contain_draft : String → ℕ → Draft → Draft
contain_draft container now d = record d { container_id = container; updated_at = now }

unfoldable pub save_container : DraftDb → ℕ → String → String → DraftDb
save_container db now id container =
    insert_event
      (record db { drafts = update_where (publishes id) (contain_draft container now) db.drafts })
      id "container_created" container nothing

unfoldable pub publish_draft : String → ℕ → Draft → Draft
publish_draft media now d = record d {
  state = published;
  media_id = media;
  last_error = [];
  updated_at = now;
}

unfoldable pub complete : DraftDb → ℕ → String → String → DraftDb × Option DraftError
complete db now id media =
    if count_where (publishes id) db.drafts == 1
    then (
      insert_event
          (record db { drafts = update_where (publishes id) (publish_draft media now) db.drafts })
          id "published" media nothing,
      none,
    )
    else (db, some state_mismatch)

-- 1<<min(attempts-1, 6) seconds: Go panics on the shift by -1, which 0 attempts would be.
abbrev pub retry_delay : ℕ → ℕ
retry_delay attempts = 2 ^ (if ltb (attempts - 1) 6 then attempts - 1 else 6) * second

unfoldable pub fail_draft : ℕ → List ℕ → ℕ → Draft → Draft
fail_draft available summary now d = record d {
  state = failed;
  available_at = available;
  last_error = summary;
  updated_at = now;
}

unfoldable pub fail : DraftDb → ℕ → String → Option (List ℕ) → DraftDb × Option DraftError
fail db now id cause = elim (first_where (publishes id) db.drafts) [
  | none ↦ (db, some no_rows)
  | some d ↦ (
    insert_event
        (record db {
          drafts =
              update_where (publishes id)
                (fail_draft (now + retry_delay d.attempts) (safe_error cause) now) db.drafts;
        })
        id "failed" "" (failure (safe_error cause)),
    none,
  )
]

-- WHERE state='publishing'
abbrev pub interrupted : Draft → Bool
interrupted d = is_publishing d.state

-- With the number of drafts that were being published.
unfoldable pub recover : DraftDb → ℕ → DraftDb × ℕ
recover db now = (
  record db {
    drafts =
        update_where interrupted (fail_draft now (codes "recovered interrupted publish") now)
          db.drafts;
  },
  count_where interrupted db.drafts,
)

unfoldable pub unstage_draft : ℕ → Draft → Draft
unstage_draft now d = record d {
  staging_id = "";
  staging_url = "";
  staging_expires_at = none;
  updated_at = now;
}

unfoldable pub clear_staging : DraftDb → ℕ → String → DraftDb
clear_staging db now id = record db {
  drafts = update_where (is_draft id) (unstage_draft now) db.drafts;
}
