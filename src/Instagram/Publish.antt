-- ===== src/Instagram/Publish.antt =====
-- Resume of internal/instagram/service.go: one attempt to publish a draft through the provider. The
-- artifacts, the stager, the Meta client and the sleeper are a parameter, with a state of their own;
-- each reading of the clock has its number. The database answers every statement, and what is
-- audited is kept in a list.
pub mod Settled
pub mod Examples
use mosaid.Base.{
  ℕ, zero, suc, ◌+◌, ◌*◌, String, Bool, true, false, ◌&&◌, ◌||◌, not, Option, none, some, List, [],
  ◌∷◌, ◌++◌, str_eq, ltb, if◌then◌else◌, codes,
}
use Prim.Native.String
use mosaid.Scheduler.Timestamps.{second, minute}
use mosaid.Instagram.{
  Draft, DraftDb, DraftError, no_rows, StagedMedia, Claimed, ready, unclaimed, is_published,
  is_authorized, find_draft, claim, save_staging, save_container, complete, fail, clear_staging,
}

pub record Artifact : Type 0 where
  pub id : String
  pub mime : String
  pub bytes : List ℕ
  pub sha256 : String

pub data ContainerStatus : Type 0 where
  in_progress finished error expired : ContainerStatus
  other : String → ContainerStatus

-- What the provider answers: a value, or an error with its text.
pub data Reply (A : Type 0) : Type 0 where
  got : A → Reply A
  refused : List ℕ → Reply A

pub record Provider (E : Type 0) : Type 0 where
  pub read : E → String → E × Reply Artifact
  pub stage : E → Artifact → ℕ → E × Reply StagedMedia
  pub create_container : E → String → String → String → String → E × Reply String
  pub container_status : E → String → E × Reply ContainerStatus
  pub sleep : E → E × Reply (Unit {0})
  pub publish_container : E → String → String → String → E × Reply String
  pub cleanup : E → String → E × Reply (Unit {0})

-- An audit entry, by its kind, its resource and its decision.
pub record Note : Type 0 where
  pub kind : String
  pub resource : String
  pub decision : String

pub record World (E : Type 0) : Type 0 where
  pub db : DraftDb
  pub env : E
  pub audited : List Note

-- An attempt goes on with the draft as it knows it, or stops with an error.
pub data Progress : Type 0 where
  proceeds : Draft → Progress
  stops : List ℕ → Progress

-- Go's `err != nil || value == ""` with the error that is kept.
abbrev pub nonempty : Reply String → String → Reply String
nonempty (refused e) instead = refused e
nonempty (got v) instead = if str_eq v "" then refused (codes instead) else got v

abbrev pub container_failed : String
container_failed = "instagram media container failed"

abbrev pub binding_mismatch : String
binding_mismatch = "instagram publish approval binding mismatch"

abbrev pub hour : ℕ
hour = 60 * minute

abbrev pub Attempt : Type 0 → Type 0
Attempt E = World E × Progress

-- draft.StagingID == "" || draft.StagingExpiresAt == nil || !now.Before(*draft.StagingExpiresAt)
abbrev pub is_staged : Draft → ℕ → Bool
is_staged d now = not (str_eq d.staging_id "") && is_authorized now d.staging_expires_at

-- The draft's identifier and its media, or why there is none.
pub data Resumed : Type 0 where
  published_before published_now : String → String → Resumed
  not_claimed : DraftError → Resumed
  attempt_failed : List ℕ → Resumed

module _ {E : Type 0} where
  abbrev pub and_then : Attempt E → (World E → Draft → Attempt E) → Attempt E
  and_then (w, stops e) step = (w, stops e)
  and_then (w, proceeds d) step = step w d

  abbrev pub record_note : World E → String → String → String → World E
  record_note w kind resource decision = record w {
    audited = w.audited ++ record { kind = kind; resource = resource; decision = decision } ∷ [];
  }

  abbrev pub with_env : World E → E → World E
  with_env w env = record w { env = env }

  module _ (p : Provider E) (valid_url : String → Bool) (clock : ℕ → ℕ) where
    -- media.ID != "" && media.ExpiresAt.After(now.Add(time.Minute)), and the tests on its URL
    abbrev pub valid_staged : StagedMedia → Bool
    valid_staged media =
        valid_url media.url && (not (str_eq media.id "") && ltb (clock 3 + minute) media.expires_at)

    unfoldable pub save_stage : World E → Draft → StagedMedia → Attempt E
    save_stage w d media =
        if not (valid_staged media) then (w, stops (codes "invalid staged media")) else (
          record w { db = save_staging w.db (clock 4) d.id media },
          proceeds record d {
            staging_id = media.id;
            staging_url = media.url;
            staging_expires_at = some media.expires_at;
          },
        )

    unfoldable pub stage_artifact : World E → Draft → Artifact → Attempt E
    stage_artifact w d artifact =
        let (env, reply) = p.stage w.env artifact (clock 2 + hour) in
        elim reply [
          | refused e ↦ (with_env w env, stops e)
          | got media ↦ save_stage (with_env w env) d media
        ]

    unfoldable pub stage_draft : World E → Draft → Attempt E
    stage_draft w d =
        if is_staged d (clock 1)
        then (w, proceeds d)
        else (let (env, reply) = p.read w.env d.artifact_id in
            elim reply [
              | refused e ↦ (with_env w env, stops e)
              | got artifact ↦ stage_artifact (with_env w env) d artifact
            ])

    unfoldable pub make_container : World E → Draft → Attempt E
    make_container w d =
        let (env, reply) =
          p.create_container w.env d.account_id d.staging_url d.caption
            (String.◌++◌ "instagram-container:" d.id) in
        elim (nonempty reply container_failed) [
          | refused e ↦ (with_env w env, stops e)
          | got container ↦ (
            record w { env = env; db = save_container w.db (clock 5) d.id container },
            proceeds record d { container_id = container },
          )
        ]

    unfoldable pub contain : World E → Draft → Attempt E
    contain w d = if str_eq d.container_id "" then make_container w d else (w, proceeds d)

    -- The loop over the polls that are left.
    unfoldable pub poll : ℕ → World E → Draft → Attempt E
    poll zero w d = (w, stops (codes "instagram container polling exhausted"))
    poll (suc n) w d =
        let (env, reply) = p.container_status w.env d.container_id in
        elim reply [
          | refused e ↦ (with_env w env, stops e)
          | got status ↦ elim status [
            | finished ↦ (with_env w env, proceeds d)
            | in_progress ↦
                let (slept, woke) = p.sleep env in
                elim woke [
                  | refused e ↦ (with_env w slept, stops e)
                  | got u ↦ poll n (with_env w slept) d
                ]
            | error ↦ (with_env w env, stops (codes container_failed))
            | expired ↦ (with_env w env, stops (codes container_failed))
            | other s ↦ (with_env w env, stops (codes container_failed))
          ]
        ]

    -- The draft is read again: it has to be authorized still.
    unfoldable pub reauthorize : World E → Draft → Attempt E
    reauthorize w d = elim (find_draft w.db d.id) [
      | none ↦ (w, stops (codes "sql: no rows in result set"))
      | some current ↦
          if is_authorized (clock 6) current.authorized_until
          then (w, proceeds d)
          else (w, stops (codes binding_mismatch))
    ]

    unfoldable pub finish : World E → Draft → String → Attempt E
    finish w d media =
        let (db, e) = complete w.db (clock 7) d.id media in
        elim e [
          | some x ↦ (record w { db = db }, stops (codes "draft completion state mismatch"))
          | none ↦ (record w { db = db }, proceeds record d { media_id = media })
        ]

    unfoldable pub publish : World E → Draft → Attempt E
    publish w d =
        let (env, reply) =
          p.publish_container w.env d.account_id d.container_id
            (String.◌++◌ "instagram-publish:" d.id) in
        elim (nonempty reply container_failed) [
          | refused e ↦ (with_env w env, stops e)
          | got media ↦ finish (with_env w env) d media
        ]

    unfoldable pub run_attempt : ℕ → World E → Draft → Attempt E
    run_attempt max_polls w d =
        and_then
          (and_then (and_then (and_then (stage_draft w d) contain) (poll max_polls)) reauthorize)
          publish

    -- What the attempt on the claimed draft `c` leaves: an error fails the draft, a success cleans up.
    unfoldable pub close : Draft → Attempt E → World E × Resumed
    close c (w, stops e) = (
      record_note (record w { db = (fail w.db (clock 8) c.id (some e)).0 }) "instagram_publish"
          c.account_id "failed",
      attempt_failed e,
    )
    close c (w, proceeds d) =
        let (env, cleaned) = p.cleanup w.env d.staging_id in
        let tidy : World E = elim cleaned [
          | got u ↦ record w { env = env; db = clear_staging w.db (clock 9) d.id }
          | refused e ↦
              record_note (with_env w env) "instagram_staging_cleanup" c.account_id "deferred"
        ] in
        (
          record_note tidy "instagram_publish" c.account_id "published_mock_or_external",
          published_now d.id d.media_id,
        )

    unfoldable pub resume_claim : ℕ → World E → DraftDb × Claimed → World E × Resumed
    resume_claim max_polls w (db, unclaimed e) = (record w { db = db }, not_claimed e)
    resume_claim max_polls w (db, ready c) =
        close c (run_attempt max_polls (record w { db = db }) c)

    unfoldable pub resume : ℕ → World E → String → World E × Resumed
    resume max_polls w id = elim (find_draft w.db id) [
      | none ↦ (w, not_claimed no_rows)
      | some d ↦
          if is_published d.state
          then (w, published_before d.id d.media_id)
          else resume_claim max_polls w (claim w.db (clock 0) id)
    ]
