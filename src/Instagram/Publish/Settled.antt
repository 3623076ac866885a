-- ===== src/Instagram/Publish/Settled.antt =====
-- An attempt of internal/instagram/service.go on a claimed draft ends it: published or failed.
use mosaid.Base.{
  ◌+◌, ℕ, zero, suc, ◌≡◌, ◌∙◌, refl, ap, subst, String, Bool, false, Option, none, some, List, [],
  ◌∷◌, arith, str_eq, eq_iff, ◌==◌, Bool-cases, Option-cases, inl, inr, ◌⊎◌, count_where,
  first_where, first_where-passes, count_where-update_zero, count_where-update_same,
}
use mosaid.Instagram.{
  Draft, DraftDb, StagedMedia, ready, is_published, is_draft, publishes, find_draft, claim,
  start_draft, complete, publish_draft, fail, fail_draft, clear_staging, unstage_draft,
  insert_event, is_authorized,
}
use Prim.Native.String
use mosaid.Instagram.Due.{claim-IsDue}
use mosaid.Instagram.Publish.{
  Provider, World, Attempt, proceeds, stops, Reply, got, refused, and_then, nonempty,
  container_failed, is_staged, valid_staged, save_stage, stage_artifact, stage_draft,
  make_container, contain, poll, reauthorize, finish, publish, run_attempt, close, resume_claim,
  resume, ContainerStatus, in_progress, finished, error, expired, other, Artifact, hour,
}

-- No draft of this identifier is being published.
abbrev pub IsSettled : DraftDb → String → Type 0
IsSettled db id = count_where (publishes id) db.drafts ≡ 0

first_where-count {ℓ} :
    {A : Type ℓ} (p : A → Bool) (xs : List A) → first_where p xs ≡ none → count_where p xs ≡ 0
first_where-count p [] h = refl
first_where-count p (x ∷ xs) h = ground (arith, first_where-count p xs)

fail-IsSettled :
    (db : DraftDb) (now : ℕ) (id : String) (e : Option (List ℕ)) → IsSettled (fail db now id e).0 id
unfolding fail fail_draft insert_event
fail-IsSettled db now id e = elim (Option-cases (first_where (publishes id) db.drafts)) [
  | inl n ↦ rw (n, fail) (first_where-count (publishes id) db.drafts n)
  | inr (d, s) ↦
      rw (s, fail)
        (count_where-update_zero (publishes id) (publishes id) (fail_draft _ _ now)
          (λ x t. ground arith) (λ x t. t) db.drafts)
]

complete-IsSettled :
    (db : DraftDb) (now : ℕ) (id media : String)
    → (complete db now id media).1 ≡ none
    → IsSettled (complete db now id media).0 id
unfolding complete publish_draft insert_event
complete-IsSettled db now id media n =
    elim (Bool-cases (count_where (publishes id) db.drafts == 1)) [
      | inr e ↦ let no = rw e at n in cc
      | inl e ↦ rw e (
          count_where-update_zero (publishes id) (publishes id) (publish_draft media now)
            (λ x t. ground arith) (λ x t. t) db.drafts)
    ]

clear_staging-IsSettled :
    (db : DraftDb) (now : ℕ) (id of : String)
    → IsSettled db id
    → IsSettled (clear_staging db now of) id
unfolding clear_staging unstage_draft
clear_staging-IsSettled db now id of h =
    count_where-update_same (publishes id) (is_draft of) (unstage_draft now) (λ x t. refl) db.drafts
    ∙ h

Reply-cases :
    {A : Type 0} (r : Reply A) → ((a : A) × (r ≡ got a)) ⊎ ((e : List ℕ) × (r ≡ refused e))
Reply-cases (got a) = inl (a, refl)
Reply-cases (refused e) = inr (e, refl)

module _ {E : Type 0} where
  -- An attempt that goes on is at the draft `id`.
  abbrev Names : String → Attempt E → Type 0
  Names id (w, stops e) = Unit
  Names id (w, proceeds d) = d.id ≡ id

  -- It went on to the end: nothing of this identifier is being published.
  abbrev Done : String → Attempt E → Type 0
  Done id (w, stops e) = Unit
  Done id (w, proceeds d) = (d.id ≡ id) × IsSettled w.db id

  and_then-Names :
      (id : String) (a : Attempt E) (step : World E → Draft → Attempt E)
      → ((w : World E) (d : Draft) → d.id ≡ id → Names id (step w d))
      → Names id a
      → Names id (and_then a step)
  and_then-Names id (w, stops e) step k n = tt
  and_then-Names id (w, proceeds d) step k n = k w d n

  and_then-Done :
      (id : String) (a : Attempt E) (step : World E → Draft → Attempt E)
      → ((w : World E) (d : Draft) → d.id ≡ id → Done id (step w d))
      → Names id a
      → Done id (and_then a step)
  and_then-Done id (w, stops e) step k n = tt
  and_then-Done id (w, proceeds d) step k n = k w d n

  module _ (p : Provider E) (valid_url : String → Bool) (clock : ℕ → ℕ) (id : String) where
    save_stage-Names :
        (w : World E) (d : Draft) (media : StagedMedia)
        → d.id ≡ id
        → Names id (save_stage p valid_url clock w d media)
    unfolding save_stage
    save_stage-Names w d media h = elim (Bool-cases (valid_staged p valid_url clock media)) [
      | inl e ↦ rw e h
      | inr e ↦ rw e tt
    ]

    stage_artifact-Names :
        (w : World E) (d : Draft) (a : Artifact)
        → d.id ≡ id
        → Names id (stage_artifact p valid_url clock w d a)
    unfolding stage_artifact
    stage_artifact-Names w d a h = elim (Reply-cases (p.stage w.env a (clock 2 + hour)).1) [
      | inl (media, e) ↦ rw (e, stage_artifact) (save_stage-Names _ d media h)
      | inr (x, e) ↦ rw (e, stage_artifact) tt
    ]

    stage_draft-Names :
        (w : World E) (d : Draft) → d.id ≡ id → Names id (stage_draft p valid_url clock w d)
    unfolding stage_draft
    stage_draft-Names w d h = elim (Bool-cases (is_staged d (clock 1))) [
      | inl t ↦ rw t h
      | inr t ↦ rw t (elim (Reply-cases (p.read w.env d.artifact_id).1) [
        | inl (a, e) ↦ rw (e, stage_draft) (stage_artifact-Names _ d a h)
        | inr (x, e) ↦ rw (e, stage_draft) tt
      ])
    ]

    make_container-Names :
        (w : World E) (d : Draft) → d.id ≡ id → Names id (make_container p valid_url clock w d)
    unfolding make_container
    make_container-Names w d h =
        elim (Reply-cases (
          nonempty
            (p.create_container w.env d.account_id d.staging_url d.caption
              (String.◌++◌ "instagram-container:" d.id)).1
            container_failed)) [
              | inl (c, e) ↦ rw (e, make_container) h
              | inr (x, e) ↦ rw (e, make_container) tt
            ]

    contain-Names : (w : World E) (d : Draft) → d.id ≡ id → Names id (contain p valid_url clock w d)
    unfolding contain
    contain-Names w d h = elim (Bool-cases (str_eq d.container_id "")) [
      | inl t ↦ rw t (make_container-Names w d h)
      | inr t ↦ rw t h
    ]

    polled-Names :
        (n : ℕ) (w : World E) (d : Draft) (status : ContainerStatus)
        → d.id ≡ id
        → (p.container_status w.env d.container_id).1 ≡ got status
        → ((u : World E) → Names id (poll p valid_url clock n u d))
        → Names id (poll p valid_url clock (suc n) w d)
    unfolding poll
    polled-Names n w d finished h e k = rw (e, poll) h
    polled-Names n w d error h e k = rw (e, poll) tt
    polled-Names n w d expired h e k = rw (e, poll) tt
    polled-Names n w d (other s) h e k = rw (e, poll) tt
    polled-Names n w d in_progress h e k =
        elim (Reply-cases (p.sleep (p.container_status w.env d.container_id).0).1) [
          | inl (u, f) ↦ rw (e, poll, f) (k _)
          | inr (x, f) ↦ rw (e, poll, f) tt
        ]

    poll-Names :
        (n : ℕ) (w : World E) (d : Draft) → d.id ≡ id → Names id (poll p valid_url clock n w d)
    unfolding poll
    poll-Names zero w d h = tt
    poll-Names (suc n) w d h = elim (Reply-cases (p.container_status w.env d.container_id).1) [
      | inl (status, e) ↦ polled-Names n w d status h e (λ u. poll-Names n u d h)
      | inr (x, e) ↦ rw (e, poll) tt
    ]

    reauthorize-Names :
        (w : World E) (d : Draft) → d.id ≡ id → Names id (reauthorize p valid_url clock w d)
    unfolding reauthorize
    reauthorize-Names w d h = elim (Option-cases (find_draft w.db d.id)) [
      | inl e ↦ rw (e, reauthorize) tt
      | inr (c, e) ↦ elim (Bool-cases (is_authorized (clock 6) c.authorized_until)) [
        | inl t ↦ rw (e, reauthorize, t) h
        | inr t ↦ rw (e, reauthorize, t) tt
      ]
    ]

    finish-Done :
        (w : World E) (d : Draft) (media : String)
        → d.id ≡ id
        → Done id (finish p valid_url clock w d media)
    unfolding finish
    finish-Done w d media h = elim (Option-cases (complete w.db (clock 7) d.id media).1) [
      | inl e ↦
          rw (e, finish)
            (
              h,
              subst (IsSettled (complete w.db (clock 7) d.id media).0) h
                  (complete-IsSettled w.db (clock 7) d.id media e),
            )
      | inr (x, e) ↦ rw (e, finish) tt
    ]

    publish-Done : (w : World E) (d : Draft) → d.id ≡ id → Done id (publish p valid_url clock w d)
    unfolding publish
    publish-Done w d h =
        elim (Reply-cases (
          nonempty
            (p.publish_container w.env d.account_id d.container_id
              (String.◌++◌ "instagram-publish:" d.id)).1
            container_failed)) [
              | inl (m, e) ↦ rw (e, publish) (finish-Done _ d m h)
              | inr (x, e) ↦ rw (e, publish) tt
            ]

    run_attempt-Done :
        (n : ℕ) (w : World E) (d : Draft)
        → d.id ≡ id
        → Done id (run_attempt p valid_url clock n w d)
    unfolding run_attempt
    run_attempt-Done n w d h = and_then-Done id _ (publish p valid_url clock) publish-Done (
        and_then-Names id _ (reauthorize p valid_url clock) reauthorize-Names (
          and_then-Names id _ (poll p valid_url clock n) (poll-Names n) (
            and_then-Names id _ (contain p valid_url clock) contain-Names
              (stage_draft-Names w d h))))

    close-IsSettled :
        (c : Draft) (a : Attempt E)
        → c.id ≡ id
        → Done id a
        → IsSettled (close p valid_url clock c a).0.db id
    unfolding close
    close-IsSettled c (w, stops e) h t =
        subst (IsSettled (fail w.db (clock 8) c.id (some e)).0) h
          (fail-IsSettled w.db (clock 8) c.id (some e))
    close-IsSettled c (w, proceeds d) h t = elim (Reply-cases (p.cleanup w.env d.staging_id).1) [
      | inl (u, e) ↦ rw (e, close) (clear_staging-IsSettled w.db (clock 9) id d.id t.1)
      | inr (x, e) ↦ rw (e, close) t.1
    ]

claim-id :
    (db : DraftDb) (now : ℕ) (id : String) (d c : Draft)
    → find_draft db id ≡ some d
    → is_published d.state ≡ false
    → (claim db now id).1 ≡ ready c
    → c.id ≡ id
unfolding start_draft
claim-id db now id d c f n h =
    let due = claim-IsDue db now id d c f n h in
    let own : d.id ≡ id = (eq_iff d.id id).0 (first_where-passes (is_draft id) db.drafts d f) in
    ap (λ (x : Draft). x.id) due.started ∙ own

-- An attempt ends what it claimed: when Resume claims a draft that is not published, then whatever
-- the provider answers, at the first error or after all its calls, no draft of this identifier is
-- being published any more.
pub resume-IsSettled :
    {E : Type 0} (p : Provider E) (valid_url : String → Bool) (clock : ℕ → ℕ) (n : ℕ) (w : World E)
    (id : String) (d c : Draft)
    → find_draft w.db id ≡ some d
    → is_published d.state ≡ false
    → (claim w.db (clock 0) id).1 ≡ ready c
    → IsSettled (resume p valid_url clock n w id).0.db id
unfolding resume resume_claim
resume-IsSettled p valid_url clock n w id d c f u h =
    let own = claim-id w.db (clock 0) id d c f u h in
    let claimed : claim w.db (clock 0) id ≡ ((claim w.db (clock 0) id).0, ready c) =
      λ i. ((claim w.db (clock 0) id).0, h i) in
    rw (f, resume, u, claimed, resume_claim)
      (close-IsSettled p valid_url clock id c _ own
        (run_attempt-Done p valid_url clock id n _ c own))
