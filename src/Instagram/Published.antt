-- ===== src/Instagram/Published.antt =====
-- Every sequence of the transactions of internal/instagram/store.go: the attempts of a draft stay
-- within their limit, and what is published stays published.
use mosaid.Base.{
  ℕ, ◌≡◌, ◌∙◌, refl, String, Bool, true, false, Option, some, List, [], arith, ◌==◌, Bool-cases,
  Option-cases, inl, inr, update_where, count_where, first_where, first_where-update,
  first_where-append, first_where-passes, All-update, All, str_eq, codes, ap,
}
use mosaid.Instagram.{
  Draft, DraftDb, PrepareRequest, StagedMedia, is_published, is_draft, claims, publishes,
  interrupted, insert_event, create, mark_authorized, authorize_draft, claim, save_staging,
  stage_draft, save_container, contain_draft, complete, publish_draft, fail, fail_draft, recover,
  clear_staging, unstage_draft, find_draft,
}
use mosaid.Instagram.Attempts.{
  IsWell, Kept, Moves, stays, adds, moves, Moves-IsWell, plain_move, claims_unpublished,
  publishes_unpublished, create-Moves, claim_draft-Moves,
}

abbrev pub empty : DraftDb
empty = record { drafts = []; events = [] }

-- One transaction, with whatever arguments and clock reading.
pub data Step (id_of : String → String → String) (db : DraftDb) : DraftDb → Type 0 where
  creates :
      (now : ℕ) (r : PrepareRequest) (asset_hash caption_hash : String)
      → Step id_of db (create id_of db now r asset_hash caption_hash).0
  authorizes :
      (now : ℕ) (id : String) (expires : ℕ) → Step id_of db (mark_authorized db now id expires).0
  starts : (now : ℕ) (id : String) → Step id_of db (claim db now id).0
  stages :
      (now : ℕ) (id : String) (media : StagedMedia) → Step id_of db (save_staging db now id media)
  contains : (now : ℕ) (id container : String) → Step id_of db (save_container db now id container)
  completes : (now : ℕ) (id media : String) → Step id_of db (complete db now id media).0
  fails : (now : ℕ) (id : String) (cause : Option (List ℕ)) → Step id_of db (fail db now id cause).0
  recovers : (now : ℕ) → Step id_of db (recover db now).0
  clears : (now : ℕ) (id : String) → Step id_of db (clear_staging db now id)

pub data Reach (id_of : String → String → String) (db : DraftDb) : DraftDb → Type 0 where
  here : Reach id_of db db
  next : {a b : DraftDb} → Reach id_of db a → Step id_of a b → Reach id_of db b

claim-Moves : (db : DraftDb) (now : ℕ) (id : String) → Moves db.drafts (claim db now id).0.drafts
unfolding claim
claim-Moves db now id = elim (Option-cases (find_draft db id)) [
  | inl e ↦ rw (e, claim) stays
  | inr (d, e) ↦
      rw (e, claim)
        (claim_draft-Moves db now id d e (first_where-passes (is_draft id) db.drafts d e))
]

failed_move :
    (q : Draft → Bool) (available now : ℕ) (summary : List ℕ) (rows : List Draft)
    → ((x : Draft) → q x ≡ true → is_published x.state ≡ false)
    → Moves rows (update_where q (fail_draft available summary now) rows)
unfolding fail_draft
failed_move q available now summary rows n =
    plain_move q (fail_draft available summary now) rows (λ x. refl) n
      (λ x t w. (w.0, w.1, w.2, λ h. absurd (ground arith)))

complete-Moves :
    (db : DraftDb) (now : ℕ) (id media : String)
    → Moves db.drafts (complete db now id media).0.drafts
unfolding complete insert_event publish_draft
complete-Moves db now id media = elim (Bool-cases (count_where (publishes id) db.drafts == 1)) [
  | inr e ↦ rw e stays
  | inl e ↦ rw e (
      plain_move (publishes id) (publish_draft media now) db.drafts (λ x. refl)
        (publishes_unpublished id) (λ x t w. (w.0, w.1, w.2, λ h. absurd (ground arith))))
]

fail-Moves :
    (db : DraftDb) (now : ℕ) (id : String) (cause : Option (List ℕ))
    → Moves db.drafts (fail db now id cause).0.drafts
unfolding fail insert_event
fail-Moves db now id cause = elim (Option-cases (first_where (publishes id) db.drafts)) [
  | inl e ↦ rw (e, fail) stays
  | inr (d, e) ↦
      rw (e, fail) (failed_move (publishes id) _ now _ db.drafts (publishes_unpublished id))
]

Step-Moves :
    {id_of : String → String → String} {a b : DraftDb} → Step id_of a b → Moves a.drafts b.drafts
unfolding mark_authorized authorize_draft save_staging stage_draft save_container contain_draft
    recover clear_staging unstage_draft insert_event
Step-Moves {id_of} {a} (creates now r asset_hash caption_hash) =
    create-Moves id_of a now r asset_hash caption_hash
Step-Moves {a = a} (authorizes now id expires) =
    plain_move (claims id) (authorize_draft expires now) a.drafts (λ x. refl)
      (claims_unpublished id) (λ x t w. w)
Step-Moves {a = a} (starts now id) = claim-Moves a now id
Step-Moves {a = a} (stages now id media) =
    plain_move (publishes id) (stage_draft media now) a.drafts (λ x. refl)
      (publishes_unpublished id) (λ x t w. w)
Step-Moves {a = a} (contains now id container) =
    plain_move (publishes id) (contain_draft container now) a.drafts (λ x. refl)
      (publishes_unpublished id) (λ x t w. w)
Step-Moves {a = a} (completes now id media) = complete-Moves a now id media
Step-Moves {a = a} (fails now id cause) = fail-Moves a now id cause
Step-Moves {a = a} (recovers now) =
    failed_move interrupted now now (codes "recovered interrupted publish") a.drafts
      (λ x t. ground arith)
Step-Moves {a = a} (clears now id) =
    moves (is_draft id) (unstage_draft now) (λ x. refl)
      (λ x t p. record {
        state = p;
        media_id = refl;
        caption = refl;
        asset_hash = refl;
        attempts = refl;
      })
      (All-update IsWell (is_draft id) (unstage_draft now) (λ x t w. w) a.drafts)

-- After any sequence of transactions from empty tables every draft has had at most as many attempts
-- as it may, which is at most 10, and one that is being published has had an attempt: the shift that
-- Fail computes is never by a negative number.
pub Reach-IsWell :
    (id_of : String → String → String) {db : DraftDb} → Reach id_of empty db → All IsWell db.drafts
Reach-IsWell id_of here = tt
Reach-IsWell id_of (next r st) = Moves-IsWell (Step-Moves st) (Reach-IsWell id_of r)

-- A published draft that is found in later tables, as it was.
pub record Stays (db : DraftDb) (id : String) (d : Draft) : Type 0 where
  pub row : Draft
  pub found : find_draft db id ≡ some row
  pub kept : Kept d row

Moves-Stays :
    {rows after : List Draft} (id : String) (d : Draft)
    → Moves rows after
    → first_where (is_draft id) rows ≡ some d
    → is_published d.state ≡ true
    → (row : Draft) × (first_where (is_draft id) after ≡ some row) × Kept d row
Moves-Stays id d stays f p = (
  d,
  f,
  record { state = p; media_id = refl; caption = refl; asset_hash = refl; attempts = refl },
)
Moves-Stays {rows} id d (adds n w) f p = (
  d,
  first_where-append (is_draft id) rows _ d f,
  record { state = p; media_id = refl; caption = refl; asset_hash = refl; attempts = refl },
)
Moves-Stays {rows} id d (moves q g i k w) f p =
    let moved = first_where-update (is_draft id) q g (λ x. ap (λ n. str_eq n id) (i x)) rows d f in
    elim (Bool-cases (q d)) [
      | inl t ↦
          let at_g : first_where (is_draft id) (update_where q g rows) ≡ some (g d) =
            moved ∙ rw t refl in
          (g d, at_g, k d t p)
      | inr t ↦
          let at_d : first_where (is_draft id) (update_where q g rows) ≡ some d =
            moved ∙ rw t refl in
          (
            d,
            at_d,
            record {
              state = p;
              media_id = refl;
              caption = refl;
              asset_hash = refl;
              attempts = refl;
            },
          )
    ]

-- A published draft stays published over every sequence of transactions, with the media, the caption
-- and the asset that were published and without another attempt.
pub Reach-Stays :
    (id_of : String → String → String) {db later : DraftDb} (id : String) (d : Draft)
    → find_draft db id ≡ some d
    → is_published d.state ≡ true
    → Reach id_of db later
    → Stays later id d
Reach-Stays id_of id d f p here = record {
  row = d;
  found = f;
  kept = record { state = p; media_id = refl; caption = refl; asset_hash = refl; attempts = refl };
}
Reach-Stays id_of id d f p (next r st) =
    let so_far = Reach-Stays id_of id d f p r in
    let last = Moves-Stays id so_far.row (Step-Moves st) so_far.found so_far.kept.state in
    record {
      row = last.0;
      found = last.1;
      kept = record {
        state = last.2.state;
        media_id = last.2.media_id ∙ so_far.kept.media_id;
        caption = last.2.caption ∙ so_far.kept.caption;
        asset_hash = last.2.asset_hash ∙ so_far.kept.asset_hash;
        attempts = last.2.attempts ∙ so_far.kept.attempts;
      };
    }
