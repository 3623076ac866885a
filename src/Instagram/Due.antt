-- ===== src/Instagram/Due.antt =====
-- What a claim of a draft by internal/instagram/store.go says of it.
use mosaid.Base.{
  ℕ, ◌≡◌, ◌≤◌, ◌<◌, String, true, false, ◌||◌, some, arith, ltb, leb, ◌==◌, Bool-cases, inl, inr,
  count_where, refl, first_where, update_where, first_where-passes, first_where-update,
  if◌then◌else◌,
}
use mosaid.Instagram.{
  Draft, DraftDb, ready, is_published, is_claimable, claims, is_authorized, find_draft, claim,
  claim_draft, start_draft, is_draft, insert_event,
}

-- A draft that may be published now, and what the claim makes of it and of its row.
pub record IsDue (now : ℕ) (id : String) (db : DraftDb) (before after : Draft) : Type 0 where
  pub authorized : is_authorized now before.authorized_until ≡ true
  pub published_by : before.publish_at ≤ now
  pub available : before.available_at ≤ now
  pub attempts : before.attempts < before.max_attempts
  pub started : after ≡ start_draft now before
  pub written : find_draft db id ≡ some after

claimed_row :
    (db : DraftDb) (now : ℕ) (id : String) (d : Draft)
    → find_draft db id ≡ some d
    → is_claimable d.state ≡ true
    → first_where (is_draft id) (update_where (claims id) (start_draft now) db.drafts)
      ≡ some (start_draft now d)
unfolding start_draft
claimed_row db now id d f c =
    let its = first_where-passes (is_draft id) db.drafts d f in
    let taken : claims id d ≡ true = ground arith in
    let moved : first_where (is_draft id) (update_where (claims id) (start_draft now) db.drafts)
        ≡ some (if claims id d then start_draft now d else d) =
      first_where-update (is_draft id) (claims id) (start_draft now) (λ x. refl) db.drafts d f in
    rw taken at moved

claim_draft-IsDue :
    (db : DraftDb) (now : ℕ) (id : String) (before after : Draft)
    → find_draft db id ≡ some before
    → is_published before.state ≡ false
    → (claim_draft db now id before).1 ≡ ready after
    → IsDue now id (claim_draft db now id before).0 before after
unfolding claim_draft insert_event
claim_draft-IsDue db now id d after f a h = elim (Bool-cases (is_claimable d.state)) [
  | inr b ↦ let no = rw (a, b) at h in cc
  | inl b ↦ elim (Bool-cases (leb d.max_attempts d.attempts)) [
    | inl c ↦ let no = rw (a, b, c) at h in cc
    | inr c ↦ elim (Bool-cases (is_authorized now d.authorized_until)) [
      | inr e ↦ let no = rw (a, b, c, e) at h in cc
      | inl e ↦ elim (Bool-cases (ltb now d.publish_at || ltb now d.available_at)) [
        | inl g ↦ let no = rw (a, b, c, e, g) at h in cc
        | inr g ↦ elim (Bool-cases (count_where (claims id) db.drafts == 1)) [
          | inr o ↦ let no = rw (a, b, c, e, g, o) at h in cc
          | inl o ↦ record {
            authorized = e;
            published_by = ground arith;
            available = ground arith;
            attempts = ground arith;
            started = let same = rw (a, b, c, e, g, o) at h in cc;
            written =
                let same = rw (a, b, c, e, g, o) at h in
                let is : start_draft now d ≡ after = cc in
                let row = claimed_row db now id d f b in rw (a, b, c, e, g, o) (rw is at row);
          }
        ]
      ]
    ]
  ]
]

-- A draft that is not published and that a claim gives was authorized until a later time, its time
-- of publication and the end of its back-off had come, and an attempt was left. The claim counts one
-- more, makes the draft publishing, and the row of the tables after it is the draft that it gives.
pub claim-IsDue :
    (db : DraftDb) (now : ℕ) (id : String) (before after : Draft)
    → find_draft db id ≡ some before
    → is_published before.state ≡ false
    → (claim db now id).1 ≡ ready after
    → IsDue now id (claim db now id).0 before after
unfolding claim
claim-IsDue db now id before after f n h =
    rw (f, claim) (claim_draft-IsDue db now id before after f n (rw (f, claim) at h))
