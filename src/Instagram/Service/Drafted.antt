-- ===== src/Instagram/Service/Drafted.antt =====
-- What Prepare of internal/instagram/service.go stores.
use mosaid.Base.{
  ℕ, ◌+◌, ◌*◌, ◌≡◌, ◌≤◌, ◌⊎◌, refl, String, Bool, true, false, not, ◌||◌, ◌&&◌, Option, none, some,
  List, [], ◌∷◌, ◌++◌, arith, str_eq, leb, eq_iff, Bool-cases, Option-cases, inl, inr, exists_where,
  first_where, ap, first_where-passes, first_where-counted, count_where-exists,
}
use mosaid.Scheduler.Timestamps.{minute, day}
use mosaid.Instagram
use mosaid.Instagram.{
  Draft, DraftDb, PrepareRequest, prepared, existing, created, refused, constraint, conflict,
  Prepared, is_draft, has_creation_key, find_draft, same_request, new_draft, insert_draft,
  insert_event,
}
use mosaid.Instagram.Publish.{World}
use mosaid.Instagram.Service.{
  PublishBinding, ServiceLimits, Preparation, stored, valid_service, valid_prepare,
  valid_publish_at, attempts_or_default, prepare, note_prepared,
}

-- The draft is new, for the artifact and the texts of the request, with a time and a number of
-- attempts in range, and stands in the tables.
pub record IsDrafted (now : ℕ) (r : PrepareRequest) (d : Draft) (db : DraftDb) : Type 0 where
  pub account : d.account_id ≡ r.account_id
  pub asset : d.asset_hash ≡ r.artifact_id
  pub caption : d.caption ≡ r.caption
  pub publish_at : d.publish_at ≡ r.publish_at
  pub creation_key : d.creation_key ≡ r.creation_key
  pub state : d.state ≡ prepared
  pub unauthorized : d.authorized_until ≡ none
  pub unattempted : d.attempts ≡ 0
  pub attempts_least : 1 ≤ d.max_attempts
  pub attempts_most : d.max_attempts ≤ 10
  pub not_past : now ≤ d.publish_at + minute
  pub not_far : d.publish_at ≤ now + 75 * day
  pub found : find_draft db d.id ≡ some d

first_where-last :
    (p : Draft → Bool) (xs : List Draft) (d : Draft)
    → exists_where p xs ≡ false
    → p d ≡ true
    → first_where p (xs ++ d ∷ []) ≡ some d
first_where-last p [] d n h = rw h refl
first_where-last p (x ∷ xs) d n h = ground (arith, first_where-last p xs d)

abbrev in_range : Draft → Bool
in_range d = leb 1 d.max_attempts && leb d.max_attempts 10

first_where-none :
    (p : Draft → Bool) (xs : List Draft) → first_where p xs ≡ none → exists_where p xs ≡ false
first_where-none p [] h = refl
first_where-none p (x ∷ xs) h = ground (arith, first_where-none p xs)

insert_draft-cases :
    (db : DraftDb) (d : Draft)
    → ((insert_draft db d ≡ (db, refused constraint))
        × ((not (in_range d) || exists_where (is_draft d.id) db.drafts) ≡ true))
      ⊎ (((insert_draft db d).1 ≡ created d)
          × (1 ≤ d.max_attempts)
          × (d.max_attempts ≤ 10)
          × (find_draft (insert_draft db d).0 d.id ≡ some d)
          × (exists_where (is_draft d.id) db.drafts ≡ false))
unfolding insert_draft insert_event
insert_draft-cases db d = elim (Bool-cases (not (in_range d))) [
  | inl e ↦ inl (rw e (refl, refl))
  | inr e ↦ elim (Bool-cases (exists_where (is_draft d.id) db.drafts)) [
    | inl f ↦ inl (rw (e, f) (refl, refl))
    | inr f ↦ inr (
        rw (e, f)
          (
            refl,
            ground arith,
            ground arith,
            first_where-last (is_draft d.id) db.drafts d f ((eq_iff d.id d.id).1 refl),
            refl,
          ))
  ]
]

abbrev is_new : Prepared → Bool
is_new (created d) = true
is_new _ = false

-- A draft has the key or the identifier.
abbrev pub is_taken : DraftDb → String → String → Bool
is_taken db key id =
    exists_where (has_creation_key key) db.drafts || exists_where (is_draft id) db.drafts

-- Creating a draft leaves the tables as they are and gives none, for its number of attempts or for a
-- draft that is there, or inserts a new one.
abbrev Creates : DraftDb → Draft → DraftDb × Prepared → Type 0
Creates db d result =
    ((m : Prepared) × (result ≡ (db, m))
      × (is_new m ≡ false)
      × ((not (in_range d) || is_taken db d.creation_key d.id) ≡ true))
    ⊎ ((result.1 ≡ created d)
        × (1 ≤ d.max_attempts)
        × (d.max_attempts ≤ 10)
        × (find_draft result.0 d.id ≡ some d)
        × (is_taken db d.creation_key d.id ≡ false))

create-cases :
    (id_of : String → String → String) (db : DraftDb) (now : ℕ) (r : PrepareRequest)
    (asset_hash caption_hash : String)
    → Creates db
        (new_draft (id_of r.account_id r.creation_key) r asset_hash caption_hash now)
        (Instagram.create id_of db now r asset_hash caption_hash)
unfolding Instagram.create new_draft
create-cases id_of db now r asset_hash caption_hash =
    elim (Option-cases (first_where (has_creation_key r.creation_key) db.drafts)) [
      | inr (d, e) ↦
          let its = first_where-passes (has_creation_key r.creation_key) db.drafts d e in
          let many =
            first_where-counted (has_creation_key r.creation_key) (has_creation_key r.creation_key)
              db.drafts d e its in
          let there = count_where-exists (has_creation_key r.creation_key) db.drafts many in
          elim (Bool-cases (same_request d r asset_hash caption_hash)) [
            | inl o ↦ inl (existing d, rw (e, Instagram.create, o) refl, refl, ground arith)
            | inr o ↦ inl (refused conflict, rw (e, Instagram.create, o) refl, refl, ground arith)
          ]
      | inl e ↦
          let made = new_draft (id_of r.account_id r.creation_key) r asset_hash caption_hash now in
          elim (insert_draft-cases db made) [
            | inl c ↦ inl (
              refused constraint,
              rw (e, Instagram.create) c.0,
              refl,
              let why = c.1 in ground arith,
            )
            | inr c ↦
                let free = first_where-none (has_creation_key r.creation_key) db.drafts e in
                inr (rw (e, Instagram.create) (c.0, c.1, c.2, c.3, let id = c.4 in ground arith))
          ]
    ]

-- The service is wired, the request is valid, and the artifact is the one that it names.
abbrev pub is_accepted : (String → Option String) → ServiceLimits → ℕ → PrepareRequest → Bool
is_accepted read_hash s now r =
    valid_service s
    && (valid_prepare now r && elim (read_hash r.artifact_id) [
      | none ↦ false
      | some found ↦ str_eq found r.artifact_id
    ])

module _ (format_time : ℕ → String) (args_hash : PublishBinding → String) {E : Type 0}
    (id_of : String → String → String) (read_hash : String → Option String) (hash : String → String)
    (s : ServiceLimits) where
  -- A result of a preparation, of a draft that can be stored or not.
  abbrev pub Stores : Bool → World E → ℕ → PrepareRequest → World E × Preparation → Type 0
  Stores can w now r result =
      ((result.0 ≡ w) × (can ≡ false))
      ⊎ ((d : Draft) × (can ≡ true)
          × (result.1 ≡ stored (created d))
          × IsDrafted now r d result.0.db)

  note_prepared-db :
      (w : World E) (m : Prepared) → (note_prepared format_time args_hash w m).db ≡ w.db
  note_prepared-db w (created d) = refl
  note_prepared-db w (existing d) = refl
  note_prepared-db w (refused e) = refl

  note_prepared-old :
      (w : World E) (m : Prepared) → is_new m ≡ false → note_prepared format_time args_hash w m ≡ w
  note_prepared-old w (existing d) n = refl
  note_prepared-old w (refused e) n = refl
  note_prepared-old w (created d) n = cc

  -- What follows the checks, by what the store gives.
  abbrev noted : World E → DraftDb × Prepared → World E × Preparation
  noted w (db, made) =
      (note_prepared format_time args_hash (record w { db = db }) made, stored made)

  noted-Stores :
      (w : World E) (now : ℕ) (r : PrepareRequest) (caption_hash : String)
      → valid_prepare now r ≡ true
      → Stores (not (is_taken w.db r.creation_key (id_of r.account_id r.creation_key))) w now r (
          noted w (
            Instagram.create id_of w.db now
              (record r { max_attempts = attempts_or_default r.max_attempts })
              r.artifact_id
              caption_hash))
  unfolding valid_prepare valid_publish_at
  noted-Stores w now r caption_hash u =
      let asked : PrepareRequest = record r { max_attempts = attempts_or_default r.max_attempts } in
      let made = Instagram.create id_of w.db now asked r.artifact_id caption_hash in
      elim (create-cases id_of w.db now asked r.artifact_id caption_hash) [
        | inl (m, e, n, why) ↦
            inl (rw e (note_prepared-old w m n, unfold new_draft in ground arith))
        | inr (e, least, most, found, free) ↦ inr (
          new_draft (id_of r.account_id r.creation_key) asked r.artifact_id caption_hash now,
          unfold new_draft in ground arith,
          ap stored e,
          record {
            account = unfold new_draft in refl;
            asset = unfold new_draft in refl;
            caption = unfold new_draft in refl;
            publish_at = unfold new_draft in refl;
            creation_key = unfold new_draft in refl;
            state = unfold new_draft in refl;
            unauthorized = unfold new_draft in refl;
            unattempted = unfold new_draft in refl;
            attempts_least = least;
            attempts_most = most;
            not_past = unfold new_draft in ground arith;
            not_far = unfold new_draft in ground arith;
            found = rw (note_prepared-db (record w { db = made.0 }) made.1) found;
          },
        )
      ]

  -- Preparing a post changes nothing, in the tables or in the audit log, where the request is not
  -- accepted or a draft has its creation key or its identifier, and else stores a new draft: for the
  -- account, the artifact and the caption of the request, prepared, not authorized and not yet
  -- attempted, with 1 to 10 attempts and a time from a minute before now to 75 days after it.
  pub prepare-IsDrafted :
      (w : World E) (now : ℕ) (r : PrepareRequest)
      → Stores
          (is_accepted read_hash s now r
            && not (is_taken w.db r.creation_key (id_of r.account_id r.creation_key)))
          w
          now
          r
          (prepare format_time args_hash id_of read_hash hash s w now r)
  unfolding prepare
  prepare-IsDrafted w now r = elim (Bool-cases (valid_service s)) [
    | inr v ↦ inl (rw (v, prepare) (refl, refl))
    | inl v ↦ elim (Bool-cases (valid_prepare now r)) [
      | inr u ↦ inl (rw (v, u, prepare) (refl, refl))
      | inl u ↦ elim (Option-cases (read_hash r.artifact_id)) [
        | inl a ↦ inl (rw (v, u, a, prepare) (refl, refl))
        | inr (found, a) ↦ elim (Bool-cases (str_eq found r.artifact_id)) [
          | inr b ↦ inl (rw (v, u, a, b, prepare) (refl, refl))
          | inl b ↦
              let same = (eq_iff found r.artifact_id).0 b in
              rw (v, u, a, b, prepare) (rw same (noted-Stores w now r (hash r.caption) u))
        ]
      ]
    ]
  ]
