-- ===== src/Instagram/Attempts.antt =====
-- What the transactions of internal/instagram/store.go do to the rows, and the attempts of a draft.
use mosaid.Base.{
  ℕ, ◌≤◌, ◌≡◌, refl, sym, subst, String, Bool, true, false, ◌&&◌, ◌||◌, not, some, List, [], ◌∷◌,
  ◌++◌, arith, leb, ltb, ◌==◌, Bool-cases, Option-cases, inl, inr, update_where, count_where,
  exists_where, first_where, first_where-counted, All, All-update, All-append,
}
use mosaid.Instagram.{
  Draft, DraftDb, PrepareRequest, is_publishing, is_published, is_claimable, is_draft,
  has_creation_key, claims, publishes, insert_event, new_draft, insert_draft, create, same_request,
  claim_draft, start_draft, is_authorized, find_draft,
}

-- The attempts are within the limit, which is at most 10, and a draft that is being published has one.
abbrev pub IsWell : Draft → Type 0
IsWell d =
    (1 ≤ d.max_attempts)
    × (d.max_attempts ≤ 10)
    × (d.attempts ≤ d.max_attempts)
    × (is_publishing d.state ≡ true → 1 ≤ d.attempts)

-- A published draft stays what was published.
pub record Kept (x y : Draft) : Type 0 where
  pub state : is_published y.state ≡ true
  pub media_id : y.media_id ≡ x.media_id
  pub caption : y.caption ≡ x.caption
  pub asset_hash : y.asset_hash ≡ x.asset_hash
  pub attempts : y.attempts ≡ x.attempts

-- What a transaction does to the rows.
pub data Moves (rows : List Draft) : List Draft → Type 0 where
  stays : Moves rows rows
  adds : (d : Draft) → IsWell d → Moves rows (rows ++ d ∷ [])
  moves :
      (q : Draft → Bool) (f : Draft → Draft)
      → ((x : Draft) → (f x).id ≡ x.id)
      → ((x : Draft) → q x ≡ true → is_published x.state ≡ true → Kept x (f x))
      → (All IsWell rows → All IsWell (update_where q f rows))
      → Moves rows (update_where q f rows)

pub Moves-IsWell : {rows after : List Draft} → Moves rows after → All IsWell rows → All IsWell after
Moves-IsWell stays a = a
Moves-IsWell {rows} (adds d w) a = All-append IsWell rows (d ∷ []) a (w, tt)
Moves-IsWell (moves q f i k w) a = w a

update_where_zero {ℓ} :
    {A : Type ℓ} (q : A → Bool) (f : A → A) (xs : List A)
    → count_where q xs ≡ 0
    → update_where q f xs ≡ xs
update_where_zero q f [] u = refl
update_where_zero q f (x ∷ xs) u = ground (arith, update_where_zero q f xs)

-- An update that takes one row, the found one.
All-update_one {ℓ κ} :
    {A : Type ℓ} (P : A → Type κ) (p q : A → Bool) (f : A → A) (xs : List A) (d : A)
    → count_where q xs ≤ 1
    → first_where p xs ≡ some d
    → q d ≡ true
    → (P d → P (f d))
    → All P xs
    → All P (update_where q f xs)
All-update_one P p q f [] d u h t w a = a
All-update_one P p q f (x ∷ xs) d u h t w a = elim (Bool-cases (q x)) [
  | inl e ↦ elim (Bool-cases (p x)) [
    | inl g ↦
        let same : d ≡ x = ground arith in
        let moved : P (f x) = subst (λ z. P (f z)) same (w (subst P (sym same) a.0)) in
        let rest = update_where_zero q f xs (ground arith) in rw (e, rest) (moved, a.1)
    | inr g ↦ let more = first_where-counted p q xs d (rw g at h) t in absurd (ground (arith, more))
  ]
  | inr e ↦ elim (Bool-cases (p x)) [
    | inl g ↦ let same : d ≡ x = ground arith in let no : q x ≡ true = rw (sym same) t in cc
    | inr g ↦ rw e (a.0, All-update_one P p q f xs d (ground arith) (rw g at h) t w a.1)
  ]
]

-- An update of rows that are not published, where the attempts stay.
pub plain_move :
    (q : Draft → Bool) (f : Draft → Draft) (rows : List Draft)
    → ((x : Draft) → (f x).id ≡ x.id)
    → ((x : Draft) → q x ≡ true → is_published x.state ≡ false)
    → ((x : Draft) → q x ≡ true → IsWell x → IsWell (f x))
    → Moves rows (update_where q f rows)
plain_move q f rows i n w =
    moves q f i (λ x t p. absurd (let no = n x t in ground arith)) (All-update IsWell q f w rows)

pub claims_unpublished :
    (id : String) (x : Draft) → claims id x ≡ true → is_published x.state ≡ false
claims_unpublished id x t = ground arith

pub publishes_unpublished :
    (id : String) (x : Draft) → publishes id x ≡ true → is_published x.state ≡ false
publishes_unpublished id x t = ground arith

insert_draft-Moves :
    (db : DraftDb) (d : Draft)
    → is_publishing d.state ≡ false
    → d.attempts ≡ 0
    → Moves db.drafts (insert_draft db d).0.drafts
unfolding insert_draft insert_event
insert_draft-Moves db d p z =
    elim (Bool-cases (
      not (leb 1 d.max_attempts && leb d.max_attempts 10)
      || exists_where (is_draft d.id) db.drafts)) [
        | inl e ↦ rw e stays
        | inr e ↦ rw e (adds d (ground arith, ground arith, ground arith, λ h. ground arith))
      ]

pub create-Moves :
    (id_of : String → String → String) (db : DraftDb) (now : ℕ) (r : PrepareRequest)
    (asset_hash caption_hash : String)
    → Moves db.drafts (create id_of db now r asset_hash caption_hash).0.drafts
unfolding create new_draft
create-Moves id_of db now r asset_hash caption_hash =
    elim (Option-cases (first_where (has_creation_key r.creation_key) db.drafts)) [
      | inl e ↦ rw (e, create) (insert_draft-Moves db _ refl refl)
      | inr (d, e) ↦ elim (Bool-cases (same_request d r asset_hash caption_hash)) [
        | inl o ↦ rw (e, create, o) stays
        | inr o ↦ rw (e, create, o) stays
      ]
    ]

start_draft-IsWell :
    (now : ℕ) (d : Draft)
    → leb d.max_attempts d.attempts ≡ false
    → IsWell d
    → IsWell (start_draft now d)
unfolding start_draft
start_draft-IsWell now d l w = (w.0, w.1, ground arith, λ h. omega arith)

start_move :
    (db : DraftDb) (now : ℕ) (id : String) (d : Draft)
    → find_draft db id ≡ some d
    → claims id d ≡ true
    → leb d.max_attempts d.attempts ≡ false
    → count_where (claims id) db.drafts ≤ 1
    → Moves db.drafts (update_where (claims id) (start_draft now) db.drafts)
unfolding start_draft
start_move db now id d f t l u =
    moves (claims id) (start_draft now) (λ x. refl)
      (λ x t' p. absurd (let no = claims_unpublished id x t' in ground arith))
      (All-update_one IsWell (is_draft id) (claims id) (start_draft now) db.drafts d u f t
        (start_draft-IsWell now d l))

pub claim_draft-Moves :
    (db : DraftDb) (now : ℕ) (id : String) (d : Draft)
    → find_draft db id ≡ some d
    → is_draft id d ≡ true
    → Moves db.drafts (claim_draft db now id d).0.drafts
unfolding claim_draft insert_event
claim_draft-Moves db now id d f s = elim (Bool-cases (is_published d.state)) [
  | inl a ↦ rw a stays
  | inr a ↦ elim (Bool-cases (is_claimable d.state)) [
    | inr b ↦ rw (a, b) stays
    | inl b ↦ elim (Bool-cases (leb d.max_attempts d.attempts)) [
      | inl c ↦ rw (a, b, c) stays
      | inr c ↦ elim (Bool-cases (is_authorized now d.authorized_until)) [
        | inr e ↦ rw (a, b, c, e) stays
        | inl e ↦ elim (Bool-cases (ltb now d.publish_at || ltb now d.available_at)) [
          | inl g ↦ rw (a, b, c, e, g) stays
          | inr g ↦ elim (Bool-cases (count_where (claims id) db.drafts == 1)) [
            | inr o ↦ rw (a, b, c, e, g, o) stays
            | inl o ↦ rw (a, b, c, e, g, o) (start_move db now id d f (rw s b) c (ground arith))
          ]
        ]
      ]
    ]
  ]
]
