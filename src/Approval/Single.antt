-- ===== src/Approval/Single.antt =====
-- The request of a token through every sequence of the transactions of internal/approval/approval.go.
use mosaid.Base.{
  ltb, ◌==◌, ℕ, ◌≤◌, ◌≡◌, ◌∙◌, refl, ap, sym, String, Bool, true, false, some, List, [], ◌∷◌, ◌++◌,
  arith, str_eq, eq_iff, if◌then◌else◌, Bool-cases, inl, inr, update_where, count_where,
  exists_where, first_where-update, first_where_unique, count_where-update_same,
}
use mosaid.Approval.{
  RequestRow, AuditEntry, expire_row, is_open, ApprovalDb, Binding, ApprovalState, has_id, has_hash,
  is_pending, is_bound, uses_id, set_state, audit, resolve_row, find_request,
}

abbrev pub empty : ApprovalDb
empty = record { requests = []; uses = []; audited = [] }

-- Identifiers of requests are unique.
abbrev pub IsUnique : ApprovalDb → Type 0
IsUnique db = (id : String) → count_where (has_id id) db.requests ≤ 1

abbrev pub is_used : ApprovalDb → String → Bool
is_used db id = exists_where (uses_id id) db.uses

-- Where a request of `a` is found in `b`: under the same identifier, and unchanged if it was
-- resolved; and its use remains.
pub record Follows (a b : ApprovalDb) (h : String) (r : RequestRow) : Type 0 where
  pub later : RequestRow
  pub found : find_request b h ≡ some later
  pub same_id : later.id ≡ r.id
  pub settled : is_pending r.state ≡ false → later ≡ r
  pub still_used : (id : String) → is_used a id ≡ true → is_used b id ≡ true

pub Follows-refl :
    (a : ApprovalDb) (h : String) (r : RequestRow) → find_request a h ≡ some r → Follows a a h r
Follows-refl a h r f = record {
  later = r;
  found = f;
  same_id = refl;
  settled = λ p. refl;
  still_used = λ id u. u;
}

pub exists_where-append {ℓ} :
    {A : Type ℓ} (p : A → Bool) (xs ys : List A)
    → exists_where p xs ≡ true
    → exists_where p (xs ++ ys) ≡ true
exists_where-append p [] ys h = cc
exists_where-append p (x ∷ xs) ys h = ground (arith, exists_where-append p xs ys)

-- Changed rows with the identifiers that they had.
pub update-IsUnique :
    (q : RequestRow → Bool) (f : RequestRow → RequestRow) (rows : List RequestRow)
    → ((x : RequestRow) → (f x).id ≡ x.id)
    → ((id : String) → count_where (has_id id) rows ≤ 1)
    → (id : String) → count_where (has_id id) (update_where q f rows) ≤ 1
update-IsUnique q f rows k u id =
    omega (
      arith,
      u id,
      count_where-update_same (has_id id) q f (λ x h. ap (λ i. str_eq i id) (k x)) rows,
    )

-- What the resolution of the found row `r` does to the tables.
pub data Change (db : ApprovalDb) (r : RequestRow) : ApprovalDb → Type 0 where
  keeps : Change db r db
  expires :
      is_pending r.state ≡ true
      → Change db r (record db { requests = update_where (has_id r.id) expire_row db.requests })
  settles :
      (state : ApprovalState) (now : ℕ) (e : AuditEntry)
      → is_pending r.state ≡ true
      → Change db r (
          audit
            (record db {
              requests = update_where (is_open r.id) (set_state state (some now)) db.requests;
            })
            e)

pub resolve_row-Change :
    (db : ApprovalDb) (now : ℕ) (r : RequestRow) (b : Binding) (decision : String)
    (state : ApprovalState)
    → Change db r (resolve_row db now r b decision state).0
unfolding resolve_row
resolve_row-Change db now r b decision state = elim (Bool-cases (is_pending r.state)) [
  | inr p ↦ rw p keeps
  | inl p ↦ rw p (elim (Bool-cases (ltb r.expires_at now)) [
    | inl l ↦ rw l (expires p)
    | inr l ↦ rw l (elim (Bool-cases (is_bound r b)) [
      | inr m ↦ rw m keeps
      | inl m ↦ rw m (elim (Bool-cases (count_where (is_open r.id) db.requests == 1)) [
        | inr o ↦ rw o keeps
        | inl o ↦ rw o (settles state now _ p)
      ])
    ])
  ])
]

module _ (a : ApprovalDb) (h : String) (r : RequestRow) (u : IsUnique a)
    (f : find_request a h ≡ some r) where
  -- A row that is resolved is not the one that a change takes.
  change-Follows :
      (q : RequestRow → Bool) (g : RequestRow → RequestRow) (b : ApprovalDb)
      → b.requests ≡ update_where q g a.requests
      → b.uses ≡ a.uses
      → ((x : RequestRow) → has_hash h (g x) ≡ has_hash h x)
      → ((x : RequestRow) → (g x).id ≡ x.id)
      → (is_pending r.state ≡ false → q r ≡ false)
      → Follows a b h r
  change-Follows q g b e v k i c = record {
    later = if q r then g r else r;
    found = rw e (first_where-update (has_hash h) q g k a.requests r f);
    same_id = elim (Bool-cases (q r)) [ inl t ↦ rw t (i r) | inr t ↦ rw t refl ];
    settled = λ p. rw (c p) refl;
    still_used = λ id w. rw v w;
  }

  pub Change-Follows :
      (h' : String) (r' : RequestRow)
      → find_request a h' ≡ some r'
      → {b : ApprovalDb} → Change a r' b
      → Follows a b h r
  unfolding audit expire_row set_state
  Change-Follows h' r' f' keeps = Follows-refl a h r f
  Change-Follows h' r' f' (expires p) =
      change-Follows _ expire_row _ refl refl (λ x. refl) (λ x. refl)
        (λ n. elim (Bool-cases (has_id r'.id r)) [
          | inr e ↦ e
          | inl e ↦
              let same =
                first_where_unique (has_hash h) (has_hash h') (has_id r'.id) a.requests r r'
                  (u r'.id) f f' e ((eq_iff _ _).1 refl) in
              let no : true ≡ false = sym p ∙ ap (λ x. is_pending x.state) (sym same) ∙ n in cc
        ])
  Change-Follows h' r' f' (settles state now e p) =
      change-Follows _ (set_state state (some now)) _ refl refl (λ x. refl) (λ x. refl)
        (λ n. ground arith)
