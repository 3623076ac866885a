-- ===== src/Approval/Steps.antt =====
-- What internal/approval/approval.go guarantees of a request, over every sequence of transactions.
use mosaid.Base.{
  ℕ, ◌≤◌, ◌≡◌, ◌∙◌, refl, ap, String, true, false, not, some, List, [], ◌∷◌, ◌++◌, arith, eq_iff,
  Bool-cases, Option-cases, inl, inr, ltb, count_where, exists_where, count_where-append,
  first_where-append, exists_where-count, subst, ◌||◌,
}
use mosaid.Int.{ℤ, eq_ℤ}
use mosaid.Approval.{
  RequestRow, ApprovalDb, Binding, has_id, has_hash, is_pending, is_approved, is_bound, uses_id,
  set_state, expire_row, audit, find_request, create, resolve, resolve_token, authorize_receipt,
  use_row, decided_state, request_row, request_of,
}
use mosaid.Approval.Single.{
  IsUnique, is_used, Follows, Follows-refl, exists_where-append, update-IsUnique, Change,
  resolve_row-Change, Change-Follows,
}

Change-IsUnique :
    {a : ApprovalDb} {r : RequestRow} {b : ApprovalDb} → Change a r b → IsUnique a → IsUnique b
unfolding audit set_state expire_row
Change-IsUnique Change.keeps u = u
Change-IsUnique {a} (Change.expires p) u = update-IsUnique _ expire_row a.requests (λ x. refl) u
Change-IsUnique {a} (Change.settles state now e p) u =
    update-IsUnique _ (set_state state (some now)) a.requests (λ x. refl) u

append-IsUnique :
    (rows : List RequestRow) (r : RequestRow)
    → exists_where (has_id r.id) rows ≡ false
    → ((id : String) → count_where (has_id id) rows ≤ 1)
    → (id : String) → count_where (has_id id) (rows ++ r ∷ []) ≤ 1
append-IsUnique rows r n u id = elim (Bool-cases (has_id id r)) [
  | inl e ↦
      let same : r.id ≡ id = (eq_iff _ _).0 e in
      let zero_count =
        subst (λ i. count_where (has_id i) rows ≡ 0) same
          (exists_where-count (has_id r.id) rows n) in
      let all = count_where-append (has_id id) rows (r ∷ []) in ground (arith, zero_count, all)
  | inr e ↦ let all = count_where-append (has_id id) rows (r ∷ []) in ground (arith, all, u id)
]

module _ (encode : List ℕ → String) (hash : String → String) (id_of : List ℕ → String) where
  -- One transaction, with whatever arguments and clock reading.
  pub data Step (db : ApprovalDb) : ApprovalDb → Type 0 where
    creates :
        (now : ℕ) (drawn : List ℕ) (b : Binding) (ttl : ℤ)
        → Step db (create encode hash id_of db now drawn b ttl).0
    resolves :
        (now : ℕ) (token : String) (b : Binding) (decision : String)
        → Step db (resolve hash db now token b decision).0
    resolves_token :
        (now : ℕ) (token : String) (user : ℤ) (decision : String)
        → Step db (resolve_token hash db now token user decision).0
    authorizes :
        (now : ℕ) (token : String) (b : Binding) → Step db (authorize_receipt hash db now token b).0

  pub data Reach (db : ApprovalDb) : ApprovalDb → Type 0 where
    here : Reach db db
    next : {a b : ApprovalDb} → Reach db a → Step a b → Reach db b

  -- Each transaction but the creation changes the tables as a resolution or a use does.
  create-IsUnique :
      (db : ApprovalDb) (now : ℕ) (drawn : List ℕ) (b : Binding) (ttl : ℤ)
      → IsUnique db
      → IsUnique (create encode hash id_of db now drawn b ttl).0
  unfolding create audit
  create-IsUnique db now drawn b ttl u id =
      let r = request_of encode hash id_of drawn b now ttl in
      elim (Bool-cases (
        exists_where (has_id r.id) db.requests
        || exists_where (has_hash (hash r.token)) db.requests)) [
          | inl e ↦ rw e (u id)
          | inr e ↦ rw e (
              append-IsUnique db.requests (request_row encode hash id_of r now) (ground arith) u id)
        ]

  create-Follows :
      (db : ApprovalDb) (now : ℕ) (drawn : List ℕ) (b : Binding) (ttl : ℤ) (h : String)
      (r : RequestRow)
      → find_request db h ≡ some r
      → Follows db (create encode hash id_of db now drawn b ttl).0 h r
  unfolding create audit
  create-Follows db now drawn b ttl h r f =
      let n = request_of encode hash id_of drawn b now ttl in
      elim (Bool-cases (
        exists_where (has_id n.id) db.requests
        || exists_where (has_hash (hash n.token)) db.requests)) [
          | inl e ↦ rw e (Follows-refl db h r f)
          | inr e ↦ rw e record {
            later = r;
            found = first_where-append (has_hash h) db.requests _ r f;
            same_id = refl;
            settled = λ p. refl;
            still_used = λ id w. w;
          }
        ]

-- What a use of the row `r` does: the requests stay, and a grant adds the use.
pub use_row-requests :
    (db : ApprovalDb) (now : ℕ) (r : RequestRow) (b : Binding)
    → (use_row db now r b).0.requests ≡ db.requests
unfolding use_row
use_row-requests db now r b = ground arith

use_row-uses :
    (db : ApprovalDb) (now : ℕ) (r : RequestRow) (b : Binding) (id : String)
    → is_used db id ≡ true
    → is_used (use_row db now r b).0 id ≡ true
unfolding use_row
use_row-uses db now r b id u = elim (Bool-cases (ltb now r.expires_at)) [
  | inr e ↦ rw e u
  | inl e ↦ rw e (elim (Bool-cases (not (is_approved r.state) || not (is_bound r b))) [
    | inl f ↦ rw f u
    | inr f ↦ rw f (elim (Bool-cases (exists_where (uses_id r.id) db.uses)) [
      | inl g ↦ rw g u
      | inr g ↦ rw g (exists_where-append (uses_id id) db.uses _ u)
    ])
  ])
]

module _ (hash : String → String) where
  pub resolve-keeps :
      (P : ApprovalDb → Type 0) (db : ApprovalDb) (now : ℕ) (token : String) (b : Binding)
      (decision : String)
      → P db
      → ((r : RequestRow) (after : ApprovalDb)
          → find_request db (hash token) ≡ some r
          → Change db r after
          → P after)
      → P (resolve hash db now token b decision).0
  unfolding resolve
  resolve-keeps P db now token b decision p k = elim (Option-cases (decided_state decision)) [
    | inl e ↦ rw (e, resolve) p
    | inr (state, e) ↦
        rw (e, resolve)
          (elim (Option-cases (find_request db (hash token))) [
            | inl f ↦ rw f p
            | inr (r, f) ↦ rw f (k r _ f (resolve_row-Change db now r b decision state))
          ])
  ]

  pub resolve_token-keeps :
      (P : ApprovalDb → Type 0) (db : ApprovalDb) (now : ℕ) (token : String) (user : ℤ)
      (decision : String)
      → P db
      → ((r : RequestRow) (after : ApprovalDb)
          → find_request db (hash token) ≡ some r
          → Change db r after
          → P after)
      → P (resolve_token hash db now token user decision).0
  unfolding resolve_token
  resolve_token-keeps P db now token user decision p k =
      elim (Option-cases (find_request db (hash token))) [
        | inl f ↦ rw (f, resolve_token) p
        | inr (r, f) ↦
            rw (f, resolve_token)
              (elim (Bool-cases (eq_ℤ r.user_id user)) [
                | inr e ↦ rw e p
                | inl e ↦ rw e (resolve-keeps P db now token _ decision p k)
              ])
      ]

  pub authorize_receipt-keeps :
      (P : ApprovalDb → Type 0) (db : ApprovalDb) (now : ℕ) (token : String) (b : Binding)
      → P db
      → ((r : RequestRow) → find_request db (hash token) ≡ some r → P (use_row db now r b).0)
      → P (authorize_receipt hash db now token b).0
  unfolding authorize_receipt
  authorize_receipt-keeps P db now token b p k =
      elim (Option-cases (find_request db (hash token))) [
        | inl f ↦ rw (f, authorize_receipt) p
        | inr (r, f) ↦ rw (f, authorize_receipt) (k r f)
      ]

module _ (encode : List ℕ → String) (hash : String → String) (id_of : List ℕ → String) where
  Step-IsUnique : {a b : ApprovalDb} → Step encode hash id_of a b → IsUnique a → IsUnique b
  Step-IsUnique (Step.creates now drawn b ttl) u =
      create-IsUnique encode hash id_of _ now drawn b ttl u
  Step-IsUnique (Step.resolves now token b decision) u =
      resolve-keeps hash IsUnique _ now token b decision u (λ r after f c. Change-IsUnique c u)
  Step-IsUnique (Step.resolves_token now token user decision) u =
      resolve_token-keeps hash IsUnique _ now token user decision u
        (λ r after f c. Change-IsUnique c u)
  Step-IsUnique {a} (Step.authorizes now token b) u =
      authorize_receipt-keeps hash IsUnique _ now token b u
        (λ r f id. rw (use_row-requests a now r b) (u id))

  Step-Follows :
      {a b : ApprovalDb} (h : String) (r : RequestRow)
      → Step encode hash id_of a b
      → IsUnique a
      → find_request a h ≡ some r
      → Follows a b h r
  Step-Follows {a} h r (Step.creates now drawn b ttl) u f =
      create-Follows encode hash id_of a now drawn b ttl h r f
  Step-Follows {a} h r (Step.resolves now token b decision) u f =
      resolve-keeps hash (λ x. Follows a x h r) a now token b decision (Follows-refl a h r f)
        (λ s after g c. Change-Follows a h r u f (hash token) s g c)
  Step-Follows {a} h r (Step.resolves_token now token user decision) u f =
      resolve_token-keeps hash (λ x. Follows a x h r) a now token user decision
        (Follows-refl a h r f) (λ s after g c. Change-Follows a h r u f (hash token) s g c)
  Step-Follows {a} h r (Step.authorizes now token b) u f =
      authorize_receipt-keeps hash (λ x. Follows a x h r) a now token b (Follows-refl a h r f)
        (λ s g. record {
          later = r;
          found = rw (use_row-requests a now s b) f;
          same_id = refl;
          settled = λ p. refl;
          still_used = λ id w. use_row-uses a now s b id w;
        })

  pub Reach-IsUnique : {a b : ApprovalDb} → Reach encode hash id_of a b → IsUnique a → IsUnique b
  Reach-IsUnique Reach.here u = u
  Reach-IsUnique (Reach.next r st) u = Step-IsUnique st (Reach-IsUnique r u)

  -- A request keeps its place and its use over every sequence of transactions, and its row once it is resolved.
  pub Reach-Follows :
      {a b : ApprovalDb} (h : String) (r : RequestRow)
      → Reach encode hash id_of a b
      → IsUnique a
      → find_request a h ≡ some r
      → Follows a b h r
  Reach-Follows h r Reach.here u f = Follows-refl _ h r f
  Reach-Follows h r (Reach.next way st) u f =
      let so_far = Reach-Follows h r way u f in
      let last = Step-Follows h so_far.later st (Reach-IsUnique way u) so_far.found in
      record {
        later = last.later;
        found = last.found;
        same_id = last.same_id ∙ so_far.same_id;
        settled = λ p.
            let same = so_far.settled p in
            last.settled (ap (λ x. is_pending x.state) same ∙ p) ∙ same;
        still_used = λ id w. last.still_used id (so_far.still_used id w);
      }
