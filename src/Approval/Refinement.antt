-- ===== src/Approval/Refinement.antt =====
-- The methods of internal/approval/approval.go refine the abstract life of a token.
use mosaid.Base.{
  ℕ, ◌≡◌, refl, sym, subst, String, Bool, true, false, ◌||◌, ◌⊎◌, not, none, some, List, [], ◌∷◌,
  ◌++◌, arith, str_eq, eq_iff, if◌then◌else◌, Bool-cases, Option-cases, inl, inr, ltb, exists_where,
  first_where, first_where-last, first_where-append, first_where_unique,
}
use mosaid.Int.{ℤ}
use mosaid.Approval.{
  RequestRow, ApprovalDb, ApprovalState, Binding, has_id, has_hash, is_pending, is_approved,
  is_bound, is_open, uses_id, set_state, expire_row, audit, find_request, create, use_row,
  request_row, request_of,
}
use mosaid.Approval.Single.{
  empty, IsUnique, is_used, Change, keeps, expires, settles, exists_where-append,
}
use mosaid.Approval.Steps.{
  Step, Reach, here, next, creates, resolves, resolves_token, authorizes, resolve-keeps,
  resolve_token-keeps, authorize_receipt-keeps, Reach-IsUnique,
}
use mosaid.Approval.Phases.{
  Move, stays, asks, phase, IsConsistent, phase-none, phase-some, use-Move, changed-Move,
  changed-IsConsistent,
}

-- The tables stay consistent, and each token makes a move.
abbrev pub Kept : ApprovalDb → ApprovalDb → Type 0
Kept a b = IsConsistent b × ((h : String) → Move (phase a h) (phase b h))

Change-Kept :
    (a : ApprovalDb) (h' : String) (r' : RequestRow)
    → IsUnique a
    → IsConsistent a
    → find_request a h' ≡ some r'
    → {b : ApprovalDb} → Change a r' b
    → Kept a b
unfolding audit expire_row set_state
Change-Kept a h' r' u c f' keeps = (c, λ h. stays)
Change-Kept a h' r' u c f' {b} (expires p) =
    let pends : (h : String) (r : RequestRow)
        → find_request a h ≡ some r
        → has_id r'.id r ≡ true
        → is_pending r.state ≡ true =
      λ h r f t.
        subst (λ (x : RequestRow). is_pending x.state ≡ true)
          (sym (
            first_where_unique (has_hash h) (has_hash h') (has_id r'.id) a.requests r r' (u r'.id) f
              f' t ((eq_iff _ _).1 refl)))
          p in
    (
      changed-IsConsistent a b (has_id r'.id) expire_row refl refl (λ h x. refl) (λ x. refl) pends
          c,
      changed-Move a b (has_id r'.id) expire_row refl refl (λ h x. refl) (λ x. refl) pends c,
    )
Change-Kept a h' r' u c f' {b} (settles state now e p) =
    let pends : (h : String) (r : RequestRow)
        → find_request a h ≡ some r
        → is_open r'.id r ≡ true
        → is_pending r.state ≡ true =
      λ h r f t. ground arith in
    (
      changed-IsConsistent a b (is_open r'.id) (set_state state (some now)) refl refl (λ h x. refl)
          (λ x. refl) pends c,
      changed-Move a b (is_open r'.id) (set_state state (some now)) refl refl (λ h x. refl)
          (λ x. refl) pends c,
    )

exists_where-last_cases {ℓ} :
    {A : Type ℓ} (p : A → Bool) (xs : List A) (x : A)
    → exists_where p (xs ++ x ∷ []) ≡ true
    → (exists_where p xs ≡ true) ⊎ (p x ≡ true)
exists_where-last_cases p [] x h = inr (ground arith)
exists_where-last_cases p (y ∷ xs) x h = elim (Bool-cases (p y)) [
  | inl e ↦ inl (ground arith)
  | inr e ↦ elim (exists_where-last_cases p xs x (ground arith)) [
    | inl t ↦ inl (ground arith)
    | inr t ↦ inr t
  ]
]

first_where-exists :
    (p q : RequestRow → Bool) (rows : List RequestRow) (r : RequestRow)
    → first_where p rows ≡ some r
    → q r ≡ true
    → exists_where q rows ≡ true
first_where-exists p q [] r h t = cc
first_where-exists p q (x ∷ rows) r h t = elim (Bool-cases (p x)) [
  | inl e ↦ let same : x ≡ r = ground arith in let mine : q x ≡ true = rw same t in ground arith
  | inr e ↦ ground (arith, first_where-exists p q rows r)
]

-- The use of an approved row that is found.
used-Kept :
    (a b : ApprovalDb) (h' : String) (r' : RequestRow)
    → IsUnique a
    → IsConsistent a
    → find_request a h' ≡ some r'
    → is_approved r'.state ≡ true
    → b.requests ≡ a.requests
    → ((id : String) → is_used a id ≡ true → is_used b id ≡ true)
    → ((id : String) → is_used b id ≡ true → (is_used a id ≡ true) ⊎ (str_eq r'.id id ≡ true))
    → Kept a b
used-Kept a b h' r' u c f' ok requests grows splits = (
  record {
    of_row = λ id w. rw requests (elim (splits id w) [
      | inl before ↦ c.of_row id before
      | inr mine ↦ first_where-exists (has_hash h') (has_id id) a.requests r' f' mine
    ]);
    of_approved = λ h r f w.
        let g : find_request a h ≡ some r = rw requests at f in
        elim (splits r.id w) [
          | inl before ↦ c.of_approved h r g before
          | inr mine ↦
              let same : r ≡ r' =
                first_where_unique (has_hash h) (has_hash h') (has_id r.id) a.requests r r' (u r.id)
                  g f' ((eq_iff _ _).1 refl) mine in
              rw same ok
        ];
  },
  λ h. elim (Option-cases (find_request a h)) [
    | inl f ↦
        let g : find_request b h ≡ none = rw requests f in
        rw (phase-none a h f, phase-none b h g) stays
    | inr (r, f) ↦
        let g : find_request b h ≡ some r = rw requests f in
        rw (phase-some a h r f, phase-some b h r g) (use-Move r.state _ _ (grows r.id))
  ],
)

use_row-Kept :
    (a : ApprovalDb) (now : ℕ) (h' : String) (r' : RequestRow) (b : Binding)
    → IsUnique a
    → IsConsistent a
    → find_request a h' ≡ some r'
    → Kept a (use_row a now r' b).0
unfolding use_row
use_row-Kept a now h' r' b u c f' = elim (Bool-cases (ltb now r'.expires_at)) [
  | inr e ↦ rw (e, use_row) (c, λ h. stays)
  | inl e ↦ elim (Bool-cases (not (is_approved r'.state) || not (is_bound r' b))) [
    | inl o ↦ rw (e, use_row, o) (c, λ h. stays)
    | inr o ↦ elim (Bool-cases (exists_where (uses_id r'.id) a.uses)) [
      | inl t ↦ rw (e, use_row, o, t) (c, λ h. stays)
      | inr t ↦
          rw (e, use_row, o, t)
            (used-Kept a _ h' r' u c f' (ground arith) refl
              (λ id w. exists_where-append (uses_id id) a.uses _ w)
              (λ id w. exists_where-last_cases (uses_id id) a.uses _ w))
    ]
  ]
]

-- A pending row with an identifier that is new.
module _ (a b : ApprovalDb) (row : RequestRow) (requests : b.requests ≡ a.requests ++ row ∷ [])
    (uses : b.uses ≡ a.uses) (waits : row.state ≡ ApprovalState.pending)
    (fresh : exists_where (has_id row.id) a.requests ≡ false) (c : IsConsistent a) where
  fresh-unused : is_used b row.id ≡ false
  fresh-unused = rw uses (elim (Bool-cases (is_used a row.id)) [
    | inr u ↦ u
    | inl u ↦ let no = c.of_row row.id u in cc
  ])

  added_later :
      (h : String) (r : RequestRow) → find_request a h ≡ some r → find_request b h ≡ some r
  added_later h r f = rw requests (first_where-append (has_hash h) a.requests (row ∷ []) r f)

  added_new :
      (h : String)
      → find_request a h ≡ none
      → find_request b h ≡ (if has_hash h row then some row else none)
  added_new h f = rw requests (first_where-last (has_hash h) a.requests row f)

  added-IsConsistent : IsConsistent b
  added-IsConsistent = record {
    of_row = λ id u.
        rw requests
          (exists_where-append (has_id id) a.requests (row ∷ []) (c.of_row id (rw uses at u)));
    of_approved = λ h r f u. elim (Option-cases (find_request a h)) [
      | inr (s, g) ↦
          let same : s ≡ r = let there = added_later h s g in ground (arith, there, f) in
          c.of_approved h r (subst (λ x. find_request a h ≡ some x) same g) (rw uses at u)
      | inl g ↦ elim (Bool-cases (has_hash h row)) [
        | inr t ↦ let no : find_request b h ≡ none = rw t at (added_new h g) in cc
        | inl t ↦
            let there : find_request b h ≡ some row = rw t at (added_new h g) in
            let same : row ≡ r = ground (arith, there, f) in
            let used : is_used b row.id ≡ true = rw same u in let no = fresh-unused in cc
      ]
    ];
  }

  added-Move : (h : String) → Move (phase a h) (phase b h)
  added-Move h = elim (Option-cases (find_request a h)) [
    | inr (s, g) ↦
        let same : is_used b s.id ≡ is_used a s.id = rw uses refl in
        rw (phase-some a h s g, phase-some b h s (added_later h s g), same) stays
    | inl g ↦ elim (Bool-cases (has_hash h row)) [
      | inr t ↦
          let no : find_request b h ≡ none = rw t at (added_new h g) in
          rw (phase-none a h g, phase-none b h no) stays
      | inl t ↦
          let there : find_request b h ≡ some row = rw t at (added_new h g) in
          rw (phase-none a h g, phase-some b h row there, waits) asks
    ]
  ]

module _ (encode : List ℕ → String) (hash : String → String) (id_of : List ℕ → String) where
  create-Kept :
      (a : ApprovalDb) (now : ℕ) (drawn : List ℕ) (b : Binding) (ttl : ℤ)
      → IsConsistent a
      → Kept a (create encode hash id_of a now drawn b ttl).0
  unfolding create audit
  create-Kept a now drawn b ttl c =
      let n = request_of encode hash id_of drawn b now ttl in
      elim (Bool-cases (
        exists_where (has_id n.id) a.requests
        || exists_where (has_hash (hash n.token)) a.requests)) [
          | inl e ↦ rw (e, create) (c, λ h. stays)
          | inr e ↦
              rw (e, create)
                (
                  added-IsConsistent a _ (request_row encode hash id_of n now) refl refl refl
                      (ground arith) c,
                  added-Move a _ (request_row encode hash id_of n now) refl refl refl (ground arith)
                      c,
                )
        ]

  Step-Kept :
      {a b : ApprovalDb} → IsUnique a → IsConsistent a → Step encode hash id_of a b → Kept a b
  Step-Kept {a} u c (creates now drawn b ttl) = create-Kept a now drawn b ttl c
  Step-Kept {a} u c (resolves now token b decision) =
      resolve-keeps hash (Kept a) a now token b decision (c, λ h. stays)
        (λ r after f change. Change-Kept a (hash token) r u c f change)
  Step-Kept {a} u c (resolves_token now token user decision) =
      resolve_token-keeps hash (Kept a) a now token user decision (c, λ h. stays)
        (λ r after f change. Change-Kept a (hash token) r u c f change)
  Step-Kept {a} u c (authorizes now token b) =
      authorize_receipt-keeps hash (Kept a) a now token b (c, λ h. stays)
        (λ r f. use_row-Kept a now (hash token) r b u c f)

  empty-IsUnique : IsUnique empty
  empty-IsUnique id = omega arith

  Reach-IsConsistent : {a : ApprovalDb} → Reach encode hash id_of empty a → IsConsistent a
  Reach-IsConsistent here = record { of_row = λ id u. cc; of_approved = λ h r f u. cc }
  Reach-IsConsistent (next way step) =
      (Step-Kept (Reach-IsUnique encode hash id_of way empty-IsUnique) (Reach-IsConsistent way)
        step).0

  -- Each transaction refines the abstract life of every token: on tables reached from empty ones, the
  -- token of any hash stays in its phase, or it is asked for, is approved, turned down or lapses after
  -- it was asked for, or is spent after it was approved.
  pub Step-Move :
      {a b : ApprovalDb} (h : String)
      → Reach encode hash id_of empty a
      → Step encode hash id_of a b
      → Move (phase a h) (phase b h)
  Step-Move h way step =
      (Step-Kept (Reach-IsUnique encode hash id_of way empty-IsUnique) (Reach-IsConsistent way)
          step).1
        h
