-- ===== src/Approval/Uses.antt =====
-- What an authorization by internal/approval/approval.go means, and that it happens once.
use mosaid.Base.{
  ℕ, ◌<◌, ◌≡◌, refl, sym, String, Bool, true, false, not, none, some, List, [], ◌∷◌, ◌++◌, arith,
  eq_iff, if◌then◌else◌, Bool-cases, Option-cases, inl, inr, ltb, ◌==◌, first_where-update,
  update_where, count_where, exists_where, first_where, subst, ◌||◌,
}
use mosaid.Approval.{
  ApprovalState, RequestRow, ApprovalDb, Binding, pending, approved, denied, ApprovalError, Receipt,
  granted, refused, has_id, has_hash, is_pending, is_approved, is_bound, uses_id, find_request,
  resolve, authorize_receipt, use_row, receipt_of, not_authorized, already_used, set_state, is_open,
  audit, resolve_row, decided_state,
}
use mosaid.Approval.Single.{empty, IsUnique, is_used}
use mosaid.Approval.Steps.{Reach, Step, Reach-IsUnique, Reach-Follows}

-- What a receipt says of the tables before and after.
pub record Grants (before : ApprovalDb) (now : ℕ) (h : String) (b : Binding) (after : ApprovalDb)
    (receipt : Receipt) : Type 0 where
  pub row : RequestRow
  pub found : find_request before h ≡ some row
  pub state : row.state ≡ approved
  pub bound : is_bound row b ≡ true
  pub in_time : now < row.expires_at
  pub unused : is_used before row.id ≡ false
  pub used : is_used after row.id ≡ true
  pub requests : after.requests ≡ before.requests
  pub of_row : receipt ≡ receipt_of row

exists_where-last {ℓ} :
    {A : Type ℓ} (p : A → Bool) (xs : List A) (x : A)
    → p x ≡ true
    → exists_where p (xs ++ x ∷ []) ≡ true
exists_where-last p [] x h = ground arith
exists_where-last p (y ∷ xs) x h = ground (arith, exists_where-last p xs x h)

use_row-Grants :
    (db : ApprovalDb) (now : ℕ) (h : String) (r : RequestRow) (b : Binding) (receipt : Receipt)
    → find_request db h ≡ some r
    → (use_row db now r b).1 ≡ granted receipt
    → Grants db now h b (use_row db now r b).0 receipt
unfolding use_row
use_row-Grants db now h r b receipt f g = elim (Bool-cases (ltb now r.expires_at)) [
  | inr e ↦ let no = rw e at g in cc
  | inl e ↦ elim (Bool-cases (not (is_approved r.state) || not (is_bound r b))) [
    | inl o ↦ let no = rw (e, o) at g in cc
    | inr o ↦ elim (Bool-cases (exists_where (uses_id r.id) db.uses)) [
      | inl u ↦ let no = rw (e, o, u) at g in cc
      | inr u ↦
          rw (e, o, u)
            record {
              row = r;
              found = f;
              state = ground arith;
              bound = ground arith;
              in_time = ground arith;
              unused = u;
              used = exists_where-last (uses_id r.id) db.uses _ ((eq_iff _ _).1 refl);
              requests = refl;
              of_row = let same = rw (e, o, u) at g in cc;
            }
    ]
  ]
]

module _ (hash : String → String) where
  -- A receipt is given only where the token's row is approved, not expired, bound to the caller's
  -- user, tool, arguments and resource and not used yet; it records the use, leaves the requests
  -- as they are, and shows that row's binding.
  pub authorize_receipt-Grants :
      (db : ApprovalDb) (now : ℕ) (token : String) (b : Binding) (receipt : Receipt)
      → (authorize_receipt hash db now token b).1 ≡ granted receipt
      → Grants db now (hash token) b (authorize_receipt hash db now token b).0 receipt
  unfolding authorize_receipt
  authorize_receipt-Grants db now token b receipt g =
      elim (Option-cases (find_request db (hash token))) [
        | inl f ↦ let no = rw (f, authorize_receipt) at g in cc
        | inr (r, f) ↦
            rw (f, authorize_receipt)
              (use_row-Grants db now (hash token) r b receipt f (rw (f, authorize_receipt) at g))
      ]

  -- A row that is used or is settled otherwise than approved gives no receipt.
  refuses :
      (db : ApprovalDb) (now : ℕ) (token : String) (b : Binding) (r : RequestRow)
      → find_request db (hash token) ≡ some r
      → (is_used db r.id || not (is_approved r.state)) ≡ true
      → (e : ApprovalError) × (authorize_receipt hash db now token b ≡ (db, refused e))
  unfolding use_row authorize_receipt
  refuses db now token b r f w = elim (Bool-cases (ltb now r.expires_at)) [
    | inr e ↦ (ApprovalError.expired, rw (f, authorize_receipt, e) refl)
    | inl e ↦ elim (Bool-cases (not (is_approved r.state) || not (is_bound r b))) [
      | inl o ↦ (not_authorized, rw (f, authorize_receipt, e, o) refl)
      | inr o ↦
          let u : exists_where (uses_id r.id) db.uses ≡ true = ground arith in
          (already_used, rw (f, authorize_receipt, e, o, u) refl)
    ]
  ]

-- A row that stands for a token with a decision, since `now`.
pub record Decided (db : ApprovalDb) (h : String) (decision : String) (now : ℕ) : Type 0 where
  pub row : RequestRow
  pub found : find_request db h ≡ some row
  pub state : decided_state decision ≡ some row.state
  pub resolved : row.resolved_at ≡ some now

resolve_row-Decided :
    (db : ApprovalDb) (now : ℕ) (h : String) (r : RequestRow) (b : Binding) (decision : String)
    (state : ApprovalState)
    → find_request db h ≡ some r
    → decided_state decision ≡ some state
    → (resolve_row db now r b decision state).1 ≡ none
    → Decided (resolve_row db now r b decision state).0 h decision now
unfolding resolve_row audit set_state
resolve_row-Decided db now h r b decision state f d n = elim (Bool-cases (is_pending r.state)) [
  | inr p ↦ let no = rw p at n in cc
  | inl p ↦ elim (Bool-cases (ltb r.expires_at now)) [
    | inl l ↦ let no = rw (p, l) at n in cc
    | inr l ↦ elim (Bool-cases (is_bound r b)) [
      | inr m ↦ let no = rw (p, l, m) at n in cc
      | inl m ↦ elim (Bool-cases (count_where (is_open r.id) db.requests == 1)) [
        | inr o ↦ let no = rw (p, l, m, o) at n in cc
        | inl o ↦
            let mine : has_id r.id r ≡ true = (eq_iff r.id r.id).1 refl in
            let taken : is_open r.id r ≡ true = ground arith in
            let settle = set_state state (some now) in
            let moved : first_where (has_hash h) (update_where (is_open r.id) settle db.requests)
                ≡ some (if is_open r.id r then settle r else r) =
              first_where-update (has_hash h) (is_open r.id) settle (λ x. refl) db.requests r f in
            rw (p, l, m, o)
              record { row = settle r; found = rw taken at moved; state = d; resolved = refl }
      ]
    ]
  ]
]

resolve-Decided :
    (hash : String → String) (db : ApprovalDb) (now : ℕ) (token : String) (b : Binding)
    (decision : String)
    → (resolve hash db now token b decision).1 ≡ none
    → Decided (resolve hash db now token b decision).0 (hash token) decision now
unfolding resolve
resolve-Decided hash db now token b decision n = elim (Option-cases (decided_state decision)) [
  | inl e ↦ let no = rw (e, resolve) at n in cc
  | inr (state, e) ↦ elim (Option-cases (find_request db (hash token))) [
    | inl f ↦ let no = rw (e, f, resolve) at n in cc
    | inr (r, f) ↦
        rw (e, f, resolve)
          (resolve_row-Decided db now (hash token) r b decision state f e (rw (e, f, resolve) at n))
  ]
]

decided-settled :
    (decision : String) (state : ApprovalState)
    → decided_state decision ≡ some state
    → is_pending state ≡ false
unfolding decided_state
decided-settled decision pending d = ground arith
decided-settled decision approved d = refl
decided-settled decision denied d = refl
decided-settled decision ApprovalState.expired d = refl

module _ (encode : List ℕ → String) (hash : String → String) (id_of : List ℕ → String) where
  empty-IsUnique : IsUnique empty
  empty-IsUnique id = omega arith

  -- A token authorizes once: after the transaction that gave a receipt for it, in tables reached
  -- from empty ones, and after any transactions that follow, every authorization with this token is
  -- refused and changes nothing, whatever the time and the binding.
  pub authorizes_once :
      {db later : ApprovalDb} (now now_later : ℕ) (token : String) (b b_later : Binding)
      (receipt : Receipt)
      → Reach encode hash id_of empty db
      → (authorize_receipt hash db now token b).1 ≡ granted receipt
      → Reach encode hash id_of (authorize_receipt hash db now token b).0 later
      → (e : ApprovalError) × (authorize_receipt hash later now_later token b_later
          ≡ (later, refused e))
  authorizes_once {db} {later} now now_later token b b_later receipt start g way =
      let grant = authorize_receipt-Grants hash db now token b receipt g in
      let u = Reach-IsUnique encode hash id_of start empty-IsUnique in
      let after = (authorize_receipt hash db now token b).0 in
      let after_u : IsUnique after = λ id. rw grant.requests (u id) in
      let after_found : find_request after (hash token) ≡ some grant.row =
        rw grant.requests grant.found in
      let last = Reach-Follows encode hash id_of (hash token) grant.row way after_u after_found in
      let used : is_used later last.later.id ≡ true =
        rw last.same_id (last.still_used grant.row.id grant.used) in
      refuses hash later now_later token b_later last.later last.found (rw used refl)

  -- What Resolve decided stands: after a resolution without error, in tables reached from empty
  -- ones, and after any transactions that follow, the token's row has the state of the decision and
  -- the time of that resolution.
  pub resolve-stands :
      {db later : ApprovalDb} (now : ℕ) (token : String) (b : Binding) (decision : String)
      → Reach encode hash id_of empty db
      → (resolve hash db now token b decision).1 ≡ none
      → Reach encode hash id_of (resolve hash db now token b decision).0 later
      → Decided later (hash token) decision now
  resolve-stands {db} {later} now token b decision start n way =
      let decided = resolve-Decided hash db now token b decision n in
      let whole = Reach.next start (Step.resolves now token b decision) in
      let u = Reach-IsUnique encode hash id_of whole empty-IsUnique in
      let last = Reach-Follows encode hash id_of (hash token) decided.row way u decided.found in
      let same = last.settled (decided-settled decision _ decided.state) in
      record {
        row = decided.row;
        found = subst (λ r. find_request later (hash token) ≡ some r) same last.found;
        state = decided.state;
        resolved = decided.resolved;
      }

  -- A request that was denied is never authorized, by any later transaction on tables reached from
  -- empty ones.
  pub denied-refused :
      {db later : ApprovalDb} (now now_later : ℕ) (token : String) (b b_later : Binding)
      → Reach encode hash id_of empty db
      → (resolve hash db now token b "denied").1 ≡ none
      → Reach encode hash id_of (resolve hash db now token b "denied").0 later
      → (e : ApprovalError) × (authorize_receipt hash later now_later token b_later
          ≡ (later, refused e))
  unfolding decided_state
  denied-refused {db} {later} now now_later token b b_later start n way =
      let stands = resolve-stands {later = later} now token b "denied" start n way in
      let is : denied ≡ stands.row.state = let same = stands.state in cc in
      refuses hash later now_later token b_later stands.row stands.found
        (rw (sym is) (ground arith))
