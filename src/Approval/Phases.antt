-- ===== src/Approval/Phases.antt =====
-- The abstract life of a token of internal/approval/approval.go, and the refinement: each transaction
-- moves each token as that life allows.
use mosaid.Base.{
  ◌≡◌, ◌∙◌, refl, sym, ap, subst, String, Bool, true, false, none, some, List, [], ◌∷◌, arith,
  str_eq, if◌then◌else◌, Bool-cases, Option-cases, inl, inr, update_where, exists_where,
  first_where-update, first_where-update_none,
}
use mosaid.Approval.{
  RequestRow, ApprovalDb, ApprovalState, pending, approved, denied, has_id, has_hash, is_pending,
  is_approved, find_request,
}
use mosaid.Approval.Single.{is_used}

pub data Phase : Type 0 where
  absent waiting allowed spent turned_down lapsed : Phase

-- The life of a token. It is asked for once and decided once, and it is spent once, which only an
-- approved token can be.
pub data Move : Phase → Phase → Type 0 where
  stays : {p : Phase} → Move p p
  asks : Move absent waiting
  approves : Move waiting allowed
  turns_down : Move waiting turned_down
  lapses : Move waiting lapsed
  spends : Move allowed spent

abbrev pub row_phase : ApprovalState → Bool → Phase
row_phase pending used = waiting
row_phase approved false = allowed
row_phase approved true = spent
row_phase denied used = turned_down
row_phase ApprovalState.expired used = lapsed

-- The phase of a token, by its hash.
unfoldable pub phase : ApprovalDb → String → Phase
phase db h = elim (find_request db h) [
  | none ↦ absent
  | some r ↦ row_phase r.state (is_used db r.id)
]

-- Uses are of rows, and of approved ones.
pub record IsConsistent (db : ApprovalDb) : Type 0 where
  pub of_row : (id : String) → is_used db id ≡ true → exists_where (has_id id) db.requests ≡ true
  pub of_approved :
      (h : String) (r : RequestRow)
      → find_request db h ≡ some r
      → is_used db r.id ≡ true
      → is_approved r.state ≡ true

pub phase-none : (db : ApprovalDb) (h : String) → find_request db h ≡ none → phase db h ≡ absent
unfolding phase
phase-none db h f = rw (f, phase) refl

pub phase-some :
    (db : ApprovalDb) (h : String) (r : RequestRow)
    → find_request db h ≡ some r
    → phase db h ≡ row_phase r.state (is_used db r.id)
unfolding phase
phase-some db h r f = rw (f, phase) refl

pending_not_approved : (s : ApprovalState) → is_pending s ≡ true → is_approved s ≡ true → ⊥
pending_not_approved s p a = ground arith

pub use-Move :
    (s : ApprovalState) (before after : Bool)
    → (before ≡ true → after ≡ true)
    → Move (row_phase s before) (row_phase s after)
use-Move pending before after k = stays
use-Move approved false false k = stays
use-Move approved false true k = spends
use-Move approved true true k = stays
use-Move approved true false k = let no = k refl in cc
use-Move denied before after k = stays
use-Move ApprovalState.expired before after k = stays

change-Move :
    (old new : ApprovalState) (used : Bool)
    → is_pending old ≡ true
    → used ≡ false
    → Move (row_phase old used) (row_phase new used)
change-Move pending pending used p u = stays
change-Move pending approved used p u = rw u approves
change-Move pending denied used p u = turns_down
change-Move pending ApprovalState.expired used p u = lapses
change-Move approved new used p u = cc
change-Move denied new used p u = cc
change-Move ApprovalState.expired new used p u = cc

exists_where-updated :
    (p q : RequestRow → Bool) (g : RequestRow → RequestRow)
    → ((x : RequestRow) → p (g x) ≡ p x)
    → (rows : List RequestRow) → exists_where p rows ≡ true
    → exists_where p (update_where q g rows) ≡ true
exists_where-updated p q g k [] h = cc
exists_where-updated p q g k (x ∷ rows) h = elim (Bool-cases (q x)) [
  | inl e ↦ ground (arith, k x, exists_where-updated p q g k rows)
  | inr e ↦ ground (arith, exists_where-updated p q g k rows)
]

-- Rows that pass `q`, which are pending, are changed by `g`.
module _ (a b : ApprovalDb) (q : RequestRow → Bool) (g : RequestRow → RequestRow)
    (requests : b.requests ≡ update_where q g a.requests) (uses : b.uses ≡ a.uses)
    (same_hash : (h : String) (x : RequestRow) → has_hash h (g x) ≡ has_hash h x)
    (same_id : (x : RequestRow) → (g x).id ≡ x.id)
    (takes_pending : (h : String) (r : RequestRow)
      → find_request a h ≡ some r
      → q r ≡ true
      → is_pending r.state ≡ true)
    (c : IsConsistent a) where
  kept_none : (h : String) → find_request a h ≡ none → find_request b h ≡ none
  kept_none h f = rw requests (first_where-update_none (has_hash h) q g (same_hash h) a.requests f)

  kept_some :
      (h : String) (r : RequestRow)
      → find_request a h ≡ some r
      → find_request b h ≡ some (if q r then g r else r)
  kept_some h r f = rw requests (first_where-update (has_hash h) q g (same_hash h) a.requests r f)

  same_uses : (id : String) → is_used b id ≡ is_used a id
  same_uses id = rw uses refl

  unused :
      (h : String) (r : RequestRow)
      → find_request a h ≡ some r
      → q r ≡ true
      → is_used a r.id ≡ false
  unused h r f t = elim (Bool-cases (is_used a r.id)) [
    | inr u ↦ u
    | inl u ↦
        let p = takes_pending h r f t in
        let no = c.of_approved h r f u in absurd (pending_not_approved r.state p no)
  ]

  pub changed-Move : (h : String) → Move (phase a h) (phase b h)
  changed-Move h = elim (Option-cases (find_request a h)) [
    | inl f ↦ rw (phase-none a h f, phase-none b h (kept_none h f)) stays
    | inr (r, f) ↦ elim (Bool-cases (q r)) [
      | inr t ↦
          let found : find_request b h ≡ some r = rw t at (kept_some h r f) in
          rw (phase-some a h r f, phase-some b h r found, same_uses r.id) stays
      | inl t ↦
          let found : find_request b h ≡ some (g r) = rw t at (kept_some h r f) in
          rw (phase-some a h r f, phase-some b h (g r) found, same_id r, same_uses r.id)
            (change-Move r.state (g r).state (is_used a r.id) (takes_pending h r f t)
              (unused h r f t))
    ]
  ]

  pub changed-IsConsistent : IsConsistent b
  changed-IsConsistent = record {
    of_row = λ id u. rw requests (
        exists_where-updated (has_id id) q g (λ x. ap (λ i. str_eq i id) (same_id x)) a.requests
          (c.of_row id (sym (same_uses id) ∙ u)));
    of_approved = λ h s f u. elim (Option-cases (find_request a h)) [
      | inl n ↦ let none_there = kept_none h n in cc
      | inr (r, e) ↦ elim (Bool-cases (q r)) [
        | inr t ↦
            let found : find_request b h ≡ some r = rw t at (kept_some h r e) in
            let same : r ≡ s = ground (arith, found, f) in
            subst (λ x. is_used b x.id ≡ true → is_approved x.state ≡ true) same
              (λ w. c.of_approved h r e (sym (same_uses r.id) ∙ w)) u
        | inl t ↦
            let found : find_request b h ≡ some (g r) = rw t at (kept_some h r e) in
            let same : g r ≡ s = ground (arith, found, f) in
            let used : is_used b (g r).id ≡ true = rw same u in
            let used_before : is_used a r.id ≡ true =
              sym (same_uses r.id) ∙ sym (ap (is_used b) (same_id r)) ∙ used in
            let no = unused h r e t in cc
      ]
    ];
  }
