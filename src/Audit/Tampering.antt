-- ===== src/Audit/Tampering.antt =====
-- A log that internal/audit/audit.go verifies is fixed by its length and its last hash.
use mosaid.Base.{
  ℕ, suc, ◌≡◌, ◌≢◌, ◌∙◌, refl, sym, ap, String, Bool, true, ◌&&◌, none, List, [], ◌∷◌, arith,
  str_eq, eq_iff, ◌==◌, ◌⊎◌, Bool-cases, inl, inr, length, order_by,
}
use mosaid.Int.{ℤ, pos, negsuc, eq_ℤ}
use mosaid.Audit.{Entry, Payload, payload_of, seq_before, verify_rows, verify}
use mosaid.Audit.Chain.{end_hash, verified_row}

eq_ℤ-eq : (a b : ℤ) → eq_ℤ a b ≡ true → a ≡ b
eq_ℤ-eq (pos a) (pos b) h = ground arith
eq_ℤ-eq (pos a) (negsuc b) h = ground arith
eq_ℤ-eq (negsuc a) (pos b) h = ground arith
eq_ℤ-eq (negsuc a) (negsuc b) h = ground arith

payload_eq : Payload → Payload → Bool
payload_eq p q =
    p.seq == q.seq
    && (str_eq p.at q.at
        && (str_eq p.kind q.kind
            && (eq_ℤ p.user_id q.user_id
                && (str_eq p.resource q.resource
                    && (str_eq p.decision q.decision && str_eq p.prev q.prev)))))

payload_eq-eq : (p q : Payload) → payload_eq p q ≡ true → p ≡ q
unfolding payload_eq
payload_eq-eq p q h = ground (
  arith,
  eq_iff p.at q.at,
  eq_iff p.kind q.kind,
  eq_ℤ-eq p.user_id q.user_id,
  eq_iff p.resource q.resource,
  eq_iff p.decision q.decision,
  eq_iff p.prev q.prev,
)

eq_ℤ_refl : (a : ℤ) → eq_ℤ a a ≡ true
eq_ℤ_refl a = ground arith

payload_eq_refl : (p : Payload) → payload_eq p p ≡ true
unfolding payload_eq
payload_eq_refl p = ground (
  arith,
  eq_iff p.at p.at,
  eq_iff p.kind p.kind,
  eq_ℤ_refl p.user_id,
  eq_iff p.resource p.resource,
  eq_iff p.decision p.decision,
  eq_iff p.prev p.prev,
)

module _ (digest : Payload → String) where
  -- Two payloads with one digest.
  pub record Collision : Type 0 where
    pub first : Payload
    pub second : Payload
    pub apart : first ≢ second
    pub same : digest first ≡ digest second

  same_digest : (p q : Payload) → digest p ≡ digest q → (p ≡ q) ⊎ Collision
  same_digest p q h = elim (Bool-cases (payload_eq p q)) [
    | inl e ↦ inl (payload_eq-eq p q e)
    | inr e ↦ inr record {
      first = p;
      second = q;
      apart = λ s. let no = rw s at e in let yes_too = payload_eq_refl q in cc;
      same = h;
    }
  ]

  same_entry : (x y : Entry) → payload_of x ≡ payload_of y → x.hash ≡ y.hash → x ≡ y
  same_entry x y p h = cc

  same_rows :
      (p q : String) (n : ℕ) (xs ys : List Entry)
      → verify_rows digest p n xs ≡ none
      → verify_rows digest q n ys ≡ none
      → length xs ≡ length ys
      → end_hash p xs ≡ end_hash q ys
      → ((xs ≡ ys) × (p ≡ q)) ⊎ Collision
  same_rows p q n [] [] vx vy l e = inl (refl, e)
  same_rows p q n [] (y ∷ ys) vx vy l e = absurd (omega arith)
  same_rows p q n (x ∷ xs) [] vx vy l e = absurd (omega arith)
  same_rows p q n (x ∷ xs) (y ∷ ys) vx vy l e =
      let fx = verified_row digest p n x xs vx in
      let fy = verified_row digest q n y ys vy in
      elim (same_rows x.hash y.hash (suc n) xs ys fx.3 fy.3 (omega arith) e) [
        | inr c ↦ inr c
        | inl (rest, hash) ↦
            elim (same_digest (payload_of x) (payload_of y) (fx.2 ∙ hash ∙ sym fy.2)) [
              | inr c ↦ inr c
              | inl same ↦
                  let here = same_entry x y same hash in
                  let back : p ≡ q = sym fx.1 ∙ ap (λ (z : Entry). z.prev_hash) here ∙ fy.1 in
                  inl (cc, back)
            ]
      ]

  abbrev pub ordered : List Entry → List Entry
  ordered rows = order_by seq_before rows

  -- Two logs that Verify accepts, with equally many entries and the same hash in the last one, have
  -- the same entries in the same order, or they exhibit two payloads with one digest: who keeps the
  -- number of entries and the last hash sees every later change of the log.
  pub verify_unique :
      (a b : List Entry)
      → verify digest a ≡ none
      → verify digest b ≡ none
      → length (ordered a) ≡ length (ordered b)
      → end_hash "" (ordered a) ≡ end_hash "" (ordered b)
      → (ordered a ≡ ordered b) ⊎ Collision
  unfolding verify
  verify_unique a b va vb l e = elim (same_rows "" "" 1 (ordered a) (ordered b) va vb l e) [
    | inl s ↦ inl s.0
    | inr c ↦ inr c
  ]
