-- ===== src/Audit/Chain.antt =====
-- What internal/audit/audit.go appends, it verifies.
use mosaid.Base.{
  ℕ, suc, ◌+◌, ◌≡◌, refl, String, true, none, some, List, [], ◌∷◌, ◌++◌, arith, str_eq, eq_iff, ltb,
  ◌==◌, ◌||◌, Bool-cases, inl, inr, length, exists_where, order_by,
}
use mosaid.Audit.{
  Entry, Payload, payload_of, latest, seq_before, chained, append, verify_rows, verify,
}

abbrev pub end_hash : String → List Entry → String
end_hash p [] = p
end_hash p (e ∷ rows) = end_hash e.hash rows

module _ (digest : Payload → String) where
  -- The facts of the first row of rows that are verified.
  pub verified_row :
      (p : String) (n : ℕ) (e : Entry) (rows : List Entry)
      → verify_rows digest p n (e ∷ rows) ≡ none
      → (e.seq ≡ n)
        × (e.prev_hash ≡ p)
        × (digest (payload_of e) ≡ e.hash)
        × (verify_rows digest e.hash (suc n) rows ≡ none)
  unfolding verify_rows
  verified_row p n e rows h =
      ground (arith, eq_iff e.prev_hash p, eq_iff (digest (payload_of e)) e.hash)

  verify_rows-cons :
      (p : String) (n : ℕ) (e : Entry) (rows : List Entry)
      → e.seq ≡ n
      → e.prev_hash ≡ p
      → digest (payload_of e) ≡ e.hash
      → verify_rows digest e.hash (suc n) rows ≡ none
      → verify_rows digest p n (e ∷ rows) ≡ none
  unfolding verify_rows
  verify_rows-cons p n e rows s l d r =
      ground (arith, eq_iff e.prev_hash p, eq_iff (digest (payload_of e)) e.hash)

  -- Verified rows are in order.
  order_by-verified :
      (p : String) (n : ℕ) (rows : List Entry)
      → verify_rows digest p n rows ≡ none
      → order_by seq_before rows ≡ rows
  order_by-verified p n [] h = refl
  order_by-verified p n (e ∷ []) h = refl
  order_by-verified p n (e ∷ d ∷ rows) h =
      let first = verified_row p n e (d ∷ rows) h in
      let second = verified_row e.hash (suc n) d rows first.3 in
      let rest = order_by-verified e.hash (suc n) (d ∷ rows) first.3 in
      rw rest (ground (arith, first.0, second.0))

  latest-verified :
      (p : String) (n : ℕ) (e : Entry) (rows : List Entry)
      → verify_rows digest p n (e ∷ rows) ≡ none
      → (l : Entry) × (latest (e ∷ rows) ≡ some l)
        × (l.seq ≡ n + length rows)
        × (l.hash ≡ end_hash p (e ∷ rows))
  latest-verified p n e [] h =
      let first = verified_row p n e [] h in (e, refl, omega (arith, first.0), refl)
  latest-verified p n e (d ∷ rows) h =
      let first = verified_row p n e (d ∷ rows) h in
      let (l, found, seq, hash) = latest-verified e.hash (suc n) d rows first.3 in
      let above : ltb e.seq l.seq ≡ true = ground (arith, first.0, seq) in
      (l, rw (found, above) refl, omega (arith, seq), hash)

  verify_rows-append :
      (p : String) (n : ℕ) (rows : List Entry) (e : Entry)
      → verify_rows digest p n rows ≡ none
      → e.seq ≡ n + length rows
      → e.prev_hash ≡ end_hash p rows
      → digest (payload_of e) ≡ e.hash
      → verify_rows digest p n (rows ++ e ∷ []) ≡ none
  unfolding verify_rows
  verify_rows-append p n [] e h s l d = verify_rows-cons p n e [] (omega (arith, s)) l d refl
  verify_rows-append p n (x ∷ rows) e h s l d =
      let first = verified_row p n x rows h in
      verify_rows-cons p n x (rows ++ e ∷ []) first.0 first.1 first.2
        (verify_rows-append x.hash (suc n) rows e first.3 (omega (arith, s)) l d)

  chained-end :
      (rows : List Entry) (at : String) (e : Entry)
      → verify_rows digest "" 1 rows ≡ none
      → ((chained digest (latest rows) at e).seq ≡ 1 + length rows)
        × ((chained digest (latest rows) at e).prev_hash ≡ end_hash "" rows)
        × (digest (payload_of (chained digest (latest rows) at e))
            ≡ (chained digest (latest rows) at e).hash)
  unfolding chained
  chained-end [] at e h = (refl, refl, refl)
  chained-end (x ∷ rows) at e h =
      let (l, found, seq, hash) = latest-verified "" 1 x rows h in
      rw found (omega (arith, seq), hash, refl)

  append-verified :
      (rows : List Entry) (at : String) (e : Entry)
      → verify_rows digest "" 1 rows ≡ none
      → verify_rows digest "" 1 (append digest rows at e).0 ≡ none
  unfolding append
  append-verified rows at e h =
      let row = chained digest (latest rows) at e in
      let (seq, prev, hash) = chained-end rows at e h in
      elim (Bool-cases (
        exists_where (λ (x : Entry). x.seq == row.seq) rows
        || exists_where (λ (x : Entry). str_eq x.hash row.hash) rows)) [
          | inl t ↦ rw t h
          | inr t ↦ rw t (verify_rows-append "" 1 rows row h seq prev hash)
        ]

  -- The table after some appends, each with the time that it writes.
  abbrev pub written : List Entry → List (String × Entry) → List Entry
  written rows [] = rows
  written rows ((at, e) ∷ rest) = written (append digest rows at e).0 rest

  written-verified :
      (inputs : List (String × Entry)) (rows : List Entry)
      → verify_rows digest "" 1 rows ≡ none
      → verify_rows digest "" 1 (written rows inputs) ≡ none
  written-verified [] rows h = h
  written-verified ((at, e) ∷ rest) rows h = written-verified rest _ (append-verified rows at e h)

  -- Verify accepts every log that Append wrote: any entries, one after the other from the empty
  -- table, whatever their fields and times and whichever appends fail.
  pub verify-written : (inputs : List (String × Entry)) → verify digest (written [] inputs) ≡ none
  unfolding verify verify_rows
  verify-written inputs =
      let h = written-verified inputs [] refl in rw (order_by-verified "" 1 (written [] inputs) h) h
