-- ===== src/Budget/Calls.antt =====
-- How many tool calls a budget of internal/security/limits.go lets through.
use mosaid.Base.{
  ℕ, ◌+◌, ◌^◌, ◌≤◌, ◌<◌, ◌≡◌, ◌∙◌, refl, Bool, true, false, ◌&&◌, ◌||◌, not, some, List, [], ◌∷◌,
  subst, arith, if◌then◌else◌, Bool-cases, inl, inr, bit,
}
use mosaid.Int.{pos, ltb_ℤ, add_int}
use mosaid.Budget.{
  Usage, Budget, Use, model_step, tool, retry, some_tokens, some_cost, nothing_used, new_budget,
  total, goes_over, consume, use_budget,
}

abbrev pub is_tool : {F : Type 0} → Use F → Bool
is_tool tool = true
is_tool _ = false

module _ {F : Type 0} (zero_cost : F) (add : F → F → F) (exceeds : F → F → Bool)
    (is_usable is_limit : F → Bool) where
  -- The uses in turn: how many tool calls are let through.
  abbrev pub calls : Budget F → List (Use F) → ℕ
  calls b [] = 0
  calls b (u ∷ us) =
      let (after, ok) = use_budget zero_cost add exceeds is_usable is_limit b u in
      bit (ok && is_tool u) + calls after us

  -- After `k` calls of `n` the budget has this much left.
  pub record Counts (n k : ℕ) (b : Budget F) : Type 0 where
    pub limit : b.limits.tool_calls ≡ pos n
    pub used : b.used.tool_calls ≡ pos k
    pub within : k ≤ n

  consume-Counts :
      (n k j : ℕ) (b : Budget F) (delta : Usage F)
      → n + 1 < 2 ^ 63
      → j ≤ 1
      → delta.tool_calls ≡ pos j
      → Counts n k b
      → let (after, ok) = consume zero_cost add exceeds is_usable is_limit b delta in
        Counts n (k + (if ok then j else 0)) after
  unfolding consume total goes_over
  consume-Counts n k j b delta small one d c =
      elim (Bool-cases (
        goes_over zero_cost add exceeds is_usable is_limit
          (total zero_cost add exceeds is_usable is_limit b.used delta) b.limits)) [
            | inl e ↦ rw e record {
              limit = c.limit;
              used = c.used ∙ ground arith;
              within = ground (arith, c.within);
            }
            | inr e ↦
                let sum : add_int b.used.tool_calls delta.tool_calls ≡ pos (k + j) =
                  rw (c.used, d) (ground arith) in
                let under : ltb_ℤ b.limits.tool_calls (add_int b.used.tool_calls delta.tool_calls)
                    ≡ false =
                  ground arith in
                let bound : k + j ≤ n = let fact = rw (c.limit, sum) at under in ground arith in
                rw e record { limit = c.limit; used = sum; within = bound }
          ]

  taken : {n k m : ℕ} {b : Budget F} → k ≡ m → Counts n k b → Counts n m b
  taken {n} {k} {m} {b} e c = subst (λ i. Counts n i b) e c

  tool_count : (k : ℕ) (ok : Bool) → k + (if ok then 1 else 0) ≡ k + bit (ok && true)
  tool_count k ok = ground arith

  other_count : (k : ℕ) (ok : Bool) → k + (if ok then 0 else 0) ≡ k + bit (ok && false)
  other_count k ok = ground arith

  use_budget-Counts :
      (n k : ℕ) (b : Budget F) (u : Use F)
      → n + 1 < 2 ^ 63
      → Counts n k b
      → let (after, ok) = use_budget zero_cost add exceeds is_usable is_limit b u in
        Counts n (k + bit (ok && is_tool u)) after
  unfolding use_budget
  use_budget-Counts n k b tool small c = taken (tool_count k _) (
      consume-Counts n k 1 b
        (record (nothing_used zero_cost add exceeds is_usable is_limit) { tool_calls = pos 1 })
        small (omega arith) refl c)
  use_budget-Counts n k b model_step small c =
      taken (other_count k _) (consume-Counts n k 0 b _ small (omega arith) refl c)
  use_budget-Counts n k b retry small c =
      taken (other_count k _) (consume-Counts n k 0 b _ small (omega arith) refl c)
  use_budget-Counts n k b (some_tokens t) small c = elim (Bool-cases (ltb_ℤ t (pos 0))) [
    | inl e ↦ rw e (taken (omega arith) c)
    | inr e ↦ rw e (taken (other_count k _) (consume-Counts n k 0 b _ small (omega arith) refl c))
  ]
  use_budget-Counts n k b (some_cost a) small c = elim (Bool-cases (is_usable a)) [
    | inr e ↦ rw e (taken (omega arith) c)
    | inl e ↦ rw e (taken (other_count k _) (consume-Counts n k 0 b _ small (omega arith) refl c))
  ]

  calls-le :
      (n : ℕ) (us : List (Use F)) (k : ℕ) (b : Budget F)
      → n + 1 < 2 ^ 63
      → Counts n k b
      → k + calls b us ≤ n
  calls-le n [] k b small c = omega (arith, c.within)
  calls-le n (u ∷ us) k b small c =
      let more = calls-le n us _ _ small (use_budget-Counts n k b u small c) in omega (arith, more)

  -- An execution makes at most as many tool calls as its budget allows, whatever else is used of it:
  -- of a budget that NewBudget gives for a limit of `n` calls, at most `n` are let through, if the
  -- limit is below the largest `int`.
  pub calls-bounded :
      (l : Usage F) (b : Budget F) (n : ℕ) (us : List (Use F))
      → new_budget zero_cost add exceeds is_usable is_limit l ≡ some b
      → l.tool_calls ≡ pos n
      → n + 1 < 2 ^ 63
      → calls b us ≤ n
  unfolding new_budget
  calls-bounded l b n us h t small =
      elim (Bool-cases (
        ltb_ℤ l.model_steps (pos 1)
        || (ltb_ℤ l.tool_calls (pos 1)
            || (ltb_ℤ l.tokens (pos 1) || (not (is_limit l.cost) || ltb_ℤ l.retries (pos 1)))))) [
              | inl e ↦ let no = rw e at h in cc
              | inr e ↦
                  let start : Budget F = record {
                    limits = l;
                    used = nothing_used zero_cost add exceeds is_usable is_limit;
                  } in
                  let same : start ≡ b = let at_h = rw e at h in cc in
                  let first : Counts n 0 start = record {
                    limit = t;
                    used = refl;
                    within = omega arith;
                  } in
                  omega (arith, calls-le n us 0 b small (subst (Counts n 0) same first))
            ]
