-- ===== src/Budget.antt =====
-- internal/security/limits.go: the budget of an execution. A float64 cost is a parameter with its sum
-- and its comparisons, which is what the code uses of it; an `int` is 64 bits wide and wraps around.
pub mod Calls
pub mod Examples
use mosaid.Base.{
  ℕ, suc, Bool, true, false, ◌||◌, not, Option, none, some, List, [], ◌∷◌, if◌then◌else◌,
}
use mosaid.Int.{ℤ, pos, ltb_ℤ, add_int}

-- BudgetLimits, for the limits, for what is used, and for an amount.
pub record Usage (F : Type 0) : Type 0 where
  pub model_steps : ℤ
  pub tool_calls : ℤ
  pub tokens : ℤ
  pub cost : F
  pub retries : ℤ

pub record Budget (F : Type 0) : Type 0 where
  pub limits : Usage F
  pub used : Usage F

-- The amounts that the Use methods take.
pub data Use (F : Type 0) : Type 0 where
  model_step tool retry : Use F
  some_tokens : ℤ → Use F
  some_cost : F → Use F

-- `exceeds a b` is a > b; `is_usable` says that an amount is neither negative, infinite nor NaN, and
-- `is_limit` that a limit is positive and finite.
module _ {F : Type 0} (zero_cost : F) (add : F → F → F) (exceeds : F → F → Bool)
    (is_usable is_limit : F → Bool) where
  abbrev pub nothing_used : Usage F
  nothing_used = record {
    model_steps = pos 0;
    tool_calls = pos 0;
    tokens = pos 0;
    cost = zero_cost;
    retries = pos 0;
  }

  -- `none` is the error.
  unfoldable pub new_budget : Usage F → Option (Budget F)
  new_budget l =
      if ltb_ℤ l.model_steps (pos 1)
        || (ltb_ℤ l.tool_calls (pos 1)
            || (ltb_ℤ l.tokens (pos 1) || (not (is_limit l.cost) || ltb_ℤ l.retries (pos 1))))
      then none
      else some record { limits = l; used = nothing_used }

  unfoldable pub total : Usage F → Usage F → Usage F
  total a b = record {
    model_steps = add_int a.model_steps b.model_steps;
    tool_calls = add_int a.tool_calls b.tool_calls;
    tokens = add_int a.tokens b.tokens;
    cost = add a.cost b.cost;
    retries = add_int a.retries b.retries;
  }

  unfoldable pub goes_over : Usage F → Usage F → Bool
  goes_over n l =
      ltb_ℤ l.model_steps n.model_steps
      || (ltb_ℤ l.tool_calls n.tool_calls
          || (ltb_ℤ l.tokens n.tokens || (exceeds n.cost l.cost || ltb_ℤ l.retries n.retries)))

  -- With whether the amount was taken; otherwise nothing changes.
  unfoldable pub consume : Budget F → Usage F → Budget F × Bool
  consume b delta =
      let next = total b.used delta in
      if goes_over next b.limits then (b, false) else (record b { used = next }, true)

  -- UseModelStep, UseTool, UseRetry, UseTokens and UseCost.
  unfoldable pub use_budget : Budget F → Use F → Budget F × Bool
  use_budget b model_step = consume b (record nothing_used { model_steps = pos 1 })
  use_budget b tool = consume b (record nothing_used { tool_calls = pos 1 })
  use_budget b retry = consume b (record nothing_used { retries = pos 1 })
  use_budget b (some_tokens n) =
      if ltb_ℤ n (pos 0) then (b, false) else consume b (record nothing_used { tokens = n })
  use_budget b (some_cost c) =
      if not (is_usable c) then (b, false) else consume b (record nothing_used { cost = c })
