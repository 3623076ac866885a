-- ===== src/Budget/Examples.antt =====
-- A budget of two tool calls; a cost is a natural number of units.
use mosaid.Base.{ℕ, ◌+◌, ◌≤◌, refl, Bool, true, [], ◌∷◌, ltb, arith}
use mosaid.Int.{pos}
use mosaid.Budget.{Usage, Budget, tool, retry, some_tokens, new_budget, nothing_used}
use mosaid.Budget.Calls.{calls, calls-bounded}

abbrev over : ℕ → ℕ → Bool
over a b = ltb b a

abbrev fine : ℕ → Bool
fine a = true

abbrev limits : Usage ℕ
limits = record {
  model_steps = pos 4;
  tool_calls = pos 2;
  tokens = pos 100;
  cost = 10;
  retries = pos 3;
}

abbrev fresh : Budget ℕ
fresh = record { limits = limits; used = nothing_used 0 ◌+◌ over fine fine }

calls-bounded_example :
    calls 0 ◌+◌ over fine fine fresh (tool ∷ some_tokens (pos 30) ∷ tool ∷ retry ∷ tool ∷ []) ≤ 2
calls-bounded_example =
    calls-bounded 0 ◌+◌ over fine fine limits fresh 2
      (tool ∷ some_tokens (pos 30) ∷ tool ∷ retry ∷ tool ∷ []) (unfold new_budget in refl) refl
      (omega arith)
