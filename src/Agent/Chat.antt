-- ===== src/Agent/Chat.antt =====
-- The rest of Handle of internal/agent/agent.go: a message that is no command goes to the model, within
-- a new budget, which the model shares.
use mosaid.Base.{ℕ, String, Bool, Option, none, some, List, [], ◌∷◌, codes, if◌then◌else◌}
use mosaid.Int.{ℤ}
use mosaid.Budget.{Budget, Usage, Use, model_step, some_tokens, some_cost, new_budget, use_budget}
use mosaid.Memory.{MemoryDb, ItemRow}
use mosaid.Queue.{Inbound}
use mosaid.Skills.Text.{trim_space, byte_length}
use mosaid.Agent.{
  AgentState, HandleResult, replies, fails, empty_text, answer, over_budget, bad_limits,
  model_failed, Completion, completed, broken, Message, fields, command, estimated_tokens, recent,
  input_bytes, add_line, run_command,
}

-- The floats of a budget: its operations, and what tokens cost on the way in and out.
pub record Costs (F : Type 0) : Type 0 where
  pub zero_cost : F
  pub add : F → F → F
  pub exceeds : F → F → Bool
  pub is_usable : F → Bool
  pub is_limit : F → Bool
  pub input_cost : ℤ → F
  pub output_cost : ℤ → F

-- What stands around the agent.
pub record Surroundings (F S : Type 0) : Type 0 where
  pub hash : String → String
  pub search : MemoryDb F → List ℕ → List (ItemRow F)
  pub export_text : MemoryDb F → List ℕ
  pub one : F
  pub costs : Costs F
  pub limits : Usage F
  pub complete : S → Budget F → List Message → S × Budget F × Completion

module _ {F S : Type 0} (a : Surroundings F S) where
  -- The uses in turn, up to the first that the budget refuses.
  unfoldable pub spend : Budget F → List (Use F) → Option (Budget F)
  spend b [] = some b
  spend b (u ∷ us) =
      let (after, ok) =
        use_budget a.costs.zero_cost a.costs.add a.costs.exceeds a.costs.is_usable a.costs.is_limit
          b u in
      let rest = spend after us in if ok then rest else none

  abbrev pub input_uses : List Message → List (Use F)
  input_uses messages =
      let tokens = estimated_tokens (input_bytes messages) in
      model_step ∷ some_tokens tokens ∷ some_cost (a.costs.input_cost tokens) ∷ []

  abbrev pub output_uses : List ℕ → List (Use F)
  output_uses text =
      let tokens = estimated_tokens (byte_length text) in
      some_tokens tokens ∷ some_cost (a.costs.output_cost tokens) ∷ []

  unfoldable pub take_answer :
      AgentState F S → Inbound → Budget F → Completion → AgentState F S × HandleResult F
  take_answer st m b (broken e) = (st, fails (model_failed e))
  take_answer st m b (completed text) = elim (spend b (output_uses text)) [
    | none ↦ (st, fails over_budget)
    | some spent ↦ (add_line st m.chat_id "assistant" text, replies (answer text))
  ]

  unfoldable pub ask_model :
      AgentState F S → Inbound → Budget F → List Message → AgentState F S × HandleResult F
  ask_model st m b messages =
      let (model, left, reply) = a.complete st.model b messages in
      take_answer (record st { model = model }) m left reply

  abbrev pub start_budget : Option (Budget F)
  start_budget =
      new_budget a.costs.zero_cost a.costs.add a.costs.exceeds a.costs.is_usable a.costs.is_limit
        a.limits

  abbrev pub heard : AgentState F S → Inbound → AgentState F S
  heard st m = add_line st m.chat_id "user" (trim_space (codes m.text))

  abbrev pub history : AgentState F S → Inbound → List Message
  history st m = recent (heard st m).lines m.chat_id 20

  unfoldable pub chat : AgentState F S → Inbound → AgentState F S × HandleResult F
  chat st m = elim start_budget [
    | none ↦ (heard st m, fails bad_limits)
    | some b ↦ elim (spend b (input_uses (history st m))) [
      | none ↦ (heard st m, fails over_budget)
      | some left ↦ ask_model (heard st m) m left (history st m)
    ]
  ]

  unfoldable pub handle_fields :
      AgentState F S → (ℕ → ℕ) → Inbound → List String → AgentState F S × HandleResult F
  handle_fields st clock m [] = (st, replies empty_text)
  handle_fields st clock m (f ∷ rest) = elim (command f) [
    | some c ↦ run_command a.hash a.search a.export_text a.one st clock m rest c
    | none ↦ chat st m
  ]

  unfoldable pub handle : AgentState F S → (ℕ → ℕ) → Inbound → AgentState F S × HandleResult F
  handle st clock m = handle_fields st clock m (fields m.text)
