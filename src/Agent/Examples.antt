-- ===== src/Agent/Examples.antt =====
-- A message to the model, and a command that approves a request.
use mosaid.Base.{ℕ, suc, ◌≡◌, refl, String, true, false, none, some, [], ◌∷◌, codes}
use mosaid.Int.{pos}
use mosaid.Approval.{ApprovalDb, pending}
use mosaid.Queue.{Inbound}
use mosaid.Agent.{AgentState, Completion, completed, fields, command, replies, approval_settled}
use mosaid.Agent.Chat.{Surroundings, Costs, handle}
use mosaid.Agent.Guarded.{Guarded, handle-Guarded}

abbrev costs : Costs ℕ
costs = record {
  zero_cost = 0;
  add = λ x y. x;
  exceeds = λ x y. false;
  is_usable = λ x. true;
  is_limit = λ x. true;
  input_cost = λ t. 0;
  output_cost = λ t. 0;
}

-- The model counts its calls.
abbrev around : Surroundings ℕ ℕ
around = record {
  hash = λ s. s;
  search = λ db q. [];
  export_text = λ db. [];
  one = 1;
  costs = costs;
  limits = record {
    model_steps = pos 2;
    tool_calls = pos 2;
    tokens = pos 100;
    cost = 1;
    retries = pos 1;
  };
  complete = λ n b ms. (suc n, b, completed (codes "hi"));
}

abbrev approvals : ApprovalDb
approvals = record {
  requests =
      record {
        id = "id";
        token_hash = "tok";
        user_id = pos 7;
        tool_name = "mcp.call";
        args_hash = "a";
        resource = "mail";
        expires_at = 900;
        state = pending;
        created_at = 100;
        resolved_at = none;
      }
      ∷ [];
  uses = [];
  audited = [];
}

abbrev state : AgentState ℕ ℕ
state = record { approvals = some approvals; memory = none; lines = []; model = 0 }

abbrev message : String → Inbound
message text = record {
  update_id = 1;
  message_id = pos 1;
  chat_id = pos 7;
  user_id = pos 7;
  chat_type = "private";
  text = text;
  received_at = 200;
}

handle-Guarded_example :
    Guarded around state
      (λ k. 300)
      (message "/approve tok")
      (fields "/approve tok")
      (handle around state (λ k. 300) (message "/approve tok")).0
handle-Guarded_example = handle-Guarded around state (λ k. 300) (message "/approve tok")

asks : (handle around state (λ k. 300) (message "hello you")).0.model ≡ 1
unfolding handle mosaid.Agent.Chat.handle_fields fields command mosaid.Agent.Chat.chat
    mosaid.Budget.new_budget mosaid.Agent.Chat.spend mosaid.Budget.use_budget mosaid.Budget.consume
    mosaid.Budget.goes_over mosaid.Budget.total mosaid.Agent.estimated_tokens mosaid.Agent.recent
    mosaid.Skills.Text.trim_space mosaid.Agent.Chat.ask_model mosaid.Agent.Chat.take_answer
asks = refl

approves :
    (handle around state (λ k. 300) (message "/approve tok")).1
    ≡ replies (approval_settled "approved")
unfolding handle mosaid.Agent.Chat.handle_fields fields command mosaid.Agent.run_command
    mosaid.Agent.settle_token mosaid.Agent.settle_with mosaid.Approval.resolve_token
    mosaid.Approval.resolve mosaid.Approval.decided_state mosaid.Approval.resolve_row
    mosaid.Approval.is_bound
approves = refl
