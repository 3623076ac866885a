-- ===== src/Agent/Guarded.antt =====
-- What a message to Handle of internal/agent/agent.go can change: approvals by an explicit command of
-- its sender only, and the model only within a budget.
use mosaid.Base.{
  ℕ, ◌≡◌, ◌⊎◌, refl, String, Option, none, some, List, [], ◌∷◌, Option-cases, Bool-cases, inl, inr,
  not, codes,
}
use mosaid.Int.{ℤ}
use mosaid.Approval.{ApprovalDb, resolve_token}
use mosaid.Budget.{Budget}
use mosaid.Memory.{MemoryDb}
use mosaid.Queue.{Inbound}
use mosaid.Skills.Names.{atoi}
use mosaid.Agent.{
  AgentState, Command, help, approve, deny, memory, remember_text, forget_item, export, status,
  stop, Completion, completed, broken, fields, command, settle_with, settle_token, remember_with,
  forget_with, run_command,
}
use mosaid.Agent.Chat.{
  Surroundings, spend, input_uses, output_uses, take_answer, ask_model, start_budget, history, chat,
  handle_fields, handle,
}

-- The approvals are settled by the command of the message: /approve or /deny with one token, for the
-- sender.
pub record Settles {F S : Type 0} (hash : String → String) (st : AgentState F S) (now : ℕ)
    (user : ℤ) (typed : List String) (after : AgentState F S) : Type 0 where
  pub name : String
  pub token : String
  pub decision : String
  pub typed_so : typed ≡ name ∷ token ∷ []
  pub decides :
      ((command name ≡ some approve) × (decision ≡ "approved"))
      ⊎ ((command name ≡ some deny) × (decision ≡ "denied"))
  pub db : ApprovalDb
  pub before : st.approvals ≡ some db
  pub settled : after.approvals ≡ some (resolve_token hash db now token user decision).0

-- The model is asked: the message is no command, and a new budget took a model step, the tokens of
-- the history and their cost.
pub record Asks {F S : Type 0} (a : Surroundings F S) (st : AgentState F S) (m : Inbound)
    (typed : List String) : Type 0 where
  pub first : String
  pub rest : List String
  pub typed_so : typed ≡ first ∷ rest
  pub plain : command first ≡ none
  pub start : Budget F
  pub made : start_budget a ≡ some start
  pub left : Budget F
  pub spent : spend a start (input_uses a (history a st m)) ≡ some left

module _ {F S : Type 0} (a : Surroundings F S) (st : AgentState F S) (clock : ℕ → ℕ)
    (m : Inbound) where
  -- What the text `typed` may change.
  pub record Guarded (typed : List String) (after : AgentState F S) : Type 0 where
    pub approvals :
        (after.approvals ≡ st.approvals) ⊎ Settles a.hash st (clock 0) m.user_id typed after
    pub model : (after.model ≡ st.model) ⊎ Asks a st m typed

  unchanged : {typed : List String} → Guarded typed st
  unchanged = record { approvals = inl refl; model = inl refl }

  settle_with-Guarded :
      (name decision token : String) (held : Option ApprovalDb)
      → ((command name ≡ some approve) × (decision ≡ "approved"))
        ⊎ ((command name ≡ some deny) × (decision ≡ "denied"))
      → st.approvals ≡ held
      → Guarded
          (name ∷ token ∷ [])
          (settle_with a.hash st (clock 0) m.user_id decision token held).0
  unfolding settle_with
  settle_with-Guarded name decision token none d e = unchanged
  settle_with-Guarded name decision token (some db) d e = record {
    approvals = inr record {
      name = name;
      token = token;
      decision = decision;
      typed_so = refl;
      decides = d;
      db = db;
      before = e;
      settled = refl;
    };
    model = inl refl;
  }

  settle_token-Guarded :
      (name decision : String) (rest : List String)
      → ((command name ≡ some approve) × (decision ≡ "approved"))
        ⊎ ((command name ≡ some deny) × (decision ≡ "denied"))
      → Guarded (name ∷ rest) (settle_token a.hash st (clock 0) m.user_id decision rest).0
  unfolding settle_token
  settle_token-Guarded name decision [] d = unchanged
  settle_token-Guarded name decision (token ∷ t ∷ rest) d = unchanged
  settle_token-Guarded name decision (token ∷ []) d =
      settle_with-Guarded name decision token st.approvals d refl

  remember_with-Guarded :
      {typed : List String} (held : Option (MemoryDb F)) (rest : List String)
      → Guarded typed (remember_with a.one st (clock 0) (clock 1) held rest).0
  unfolding remember_with
  remember_with-Guarded none rest = unchanged
  remember_with-Guarded (some db) [] = unchanged
  remember_with-Guarded (some db) (f ∷ rest) = record { approvals = inl refl; model = inl refl }

  forget_with-Guarded :
      {typed : List String} (held : Option (MemoryDb F)) (rest : List String)
      → Guarded typed (forget_with st held rest).0
  unfolding forget_with
  forget_with-Guarded none rest = unchanged
  forget_with-Guarded (some db) [] = unchanged
  forget_with-Guarded (some db) (f ∷ g ∷ rest) = unchanged
  forget_with-Guarded (some db) (f ∷ []) = elim (Bool-cases (not (atoi (codes f)).1)) [
    | inl e ↦ rw (e, forget_with) unchanged
    | inr e ↦ rw (e, forget_with) record { approvals = inl refl; model = inl refl }
  ]

  run_command-Guarded :
      (name : String) (rest : List String) (c : Command)
      → command name ≡ some c
      → Guarded (name ∷ rest) (run_command a.hash a.search a.export_text a.one st clock m rest c).0
  unfolding run_command
  run_command-Guarded name rest help e = unchanged
  run_command-Guarded name rest approve e =
      settle_token-Guarded name "approved" rest (inl (e, refl))
  run_command-Guarded name rest deny e = settle_token-Guarded name "denied" rest (inr (e, refl))
  run_command-Guarded name rest memory e = unchanged
  run_command-Guarded name rest remember_text e = remember_with-Guarded st.memory rest
  run_command-Guarded name rest forget_item e = forget_with-Guarded st.memory rest
  run_command-Guarded name rest export e = unchanged
  run_command-Guarded name rest status e = unchanged
  run_command-Guarded name rest stop e = unchanged

  take_answer-same :
      (s : AgentState F S) (b : Budget F) (reply : Completion)
      → (take_answer a s m b reply).0.approvals ≡ s.approvals
  unfolding take_answer
  take_answer-same s b (broken e) = refl
  take_answer-same s b (completed text) = elim (Option-cases (spend a b (output_uses a text))) [
    | inl e ↦ rw (e, take_answer) refl
    | inr (left, e) ↦ rw (e, take_answer) refl
  ]

  chat-Guarded :
      (first : String) (rest : List String)
      → command first ≡ none
      → Guarded (first ∷ rest) (chat a st m).0
  unfolding chat ask_model
  chat-Guarded first rest plain = elim (Option-cases (start_budget a)) [
    | inl e ↦ rw (e, chat) record { approvals = inl refl; model = inl refl }
    | inr (start, e) ↦ elim (Option-cases (spend a start (input_uses a (history a st m)))) [
      | inl f ↦ rw (e, chat, f) record { approvals = inl refl; model = inl refl }
      | inr (left, f) ↦
          rw (e, chat, f)
            record {
              approvals = inl (take_answer-same _ _ _);
              model = inr record {
                first = first;
                rest = rest;
                typed_so = refl;
                plain = plain;
                start = start;
                made = e;
                left = left;
                spent = f;
              };
            }
    ]
  ]

  handle_fields-Guarded : (typed : List String) → Guarded typed (handle_fields a st clock m typed).0
  unfolding handle_fields
  handle_fields-Guarded [] = unchanged
  handle_fields-Guarded (first ∷ rest) = elim (Option-cases (command first)) [
    | inl e ↦ rw (e, handle_fields) (chat-Guarded first rest e)
    | inr (c, e) ↦ rw (e, handle_fields) (run_command-Guarded first rest c e)
  ]

  -- What a message can do. The approvals stay as they are, or the message is /approve or /deny with
  -- one token and they are those after ResolveToken with that token, that decision and the sender.
  -- The model is not asked, or the message is no command and a new budget took a model step, the
  -- estimated tokens of the history and their cost.
  pub handle-Guarded : Guarded (fields m.text) (handle a st clock m).0
  unfolding handle
  handle-Guarded = handle_fields-Guarded (fields m.text)
