-- ===== src/Agent.antt =====
-- Handle of internal/agent/agent.go: the commands of the owner, and the answer of the model within a
-- budget. The model, the search and the export of the memory, the prices and the status are
-- parameters; the sessions are a list of lines, whose file answers. A reply is kept by its parts. The
-- request that /stop would cancel, and its context, are left out.
pub mod Chat
pub mod Guarded
mod Examples
use Prim.Native.Char.{code}
use Prim.Native.String
use mosaid.Base.{
  ◌+◌, ◌-◌, ◌/◌, ℕ, zero, suc, String, Bool, true, false, ◌&&◌, not, Option, none, some, List, [],
  ◌∷◌, ◌++◌, map, str_eq, ltb, ◌==◌, codes, length, delete_where, if◌then◌else◌,
}
use mosaid.Int.{ℤ, pos, negsuc, eq_ℤ, leb_ℤ}
use mosaid.Approval.{ApprovalDb, ApprovalError, resolve_token}
use mosaid.Budget.{Budget, Usage, Use, model_step, some_tokens, some_cost, new_budget, use_budget}
use mosaid.Memory.{MemoryDb, MemoryError, Kept, ItemRow, remember, forget}
use mosaid.Queue.{Inbound}
use mosaid.Skills.Names.{atoi}
use mosaid.Skills.Text.{is_space, trim_space, byte_length, drop}

pub data Command : Type 0 where
  help approve deny memory remember_text forget_item export status stop : Command

-- A line of sessions.jsonl, less its time; and what the model is given of it.
pub record Line : Type 0 where
  pub chat_id : ℤ
  pub role : String
  pub content : List ℕ

pub record Message : Type 0 where
  pub role : String
  pub content : List ℕ

-- The text of a reply.
pub data ReplyText (F : Type 0) : Type 0 where
  empty_text help_text approval_usage search_usage remember_usage forget_usage : ReplyText F
  nothing_found forgotten status_text stopped : ReplyText F
  approval_rejected : ApprovalError → ReplyText F
  approval_settled : String → ReplyText F
  found : List (ItemRow F) → ReplyText F
  remembered : ℕ → ReplyText F
  exported answer : List ℕ → ReplyText F

pub data AgentError : Type 0 where
  bad_number over_budget bad_limits : AgentError
  memory_failed : MemoryError → AgentError
  model_failed : List ℕ → AgentError

pub data HandleResult (F : Type 0) : Type 0 where
  replies : ReplyText F → HandleResult F
  fails : AgentError → HandleResult F

pub data Completion : Type 0 where
  completed : List ℕ → Completion
  broken : List ℕ → Completion

-- What the agent holds; the manager of approvals and the memory may be missing. `S` is the model's
-- state.
pub record AgentState (F S : Type 0) : Type 0 where
  pub approvals : Option ApprovalDb
  pub memory : Option (MemoryDb F)
  pub lines : List Line
  pub model : S

abbrev pub begin_word : String × List String → List String
begin_word (word, rest) = if str_eq word "" then rest else word ∷ rest

abbrev pub words : String → String × List String
words String.[] = ("", [])
words (String.◌∷◌ c s) =
    let (word, rest) = words s in
    if is_space (code c) then ("", begin_word (word, rest)) else (String.◌∷◌ c word, rest)

-- strings.Fields
unfoldable pub fields : String → List String
fields s = begin_word (words s)

-- strings.Join(fields, " "), as code points.
abbrev pub join : List String → List ℕ
join [] = []
join (f ∷ []) = codes f
join (f ∷ g ∷ fs) = codes f ++ b' ' ∷ join (g ∷ fs)

unfoldable pub command : String → Option Command
command f =
    if str_eq f "/help"
    then some help
    else if str_eq f "/approve"
    then some approve
    else if str_eq f "/deny"
    then some deny
    else if str_eq f "/memory"
    then some memory
    else if str_eq f "/remember"
    then some remember_text
    else if str_eq f "/forget"
    then some forget_item
    else if str_eq f "/export"
    then some export
    else if str_eq f "/status"
    then some status
    else if str_eq f "/stop"
    then some stop
    else none

-- Of bytes.
unfoldable pub estimated_tokens : ℕ → ℤ
estimated_tokens n = pos ((n + 3) / 4)

abbrev pub message_of : Line → Message
message_of l = record { role = l.role; content = l.content }

-- The last lines of a chat.
unfoldable pub recent : List Line → ℤ → ℕ → List Message
recent lines chat limit =
    let all = map message_of (delete_where (λ (l : Line). not (eq_ℤ l.chat_id chat)) lines) in
    drop_messages (length all - limit) all
  where
    drop_messages : ℕ → List Message → List Message
    drop_messages zero ms = ms
    drop_messages (suc n) [] = []
    drop_messages (suc n) (m ∷ ms) = drop_messages n ms

abbrev pub input_bytes : List Message → ℕ
input_bytes [] = 0
input_bytes (m ∷ ms) = byte_length m.content + input_bytes ms

abbrev pub settled : {F : Type 0} → String → Option ApprovalError → ReplyText F
settled decision none = approval_settled decision
settled decision (some e) = approval_rejected e

abbrev pub found_text : {F : Type 0} → List (ItemRow F) → ReplyText F
found_text [] = nothing_found
found_text (i ∷ is) = found (i ∷ is)

abbrev pub remembered_text : {F : Type 0} → Kept → HandleResult F
remembered_text (Kept.kept id) = replies (remembered id)
remembered_text (Kept.refused e) = fails (memory_failed e)

-- An identifier is positive, so there is no item with a negative one.
abbrev pub forget_id : {F : Type 0} → MemoryDb F → ℤ → MemoryDb F
forget_id db (pos n) = forget db n
forget_id db (negsuc n) = db

unfoldable pub search_memory :
    {F : Type 0}
    → (MemoryDb F → List ℕ → List (ItemRow F))
    → Option (MemoryDb F)
    → List String
    → HandleResult F
search_memory search (some db) (a ∷ rest) = replies (found_text (search db (join (a ∷ rest))))
search_memory search _ _ = replies search_usage

unfoldable pub export_memory :
    {F : Type 0} → (MemoryDb F → List ℕ) → Option (MemoryDb F) → HandleResult F
export_memory export_text none = replies empty_text
export_memory export_text (some db) = replies (exported (export_text db))

module _ {F S : Type 0} where
  abbrev pub add_line : AgentState F S → ℤ → String → List ℕ → AgentState F S
  add_line st chat role content = record st {
    lines = st.lines ++ record { chat_id = chat; role = role; content = content } ∷ [];
  }

  -- /approve and /deny. The last argument of a `_with` is what the agent holds.
  unfoldable pub settle_with :
      (String → String)
      → AgentState F S
      → ℕ
      → ℤ
      → String
      → String
      → Option ApprovalDb
      → AgentState F S × HandleResult F
  settle_with hash st now user decision token none = (st, replies approval_usage)
  settle_with hash st now user decision token (some db) =
      let (after, e) = resolve_token hash db now token user decision in
      (record st { approvals = some after }, replies (settled decision e))

  unfoldable pub settle_token :
      (String → String)
      → AgentState F S
      → ℕ
      → ℤ
      → String
      → List String
      → AgentState F S × HandleResult F
  settle_token hash st now user decision (token ∷ []) =
      settle_with hash st now user decision token st.approvals
  settle_token hash st now user decision _ = (st, replies approval_usage)

  unfoldable pub remember_with :
      F
      → AgentState F S
      → ℕ
      → ℕ
      → Option (MemoryDb F)
      → List String
      → AgentState F S × HandleResult F
  remember_with one st now later (some db) (a ∷ rest) =
      let (after, k) = remember one db now later (join (a ∷ rest)) in
      (record st { memory = some after }, remembered_text k)
  remember_with one st now later _ _ = (st, replies remember_usage)

  unfoldable pub forget_with :
      AgentState F S → Option (MemoryDb F) → List String → AgentState F S × HandleResult F
  forget_with st (some db) (a ∷ []) =
      let (id, ok) = atoi (codes a) in
      if not ok
      then (st, fails bad_number)
      else (record st { memory = some (forget_id db id) }, replies forgotten)
  forget_with st _ _ = (st, replies forget_usage)

  unfoldable pub run_command :
      (String → String)
      → (MemoryDb F → List ℕ → List (ItemRow F))
      → (MemoryDb F → List ℕ)
      → F
      → AgentState F S
      → (ℕ → ℕ)
      → Inbound
      → List String
      → Command
      → AgentState F S × HandleResult F
  run_command hash search export_text one st clock m rest help = (st, replies help_text)
  run_command hash search export_text one st clock m rest approve =
      settle_token hash st (clock 0) m.user_id "approved" rest
  run_command hash search export_text one st clock m rest deny =
      settle_token hash st (clock 0) m.user_id "denied" rest
  run_command hash search export_text one st clock m rest memory =
      (st, search_memory search st.memory rest)
  run_command hash search export_text one st clock m rest remember_text =
      remember_with one st (clock 0) (clock 1) st.memory rest
  run_command hash search export_text one st clock m rest forget_item =
      forget_with st st.memory rest
  run_command hash search export_text one st clock m rest export =
      (st, export_memory export_text st.memory)
  run_command hash search export_text one st clock m rest status = (st, replies status_text)
  run_command hash search export_text one st clock m rest stop = (st, replies stopped)
