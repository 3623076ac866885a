-- ===== src/Skills/Registry.antt =====
-- internal/skills/registry.go: the registry of skills, the resolution of a version, and the run of a
-- skill with the calls that it makes. The maps are lists. A builtin handler is a program that calls
-- tools and goes on with their answers; the tools and the MCP servers are parameters with a state.
pub mod Valid
pub mod Within
pub mod Latest
pub mod Examples
use Prim.Native.String
use mosaid.Base.{
  ℕ, String, Bool, true, false, ◌&&◌, ◌||◌, not, Option, none, some, List, [], ◌∷◌, str_eq, ◌++◌,
  exists_where, first_where, delete_where, order_by, length, if◌then◌else◌, ◌==◌,
}
use mosaid.Int.{ℤ}
use mosaid.Policy.{Mode, read, write, publish}
use mosaid.Skills.Json.{Json}
use mosaid.Skills.Input.{Verdict, accepts, rejects, panics, Floats, validate_input}
use mosaid.Skills.Versions.{compare_versions, is_above}
use mosaid.Skills.Manifest.{
  SkillType, declarative, builtin, mcp, ApprovalPolicy, always, SkillStep, McpBinding, Manifest,
  Capabilities, ManifestError, contains, contains_mode, verify_integrity,
}
use mosaid.Skills.Manifest.Checks.{validate_manifest}

pub data SkillError : Type 0 where
  invalid_manifest : ManifestError → SkillError
  integrity conflict not_found input_schema approval_required runtime_missing wider_scope :
      SkillError
  no_handler : SkillError
  failed : List ℕ → SkillError

pub record ToolCall : Type 0 where
  pub name : String
  pub arguments : List ℕ
  pub mode : Mode
  pub user_id : ℤ
  pub resource : String
  pub approval_token : String

pub record McpCall : Type 0 where
  pub server_id : String
  pub tool : String
  pub arguments : List ℕ
  pub mode : Mode
  pub user_id : ℤ
  pub resource : String
  pub approval_token : String
  pub allowed_network : List String

pub record ExecutionRequest : Type 0 where
  pub id : String
  pub version : String
  pub input : List ℕ
  pub user_id : ℤ
  pub resource : String
  pub approval_token : String

pub data Answer (V : Type 0) : Type 0 where
  value : V → Answer V
  error : SkillError → Answer V

-- What a handler does with its context: it ends, or it calls a tool.
pub data Handler (V : Type 0) : Type 0 where
  ends : Answer V → Handler V
  calls : String → Mode → List ℕ → (Answer V → Handler V) → Handler V

pub record SkillRegistry (V : Type 0) : Type 0 where
  pub manifests : List Manifest
  pub builtins : List (String × Handler V)

-- The state of the tools and servers, with the calls that reach them, the latest first.
pub record World (S : Type 0) : Type 0 where
  pub state : S
  pub tool_calls : List ToolCall
  pub mcp_calls : List McpCall

-- An execution ends, or panics.
pub data Executed (V : Type 0) : Type 0 where
  executed : Manifest → V → Executed V
  refused : SkillError → Executed V
  panicked : Executed V

abbrev pub is_version : String → String → Manifest → Bool
is_version id version m = str_eq m.id id && str_eq m.version version

abbrev pub versions_of : List Manifest → String → List Manifest
versions_of manifests id = delete_where (λ (m : Manifest). not (str_eq m.id id)) manifests

abbrev pub newer : Manifest → Manifest → Bool
newer a b = is_above (compare_versions a.version b.version)

abbrev pub first : List Manifest → Option Manifest
first [] = none
first (m ∷ ms) = some m

unfoldable pub sorted_versions : List Manifest → List Manifest
sorted_versions manifests = order_by newer manifests

-- Without a version, the first of the sorted ones.
unfoldable pub resolve : List Manifest → String → String → Option Manifest
resolve manifests id version =
    if not (str_eq version "")
    then first_where (is_version id version) manifests
    else first (sorted_versions (versions_of manifests id))

abbrev pub no_capabilities : Capabilities
no_capabilities = record { tools = []; core = ""; os = ""; arch = ""; networks = [] }

abbrev pub is_always : ApprovalPolicy → Bool
is_always always = true
is_always _ = false

unfoldable pub highest_permission : List Mode → Mode
highest_permission permissions =
    if contains_mode permissions publish
    then publish
    else if contains_mode permissions write
    then write
    else read

abbrev pub builtin_key : String → String → String
builtin_key id version = String.◌++◌ (String.◌++◌ id "@") version

abbrev pub has_key : {V : Type 0} → String → String × Handler V → Bool
has_key key entry = str_eq entry.0 key

abbrev pub step_arguments : SkillStep → ExecutionRequest → List ℕ
step_arguments s q = if length s.arguments == 0 then q.input else s.arguments

module _ (parse : List ℕ → Option Json) (lower : List ℕ → List ℕ) (is_ip : List ℕ → Bool)
    (compute : Manifest → String) where
  unfoldable pub add :
      {V : Type 0} → SkillRegistry V → Manifest → SkillRegistry V × Option SkillError
  add r m = elim (validate_manifest parse lower is_ip m no_capabilities) [
    | some e ↦ (r, some (invalid_manifest e))
    | none ↦
        if not (verify_integrity compute m)
        then (r, some integrity)
        else if exists_where (is_version m.id m.version) r.manifests
        then (r, some conflict)
        else (record r { manifests = m ∷ r.manifests }, none)
  ]

  -- A handler may be missing.
  unfoldable pub register_builtin :
      {V : Type 0}
      → SkillRegistry V
      → String
      → String
      → Option (Handler V)
      → SkillRegistry V × Option SkillError
  register_builtin r id version none = (r, some no_handler)
  register_builtin r id version (some handler) =
      if exists_where (has_key (builtin_key id version)) r.builtins
      then (r, some conflict)
      else (record r { builtins = (builtin_key id version, handler) ∷ r.builtins }, none)

module _ {S V : Type 0} (invoke_tool : Option (S → ToolCall → S × Answer V))
    (invoke_mcp : Option (S → McpCall → S × Answer V)) (collect : List V → V) where
  unfoldable pub call_tool :
      World S → Manifest → ExecutionRequest → String → Mode → List ℕ → World S × Answer V
  call_tool w m q name mode arguments = elim invoke_tool [
    | none ↦ (w, error runtime_missing)
    | some invoke ↦
        if not (contains m.required_tools name) || not (contains_mode m.required_permissions mode)
        then (w, error wider_scope)
        else (let call : ToolCall = record {
          name = name;
          arguments = arguments;
          mode = mode;
          user_id = q.user_id;
          resource = q.resource;
          approval_token = q.approval_token;
        } in
            let (state, answer) = invoke w.state call in
            (record w { state = state; tool_calls = call ∷ w.tool_calls }, answer))
  ]

  unfoldable pub run_handler :
      World S → Manifest → ExecutionRequest → Handler V → World S × Answer V
  run_handler w m q (ends answer) = (w, answer)
  run_handler w m q (calls name mode arguments next) =
      let (after, answer) = call_tool w m q name mode arguments in
      run_handler after m q (next answer)

  -- The loop over the steps, with the outputs so far.
  unfoldable pub run_steps :
      World S → Manifest → ExecutionRequest → List V → List SkillStep → World S × Answer V
  run_steps w m q outputs [] = (w, value (collect outputs))
  run_steps w m q outputs (s ∷ ss) =
      let (after, answer) = call_tool w m q s.tool s.mode (step_arguments s q) in
      elim answer [
        | error e ↦ (after, error e)
        | value output ↦ run_steps after m q (outputs ++ output ∷ []) ss
      ]

  unfoldable pub call_bound :
      (S → McpCall → S × Answer V)
      → World S
      → Manifest
      → ExecutionRequest
      → Option McpBinding
      → World S × Answer V
  call_bound invoke w m q none = (w, error runtime_missing)
  call_bound invoke w m q (some b) =
      let call : McpCall = record {
        server_id = b.server_id;
        tool = b.tool;
        arguments = q.input;
        mode = highest_permission m.required_permissions;
        user_id = q.user_id;
        resource = q.resource;
        approval_token = q.approval_token;
        allowed_network = m.allowed_networks;
      } in
      let (state, answer) = invoke w.state call in
      (record w { state = state; mcp_calls = call ∷ w.mcp_calls }, answer)

  unfoldable pub call_mcp : World S → Manifest → ExecutionRequest → World S × Answer V
  call_mcp w m q = elim invoke_mcp [
    | none ↦ (w, error runtime_missing)
    | some invoke ↦ call_bound invoke w m q m.binding
  ]

  unfoldable pub run_builtin :
      World S → Manifest → ExecutionRequest → Option (String × Handler V) → World S × Answer V
  run_builtin w m q none = (w, error runtime_missing)
  run_builtin w m q (some entry) = run_handler w m q entry.1

  unfoldable pub run_skill :
      SkillRegistry V → World S → Manifest → ExecutionRequest → SkillType → World S × Answer V
  run_skill r w m q declarative = run_steps w m q [] m.steps
  run_skill r w m q builtin =
      run_builtin w m q (first_where (has_key (builtin_key m.id m.version)) r.builtins)
  run_skill r w m q mcp = call_mcp w m q
  run_skill r w m q (SkillType.other s) = (w, error runtime_missing)

  abbrev pub executed_by : Manifest → Answer V → Executed V
  executed_by m (value v) = executed m v
  executed_by m (error e) = refused e

  module _ {F : Type 0} (floats : Floats F) (same : Json → Json → Bool)
      (parse : List ℕ → Option Json) (compute : Manifest → String) where
    abbrev pub run_checked :
        SkillRegistry V → World S → Manifest → ExecutionRequest → Verdict → World S × Executed V
    run_checked r w m q panics = (w, panicked)
    run_checked r w m q rejects = (w, refused input_schema)
    run_checked r w m q accepts =
        if is_always m.approval_policy && str_eq q.approval_token ""
        then (w, refused approval_required)
        else (let (after, answer) = run_skill r w m q m.type in (after, executed_by m answer))

    unfoldable pub execute_skill :
        SkillRegistry V → World S → ExecutionRequest → World S × Executed V
    execute_skill r w q = elim (resolve r.manifests q.id q.version) [
      | none ↦ (w, refused not_found)
      | some m ↦
          if not (verify_integrity compute m)
          then (w, refused integrity)
          else run_checked r w m q (validate_input floats same parse m.input_schema q.input)
    ]
