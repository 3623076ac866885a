-- ===== src/Skills/Registry/Within.antt =====
-- The calls of a skill that internal/skills/registry.go runs stay within what its manifest declares.
use mosaid.Base.{
  ℕ, ◌≡◌, refl, sym, ap, subst, String, Bool, true, false, ◌&&◌, ◌||◌, not, Option, none, some,
  List, [], ◌∷◌, ◌++◌, arith, All, All-delete, Bool-cases, Option-cases, inl, inr, str_eq,
  first_where, exists_where, order_by, insert_by, if◌then◌else◌,
}
use mosaid.Policy.{Mode, publish}
use mosaid.Skills.Json.{Json}
use mosaid.Skills.Input.{Verdict, accepts, rejects, panics, Floats, validate_input}
use mosaid.Skills.Manifest.{
  SkillType, declarative, builtin, mcp, SkillStep, McpBinding, Manifest, contains, contains_mode,
  is_bound_publish, skill_mode, verify_integrity,
}
use mosaid.Skills.Registry.{
  ToolCall, McpCall, ExecutionRequest, Answer, value, error, Handler, ends, calls, SkillRegistry,
  World, Executed, resolve, sorted_versions, versions_of, newer, first, is_version,
  highest_permission, call_tool, run_handler, run_steps, call_mcp, call_bound, run_builtin,
  run_skill, run_checked, execute_skill, has_key, builtin_key, is_always, step_arguments,
}
use mosaid.Skills.Registry.Latest.{All-resolve}
use mosaid.Skills.Registry.Valid.{IsScoped, Reach, Reach-Scoped, highest_in}

-- A mode that the manifest declares. It is one of read, write and publish, and publish only under the
-- approval policy of bound publishing.
pub record IsPermitted (m : Manifest) (mode : Mode) : Type 0 where
  pub declared : contains_mode m.required_permissions mode ≡ true
  pub known : skill_mode mode ≡ true
  pub publishes_bound : mode ≡ publish → is_bound_publish m.approval_policy ≡ true

-- A call of a declared tool in a declared mode, for the user of the request, with its resource and
-- its token.
pub record IsWithin (m : Manifest) (q : ExecutionRequest) (c : ToolCall) : Type 0 where
  pub tool : contains m.required_tools c.name ≡ true
  pub permitted : IsPermitted m c.mode
  pub user : c.user_id ≡ q.user_id
  pub resource : c.resource ≡ q.resource
  pub token : c.approval_token ≡ q.approval_token

-- A call of the pinned tool of the pinned server, with the declared networks.
pub record IsPinned (m : Manifest) (q : ExecutionRequest) (c : McpCall) : Type 0 where
  pub binding : m.binding ≡ some record { server_id = c.server_id; tool = c.tool }
  pub permitted : IsPermitted m c.mode
  pub networks : c.allowed_network ≡ m.allowed_networks
  pub arguments : c.arguments ≡ q.input
  pub user : c.user_id ≡ q.user_id
  pub resource : c.resource ≡ q.resource
  pub token : c.approval_token ≡ q.approval_token

IsScoped-permits :
    (m : Manifest)
    → IsScoped m
    → (mode : Mode) → contains_mode m.required_permissions mode ≡ true
    → IsPermitted m mode
IsScoped-permits m s mode c = record {
  declared = c;
  known = s.known mode c;
  publishes_bound =
      λ e. s.publishes_bound (subst (λ p. contains_mode m.required_permissions p ≡ true) e c);
}

module _ {S V : Type 0} (invoke_tool : Option (S → ToolCall → S × Answer V))
    (invoke_mcp : Option (S → McpCall → S × Answer V)) (collect : List V → V) (m : Manifest)
    (q : ExecutionRequest) (scoped : IsScoped m) where
  abbrev AllWithin : World S → Type 0
  AllWithin w = All (IsWithin m q) w.tool_calls × All (IsPinned m q) w.mcp_calls

  call_tool-AllWithin :
      (w : World S) (name : String) (mode : Mode) (arguments : List ℕ)
      → AllWithin w
      → AllWithin (call_tool invoke_tool invoke_mcp collect w m q name mode arguments).0
  unfolding call_tool
  call_tool-AllWithin w name mode arguments a = elim (Option-cases invoke_tool) [
    | inl e ↦ rw (e, call_tool) a
    | inr (invoke, e) ↦
        elim (Bool-cases (
          not (contains m.required_tools name)
          || not (contains_mode m.required_permissions mode))) [
            | inl t ↦ rw (e, call_tool, t) a
            | inr t ↦
                rw (e, call_tool, t)
                  (
                    (
                      record {
                        tool = ground arith;
                        permitted = IsScoped-permits m scoped mode (ground arith);
                        user = refl;
                        resource = refl;
                        token = refl;
                      },
                      a.0,
                    ),
                    a.1,
                  )
          ]
  ]

  run_handler-AllWithin :
      (h : Handler V) (w : World S)
      → AllWithin w
      → AllWithin (run_handler invoke_tool invoke_mcp collect w m q h).0
  unfolding run_handler
  run_handler-AllWithin (ends answer) w a = a
  run_handler-AllWithin (calls name mode arguments next) w a =
      run_handler-AllWithin (next _) _ (call_tool-AllWithin w name mode arguments a)

  Answer-cases :
      (r : Answer V)
      → mosaid.Base.◌⊎◌
          ((v : V) × (r ≡ value v))
          ((e : mosaid.Skills.Registry.SkillError) × (r ≡ error e))
  Answer-cases (value v) = inl (v, refl)
  Answer-cases (error e) = inr (e, refl)

  run_steps-AllWithin :
      (ss : List SkillStep) (w : World S) (outputs : List V)
      → AllWithin w
      → AllWithin (run_steps invoke_tool invoke_mcp collect w m q outputs ss).0
  unfolding run_steps
  run_steps-AllWithin [] w outputs a = a
  run_steps-AllWithin (s ∷ ss) w outputs a =
      let after =
        call_tool invoke_tool invoke_mcp collect w m q s.tool s.mode (step_arguments s q) in
      let within = call_tool-AllWithin w s.tool s.mode (step_arguments s q) a in
      elim (Answer-cases after.1) [
        | inl (v, e) ↦ rw (e, run_steps) (run_steps-AllWithin ss after.0 (outputs ++ v ∷ []) within)
        | inr (x, e) ↦ rw (e, run_steps) within
      ]

  call_bound-AllWithin :
      (invoke : S → McpCall → S × Answer V) (w : World S) (found : Option McpBinding)
      → m.binding ≡ found
      → AllWithin w
      → AllWithin (call_bound invoke_tool invoke_mcp collect invoke w m q found).0
  unfolding call_bound
  call_bound-AllWithin invoke w none e a = a
  call_bound-AllWithin invoke w (some b) e a = (
    a.0,
    (
      record {
        binding = e;
        permitted =
            IsScoped-permits m scoped _
              (highest_in m.required_permissions scoped.known scoped.some_permission);
        networks = refl;
        arguments = refl;
        user = refl;
        resource = refl;
        token = refl;
      },
      a.1,
    ),
  )

  call_mcp-AllWithin :
      (w : World S) → AllWithin w → AllWithin (call_mcp invoke_tool invoke_mcp collect w m q).0
  unfolding call_mcp
  call_mcp-AllWithin w a = elim (Option-cases invoke_mcp) [
    | inl e ↦ rw (e, call_mcp) a
    | inr (invoke, e) ↦ rw (e, call_mcp) (call_bound-AllWithin invoke w m.binding refl a)
  ]

  run_builtin-AllWithin :
      (w : World S) (found : Option (String × Handler V))
      → AllWithin w
      → AllWithin (run_builtin invoke_tool invoke_mcp collect w m q found).0
  unfolding run_builtin
  run_builtin-AllWithin w none a = a
  run_builtin-AllWithin w (some entry) a = run_handler-AllWithin entry.1 w a

  run_skill-AllWithin :
      (r : SkillRegistry V) (w : World S) (t : SkillType)
      → AllWithin w
      → AllWithin (run_skill invoke_tool invoke_mcp collect r w m q t).0
  unfolding run_skill
  run_skill-AllWithin r w declarative a = run_steps-AllWithin m.steps w [] a
  run_skill-AllWithin r w builtin a = run_builtin-AllWithin w _ a
  run_skill-AllWithin r w mcp a = call_mcp-AllWithin w a
  run_skill-AllWithin r w (SkillType.other s) a = a

module _ {S V F : Type 0} (invoke_tool : Option (S → ToolCall → S × Answer V))
    (invoke_mcp : Option (S → McpCall → S × Answer V)) (collect : List V → V) (floats : Floats F)
    (same : Json → Json → Bool) (parse : List ℕ → Option Json) (compute : Manifest → String) where
  run_checked-AllWithin :
      (m : Manifest) (q : ExecutionRequest) (scoped : IsScoped m) (r : SkillRegistry V)
      (w : World S) (verdict : Verdict)
      → AllWithin invoke_tool invoke_mcp collect m q scoped w
      → AllWithin invoke_tool invoke_mcp collect m q scoped
          (run_checked invoke_tool invoke_mcp collect floats same parse compute r w m q verdict).0
  run_checked-AllWithin m q scoped r w panics a = a
  run_checked-AllWithin m q scoped r w rejects a = a
  run_checked-AllWithin m q scoped r w accepts a =
      elim (Bool-cases (is_always m.approval_policy && str_eq q.approval_token "")) [
        | inl e ↦ rw e a
        | inr e ↦ rw e (run_skill-AllWithin invoke_tool invoke_mcp collect m q scoped r w m.type a)
      ]

abbrev pub fresh : {S : Type 0} → S → World S
fresh state = record { state = state; tool_calls = []; mcp_calls = [] }

-- A skill stays within its manifest: in a registry reached from the empty one by additions of
-- manifests and handlers, when a request resolves to a manifest, then whatever the steps, the builtin
-- handler, the tools and the servers do, each call of a tool names a declared tool in a declared mode,
-- and each call of a server is of the pinned tool in a declared mode and with the declared networks;
-- no mode is other than read, write and publish, publish stands under the policy of bound publishing
-- only, and user, resource and token are those of the request.
pub execute_skill-IsWithin :
    {S V F : Type 0} (invoke_tool : Option (S → ToolCall → S × Answer V))
    (invoke_mcp : Option (S → McpCall → S × Answer V)) (collect : List V → V) (floats : Floats F)
    (same : Json → Json → Bool) (parse : List ℕ → Option Json) (compute : Manifest → String)
    (lower : List ℕ → List ℕ) (is_ip : List ℕ → Bool) (r : SkillRegistry V) (state : S)
    (q : ExecutionRequest) (m : Manifest)
    → Reach parse lower is_ip compute r
    → resolve r.manifests q.id q.version ≡ some m
    → let after =
        (execute_skill invoke_tool invoke_mcp collect floats same parse compute r
          (fresh state)
          q).0 in
      All (IsWithin m q) after.tool_calls × All (IsPinned m q) after.mcp_calls
unfolding execute_skill
execute_skill-IsWithin invoke_tool invoke_mcp collect floats same parse compute lower is_ip r state
      q m p h =
    let scoped =
      All-resolve IsScoped r.manifests q.id q.version m (Reach-Scoped parse lower is_ip compute p)
        h in
    elim (Bool-cases (not (verify_integrity compute m))) [
      | inl e ↦ rw (h, execute_skill, e) (tt, tt)
      | inr e ↦
          rw (h, execute_skill, e)
            (run_checked-AllWithin invoke_tool invoke_mcp collect floats same parse compute m q
              scoped r (fresh state) (validate_input floats same parse m.input_schema q.input)
              (tt, tt))
    ]
