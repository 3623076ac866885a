-- ===== src/Skills/Manifest/Checks.antt =====
-- Validate and validateImplementation of internal/skills/manifest.go, check by check.
use mosaid.Base.{
  ℕ, String, Bool, true, false, ◌&&◌, ◌||◌, not, Option, none, some, List, [], ◌∷◌, str_eq, ltb,
  ◌==◌, codes, exists_where, length, is_none,
}
use mosaid.Int.{pos, ltb_ℤ}
use mosaid.Policy.{publish}
use mosaid.Skills.Names.{manifest_id, secret_name, semantic_version}
use mosaid.Skills.Text.{
  same_codes, byte_length, trim_space, has_prefix, has_suffix, trim_dot, contains_any,
}
use mosaid.Skills.Json.{Json}
use mosaid.Skills.Schema.{valid_document}
use mosaid.Skills.Versions.{compare_versions, is_below, is_above}
use mosaid.Skills.Manifest.{
  SkillType, declarative, builtin, mcp, Output, SkillStep, Manifest, Capabilities, ManifestError,
  bad_id, bad_version, bad_description, bad_type, bad_input_schema, bad_outputs, bad_output,
  duplicate_output, bad_output_schema, bad_timeout, bad_approval_policy, bad_tool, duplicate_tool,
  unknown_tool, no_permissions, unbound_publish, bad_secret, duplicate_secret, bad_network,
  local_network, duplicate_network, ungranted_network, no_min_core, bad_max_core, incompatible,
  bad_steps, undeclared_tool, bad_step_mode, wider_scope, bad_arguments, not_compiled_in,
  not_pinned, malformed_hash, fails, first_error, contains, contains_mode, known_type, known_policy,
  is_bound_publish, skill_mode, unique_names, check_permissions, valid_integrity_shape,
}

-- The set of a map, which restricts nothing when it is empty.
abbrev pub lacks : List String → String → Bool
lacks set v = not (length set == 0) && not (contains set v)

unfoldable pub check_tools : List String → List String → Option ManifestError
check_tools granted [] = none
check_tools granted (t ∷ ts) =
    first_error (fails (lacks granted t) unknown_tool ∷ check_tools granted ts ∷ [])

-- The numbers of the core, which has a default.
abbrev pub core_version : Capabilities → String
core_version c = elim (str_eq c.core "") [ true ↦ "0.1.0" | false ↦ c.core ]

abbrev pub wrong_core : Manifest → Capabilities → Bool
wrong_core m c =
    is_below (compare_versions (core_version c) m.compatibility.min_core)
    || (not (str_eq m.compatibility.max_core "")
        && is_above (compare_versions (core_version c) m.compatibility.max_core))

-- value != "" && len(wanted) != 0 && !contains(wanted, value)
abbrev pub wrong_platform : String → List String → Bool
wrong_platform value wanted = not (str_eq value "") && lacks wanted value

module _ (parse : List ℕ → Option Json) (lower : List ℕ → List ℕ) (is_ip : List ℕ → Bool) where
  unfoldable pub check_outputs : List String → List Output → Option ManifestError
  check_outputs seen [] = none
  check_outputs seen (o ∷ os) = first_error (
      fails (not (manifest_id o.name) || length (trim_space (codes o.description)) == 0) bad_output
      ∷ fails (contains seen o.name) duplicate_output
      ∷ fails (not (valid_document parse o.schema)) bad_output_schema
      ∷ check_outputs (o.name ∷ seen) os
      ∷ [])

  -- host == "" || host != network || ... : the scope is no exact DNS name.
  abbrev pub inexact : List ℕ → List ℕ → Bool
  inexact host network =
      length host == 0
      || (not (same_codes host network)
          || (contains_any (codes "/*:@") host
              || (has_prefix (codes ".") host || has_suffix (codes ".") host)))

  abbrev pub is_local : List ℕ → Bool
  is_local host =
      is_ip host || (same_codes host (codes "localhost") || has_suffix (codes ".localhost") host)

  abbrev pub seen_host : List (List ℕ) → List ℕ → Bool
  seen_host seen host = exists_where (λ s. same_codes s host) seen

  abbrev pub ungranted : List String → List ℕ → Bool
  ungranted available host =
      not (length available == 0) && not (exists_where (λ a. same_codes (codes a) host) available)

  unfoldable pub validate_networks :
      List String → List (List ℕ) → List String → Option ManifestError
  validate_networks available seen [] = none
  validate_networks available seen (network ∷ rest) =
      let host = lower (trim_dot (codes network)) in
      first_error (
        fails (inexact host (codes network)) bad_network
        ∷ fails (is_local host) local_network
        ∷ fails (seen_host seen host) duplicate_network
        ∷ fails (ungranted available host) ungranted_network
        ∷ validate_networks available (host ∷ seen) rest
        ∷ [])

  unfoldable pub check_steps : Manifest → List SkillStep → Option ManifestError
  check_steps m [] = none
  check_steps m (s ∷ ss) = first_error (
      fails (not (contains m.required_tools s.tool)) undeclared_tool
      ∷ fails (not (skill_mode s.mode)) bad_step_mode
      ∷ fails (not (contains_mode m.required_permissions s.mode)) wider_scope
      ∷ fails (not (length s.arguments == 0) && is_none (parse s.arguments)) bad_arguments
      ∷ check_steps m ss
      ∷ [])

  unfoldable pub validate_type : Manifest → SkillType → Option ManifestError
  validate_type m declarative = first_error (
      fails (not (is_none m.binding) || (length m.steps == 0 || ltb 32 (length m.steps))) bad_steps
      ∷ check_steps m m.steps
      ∷ [])
  validate_type m builtin =
      fails (not (is_none m.binding) || not (length m.steps == 0)) not_compiled_in
  validate_type m mcp = elim m.binding [
    | none ↦ some not_pinned
    | some b ↦
        fails
          (not (length m.steps == 0) || (not (manifest_id b.server_id) || not (manifest_id b.tool)))
          not_pinned
  ]
  validate_type m (SkillType.other s) = none

  unfoldable pub validate_manifest : Manifest → Capabilities → Option ManifestError
  validate_manifest m c = first_error (
      fails (not (manifest_id m.id)) bad_id
      ∷ fails (not (semantic_version m.version)) bad_version
      ∷ fails
          (ltb (byte_length (trim_space (codes m.description))) 8
            || ltb 1024 (byte_length (codes m.description)))
          bad_description
      ∷ fails (not (known_type m.type)) bad_type
      ∷ fails (not (valid_document parse m.input_schema)) bad_input_schema
      ∷ fails (length m.outputs == 0 || ltb 16 (length m.outputs)) bad_outputs
      ∷ check_outputs [] m.outputs
      ∷ fails (ltb_ℤ m.timeout_seconds (pos 1) || ltb_ℤ (pos 3600) m.timeout_seconds) bad_timeout
      ∷ fails (not (known_policy m.approval_policy)) bad_approval_policy
      ∷ unique_names manifest_id bad_tool duplicate_tool [] m.required_tools
      ∷ check_tools c.tools m.required_tools
      ∷ check_permissions [] m.required_permissions
      ∷ fails (length m.required_permissions == 0) no_permissions
      ∷ fails
          (contains_mode m.required_permissions publish && not (is_bound_publish m.approval_policy))
          unbound_publish
      ∷ unique_names secret_name bad_secret duplicate_secret [] m.required_secrets
      ∷ validate_networks c.networks [] m.allowed_networks
      ∷ fails
          (str_eq m.compatibility.min_core "" || not (semantic_version m.compatibility.min_core))
          no_min_core
      ∷ fails
          (not (str_eq m.compatibility.max_core "")
            && not (semantic_version m.compatibility.max_core))
          bad_max_core
      ∷ fails (wrong_core m c) incompatible
      ∷ fails (wrong_platform c.os m.compatibility.os) incompatible
      ∷ fails (wrong_platform c.arch m.compatibility.arch) incompatible
      ∷ validate_type m m.type
      ∷ fails (not (valid_integrity_shape m.integrity_hash)) malformed_hash
      ∷ [])
