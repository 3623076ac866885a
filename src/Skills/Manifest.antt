-- ===== src/Skills/Manifest.antt =====
-- The manifest of a skill and Validate of internal/skills/manifest.go. The parameters are the JSON
-- parser, strings.ToLower, net.ParseIP, and the digest of a manifest with no integrity hash.
pub mod Checks
use mosaid.Base.{
  ◌+◌, ◌*◌, ℕ, String, Bool, true, false, ◌&&◌, ◌||◌, not, Option, none, some, List, [], ◌∷◌,
  str_eq, ltb, leb, ◌==◌, codes, exists_where, length, if◌then◌else◌, is_none,
}
use mosaid.Int.{ℤ, pos, ltb_ℤ}
use mosaid.Policy.{Mode, read, write, publish, mode_eq}
use mosaid.Skills.Names.{manifest_id, secret_name, semantic_version}
use mosaid.Skills.Text.{
  same_codes, byte_length, trim_space, has_prefix, has_suffix, drop, trim_dot, contains_any,
  all_hex, equal_fold,
}
use mosaid.Skills.Json.{Json}
use mosaid.Skills.Schema.{valid_document, every}
use mosaid.Skills.Versions.{compare_versions, is_below, is_above}

pub data SkillType : Type 0 where
  declarative builtin mcp : SkillType
  other : String → SkillType

pub data ApprovalPolicy : Type 0 where
  by_policy always bound : ApprovalPolicy
  other : String → ApprovalPolicy

pub record Compatibility : Type 0 where
  pub min_core : String
  pub max_core : String
  pub os : List String
  pub arch : List String

pub record Output : Type 0 where
  pub name : String
  pub description : String
  pub schema : List ℕ

pub record SkillStep : Type 0 where
  pub tool : String
  pub mode : Mode
  pub arguments : List ℕ

pub record McpBinding : Type 0 where
  pub server_id : String
  pub tool : String

pub record Manifest : Type 0 where
  pub id : String
  pub version : String
  pub description : String
  pub type : SkillType
  pub input_schema : List ℕ
  pub outputs : List Output
  pub required_tools : List String
  pub required_permissions : List Mode
  pub required_secrets : List String
  pub allowed_networks : List String
  pub timeout_seconds : ℤ
  pub approval_policy : ApprovalPolicy
  pub compatibility : Compatibility
  pub integrity_hash : String
  pub steps : List SkillStep
  pub binding : Option McpBinding

-- Sets are lists.
pub record Capabilities : Type 0 where
  pub tools : List String
  pub core : String
  pub os : String
  pub arch : String
  pub networks : List String

pub data ManifestError : Type 0 where
  bad_id bad_version bad_description bad_type bad_input_schema bad_outputs bad_output :
      ManifestError
  duplicate_output bad_output_schema bad_timeout bad_approval_policy bad_tool : ManifestError
  duplicate_tool unknown_tool bad_permission duplicate_permission no_permissions : ManifestError
  unbound_publish bad_secret duplicate_secret bad_network local_network : ManifestError
  duplicate_network ungranted_network no_min_core bad_max_core incompatible : ManifestError
  bad_steps undeclared_tool bad_step_mode wider_scope bad_arguments not_compiled_in : ManifestError
  not_pinned malformed_hash : ManifestError

-- `if test { return error }`, and the first error of some checks.
abbrev pub fails : Bool → ManifestError → Option ManifestError
fails test e = if test then some e else none

unfoldable pub first_error : List (Option ManifestError) → Option ManifestError
first_error [] = none
first_error (none ∷ checks) = first_error checks
first_error (some e ∷ checks) = some e

abbrev pub contains : List String → String → Bool
contains values wanted = exists_where (λ v. str_eq v wanted) values

abbrev pub contains_mode : List Mode → Mode → Bool
contains_mode values wanted = exists_where (λ v. mode_eq v wanted) values

abbrev pub known_type : SkillType → Bool
known_type (SkillType.other s) = false
known_type _ = true

abbrev pub known_policy : ApprovalPolicy → Bool
known_policy (ApprovalPolicy.other s) = false
known_policy _ = true

abbrev pub is_bound_publish : ApprovalPolicy → Bool
is_bound_publish bound = true
is_bound_publish _ = false

abbrev pub skill_mode : Mode → Bool
skill_mode read = true
skill_mode write = true
skill_mode publish = true
skill_mode _ = false

-- validateUniqueIdentifiers and the loop over the secrets: names that match and that differ.
unfoldable pub unique_names :
    (String → Bool)
    → ManifestError
    → ManifestError
    → List String
    → List String
    → Option ManifestError
unique_names valid bad duplicate seen [] = none
unique_names valid bad duplicate seen (v ∷ vs) = first_error (
    fails (not (valid v)) bad
    ∷ fails (contains seen v) duplicate
    ∷ unique_names valid bad duplicate (v ∷ seen) vs
    ∷ [])

unfoldable pub check_permissions : List Mode → List Mode → Option ManifestError
check_permissions seen [] = none
check_permissions seen (p ∷ ps) = first_error (
    fails (not (skill_mode p)) bad_permission
    ∷ fails (contains_mode seen p) duplicate_permission
    ∷ check_permissions (p ∷ seen) ps
    ∷ [])

unfoldable pub valid_integrity_shape : String → Bool
valid_integrity_shape value =
    has_prefix (codes "sha256:") (codes value)
    && (byte_length (codes value) == 71 && all_hex (drop 7 (codes value)))

-- strings.TrimPrefix(value, "sha256:")
abbrev pub trim_prefix : String → List ℕ
trim_prefix value =
    if has_prefix (codes "sha256:") (codes value) then drop 7 (codes value) else codes value

-- `got` is what ComputeIntegrity gives.
unfoldable pub verify_integrity : (Manifest → String) → Manifest → Bool
verify_integrity compute m =
    not (byte_length (trim_prefix m.integrity_hash) == 0)
    && equal_fold (trim_prefix m.integrity_hash) (trim_prefix (compute m))
