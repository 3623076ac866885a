-- ===== src/Skills/Registry/Examples.antt =====
-- A schema and an input, and a registry with two versions of a skill of one step.
use mosaid.Base.{
  ℕ, ◌≡◌, refl, String, true, false, none, some, Option, List, [], ◌∷◌, All, str_eq, codes, suc,
  Bool, ◌==◌, if◌then◌else◌,
}
use mosaid.Int.{pos}
use mosaid.Policy.{read}
use mosaid.Skills.Json.{Json, text, object, number, boolean, end, field, array, cons, nil}
use mosaid.Skills.Input.{Floats, Verdict, accepts, validate_input}
use mosaid.Skills.Input.Safe.{validate_input-IsSafe}
use mosaid.Skills.Input.Shapes.{IsSafe}
use mosaid.Skills.Manifest.{Manifest, declarative, by_policy}
use mosaid.Skills.Registry.{
  Answer, value, SkillRegistry, ToolCall, ExecutionRequest, Executed, executed, add, resolve,
  execute_skill, newer, World,
}
use mosaid.Skills.Registry.Valid.{Reach}
use mosaid.Skills.Registry.Within.{IsWithin, IsPinned, fresh, execute_skill-IsWithin}
use mosaid.Skills.Registry.Latest.{resolve-Bounds}

-- {"type":"object","properties":{"q":{"type":"string"}},"additionalProperties":false,"required":["q"]}
abbrev schema : Json
schema = object (
    field "type" (text "object") (
      field "properties" (object (field "q" (object (field "type" (text "string") end)) end)) (
        field "additionalProperties" (boolean false)
          (field "required" (array (cons (text "q") nil)) end))))

abbrev input : Json
input = object (field "q" (text "hello") end)

-- The text "s" stands for the schema, and any other for the input.
abbrev parse : List ℕ → Option Json
parse [] = none
parse (c ∷ cs) = if c == b's' then some schema else some input

abbrev floats : Floats ℕ
floats = record { parse = λ s. 0; bad = λ s. false; whole = λ x. true; less = λ x y. false }

abbrev never : Json → Json → Bool
never a b = false

validate_input-IsSafe_example : IsSafe (validate_input floats never parse (codes "s") (codes "i"))
validate_input-IsSafe_example = validate_input-IsSafe floats never parse (codes "s") (codes "i")

conforms : validate_input floats never parse (codes "s") (codes "i") ≡ accepts
unfolding validate_input mosaid.Skills.Input.validate_value mosaid.Skills.Input.check_type
    mosaid.Skills.Input.check_integer_bound mosaid.Skills.Json.unique_keys
    mosaid.Skills.Json.as_number mosaid.Skills.Schema.valid_document mosaid.Skills.Schema.valid_node
    mosaid.Skills.Schema.valid_members mosaid.Skills.Schema.valid_for
    mosaid.Skills.Schema.valid_properties mosaid.Skills.Schema.valid_required
    mosaid.Skills.Schema.declared mosaid.Skills.Schema.schema_type mosaid.Skills.Json.members
    mosaid.Skills.Json.elements mosaid.Skills.Json.as_object mosaid.Skills.Json.as_array
    mosaid.Skills.Json.as_text mosaid.Skills.Json.is_false mosaid.Skills.Names.property_name
conforms = refl

abbrev hash : String
hash = "sha256:0000000000000000000000000000000000000000000000000000000000000000"

abbrev skill : String → Manifest
skill version = record {
  id = "web.search";
  version = version;
  description = "searches the web";
  type = declarative;
  input_schema = codes "s";
  outputs = record { name = "result"; description = "what is found"; schema = codes "s" } ∷ [];
  required_tools = "search" ∷ [];
  required_permissions = read ∷ [];
  required_secrets = [];
  allowed_networks = [];
  timeout_seconds = pos 30;
  approval_policy = by_policy;
  compatibility = record { min_core = "0.1.0"; max_core = ""; os = []; arch = [] };
  integrity_hash = hash;
  steps = record { tool = "search"; mode = read; arguments = [] } ∷ [];
  binding = none;
}

abbrev compute : Manifest → String
compute m = hash

abbrev unchanged : List ℕ → List ℕ
unchanged cs = cs

abbrev no_ip : List ℕ → Bool
no_ip cs = false

abbrev registry : SkillRegistry ℕ
registry =
    (add parse unchanged no_ip compute record { manifests = []; builtins = [] } (skill "1.0.0")).0

abbrev request : ExecutionRequest
request = record {
  id = "web.search";
  version = "";
  input = codes "i";
  user_id = pos 7;
  resource = "web";
  approval_token = "";
}

-- The tool counts its calls.
abbrev count_call : ℕ → ToolCall → ℕ × Answer ℕ
count_call n c = (suc n, value n)

resolved : resolve registry.manifests "web.search" "" ≡ some (skill "1.0.0")
unfolding resolve mosaid.Skills.Registry.sorted_versions add
    mosaid.Skills.Manifest.Checks.validate_manifest mosaid.Skills.Manifest.first_error
    mosaid.Skills.Manifest.unique_names mosaid.Skills.Manifest.check_permissions
    mosaid.Skills.Manifest.valid_integrity_shape mosaid.Skills.Manifest.verify_integrity
    mosaid.Skills.Manifest.Checks.check_outputs mosaid.Skills.Manifest.Checks.check_tools
    mosaid.Skills.Manifest.Checks.check_steps mosaid.Skills.Manifest.Checks.validate_type
    mosaid.Skills.Manifest.Checks.validate_networks mosaid.Skills.Names.manifest_id
    mosaid.Skills.Names.semantic_version mosaid.Skills.Text.trim_space mosaid.Skills.Text.has_prefix
    mosaid.Skills.Text.equal_fold mosaid.Skills.Schema.valid_document
    mosaid.Skills.Schema.valid_node mosaid.Skills.Schema.valid_members
    mosaid.Skills.Schema.valid_for mosaid.Skills.Schema.valid_properties
    mosaid.Skills.Schema.valid_required mosaid.Skills.Schema.declared
    mosaid.Skills.Schema.schema_type mosaid.Skills.Json.members mosaid.Skills.Json.elements
    mosaid.Skills.Json.as_object mosaid.Skills.Json.as_array mosaid.Skills.Json.as_text
    mosaid.Skills.Json.is_false mosaid.Skills.Names.property_name
    mosaid.Skills.Versions.compare_versions mosaid.Skills.Versions.compare_parsed
    mosaid.Skills.Versions.part_value mosaid.Skills.Versions.split_dots
    mosaid.Skills.Versions.before_dash mosaid.Skills.Names.atoi mosaid.Skills.Names.read_digits
resolved = refl

abbrev after : World ℕ
after =
    (execute_skill (some count_call) none (λ vs. 0) floats never parse compute registry (fresh 0)
      request).0

execute_skill-IsWithin_example :
    All (IsWithin (skill "1.0.0") request) after.tool_calls
    × All (IsPinned (skill "1.0.0") request) after.mcp_calls
execute_skill-IsWithin_example =
    execute_skill-IsWithin (some count_call) none (λ vs. 0) floats never parse compute unchanged
      no_ip registry 0 request (skill "1.0.0") (Reach.adds (skill "1.0.0") Reach.here) resolved

one_call : after.state ≡ 1
unfolding execute_skill mosaid.Skills.Registry.run_skill mosaid.Skills.Registry.run_steps
    mosaid.Skills.Registry.call_tool validate_input mosaid.Skills.Input.validate_value
    mosaid.Skills.Input.check_type mosaid.Skills.Input.check_integer_bound
    mosaid.Skills.Json.unique_keys mosaid.Skills.Json.as_number resolve
    mosaid.Skills.Registry.sorted_versions add mosaid.Skills.Manifest.Checks.validate_manifest
    mosaid.Skills.Manifest.first_error mosaid.Skills.Manifest.unique_names
    mosaid.Skills.Manifest.check_permissions mosaid.Skills.Manifest.valid_integrity_shape
    mosaid.Skills.Manifest.verify_integrity mosaid.Skills.Manifest.Checks.check_outputs
    mosaid.Skills.Manifest.Checks.check_tools mosaid.Skills.Manifest.Checks.check_steps
    mosaid.Skills.Manifest.Checks.validate_type mosaid.Skills.Manifest.Checks.validate_networks
    mosaid.Skills.Names.manifest_id mosaid.Skills.Names.semantic_version
    mosaid.Skills.Text.trim_space mosaid.Skills.Text.has_prefix mosaid.Skills.Text.equal_fold
    mosaid.Skills.Schema.valid_document mosaid.Skills.Schema.valid_node
    mosaid.Skills.Schema.valid_members mosaid.Skills.Schema.valid_for
    mosaid.Skills.Schema.valid_properties mosaid.Skills.Schema.valid_required
    mosaid.Skills.Schema.declared mosaid.Skills.Schema.schema_type mosaid.Skills.Json.members
    mosaid.Skills.Json.elements mosaid.Skills.Json.as_object mosaid.Skills.Json.as_array
    mosaid.Skills.Json.as_text mosaid.Skills.Json.is_false mosaid.Skills.Names.property_name
    mosaid.Skills.Versions.compare_versions mosaid.Skills.Versions.compare_parsed
    mosaid.Skills.Versions.part_value mosaid.Skills.Versions.split_dots
    mosaid.Skills.Versions.before_dash mosaid.Skills.Names.atoi mosaid.Skills.Names.read_digits
one_call = refl

abbrev versions : List Manifest
versions = skill "1.9.0" ∷ skill "1.10.0" ∷ []

latest : resolve versions "web.search" "" ≡ some (skill "1.10.0")
unfolding resolve mosaid.Skills.Registry.sorted_versions mosaid.Skills.Versions.compare_versions
    mosaid.Skills.Versions.compare_parsed mosaid.Skills.Versions.part_value
    mosaid.Skills.Versions.split_dots mosaid.Skills.Versions.before_dash mosaid.Skills.Names.atoi
    mosaid.Skills.Names.read_digits
latest = refl

resolve-Bounds_example :
    (str_eq "web.search" "web.search" ≡ true)
    × All
        (λ (o : Manifest). str_eq o.id "web.search" ≡ true → newer o (skill "1.10.0") ≡ false)
        versions
resolve-Bounds_example = resolve-Bounds versions "web.search" (skill "1.10.0") latest
