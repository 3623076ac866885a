-- ===== src/Policy/Examples.antt =====
-- Decisions at a sample tool.
use mosaid.Base.{◌≡◌, refl, none, [], ◌∷◌, false, true, ◌↔◌, ◌⊎◌}
use mosaid.Int.{pos}
use mosaid.Policy.{Tool, safe, read, publish, idempotent, ill_declared, evaluate, validate}
use mosaid.Policy.Decisions.{
  Declared, IsOpen, evaluate-allowed_iff, evaluate_needs, validate-evaluate,
}

abbrev sample : Tool
sample = record {
  name = "workspace.read";
  version = "1";
  input_schema = [];
  risk = safe;
  modes = read ∷ [];
  approval = false;
  timeout = pos 5;
  output_limit = pos 1024;
  path_scope = [];
  network_scope = [];
  idempotency = idempotent;
}

sample_valid : validate sample ≡ none
unfolding validate
sample_valid = refl

evaluate-allowed_iff_example : ((evaluate sample read).allowed ≡ true) ↔ IsOpen sample read
evaluate-allowed_iff_example = evaluate-allowed_iff sample read

abbrev poster : Tool
poster = record sample { name = "instagram.publish"; modes = publish ∷ [] }

evaluate_needs_example :
    ((evaluate poster publish).allowed ≡ false)
    × Declared publish (publish ∷ [])
    × (ill_declared poster ≡ false)
evaluate_needs_example = evaluate_needs poster publish (unfold evaluate in refl)

validate-evaluate_example :
    ((evaluate sample read).allowed ≡ true) ⊎ ((evaluate sample read).needs_approval ≡ true)
validate-evaluate_example = validate-evaluate sample read sample_valid (Declared.head refl)
