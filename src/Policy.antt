-- ===== src/Policy.antt =====
-- internal/policy/policy.go: tool declarations and the decision on one.
pub mod Decisions
mod Examples
use mosaid.Base.{
  ℕ, String, Bool, true, false, ◌||◌, not, Option, none, some, List, [], ◌∷◌, str_eq, if◌then◌else◌,
}
use mosaid.Int.{ℤ, pos, leb_ℤ}

-- The named texts of each Go string type, and any other text.
pub data Mode : Type 0 where
  read write publish admin : Mode
  other : String → Mode

pub data Risk : Type 0 where
  safe low medium high critical : Risk
  other : String → Risk

pub data Idempotency : Type 0 where
  idempotent at_least_once non_repeatable : Idempotency

abbrev pub mode_eq : Mode → Mode → Bool
mode_eq read read = true
mode_eq write write = true
mode_eq publish publish = true
mode_eq admin admin = true
mode_eq (Mode.other a) (Mode.other b) = str_eq a b
mode_eq _ _ = false

abbrev pub is_high : Risk → Bool
is_high high = true
is_high _ = false

abbrev pub is_critical : Risk → Bool
is_critical critical = true
is_critical _ = false

pub record Tool : Type 0 where
  pub name : String
  pub version : String
  pub input_schema : List ℕ
  pub risk : Risk
  pub modes : List Mode
  pub approval : Bool
  pub timeout : ℤ
  pub output_limit : ℤ
  pub path_scope : List String
  pub network_scope : List String
  pub idempotency : Idempotency

pub data Reason : Type 0 where
  mode_denied invalid_declaration by_policy : Reason

pub record Decision : Type 0 where
  pub allowed : Bool
  pub needs_approval : Bool
  pub reason : Reason

-- The loop over `t.Modes`, which sets `ok` at each mode that is `m`.
declares : Bool → Mode → List Mode → Bool
declares ok m [] = ok
declares ok m (x ∷ xs) = declares (if mode_eq x m then true else ok) m xs

-- `t.Name == "" || t.Version == "" || t.Timeout <= 0 || t.OutputLimit <= 0`
abbrev pub ill_declared : Tool → Bool
ill_declared t =
    str_eq t.name ""
    || (str_eq t.version "" || (leb_ℤ t.timeout (pos 0) || leb_ℤ t.output_limit (pos 0)))

unfoldable pub evaluate : Tool → Mode → Decision
unfolding declares
evaluate t m =
    if not (declares false m t.modes)
    then record { allowed = false; needs_approval = false; reason = mode_denied }
    else if ill_declared t
    then record { allowed = false; needs_approval = false; reason = invalid_declaration }
    else let need = t.approval || (is_high t.risk || (is_critical t.risk || mode_eq m publish)) in
      record { allowed = not need; needs_approval = need; reason = by_policy }

pub data Invalid : Type 0 where
  name_version_required modes_required limits_required : Invalid

abbrev pub no_modes : List Mode → Bool
no_modes [] = true
no_modes (x ∷ xs) = false

-- `none` is the nil error.
unfoldable pub validate : Tool → Option Invalid
validate t =
    if str_eq t.name "" || str_eq t.version ""
    then some name_version_required
    else if no_modes t.modes
    then some modes_required
    else if leb_ℤ t.timeout (pos 0) || leb_ℤ t.output_limit (pos 0)
    then some limits_required
    else none
