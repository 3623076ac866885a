-- ===== src/Scheduler/Gate.antt =====
-- internal/scheduler/policy_gate.go: whether a claimed run may be executed. SHA-256 and the verifier
-- of scheduled approvals are parameters; `none` is the nil verifier.
pub mod Approvals
use Prim.Native.String
use mosaid.Base.{
  ℕ, ◌*◌, ◌^◌, ◌≡◌, refl, String, Bool, true, false, not, Option, none, some, List, [], ◌∷◌, arith,
  str_eq, eq_iff, if◌then◌else◌, ◌↔◌, ◌⊎◌, ◌||◌, Bool-cases, inl, inr,
}
use mosaid.Int.{pos}
use mosaid.Policy
use mosaid.Policy.{
  Mode, Risk, safe, medium, high, at_least_once, Tool, Decision, evaluate, mode_eq, is_high,
  is_critical,
}
use mosaid.Scheduler.Timestamps.{minute}
use mosaid.Scheduler.Types.{Class, reminder, read_only, write, publish, Invocation, RunKey}

pub record ApprovalBinding : Type 0 where
  pub reference : String
  pub skill_id : String
  pub input_hash : String
  pub class : Class
  pub scheduled_for : ℕ
  pub idempotency_key : RunKey

pub data Denial : Type 0 where
  unknown_class not_allowed approval_required verification_failed : Denial

abbrev pub or_default : Risk → Risk → Risk
or_default (Risk.other s) default = if str_eq s "" then default else Risk.other s
or_default r default = r

-- The mode and the risk by which a class is judged.
unfoldable pub judged : Class → Risk → Option (Mode × Risk)
judged reminder risk = some (Mode.read, or_default risk safe)
judged read_only risk = some (Mode.read, or_default risk safe)
judged write risk = some (Mode.write, or_default risk medium)
judged publish risk = some (Mode.publish, or_default risk high)
judged (Class.other s) risk = none

unfoldable pub spec_of : String → Mode → Risk → Tool
spec_of skill_id mode risk = record {
  name = String.◌++◌ "skill." skill_id;
  version = "1";
  input_schema = [];
  risk = risk;
  modes = mode ∷ [];
  approval = false;
  timeout = pos minute;
  output_limit = pos (2 ^ 20);
  path_scope = [];
  network_scope = [];
  idempotency = at_least_once;
}

unfoldable pub binding_of : (List ℕ → String) → Invocation → ApprovalBinding
binding_of hash i = record {
  reference = i.approval_ref;
  skill_id = i.skill_id;
  input_hash = hash i.input;
  class = i.class;
  scheduled_for = i.scheduled_for;
  idempotency_key = i.idempotency_key;
}

module _ (hash : List ℕ → String) (verifier : Option (ApprovalBinding → Bool)) where
  -- A bound approval, verified.
  unfoldable pub verify : Invocation → Option Denial
  verify i = if str_eq i.approval_ref "" then some approval_required else elim verifier [
    | none ↦ some approval_required
    | some check ↦ if check (binding_of hash i) then none else some verification_failed
  ]

  abbrev pub by_decision : Invocation → Decision → Option Denial
  by_decision i d =
      if d.allowed then none else if not d.needs_approval then some not_allowed else verify i

  -- `none` is the nil error: the run may be executed.
  unfoldable pub authorize : Invocation → Option Denial
  authorize i = elim (judged i.class i.risk) [
    | none ↦ some unknown_class
    | some (mode, risk) ↦ by_decision i (evaluate (spec_of i.skill_id mode risk) mode)
  ]
