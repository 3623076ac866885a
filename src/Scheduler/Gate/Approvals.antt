-- ===== src/Scheduler/Gate/Approvals.antt =====
-- Which runs internal/scheduler/policy_gate.go lets through.
use Prim.Native.String
use text.Mathlib.TextLemmas.{append-eq-nil_iff}
use mosaid.Base.{
  ℕ, ◌≡◌, refl, String, Bool, true, false, not, Option, none, some, List, arith, str_eq, eq_iff,
  if◌then◌else◌, ◌||◌, ◌&&◌, is_none, Bool-cases, Option-cases, inl, inr,
}
use mosaid.Policy.{Mode, Risk, evaluate, mode_eq, is_high, is_critical}
use mosaid.Scheduler.Types.{Class, reminder, read_only, write, publish, Invocation}
use mosaid.Scheduler.Gate.{
  ApprovalBinding, Denial, approval_required, unknown_class, judged, spec_of, binding_of, verify,
  authorize,
}

named : (s : String) → str_eq (String.◌++◌ "skill." s) "" ≡ false
named s = elim (Bool-cases (str_eq (String.◌++◌ "skill." s) "")) [
  | inl e ↦
      let empty : ◌≡◌ {A = String} "skill." "" = ((append-eq-nil_iff).0 ((eq_iff _ "").0 e)).0 in
      let same : false ≡ true = (eq_iff "skill." "").1 empty in cc
  | inr e ↦ e
]

mode_eq_refl : (m : Mode) → mode_eq m m ≡ true
mode_eq_refl (Mode.other s) = (eq_iff s s).1 refl
mode_eq_refl Mode.read = refl
mode_eq_refl _ = refl

-- The decision on a skill is that of its mode and its risk.
evaluate-spec_of :
    (skill_id : String) (mode : Mode) (risk : Risk)
    → let need = is_high risk || (is_critical risk || mode_eq mode Mode.publish) in
      ((evaluate (spec_of skill_id mode risk) mode).allowed ≡ not need)
      × ((evaluate (spec_of skill_id mode risk) mode).needs_approval ≡ need)
unfolding evaluate spec_of
evaluate-spec_of skill_id mode risk = ground (arith, named skill_id, mode_eq_refl mode)

-- A publishing run, or one of high or critical risk.
abbrev pub sensitive : Class → Risk → Bool
sensitive publish risk = true
sensitive _ risk = is_high risk || is_critical risk

abbrev pub known : Class → Bool
known (Class.other s) = false
known _ = true

judged-known : (class : Class) (risk : Risk) → is_none (judged class risk) ≡ not (known class)
unfolding judged
judged-known (Class.other s) risk = refl
judged-known _ risk = refl

judged_need :
    (class : Class) (risk : Risk) (mode : Mode) (r : Risk)
    → judged class risk ≡ some (mode, r)
    → (is_high r || (is_critical r || mode_eq mode Mode.publish)) ≡ sensitive class risk
unfolding judged
judged_need reminder risk mode r h = ground arith
judged_need read_only risk mode r h = ground arith
judged_need write risk mode r h = ground arith
judged_need publish risk mode r h = ground arith
judged_need (Class.other s) risk mode r h = cc

module _ (hash : List ℕ → String) (verifier : Option (ApprovalBinding → Bool)) where
  -- The gate by the class and the risk alone.
  authorize-judged :
      (i : Invocation) (mode : Mode) (r : Risk)
      → judged i.class i.risk ≡ some (mode, r)
      → authorize hash verifier i
        ≡ (if sensitive i.class i.risk then verify hash verifier i else none)
  unfolding authorize
  authorize-judged i mode r h =
      let need = judged_need i.class i.risk mode r h in
      let decided = evaluate-spec_of i.skill_id mode r in rw (h, authorize) (ground arith)

  verify-none :
      (i : Invocation)
      → verify hash verifier i ≡ none
      → (str_eq i.approval_ref "" ≡ false)
        × ((check : ApprovalBinding → Bool) × (verifier ≡ some check)
            × (check (binding_of hash i) ≡ true))
  unfolding verify
  verify-none i h = elim (Option-cases verifier) [
    | inl e ↦ let no : ◌≡◌ {A = Option Denial} (some approval_required) none = ground arith in cc
    | inr (check, e) ↦ (ground arith, (check, e, ground arith))
  ]

  -- A run that is let through although it publishes or is of high or critical risk has a reference to
  -- an approval, there is a verifier, and the verifier accepts the binding of that reference to the
  -- skill, the hash of the input, the class, the scheduled time and the run's key.
  pub authorize-sensitive :
      (i : Invocation)
      → sensitive i.class i.risk ≡ true
      → authorize hash verifier i ≡ none
      → (str_eq i.approval_ref "" ≡ false)
        × ((check : ApprovalBinding → Bool) × (verifier ≡ some check)
            × (check (binding_of hash i) ≡ true))
  authorize-sensitive i s h = elim (Option-cases (judged i.class i.risk)) [
    | inl e ↦
        let no : ◌≡◌ {A = Option Denial} (some unknown_class) none =
          unfold authorize in rw (e, authorize) at h in
        cc
    | inr ((mode, r), e) ↦ verify-none i (let same = authorize-judged i mode r e in ground arith)
  ]

-- A run of a class that is not known is refused whatever its risk, its approval and the verifier are,
-- and one of a known class that neither publishes nor is of high or critical risk is let through
-- without an approval.
pub authorize_plain :
    (hash : List ℕ → String) (verifier : Option (ApprovalBinding → Bool)) (i : Invocation)
    → (known i.class && sensitive i.class i.risk) ≡ false
    → authorize hash verifier i ≡ (if known i.class then none else some unknown_class)
authorize_plain hash verifier i s = elim (Option-cases (judged i.class i.risk)) [
  | inl e ↦
      let unknown = judged-known i.class i.risk in
      unfold authorize in rw (e, authorize) (ground arith)
  | inr ((mode, r), e) ↦
      let unknown = judged-known i.class i.risk in
      let same = authorize-judged hash verifier i mode r e in ground arith
]
