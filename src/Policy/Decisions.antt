-- ===== src/Policy/Decisions.antt =====
-- What the decisions of internal/policy/policy.go mean for a caller.
use mosaid.Base.{
  Bool, true, false, ◌≡◌, refl, ◌↔◌, ◌⊎◌, inl, inr, ◌≢◌, none, List, [], ◌∷◌, arith, if◌then◌else◌,
  Bool-cases,
}
use mosaid.Policy.{
  Mode, publish, Tool, high, critical, mode_eq, ill_declared, declares, evaluate, validate,
}

-- A mode stands in a list.
pub data Declared (m : Mode) : List Mode → Type 0 where
  head : {x : Mode} {xs : List Mode} → mode_eq x m ≡ true → Declared m (x ∷ xs)
  tail : {x : Mode} {xs : List Mode} → Declared m xs → Declared m (x ∷ xs)

declares_set : (m : Mode) (xs : List Mode) → declares true m xs ≡ true
unfolding declares
declares_set m [] = refl
declares_set m (x ∷ xs) = ground (arith, declares_set m xs)

declares-Declared : (m : Mode) (xs : List Mode) → declares false m xs ≡ true → Declared m xs
unfolding declares
declares-Declared m [] h = cc
declares-Declared m (x ∷ xs) h = elim (Bool-cases (mode_eq x m)) [
  | inl e ↦ Declared.head e
  | inr e ↦ Declared.tail (declares-Declared m xs (rw e at h))
]

Declared-declares :
    {m : Mode} (ok : Bool) {xs : List Mode} → Declared m xs → declares ok m xs ≡ true
unfolding declares
Declared-declares {m} ok (Declared.head {xs = xs} e) = rw e (declares_set m xs)
Declared-declares {m} ok (Declared.tail {x = x} d) =
    Declared-declares (if mode_eq x m then true else ok) d

-- What a tool has to be for a call to go through with no approval.
pub record IsOpen (t : Tool) (m : Mode) : Type 0 where
  pub declared : Declared m t.modes
  pub well_declared : ill_declared t ≡ false
  pub no_approval : t.approval ≡ false
  pub not_high : t.risk ≢ high
  pub not_critical : t.risk ≢ critical
  pub not_publish : mode_eq m publish ≡ false

-- A tool call is allowed without approval exactly when the mode is declared, the declaration is
-- complete, the tool asks for no approval, its risk is neither high nor critical, and the mode is
-- not publish.
pub evaluate-allowed_iff : (t : Tool) (m : Mode) → ((evaluate t m).allowed ≡ true) ↔ IsOpen t m
unfolding evaluate
evaluate-allowed_iff t m = (
  λ h. record {
    declared = declares-Declared m t.modes (ground arith);
    well_declared = ground arith;
    no_approval = ground arith;
    not_high = ground arith;
    not_critical = ground arith;
    not_publish = ground arith;
  },
  λ o. ground (arith, Declared-declares false o.declared),
)

-- A call that needs approval is not allowed, its mode is declared, and the declaration is complete.
pub evaluate_needs :
    (t : Tool) (m : Mode)
    → (evaluate t m).needs_approval ≡ true
    → ((evaluate t m).allowed ≡ false) × Declared m t.modes × (ill_declared t ≡ false)
unfolding evaluate
evaluate_needs t m h = (ground arith, declares-Declared m t.modes (ground arith), ground arith)

-- A call in a declared mode of a tool that passes `Validate` is allowed or needs approval: it is
-- never refused as ill declared.
pub validate-evaluate :
    (t : Tool) (m : Mode)
    → validate t ≡ none
    → Declared m t.modes
    → ((evaluate t m).allowed ≡ true) ⊎ ((evaluate t m).needs_approval ≡ true)
unfolding validate evaluate
validate-evaluate t m v d = ground (arith, Declared-declares false d)
