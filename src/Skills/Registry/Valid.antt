-- ===== src/Skills/Registry/Valid.antt =====
-- The manifests that internal/skills/registry.go holds have passed Validate, and what that means for
-- what they may ask for.
use mosaid.Base.{
  ℕ, zero, suc, ◌≡◌, ◌≢◌, refl, String, Bool, true, false, ◌&&◌, not, Option, none, some, List, [],
  ◌∷◌, arith, All, Bool-cases, Option-cases, inl, inr, exists_where, length, eq_iff, ◌==◌,
}
use mosaid.Policy.{Mode, read, write, publish, admin, mode_eq}
use mosaid.Skills.Json.{Json}
use mosaid.Skills.Manifest.{
  Manifest, ManifestError, fails, first_error, contains_mode, is_bound_publish, skill_mode,
  check_permissions, verify_integrity,
}
use mosaid.Skills.Manifest.Checks.{validate_manifest}
use mosaid.Skills.Registry.{
  SkillRegistry, Handler, add, register_builtin, no_capabilities, highest_permission, is_version,
  has_key, builtin_key,
}

-- A check that finds nothing.
abbrev pub Passes : Option ManifestError → Type 0
Passes check = check ≡ none

abbrev pub nth : ℕ → List (Option ManifestError) → Option ManifestError
nth i [] = none
nth zero (check ∷ checks) = check
nth (suc i) (check ∷ checks) = nth i checks

-- Where none of the checks finds an error, none does.
pub first_error-Passes :
    (checks : List (Option ManifestError)) (i : ℕ)
    → first_error checks ≡ none
    → Passes (nth i checks)
unfolding first_error
first_error-Passes [] i h = refl
first_error-Passes (none ∷ checks) zero h = refl
first_error-Passes (none ∷ checks) (suc i) h = first_error-Passes checks i h
first_error-Passes (some e ∷ checks) i h = cc

pub fails-Passes : (test : Bool) (e : ManifestError) → Passes (fails test e) → test ≡ false
fails-Passes true e h = cc
fails-Passes false e h = refl

same_skill_mode : (p m : Mode) → mode_eq p m ≡ true → skill_mode p ≡ true → skill_mode m ≡ true
same_skill_mode p read e k = refl
same_skill_mode p write e k = refl
same_skill_mode p publish e k = refl
same_skill_mode admin admin e k = cc
same_skill_mode (Mode.other s) m e k = cc
same_skill_mode p m e k = ground arith

check_permissions-known :
    (seen ps : List Mode) (m : Mode)
    → check_permissions seen ps ≡ none
    → contains_mode ps m ≡ true
    → skill_mode m ≡ true
unfolding check_permissions
check_permissions-known seen [] m h c = cc
check_permissions-known seen (p ∷ ps) m h c =
    let known = fails-Passes (not (skill_mode p)) _ (first_error-Passes _ 0 h) in
    elim (Bool-cases (mode_eq p m)) [
      | inl e ↦ same_skill_mode p m e (ground arith)
      | inr e ↦ check_permissions-known (p ∷ seen) ps m (first_error-Passes _ 2 h) (rw e at c)
    ]

-- What a manifest may ask for, when it is valid: its permissions are read, write and publish, it has
-- one, and with publish its approval policy is that of bound publishing.
pub record IsScoped (m : Manifest) : Type 0 where
  pub known : (p : Mode) → contains_mode m.required_permissions p ≡ true → skill_mode p ≡ true
  pub some_permission : length m.required_permissions ≢ 0
  pub publishes_bound :
      contains_mode m.required_permissions publish ≡ true
      → is_bound_publish m.approval_policy ≡ true

only_read :
    (ps : List Mode)
    → ((p : Mode) → contains_mode ps p ≡ true → skill_mode p ≡ true)
    → length ps ≢ 0
    → contains_mode ps publish ≡ false
    → contains_mode ps write ≡ false
    → contains_mode ps read ≡ true
only_read [] known some_permission a b = absurd (some_permission refl)
only_read (read ∷ ps) known some_permission a b = refl
only_read (write ∷ ps) known some_permission a b = cc
only_read (publish ∷ ps) known some_permission a b = cc
only_read (admin ∷ ps) known some_permission a b = let no = known admin refl in cc
only_read (Mode.other s ∷ ps) known some_permission a b =
    let no = known (Mode.other s) (ground (arith, eq_iff s s)) in cc

pub highest_in :
    (ps : List Mode)
    → ((p : Mode) → contains_mode ps p ≡ true → skill_mode p ≡ true)
    → length ps ≢ 0
    → contains_mode ps (highest_permission ps) ≡ true
unfolding highest_permission
highest_in ps known some_permission = elim (Bool-cases (contains_mode ps publish)) [
  | inl e ↦ rw (e, highest_permission) e
  | inr e ↦ elim (Bool-cases (contains_mode ps write)) [
    | inl f ↦ rw (e, highest_permission, f) f
    | inr f ↦ rw (e, highest_permission, f) (only_read ps known some_permission e f)
  ]
]

module _ (parse : List ℕ → Option Json) (lower : List ℕ → List ℕ) (is_ip : List ℕ → Bool)
    (compute : Manifest → String) where
  pub validate_manifest-IsScoped :
      (m : Manifest) → validate_manifest parse lower is_ip m no_capabilities ≡ none → IsScoped m
  unfolding validate_manifest
  validate_manifest-IsScoped m h = record {
    known = λ p. check_permissions-known [] m.required_permissions p (first_error-Passes _ 11 h);
    some_permission = λ e.
        let found =
          fails-Passes (length m.required_permissions == 0) _ (first_error-Passes _ 12 h) in
        ground (arith, e, found);
    publishes_bound = λ c.
        let found =
          fails-Passes
            (contains_mode m.required_permissions publish
              && not (is_bound_publish m.approval_policy))
            _ (first_error-Passes _ 13 h) in
        ground (arith, c, found);
  }

  -- The registry after some additions, of manifests and of handlers.
  pub data Reach {V : Type 0} : SkillRegistry V → Type 0 where
    here : Reach record { manifests = []; builtins = [] }
    adds :
        {r : SkillRegistry V} (m : Manifest) → Reach r → Reach (add parse lower is_ip compute r m).0
    registers :
        {r : SkillRegistry V} (id version : String) (h : Option (Handler V))
        → Reach r
        → Reach (register_builtin parse lower is_ip compute r id version h).0

  add-Scoped :
      {V : Type 0} (r : SkillRegistry V) (m : Manifest)
      → All IsScoped r.manifests
      → All IsScoped (add parse lower is_ip compute r m).0.manifests
  unfolding add
  add-Scoped r m a = elim (Option-cases (validate_manifest parse lower is_ip m no_capabilities)) [
    | inr (e, h) ↦ rw (h, add) a
    | inl h ↦ elim (Bool-cases (verify_integrity compute m)) [
      | inr t ↦ rw (h, add, t) a
      | inl t ↦ elim (Bool-cases (exists_where (is_version m.id m.version) r.manifests)) [
        | inl u ↦ rw (h, add, t, u) a
        | inr u ↦ rw (h, add, t, u) (validate_manifest-IsScoped m h, a)
      ]
    ]
  ]

  register_builtin-same :
      {V : Type 0} (r : SkillRegistry V) (id version : String) (h : Option (Handler V))
      → (register_builtin parse lower is_ip compute r id version h).0.manifests ≡ r.manifests
  unfolding register_builtin
  register_builtin-same r id version none = refl
  register_builtin-same r id version (some h) =
      elim (Bool-cases (exists_where (has_key (builtin_key id version)) r.builtins)) [
        | inl e ↦ rw (e, register_builtin) refl
        | inr e ↦ rw (e, register_builtin) refl
      ]

  pub Reach-Scoped : {V : Type 0} {r : SkillRegistry V} → Reach r → All IsScoped r.manifests
  Reach-Scoped here = tt
  Reach-Scoped (adds {r} m p) = add-Scoped r m (Reach-Scoped p)
  Reach-Scoped (registers {r} id version h p) =
      rw (register_builtin-same r id version h) (Reach-Scoped p)
