-- ===== src/Skills/Versions.antt =====
-- compareVersions of internal/skills/manifest.go: the order of versions by their three numbers, which
-- leaves out what follows a dash.
use mosaid.Base.{ℕ, zero, suc, String, Bool, List, [], ◌∷◌, ◌==◌, codes, if◌then◌else◌, true, false}
use mosaid.Int.{ℤ, pos, ltb_ℤ}
use mosaid.Skills.Names.{atoi}

-- strings.SplitN(value, "-", 2)[0]
unfoldable pub before_dash : List ℕ → List ℕ
before_dash [] = []
before_dash (c ∷ cs) = let rest = before_dash cs in if c == b'-' then [] else c ∷ rest

abbrev pub extend : ℕ → List (List ℕ) → List (List ℕ)
extend c [] = (c ∷ []) ∷ []
extend c (part ∷ parts) = (c ∷ part) ∷ parts

-- strings.Split(value, ".")
unfoldable pub split_dots : List ℕ → List (List ℕ)
split_dots [] = [] ∷ []
split_dots (c ∷ cs) = let rest = split_dots cs in if c == b'.' then [] ∷ rest else extend c rest

-- result[i], _ = strconv.Atoi(parts[i]), where there is such a part.
unfoldable pub part_value : ℕ → List (List ℕ) → ℤ
part_value i [] = pos 0
part_value zero (part ∷ parts) = (atoi part).0
part_value (suc i) (part ∷ parts) = part_value i parts

abbrev pub Version : Type 0
Version = ℤ × ℤ × ℤ

abbrev pub parse_version : String → Version
parse_version value =
    let parts = split_dots (before_dash (codes value)) in
    (part_value 0 parts, part_value 1 parts, part_value 2 parts)

-- -1, 0 and 1.
pub data Compared : Type 0 where
  below same above : Compared

abbrev pub compare_ints : ℤ → ℤ → Compared → Compared
compare_ints a b rest = if ltb_ℤ a b then below else if ltb_ℤ b a then above else rest

unfoldable pub compare_parsed : Version → Version → Compared
compare_parsed (a, b, c) (x, y, z) = compare_ints a x (compare_ints b y (compare_ints c z same))

unfoldable pub compare_versions : String → String → Compared
compare_versions left right = compare_parsed (parse_version left) (parse_version right)

abbrev pub is_below : Compared → Bool
is_below below = true
is_below _ = false

abbrev pub is_above : Compared → Bool
is_above above = true
is_above _ = false
