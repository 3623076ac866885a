-- ===== src/Skills/Names.antt =====
-- The patterns of names and versions in internal/skills/manifest.go, and strconv.Atoi as the code
-- uses it. The patterns read ASCII, so a text is the list of its codes.
use mosaid.Base.{
  ◌+◌, ◌-◌, ◌*◌, ◌^◌, ℕ, zero, suc, String, Bool, true, false, ◌&&◌, ◌||◌, not, Option, none, some,
  List, [], ◌∷◌, leb, ltb, ◌==◌, length, codes, if◌then◌else◌,
}
use mosaid.Int.{ℤ, pos, negsuc}

abbrev pub is_lower : ℕ → Bool
is_lower c = leb b'a' c && leb c b'z'

abbrev pub is_upper : ℕ → Bool
is_upper c = leb b'A' c && leb c b'Z'

abbrev pub is_digit : ℕ → Bool
is_digit c = leb b'0' c && leb c b'9'

abbrev pub all_in : (ℕ → Bool) → List ℕ → Bool
all_in p [] = true
all_in p (c ∷ cs) = p c && all_in p cs

-- ^[first][rest]{least,127}$
abbrev pub is_name : (ℕ → Bool) → (ℕ → Bool) → ℕ → List ℕ → Bool
is_name first rest least [] = false
is_name first rest least (c ∷ cs) =
    first c && (leb least (length cs) && (leb (length cs) 127 && all_in rest cs))

-- ^[a-z][a-z0-9.-]{1,127}$
unfoldable pub manifest_id : String → Bool
manifest_id s =
    is_name is_lower (λ c. is_lower c || (is_digit c || (c == b'.' || c == b'-'))) 1 (codes s)

-- ^[A-Za-z][A-Za-z0-9_.-]{0,127}$
unfoldable pub property_name : String → Bool
property_name s =
    is_name (λ c. is_upper c || is_lower c)
      (λ c. (is_upper c || is_lower c) || (is_digit c || (c == b'_' || (c == b'.' || c == b'-')))) 0
      (codes s)

-- ^[A-Z][A-Z0-9_]{1,127}$
unfoldable pub secret_name : String → Bool
secret_name s = is_name is_upper (λ c. is_upper c || (is_digit c || c == b'_')) 1 (codes s)

abbrev pub skip_digits : List ℕ → List ℕ
skip_digits [] = []
skip_digits (c ∷ cs) = if is_digit c then skip_digits cs else c ∷ cs

-- (0|[1-9][0-9]*), and what follows it.
abbrev pub numeral : List ℕ → Option (List ℕ)
numeral [] = none
numeral (c ∷ cs) = if c == b'0' then some cs else if is_digit c then some (skip_digits cs) else none

abbrev pub after_dot : Option (List ℕ) → Option (List ℕ)
after_dot none = none
after_dot (some []) = none
after_dot (some (c ∷ cs)) = if c == b'.' then numeral cs else none

-- (?:-[0-9A-Za-z.-]+)?$
abbrev pub suffix : Option (List ℕ) → Bool
suffix none = false
suffix (some []) = true
suffix (some (c ∷ cs)) =
    c == b'-'
    && (leb 1 (length cs)
        && all_in (λ d. is_digit d || ((is_upper d || is_lower d) || (d == b'.' || d == b'-'))) cs)

unfoldable pub semantic_version : String → Bool
semantic_version s = suffix (after_dot (after_dot (numeral (codes s))))

-- The digits from the left, up to the first value that does not fit 64 bits.
unfoldable pub read_digits : ℕ → List ℕ → Option ℕ
read_digits n [] = some n
read_digits n (c ∷ cs) =
    let m = 10 * n + (c - b'0') in
    let rest = read_digits m cs in
    if not (is_digit c) then none else if leb (2 ^ 64) m then some m else rest

abbrev pub signed : Bool → Option ℕ → ℤ × Bool
signed minus none = (pos 0, false)
signed false (some n) = if ltb n (2 ^ 63) then (pos n, true) else (pos (2 ^ 63 - 1), false)
signed true (some zero) = (pos 0, true)
signed true (some (suc n)) =
    if ltb n (2 ^ 63) then (negsuc n, true) else (negsuc (2 ^ 63 - 1), false)

abbrev pub magnitude : List ℕ → Option ℕ
magnitude [] = none
magnitude (c ∷ cs) = read_digits 0 (c ∷ cs)

-- strconv.Atoi: the value, which is the nearest integer when it is out of range and 0 when the text
-- is no number, and whether there is no error.
unfoldable pub atoi : List ℕ → ℤ × Bool
atoi [] = (pos 0, false)
atoi (c ∷ cs) =
    if c == b'-'
    then signed true (magnitude cs)
    else if c == b'+'
    then signed false (magnitude cs)
    else signed false (magnitude (c ∷ cs))
