-- ===== src/Skills/Text.antt =====
-- What internal/skills/manifest.go uses of the package strings, on texts as lists of code points.
use mosaid.Base.{
  ◌+◌, ℕ, zero, suc, Bool, true, false, ◌&&◌, ◌||◌, List, [], ◌∷◌, leb, ltb, ◌==◌, exists_where,
  if◌then◌else◌,
}
use mosaid.Skills.Names.{is_upper, is_digit, all_in}

abbrev pub same_codes : List ℕ → List ℕ → Bool
same_codes [] [] = true
same_codes (a ∷ xs) (b ∷ ys) = a == b && same_codes xs ys
same_codes _ _ = false

-- The length of a code point in UTF-8, and of a text: Go's len.
abbrev pub utf8_length : ℕ → ℕ
utf8_length c = if ltb c 128 then 1 else if ltb c 2048 then 2 else if ltb c 65536 then 3 else 4

abbrev pub byte_length : List ℕ → ℕ
byte_length [] = 0
byte_length (c ∷ cs) = utf8_length c + byte_length cs

-- unicode.IsSpace
abbrev pub is_space : ℕ → Bool
is_space c =
    (leb 9 c && leb c 13)
    || (c == 32
        || (c == 133
            || (c == 160
                || (c == 5760
                    || ((leb 8192 c && leb c 8202)
                        || (c == 8232
                            || (c == 8233 || (c == 8239 || (c == 8287 || c == 12288)))))))))

abbrev pub trim_left : List ℕ → List ℕ
trim_left [] = []
trim_left (c ∷ cs) = if is_space c then trim_left cs else c ∷ cs

abbrev pub keep_before : ℕ → List ℕ → List ℕ
keep_before c [] = if is_space c then [] else c ∷ []
keep_before c (d ∷ cs) = c ∷ d ∷ cs

abbrev pub trim_right : List ℕ → List ℕ
trim_right [] = []
trim_right (c ∷ cs) = keep_before c (trim_right cs)

unfoldable pub trim_space : List ℕ → List ℕ
trim_space cs = trim_right (trim_left cs)

unfoldable pub has_prefix : List ℕ → List ℕ → Bool
has_prefix [] cs = true
has_prefix (p ∷ ps) [] = false
has_prefix (p ∷ ps) (c ∷ cs) = p == c && has_prefix ps cs

abbrev pub drop : ℕ → List ℕ → List ℕ
drop zero cs = cs
drop (suc n) [] = []
drop (suc n) (c ∷ cs) = drop n cs

unfoldable pub has_suffix : List ℕ → List ℕ → Bool
has_suffix suffix [] = same_codes suffix []
has_suffix suffix (c ∷ cs) = same_codes suffix (c ∷ cs) || has_suffix suffix cs

-- strings.TrimSuffix(s, ".")
unfoldable pub trim_dot : List ℕ → List ℕ
trim_dot [] = []
trim_dot (c ∷ []) = if c == b'.' then [] else c ∷ []
trim_dot (c ∷ d ∷ cs) = c ∷ trim_dot (d ∷ cs)

-- strings.ContainsAny
abbrev pub contains_any : List ℕ → List ℕ → Bool
contains_any set cs = exists_where (λ c. exists_where (λ d. d == c) set) cs

abbrev pub fold : ℕ → ℕ
fold c = if is_upper c then c + 32 else c

-- strings.EqualFold, where one of the two is hexadecimal: no letter outside ASCII folds to a to f.
unfoldable pub equal_fold : List ℕ → List ℕ → Bool
equal_fold [] [] = true
equal_fold (a ∷ xs) (b ∷ ys) = fold a == fold b && equal_fold xs ys
equal_fold _ _ = false

-- hex.DecodeString accepts it; the number of digits is even.
abbrev pub is_hex : ℕ → Bool
is_hex c = is_digit c || ((leb b'a' c && leb c b'f') || (leb b'A' c && leb c b'F'))

abbrev pub all_hex : List ℕ → Bool
all_hex cs = all_in is_hex cs
