-- ===== src/Validation/Pix.antt =====
-- PIX keys: `normalisePixKey`, `isValidPixKey` and `maskPixKey` of
-- packages/shared/src/validation.ts.
use vintage.Prelude.{
  ℕ, zero, suc, ◌-◌, Bool, true, false, List, [], ◌∷◌, ◌++◌, not, ◌==◌, ◌&&◌, ◌||◌, leb, ltb,
  length, all, any, take, drop, if◌then◌else◌,
}
use vintage.Validation.{Text, is_digit, only_digits, is_valid_cpf, is_valid_cnpj}

-- `PixKeyType`.
pub data PixKeyType : Type 0 where
  pix_cpf pix_cnpj pix_email pix_phone pix_random : PixKeyType

-- White space, for `trim` and `\s`.
abbrev pub is_space : ℕ → Bool
is_space c =
    (leb 9 c && leb c 13)
    || (any (λ d. c == d) (32 ∷ 160 ∷ 5760 ∷ 8232 ∷ 8233 ∷ 8239 ∷ 8287 ∷ 12288 ∷ 65279 ∷ [])
        || (leb 8192 c && leb c 8202))

abbrev pub trim_start : Text → Text
trim_start [] = []
trim_start (c ∷ s) = let rest = trim_start s in if is_space c then rest else c ∷ s

-- What is left of `c`, before a text that has been trimmed at its end.
abbrev pub before_trimmed : ℕ → Text → Text
before_trimmed c [] = if is_space c then [] else c ∷ []
before_trimmed c (d ∷ s) = c ∷ d ∷ s

abbrev pub trim_end : Text → Text
trim_end [] = []
trim_end (c ∷ s) = before_trimmed c (trim_end s)

abbrev pub trim : Text → Text
trim s = trim_end (trim_start s)

-- `startsWith('+')` and `startsWith('55')`.
abbrev pub starts_plus : Text → Bool
starts_plus [] = false
starts_plus (c ∷ s) = c == 43

abbrev pub starts_55 : Text → Bool
starts_55 (a ∷ b ∷ s) = a == 53 && b == 53
starts_55 _ = false

abbrev pub normalise_phone : Text → Text
normalise_phone trimmed =
    let digits = only_digits trimmed in
    if starts_plus trimmed && not (starts_55 digits)
    then 43 ∷ digits
    else 43
      ∷ 53
      ∷ 53
      ∷ (if starts_55 digits && leb 12 (length digits) then drop 2 digits else digits)

-- `lower` is `toLowerCase`.
unfoldable pub normalise_pix_key : (Text → Text) → PixKeyType → Text → Text
normalise_pix_key lower PixKeyType.pix_cpf raw = only_digits (trim raw)
normalise_pix_key lower PixKeyType.pix_cnpj raw = only_digits (trim raw)
normalise_pix_key lower PixKeyType.pix_email raw = lower (trim raw)
normalise_pix_key lower PixKeyType.pix_phone raw = normalise_phone (trim raw)
normalise_pix_key lower PixKeyType.pix_random raw = lower (trim raw)

-- `isValidEmail`: `[^\s@]+@[^\s@]+\.[^\s@]+`. After the `@`, a dot that is neither first nor last.
abbrev is_plain : ℕ → Bool
is_plain c = not (is_space c) && not (c == 64)

abbrev dot_inside : Text → Bool
dot_inside [] = false
dot_inside (c ∷ []) = false
dot_inside (c ∷ d ∷ s) = let rest = dot_inside (d ∷ s) in c == 46 || rest

abbrev is_domain : Text → Bool
is_domain [] = false
is_domain (c ∷ s) = all is_plain (c ∷ s) && dot_inside s

-- The part after the first `@`; the first argument tells whether a character went before.
abbrev is_address : Bool → Text → Bool
is_address begun [] = false
is_address begun (c ∷ s) =
    let rest = is_address true s in if c == 64 then begun && is_domain s else is_plain c && rest

unfoldable pub is_valid_email : Text → Bool
is_valid_email s = is_address false s

abbrev pub in_range : ℕ → ℕ → ℕ → Bool
in_range a b c = leb a c && leb c b

-- `(1[1-9]|[2-9]\d)`.
abbrev pub is_area : ℕ → ℕ → Bool
is_area a b = (a == 49 && in_range 49 57 b) || (in_range 50 57 a && is_digit b)

-- `(9\d{8}|[2-5]\d{7})$`.
abbrev pub is_line : Text → Bool
is_line [] = false
is_line (c ∷ s) =
    all is_digit s && ((c == 57 && length s == 8) || (in_range 50 53 c && length s == 7))

abbrev pub is_phone : Text → Bool
is_phone (p ∷ a ∷ b ∷ c ∷ d ∷ s) = p == 43 && (a == 53 && (b == 53 && (is_area c d && is_line s)))
is_phone _ = false

abbrev is_hex : ℕ → Bool
is_hex c = is_digit c || in_range 97 102 c

-- A UUID of version 4: one test for each place.
abbrev is_dash : ℕ → Bool
is_dash c = c == 45

abbrev repeat_test : ℕ → (ℕ → Bool) → List (ℕ → Bool) → List (ℕ → Bool)
repeat_test zero t rest = rest
repeat_test (suc n) t rest = t ∷ repeat_test n t rest

abbrev uuid_tests : List (ℕ → Bool)
uuid_tests = repeat_test 8 is_hex (
    is_dash
    ∷ repeat_test 4 is_hex (
        is_dash
        ∷ (λ c. c == 52)
        ∷ repeat_test 3 is_hex (
            is_dash
            ∷ (λ c. c == 56 || (c == 57 || in_range 97 98 c))
            ∷ repeat_test 3 is_hex (is_dash ∷ repeat_test 12 is_hex []))))

abbrev pass_tests : List (ℕ → Bool) → Text → Bool
pass_tests [] [] = true
pass_tests [] (c ∷ s) = false
pass_tests (t ∷ ts) [] = false
pass_tests (t ∷ ts) (c ∷ s) = let rest = pass_tests ts s in t c && rest

unfoldable pub is_valid_pix_key : PixKeyType → Text → Bool
is_valid_pix_key PixKeyType.pix_cpf key = is_valid_cpf key
is_valid_pix_key PixKeyType.pix_cnpj key = is_valid_cnpj key
is_valid_pix_key PixKeyType.pix_email key = is_valid_email key
is_valid_pix_key PixKeyType.pix_phone key = is_phone key
is_valid_pix_key PixKeyType.pix_random key = pass_tests uuid_tests key

-- `slice(-n)`.
abbrev pub last_of : ℕ → Text → Text
last_of n s = drop (length s - n) s

abbrev bullets : ℕ → Text
bullets zero = []
bullets (suc n) = 8226 ∷ bullets n

-- `maskPixKey`, all types but the e-mail.
unfoldable pub mask_cpf : Text → Text
mask_cpf key =
    if length key == 11
    then bullets 3 ++ (46 ∷ bullets 3) ++ (46 ∷ bullets 3) ++ (45 ∷ last_of 2 key)
    else bullets 3

unfoldable pub mask_cnpj : Text → Text
mask_cnpj key =
    if length key == 14
    then bullets 2
      ++ (46 ∷ bullets 3)
      ++ (46 ∷ bullets 3)
      ++ (47 ∷ bullets 4)
      ++ (45 ∷ last_of 2 key)
    else bullets 3

unfoldable pub mask_phone : Text → Text
mask_phone key =
    if ltb (length key) 8
    then bullets 3
    else 43 ∷ 53 ∷ 53 ∷ 32 ∷ (bullets 2 ++ (32 ∷ bullets 4) ++ (45 ∷ last_of 4 key))

unfoldable pub mask_random : Text → Text
mask_random key =
    if ltb (length key) 8
    then bullets 3
    else take 4 key ++ (45 ∷ bullets 4) ++ (45 ∷ bullets 4) ++ (45 ∷ last_of 4 key)
