-- ===== src/Validation.antt =====
-- Documents and postal codes (packages/shared/src/validation.ts). A string is the list of its code
-- units.
pub mod Format
pub mod CheckDigits
pub mod Pix
pub mod Canonical
use vintage.Prelude.{
  ℕ, zero, suc, ◌+◌, ◌-◌, ◌*◌, ◌%◌, Bool, true, false, Option, none, some, List, [], ◌∷◌, ◌++◌, not,
  ◌==◌, ◌&&◌, leb, ltb, length, filter, all, take, drop, nth, if◌then◌else◌,
}

abbrev pub Text : Type 0
Text = List ℕ

-- `\d`, and `replace(/\D/g, '')`.
abbrev pub is_digit : ℕ → Bool
is_digit c = leb 48 c && leb c 57

abbrev pub only_digits : Text → Text
only_digits s = filter is_digit s

-- `parseInt(s.charAt(i))`, where there is a digit.
abbrev pub digit_at : ℕ → Text → ℕ
digit_at i s = nth i s - 48

-- `/^(\d)\1*$/`.
abbrev pub all_same : Text → Bool
all_same [] = false
all_same (c ∷ s) = all (λ d. d == c) s

-- The loop that sums the digits by weights that fall from `weight`, over `n` digits.
abbrev pub falling_sum : ℕ → ℕ → Text → ℕ
falling_sum weight zero s = 0
falling_sum weight (suc n) [] = 0
falling_sum weight (suc n) (c ∷ s) = (c - 48) * weight + falling_sum (weight - 1) n s

abbrev pub cpf_digit : ℕ → ℕ
cpf_digit sum = let r = (sum * 10) % 11 in if r == 10 then 0 else r

-- `isValidCPF` after the first line.
abbrev pub cpf_checks : Text → Bool
cpf_checks s =
    length s == 11
    && (not (all_same s)
        && (cpf_digit (falling_sum 10 9 s) == digit_at 9 s
            && cpf_digit (falling_sum 11 10 s) == digit_at 10 s))

unfoldable pub is_valid_cpf : Text → Bool
is_valid_cpf cpf = cpf_checks (only_digits cpf)

abbrev pub weighted_sum : List ℕ → Text → ℕ
weighted_sum [] s = 0
weighted_sum (w ∷ ws) [] = 0
weighted_sum (w ∷ ws) (c ∷ s) = (c - 48) * w + weighted_sum ws s

abbrev pub cnpj_digit : ℕ → ℕ
cnpj_digit sum = let r = sum % 11 in if ltb r 2 then 0 else 11 - r

abbrev pub weights1 : List ℕ
weights1 = 5 ∷ 4 ∷ 3 ∷ 2 ∷ 9 ∷ 8 ∷ 7 ∷ 6 ∷ 5 ∷ 4 ∷ 3 ∷ 2 ∷ []

abbrev pub weights2 : List ℕ
weights2 = 6 ∷ weights1

abbrev pub cnpj_checks : Text → Bool
cnpj_checks s =
    length s == 14
    && (not (all_same s)
        && (cnpj_digit (weighted_sum weights1 s) == digit_at 12 s
            && cnpj_digit (weighted_sum weights2 s) == digit_at 13 s))

unfoldable pub is_valid_cnpj : Text → Bool
is_valid_cnpj cnpj = cnpj_checks (only_digits cnpj)

-- What `replace(/(\d{n})…/, '$1.…')` makes of the digits: groups, each with the mark after it.
abbrev pub punctuate : List (ℕ × ℕ) → Text → Text
punctuate [] s = s
punctuate ((n, mark) ∷ marks) s = take n s ++ (mark ∷ punctuate marks (drop n s))

abbrev pub cpf_marks : List (ℕ × ℕ)
cpf_marks = (3, 46) ∷ (3, 46) ∷ (3, 45) ∷ []

abbrev pub cep_marks : List (ℕ × ℕ)
cep_marks = (5, 45) ∷ []

abbrev pub cnpj_marks : List (ℕ × ℕ)
cnpj_marks = (2, 46) ∷ (3, 46) ∷ (3, 47) ∷ (4, 45) ∷ []

-- The pattern matches where there are digits enough.
abbrev pub format_digits : List (ℕ × ℕ) → ℕ → Text → Text
format_digits marks enough s = if leb enough (length s) then punctuate marks s else s

unfoldable pub format_cpf : Text → Text
format_cpf cpf = format_digits cpf_marks 11 (only_digits cpf)

unfoldable pub format_cep : Text → Text
format_cep cep = format_digits cep_marks 8 (only_digits cep)

unfoldable pub format_cnpj : Text → Text
format_cnpj cnpj = format_digits cnpj_marks 14 (only_digits cnpj)

-- `\d{n}`: the rest after `n` digits.
abbrev pub eat_digits : ℕ → Text → Option Text
eat_digits zero s = some s
eat_digits (suc n) [] = none
eat_digits (suc n) (c ∷ s) = elim (is_digit c) [ true ↦ eat_digits n s | false ↦ none ]

abbrev pub skip_mark : ℕ → Text → Text
skip_mark mark [] = []
skip_mark mark (c ∷ s) = if c == mark then s else c ∷ s

-- CPF_REGEX, CEP_REGEX and CNPJ_REGEX of packages/shared/src/constants.ts: groups of digits with
-- an optional mark after each but the last.
abbrev pub matches_groups : List (ℕ × ℕ) → ℕ → Text → Bool
matches_groups [] last s = elim (eat_digits last s) [ none ↦ false | some rest ↦ length rest == 0 ]
matches_groups ((n, mark) ∷ marks) last s = elim (eat_digits n s) [
  | none ↦ false
  | some rest ↦ matches_groups marks last (skip_mark mark rest)
]

unfoldable pub matches_cpf_format : Text → Bool
matches_cpf_format s = matches_groups cpf_marks 2 s

unfoldable pub is_valid_cep : Text → Bool
is_valid_cep s = matches_groups cep_marks 3 s

unfoldable pub matches_cnpj_format : Text → Bool
matches_cnpj_format s = matches_groups cnpj_marks 2 s
