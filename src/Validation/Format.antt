-- ===== src/Validation/Format.antt =====
-- `formatCPF`, `formatCEP` and `formatCNPJ` against the checks of packages/shared/src/validation.ts.
use vintage.Prelude.{
  ℕ, zero, suc, ◌+◌, ◌≡◌, ◌≤◌, refl, ap, subst, sym, ◌∙◌, Bool, true, some, List, [], ◌∷◌, ◌++◌,
  not, leb, length, all, take, drop, Bool-cases, inl, inr, arith,
}
use vintage.Validation.{
  Text, cpf_checks, cnpj_checks, is_digit, only_digits, is_valid_cpf, is_valid_cnpj, is_valid_cep,
  punctuate, cpf_marks, cep_marks, cnpj_marks, format_digits, format_cpf, format_cep, format_cnpj,
  eat_digits, skip_mark, matches_groups, matches_cpf_format, matches_cnpj_format,
}

only_digits-append : (s t : Text) → only_digits (s ++ t) ≡ only_digits s ++ only_digits t
only_digits-append [] t = refl
only_digits-append (c ∷ s) t = ground (arith, only_digits-append s t)

only_digits_idem : (s : Text) → only_digits (only_digits s) ≡ only_digits s
only_digits_idem [] = refl
only_digits_idem (c ∷ s) = ground (arith, only_digits_idem s)

take-append-drop : (n : ℕ) (s : Text) → take n s ++ drop n s ≡ s
take-append-drop zero s = refl
take-append-drop (suc n) [] = refl
take-append-drop (suc n) (c ∷ s) = ap (λ r. c ∷ r) (take-append-drop n s)

-- No mark is a digit.
abbrev all_marks : List (ℕ × ℕ) → Bool
all_marks marks = all (λ m. not (is_digit m.1)) marks

mark_lem : (c : ℕ) (s : Text) → not (is_digit c) ≡ true → only_digits (c ∷ s) ≡ only_digits s
mark_lem c s h = ground (arith, h)

only_digits-punctuate :
    (marks : List (ℕ × ℕ)) (s : Text)
    → all_marks marks ≡ true
    → only_digits (punctuate marks s) ≡ only_digits s
only_digits-punctuate [] s h = refl
only_digits-punctuate ((n, mark) ∷ marks) s h =
    only_digits-append (take n s) (mark ∷ punctuate marks (drop n s))
    ∙ ap (λ r. only_digits (take n s) ++ r)
        (mark_lem mark (punctuate marks (drop n s)) (ground (arith, h))
          ∙ only_digits-punctuate marks (drop n s) (ground (arith, h)))
    ∙ sym (only_digits-append (take n s) (drop n s))
    ∙ ap only_digits (take-append-drop n s)

format_digits-digits :
    (marks : List (ℕ × ℕ)) (enough : ℕ) (s : Text)
    → all_marks marks ≡ true
    → only_digits (format_digits marks enough (only_digits s)) ≡ only_digits s
format_digits-digits marks enough s h = elim (Bool-cases (leb enough (length (only_digits s)))) [
  | inl y ↦ rw y (only_digits-punctuate marks (only_digits s) h ∙ only_digits_idem s)
  | inr n ↦ rw n (only_digits_idem s)
]

all_digits-only_digits : (s : Text) → all is_digit (only_digits s) ≡ true
all_digits-only_digits [] = refl
all_digits-only_digits (c ∷ s) = ground (arith, all_digits-only_digits s)

eat-take :
    (n : ℕ) (s t : Text)
    → all is_digit s ≡ true
    → n ≤ length s
    → eat_digits n (take n s ++ t) ≡ some t
eat-take zero s t h b = refl
eat-take (suc n) [] t h b = absurd (omega (arith, b))
eat-take (suc n) (c ∷ s) t h b =
    ground (arith, h, λ (i : all is_digit s ≡ true). eat-take n s t i (omega (arith, b)))

all_digits-drop : (n : ℕ) (s : Text) → all is_digit s ≡ true → all is_digit (drop n s) ≡ true
all_digits-drop zero s h = h
all_digits-drop (suc n) [] h = h
all_digits-drop (suc n) (c ∷ s) h = all_digits-drop n s (ground (arith, h))

length-drop : (n m : ℕ) (s : Text) → length s ≡ n + m → length (drop n s) ≡ m
length-drop zero m s h = ground (arith, h)
length-drop (suc n) m [] h = absurd (omega (arith, h))
length-drop (suc n) m (c ∷ s) h = length-drop n m s (omega (arith, h))

abbrev group_total : List (ℕ × ℕ) → ℕ → ℕ
group_total [] last = last
group_total ((n, mark) ∷ marks) last = n + group_total marks last

eat_all : (s : Text) → all is_digit s ≡ true → eat_digits (length s) s ≡ some []
eat_all [] h = refl
eat_all (c ∷ s) h = ground (arith, h, λ (i : all is_digit s ≡ true). eat_all s i)

skip_own : (mark : ℕ) (s : Text) → skip_mark mark (mark ∷ s) ≡ s
skip_own mark s = ground (arith)

matches-punctuate :
    (marks : List (ℕ × ℕ)) (last : ℕ) (s : Text)
    → all is_digit s ≡ true
    → length s ≡ group_total marks last
    → matches_groups marks last (punctuate marks s) ≡ true
matches-punctuate [] last s h e =
    let i : eat_digits last s ≡ some [] = subst (λ n. eat_digits n s ≡ some []) e (eat_all s h) in
    rw (i, matches_groups) refl
matches-punctuate ((n, mark) ∷ marks) last s h e =
    rw (eat-take n s (mark ∷ punctuate marks (drop n s)) h (omega (arith, e)), matches_groups)
      (rw (skip_own mark (punctuate marks (drop n s))) (
        matches-punctuate marks last (drop n s) (all_digits-drop n s h)
          (length-drop n (group_total marks last) s e)))

-- Formatting a CPF, a CNPJ or a CEP keeps its digits, and with them the verdict on the check digits.
pub format-digits :
    (s : Text)
    → (only_digits (format_cpf s) ≡ only_digits s)
      × (only_digits (format_cep s) ≡ only_digits s)
      × (only_digits (format_cnpj s) ≡ only_digits s)
      × (is_valid_cpf (format_cpf s) ≡ is_valid_cpf s)
      × (is_valid_cnpj (format_cnpj s) ≡ is_valid_cnpj s)
unfolding format_cpf format_cep format_cnpj is_valid_cpf is_valid_cnpj
format-digits s =
    let cpf = format_digits-digits cpf_marks 11 s refl in
    let cnpj = format_digits-digits cnpj_marks 14 s refl in
    (cpf, format_digits-digits cep_marks 8 s refl, cnpj, ap cpf_checks cpf, ap cnpj_checks cnpj)

formatted :
    (marks : List (ℕ × ℕ)) (last : ℕ) (s : Text)
    → length (only_digits s) ≡ group_total marks last
    → matches_groups marks last (format_digits marks (group_total marks last) (only_digits s))
      ≡ true
formatted marks last s e =
    let y : leb (group_total marks last) (length (only_digits s)) ≡ true = ground (arith, e) in
    rw y (matches-punctuate marks last (only_digits s) (all_digits-only_digits s) e)

-- Texts with as many digits as a CPF, a CEP and a CNPJ have are formatted to ones that match the
-- patterns of the three.
format-matches :
    (cpf cep cnpj : Text)
    → length (only_digits cpf) ≡ 11
    → length (only_digits cep) ≡ 8
    → length (only_digits cnpj) ≡ 14
    → (matches_cpf_format (format_cpf cpf) ≡ true)
      × (is_valid_cep (format_cep cep) ≡ true)
      × (matches_cnpj_format (format_cnpj cnpj) ≡ true)
unfolding format_cpf format_cep format_cnpj matches_cpf_format is_valid_cep matches_cnpj_format
format-matches cpf cep cnpj a b c =
    (formatted cpf_marks 2 cpf a, formatted cep_marks 3 cep b, formatted cnpj_marks 2 cnpj c)
