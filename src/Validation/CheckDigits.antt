-- ===== src/Validation/CheckDigits.antt =====
-- The check digits of a CPF (`isValidCPF` of packages/shared/src/validation.ts).
use vintage.Prelude.{
  ℕ, zero, suc, ◌+◌, ◌-◌, ◌*◌, ◌≡◌, refl, ap, subst, ◌∙◌, true, [], ◌∷◌, ◌++◌, not, ◌==◌, ◌&&◌,
  length, nth, all, arith,
}
use vintage.Validation.{Text, is_digit, all_same, falling_sum, cpf_digit, cpf_checks, is_valid_cpf}
use vintage.Validation.Canonical.{only_digits-digits}

falling_sum-append :
    (w n : ℕ) (s t : Text) → length s ≡ n → falling_sum w n (s ++ t) ≡ falling_sum w n s
falling_sum-append w zero [] t h = refl
falling_sum-append w zero (c ∷ s) t h = refl
falling_sum-append w (suc n) [] t h = absurd (omega (arith, h))
falling_sum-append w (suc n) (c ∷ s) t h =
    ap (λ r. (c - 48) * w + r) (falling_sum-append (w - 1) n s t (omega (arith, h)))

nth-append : (s : Text) (x : ℕ) (t : Text) → nth (length s) (s ++ x ∷ t) ≡ x
nth-append [] x t = refl
nth-append (c ∷ s) x t = nth-append s x t

length-append : (s t : Text) → length (s ++ t) ≡ length s + length t
length-append [] t = ground arith
length-append (c ∷ s) t = ground (arith, length-append s t)

all-append :
    (s t : Text) → all is_digit s ≡ true → all is_digit t ≡ true → all is_digit (s ++ t) ≡ true
all-append [] t h k = k
all-append (c ∷ s) t h k = ground (arith, h, λ (i : all is_digit s ≡ true). all-append s t i k)

append-snoc : (s : Text) (x y : ℕ) → (s ++ x ∷ []) ++ y ∷ [] ≡ s ++ x ∷ y ∷ []
append-snoc [] x y = refl
append-snoc (c ∷ s) x y = ap (λ r. c ∷ r) (append-snoc s x y)

digit_value : (r x : ℕ) → is_digit x ≡ true → (r == x - 48) ≡ (48 + r == x)
digit_value r x h = ground (arith, h)

checks_lem :
    (t : Text) (x y a b : ℕ)
    → (length t == 11) ≡ true
    → falling_sum 10 9 t ≡ a
    → falling_sum 11 10 t ≡ b
    → nth 9 t ≡ x
    → nth 10 t ≡ y
    → is_digit x ≡ true
    → is_digit y ≡ true
    → cpf_checks t ≡ (not (all_same t) && (48 + cpf_digit a == x && 48 + cpf_digit b == y))
checks_lem t x y a b l f g i j dx dy =
    let p : cpf_checks t ≡ (not (all_same t) && (cpf_digit a == x - 48 && cpf_digit b == y - 48)) =
      rw (cpf_checks, l, f, g, i, j) refl in
    p ∙ (rw (digit_value (cpf_digit a) x dx, digit_value (cpf_digit b) y dy) refl)

-- Nine digits and two more are a valid CPF exactly where not all are the same and the two are
-- those that the sums of the digits before them give.
is_valid_cpf-append :
    (s : Text) (x y : ℕ)
    → all is_digit s ≡ true
    → length s ≡ 9
    → is_digit x ≡ true
    → is_digit y ≡ true
    → is_valid_cpf (s ++ x ∷ y ∷ []) ≡ (
        not (all_same (s ++ x ∷ y ∷ []))
        && (48 + cpf_digit (falling_sum 10 9 s) == x
            && 48 + cpf_digit (falling_sum 11 10 (s ++ x ∷ [])) == y))
unfolding is_valid_cpf
is_valid_cpf-append s x y h n dx dy =
    let t = s ++ x ∷ y ∷ [] in
    let u = s ++ x ∷ [] in
    let m : length u ≡ 10 = omega (arith, length-append s (x ∷ []), n) in
    let e : u ++ y ∷ [] ≡ t = append-snoc s x y in
    let k : falling_sum 11 10 t ≡ falling_sum 11 10 u =
      subst (λ r. falling_sum 11 10 r ≡ falling_sum 11 10 u) e
        (falling_sum-append 11 10 u (y ∷ []) m) in
    let i : nth 9 t ≡ x = subst (λ r. nth r t ≡ x) n (nth-append s x (y ∷ [])) in
    let j : nth 10 t ≡ y =
      subst (λ r. nth 10 r ≡ y) e (subst (λ r. nth r (u ++ y ∷ []) ≡ y) m (nth-append u y [])) in
    ap cpf_checks (only_digits-digits t (all-append s (x ∷ y ∷ []) h (ground (arith, dx, dy))))
    ∙ checks_lem t x y (falling_sum 10 9 s) (falling_sum 11 10 u)
        (ground (arith, length-append s (x ∷ y ∷ []), n)) (falling_sum-append 10 9 s (x ∷ y ∷ []) n)
        k i j dx dy
