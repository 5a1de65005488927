-- ===== src/Validation/Canonical.antt =====
-- The canonical form of a PIX key (packages/shared/src/validation.ts).
use vintage.Prelude.{
  ℕ, ◌≡◌, refl, ap, subst, sym, ◌∙◌, Bool, true, false, [], ◌∷◌, ◌&&◌, not, leb, length, suc, all,
  arith, ==→eq,
}
use vintage.Validation.{Text, is_digit, only_digits}
use vintage.Validation.Pix.{
  PixKeyType, is_space, before_trimmed, is_area, is_line, trim, trim_start, trim_end,
  normalise_phone, normalise_pix_key, is_valid_pix_key, is_phone,
}

-- Characters that `trim` keeps.
abbrev is_solid : Text → Bool
is_solid s = all (λ c. not (is_space c)) s

all_cons :
    (b r : Bool) → elim (not b) [ true ↦ r | false ↦ false ] ≡ true → (b ≡ false) × (r ≡ true)
all_cons true r h = absurd (ground (arith, h))
all_cons false r h = (refl, h)

solid_join : (b r : Bool) → b ≡ false → r ≡ true → elim (not b) [ true ↦ r | false ↦ false ] ≡ true
solid_join true r h k = absurd (ground (arith, h))
solid_join false r h k = k

digit_join : (b r : Bool) → b ≡ true → r ≡ true → elim b [ true ↦ r | false ↦ false ] ≡ true
digit_join true r h k = k
digit_join false r h k = absurd (ground (arith, h))

both : (a b : Bool) → (a && b) ≡ true → (a ≡ true) × (b ≡ true)
both true b h = (refl, h)
both false b h = absurd (ground (arith, h))

trim_start-solid : (s : Text) → is_solid s ≡ true → trim_start s ≡ s
trim_start-solid [] h = refl
trim_start-solid (c ∷ s) h = rw (all_cons (is_space c) (is_solid s) h).0 refl

trim_end-solid : (s : Text) → is_solid s ≡ true → trim_end s ≡ s
trim_end-solid [] h = refl
trim_end-solid (c ∷ []) h = rw (all_cons (is_space c) true h).0 refl
trim_end-solid (c ∷ d ∷ s) h =
    ap (before_trimmed c) (trim_end-solid (d ∷ s) (all_cons (is_space c) (is_solid (d ∷ s)) h).1)

digit_solid : (c : ℕ) → is_digit c ≡ true → is_space c ≡ false
digit_solid c h = ground (arith, h)

pub only_digits-digits : (s : Text) → all is_digit s ≡ true → only_digits s ≡ s
only_digits-digits [] h = refl
only_digits-digits (c ∷ s) h =
    ground (arith, h, λ (i : all is_digit s ≡ true). only_digits-digits s i)

digits_solid : (s : Text) → all is_digit s ≡ true → is_solid s ≡ true
digits_solid [] h = refl
digits_solid (c ∷ s) h =
    let d : is_digit c ≡ true = ground (arith, h) in
    let i : all is_digit s ≡ true = ground (arith, h) in
    solid_join (is_space c) (is_solid s) (digit_solid c d) (digits_solid s i)

trim-solid : (s : Text) → is_solid s ≡ true → trim s ≡ s
trim-solid s h = ap trim_end (trim_start-solid s h) ∙ trim_end-solid s h

area_digits : (a b : ℕ) → is_area a b ≡ true → (is_digit a && is_digit b) ≡ true
area_digits a b h = ground (arith, h)

line_digits : (s : Text) → is_line s ≡ true → (all is_digit s && leb 8 (length s)) ≡ true
line_digits [] h = h
line_digits (c ∷ s) h = ground (arith, h)

-- The national part of a phone key.
abbrev IsNational : Text → Text → Type 0
IsNational key rest =
    (key ≡ 43 ∷ 53 ∷ 53 ∷ rest) × (all is_digit rest ≡ true) × (leb 10 (length rest) ≡ true)

phone_parts : (key : Text) → is_phone key ≡ true → (rest : Text) × IsNational key rest
phone_parts [] h = absurd (ground (arith, h))
phone_parts (p ∷ []) h = absurd (ground (arith, h))
phone_parts (p ∷ (a ∷ [])) h = absurd (ground (arith, h))
phone_parts (p ∷ (a ∷ (b ∷ []))) h = absurd (ground (arith, h))
phone_parts (p ∷ (a ∷ (b ∷ (c ∷ [])))) h = absurd (ground (arith, h))
phone_parts (p ∷ a ∷ b ∷ c ∷ d ∷ s) h =
    let (e, h1) = both _ _ h in
    let (f, h2) = both _ _ h1 in
    let (g, h3) = both _ _ h2 in
    let (i, j) = both _ _ h3 in
    let (m, n) = both (all is_digit s) (leb 8 (length s)) (line_digits s j) in
    let (u, v) = both (is_digit c) (is_digit d) (area_digits c d i) in
    (
      c ∷ d ∷ s,
      (
        rw (==→eq p 43 e, ==→eq a 53 f, ==→eq b 53 g) refl,
        digit_join (is_digit c) (all is_digit (d ∷ s)) u
            (digit_join (is_digit d) (all is_digit s) v m),
        ground (arith, n),
      ),
    )

normalise_national :
    (rest : Text)
    → all is_digit rest ≡ true
    → leb 10 (length rest) ≡ true
    → normalise_phone (43 ∷ 53 ∷ 53 ∷ rest) ≡ 43 ∷ 53 ∷ 53 ∷ rest
normalise_national rest h l =
    let b : leb 12 (suc (suc (length rest))) ≡ true = ground (arith, l) in
    rw (only_digits-digits rest h) (rw b refl)

-- A phone key that is valid is in its canonical form: to normalise it changes nothing.
normalise_pix_key-phone :
    (lower : Text → Text) (key : Text)
    → is_valid_pix_key PixKeyType.pix_phone key ≡ true
    → normalise_pix_key lower PixKeyType.pix_phone key ≡ key
unfolding normalise_pix_key is_valid_pix_key
normalise_pix_key-phone lower key h =
    let (rest, (e, d, l)) = phone_parts key h in
    subst (λ k. normalise_phone (trim k) ≡ k) (sym e)
      (ap normalise_phone (trim-solid (43 ∷ 53 ∷ 53 ∷ rest) (digits_solid rest d))
        ∙ normalise_national rest d l)
