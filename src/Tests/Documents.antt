-- ===== src/Tests/Documents.antt =====
-- The theorems on documents and keys, used on texts.
use vintage.Prelude.{◌≡◌, refl, true, [], ◌∷◌, ◌++◌}
use vintage.Validation.{
  Text, only_digits, is_valid_cpf, is_valid_cnpj, format_cpf, format_cep, format_cnpj,
}
use vintage.Validation.Format.{format-digits}
use vintage.Validation.Pix.{PixKeyType, is_valid_pix_key}

-- 529.982.247-25, with a space at its end; 01310100; 11222333000181.
abbrev nine : Text
nine = 53 ∷ 50 ∷ 57 ∷ 57 ∷ 56 ∷ 50 ∷ 50 ∷ 52 ∷ 55 ∷ []

abbrev pub a_cpf : Text
a_cpf = nine ++ 50 ∷ 53 ∷ 32 ∷ []

abbrev a_cep : Text
a_cep = 48 ∷ 49 ∷ 51 ∷ 49 ∷ 48 ∷ 49 ∷ 48 ∷ 48 ∷ []

abbrev a_cnpj : Text
a_cnpj = 49 ∷ 49 ∷ 50 ∷ 50 ∷ 50 ∷ 51 ∷ 51 ∷ 51 ∷ 48 ∷ 48 ∷ 48 ∷ 49 ∷ 56 ∷ 49 ∷ []

valid_cpf : is_valid_cpf a_cpf ≡ true
unfolding is_valid_cpf
valid_cpf = refl

valid_cnpj : is_valid_cnpj a_cnpj ≡ true
unfolding is_valid_cnpj
valid_cnpj = refl

format-digits_example :
    (only_digits (format_cpf a_cpf) ≡ only_digits a_cpf)
    × (only_digits (format_cep a_cpf) ≡ only_digits a_cpf)
    × (only_digits (format_cnpj a_cpf) ≡ only_digits a_cpf)
    × (is_valid_cpf (format_cpf a_cpf) ≡ is_valid_cpf a_cpf)
    × (is_valid_cnpj (format_cnpj a_cpf) ≡ is_valid_cnpj a_cpf)
format-digits_example = format-digits a_cpf

-- +5511999998888.
abbrev pub a_phone : Text
a_phone = 43 ∷ 53 ∷ 53 ∷ 49 ∷ 49 ∷ 57 ∷ 57 ∷ 57 ∷ 57 ∷ 57 ∷ 56 ∷ 56 ∷ 56 ∷ 56 ∷ []

valid_phone : is_valid_pix_key PixKeyType.pix_phone a_phone ≡ true
unfolding is_valid_pix_key
valid_phone = refl
