-- ===== src/Tests/Methods.antt =====
-- The theorems on payout methods, used on the marketplace.
use vintage.Prelude.{◌≡◌, refl, true, [], ◌∷◌, ◌==◌, Bool-cases, inl, inr, arith}
use vintage.World.{World, OrderStatus, PayoutMethod}
use vintage.World.Action.{ok, actions, throw, pure}
use vintage.World.Tables.{find_unique, update, create}
use vintage.Validation.{is_valid_cpf}
use vintage.Validation.Pix.{PixKeyType, normalise_pix_key, is_valid_pix_key}
use vintage.Payouts.Methods.{
  new_method, create_method, create_method_tx, demote_defaults, make_default, set_default,
}
use vintage.Payouts.Stored.{Stored, create_method-Stored}
use vintage.Payouts.Marks.{AtMostOne}
use vintage.Payouts.Defaults.{IsDefault, create_method-AtMostOne, set_default-IsDefault}
use vintage.Tests.{a_world}
use vintage.Tests.Documents.{a_cpf, a_phone}

-- User 1 has one method, a phone, and adds a CPF as the default.
abbrev phone_method : PayoutMethod
phone_method = new_method 1 PixKeyType.pix_phone a_phone true 0

abbrev with_phone : World
with_phone = record (a_world OrderStatus.paid) { methods = (30, phone_method) ∷ [] }

abbrev with_both : World
with_both = (create_method (λ s. s) 1 PixKeyType.pix_cpf a_cpf true with_phone).1

created : create_method (λ s. s) 1 PixKeyType.pix_cpf a_cpf true with_phone ≡ (ok 100, with_both)
unfolding create_method create_method_tx normalise_pix_key is_valid_pix_key is_valid_cpf
    demote_defaults create actions throw pure
created = refl

create_method-Stored_example :
    Stored (λ s. s) 1 PixKeyType.pix_cpf a_cpf true with_phone 100 with_both
create_method-Stored_example =
    create_method-Stored (λ s. s) 1 PixKeyType.pix_cpf a_cpf true with_phone with_both 100 created

one_method : AtMostOne with_phone.methods
one_method j k a b e f s t u = elim (Bool-cases (30 == j)) [
  | inl p ↦ elim (Bool-cases (30 == k)) [ inl q ↦ ground (arith, p, q) | inr q ↦ cc (rw q at f) ]
  | inr p ↦ cc (rw p at e)
]

abbrev back_to_phone : World
back_to_phone = (set_default 1 30 with_both).1

set_back : set_default 1 30 with_both ≡ (ok tt, back_to_phone)
unfolding create_method create_method_tx normalise_pix_key is_valid_pix_key is_valid_cpf
    demote_defaults make_default set_default find_unique update create actions throw pure
set_back = refl

AtMostOne-with_both : AtMostOne with_both.methods
AtMostOne-with_both =
    create_method-AtMostOne (λ s. s) 1 PixKeyType.pix_cpf a_cpf true with_phone with_both 100
      one_method created

set_default-IsDefault_example : IsDefault 1 30 back_to_phone
set_default-IsDefault_example =
    set_default-IsDefault 1 30 with_both back_to_phone AtMostOne-with_both set_back
