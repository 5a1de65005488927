-- ===== src/Checkout/Coupons.antt =====
-- `create` of apps/api/src/coupons/coupons.service.ts, against `validate`. A code is what
-- `toUpperCase().trim()` makes of the text.
use vintage.Prelude.{
  ℕ, ◌+◌, ◌≡◌, refl, Bool, true, false, Option, none, some, [], ◌∷◌, ◌==◌, is_some, arith,
}
use vintage.Prelude.Dict.{Dict, find, any_row, insert, find-insert}
use vintage.World.{World, Coupon, Effect}
use vintage.World.Action.{
  Action, Exception, ok, ◌>>=◌, ◌>>◌, gets, pure, throw, throw_if, emit, interleave, actions,
}
use vintage.World.Tables.{coupons, find_first, create}
use vintage.Checkout.Place.{validate_coupon, is_expired, is_used_up}

-- `code` is unique.
abbrev has_code : ℕ → Coupon → Bool
has_code code c = c.code == code

abbrev or_true : Option Bool → Bool
or_true none = true
or_true (some b) = b

-- `CreateCouponDto`.
pub record CouponRequest : Type 0 where
  pub code : ℕ
  pub discount_pct : ℕ
  pub max_uses : Option ℕ
  pub expires_at : Option ℕ
  pub is_active : Option Bool

abbrev new_coupon : CouponRequest → Coupon
new_coupon d = record {
  code = d.code;
  discount_pct = d.discount_pct;
  max_uses = d.max_uses;
  used_count = 0;
  expires_at = d.expires_at;
  is_active = or_true d.is_active;
}

unfoldable create_coupon : (World → World) → CouponRequest → Action ℕ
create_coupon meanwhile d = do
  existing ← find_first coupons (has_code d.code)
  throw_if (is_some existing) Exception.bad_request
  interleave meanwhile
  taken ← gets (λ w. any_row (has_code d.code) w.coupons)
  throw_if taken Exception.database_error
  id ← create coupons (new_coupon d)
  emit (Effect.audit id)
  pure id

find-any_row : (p : Coupon → Bool) (d : Dict Coupon) → any_row p d ≡ false → find p d ≡ none
find-any_row p [] h = refl
find-any_row p ((j, v) ∷ d) h = ground (arith, h, find-any_row p d)

abbrev stored : CouponRequest → World → World
stored d w = record w {
  next_id = w.next_id + 1;
  coupons = insert w.next_id (new_coupon d) w.coupons;
  outbox = Effect.audit w.next_id ∷ w.outbox;
}

create_coupon_lem :
    (d : CouponRequest) (w : World)
    → any_row (has_code d.code) w.coupons ≡ false
    → create_coupon (λ u. u) d w ≡ (ok w.next_id, stored d w)
unfolding create_coupon find_first create actions throw pure
create_coupon_lem d w h = rw (find-any_row (has_code d.code) w.coupons h) (rw h refl)

-- An active coupon that has not expired and can be used, created under a code that is not taken,
-- where no other request comes between, is the one that the check of the code finds.
create_coupon-validates :
    (d : CouponRequest) (w : World)
    → any_row (has_code d.code) w.coupons ≡ false
    → or_true d.is_active ≡ true
    → is_expired d.expires_at w.now ≡ false
    → is_used_up (new_coupon d) ≡ false
    → let r = create_coupon (λ u. u) d w in
      (r.0 ≡ ok w.next_id) × (validate_coupon d.code r.1 ≡ (ok (w.next_id, new_coupon d), r.1))
unfolding validate_coupon find_first actions throw pure
create_coupon-validates d w h a e u =
    let f = find-insert (has_code d.code) w.next_id (new_coupon d) w.coupons h (ground arith) in
    rw (create_coupon_lem d w h) (refl, rw f (rw a (rw e (rw u refl))))
