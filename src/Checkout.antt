-- ===== src/Checkout.antt =====
-- The price of an order: `calculateShipping` and the totals of `create`
-- (apps/api/src/orders/orders.service.ts), and the discount of a coupon
-- (apps/api/src/coupons/coupons.service.ts).
-- The source reckons in floating point. Every intermediate value is a whole number of millionths of
-- a real, so the model reckons with those, and `toFixed(2)` is a parameter from millionths to
-- centavos.
pub mod Coupons
pub mod Totals
pub mod Cap
pub mod Retry
pub mod Place
use vintage.Prelude.{
  ℕ, ◌+◌, ◌-◌, ◌*◌, ◌/◌, Bool, Option, none, some, leb, ltb, ◌==◌, ◌||◌, if◌then◌else◌,
}
use Prim.Native.Nat.{min}

-- Millionths of a real in a centavo.
abbrev pub micros : ℕ
micros = 10000

unfoldable pub calculate_shipping : ℕ → ℕ
calculate_shipping weight_g =
    if leb weight_g 300
    then 1590
    else if leb weight_g 1000
    then 2250
    else if leb weight_g 5000
    then 3500
    else 5500

-- BUYER_PROTECTION_FIXED_BRL + itemPrice * BUYER_PROTECTION_RATE, in millionths.
unfoldable pub buyer_protection_fee : ℕ → ℕ
buyer_protection_fee item_price = 3500000 + item_price * 500

unfoldable pub subtotal : ℕ → ℕ → ℕ
unfolding calculate_shipping buyer_protection_fee
subtotal item_price weight_g =
    item_price * micros + calculate_shipping weight_g * micros + buyer_protection_fee item_price

-- `Math.min(parseFloat((orderTotal * discountPct / 100).toFixed(2)), orderTotal)`.
unfoldable pub coupon_discount : (ℕ → ℕ) → ℕ → ℕ → ℕ
coupon_discount to_fixed order_total discount_pct =
    min (to_fixed (order_total * discount_pct / 100) * micros) order_total

-- `isFreeOrder`, where there is a coupon.
unfoldable pub is_free_order : ℕ → ℕ → ℕ → Bool
is_free_order discount_pct discount order_total = discount_pct == 100 || leb order_total discount

-- `Math.max(0, subtotal - discountBrl)`: the subtraction of ℕ stops at 0.
unfoldable pub order_total : ℕ → ℕ → ℕ
order_total subtotal discount = subtotal - discount

-- The totals that an order is created with.
pub record Quote : Type 0 where
  pub total : ℕ
  pub shipping_cost : ℕ
  pub protection_fee : ℕ
  pub discount : Option ℕ
  pub is_free : Bool

-- `discountBrl > 0 ? new Decimal(discountBrl.toFixed(2)) : undefined`.
abbrev pub stored_discount : (ℕ → ℕ) → ℕ → Option ℕ
stored_discount to_fixed discount = if ltb 0 discount then some (to_fixed discount) else none

unfoldable pub quote_with : (ℕ → ℕ) → ℕ → ℕ → ℕ → Bool → Quote
unfolding subtotal order_total
quote_with to_fixed item_price weight_g discount is_free = record {
  total = to_fixed (order_total (subtotal item_price weight_g) discount);
  shipping_cost = to_fixed (calculate_shipping weight_g * micros);
  protection_fee = to_fixed (buyer_protection_fee item_price);
  discount = stored_discount to_fixed discount;
  is_free = is_free;
}

-- The quote without a coupon, and with one of a percentage.
unfoldable pub quote : (ℕ → ℕ) → ℕ → ℕ → Option ℕ → Quote
unfolding quote_with coupon_discount is_free_order
quote to_fixed item_price weight_g none = quote_with to_fixed item_price weight_g 0 Bool.false
quote to_fixed item_price weight_g (some pct) =
    let discount = coupon_discount to_fixed (subtotal item_price weight_g) pct in
    quote_with to_fixed item_price weight_g discount
      (is_free_order pct discount (subtotal item_price weight_g))
