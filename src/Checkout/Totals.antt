-- ===== src/Checkout/Totals.antt =====
-- The totals of an order (`OrdersService.create` of apps/api/src/orders/orders.service.ts).
use vintage.Prelude.{
  ℕ, ◌+◌, ◌*◌, ◌/◌, ◌-◌, ◌≤◌, ◌≡◌, refl, Option, none, some, Bool, true, ◌⊎◌, inl, inr, false,
  Bool-cases, ==→eq, arith, get_or, ◌==◌,
}
use Prim.Native.Nat.{min}
use vintage.Checkout.{
  micros, calculate_shipping, buyer_protection_fee, subtotal, coupon_discount, is_free_order,
  order_total, Quote, quote, quote_with, stored_discount,
}

-- `toFixed(2)` gives a nearest number of centavos.
pub record IsNearest (to_fixed : ℕ → ℕ) : Type 0 where
  pub below : (m : ℕ) → to_fixed m * micros ≤ m + 5000
  pub above : (m : ℕ) → m ≤ to_fixed m * micros + 5000

-- What the buyer saves, in centavos.
abbrev pub saved : Quote → ℕ
saved q = get_or q.discount 0

module _ (to_fixed : ℕ → ℕ) (nearest : IsNearest to_fixed) where
  to_fixed-whole : (c : ℕ) → to_fixed (c * micros) ≡ c
  to_fixed-whole c = omega (arith, nearest.below (c * micros), nearest.above (c * micros))

  stored_discount_lem : (d : ℕ) → get_or (stored_discount to_fixed d) 0 ≡ to_fixed d
  stored_discount_lem d = ground (arith, to_fixed-whole 0)

  -- The discount never exceeds what it is taken from.
  coupon_discount-bound : (m pct : ℕ) → coupon_discount to_fixed m pct ≤ m
  unfolding coupon_discount
  coupon_discount-bound m pct = ground arith

  -- The discount is a whole number of centavos, or it is all there is to pay.
  abbrev IsDiscount : ℕ → ℕ → Type 0
  IsDiscount m d = (d ≤ m) × ((d ≡ to_fixed d * micros) ⊎ (d ≡ m))

  coupon_discount-IsDiscount : (m pct : ℕ) → IsDiscount m (coupon_discount to_fixed m pct)
  unfolding coupon_discount
  coupon_discount-IsDiscount m pct = ground (arith, to_fixed-whole (to_fixed (m * pct / 100)))

  parts_lem :
      (item weight d : ℕ) (free : Bool)
      → IsDiscount (subtotal item weight) d
      → let q = quote_with to_fixed item weight d free in
        (q.total + saved q ≤ item + q.shipping_cost + q.protection_fee + 1)
        × (item + q.shipping_cost + q.protection_fee ≤ q.total + saved q + 1)
  unfolding quote_with subtotal order_total
  parts_lem item weight d free h =
      rw (stored_discount_lem d, to_fixed-whole (calculate_shipping weight))
        (
          ground (
            arith,
            h,
            nearest.below (subtotal item weight - d),
            nearest.above (subtotal item weight - d),
            nearest.below (buyer_protection_fee item),
            nearest.above (buyer_protection_fee item),
            nearest.below d,
            nearest.above d,
          ),
          ground (
            arith,
            h,
            nearest.below (subtotal item weight - d),
            nearest.above (subtotal item weight - d),
            nearest.below (buyer_protection_fee item),
            nearest.above (buyer_protection_fee item),
            nearest.below d,
            nearest.above d,
          ),
        )

  -- With or without a coupon, what the buyer pays and what the buyer saves add up to the price of
  -- the item, the shipping and the protection fee that the order stores, up to one centavo, if
  -- `toFixed(2)` rounds to a nearest centavo.
  pub quote-total :
      (item weight : ℕ) (pct : Option ℕ)
      → let q = quote to_fixed item weight pct in
        (q.total + saved q ≤ item + q.shipping_cost + q.protection_fee + 1)
        × (item + q.shipping_cost + q.protection_fee ≤ q.total + saved q + 1)
  unfolding quote
  quote-total item weight none =
      parts_lem item weight 0 false (omega arith, inl (rw (to_fixed-whole 0) refl))
  quote-total item weight (some pct) =
      parts_lem item weight _
        (is_free_order pct (coupon_discount to_fixed (subtotal item weight) pct)
          (subtotal item weight))
        (coupon_discount-IsDiscount (subtotal item weight) pct)

  free_lem :
      (m pct : ℕ)
      → let d = coupon_discount to_fixed m pct in
        is_free_order pct d m ≡ true → to_fixed (m - d) ≤ 1
  unfolding is_free_order coupon_discount
  free_lem m pct h = elim (Bool-cases (pct == 100)) [
    | inl e ↦ rw (==→eq pct 100 e) (
        ground (
          arith,
          nearest.below (m * 100 / 100),
          nearest.above (m * 100 / 100),
          nearest.below (m - min (to_fixed (m * 100 / 100) * micros) m),
        ))
    | inr f ↦ ground (arith, h, f, nearest.below (m - min (to_fixed (m * pct / 100) * micros) m))
  ]

  -- An order that is free, and so is created as paid, has a total of at most one centavo, if
  -- `toFixed(2)` rounds to a nearest centavo.
  quote-free :
      (item weight : ℕ) (pct : Option ℕ)
      → (quote to_fixed item weight pct).is_free ≡ true
      → (quote to_fixed item weight pct).total ≤ 1
  unfolding quote quote_with order_total
  quote-free item weight none h = ground (arith, h)
  quote-free item weight (some pct) h = free_lem (subtotal item weight) pct h
