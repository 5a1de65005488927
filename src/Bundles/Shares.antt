-- ===== src/Bundles/Shares.antt =====
-- The orders of a bundle (`checkoutBundle` of apps/api/src/bundles/bundles.service.ts): their rows
-- and their amounts.
use vintage.Prelude.{ℕ, ◌+◌, ◌*◌, ◌≤◌, ◌<◌, ◌≡◌, refl, some, List, [], ◌∷◌, map, arith}
use native.Mathlib.Nat.{le_of_mul-le-mul_right, mul-le-mul_right}
use vintage.Prelude.Dict.{Dict, lookup, insert, lookup-insert, lookup-insert_self}
use vintage.World.{World, Listing, Order, PaymentMethod}
use vintage.World.Action.{actions, ok, pure, transaction}
use vintage.World.Ensures.{Ensures-after, Ensures-transaction, Ensures-returns}
use vintage.World.Tables.{create, create_snapshot}
use vintage.Checkout.{micros, buyer_protection_fee}
use vintage.Bundles.{place_items, checkout_tx, item_shipping, item_fee, item_total, item_order}

-- The state before the row of the rest is made, and the ids that are given out.
abbrev placed_one : Order → World → World
placed_one o w = record w {
  next_id = w.next_id + 1;
  orders = insert w.next_id o w.orders;
  snapshots = w.next_id ∷ w.snapshots;
}

abbrev placed_all : (ℕ × Listing → Order) → Dict Listing → World → World
placed_all order [] w = w
placed_all order (p ∷ ps) w = placed_all order ps (placed_one (order p) w)

abbrev ids_from : ℕ → Dict Listing → List ℕ
ids_from n [] = []
ids_from n (p ∷ ps) = n ∷ ids_from (n + 1) ps

place_items_lem :
    (order : ℕ × Listing → Order) (items : Dict Listing) (w : World)
    → place_items order items w ≡ (ok (ids_from w.next_id items), placed_all order items w)
unfolding place_items create create_snapshot actions pure
place_items_lem order [] w = refl
place_items_lem order (p ∷ ps) w = rw (place_items_lem order ps (placed_one (order p) w)) refl

-- What was given out before stays.
placed_all-old :
    (order : ℕ × Listing → Order) (k : ℕ) (items : Dict Listing) (w : World)
    → k < w.next_id
    → lookup k (placed_all order items w).orders ≡ lookup k w.orders
placed_all-old order k [] w h = refl
placed_all-old order k (p ∷ ps) w h = ground (
  arith,
  h,
  placed_all-old order k ps (placed_one (order p) w) (omega (arith, h)),
  lookup-insert w.next_id k (order p) w.orders,
)

placed_all-rows :
    (order : ℕ × Listing → Order) (items : Dict Listing) (w : World)
    → map (λ k. lookup k (placed_all order items w).orders) (ids_from w.next_id items)
      ≡ map (λ p. some (order p)) items
placed_all-rows order [] w = refl
placed_all-rows order (p ∷ ps) w =
    let u = placed_one (order p) w in
    rw
      (
        placed_all-old order w.next_id ps u (omega arith),
        lookup-insert_self w.next_id (order p) w.orders,
        placed_all-rows order ps u,
      )
      refl

-- Where the transaction of a checkout returns, the ids that it returns are, in their order, those of
-- the orders of its items, stored as they are made of the items.
pub checkout_tx-places :
    (id : ℕ) (order : ℕ × Listing → Order) (items : Dict Listing) (placed : List ℕ) (w v : World)
    → transaction (checkout_tx id order items) w ≡ (ok placed, v)
    → map (λ k. lookup k v.orders) placed ≡ map (λ p. some (order p)) items
unfolding checkout_tx
checkout_tx-places id order items placed w v done =
    (Ensures-transaction {P = λ u. Unit {0}}
        {Q = λ a u. map (λ k. lookup k u.orders) a ≡ map (λ p. some (order p)) items}
        (Ensures-after (record { at = λ u p. tt })
          (λ a.
            Ensures-after (record { at = λ u p. tt })
              (λ b.
                Ensures-returns
                  (λ a u. map (λ k. lookup k u.orders) a ≡ map (λ p. some (order p)) items)
                  (λ u p. rw (place_items_lem order items u) (placed_all-rows order items u)))))).at
      w tt placed v done

-- `toFixed(2)` of a fraction gives a nearest number of centavos.
pub record IsNearest (to_fixed : ℕ → ℕ → ℕ) : Type 0 where
  pub below : (m n : ℕ) → 0 < n → to_fixed m n * n * micros ≤ m + 5000 * n
  pub above : (m n : ℕ) → 0 < n → m ≤ to_fixed m n * n * micros + 5000 * n

upper_lem :
    (t p s f fee shipping n : ℕ)
    → t * n * micros ≤ n * (p * micros + fee) + shipping * micros + 5000 * n
    → shipping * micros ≤ s * n * micros + 5000 * n
    → fee ≤ f * micros + 5000
    → t * micros * n ≤ ((p + s + f) * micros + 15000) * n
upper_lem t p s f fee shipping n h i j =
    let k : fee * n ≤ (f * micros + 5000) * n = mul-le-mul_right n j in omega (arith, h, i, k)

lower_lem :
    (t p s f fee shipping n : ℕ)
    → n * (p * micros + fee) + shipping * micros ≤ t * n * micros + 5000 * n
    → s * n * micros ≤ shipping * micros + 5000 * n
    → f * micros ≤ fee + 5000
    → (p + s + f) * micros * n ≤ (t * micros + 15000) * n
lower_lem t p s f fee shipping n h i j =
    let k : (f * micros) * n ≤ (fee + 5000) * n = mul-le-mul_right n j in omega (arith, h, i, k)

module _ (to_fixed : ℕ → ℕ → ℕ) (nearest : IsNearest to_fixed) where
  item_shipping-share :
      (shipping n : ℕ)
      → 0 < n
      → let s = item_shipping to_fixed shipping n in
        (2 * (s * n) ≤ 2 * shipping + n) × (2 * shipping ≤ 2 * (s * n) + n)
  unfolding item_shipping
  item_shipping-share shipping n positive = (
    omega (arith, nearest.below (shipping * micros) n positive),
    omega (arith, nearest.above (shipping * micros) n positive),
  )

  item_total-parts :
      (price shipping n : ℕ)
      → 0 < n
      → let parts = price + item_shipping to_fixed shipping n + item_fee to_fixed price in
        (item_total to_fixed price shipping n ≤ parts + 1)
        × (parts ≤ item_total to_fixed price shipping n + 1)
  unfolding item_total item_shipping item_fee
  item_total-parts price shipping n positive =
      let fee = buyer_protection_fee price in
      let all = n * (price * micros + fee) + shipping * micros in
      let ship = shipping * micros in
      let up =
        upper_lem (to_fixed all n) price (to_fixed ship n) (to_fixed fee 1) fee shipping n
          (nearest.below all n positive) (nearest.above ship n positive)
          (omega (arith, nearest.above fee 1 (omega arith))) in
      let down =
        lower_lem (to_fixed all n) price (to_fixed ship n) (to_fixed fee 1) fee shipping n
          (nearest.above all n positive) (nearest.below ship n positive)
          (omega (arith, nearest.below fee 1 (omega arith))) in
      (
        omega (arith, le_of_mul-le-mul_right up positive),
        omega (arith, le_of_mul-le-mul_right down positive),
      )

  -- If `toFixed(2)` rounds to a nearest centavo, the total of the order of an item is the sum of the
  -- price, the shipping and the protection fee that it stores, up to one centavo, and n times the
  -- shipping that it stores is the combined shipping of the n items, up to half a centavo for each.
  pub item_order-amounts :
      (now buyer seller shipping n : ℕ) (method : PaymentMethod) (p : ℕ × Listing)
      → 0 < n
      → let o = item_order to_fixed now buyer seller method shipping n p in
        let parts = o.item_price + o.shipping_cost + o.protection_fee in
        (o.total ≤ parts + 1)
        × (parts ≤ o.total + 1)
        × (2 * (o.shipping_cost * n) ≤ 2 * shipping + n)
        × (2 * shipping ≤ 2 * (o.shipping_cost * n) + n)
  unfolding item_order
  item_order-amounts now buyer seller shipping n method (id, l) positive =
      let t = item_total-parts l.price shipping n positive in
      let s = item_shipping-share shipping n positive in (t.0, t.1, s.0, s.1)
