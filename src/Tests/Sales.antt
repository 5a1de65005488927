-- ===== src/Tests/Sales.antt =====
-- The theorems on promotions and bundles, used on the marketplace.
use vintage.Prelude.{
  true, false, ℕ, ◌+◌, ◌*◌, ◌/◌, ◌≤◌, ◌<◌, ◌≡◌, refl, none, some, List, [], ◌∷◌, map, arith,
}
use native.Mathlib.Nat.{div-mul-le_self, lt-div-mul-add}
use vintage.Prelude.Int.{pos, neg, ◌+ℤ◌}
use vintage.Prelude.Dict.{Dict, lookup}
use vintage.World.{
  ListingStatus, World, Bundle, BundleStatus, Listing, Order, OrderStatus, PaymentMethod, Wallet,
}
use vintage.World.Action.{Exception, Result, ok, err, actions, throw, pure, transaction, for_each}
use vintage.World.Tables.{claim, create, create_snapshot}
use vintage.Wallet.Reconciliation.{balance_of}
use vintage.Checkout.{quote}
use vintage.Promotions.{BumpTier, bump_tx}
use vintage.Promotions.Charges.{bump_tx-charges}
use vintage.Bundles.{checkout_tx, claim_bundle, claim_listing, place_items, item_order}
use vintage.Bundles.Exclusive.{checkout_tx-exclusive}
use vintage.Bundles.Shares.{IsNearest, checkout_tx-places, item_order-amounts}
use vintage.Listings.{ListingUpdate, update_listing, suspend_listing}
use vintage.Listings.Suspended.{suspend_listing-lifted}
use vintage.Tests.{a_world, a_listing, for_sale, a_request, round}

-- Two listings of user 1 are for sale, and a bundle of user 2 holds both.
abbrev lighter : Listing
lighter = record for_sale { price = 4000; shipping_weight_g = 100 }

abbrev a_bundle : Bundle
a_bundle = record { buyer = 2; seller = 1; status = BundleStatus.open_status; items = 7 ∷ (8 ∷ []) }

abbrev a_wallet : Wallet
a_wallet = record { balance = pos 1000; pending = pos 0 }

abbrev bundling : World
bundling = record (a_world OrderStatus.cancelled) {
  listings = (7, for_sale) ∷ ((8, lighter) ∷ []);
  bundles = (20, a_bundle) ∷ ((21, a_bundle) ∷ []);
  wallets = (1, a_wallet) ∷ [];
}

abbrev a_tier : BumpTier
a_tier = record { days = 3; price = 490 }

bump_tx-charges_example :
    balance_of 1 (transaction (bump_tx 1000 7 1 a_tier) bundling).1.wallets ≡ pos 1000 +ℤ neg 490
bump_tx-charges_example = (bump_tx-charges 1000 7 1 1 a_tier a_wallet for_sale bundling refl refl).3

-- Half up, on a fraction of millionths.
abbrev round_over : ℕ → ℕ → ℕ
round_over m n = (m + n * 5000) / (n * 10000)

abbrev items : Dict Listing
items = (7, for_sale) ∷ ((8, lighter) ∷ [])

abbrev order_of : ℕ × Listing → Order
order_of p = item_order round_over 1000 2 1 PaymentMethod.pix 1590 2 p

abbrev bought : Result (List ℕ) × World
bought = transaction (checkout_tx 20 order_of items) bundling

bought-ok : bought ≡ (ok (100 ∷ (101 ∷ [])), bought.1)
unfolding checkout_tx claim_bundle claim_listing place_items claim create create_snapshot throw pure
    for_each actions
bought-ok = refl

checkout_tx-exclusive_example :
    transaction (checkout_tx 21 order_of items) bought.1 ≡ (err Exception.conflict, bought.1)
checkout_tx-exclusive_example =
    (checkout_tx-exclusive 7 20 21 2 order_of order_of items items a_request for_sale
      (quote round 10000 250 none) none (100 ∷ (101 ∷ [])) bundling bought.1 refl refl refl
      bought-ok).0

checkout_tx-places_example :
    map (λ k. lookup k bought.1.orders) (100 ∷ (101 ∷ [])) ≡ map (λ p. some (order_of p)) items
checkout_tx-places_example =
    checkout_tx-places 20 order_of items (100 ∷ (101 ∷ [])) bundling bought.1 bought-ok

under_lem : (q m n : ℕ) → q * (n * 10000) ≤ m + n * 5000 → q * n * 10000 ≤ m + 5000 * n
under_lem q m n h = omega (arith, h)

over_lem : (q m n : ℕ) → m + n * 5000 < q * (n * 10000) + n * 10000 → m ≤ q * n * 10000 + 5000 * n
over_lem q m n h = omega (arith, h)

round_over-IsNearest : IsNearest round_over
round_over-IsNearest = record {
  below = λ m n h. under_lem (round_over m n) m n (div-mul-le_self (m + n * 5000) (n * 10000));
  above =
      λ m n h. over_lem (round_over m n) m n (lt-div-mul-add {a = m + n * 5000} (omega (arith, h)));
}

item_order-amounts_example :
    (order_of (7, for_sale)).total
    ≤ 10000 + (order_of (7, for_sale)).shipping_cost + (order_of (7, for_sale)).protection_fee + 1
unfolding item_order
item_order-amounts_example =
    (item_order-amounts round_over round_over-IsNearest 1000 2 1 1590 2 PaymentMethod.pix
      (7, for_sale) (omega arith)).0

-- The listing 7 is sold; it is suspended, and its seller makes it active again for another price.
abbrev a_listing_update : ListingUpdate
a_listing_update = record {
  price = some 9000;
  shipping_weight_g = none;
  status = some ListingStatus.active;
  urls_allowed = true;
  is_prohibited = false;
}

suspend_listing-lifted_example :
    lookup 7
      (update_listing
        (λ u. u)
        7
        1
        a_listing_update
        (suspend_listing (λ u. u) 7 (a_world OrderStatus.paid)).1).1.listings
    ≡ some (record for_sale { price = 9000 })
suspend_listing-lifted_example =
    (suspend_listing-lifted 7 a_listing_update a_listing (a_world OrderStatus.paid) refl refl refl
      refl refl).0
