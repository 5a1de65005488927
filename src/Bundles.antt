-- ===== src/Bundles.antt =====
-- Bundles of listings of one seller (apps/api/src/bundles/bundles.service.ts).
-- The shipping of a bundle is divided by the number of its items, so `toFixed(2)` is a parameter
-- from a numerator in millionths of a real and a denominator to centavos.
pub mod Exclusive
pub mod Shares
use vintage.Prelude.{
  ℕ, ◌+◌, ◌*◌, Bool, true, false, Option, none, some, List, [], ◌∷◌, not, ◌==◌, ◌||◌, leb, any, all,
  filter, length, if◌then◌else◌,
}
use vintage.Prelude.Dict.{Dict, lookup, rows_where}
use vintage.World.{
  World, Bundle, BundleStatus, Listing, ListingStatus, Order, OrderStatus, PaymentMethod, Effect,
  listing_is, bundle_is,
}
use vintage.World.Action.{
  Action, Exception, ◌>>=◌, ◌>>◌, pure, gets, or_throw, throw_if, transaction, for_each, emit,
  interleave,
}
use vintage.World.Tables.{
  listings, bundles, orders, find_unique, find_or_throw, find_many, claim, update, create,
  create_snapshot,
}
use vintage.Checkout.{micros, buyer_protection_fee}
use Prim.Native.Nat.{max}

-- `create`. Of the ids at least two are given; an id that is given twice is found once.
abbrev is_among : List ℕ → ℕ → Bool
is_among ids k = any (λ i. i == k) ids

abbrev pub new_bundle : ℕ → ℕ → List ℕ → Bundle
new_bundle buyer seller items = record {
  buyer = buyer;
  seller = seller;
  status = BundleStatus.open_status;
  items = items;
}

abbrev is_listed : ℕ × Listing → Bool
is_listed p = listing_is (p.1).status ListingStatus.active

-- `new Set(listings.map((l) => l.sellerId)).size > 1`, and `listings[0].sellerId`.
abbrev has_other_seller : ℕ → Dict Listing → Bool
has_other_seller seller ls = any (λ p. not ((p.1).seller == seller)) ls

abbrev first_seller : Dict Listing → Option ℕ
first_seller [] = none
first_seller (p ∷ ps) = some (p.1).seller

unfoldable pub create_bundle : (World → World) → ℕ → ℕ → List ℕ → Action ℕ
create_bundle meanwhile buyer dto_seller ids = do
  found ← find_many listings (λ w k l. is_among ids k)
  throw_if (not (length found == length ids)) Exception.bad_request
  throw_if (not (all is_listed found)) Exception.bad_request
  seller ← or_throw (first_seller found) Exception.database_error
  throw_if (has_other_seller seller found) Exception.bad_request
  throw_if (not (seller == dto_seller)) Exception.bad_request
  throw_if (seller == buyer) Exception.bad_request
  interleave meanwhile
  create bundles (new_bundle buyer seller ids)

-- `removeItem`. The delete fails where another request has removed the item.
unfoldable pub delete_item : ℕ → ℕ → Action (Unit {0})
delete_item bundle listing = do
  b ← find_or_throw bundles bundle
  throw_if (not (is_among b.items listing)) Exception.database_error
  update bundles bundle (λ x. record x { items = filter (λ i. not (i == listing)) x.items })

unfoldable pub remove_item : (World → World) → ℕ → ℕ → ℕ → Action (Unit {0})
remove_item meanwhile bundle listing user = do
  b ← or_throw (← find_unique bundles bundle) Exception.not_found
  throw_if (not (b.buyer == user)) Exception.forbidden
  throw_if (not (bundle_is b.status BundleStatus.open_status)) Exception.bad_request
  throw_if (not (is_among b.items listing)) Exception.not_found
  throw_if (leb (length b.items) 2) Exception.bad_request
  interleave meanwhile
  delete_item bundle listing

unfoldable pub calculate_shipping : ℕ → ℕ
calculate_shipping weight_g =
    if leb weight_g 300
    then 1590
    else if leb weight_g 1000
    then 2250
    else if leb weight_g 5000
    then 3500
    else 5500

-- The listings of the items, as the `include` reads them.
unfoldable pub read_items : List ℕ → Action (Dict Listing)
read_items [] = pure []
read_items (i ∷ is) = do l ← find_or_throw listings i; rest ← read_items is; pure ((i, l) ∷ rest)

-- `Math.max` of the weights; without any, its -Infinity falls in the lowest band as 0 does.
abbrev max_weight : Dict Listing → ℕ
max_weight [] = 0
max_weight (p ∷ ps) = max (p.1).shipping_weight_g (max_weight ps)

unfoldable pub combined_shipping : Dict Listing → ℕ
unfolding calculate_shipping
combined_shipping items = calculate_shipping (max_weight items)

-- The three amounts of the order of an item, of a bundle of `n` items with a combined shipping.
unfoldable pub item_shipping : (ℕ → ℕ → ℕ) → ℕ → ℕ → ℕ
item_shipping to_fixed shipping n = to_fixed (shipping * micros) n

unfoldable pub item_fee : (ℕ → ℕ → ℕ) → ℕ → ℕ
unfolding buyer_protection_fee
item_fee to_fixed price = to_fixed (buyer_protection_fee price) 1

unfoldable pub item_total : (ℕ → ℕ → ℕ) → ℕ → ℕ → ℕ → ℕ
unfolding buyer_protection_fee
item_total to_fixed price shipping n =
    to_fixed (n * (price * micros + buyer_protection_fee price) + shipping * micros) n

-- No address is stored with the order.
unfoldable pub item_order : (ℕ → ℕ → ℕ) → ℕ → ℕ → ℕ → PaymentMethod → ℕ → ℕ → ℕ × Listing → Order
item_order to_fixed now buyer seller method shipping n (id, l) = record {
  buyer = buyer;
  seller = seller;
  listing = id;
  status = OrderStatus.pending;
  total = item_total to_fixed l.price shipping n;
  item_price = l.price;
  shipping_cost = item_shipping to_fixed shipping n;
  protection_fee = item_fee to_fixed l.price;
  discount = none;
  coupon = none;
  shipping_address = none;
  payment_method = method;
  installments = 1;
  idempotency_key = none;
  payment_id = none;
  refund_method = none;
  tracking_code = none;
  carrier = none;
  created_at = now;
  shipped_at = none;
  delivered_at = none;
  confirmed_at = none;
  dispute_deadline = none;
  escrow_releases_at = none;
}

unfoldable pub claim_listing : ℕ → Action (Unit {0})
claim_listing id = do
  claimed ←
      claim listings id (λ l. listing_is l.status ListingStatus.active)
        (λ l. record l { status = ListingStatus.sold })
  throw_if (not claimed) Exception.conflict

-- An order and its snapshot for each item.
unfoldable pub place_items : (ℕ × Listing → Order) → Dict Listing → Action (List ℕ)
place_items order [] = pure []
place_items order (p ∷ ps) = do
  id ← create orders (order p)
  create_snapshot id
  rest ← place_items order ps
  pure (id ∷ rest)

unfoldable pub claim_bundle : ℕ → Action (Unit {0})
claim_bundle id = do
  claimed ←
      claim bundles id (λ b. bundle_is b.status BundleStatus.open_status)
        (λ b. record b { status = BundleStatus.checked_out })
  throw_if (not claimed) Exception.conflict

unfoldable pub checkout_tx : ℕ → (ℕ × Listing → Order) → Dict Listing → Action (List ℕ)
checkout_tx id order items = do
  claim_bundle id
  for_each items (λ p. claim_listing p.0)
  place_items order items

-- `checkoutBundle`. A serialization failure of the database has no step of its own: a transaction
-- of the model is one step.
unfoldable pub checkout_bundle :
    (World → World) → (ℕ → ℕ → ℕ) → ℕ → ℕ → ℕ → PaymentMethod → Action (List ℕ)
checkout_bundle meanwhile to_fixed id buyer address method = do
  b ← or_throw (← find_unique bundles id) Exception.not_found
  items ← read_items b.items
  throw_if (not (b.buyer == buyer)) Exception.forbidden
  throw_if (not (bundle_is b.status BundleStatus.open_status)) Exception.bad_request
  throw_if (not (all is_listed items)) Exception.bad_request
  a ← or_throw (← gets (λ w. lookup address w.addresses)) Exception.bad_request
  throw_if (not (a.user == buyer)) Exception.bad_request
  interleave meanwhile
  now ← gets (λ w. w.now)
  placed ← transaction (
      checkout_tx id
        (item_order to_fixed now buyer b.seller method (combined_shipping items) (length items))
        items)
  for_each items (λ p. emit (Effect.sync_search p.0))
  pure placed
