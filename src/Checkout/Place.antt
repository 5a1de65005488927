-- ===== src/Checkout/Place.antt =====
-- `CouponsService.validate` (apps/api/src/coupons/coupons.service.ts) and `OrdersService.create`
-- (apps/api/src/orders/orders.service.ts).
use vintage.Prelude.{
  ℕ, ◌+◌, Bool, true, false, Option, none, some, not, ◌==◌, ◌&&◌, ltb, leb, get_or, if◌then◌else◌,
}
use vintage.Prelude.Dict.{lookup, any_row}
use vintage.World.{
  World, Coupon, Listing, ListingStatus, Order, OrderStatus, PaymentMethod, Effect, listing_is,
  order_is,
}
use vintage.World.Action.{
  Action, Exception, ◌>>=◌, ◌>>◌, pure, gets, or_throw, throw_if, when, with_some, on_option,
  transaction, catch_signal, emit, interleave,
}
use vintage.World.Tables.{
  coupons, listings, orders, find_unique, find_first, update, create, create_snapshot,
}
use vintage.Wallet.{upsert_wallet, hold_escrow}
use vintage.Fraud.{evaluate_purchase, is_block_action}
use vintage.Checkout.{Quote, quote}

-- `coupon.expiresAt && coupon.expiresAt < new Date()`.
abbrev pub is_expired : Option ℕ → ℕ → Bool
is_expired none now = false
is_expired (some t) now = ltb t now

-- `coupon.maxUses !== null && coupon.usedCount >= coupon.maxUses`.
abbrev pub is_used_up : Coupon → Bool
is_used_up c = elim c.max_uses [ none ↦ false | some n ↦ leb n c.used_count ]

-- The guards of `validate`; a code is what `toUpperCase().trim()` makes of the text. The discount
-- is reckoned in `quote`.
unfoldable pub validate_coupon : ℕ → Action (ℕ × Coupon)
validate_coupon code = do
  found ← or_throw (← find_first coupons (λ c. c.code == code)) Exception.not_found
  throw_if (not (found.1).is_active) Exception.bad_request
  expired ← gets (λ w. is_expired (found.1).expires_at w.now)
  throw_if expired Exception.bad_request
  throw_if (is_used_up found.1) Exception.bad_request
  pure found

unfoldable pub validate_optional : Option ℕ → Action (Option (ℕ × Coupon))
validate_optional none = pure none
validate_optional (some code) = do c ← validate_coupon code; pure (some c)

-- The second check of the coupon, inside the transaction.
unfoldable pub recheck_coupon : ℕ → Action (Unit {0})
recheck_coupon id = do
  c ← or_throw (← find_unique coupons id) Exception.bad_request
  throw_if (not c.is_active) Exception.bad_request
  expired ← gets (λ w. is_expired c.expires_at w.now)
  throw_if expired Exception.bad_request
  throw_if (is_used_up c) Exception.conflict

-- `CreateOrderDto`.
pub record OrderRequest : Type 0 where
  pub listing : ℕ
  pub address : ℕ
  pub payment_method : PaymentMethod
  pub installments : Option ℕ
  pub coupon_code : Option ℕ
  pub idempotency_key : Option ℕ

abbrev is_credit_card : PaymentMethod → Bool
is_credit_card PaymentMethod.credit_card = true
is_credit_card _ = false

abbrev coupon_id : Option (ℕ × Coupon) → Option ℕ
coupon_id none = none
coupon_id (some c) = some c.0

abbrev coupon_pct : Option (ℕ × Coupon) → Option ℕ
coupon_pct none = none
coupon_pct (some c) = some (c.1).discount_pct

abbrev pub new_order : ℕ → ℕ → OrderRequest → Listing → Quote → Option ℕ → Order
new_order now buyer r l q coupon = record {
  buyer = buyer;
  seller = l.seller;
  listing = r.listing;
  status = if q.is_free then OrderStatus.paid else OrderStatus.pending;
  total = q.total;
  item_price = l.price;
  shipping_cost = q.shipping_cost;
  protection_fee = q.protection_fee;
  discount = q.discount;
  coupon = coupon;
  shipping_address = some r.address;
  payment_method = if q.is_free then PaymentMethod.free else r.payment_method;
  installments = if q.is_free then 1 else get_or r.installments 1;
  idempotency_key = r.idempotency_key;
  payment_id = none;
  refund_method = none;
  tracking_code = none;
  carrier = none;
  created_at = now;
  shipped_at = none;
  delivered_at = none;
  confirmed_at = none;
  dispute_deadline = none;
  escrow_releases_at = none;
}

-- Whether an order of the buyer has the key: `@@unique([buyerId, idempotencyKey])`.
abbrev pub has_key : ℕ → Option ℕ → Order → Bool
has_key buyer none o = false
has_key buyer (some k) o =
    o.buyer == buyer && (elim o.idempotency_key [ none ↦ false | some j ↦ j == k ])

-- The transaction. A key that is taken is the error P2002 of the database client.
unfoldable pub place_order_tx : ℕ → OrderRequest → Listing → Quote → Option ℕ → Action (ℕ × Order)
place_order_tx buyer r l q coupon = do
  fresh ← or_throw (← find_unique listings r.listing) Exception.bad_request
  throw_if (not (listing_is fresh.status ListingStatus.active)) Exception.bad_request
  with_some coupon recheck_coupon
  taken ← gets (λ w. any_row (has_key buyer r.idempotency_key) w.orders)
  throw_if taken Exception.race_signal
  now ← gets (λ w. w.now)
  id ← create orders (new_order now buyer r l q coupon)
  update listings r.listing (λ x. record x { status = ListingStatus.sold })
  create_snapshot id
  with_some coupon (λ c. update coupons c (λ x. record x { used_count = x.used_count + 1 }))
  when q.is_free (upsert_wallet l.seller >> hold_escrow l.seller l.price id)
  pure (id, new_order now buyer r l q coupon)

-- The existing order of the buyer under the key.
unfoldable pub existing_order : ℕ → Option ℕ → Exception → Action (ℕ × Order)
existing_order buyer key e = do or_throw (← find_first orders (has_key buyer key)) e

-- `isFreeOrder`, read off the order: a free order is paid when it is created.
abbrev order_paid : Order → Bool
order_paid o = order_is o.status OrderStatus.paid

unfoldable pub place_order : (World → World) → (ℕ → ℕ) → ℕ → OrderRequest → Action (ℕ × Order)
place_order meanwhile to_fixed buyer r = do
  l ← or_throw (← find_unique listings r.listing) Exception.not_found
  throw_if (not (listing_is l.status ListingStatus.active)) Exception.bad_request
  throw_if (l.seller == buyer) Exception.bad_request
  decision ← evaluate_purchase buyer
  throw_if (is_block_action decision) Exception.forbidden
  address ← or_throw (← gets (λ w. lookup r.address w.addresses)) Exception.bad_request
  throw_if (not (address.user == buyer)) Exception.bad_request
  throw_if (ltb 1 (get_or r.installments 1) && not (is_credit_card r.payment_method))
      Exception.bad_request
  c ← validate_optional r.coupon_code
  interleave meanwhile
  catch_signal
      (transaction (
        place_order_tx buyer r l (quote to_fixed l.price l.shipping_weight_g (coupon_pct c))
          (coupon_id c)))
      (existing_order buyer r.idempotency_key Exception.race_signal)
      (λ placed. do
        emit (Effect.notify l.seller placed.0)
        emit (Effect.sync_search r.listing)
        emit (Effect.capture buyer placed.0)
        when (order_paid placed.1) (emit (Effect.capture buyer placed.0))
        pure placed)

-- `OrdersService.create`: a retry under the same key gives the order that exists.
unfoldable pub create_order : (World → World) → (ℕ → ℕ) → ℕ → OrderRequest → Action (ℕ × Order)
create_order meanwhile to_fixed buyer r = do
  existing ← find_first orders (has_key buyer r.idempotency_key)
  on_option existing (place_order meanwhile to_fixed buyer r) (λ p. pure p)
