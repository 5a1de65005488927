-- ===== src/Orders/Lifecycle.antt =====
-- `cancelByBuyer`, `markShipped` and `markDeliveredInternal` of
-- apps/api/src/orders/orders.service.ts. `meanwhile` is what other requests commit between the
-- first read of a row and the write that claims it.
use vintage.Prelude.{ℕ, ◌+◌, ◌*◌, Bool, Option, none, some, not, ◌==◌}
use vintage.World.{World, ListingStatus, Order, OrderStatus, Effect, order_is, listing_is}
use vintage.World.Action.{
  Action, Exception, ◌>>=◌, ◌>>◌, gets, pure, or_throw, throw_if, when, with_some, transaction,
  emit, interleave,
}
use vintage.World.Tables.{
  listings, orders, find_unique, find_or_throw, claim, update, delete_snapshots,
}

-- Milliseconds in a day: `setDate(getDate() + n)` moves an instant by n of them.
abbrev pub day : ℕ
day = 86400000

-- DISPUTE_WINDOW_DAYS of packages/shared/src/constants.ts.
abbrev pub dispute_window_days : ℕ
dispute_window_days = 5

-- The listing is for sale again, if it is still parked as SOLD.
unfoldable pub reactivate_listing : ℕ → Action (Unit {0})
reactivate_listing id = do
  found ← find_unique listings id
  with_some found (λ l.
      when (listing_is l.status ListingStatus.sold)
        (update listings id (λ x. record x { status = ListingStatus.active })))

unfoldable pub cancel_by_buyer : (World → World) → ℕ → ℕ → Action Order
cancel_by_buyer meanwhile id buyer = do
  o ← or_throw (← find_unique orders id) Exception.not_found
  throw_if (not (o.buyer == buyer)) Exception.forbidden
  throw_if (not (order_is o.status OrderStatus.pending)) Exception.bad_request
  interleave meanwhile
  next ← transaction (do
    claimed ←
        claim orders id (λ x. order_is x.status OrderStatus.pending)
          (λ x. record x { status = OrderStatus.cancelled })
    throw_if (not claimed) Exception.conflict
    n ← find_or_throw orders id
    reactivate_listing o.listing
    delete_snapshots id
    pure n)
  emit (Effect.sync_search o.listing)
  emit (Effect.notify o.seller id)
  pure next

unfoldable pub mark_shipped : (World → World) → ℕ → ℕ → ℕ → ℕ → Action Order
mark_shipped meanwhile id seller tracking_code carrier = do
  o ← or_throw (← find_unique orders id) Exception.not_found
  throw_if (not (o.seller == seller)) Exception.forbidden
  throw_if (not (order_is o.status OrderStatus.paid)) Exception.bad_request
  interleave meanwhile
  now ← gets (λ w. w.now)
  claimed ←
      claim orders id (λ x. order_is x.status OrderStatus.paid)
        (λ x. record x {
          status = OrderStatus.shipped;
          tracking_code = some tracking_code;
          carrier = some carrier;
          shipped_at = some now;
        })
  throw_if (not claimed) Exception.conflict
  updated ← find_or_throw orders id
  emit (Effect.notify updated.buyer id)
  emit (Effect.shipping_alert updated.buyer id)
  pure updated

-- `userId !== null && order.buyerId !== userId`.
abbrev not_buyer : Option ℕ → ℕ → Bool
not_buyer none buyer = Bool.false
not_buyer (some user) buyer = not (buyer == user)

-- The user is null on the path of the tracking poller.
unfoldable pub mark_delivered_internal : (World → World) → ℕ → Option ℕ → Action Order
mark_delivered_internal meanwhile id user = do
  o ← or_throw (← find_unique orders id) Exception.not_found
  throw_if (not_buyer user o.buyer) Exception.forbidden
  throw_if (not (order_is o.status OrderStatus.shipped)) Exception.bad_request
  now ← gets (λ w. w.now)
  interleave meanwhile
  claimed ←
      claim orders id (λ x. order_is x.status OrderStatus.shipped)
        (λ x. record x {
          status = OrderStatus.delivered;
          delivered_at = some now;
          dispute_deadline = some (now + dispute_window_days * day);
        })
  throw_if (not claimed) Exception.conflict
  updated ← find_or_throw orders id
  emit (Effect.notify updated.buyer id)
  emit (Effect.shipping_alert updated.buyer id)
  emit (Effect.capture updated.buyer id)
  pure updated
