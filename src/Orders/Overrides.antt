-- ===== src/Orders/Overrides.antt =====
-- The overrides of an administrator, `forceRelease` and `forceHold` of
-- apps/api/src/admin-analytics/admin-orders.controller.ts.
use vintage.Prelude.{ℕ, ◌+◌, ◌*◌, Bool, some, not}
use vintage.World.{World, Order, OrderStatus, Effect, order_is}
use vintage.World.Action.{
  Action, Exception, ◌>>=◌, ◌>>◌, gets, pure, or_throw, throw_if, transaction, emit, interleave,
}
use vintage.World.Tables.{orders, find_unique, find_or_throw, update}
use vintage.Wallet.{upsert_wallet, rehold_escrow}
use vintage.Orders.Lifecycle.{day}
use vintage.Orders.Escrow.{finalize_escrow}

unfoldable pub force_release : (World → World) → ℕ → Action Order
force_release meanwhile id = do
  o ← or_throw (← find_unique orders id) Exception.not_found
  throw_if (not (order_is o.status OrderStatus.held)) Exception.bad_request
  interleave meanwhile
  result ← finalize_escrow meanwhile id
  emit (Effect.audit id)
  pure result

-- The transaction, with the order as it was read before.
unfoldable pub force_hold_tx : ℕ → Order → Action Order
force_hold_tx id o = transaction (do
  upsert_wallet o.seller
  rehold_escrow o.seller o.item_price
  now ← gets (λ w. w.now)
  update orders id
      (λ x. record x { status = OrderStatus.held; escrow_releases_at = some (now + 2 * day) })
  find_or_throw orders id)

-- `reason` tells whether a reason was given.
unfoldable pub force_hold : (World → World) → Bool → ℕ → Action Order
force_hold meanwhile reason id = do
  throw_if (not reason) Exception.bad_request
  o ← or_throw (← find_unique orders id) Exception.not_found
  throw_if (not (order_is o.status OrderStatus.completed)) Exception.bad_request
  interleave meanwhile
  updated ← force_hold_tx id o
  emit (Effect.audit id)
  pure updated
