-- ===== src/Orders/Escrow.antt =====
-- `confirmReceipt`, `enterHold` and `finalizeEscrow` of apps/api/src/orders/orders.service.ts.
use vintage.Prelude.{ℕ, ◌+◌, ◌*◌, Option, none, some, not, ◌==◌, ◌&&◌, get_or}
use vintage.World.{World, Order, OrderStatus, Effect, order_is}
use vintage.World.Action.{
  Action, Exception, ◌>>=◌, ◌>>◌, gets, pure, or_throw, throw_if, branch, transaction, emit,
  interleave,
}
use vintage.World.Tables.{orders, find_unique, find_or_throw, claim, delete_snapshots}
use vintage.Wallet.{upsert_wallet, release_escrow}
use vintage.Referrals.{credit_if_eligible}
use vintage.Orders.Lifecycle.{day}

-- ESCROW_HOLD_DAYS of packages/shared/src/constants.ts.
abbrev pub escrow_hold_days : ℕ
escrow_hold_days = 2

-- `getEscrowHoldDays`: the configured number, or none where it is not finite or negative.
unfoldable pub hold_days : Option ℕ → ℕ
hold_days configured = get_or configured escrow_hold_days

-- What the winner of the claim writes.
unfoldable pub settle_escrow : ℕ → Action Order
settle_escrow id = do
  o ← find_or_throw orders id
  upsert_wallet o.seller
  release_escrow o.seller o.item_price id
  delete_snapshots id
  pure o

-- The transaction: of two releases of one order, one wins the claim.
unfoldable pub release_tx : ℕ → Action Order
release_tx id = transaction (do
  now ← gets (λ w. w.now)
  claimed ←
      claim orders id (λ x. order_is x.status OrderStatus.held)
        (λ x. record x {
          status = OrderStatus.completed;
          confirmed_at = some now;
          escrow_releases_at = none;
        })
  branch claimed (settle_escrow id) (find_or_throw orders id))

unfoldable pub finalize_escrow : (World → World) → ℕ → Action Order
finalize_escrow meanwhile id = do
  result ← release_tx id
  emit (Effect.notify result.seller id)
  credit_if_eligible meanwhile result.buyer
  pure result

unfoldable pub enter_hold : (World → World) → Option ℕ → ℕ → Action Order
enter_hold meanwhile configured id = do
  now ← gets (λ w. w.now)
  claimed ←
      claim orders id (λ x. order_is x.status OrderStatus.delivered)
        (λ x. record x {
          status = OrderStatus.held;
          confirmed_at = some now;
          escrow_releases_at = some (now + hold_days configured * day);
        })
  throw_if (not claimed) Exception.bad_request
  result ← find_or_throw orders id
  emit (Effect.notify result.seller id)
  branch (hold_days configured == 0) (finalize_escrow meanwhile id) (pure result)

unfoldable pub confirm_receipt : (World → World) → Option ℕ → ℕ → ℕ → Action Order
confirm_receipt meanwhile configured id buyer = do
  o ← or_throw (← find_unique orders id) Exception.not_found
  throw_if (not (o.buyer == buyer)) Exception.forbidden
  throw_if
      (not (order_is o.status OrderStatus.shipped) && not (order_is o.status OrderStatus.delivered))
      Exception.bad_request
  interleave meanwhile
  enter_hold meanwhile configured id
