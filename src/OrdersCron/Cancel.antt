-- ===== src/OrdersCron/Cancel.antt =====
-- `autoCancelUnshippedOrders` and `cancelStalePendingOrders` of
-- apps/api/src/orders/orders-cron.service.ts.
use vintage.Prelude.{
  ℕ, ◌-◌, ◌*◌, Bool, false, Option, some, not, ◌&&◌, ◌||◌, ◌==◌, ltb, is_some, if◌then◌else◌,
}
use vintage.Prelude.Dict.{any_row}
use vintage.World.{
  World, ListingStatus, Order, OrderStatus, PaymentStatus, RefundMethod, Effect, order_is,
  payment_is,
}
use vintage.World.Action.{
  Action, Exception, ◌>>=◌, ◌>>◌, pure, gets, throw_if, when, on_option, swallow, attempt,
  transaction, for_each, emit, interleave,
}
use vintage.World.Tables.{listings, orders, find_many, claim, update, delete_snapshots}
use vintage.CronLock.{acquire}
use vintage.Provider.{Provider, refund_payment}
use vintage.Wallet.{upsert_wallet, reverse_escrow, refund_wallet, wallet_exists}
use vintage.Orders.{day}

abbrev auto_cancel_unshipped_lock : ℕ
auto_cancel_unshipped_lock = 2

abbrev cancel_stale_pending_lock : ℕ
cancel_stale_pending_lock = 3

-- SHIPPING_DEADLINE_DAYS of packages/shared/src/constants.ts.
abbrev shipping_deadline_days : ℕ
shipping_deadline_days = 5

-- The refund to the original payment method, before and outside of the transaction.
unfoldable pub refund_to_source : Provider → Option ℕ → ℕ → Action Bool
refund_to_source mp payment amount =
    on_option payment (pure false) (λ p. attempt (refund_payment mp p amount))

-- The transaction of one cancelled order.
unfoldable pub cancel_unshipped_tx : Bool → ℕ → Order → Action (Unit {0})
cancel_unshipped_tx refunded_to_source id o = do
  claimed ←
      claim orders id (λ x. order_is x.status OrderStatus.paid && not (is_some x.shipped_at))
        (λ x. record x {
          status = OrderStatus.cancelled;
          refund_method = some (
              if refunded_to_source
              then RefundMethod.original_payment
              else RefundMethod.wallet_credit);
        })
  throw_if (not claimed) Exception.race_signal
  seller_wallet ← gets (wallet_exists o.seller)
  when seller_wallet (reverse_escrow o.seller o.item_price id)
  when (not refunded_to_source) (upsert_wallet o.buyer >> refund_wallet o.buyer o.total id)
  update listings o.listing (λ x. record x { status = ListingStatus.active })
  delete_snapshots id

-- One round of the loop.
unfoldable pub cancel_unshipped : (World → World) → Provider → ℕ × Order → Action (Unit {0})
cancel_unshipped meanwhile mp (id, o) = do
  interleave meanwhile
  swallow (do
    refunded_to_source ← refund_to_source mp o.payment_id o.total
    interleave meanwhile
    transaction (cancel_unshipped_tx refunded_to_source id o)
    emit (Effect.sync_search o.listing))

unfoldable pub auto_cancel_unshipped_orders : (World → World) → Provider → Action (Unit {0})
auto_cancel_unshipped_orders meanwhile mp = do
  acquired ← acquire auto_cancel_unshipped_lock
  when acquired (do
    stale ← find_many orders (λ w id o.
        order_is o.status OrderStatus.paid
        && (ltb o.created_at (w.now - shipping_deadline_days * day) && not (is_some o.shipped_at)))
    for_each stale (cancel_unshipped meanwhile mp))

-- PENDING_PAYMENT_TIMEOUT_HOURS, in milliseconds.
abbrev pending_payment_timeout : ℕ
pending_payment_timeout = 24 * 3600000

-- `payments: { none: { status: { in: ['PENDING', 'SUCCEEDED'] } } }`.
abbrev pub has_live_payment : ℕ → World → Bool
has_live_payment order w =
    any_row
      (λ p.
        p.order == order
        && (payment_is p.status PaymentStatus.pending
            || payment_is p.status PaymentStatus.succeeded))
      w.payments

unfoldable pub cancel_stale_pending : (World → World) → ℕ × Order → Action (Unit {0})
cancel_stale_pending meanwhile (id, o) = do
  interleave meanwhile
  swallow (do
    transaction (do
      claimed ←
          claim orders id (λ x. order_is x.status OrderStatus.pending)
            (λ x. record x { status = OrderStatus.cancelled })
      throw_if (not claimed) Exception.race_signal
      update listings o.listing (λ x. record x { status = ListingStatus.active })
      delete_snapshots id)
    emit (Effect.sync_search o.listing))

unfoldable pub cancel_stale_pending_orders : (World → World) → Action (Unit {0})
cancel_stale_pending_orders meanwhile = do
  acquired ← acquire cancel_stale_pending_lock
  when acquired (do
    dead ← find_many orders (λ w id o.
        order_is o.status OrderStatus.pending
        && (ltb o.created_at (w.now - pending_payment_timeout) && not (has_live_payment id w)))
    for_each dead (cancel_stale_pending meanwhile))
