-- ===== src/Disputes.antt =====
-- Disputes (apps/api/src/disputes/disputes.service.ts): `create`, `resolve` and
-- `applyWalletRefundFallback`.
pub mod Fallback
use vintage.Prelude.Dict
use vintage.Prelude.{ℕ, ◌+◌, ◌*◌, Bool, false, Option, none, some, not, ◌==◌, ltb, is_some}
use vintage.World.{World, Dispute, DisputeStatus, Order, OrderStatus, Effect, order_is, dispute_is}
use vintage.World.Action.{
  Action, Exception, ◌>>=◌, ◌>>◌, pure, gets, or_throw, throw_if, when, branch, transaction, emit,
  interleave,
}
use vintage.World.Tables.{
  disputes, orders, find_unique, find_or_throw, claim, update, create, delete_snapshots,
  create_payment_flag, has_dispute, has_return,
}
use vintage.Provider.{Provider}
use vintage.Wallet.{upsert_wallet, release_escrow, reverse_escrow, refund_wallet, has_refund}
use vintage.Orders.{day, dispute_window_days}
use vintage.OrdersCron.{open_dispute, refund_to_source}

-- `new Date() > windowEnd`, where the order has a date of delivery.
abbrev pub window_over : Option ℕ → ℕ → ℕ → Bool
window_over none days now = false
window_over (some delivered) days now = ltb (delivered + days * day) now

-- The guards under the lock on the order, and the two writes.
unfoldable pub open_dispute_tx : ℕ → ℕ → ℕ → Action ℕ
open_dispute_tx id buyer reason = do
  locked ← gets (λ w. is_some (Dict.lookup id w.orders))
  throw_if (not locked) Exception.not_found
  disputed ← gets (has_dispute id)
  throw_if disputed Exception.conflict
  returned ← gets (has_return id)
  throw_if returned Exception.conflict
  o ← or_throw (← find_unique orders id) Exception.bad_request
  throw_if (not (order_is o.status OrderStatus.delivered)) Exception.bad_request
  k ← create disputes (open_dispute id buyer reason)
  update orders id (λ x. record x { status = OrderStatus.disputed })
  pure k

unfoldable pub create_dispute : (World → World) → ℕ → ℕ → ℕ → Action ℕ
create_dispute meanwhile buyer id reason = do
  o ← or_throw (← find_unique orders id) Exception.not_found
  throw_if (not (o.buyer == buyer)) Exception.forbidden
  returned ← gets (has_return id)
  throw_if returned Exception.conflict
  throw_if (not (order_is o.status OrderStatus.delivered)) Exception.bad_request
  over ← gets (λ w. window_over o.delivered_at dispute_window_days w.now)
  throw_if over Exception.bad_request
  disputed ← gets (has_dispute id)
  throw_if disputed Exception.conflict
  interleave meanwhile
  k ← transaction (open_dispute_tx id buyer reason)
  emit (Effect.capture buyer id)
  pure k

-- The buyer wins: the order is refunded and the escrow of the seller reversed.
unfoldable pub settle_for_buyer : ℕ → Order → Action (Unit {0})
settle_for_buyer id o = do
  update orders id (λ x. record x { status = OrderStatus.refunded })
  upsert_wallet o.seller
  reverse_escrow o.seller o.item_price id

-- The seller wins: the order is completed and the escrow released.
unfoldable pub settle_for_seller : ℕ → Order → Action (Unit {0})
settle_for_seller id o = do
  now ← gets (λ w. w.now)
  update orders id (λ x. record x { status = OrderStatus.completed; confirmed_at = some now })
  upsert_wallet o.seller
  release_escrow o.seller o.item_price id

-- `applyWalletRefundFallback`.
unfoldable pub apply_wallet_refund_fallback : ℕ → ℕ → ℕ → Option ℕ → Action (Unit {0})
apply_wallet_refund_fallback buyer order amount payment = transaction (do
  upsert_wallet buyer
  prior ← gets (has_refund buyer order)
  when (not prior)
      (do refund_wallet buyer amount order; when (is_some payment) (create_payment_flag order)))

-- The transaction of `resolve`: `o` is the order as it was read with the dispute.
unfoldable pub resolve_tx : ℕ → ℕ → Bool → ℕ → Order → Action Dispute
resolve_tx id resolution refund order o = do
  claimed ←
      claim disputes id (λ x. dispute_is x.status DisputeStatus.open_status)
        (λ x. record x { status = DisputeStatus.resolved; resolution = some resolution })
  throw_if (not claimed) Exception.conflict
  resolved ← find_or_throw disputes id
  branch refund (settle_for_buyer order o) (settle_for_seller order o)
  delete_snapshots order
  pure resolved

-- After the transaction: the provider gives the money back, or else the wallet is credited.
unfoldable pub refund_buyer : (World → World) → Provider → ℕ → Order → Action (Unit {0})
refund_buyer meanwhile mp order o = do
  refunded ← refund_to_source mp o.payment_id o.total
  interleave meanwhile
  when (not refunded) (apply_wallet_refund_fallback o.buyer order o.total o.payment_id)

unfoldable pub resolve : (World → World) → Provider → ℕ → ℕ → Bool → Action Dispute
resolve meanwhile mp id resolution refund = do
  d ← or_throw (← find_unique disputes id) Exception.not_found
  o ← find_or_throw orders d.order
  throw_if (not (dispute_is d.status DisputeStatus.open_status)) Exception.bad_request
  interleave meanwhile
  resolved ← transaction (resolve_tx id resolution refund d.order o)
  interleave meanwhile
  when refund (refund_buyer meanwhile mp d.order o)
  emit (Effect.audit id)
  pure resolved
