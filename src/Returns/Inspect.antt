-- ===== src/Returns/Inspect.antt =====
-- `inspectApprove` and `inspectReject` of apps/api/src/returns/returns.service.ts.
use vintage.Prelude.{ℕ, none, some, not, ◌==◌}
use vintage.World.{World, Order, OrderReturn, OrderStatus, ReturnStatus, Effect, return_is}
use vintage.World.Action.{
  Action, Exception, ◌>>=◌, ◌>>◌, pure, gets, or_throw, throw_if, with_some, swallow, transaction,
  emit, interleave,
}
use vintage.World.Tables.{
  orders, returns, find_unique, find_or_throw, claim, update, delete_snapshots,
}
use vintage.Provider.{Provider, refund_payment}
use vintage.Wallet.{upsert_wallet, reverse_escrow, refund_wallet, has_refund}
use vintage.OrdersCron.{escalate_return}

-- The transaction of `inspectApprove`: `o` is the order as it was read with the return.
unfoldable pub refund_return_tx : ℕ → ℕ → Order → Action (Unit {0})
refund_return_tx id order o = do
  now ← gets (λ w. w.now)
  claimed ←
      claim returns id (λ x. return_is x.status ReturnStatus.received)
        (λ x. record x { status = ReturnStatus.refunded; inspected_at = some now })
  throw_if (not claimed) Exception.conflict
  update orders order (λ x. record x { status = OrderStatus.refunded; escrow_releases_at = none })
  upsert_wallet o.seller
  reverse_escrow o.seller o.item_price order
  upsert_wallet o.buyer
  prior ← gets (has_refund o.buyer order)
  throw_if prior Exception.conflict
  refund_wallet o.buyer o.total order
  delete_snapshots order

unfoldable pub inspect_approve : (World → World) → Provider → ℕ → ℕ → Action OrderReturn
inspect_approve meanwhile mp id seller = do
  r ← or_throw (← find_unique returns id) Exception.not_found
  o ← find_or_throw orders r.order
  throw_if (not (o.seller == seller)) Exception.forbidden
  throw_if (not (return_is r.status ReturnStatus.received)) Exception.bad_request
  interleave meanwhile
  transaction (refund_return_tx id r.order o)
  with_some o.payment_id (λ p. swallow (refund_payment mp p o.total))
  emit (Effect.audit id)
  emit (Effect.notify o.buyer id)
  find_or_throw returns id

unfoldable pub inspect_reject : (World → World) → ℕ → ℕ → ℕ → Action OrderReturn
inspect_reject meanwhile id seller reason = do
  r ← or_throw (← find_unique returns id) Exception.not_found
  o ← find_or_throw orders r.order
  throw_if (not (o.seller == seller)) Exception.forbidden
  throw_if (not (return_is r.status ReturnStatus.received)) Exception.bad_request
  interleave meanwhile
  now ← gets (λ w. w.now)
  updated ← transaction (do
    claimed ←
        claim returns id (λ x. return_is x.status ReturnStatus.received)
          (λ x. record x {
            status = ReturnStatus.disputed;
            rejection_reason = some reason;
            inspected_at = some now;
          })
    throw_if (not claimed) Exception.conflict
    u ← find_or_throw returns id
    escalate_return r
    pure u)
  emit (Effect.notify o.buyer id)
  pure updated
