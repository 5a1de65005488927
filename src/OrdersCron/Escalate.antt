-- ===== src/OrdersCron/Escalate.antt =====
-- `escalateStaleReturns` and `escalateStuckShipments` of
-- apps/api/src/orders/orders-cron.service.ts.
use vintage.Prelude.{ℕ, ◌-◌, ◌*◌, not, ◌&&◌, ◌==◌, none, is_some}
use vintage.World.{
  World, Dispute, DisputeStatus, Order, OrderReturn, OrderStatus, ReturnStatus, order_is, return_is,
}
use vintage.World.Action.{
  Action, ◌>>=◌, ◌>>◌, pure, when, swallow, transaction, for_each, interleave,
}
use vintage.World.Tables.{
  disputes, orders, returns, find_first, find_many, claim, update, create, has_dispute,
}
use vintage.CronLock.{acquire}
use vintage.Orders.{day}
use vintage.OrdersCron.Confirm.{before}

abbrev escalate_stale_lock : ℕ
escalate_stale_lock = 4

abbrev escalate_stuck_lock : ℕ
escalate_stuck_lock = 5

-- RETURN_INSPECTION_DAYS of packages/shared/src/constants.ts.
abbrev return_inspection_days : ℕ
return_inspection_days = 3

-- `reason: 'NOT_RECEIVED'`.
abbrev pub not_received : ℕ
not_received = 0

abbrev pub open_dispute : ℕ → ℕ → ℕ → Dispute
open_dispute order opened_by reason = record {
  order = order;
  opened_by = opened_by;
  reason = reason;
  status = DisputeStatus.open_status;
  resolution = none;
}

-- `findUnique({ where: { orderId } })`, and the dispute with the flip of the order where there is
-- none. returns.service.ts (`reject`, `inspectReject`) writes the same calls.
unfoldable pub escalate_return : OrderReturn → Action (Unit {0})
escalate_return r = do
  existing ← find_first disputes (λ d. d.order == r.order)
  when (not (is_some existing)) (do
    create disputes (open_dispute r.order r.requested_by r.reason)
    update orders r.order (λ o. record o { status = OrderStatus.disputed }))

unfoldable pub escalate_stale : (World → World) → ℕ × OrderReturn → Action (Unit {0})
escalate_stale meanwhile (id, r) = do
  interleave meanwhile
  swallow (
      transaction (do
        claimed ←
            claim returns id (λ x. return_is x.status ReturnStatus.received)
              (λ x. record x { status = ReturnStatus.disputed })
        when claimed (escalate_return r)))

unfoldable pub escalate_stale_returns : (World → World) → Action (Unit {0})
escalate_stale_returns meanwhile = do
  acquired ← acquire escalate_stale_lock
  when acquired (do
    stale ← find_many returns (λ w id r.
        return_is r.status ReturnStatus.received
        && before r.received_at (w.now - return_inspection_days * day))
    for_each stale (escalate_stale meanwhile))

unfoldable pub escalate_shipment : (World → World) → ℕ × Order → Action (Unit {0})
escalate_shipment meanwhile (id, o) = do
  interleave meanwhile
  swallow (
      transaction (do
        claimed ←
            claim orders id (λ x. order_is x.status OrderStatus.shipped)
              (λ x. record x { status = OrderStatus.disputed })
        when claimed (do
          existing ← find_first disputes (λ d. d.order == id)
          when (not (is_some existing))
              (do create disputes (open_dispute id o.buyer not_received); pure tt))))

-- SHIPPED_STUCK_ESCALATION_DAYS is the parameter `stuck_days`.
unfoldable pub escalate_stuck_shipments : (World → World) → ℕ → Action (Unit {0})
escalate_stuck_shipments meanwhile stuck_days = do
  acquired ← acquire escalate_stuck_lock
  when acquired (do
    stuck ← find_many orders (λ w id o.
        order_is o.status OrderStatus.shipped
        && (before o.shipped_at (w.now - stuck_days * day) && not (has_dispute id w)))
    for_each stuck (escalate_shipment meanwhile))
