-- ===== src/Returns/Request.antt =====
-- `create`, `approve`, `reject`, `markShipped` and `markReceivedByTracking` of
-- apps/api/src/returns/returns.service.ts.
use vintage.Prelude.{ℕ, Bool, Option, none, some, not, ◌==◌, ◌||◌, ltb, is_some, if◌then◌else◌}
use vintage.Prelude.Dict.{lookup}
use vintage.World.{World, OrderReturn, OrderStatus, ReturnStatus, Effect, order_is, return_is}
use vintage.World.Action.{
  Action, Exception, ◌>>=◌, ◌>>◌, pure, gets, or_throw, throw_if, when, with_some, transaction,
  emit, interleave,
}
use vintage.World.Tables.{
  orders, returns, find_unique, find_or_throw, claim, create, has_dispute, has_return,
}
use vintage.Disputes.{window_over}
use vintage.OrdersCron.{escalate_return}

-- RETURN_WINDOW_DAYS of packages/shared/src/constants.ts.
abbrev pub return_window_days : ℕ
return_window_days = 7

-- `getReturnWindowDays`: the configured number is none where it is not finite or negative.
unfoldable pub window_days : Option ℕ → ℕ
window_days none = return_window_days
window_days (some n) = if ltb 0 n then n else return_window_days

-- `['DELIVERED', 'HELD', 'COMPLETED'].includes(status)`.
abbrev pub is_returnable : OrderStatus → Bool
is_returnable s =
    order_is s OrderStatus.delivered
    || (order_is s OrderStatus.held || order_is s OrderStatus.completed)

abbrev pub new_return : ℕ → ℕ → ℕ → OrderReturn
new_return order buyer reason = record {
  order = order;
  requested_by = buyer;
  status = ReturnStatus.requested;
  reason = reason;
  carrier = none;
  tracking_code = none;
  rejection_reason = none;
  shipped_at = none;
  received_at = none;
  inspected_at = none;
}

-- The guards under the lock on the order, and the write.
unfoldable pub open_return_tx : ℕ → ℕ → ℕ → Action ℕ
open_return_tx id buyer reason = do
  locked ← gets (λ w. is_some (lookup id w.orders))
  throw_if (not locked) Exception.not_found
  taken ← gets (λ w. has_return id w || has_dispute id w)
  throw_if taken Exception.conflict
  create returns (new_return id buyer reason)

unfoldable pub create_return : (World → World) → Option ℕ → ℕ → ℕ → ℕ → Action ℕ
create_return meanwhile configured buyer id reason = do
  o ← or_throw (← find_unique orders id) Exception.not_found
  throw_if (not (o.buyer == buyer)) Exception.forbidden
  returned ← gets (has_return id)
  throw_if returned Exception.conflict
  disputed ← gets (has_dispute id)
  throw_if disputed Exception.conflict
  throw_if (not (is_returnable o.status)) Exception.bad_request
  throw_if (not (is_some o.delivered_at)) Exception.bad_request
  over ← gets (λ w. window_over o.delivered_at (window_days configured) w.now)
  throw_if over Exception.bad_request
  interleave meanwhile
  k ← transaction (open_return_tx id buyer reason)
  emit (Effect.notify o.seller id)
  pure k

-- `label` is the tracking code that the carrier gave with the label, or none where no label came.
unfoldable pub approve_return : (World → World) → ℕ → Option ℕ → ℕ → ℕ → Action OrderReturn
approve_return meanwhile carrier label id seller = do
  r ← or_throw (← find_unique returns id) Exception.not_found
  o ← find_or_throw orders r.order
  throw_if (not (o.seller == seller)) Exception.forbidden
  throw_if (not (return_is r.status ReturnStatus.requested)) Exception.bad_request
  interleave meanwhile
  claimed ←
      claim returns id (λ x. return_is x.status ReturnStatus.requested)
        (λ x. record x {
          status = ReturnStatus.approved;
          carrier = some carrier;
          tracking_code = label;
        })
  throw_if (not claimed) Exception.conflict
  updated ← find_or_throw returns id
  emit (Effect.notify o.buyer id)
  pure updated

unfoldable pub reject_return : (World → World) → ℕ → ℕ → ℕ → Action OrderReturn
reject_return meanwhile id seller reason = do
  r ← or_throw (← find_unique returns id) Exception.not_found
  o ← find_or_throw orders r.order
  throw_if (not (o.seller == seller)) Exception.forbidden
  throw_if (not (return_is r.status ReturnStatus.requested)) Exception.bad_request
  interleave meanwhile
  updated ← transaction (do
    claimed ←
        claim returns id (λ x. return_is x.status ReturnStatus.requested)
          (λ x. record x { status = ReturnStatus.rejected; rejection_reason = some reason })
    throw_if (not claimed) Exception.conflict
    u ← find_or_throw returns id
    escalate_return r
    pure u)
  emit (Effect.notify o.buyer id)
  pure updated

unfoldable pub mark_return_shipped : (World → World) → ℕ → ℕ → Action OrderReturn
mark_return_shipped meanwhile id buyer = do
  r ← or_throw (← find_unique returns id) Exception.not_found
  o ← find_or_throw orders r.order
  throw_if (not (o.buyer == buyer)) Exception.forbidden
  throw_if (not (return_is r.status ReturnStatus.approved)) Exception.bad_request
  interleave meanwhile
  now ← gets (λ w. w.now)
  claimed ←
      claim returns id (λ x. return_is x.status ReturnStatus.approved)
        (λ x. record x { status = ReturnStatus.shipped; shipped_at = some now })
  throw_if (not claimed) Exception.conflict
  find_or_throw returns id

unfoldable pub mark_received_by_tracking : (World → World) → ℕ → Action (Unit {0})
mark_received_by_tracking meanwhile id = do
  found ← find_unique returns id
  with_some found (λ r. when (return_is r.status ReturnStatus.shipped) (do
    o ← find_or_throw orders r.order
    interleave meanwhile
    now ← gets (λ w. w.now)
    claimed ←
        claim returns id (λ x. return_is x.status ReturnStatus.shipped)
          (λ x. record x { status = ReturnStatus.received; received_at = some now })
    when claimed (emit (Effect.notify o.seller id))))
