-- ===== src/Payments/Attempts.antt =====
-- The attempts to pay an order, and their writes: `reserveAttempt`, `finalizeAttempt`,
-- `abandonAttempt`, `assertOrderPayable`, `adoptInstrument` and `reconcileBeforeMint` of
-- apps/api/src/payments/payments.service.ts.
use vintage.Prelude.{ℕ, ◌+◌, Bool, Option, none, some, not, ◌==◌, ◌&&◌, ltb, leb, is_some, length}
use vintage.Prelude.Dict.{rows_where}
use vintage.World.{World, OrderStatus, Payment, PaymentMethod, PaymentStatus, order_is, payment_is}
use vintage.World.Action.{
  Action, Exception, ◌>>=◌, ◌>>◌, pure, throw, gets, or_throw, throw_if, with_some, transaction,
}
use vintage.World.Tables.{
  orders, payments, find_unique, find_first, claim, update, update_many, create,
}
use vintage.Payments.Reconcile.{ReconcileOutcome}

-- MAX_PAYMENT_AMOUNT_BRL, in centavos.
abbrev pub max_payment_amount : ℕ
max_payment_amount = 1000000

-- RESERVATION_STALL_MS.
abbrev pub reservation_stall : ℕ
reservation_stall = 300000

abbrev pub is_pending : Payment → Bool
is_pending p = payment_is p.status PaymentStatus.pending

-- `payment.count({ where: { orderId, status: 'PENDING' } })` and `count({ where: { orderId } })`.
abbrev pub in_flight : ℕ → World → ℕ
in_flight order w = length (rows_where (λ id p. p.order == order && is_pending p) w.payments)

abbrev pub attempts : ℕ → World → ℕ
attempts order w = length (rows_where (λ id p. p.order == order) w.payments)

unfoldable pub validate_amount : ℕ → Action (Unit {0})
validate_amount amount = do
  throw_if (amount == 0) Exception.bad_request
  throw_if (ltb max_payment_amount amount) Exception.bad_request

abbrev pub new_attempt : ℕ → ℕ → PaymentMethod → ℕ → ℕ → Payment
new_attempt order number method amount now = record {
  order = order;
  attempt_number = number;
  method = method;
  amount = amount;
  provider_payment_id = none;
  status = PaymentStatus.pending;
  created_at = now;
}

-- `reserveAttempt`; the idempotency key is a digest of the columns that are kept.
unfoldable pub reserve_attempt : ℕ → ℕ → PaymentMethod → Action ℕ
reserve_attempt order user method = transaction (do
  o ← or_throw (← find_unique orders order) Exception.not_found
  throw_if (not (o.buyer == user)) Exception.forbidden
  throw_if (not (order_is o.status OrderStatus.pending)) Exception.bad_request
  throw_if (is_some o.payment_id) Exception.bad_request
  busy ← gets (in_flight order)
  throw_if (ltb 0 busy) Exception.bad_request
  validate_amount o.total
  count ← gets (attempts order)
  now ← gets (λ w. w.now)
  create payments (new_attempt order (count + 1) method o.total now))

-- The writes on a row of a payment.
unfoldable pub bind_provider : ℕ → ℕ → Action (Unit {0})
bind_provider payment provider =
    update payments payment (λ p. record p { provider_payment_id = some provider })

unfoldable pub abandon_attempt : ℕ → Action (Unit {0})
abandon_attempt payment = update payments payment (λ p. record p { status = PaymentStatus.failed })

unfoldable pub fail_pending : ℕ → Action Bool
fail_pending payment =
    claim payments payment is_pending (λ p. record p { status = PaymentStatus.failed })

unfoldable pub fail_where : (Payment → Bool) → Action (Unit {0})
fail_where test =
    update_many payments (λ p. is_pending p && test p)
      (λ p. record p { status = PaymentStatus.failed })

unfoldable pub finalize_attempt : ℕ → ℕ → ℕ → Action (Unit {0})
finalize_attempt payment order provider = transaction (do
  bind_provider payment provider
  update orders order (λ o. record o { payment_id = some provider }))

unfoldable pub assert_order_payable : ℕ → ℕ → Action (Unit {0})
assert_order_payable order user = do
  o ← or_throw (← find_unique orders order) Exception.not_found
  throw_if (not (o.buyer == user)) Exception.forbidden
  throw_if (not (order_is o.status OrderStatus.pending)) Exception.bad_request

unfoldable pub adopt_instrument : ℕ → ℕ → Action (Unit {0})
adopt_instrument order provider = transaction (do
  claim orders order (λ o. not (is_some o.payment_id))
      (λ o. record o { payment_id = some provider })
  stalled ←
      find_first payments
        (λ p. p.order == order && (is_pending p && not (is_some p.provider_payment_id)))
  with_some stalled (λ p. bind_provider p.0 provider))

-- A reservation that never reached the provider and is older than the window.
abbrev pub is_stalled : ℕ → ℕ → Payment → Bool
is_stalled order now p =
    p.order == order
    && (not (is_some p.provider_payment_id) && leb (p.created_at + reservation_stall) now)

abbrev pub stalled_count : ℕ → World → ℕ
stalled_count order w =
    length (rows_where (λ id p. is_pending p && is_stalled order w.now p) w.payments)

-- What is done with the verdict on the stalled reservations.
unfoldable pub follow_outcome : ℕ → ℕ → ReconcileOutcome → Action (Option ℕ)
follow_outcome order now ReconcileOutcome.hold = throw Exception.service_unavailable
follow_outcome order now (ReconcileOutcome.adopt provider) = do
  adopt_instrument order provider
  pure (some provider)
follow_outcome order now ReconcileOutcome.mint = do fail_where (is_stalled order now); pure none
