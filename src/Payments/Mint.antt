-- ===== src/Payments/Mint.antt =====
-- How an instrument is made for an order: `reconcileBeforeMint`, `createPixPayment`,
-- `createCardPayment`, `createBoletoPayment`, `regeneratePixPayment` and `retryPayment` of
-- apps/api/src/payments/payments.service.ts. The result is the provider's id of the instrument.
use vintage.Prelude.{ℕ, Bool, true, false, Option, none, some, [], ◌∷◌, not, ◌==◌, leb, get_or}
use vintage.Prelude.Dict.{Dict}
use vintage.World.{
  World, ListingStatus, Order, OrderStatus, Payment, PaymentMethod, Effect, order_is,
}
use vintage.World.Action.{
  Action, Exception, ◌>>=◌, ◌>>◌, pure, throw, gets, or_throw, throw_if, when, with_some, branch,
  on_option, transaction, emit, interleave,
}
use vintage.World.Tables.{listings, orders, find_unique, claim, update, delete_snapshots}
use vintage.Provider.{Provider}
use vintage.Fraud.{evaluate_payment_attempt, is_block_action}
use vintage.Payments.Reconcile.{ReconcileOutcome, reconcile_order}
use vintage.Payments.Attempts.{
  is_pending, attempts, stalled_count, reserve_attempt, abandon_attempt, fail_pending, fail_where,
  finalize_attempt, assert_order_payable, follow_outcome,
}

-- MAX_PAYMENT_ATTEMPTS of packages/shared/src/constants.ts.
abbrev pub max_payment_attempts : ℕ
max_payment_attempts = 3

unfoldable pub reconcile_before_mint : (World → World) → Provider → ℕ → ℕ → Action (Option ℕ)
reconcile_before_mint meanwhile mp order user = do
  now ← gets (λ w. w.now)
  stalled ← gets (stalled_count order)
  branch (stalled == 0) (pure none) (do
    assert_order_payable order user
    interleave meanwhile
    asked ← gets (λ w. w.now)
    follow_outcome order now (reconcile_order mp asked order))

-- The call of the provider for a reserved attempt.
unfoldable pub mint_instrument : (World → World) → Provider → ℕ → PaymentMethod → ℕ → Action ℕ
mint_instrument meanwhile mp order method payment = do
  emit (Effect.mint payment method)
  interleave meanwhile
  now ← gets (λ w. w.now)
  on_option (mp.minted now payment) (do abandon_attempt payment; throw Exception.provider_error)
      (λ provider. do finalize_attempt payment order provider; pure provider)

unfoldable pub create_payment : (World → World) → Provider → ℕ → ℕ → PaymentMethod → Action ℕ
create_payment meanwhile mp order user method = do
  payment ← reserve_attempt order user method
  mint_instrument meanwhile mp order method payment

unfoldable pub create_pix_payment : (World → World) → Provider → ℕ → ℕ → Action ℕ
create_pix_payment meanwhile mp order user = do
  adopted ← reconcile_before_mint meanwhile mp order user
  interleave meanwhile
  on_option adopted (create_payment meanwhile mp order user PaymentMethod.pix)
      (λ provider. pure provider)

unfoldable pub create_card_payment : (World → World) → Provider → ℕ → ℕ → Action ℕ
create_card_payment meanwhile mp order user =
    create_payment meanwhile mp order user PaymentMethod.credit_card

unfoldable pub create_boleto_payment : (World → World) → Provider → ℕ → ℕ → Action ℕ
create_boleto_payment meanwhile mp order user =
    create_payment meanwhile mp order user PaymentMethod.boleto

-- What `regeneratePixPayment` does with the verdict.
unfoldable pub regenerate_with : (World → World) → Provider → ℕ → ℕ → ReconcileOutcome → Action ℕ
regenerate_with meanwhile mp order user ReconcileOutcome.hold = throw Exception.service_unavailable
regenerate_with meanwhile mp order user (ReconcileOutcome.adopt provider) = pure provider
regenerate_with meanwhile mp order user ReconcileOutcome.mint = do
  transaction (do
    claim orders order (λ o. order_is o.status OrderStatus.pending)
        (λ o. record o { payment_id = none })
    fail_where (λ p. p.order == order))
  interleave meanwhile
  create_pix_payment meanwhile mp order user

unfoldable pub regenerate_pix_payment : (World → World) → Provider → ℕ → ℕ → Action ℕ
regenerate_pix_payment meanwhile mp order user = do
  assert_order_payable order user
  interleave meanwhile
  now ← gets (λ w. w.now)
  regenerate_with meanwhile mp order user (reconcile_order mp now order)

-- The attempt of the order with the highest number.
abbrev later : ℕ × Payment → Option (ℕ × Payment) → Option (ℕ × Payment)
later p none = some p
later p (some q) = elim (leb (q.1).attempt_number (p.1).attempt_number) [
  | true ↦ some p
  | false ↦ some q
]

abbrev pub last_attempt : ℕ → Dict Payment → Option (ℕ × Payment)
last_attempt order [] = none
last_attempt order ((id, p) ∷ d) =
    let rest = last_attempt order d in
    elim (p.order == order) [ true ↦ later (id, p) rest | false ↦ rest ]

-- The order is given up after the last attempt, and its listing is for sale again.
unfoldable pub give_up : ℕ → Order → Action (Unit {0})
give_up order o = transaction (do
  claimed ←
      claim orders order (λ x. order_is x.status OrderStatus.pending)
        (λ x. record x { status = OrderStatus.cancelled; payment_id = none })
  when claimed (do
    update listings o.listing (λ x. record x { status = ListingStatus.active })
    delete_snapshots order))

-- `paymentId: order.paymentId ?? null`.
abbrev same_payment : Option ℕ → Option ℕ → Bool
same_payment none none = true
same_payment (some p) (some q) = p == q
same_payment _ _ = false

unfoldable pub retry_with : (World → World) → Provider → ℕ → ℕ → PaymentMethod → Option ℕ → Action ℕ
retry_with meanwhile mp order user PaymentMethod.pix installments =
    create_pix_payment meanwhile mp order user
retry_with meanwhile mp order user PaymentMethod.credit_card installments = do
  throw_if (get_or installments 0 == 0) Exception.bad_request
  create_card_payment meanwhile mp order user
retry_with meanwhile mp order user _ installments = create_boleto_payment meanwhile mp order user

unfoldable pub retry_payment :
    (World → World) → Provider → ℕ → ℕ → PaymentMethod → Option ℕ → Action ℕ
retry_payment meanwhile mp order user method installments = do
  o ← or_throw (← find_unique orders order) Exception.not_found
  last ← gets (λ w. last_attempt order w.payments)
  throw_if (not (o.buyer == user)) Exception.forbidden
  throw_if (not (order_is o.status OrderStatus.pending)) Exception.bad_request
  interleave meanwhile
  decision ← evaluate_payment_attempt user
  throw_if (is_block_action decision) Exception.forbidden
  interleave meanwhile
  count ← gets (attempts order)
  when (leb max_payment_attempts count) (give_up order o >> throw Exception.bad_request)
  interleave meanwhile
  with_some last (λ p. when (is_pending p.1) (fail_pending p.0 >> pure tt))
  claimed ←
      claim orders order (λ x. same_payment o.payment_id x.payment_id)
        (λ x. record x { payment_id = none })
  throw_if (not claimed) Exception.conflict
  interleave meanwhile
  retry_with meanwhile mp order user method installments
