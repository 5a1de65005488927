-- ===== src/Payments.antt =====
-- Settlement of an approved payment (apps/api/src/payments/payments.service.ts):
-- `recordWebhookProcessed`, `handlePaymentUpdated`, `processApprovedPayment`.
pub mod Reconcile
pub mod Attempts
pub mod Mint
pub mod Verdict
pub mod Reserve
pub mod Webhook
pub mod Once
use vintage.Prelude.{ℕ, Bool, false, Option, none, some, List, ◌∷◌, not, ◌==◌, ◌&&◌, any}
use vintage.Prelude.Dict.{map_where}
use vintage.World.{World, Order, OrderStatus, PaymentStatus, Effect, order_is}
use vintage.World.Action.{
  Action, Exception, ◌>>=◌, ◌>>◌, pure, throw, gets, throw_if, when, branch, on_option, modify,
  transaction, catch_signal, for_each, emit, interleave,
}
use vintage.World.Tables.{orders, find_first, claim, create_payment_flag}
use vintage.Wallet.{upsert_wallet, hold_escrow}

-- Whether a column that may be null holds a value.
abbrev pub is_value : Option ℕ → ℕ → Bool
is_value none n = false
is_value (some m) n = m == n

-- `processedWebhook.create` has a unique index on the delivery id.
abbrev pub is_processed : ℕ → World → Bool
is_processed delivery w = any (λ d. d == delivery) w.webhooks

unfoldable pub add_webhook : ℕ → Action (Unit {0})
unfolding modify
add_webhook delivery = modify (λ w. record w { webhooks = delivery ∷ w.webhooks })

unfoldable pub record_webhook_processed : ℕ → Action (Unit {0})
record_webhook_processed delivery = do
  processed ← gets (is_processed delivery)
  when (not processed) (add_webhook delivery)

-- `payment.updateMany`: the attempt of this order at the provider has succeeded.
unfoldable pub mark_succeeded : ℕ → ℕ → Action (Unit {0})
unfolding modify
mark_succeeded order payment = modify (λ w. record w {
  payments =
      map_where (λ p. p.order == order && is_value p.provider_payment_id payment)
        (λ p. record p { status = PaymentStatus.succeeded }) w.payments;
})

-- The outbox transaction.
unfoldable pub open_escrow_tx : ℕ → ℕ → ℕ → Order → Action (Unit {0})
open_escrow_tx delivery payment id o = do
  processed ← gets (is_processed delivery)
  throw_if processed Exception.race_signal
  add_webhook delivery
  flipped ←
      claim orders id (λ x. order_is x.status OrderStatus.pending)
        (λ x. record x { status = OrderStatus.paid })
  throw_if (not flipped) Exception.race_signal
  mark_succeeded id payment
  upsert_wallet o.seller
  hold_escrow o.seller o.item_price id

-- The amount that the provider reports, in centavos, is not the total of the order.
abbrev pub is_mismatch : Option ℕ → ℕ → Bool
is_mismatch none total = false
is_mismatch (some paid) total = not (paid == total)

-- A divergent amount is flagged, the admins are notified, and the delivery is refused.
unfoldable pub refuse_mismatch : List ℕ → ℕ → Action (Unit {0})
refuse_mismatch admins id = do
  create_payment_flag id
  for_each admins (λ a. emit (Effect.notify a id))
  throw Exception.bad_request

unfoldable pub settle_payment : (World → World) → ℕ → ℕ → ℕ → Order → Action (Unit {0})
settle_payment meanwhile delivery payment id o = do
  interleave meanwhile
  catch_signal (transaction (open_escrow_tx delivery payment id o)) (pure tt)
      (λ _. emit (Effect.capture o.buyer id))

-- `amount` is `transaction_amount`; `admins` are the users with the role ADMIN.
unfoldable pub process_approved_payment :
    (World → World) → List ℕ → ℕ → ℕ → Option ℕ → Action (Unit {0})
process_approved_payment meanwhile admins delivery payment amount = do
  found ←
      find_first orders
        (λ o. is_value o.payment_id payment && order_is o.status OrderStatus.pending)
  on_option found (record_webhook_processed delivery) (λ p.
      branch (is_mismatch amount (p.1).total) (refuse_mismatch admins p.0)
        (settle_payment meanwhile delivery payment p.0 p.1))

-- `approved` tells whether the status that was fetched is 'approved'.
unfoldable pub handle_payment_updated :
    (World → World) → List ℕ → ℕ → ℕ → Bool → Option ℕ → Action (Unit {0})
handle_payment_updated meanwhile admins delivery payment approved amount =
    branch approved (process_approved_payment meanwhile admins delivery payment amount)
      (record_webhook_processed delivery)
