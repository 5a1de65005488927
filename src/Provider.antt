-- ===== src/Provider.antt =====
-- The payment provider (apps/api/src/payments/mercadopago.client.ts): what it answers is a
-- parameter; what it does is recorded in the outbox.
use vintage.Prelude.{ℕ, Bool, Option, List, not}
use vintage.World.{Effect}
use vintage.World.Action.{Action, Exception, ◌>>◌, throw_if, emit}

-- What Mercado Pago answers to a PIX payout: `MercadoPagoPayoutUnavailableError`, any other error,
-- or an id with the status PROCESSING or COMPLETED.
pub data PayoutAnswer : Type 0 where
  unavailable : PayoutAnswer
  failure : PayoutAnswer
  processing : ℕ → PayoutAnswer
  completed : ℕ → PayoutAnswer

-- The status of an instrument in the Payments API.
pub data ProviderStatus : Type 0 where
  pending in_process authorized in_mediation approved rejected cancelled refunded charged_back :
      ProviderStatus
  unknown : ProviderStatus

-- `getPaymentDetail`: it throws, it returns null, or it returns a status and an amount.
pub data DetailAnswer : Type 0 where
  unreadable missing : DetailAnswer
  detail : ProviderStatus → Option ℕ → DetailAnswer

-- `payment_status` is `getPaymentStatus`, with `transaction_amount` in centavos; none is a call that
-- throws. The first argument of an answer about instruments is the time of the question.
pub record Provider : Type 0 where
  pub refund_accepted : ℕ → ℕ → Bool
  pub payout_answer : ℕ → PayoutAnswer
  pub search_payments : ℕ → ℕ → Option (List ℕ)
  pub payment_detail : ℕ → ℕ → DetailAnswer
  pub payment_status : ℕ → ℕ → Option (ProviderStatus × Option ℕ)
  pub minted : ℕ → ℕ → Option ℕ

-- `PaymentsService.refundPayment`, which hands on to `MercadoPagoClient.refundPayment`: it throws,
-- or the provider gives the money back to the original payment method.
unfoldable pub refund_payment : Provider → ℕ → ℕ → Action (Unit {0})
refund_payment mp payment amount =
    throw_if (not (mp.refund_accepted payment amount)) Exception.database_error
    >> emit (Effect.provider_refund payment amount)
