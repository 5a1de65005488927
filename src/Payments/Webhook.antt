-- ===== src/Payments/Webhook.antt =====
-- The deliveries of the payment provider and the poller for lost ones: `handleWebhook` and
-- `reconcilePayment` of apps/api/src/payments/payments.service.ts, and
-- apps/api/src/payments/payments-reconciliation.cron.ts.
use vintage.Prelude.{
  ℕ, ◌+◌, ◌*◌, Bool, true, false, Option, some, List, not, ◌&&◌, ltb, is_some, take,
}
use vintage.World.{World, Payment}
use vintage.World.Action.{
  Action, Exception, ◌>>=◌, ◌>>◌, pure, gets, or_throw, throw_if, when, with_some, branch, swallow,
  for_each, interleave,
}
use vintage.World.Tables.{payments, find_many}
use vintage.CronLock.{acquire}
use vintage.Provider.{Provider, ProviderStatus}
use vintage.Payments.{
  is_processed, record_webhook_processed, process_approved_payment, handle_payment_updated,
}
use vintage.Payments.Reconcile.{is_success, is_failure}
use vintage.Payments.Attempts.{is_pending, fail_pending}

-- A delivery as the handler sees it: whether its signature is there and verifies against the raw
-- body, whether the payload has an action and data, `payload.id ?? data.id`, and `data.id`.
pub record Delivery : Type 0 where
  pub has_signature : Bool
  pub has_body : Bool
  pub is_verified : Bool
  pub is_well_formed : Bool
  pub id : Option ℕ
  pub is_payment_updated : Bool
  pub payment : Option ℕ

-- Delivery ids are texts: those of the provider, and `poller:<payment id>`.
abbrev pub webhook_delivery : ℕ → ℕ
webhook_delivery id = 2 * id

abbrev pub poller_delivery : ℕ → ℕ
poller_delivery payment = 2 * payment + 1

-- `handlePaymentUpdated` with the status that it fetches.
unfoldable pub fetch_and_handle : (World → World) → Provider → List ℕ → ℕ → ℕ → Action (Unit {0})
fetch_and_handle meanwhile mp admins delivery payment = do
  interleave meanwhile
  now ← gets (λ w. w.now)
  status ← or_throw (mp.payment_status now payment) Exception.provider_error
  handle_payment_updated meanwhile admins delivery payment (is_success status.0) status.1

-- The routes on the action.
unfoldable pub route_delivery :
    (World → World) → Provider → List ℕ → ℕ → Bool → Option ℕ → Action (Unit {0})
route_delivery meanwhile mp admins delivery true (some payment) =
    fetch_and_handle meanwhile mp admins delivery payment
route_delivery meanwhile mp admins delivery _ _ = record_webhook_processed delivery

-- The result is `duplicate`.
unfoldable pub handle_webhook : (World → World) → Provider → List ℕ → Delivery → Action Bool
handle_webhook meanwhile mp admins d = do
  throw_if (not d.has_signature) Exception.unauthorized
  throw_if (not d.has_body) Exception.unauthorized
  throw_if (not d.is_verified) Exception.unauthorized
  throw_if (not d.is_well_formed) Exception.bad_request
  id ← or_throw d.id Exception.bad_request
  already ← gets (is_processed (webhook_delivery id))
  branch already (pure true) (do
    route_delivery meanwhile mp admins (webhook_delivery id) d.is_payment_updated d.payment
    pure false)

pub data Disposition : Type 0 where
  approved failed pending : Disposition

-- TERMINAL_FAILURE_STATUSES has the members of MP_FAILURE_TERMINAL.
abbrev unsettled : ProviderStatus → Disposition
unsettled s = elim (is_failure s) [ true ↦ Disposition.failed | false ↦ Disposition.pending ]

unfoldable pub reconcile_payment : (World → World) → Provider → List ℕ → ℕ → Action Disposition
reconcile_payment meanwhile mp admins payment = do
  interleave meanwhile
  now ← gets (λ w. w.now)
  status ← or_throw (mp.payment_status now payment) Exception.provider_error
  branch (is_success status.0)
      (do
        process_approved_payment meanwhile admins (poller_delivery payment) payment status.1
        pure Disposition.approved)
      (pure (unsettled status.0))

abbrev is_failed : Disposition → Bool
is_failed Disposition.failed = true
is_failed _ = false

-- RECONCILE_MIN_AGE_MS and BATCH.
abbrev pub reconcile_min_age : ℕ
reconcile_min_age = 900000

abbrev pub batch : ℕ
batch = 200

abbrev reconcile_lock : ℕ
reconcile_lock = 6

-- One round of the loop.
unfoldable pub reconcile_one : (World → World) → Provider → List ℕ → ℕ × Payment → Action (Unit {0})
reconcile_one meanwhile mp admins (id, p) = with_some p.provider_payment_id (λ provider. swallow (do
  outcome ← reconcile_payment meanwhile mp admins provider
  interleave meanwhile
  when (is_failed outcome) (fail_pending id >> pure tt)))

unfoldable pub reconcile_pending_payments : (World → World) → Provider → List ℕ → Action (Unit {0})
reconcile_pending_payments meanwhile mp admins = do
  acquired ← acquire reconcile_lock
  when acquired (do
    stale ← find_many payments (λ w id p.
        is_pending p
        && (is_some p.provider_payment_id && ltb (p.created_at + reconcile_min_age) w.now))
    for_each (take batch stale) (reconcile_one meanwhile mp admins))
