-- ===== src/System/Minting.antt =====
-- Invariants of the requests that make or settle a payment.
use vintage.Prelude.{ℕ, Bool, true, false, Option, none, some, List}
use vintage.World.{World, Order, Payment, PaymentMethod}
use vintage.World.Keeps.{Keeps}
use vintage.System.Invariant.{Invariant, basic_rules, invariant_rules}
use vintage.System.Transactions.{transaction_rules}
use vintage.Provider.{Provider}
use vintage.Payments.{settle_payment, process_approved_payment, handle_payment_updated}
use vintage.Payments.Reconcile.{ReconcileOutcome}
use vintage.Payments.Attempts.{
  finalize_attempt, assert_order_payable, adopt_instrument, follow_outcome,
}
use vintage.Payments.Mint.{
  reconcile_before_mint, mint_instrument, create_payment, create_pix_payment, create_card_payment,
  create_boleto_payment, regenerate_with, regenerate_pix_payment, give_up, retry_with,
  retry_payment,
}
use vintage.Payments.Webhook.{
  Delivery, fetch_and_handle, route_delivery, handle_webhook, reconcile_payment, reconcile_one,
  reconcile_pending_payments,
}

module _ {P : World → Type 0} (inv : Invariant P) (meanwhile : World → World)
    (rely : (w : World) → P w → P (meanwhile w)) where
  ruleset rules = (basic_rules, transaction_rules, invariant_rules)

  settle_payment-Keeps : (d p id : ℕ) (o : Order) → Keeps P (settle_payment meanwhile d p id o)
  unfolding settle_payment
  settle_payment-Keeps d p id o = search rules depth 40

  process_approved_payment-Keeps :
      (admins : List ℕ) (d p : ℕ) (n : Option ℕ)
      → Keeps P (process_approved_payment meanwhile admins d p n)
  unfolding process_approved_payment
  process_approved_payment-Keeps admins d p n = search (rules, settle_payment-Keeps) depth 40

  handle_payment_updated-Keeps :
      (admins : List ℕ) (d p : ℕ) (b : Bool) (n : Option ℕ)
      → Keeps P (handle_payment_updated meanwhile admins d p b n)
  unfolding handle_payment_updated
  handle_payment_updated-Keeps admins d p b n =
      search (rules, process_approved_payment-Keeps) depth 40

  fetch_and_handle-Keeps :
      (mp : Provider) (admins : List ℕ) (d p : ℕ)
      → Keeps P (fetch_and_handle meanwhile mp admins d p)
  unfolding fetch_and_handle
  fetch_and_handle-Keeps mp admins d p = search (rules, handle_payment_updated-Keeps) depth 40

  route_delivery-Keeps :
      (mp : Provider) (admins : List ℕ) (d : ℕ) (b : Bool) (p : Option ℕ)
      → Keeps P (route_delivery meanwhile mp admins d b p)
  unfolding route_delivery
  route_delivery-Keeps mp admins d true (some p) = search (rules, fetch_and_handle-Keeps)
  route_delivery-Keeps mp admins d true none = search rules
  route_delivery-Keeps mp admins d false p = search rules

  pub handle_webhook-Keeps :
      (mp : Provider) (admins : List ℕ) (d : Delivery)
      → Keeps P (handle_webhook meanwhile mp admins d)
  unfolding handle_webhook
  handle_webhook-Keeps mp admins d = search (rules, route_delivery-Keeps) depth 40

  reconcile_payment-Keeps :
      (mp : Provider) (admins : List ℕ) (p : ℕ) → Keeps P (reconcile_payment meanwhile mp admins p)
  unfolding reconcile_payment
  reconcile_payment-Keeps mp admins p = search (rules, process_approved_payment-Keeps) depth 40

  reconcile_one-Keeps :
      (mp : Provider) (admins : List ℕ) (p : ℕ × Payment)
      → Keeps P (reconcile_one meanwhile mp admins p)
  unfolding reconcile_one
  reconcile_one-Keeps mp admins p = search (rules, reconcile_payment-Keeps) depth 40

  pub reconcile_pending_payments-Keeps :
      (mp : Provider) (admins : List ℕ) → Keeps P (reconcile_pending_payments meanwhile mp admins)
  unfolding reconcile_pending_payments
  reconcile_pending_payments-Keeps mp admins = search (rules, reconcile_one-Keeps) depth 40

  finalize_attempt-Keeps : (p o q : ℕ) → Keeps P (finalize_attempt p o q)
  unfolding finalize_attempt
  finalize_attempt-Keeps p o q = search rules depth 40

  assert_order_payable-Keeps : (o u : ℕ) → Keeps P (assert_order_payable o u)
  unfolding assert_order_payable
  assert_order_payable-Keeps o u = search rules depth 40

  adopt_instrument-Keeps : (o p : ℕ) → Keeps P (adopt_instrument o p)
  unfolding adopt_instrument
  adopt_instrument-Keeps o p = search rules depth 40

  follow_outcome-Keeps : (o now : ℕ) (r : ReconcileOutcome) → Keeps P (follow_outcome o now r)
  unfolding follow_outcome
  follow_outcome-Keeps o now (ReconcileOutcome.adopt p) = search (rules, adopt_instrument-Keeps)
  follow_outcome-Keeps o now ReconcileOutcome.mint = search rules
  follow_outcome-Keeps o now ReconcileOutcome.hold = search rules

  reconcile_before_mint-Keeps :
      (mp : Provider) (o u : ℕ) → Keeps P (reconcile_before_mint meanwhile mp o u)
  unfolding reconcile_before_mint
  reconcile_before_mint-Keeps mp o u =
      search (rules, assert_order_payable-Keeps, follow_outcome-Keeps) depth 40

  mint_instrument-Keeps :
      (mp : Provider) (o : ℕ) (m : PaymentMethod) (p : ℕ)
      → Keeps P (mint_instrument meanwhile mp o m p)
  unfolding mint_instrument
  mint_instrument-Keeps mp o m p = search (rules, finalize_attempt-Keeps) depth 40

  create_payment-Keeps :
      (mp : Provider) (o u : ℕ) (m : PaymentMethod) → Keeps P (create_payment meanwhile mp o u m)
  unfolding create_payment
  create_payment-Keeps mp o u m = search (rules, mint_instrument-Keeps) depth 40

  pub create_pix_payment-Keeps :
      (mp : Provider) (o u : ℕ) → Keeps P (create_pix_payment meanwhile mp o u)
  unfolding create_pix_payment
  create_pix_payment-Keeps mp o u =
      search (rules, reconcile_before_mint-Keeps, create_payment-Keeps) depth 40

  pub create_card_payment-Keeps :
      (mp : Provider) (o u : ℕ) → Keeps P (create_card_payment meanwhile mp o u)
  unfolding create_card_payment
  create_card_payment-Keeps mp o u = create_payment-Keeps mp o u _

  pub create_boleto_payment-Keeps :
      (mp : Provider) (o u : ℕ) → Keeps P (create_boleto_payment meanwhile mp o u)
  unfolding create_boleto_payment
  create_boleto_payment-Keeps mp o u = create_payment-Keeps mp o u _

  regenerate_with-Keeps :
      (mp : Provider) (o u : ℕ) (r : ReconcileOutcome)
      → Keeps P (regenerate_with meanwhile mp o u r)
  unfolding regenerate_with
  regenerate_with-Keeps mp o u ReconcileOutcome.mint =
      search (rules, create_pix_payment-Keeps) depth 40
  regenerate_with-Keeps mp o u ReconcileOutcome.hold = search rules
  regenerate_with-Keeps mp o u (ReconcileOutcome.adopt p) = search rules

  pub regenerate_pix_payment-Keeps :
      (mp : Provider) (o u : ℕ) → Keeps P (regenerate_pix_payment meanwhile mp o u)
  unfolding regenerate_pix_payment
  regenerate_pix_payment-Keeps mp o u =
      search (rules, assert_order_payable-Keeps, regenerate_with-Keeps) depth 40

  give_up-Keeps : (id : ℕ) (o : Order) → Keeps P (give_up id o)
  unfolding give_up
  give_up-Keeps id o = search rules depth 40

  retry_with-Keeps :
      (mp : Provider) (o u : ℕ) (m : PaymentMethod) (i : Option ℕ)
      → Keeps P (retry_with meanwhile mp o u m i)
  unfolding retry_with
  retry_with-Keeps mp o u PaymentMethod.pix i = create_pix_payment-Keeps mp o u
  retry_with-Keeps mp o u PaymentMethod.credit_card i =
      search (rules, create_card_payment-Keeps) depth 20
  retry_with-Keeps mp o u PaymentMethod.boleto i = create_boleto_payment-Keeps mp o u
  retry_with-Keeps mp o u PaymentMethod.free i = create_boleto_payment-Keeps mp o u

  pub retry_payment-Keeps :
      (mp : Provider) (o u : ℕ) (m : PaymentMethod) (i : Option ℕ)
      → Keeps P (retry_payment meanwhile mp o u m i)
  unfolding retry_payment
  retry_payment-Keeps mp o u m i = search (rules, give_up-Keeps, retry_with-Keeps) depth 40

pub ruleset minting_rules = (
  handle_webhook-Keeps, reconcile_pending_payments-Keeps, create_pix_payment-Keeps,
  create_card_payment-Keeps, create_boleto_payment-Keeps, regenerate_pix_payment-Keeps,
  retry_payment-Keeps,
)
