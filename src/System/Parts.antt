-- ===== src/System/Parts.antt =====
-- Invariants of the parts of the handlers that no other request interrupts.
use vintage.Prelude.{ℕ, Option}
use vintage.World.{World, PayoutRequest, PayoutStatus}
use vintage.World.Keeps.{Keeps, keeps_rules}
use vintage.System.Invariant.{Writes, basic_rules}
use vintage.Provider.{Provider, refund_payment}
use vintage.Fraud.{
  get_rule, evaluate_purchase, evaluate_payout, evaluate_payment_attempt, evaluate_listing_creation,
}
use vintage.Orders.{reactivate_listing, settle_escrow}
use vintage.Payouts.{
  get_owned_or_throw, debit_tx, check_payout, fail_and_refund, record_sent,
  refund_wallet_for_failed_payout,
}

module _ {P : World → Type 0} (inv : Writes P) where
  pub get_rule-Keeps : (c : ℕ) → Keeps P (get_rule c)
  unfolding get_rule
  get_rule-Keeps c = search keeps_rules

  pub evaluate_purchase-Keeps : (u : ℕ) → Keeps P (evaluate_purchase u)
  unfolding evaluate_purchase
  evaluate_purchase-Keeps u = search (basic_rules, get_rule-Keeps) depth 20

  pub evaluate_payout-Keeps : (u m : ℕ) → Keeps P (evaluate_payout u m)
  unfolding evaluate_payout
  evaluate_payout-Keeps u m = search (basic_rules, get_rule-Keeps) depth 20

  pub evaluate_payment_attempt-Keeps : (u : ℕ) → Keeps P (evaluate_payment_attempt u)
  unfolding evaluate_payment_attempt
  evaluate_payment_attempt-Keeps u = search (basic_rules, get_rule-Keeps) depth 20

  pub evaluate_listing_creation-Keeps : (u : ℕ) → Keeps P (evaluate_listing_creation u)
  unfolding evaluate_listing_creation
  evaluate_listing_creation-Keeps u = search (basic_rules, get_rule-Keeps) depth 20

  pub refund_payment-Keeps : (mp : Provider) (p n : ℕ) → Keeps P (refund_payment mp p n)
  unfolding refund_payment
  refund_payment-Keeps mp p n = search basic_rules depth 20

  pub reactivate_listing-Keeps : (id : ℕ) → Keeps P (reactivate_listing id)
  unfolding reactivate_listing
  reactivate_listing-Keeps id = search basic_rules depth 20

  pub settle_escrow-Keeps : (id : ℕ) → Keeps P (settle_escrow id)
  unfolding settle_escrow
  settle_escrow-Keeps id = search basic_rules depth 20

  pub get_owned_or_throw-Keeps : (u m : ℕ) → Keeps P (get_owned_or_throw u m)
  unfolding get_owned_or_throw
  get_owned_or_throw-Keeps u m = search basic_rules depth 20

  pub debit_tx-Keeps : (u n m : ℕ) → Keeps P (debit_tx u n m)
  unfolding debit_tx
  debit_tx-Keeps u n m = search basic_rules depth 20

  pub check_payout-Keeps : (u n m : ℕ) → Keeps P (check_payout u n m)
  unfolding check_payout
  check_payout-Keeps u n m =
      search (basic_rules, get_owned_or_throw-Keeps, evaluate_payout-Keeps) depth 40

  pub fail_and_refund-Keeps : (id u n : ℕ) → Keeps P (fail_and_refund id u n)
  unfolding fail_and_refund
  fail_and_refund-Keeps id u n = search basic_rules depth 20

  pub record_sent-Keeps :
      (id : ℕ) (s : PayoutStatus) (t : Option ℕ) (e : ℕ) → Keeps P (record_sent id s t e)
  unfolding record_sent
  record_sent-Keeps id s t e = search basic_rules depth 20

  pub refund_wallet_for_failed_payout-Keeps :
      (id : ℕ) (p : PayoutRequest) → Keeps P (refund_wallet_for_failed_payout id p)
  unfolding refund_wallet_for_failed_payout
  refund_wallet_for_failed_payout-Keeps id p = search basic_rules depth 20

pub ruleset part_rules = (
  evaluate_purchase-Keeps, evaluate_payment_attempt-Keeps, evaluate_listing_creation-Keeps,
  refund_payment-Keeps, reactivate_listing-Keeps, settle_escrow-Keeps, debit_tx-Keeps,
  check_payout-Keeps, fail_and_refund-Keeps, record_sent-Keeps,
  refund_wallet_for_failed_payout-Keeps,
)
