-- ===== src/System/Transactions.antt =====
-- Invariants of the transactions.
use vintage.Prelude.{ℕ, Bool, Option, List}
use vintage.World.{World, Order, OrderReturn}
use vintage.World.Action.{Exception, interleave}
use vintage.World.Keeps.{Keeps}
use vintage.System.Invariant.{Writes, basic_rules}
use vintage.System.Parts.{part_rules}
use vintage.Provider.{Provider}
use vintage.Referrals.{credit_reward}
use vintage.OrdersCron.{refund_to_source, cancel_unshipped_tx, escalate_return}
use vintage.Disputes.{
  open_dispute_tx, settle_for_buyer, settle_for_seller, apply_wallet_refund_fallback, resolve_tx,
}
use vintage.Returns.{open_return_tx, refund_return_tx}
use vintage.Payments.{record_webhook_processed, open_escrow_tx, refuse_mismatch}
use vintage.Checkout.Place.{validate_coupon, validate_optional, recheck_coupon, existing_order}

module _ {P : World → Type 0} (inv : Writes P) where
  pub credit_reward-Keeps : (r u : ℕ) → Keeps P (credit_reward r u)
  unfolding credit_reward
  credit_reward-Keeps r u = search (basic_rules, part_rules) depth 40

  pub refund_to_source-Keeps :
      (mp : Provider) (p : Option ℕ) (n : ℕ) → Keeps P (refund_to_source mp p n)
  unfolding refund_to_source
  refund_to_source-Keeps mp p n = search (basic_rules, part_rules) depth 40

  pub cancel_unshipped_tx-Keeps :
      (b : Bool) (id : ℕ) (o : Order) → Keeps P (cancel_unshipped_tx b id o)
  unfolding cancel_unshipped_tx
  cancel_unshipped_tx-Keeps b id o = search (basic_rules, part_rules) depth 40

  pub escalate_return-Keeps : (r : OrderReturn) → Keeps P (escalate_return r)
  unfolding escalate_return
  escalate_return-Keeps r = search (basic_rules, part_rules) depth 40

  pub open_dispute_tx-Keeps : (id u r : ℕ) → Keeps P (open_dispute_tx id u r)
  unfolding open_dispute_tx
  open_dispute_tx-Keeps id u r = search (basic_rules, part_rules) depth 40

  pub settle_for_buyer-Keeps : (id : ℕ) (o : Order) → Keeps P (settle_for_buyer id o)
  unfolding settle_for_buyer
  settle_for_buyer-Keeps id o = search (basic_rules, part_rules) depth 40

  pub settle_for_seller-Keeps : (id : ℕ) (o : Order) → Keeps P (settle_for_seller id o)
  unfolding settle_for_seller
  settle_for_seller-Keeps id o = search (basic_rules, part_rules) depth 40

  pub apply_wallet_refund_fallback-Keeps :
      (u id n : ℕ) (p : Option ℕ) → Keeps P (apply_wallet_refund_fallback u id n p)
  unfolding apply_wallet_refund_fallback
  apply_wallet_refund_fallback-Keeps u id n p = search (basic_rules, part_rules) depth 40

  pub resolve_tx-Keeps : (id t : ℕ) (b : Bool) (k : ℕ) (o : Order) → Keeps P (resolve_tx id t b k o)
  unfolding resolve_tx
  resolve_tx-Keeps id t b k o =
      search (basic_rules, part_rules, settle_for_buyer-Keeps, settle_for_seller-Keeps) depth 40

  pub open_return_tx-Keeps : (id u r : ℕ) → Keeps P (open_return_tx id u r)
  unfolding open_return_tx
  open_return_tx-Keeps id u r = search (basic_rules, part_rules) depth 40

  pub refund_return_tx-Keeps : (id k : ℕ) (o : Order) → Keeps P (refund_return_tx id k o)
  unfolding refund_return_tx
  refund_return_tx-Keeps id k o = search (basic_rules, part_rules) depth 40

  pub record_webhook_processed-Keeps : (d : ℕ) → Keeps P (record_webhook_processed d)
  unfolding record_webhook_processed
  record_webhook_processed-Keeps d = search (basic_rules, part_rules) depth 40

  pub open_escrow_tx-Keeps : (d p id : ℕ) (o : Order) → Keeps P (open_escrow_tx d p id o)
  unfolding open_escrow_tx
  open_escrow_tx-Keeps d p id o = search (basic_rules, part_rules) depth 40

  pub refuse_mismatch-Keeps : (a : List ℕ) (id : ℕ) → Keeps P (refuse_mismatch a id)
  unfolding refuse_mismatch
  refuse_mismatch-Keeps a id = search (basic_rules, part_rules) depth 40

  pub validate_coupon-Keeps : (c : ℕ) → Keeps P (validate_coupon c)
  unfolding validate_coupon
  validate_coupon-Keeps c = search (basic_rules, part_rules) depth 40

  pub recheck_coupon-Keeps : (c : ℕ) → Keeps P (recheck_coupon c)
  unfolding recheck_coupon
  recheck_coupon-Keeps c = search (basic_rules, part_rules) depth 40

  pub existing_order-Keeps : (u : ℕ) (k : Option ℕ) (e : Exception) → Keeps P (existing_order u k e)
  unfolding existing_order
  existing_order-Keeps u k e = search (basic_rules, part_rules) depth 40

  pub validate_optional-Keeps : (c : Option ℕ) → Keeps P (validate_optional c)
  unfolding validate_optional
  validate_optional-Keeps Option.none = search (basic_rules, part_rules)
  validate_optional-Keeps (Option.some c) = search (basic_rules, part_rules, validate_coupon-Keeps)

-- What other requests commit in between.
pub interleave-Keeps :
    {P : World → Type 0} (meanwhile : World → World)
    → ((w : World) → P w → P (meanwhile w))
    → Keeps P (interleave meanwhile)
unfolding interleave
interleave-Keeps meanwhile rely = record { at = rely }

pub ruleset transaction_rules = (
  part_rules, credit_reward-Keeps, refund_to_source-Keeps, cancel_unshipped_tx-Keeps,
  escalate_return-Keeps, open_dispute_tx-Keeps, apply_wallet_refund_fallback-Keeps,
  resolve_tx-Keeps, open_return_tx-Keeps, refund_return_tx-Keeps, record_webhook_processed-Keeps,
  open_escrow_tx-Keeps, refuse_mismatch-Keeps, validate_coupon-Keeps, recheck_coupon-Keeps,
  interleave-Keeps, existing_order-Keeps, validate_optional-Keeps,
)
