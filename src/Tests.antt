-- ===== src/Tests.antt =====
-- A small marketplace on which the theorems are used: user 1 sells, user 2 buys.
mod Payments
mod Offers
mod Documents
mod Methods
mod Sales
mod Sessions
mod Jobs
mod Reviews
use vintage.Sessions.{Crypto}
use vintage.Validation.{Text}
use vintage.Prelude.{
  ℕ, ◌+◌, ◌*◌, ◌==◌, ◌/◌, ◌≤◌, ◌≡◌, refl, true, false, none, some, [], ◌∷◌, arith, ltb,
}
use vintage.Prelude.Int.{pos, neg, ◌+ℤ◌}
use vintage.Prelude.Dict.{lookup}
use vintage.World.{
  World, Order, OrderStatus, OrderReturn, ReturnStatus, Listing, ListingStatus, PaymentMethod,
  PayoutRequest, PayoutStatus,
}
use vintage.World.Action.{Exception, Result, ok, err, actions, throw, pure, transaction}
use vintage.Provider.{Provider, PayoutAnswer, ProviderStatus, DetailAnswer}
use vintage.Payments.Webhook.{Delivery}
use vintage.CronLock.{acquire, ttl_ms}
use vintage.CronLock.Exclusion.{acquire-exclusive}
use vintage.Wallet.Reconciliation.{Reconciled, sum_for, balance_of}
use vintage.Wallet.Together.{Accounted}
use vintage.Wallet.Solvency.{Solvent}
use vintage.Orders.{force_hold, force_hold_tx, confirm_receipt, release_tx}
use vintage.Orders.Release.{release_tx-pays}
use vintage.Orders.Confirm.{confirm_receipt-shipped}
use vintage.OrdersCron.{cancel_unshipped_tx}
use vintage.OrdersCron.Routes.{cancel_unshipped_tx-route}
use vintage.Payments.{open_escrow_tx}
use vintage.Payments.Once.{open_escrow_tx-opens, open_escrow_tx-once}
use vintage.Payouts.{fail_and_refund}
use vintage.Payouts.Once.{fail_and_refund-once}
use vintage.Disputes.{open_dispute_tx}
use vintage.Returns.{refund_return_tx, inspect_approve, open_return_tx}
use vintage.Returns.Refund.{refund_return_tx-refunds, inspect_approve-twice}
use vintage.Returns.Exclusive.{open_return_tx-exclusive}
use vintage.Checkout.{quote, quote_with, is_free_order}
use vintage.Checkout.Totals.{IsNearest, saved, quote-total}
use vintage.Wallet.{upsert_wallet, rehold_escrow, refund_wallet, update_wallet, create_entry}
use vintage.World.Tables.{find_or_throw, claim, create}
use vintage.Payouts.{debit_tx}
use vintage.Payouts.Debit.{debit_tx-takes}
use vintage.Disputes.{apply_wallet_refund_fallback}
use vintage.Disputes.Fallback.{apply_wallet_refund_fallback-once}
use vintage.Checkout.Place.{OrderRequest, new_order, create_order, place_order_tx, recheck_coupon}
use vintage.World.{Coupon}
use vintage.World.Tables.{find_unique, update, create_snapshot}
use vintage.Checkout.Retry.{create_order-retry}
use vintage.System.{Env, Request, Schedule, run}
use vintage.System.Accounts.{run-Reconciled, run-Solvent}

abbrev pub an_order : OrderStatus → Order
an_order s = record {
  buyer = 2;
  seller = 1;
  listing = 7;
  status = s;
  total = 12500;
  item_price = 10000;
  shipping_cost = 1590;
  protection_fee = 850;
  discount = none;
  coupon = none;
  shipping_address = some 4;
  payment_method = PaymentMethod.pix;
  installments = 1;
  idempotency_key = none;
  payment_id = some 900;
  refund_method = none;
  tracking_code = none;
  carrier = none;
  created_at = 0;
  shipped_at = none;
  delivered_at = none;
  confirmed_at = none;
  dispute_deadline = none;
  escrow_releases_at = none;
}

abbrev pub a_listing : Listing
a_listing = record {
  seller = 1;
  status = ListingStatus.sold;
  price = 10000;
  shipping_weight_g = 250;
  created_at = 0;
  promoted_until = none;
}

-- One order, number 5, and no wallet yet.
abbrev pub a_world : OrderStatus → World
a_world s = record {
  now = 1000;
  next_id = 100;
  users = [];
  listings = (7, a_listing) ∷ [];
  categories = [];
  brands = [];
  addresses = [];
  coupons = [];
  orders = (5, an_order s) ∷ [];
  snapshots = 5 ∷ [];
  disputes = [];
  returns = [];
  wallets = [];
  ledger = [];
  methods = [];
  payouts = [];
  payments = [];
  payment_flags = [];
  webhooks = [];
  referrals = [];
  offers = [];
  promotions = [];
  bundles = [];
  tokens = [];
  resets = [];
  reviews = [];
  blocks = [];
  locks = [];
  fraud_rules = [];
  fraud_flags = [];
  outbox = [];
}

abbrev first_char : Text → ℕ
first_char [] = 0
first_char (c ∷ cs) = c

abbrev pub provider : Provider
provider = record {
  refund_accepted = λ p n. true;
  payout_answer = λ id. PayoutAnswer.unavailable;
  search_payments = λ now order. some (900 ∷ []);
  payment_detail = λ now p. DetailAnswer.detail ProviderStatus.cancelled none;
  payment_status = λ now p. some (ProviderStatus.approved, some 12500);
  minted = λ now attempt. some 901;
}

-- The webhook of the payment 900.
abbrev a_delivery : Delivery
a_delivery = record {
  has_signature = true;
  has_body = true;
  is_verified = true;
  is_well_formed = true;
  id = some 31;
  is_payment_updated = true;
  payment = some 900;
}

-- Half up, on millionths.
abbrev pub round : ℕ → ℕ
round m = (m + 5000) / 10000

-- A digest that tells the first character, and no hashing of passwords.
abbrev pub crypto : Crypto
crypto = record { digest = first_char; bcrypt_hash = λ p. p; bcrypt_compare = λ p h. p == h }

abbrev pub env : Env
env = record {
  provider = provider;
  to_fixed = round;
  to_fixed_over = λ m n. (m + n * 5000) / (n * 10000);
  crypto = crypto;
  kyc_enforced = true;
  escrow_hold_days = some 2;
  return_window_days = none;
  stuck_days = 14;
  admins = 99 ∷ [];
  prohibited = λ l. false;
}

-- The payment is approved, the order shipped while the delivery of the webhook is repeated,
-- delivered and confirmed twice at the same time; two days later the escrow is released.
abbrev sale_then : Schedule → Schedule
sale_then rest = Schedule.serve (Request.webhook a_delivery) Schedule.done (
    Schedule.serve (Request.ship 5 1 77 3)
      (Schedule.serve (Request.webhook a_delivery) Schedule.done Schedule.done)
      (Schedule.serve (Request.deliver 5 (some 2)) Schedule.done (
        Schedule.serve (Request.confirm 5 2)
          (Schedule.serve (Request.confirm 5 2) Schedule.done Schedule.done)
          (Schedule.elapse 172800000 (Schedule.serve Request.release_held Schedule.done rest)))))

abbrev pub a_sale : Schedule
a_sale = sale_then Schedule.done

Reconciled-a_world : Reconciled (a_world OrderStatus.pending)
unfolding sum_for
Reconciled-a_world = record { balances = λ u. refl; pendings = λ u. refl }

Solvent-a_world : Solvent (a_world OrderStatus.pending)
Solvent-a_world u = omega arith

-- After the sale an administrator moves its money back into escrow, and the buyer leaves.
abbrev a_rehold : Schedule
a_rehold = sale_then (
    Schedule.serve (Request.hold_again 5 true)
      (Schedule.serve (Request.leave 2 none (some true)) Schedule.done Schedule.done) Schedule.done)

run-Reconciled_example : Accounted (run env a_rehold (a_world OrderStatus.pending))
run-Reconciled_example =
    run-Reconciled env a_rehold (a_world OrderStatus.pending) Reconciled-a_world

run-Solvent_example : Solvent (run env a_sale (a_world OrderStatus.pending))
run-Solvent_example = run-Solvent env a_sale (a_world OrderStatus.pending) refl Solvent-a_world

-- The seller of a completed order has no balance left; a force-hold makes it negative, and the
-- ledger has no entry for it.
overdrawn :
    let w = (force_hold (λ v. v) true 5 (a_world OrderStatus.completed)).1 in
    (balance_of 1 w.wallets ≡ neg 10000) × (w.ledger ≡ [])
unfolding force_hold force_hold_tx upsert_wallet rehold_escrow update_wallet find_unique update
    actions throw pure find_or_throw ◌+ℤ◌
overdrawn = (refl, refl)

unlocked : (acquire 4 (a_world OrderStatus.paid)).0 ≡ ok true
unfolding acquire
unlocked = refl

acquire-exclusive_example :
    (acquire 4 (record (acquire 4 (a_world OrderStatus.paid)).1 { now = 2000 })).0
    ≡ ok (ltb (1000 + ttl_ms) 2000)
acquire-exclusive_example = acquire-exclusive 4 2000 (a_world OrderStatus.paid) unlocked

release_tx-pays_example :
    balance_of 1 (release_tx 5 (a_world OrderStatus.held)).1.wallets ≡ pos 0 +ℤ pos 10000
release_tx-pays_example =
    (release_tx-pays 5 1 (an_order OrderStatus.held) (a_world OrderStatus.held) refl refl).2

confirm_receipt-shipped_example :
    confirm_receipt (λ w. w) none 5 2 (a_world OrderStatus.shipped)
    ≡ (err Exception.bad_request, a_world OrderStatus.shipped)
confirm_receipt-shipped_example =
    confirm_receipt-shipped (λ w. w) none 5 (an_order OrderStatus.shipped)
      (an_order OrderStatus.shipped) (a_world OrderStatus.shipped) refl refl refl refl

open_escrow_tx-opens_example :
    lookup 5
      (transaction
        (open_escrow_tx 31 900 5 (an_order OrderStatus.pending))
        (a_world OrderStatus.pending)).1.orders
    ≡ some (an_order OrderStatus.paid)
open_escrow_tx-opens_example =
    (open_escrow_tx-opens 31 900 5 1 (an_order OrderStatus.pending) (an_order OrderStatus.pending)
      (a_world OrderStatus.pending) refl refl refl).1

abbrev settled : Result (Unit {0}) × World
settled =
    transaction (open_escrow_tx 31 900 5 (an_order OrderStatus.pending))
      (a_world OrderStatus.pending)

settled-ok : settled.0 ≡ ok tt
settled-ok =
    (open_escrow_tx-opens 31 900 5 1 (an_order OrderStatus.pending) (an_order OrderStatus.pending)
      (a_world OrderStatus.pending) refl refl refl).0

open_escrow_tx-once_example :
    transaction (open_escrow_tx 31 900 5 (an_order OrderStatus.pending)) settled.1
    ≡ (err Exception.race_signal, settled.1)
open_escrow_tx-once_example =
    open_escrow_tx-once 31 900 31 900 5 (an_order OrderStatus.pending)
      (an_order OrderStatus.pending) (a_world OrderStatus.pending) settled-ok

cancel_unshipped_tx-route_example :
    balance_of 2
      (cancel_unshipped_tx false 5 (an_order OrderStatus.paid) (a_world OrderStatus.paid)).1.wallets
    ≡ pos 0 +ℤ pos 12500
cancel_unshipped_tx-route_example =
    (cancel_unshipped_tx-route false 5 2 (an_order OrderStatus.paid) (an_order OrderStatus.paid)
      a_listing (a_world OrderStatus.paid) refl refl refl).2

-- A payout of user 1 is pending.
abbrev a_payout : PayoutRequest
a_payout = record {
  user = 1;
  method = 8;
  amount = 3000;
  status = PayoutStatus.pending;
  external_id = none;
  completed_at = none;
}

abbrev paying : World
paying = record (a_world OrderStatus.completed) {
  wallets = (1, record { balance = pos 7000; pending = pos 0 }) ∷ [];
  payouts = (6, a_payout) ∷ [];
}

paying-fails : (fail_and_refund 6 1 3000 paying).0 ≡ ok tt
unfolding fail_and_refund actions refund_wallet update_wallet create_entry claim
paying-fails = refl

fail_and_refund-once_example :
    let w1 = (fail_and_refund 6 1 3000 paying).1 in (fail_and_refund 6 1 9000 w1).1 ≡ w1
fail_and_refund-once_example = fail_and_refund-once 6 1 3000 1 9000 paying paying-fails

-- A return of the order was received.
abbrev a_return : OrderReturn
a_return = record {
  order = 5;
  requested_by = 2;
  status = ReturnStatus.received;
  reason = 0;
  carrier = none;
  tracking_code = none;
  rejection_reason = none;
  shipped_at = none;
  received_at = some 900;
  inspected_at = none;
}

abbrev returning : World
returning = record (a_world OrderStatus.delivered) { returns = (9, a_return) ∷ [] }

refund_return_tx-refunds_example :
    balance_of 2 (refund_return_tx 9 5 (an_order OrderStatus.delivered) returning).1.wallets
    ≡ pos 0 +ℤ pos 12500
refund_return_tx-refunds_example =
    (refund_return_tx-refunds 9 5 2 a_return (an_order OrderStatus.delivered)
      (an_order OrderStatus.delivered) returning refl refl refl refl).3

inspect_approve-twice_example :
    balance_of 2 (inspect_approve (λ w. w) provider 9 1 returning).1.wallets ≡ pos 0 +ℤ pos 12500
inspect_approve-twice_example =
    (inspect_approve-twice provider 9 900 a_return (an_order OrderStatus.delivered) returning refl
      refl refl refl refl refl).0

abbrev opened : Result ℕ × World
opened = open_return_tx 5 2 0 (a_world OrderStatus.delivered)

opened-ok : opened.0 ≡ ok 100
unfolding open_return_tx create actions throw pure
opened-ok = refl

open_return_tx-exclusive_example :
    (open_dispute_tx 5 2 1 opened.1 ≡ (err Exception.conflict, opened.1))
    × (open_return_tx 5 2 1 opened.1 ≡ (err Exception.conflict, opened.1))
open_return_tx-exclusive_example =
    open_return_tx-exclusive 5 2 0 2 1 100 (a_world OrderStatus.delivered) opened-ok

round-IsNearest : IsNearest round
round-IsNearest = record { below = λ m. omega arith; above = λ m. omega arith }

quote-total_example :
    let q = quote round 10000 250 (some 10) in
    (q.total + saved q ≤ 10000 + q.shipping_cost + q.protection_fee + 1)
    × (10000 + q.shipping_cost + q.protection_fee ≤ q.total + saved q + 1)
quote-total_example = quote-total round round-IsNearest 10000 250 (some 10)

debit_tx-takes_example : (transaction (debit_tx 1 3000 8) paying).0 ≡ ok 100
debit_tx-takes_example =
    (debit_tx-takes 1 3000 8 1 (record { balance = pos 7000; pending = pos 0 }) paying refl).0

apply_wallet_refund_fallback-once_example :
    let w1 = (apply_wallet_refund_fallback 2 5 12500 (some 900) (a_world OrderStatus.disputed)).1 in
    (apply_wallet_refund_fallback 2 5 12500 (some 900) w1).1 ≡ w1
apply_wallet_refund_fallback-once_example =
    apply_wallet_refund_fallback-once 2 5 12500 12500 (some 900) (some 900)
      (a_world OrderStatus.disputed)

-- A listing is for sale, and a coupon of ten per cent has one use left.
abbrev pub a_coupon : Coupon
a_coupon = record {
  code = 11;
  discount_pct = 10;
  max_uses = some 5;
  used_count = 4;
  expires_at = none;
  is_active = true;
}

abbrev pub for_sale : Listing
for_sale = record a_listing { status = ListingStatus.active }

abbrev pub selling : World
selling = record (a_world OrderStatus.cancelled) {
  listings = (7, for_sale) ∷ [];
  coupons = (3, a_coupon) ∷ [];
}

abbrev pub a_request : OrderRequest
a_request = record {
  listing = 7;
  address = 4;
  payment_method = PaymentMethod.pix;
  installments = none;
  coupon_code = some 11;
  idempotency_key = some 55;
}

abbrev placed : Result (ℕ × Order) × World
placed = place_order_tx 2 a_request for_sale (quote round 10000 250 (some 10)) (some 3) selling

abbrev new_one : Order
new_one = new_order 1000 2 a_request for_sale (quote round 10000 250 (some 10)) (some 3)

placed-ok : placed ≡ (ok (100, new_one), placed.1)
unfolding place_order_tx recheck_coupon find_unique update create create_snapshot throw pure actions
    quote quote_with is_free_order
placed-ok = refl

create_order-retry_example :
    create_order (λ w. w) round 2 a_request placed.1 ≡ (ok (100, new_one), placed.1)
create_order-retry_example =
    create_order-retry (λ w. w) round 2 55 a_request for_sale (quote round 10000 250 (some 10))
      (some 3) selling placed.1 (100, new_one) refl placed-ok
