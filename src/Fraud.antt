-- ===== src/Fraud.antt =====
-- The rule engine (apps/api/src/fraud/fraud.service.ts): `evaluatePurchase`, `evaluatePayout`,
-- `evaluatePaymentAttempt` and `evaluateListingCreation`.
-- The reads of the model do not fail, so the `catch` branches are not there.
use vintage.Prelude.{
  ℕ, ◌-◌, ◌*◌, Bool, true, false, Option, none, some, List, [], ◌∷◌, ◌==◌, ◌&&◌, not, ltb, leb, any,
  length, if◌then◌else◌,
}
use vintage.Prelude.Dict.{lookup, rows_where}
use vintage.World.{World, FraudRule, FraudFlag, Payment, PaymentStatus, payment_is}
use vintage.World.Action.{Action, ◌>>=◌, ◌>>◌, pure, gets, branch, modify, on_option}
use vintage.Orders.{day}

pub data FraudAction : Type 0 where
  allow flag block : FraudAction

abbrev pub is_block_action : FraudAction → Bool
is_block_action FraudAction.block = true
is_block_action _ = false

-- FRAUD_RULE_CODES.
abbrev new_account_velocity : ℕ
new_account_velocity = 0

abbrev payment_failure_velocity : ℕ
payment_failure_velocity = 2

abbrev payout_drain : ℕ
payout_drain = 1

-- LISTING_VELOCITY.
abbrev listing_velocity : ℕ
listing_velocity = 4

-- NEW_ACCOUNT_DAYS.
abbrev new_account_days : ℕ
new_account_days = 7

abbrev minute : ℕ
minute = 60000

abbrev first_rule : ℕ → List FraudRule → Option FraudRule
first_rule code [] = none
first_rule code (r ∷ rs) =
    let rest = first_rule code rs in if r.code == code && r.enabled then some r else rest

unfoldable pub get_rule : ℕ → Action (Option FraudRule)
unfolding gets
get_rule code = gets (λ w. first_rule code w.fraud_rules)

abbrev is_recent_flag : World → ℕ → ℕ → FraudFlag → Bool
is_recent_flag w user code f =
    (f.user == user && f.rule == code) && (f.is_pending && leb (w.now - 60 * minute) f.created_at)

-- `createFlag`: one pending flag for a user and a rule in an hour.
unfoldable pub create_flag : ℕ → ℕ → Action (Unit {0})
unfolding modify
create_flag user code = modify (λ w.
    if any (is_recent_flag w user code) w.fraud_flags then w else record w {
      fraud_flags =
          (record { user = user; rule = code; is_pending = true; created_at = w.now })
          ∷ w.fraud_flags;
    })

abbrev rule_action : FraudRule → FraudAction
rule_action r = if r.is_block then FraudAction.block else FraudAction.flag

-- How many orders the buyer placed inside the window of the rule.
abbrev recent_orders : ℕ → FraudRule → World → ℕ
recent_orders buyer r w = length (
    rows_where (λ id o. o.buyer == buyer && leb (w.now - r.window_minutes * minute) o.created_at)
      w.orders)

abbrev is_fast_buyer : ℕ → FraudRule → World → Bool
is_fast_buyer buyer r w = elim (lookup buyer w.users) [
  | none ↦ false
  | some u ↦
      not (ltb (new_account_days * day) (w.now - u.created_at))
      && not (ltb (recent_orders buyer r w) r.threshold)
]

unfoldable pub evaluate_purchase : ℕ → Action FraudAction
evaluate_purchase buyer = do
  rule ← get_rule new_account_velocity
  on_option rule (pure FraudAction.allow) (λ r. do
    hit ← gets (is_fast_buyer buyer r)
    branch hit (create_flag buyer r.code >> pure (rule_action r)) (pure FraudAction.allow))

-- The method is the user's, and was made inside the window of the rule.
abbrev is_fresh_method : ℕ → ℕ → FraudRule → World → Bool
is_fresh_method user method r w = elim (lookup method w.methods) [
  | none ↦ false
  | some m ↦ m.user == user && not (ltb (r.window_minutes * minute) (w.now - m.created_at))
]

unfoldable pub evaluate_payout : ℕ → ℕ → Action FraudAction
evaluate_payout user method = do
  rule ← get_rule payout_drain
  on_option rule (pure FraudAction.allow) (λ r. do
    hit ← gets (is_fresh_method user method r)
    branch hit (create_flag user r.code >> pure (rule_action r)) (pure FraudAction.allow))

-- A failed attempt inside the window of the rule, for an order of the buyer.
abbrev is_failed_attempt : ℕ → FraudRule → World → Payment → Bool
is_failed_attempt buyer r w p =
    payment_is p.status PaymentStatus.failed
    && (leb (w.now - r.window_minutes * minute) p.created_at
        && (elim (lookup p.order w.orders) [ none ↦ false | some o ↦ o.buyer == buyer ]))

abbrev failed_attempts : ℕ → FraudRule → World → ℕ
failed_attempts buyer r w = length (rows_where (λ id p. is_failed_attempt buyer r w p) w.payments)

unfoldable pub evaluate_payment_attempt : ℕ → Action FraudAction
evaluate_payment_attempt buyer = do
  rule ← get_rule payment_failure_velocity
  on_option rule (pure FraudAction.allow) (λ r. do
    hit ← gets (λ w. not (ltb (failed_attempts buyer r w) r.threshold))
    branch hit (create_flag buyer r.code >> pure (rule_action r)) (pure FraudAction.allow))

-- How many listings the seller published inside the window of the rule.
abbrev recent_listings : ℕ → FraudRule → World → ℕ
recent_listings seller r w = length (
    rows_where (λ id l. l.seller == seller && leb (w.now - r.window_minutes * minute) l.created_at)
      w.listings)

unfoldable pub evaluate_listing_creation : ℕ → Action FraudAction
evaluate_listing_creation seller = do
  rule ← get_rule listing_velocity
  on_option rule (pure FraudAction.allow) (λ r. do
    hit ← gets (λ w. not (ltb (recent_listings seller r w) r.threshold))
    branch hit (create_flag seller r.code >> pure (rule_action r)) (pure FraudAction.allow))
