-- ===== src/System/Whole.antt =====
-- An invariant that no write of a coupon, of a payment or of an offer touches.
use vintage.Prelude.{ℕ, Option}
use vintage.World.{World, Listing}
use vintage.World.Keeps.{Keeps, Keeps-transaction}
use vintage.World.Tables.{Leaves, coupons, payments, offers, tokens}
use vintage.Offers.{decide_offer, reject_offers}
use vintage.Sessions.{use_token, revoke_user, revoke_hash, link_token, create_token}
use vintage.Checkout.{Quote}
use vintage.Checkout.Place.{OrderRequest, place_order_tx}
use vintage.Payments.Attempts.{
  reserve_attempt, validate_amount, bind_provider, abandon_attempt, fail_pending, fail_where,
}
use vintage.System.Invariant.{Writes, TokenWrites, Invariant, basic_rules}
use vintage.System.Transactions.{transaction_rules}

-- The same of the writes on refresh tokens.
pub tokens_apart : {P : World → Type 0} → Leaves tokens P → TokenWrites P
unfolding use_token revoke_user revoke_hash link_token create_token
tokens_apart t = record {
  spends = λ id n. search basic_rules;
  sweeps = λ u n. search basic_rules;
  signs_out = λ h n. search basic_rules;
  links = λ id r. search basic_rules;
  issues = λ x. search basic_rules depth 20;
}

module _ {P : World → Type 0} (base : Writes P) (c : Leaves coupons P) (p : Leaves payments P)
    (o : Leaves offers P) (t : TokenWrites P) where
  place_order_tx-Keeps :
      (u : ℕ) (r : OrderRequest) (l : Listing) (q : Quote) (o : Option ℕ)
      → Keeps P (place_order_tx u r l q o)
  unfolding place_order_tx
  place_order_tx-Keeps u r l q o = search (basic_rules, transaction_rules) depth 40

  pub whole : Invariant P
  unfolding reserve_attempt validate_amount bind_provider abandon_attempt fail_pending fail_where
      decide_offer reject_offers
  whole = record {
    base = base;
    places = λ u r l q o. Keeps-transaction _ (place_order_tx-Keeps u r l q o);
    reserves = λ o u m. search (basic_rules, transaction_rules) depth 40;
    binds = λ k n. search basic_rules;
    abandons = λ k. search basic_rules;
    fails = λ k. search basic_rules;
    retires = λ t. search basic_rules;
    proposes = λ x. search basic_rules;
    decides = λ id t s. search basic_rules;
    rejects = λ u. search basic_rules;
    sessions = t;
  }
