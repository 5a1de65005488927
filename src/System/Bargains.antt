-- ===== src/System/Bargains.antt =====
-- Invariants of the requests on offers.
use vintage.Prelude.{ℕ, Bool}
use vintage.World.{World, Offer}
use vintage.World.Keeps.{Keeps}
use vintage.System.Invariant.{Invariant, basic_rules, invariant_rules}
use vintage.System.Transactions.{transaction_rules}
use vintage.Offers.{create_offer, accept_offer, reject_offer, counter_tx, counter_offer}

module _ {P : World → Type 0} (inv : Invariant P) (meanwhile : World → World)
    (rely : (w : World) → P w → P (meanwhile w)) where
  ruleset rules = (basic_rules, transaction_rules, invariant_rules)

  pub create_offer-Keeps : (f : ℕ → Bool) (b l n : ℕ) → Keeps P (create_offer meanwhile f b l n)
  unfolding create_offer
  create_offer-Keeps f b l n = search rules depth 40

  pub accept_offer-Keeps : (f : ℕ → Bool) (k u : ℕ) → Keeps P (accept_offer meanwhile f k u)
  unfolding accept_offer
  accept_offer-Keeps f k u = search rules depth 40

  pub reject_offer-Keeps : (k u : ℕ) → Keeps P (reject_offer meanwhile k u)
  unfolding reject_offer
  reject_offer-Keeps k u = search rules depth 40

  counter_tx-Keeps : (k : ℕ) (o : Offer) (u n t : ℕ) → Keeps P (counter_tx k o u n t)
  unfolding counter_tx
  counter_tx-Keeps k o u n t = search rules depth 40

  pub counter_offer-Keeps : (k u n : ℕ) → Keeps P (counter_offer meanwhile k u n)
  unfolding counter_offer
  counter_offer-Keeps k u n = search (rules, counter_tx-Keeps) depth 40

pub ruleset bargain_rules =
    (create_offer-Keeps, accept_offer-Keeps, reject_offer-Keeps, counter_offer-Keeps)
