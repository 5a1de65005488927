-- ===== src/System/Invariant.antt =====
-- What an invariant of the state has to show of the writes that the services are made of.
use vintage.Prelude.{ℕ, Bool, Option, Option-cases, inl, inr}
use vintage.Prelude.Dict.{Dict, lookup}
use vintage.World.{
  World, Wallet, Effect, Listing, Offer, OfferStatus, Payment, PaymentMethod, RefreshToken,
}
use vintage.World.Action.{emit, transaction}
use vintage.World.Keeps.{Keeps, keeps_rules}
use vintage.World.Tables.{
  Leaves, table_rules, create_snapshot, delete_snapshots, create_payment_flag, listings, coupons,
  offers, create, orders, disputes, returns, payouts, payments, referrals, users, promotions,
  bundles, resets, methods,
}
use vintage.CronLock.{acquire}
use vintage.Fraud.{create_flag}
use vintage.Payments.{add_webhook, mark_succeeded}
use vintage.Payments.Attempts.{
  reserve_attempt, bind_provider, abandon_attempt, fail_pending, fail_where,
}
use vintage.Offers.{decide_offer, reject_offers}
use vintage.Sessions.{use_token, revoke_user, revoke_hash, link_token, create_token}
use vintage.Checkout.{Quote}
use vintage.Checkout.Place.{OrderRequest, place_order_tx}
use vintage.Wallet.{
  upsert_wallet, hold_escrow, release_escrow, reverse_escrow, refund_wallet, credit_wallet,
  debit_for_payout, charge_promotion, rehold_escrow, update_wallet,
}

-- The writes that stand alone keep `P`.
pub record Writes (P : World → Type 0) : Type 0 where
  pub ticks : (t : ℕ) (w : World) → P w → P (record w { now = t })
  pub emits : (e : Effect) → Keeps P (emit e)
  pub locks : (id : ℕ) → Keeps P (acquire id)
  pub flags : (user code : ℕ) → Keeps P (create_flag user code)
  pub freezes : (order : ℕ) → Keeps P (create_snapshot order)
  pub purges : (order : ℕ) → Keeps P (delete_snapshots order)
  pub suspects : (order : ℕ) → Keeps P (create_payment_flag order)
  pub delivers : (delivery : ℕ) → Keeps P (add_webhook delivery)
  pub succeeds : (order payment : ℕ) → Keeps P (mark_succeeded order payment)
  pub writes_listings : Leaves listings P
  pub writes_orders : Leaves orders P
  pub writes_disputes : Leaves disputes P
  pub writes_returns : Leaves returns P
  pub writes_payouts : Leaves payouts P
  pub writes_referrals : Leaves referrals P
  pub writes_users : Leaves users P
  pub writes_promotions : Leaves promotions P
  pub writes_bundles : Leaves bundles P
  pub writes_resets : Leaves resets P
  pub writes_methods : Leaves methods P
  pub upserts : (user : ℕ) → Keeps P (upsert_wallet user)
  pub holds : (user amount order : ℕ) → Keeps P (hold_escrow user amount order)
  pub releases : (user amount order : ℕ) → Keeps P (release_escrow user amount order)
  pub reverses : (user amount order : ℕ) → Keeps P (reverse_escrow user amount order)
  pub refunds : (user amount reference : ℕ) → Keeps P (refund_wallet user amount reference)
  pub credits : (user amount reference : ℕ) → Keeps P (credit_wallet user amount reference)
  pub debits : (user amount method : ℕ) → Keeps P (debit_for_payout user amount method)
  pub charges : (user amount : ℕ) → Keeps P (charge_promotion user amount)

-- The writes on refresh tokens keep `P`.
pub record TokenWrites (P : World → Type 0) : Type 0 where
  pub spends : (id now : ℕ) → Keeps P (use_token id now)
  pub sweeps : (user now : ℕ) → Keeps P (revoke_user user now)
  pub signs_out : (hash now : ℕ) → Keeps P (revoke_hash hash now)
  pub links : (id replacement : ℕ) → Keeps P (link_token id replacement)
  pub issues : (t : RefreshToken) → Keeps P (create_token t)

-- The writes from which every request is made keep `P`: those on coupons and on payments count
-- together with the guards of their transactions.
pub record Invariant (P : World → Type 0) : Type 0 where
  pub base : Writes P
  pub places :
      (buyer : ℕ) (r : OrderRequest) (l : Listing) (q : Quote) (c : Option ℕ)
      → Keeps P (transaction (place_order_tx buyer r l q c))
  pub reserves : (order user : ℕ) (m : PaymentMethod) → Keeps P (reserve_attempt order user m)
  pub binds : (payment provider : ℕ) → Keeps P (bind_provider payment provider)
  pub abandons : (payment : ℕ) → Keeps P (abandon_attempt payment)
  pub fails : (payment : ℕ) → Keeps P (fail_pending payment)
  pub retires : (test : Payment → Bool) → Keeps P (fail_where test)
  pub proposes : (o : Offer) → Keeps P (create offers o)
  pub decides :
      (id : ℕ) (test : ℕ → Offer → Bool) (s : OfferStatus) → Keeps P (decide_offer id test s)
  pub rejects : (buyer : ℕ) → Keeps P (reject_offers buyer)
  pub sessions : TokenWrites P

-- What a force-hold moves keeps `P`.
abbrev pub Reholds : (World → Type 0) → Type 0
Reholds P = (user amount : ℕ) → Keeps P (rehold_escrow user amount)

-- The same, where no write of the wallets touches `P`.
pub wallets_apart :
    {P : World → Type 0}
    → ((d : Dict Wallet) (w : World) → P w → P (record w { wallets = d }))
    → Reholds P
unfolding rehold_escrow update_wallet
wallets_apart apart u n = record {
  at = λ w h. elim (Option-cases (lookup u w.wallets)) [
    | inl e ↦ rw (e, update_wallet) h
    | inr (x, e) ↦ rw (e, update_wallet) (apart _ w h)
  ];
}

-- The fields as rules for `search`.
module _ {P : World → Type 0} where
  pub Keeps-emit : (e : Effect) → Writes P → Keeps P (emit e)
  Keeps-emit e inv = inv.emits e

  pub Keeps-acquire : (id : ℕ) → Writes P → Keeps P (acquire id)
  Keeps-acquire id inv = inv.locks id

  pub Keeps-create_flag : (user code : ℕ) → Writes P → Keeps P (create_flag user code)
  Keeps-create_flag user code inv = inv.flags user code

  pub Keeps-create_snapshot : (order : ℕ) → Writes P → Keeps P (create_snapshot order)
  Keeps-create_snapshot order inv = inv.freezes order

  pub Keeps-delete_snapshots : (order : ℕ) → Writes P → Keeps P (delete_snapshots order)
  Keeps-delete_snapshots order inv = inv.purges order

  pub Keeps-create_payment_flag : (order : ℕ) → Writes P → Keeps P (create_payment_flag order)
  Keeps-create_payment_flag order inv = inv.suspects order

  pub Keeps-add_webhook : (delivery : ℕ) → Writes P → Keeps P (add_webhook delivery)
  Keeps-add_webhook delivery inv = inv.delivers delivery

  pub Keeps-mark_succeeded : (order payment : ℕ) → Writes P → Keeps P (mark_succeeded order payment)
  Keeps-mark_succeeded order payment inv = inv.succeeds order payment

  pub listings-Leaves : Writes P → Leaves listings P
  listings-Leaves inv = inv.writes_listings

  pub orders-Leaves : Writes P → Leaves orders P
  orders-Leaves inv = inv.writes_orders

  pub disputes-Leaves : Writes P → Leaves disputes P
  disputes-Leaves inv = inv.writes_disputes

  pub returns-Leaves : Writes P → Leaves returns P
  returns-Leaves inv = inv.writes_returns

  pub payouts-Leaves : Writes P → Leaves payouts P
  payouts-Leaves inv = inv.writes_payouts

  pub referrals-Leaves : Writes P → Leaves referrals P
  referrals-Leaves inv = inv.writes_referrals

  pub users-Leaves : Writes P → Leaves users P
  users-Leaves inv = inv.writes_users

  pub promotions-Leaves : Writes P → Leaves promotions P
  promotions-Leaves inv = inv.writes_promotions

  pub bundles-Leaves : Writes P → Leaves bundles P
  bundles-Leaves inv = inv.writes_bundles

  pub resets-Leaves : Writes P → Leaves resets P
  resets-Leaves inv = inv.writes_resets

  pub methods-Leaves : Writes P → Leaves methods P
  methods-Leaves inv = inv.writes_methods

  pub Keeps-upsert_wallet : (user : ℕ) → Writes P → Keeps P (upsert_wallet user)
  Keeps-upsert_wallet user inv = inv.upserts user

  pub Keeps-hold_escrow :
      (user amount order : ℕ) → Writes P → Keeps P (hold_escrow user amount order)
  Keeps-hold_escrow user amount order inv = inv.holds user amount order

  pub Keeps-release_escrow :
      (user amount order : ℕ) → Writes P → Keeps P (release_escrow user amount order)
  Keeps-release_escrow user amount order inv = inv.releases user amount order

  pub Keeps-reverse_escrow :
      (user amount order : ℕ) → Writes P → Keeps P (reverse_escrow user amount order)
  Keeps-reverse_escrow user amount order inv = inv.reverses user amount order

  pub Keeps-refund_wallet :
      (user amount reference : ℕ) → Writes P → Keeps P (refund_wallet user amount reference)
  Keeps-refund_wallet user amount reference inv = inv.refunds user amount reference

  pub Keeps-credit_wallet :
      (user amount reference : ℕ) → Writes P → Keeps P (credit_wallet user amount reference)
  Keeps-credit_wallet user amount reference inv = inv.credits user amount reference

  pub Keeps-debit_for_payout :
      (user amount method : ℕ) → Writes P → Keeps P (debit_for_payout user amount method)
  Keeps-debit_for_payout user amount method inv = inv.debits user amount method

  pub Keeps-charge_promotion : (user amount : ℕ) → Writes P → Keeps P (charge_promotion user amount)
  Keeps-charge_promotion user amount inv = inv.charges user amount

pub ruleset basic_rules = (
  keeps_rules, table_rules, Keeps-emit, Keeps-acquire, Keeps-create_flag, Keeps-create_snapshot,
  Keeps-delete_snapshots, Keeps-create_payment_flag, Keeps-add_webhook, Keeps-mark_succeeded,
  listings-Leaves, orders-Leaves, disputes-Leaves, returns-Leaves, payouts-Leaves, referrals-Leaves,
  Keeps-upsert_wallet, Keeps-hold_escrow, Keeps-release_escrow, Keeps-reverse_escrow,
  Keeps-refund_wallet, Keeps-credit_wallet, Keeps-debit_for_payout, Keeps-charge_promotion,
  users-Leaves, promotions-Leaves, bundles-Leaves, resets-Leaves, methods-Leaves,
)

module _ {P : World → Type 0} where
  pub Writes-Invariant : Invariant P → Writes P
  Writes-Invariant inv = inv.base

  pub Keeps-place_order_tx :
      (buyer : ℕ) (r : OrderRequest) (l : Listing) (q : Quote) (c : Option ℕ)
      → Invariant P
      → Keeps P (transaction (place_order_tx buyer r l q c))
  Keeps-place_order_tx buyer r l q c inv = inv.places buyer r l q c

  pub Keeps-reserve_attempt :
      (order user : ℕ) (m : PaymentMethod) → Invariant P → Keeps P (reserve_attempt order user m)
  Keeps-reserve_attempt order user m inv = inv.reserves order user m

  pub Keeps-bind_provider :
      (payment provider : ℕ) → Invariant P → Keeps P (bind_provider payment provider)
  Keeps-bind_provider payment provider inv = inv.binds payment provider

  pub Keeps-abandon_attempt : (payment : ℕ) → Invariant P → Keeps P (abandon_attempt payment)
  Keeps-abandon_attempt payment inv = inv.abandons payment

  pub Keeps-fail_pending : (payment : ℕ) → Invariant P → Keeps P (fail_pending payment)
  Keeps-fail_pending payment inv = inv.fails payment

  pub Keeps-fail_where : (test : Payment → Bool) → Invariant P → Keeps P (fail_where test)
  Keeps-fail_where test inv = inv.retires test

  pub Keeps-create_offers : (o : Offer) → Invariant P → Keeps P (create offers o)
  Keeps-create_offers o inv = inv.proposes o

  pub Keeps-decide_offer :
      (id : ℕ) (test : ℕ → Offer → Bool) (s : OfferStatus)
      → Invariant P
      → Keeps P (decide_offer id test s)
  Keeps-decide_offer id test s inv = inv.decides id test s

  pub Keeps-reject_offers : (buyer : ℕ) → Invariant P → Keeps P (reject_offers buyer)
  Keeps-reject_offers buyer inv = inv.rejects buyer

  pub Keeps-use_token : (id now : ℕ) → Invariant P → Keeps P (use_token id now)
  Keeps-use_token id now inv = inv.sessions.spends id now

  pub Keeps-revoke_user : (user now : ℕ) → Invariant P → Keeps P (revoke_user user now)
  Keeps-revoke_user user now inv = inv.sessions.sweeps user now

  pub Keeps-revoke_hash : (hash now : ℕ) → Invariant P → Keeps P (revoke_hash hash now)
  Keeps-revoke_hash hash now inv = inv.sessions.signs_out hash now

  pub Keeps-link_token : (id replacement : ℕ) → Invariant P → Keeps P (link_token id replacement)
  Keeps-link_token id replacement inv = inv.sessions.links id replacement

  pub Keeps-create_token : (t : RefreshToken) → Invariant P → Keeps P (create_token t)
  Keeps-create_token t inv = inv.sessions.issues t

pub ruleset invariant_rules = (
  Keeps-use_token, Keeps-revoke_user, Keeps-revoke_hash, Keeps-link_token, Keeps-create_token,
  Writes-Invariant, Keeps-place_order_tx, Keeps-reserve_attempt, Keeps-bind_provider,
  Keeps-abandon_attempt, Keeps-fail_pending, Keeps-fail_where, Keeps-create_offers,
  Keeps-decide_offer, Keeps-reject_offers,
)
