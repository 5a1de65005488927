-- ===== src/Orders/Release.antt =====
-- The release of an escrow (`finalizeEscrow` of apps/api/src/orders/orders.service.ts).
use vintage.Prelude.{
  ℕ, ◌≡◌, refl, true, false, none, some, ◌∷◌, ◌==◌, if◌then◌else◌, filter, not, Option-cases,
  Bool-cases, inl, inr,
}
use vintage.Prelude.Int.{pos, neg, ◌+ℤ◌}
use vintage.Prelude.Dict.{lookup, insert, lookup-insert_self}
use vintage.World.{World, Order, OrderStatus, EntryType, order_is}
use vintage.World.Action.{Exception, actions, ok, err, pure}
use vintage.World.Tables.{
  orders, claim_wins, claim_loses, claim_misses, find_or_throw, delete_snapshots,
}
use vintage.Wallet.{update_wallet, create_entry, upsert_wallet, release_escrow}
use vintage.Wallet.Posting.{posted, posted_lem, entry, lookup-ensure}
use vintage.Wallet.Reconciliation.{balance_of, pending_of}
use vintage.Orders.Escrow.{release_tx, settle_escrow}

abbrev pub completed : Order → World → Order
completed o w = record o {
  status = OrderStatus.completed;
  confirmed_at = some w.now;
  escrow_releases_at = none;
}

-- The state after the release of a held order.
abbrev pub released : ℕ → Order → World → World
released id o w = record w {
  orders = insert id (completed o w) w.orders;
  wallets = posted o.seller (pos o.item_price) (neg o.item_price) w.wallets;
  ledger = entry o.seller EntryType.escrow_release (pos o.item_price) id ∷ w.ledger;
  snapshots = filter (λ s. not (s == id)) w.snapshots;
}

pub release_tx-held :
    (id : ℕ) (o : Order) (w : World)
    → lookup id w.orders ≡ some o
    → order_is o.status OrderStatus.held ≡ true
    → release_tx id w ≡ (ok (completed o w), released id o w)
unfolding release_tx settle_escrow release_escrow find_or_throw delete_snapshots upsert_wallet
    update_wallet create_entry pure actions
release_tx-held id o w e t = rw (claim_wins orders id _ _ w e t) (
    rw (lookup-insert_self id (completed o w) w.orders)
      (rw (lookup-ensure o.seller w.wallets, update_wallet) refl))

release_tx-closed :
    (id : ℕ) (o : Order) (w : World)
    → lookup id w.orders ≡ some o
    → order_is o.status OrderStatus.held ≡ false
    → release_tx id w ≡ (ok o, w)
unfolding release_tx find_or_throw pure actions
release_tx-closed id o w e f = rw (claim_loses orders id _ _ w e f) (rw e refl)

release_tx-missing :
    (id : ℕ) (w : World)
    → lookup id w.orders ≡ none
    → release_tx id w ≡ (err Exception.database_error, w)
unfolding release_tx find_or_throw pure actions
release_tx-missing id w e = rw (claim_misses orders id _ _ w e) (rw e refl)

-- The release of a held order completes it, moves exactly the price of its item from the escrow of
-- its seller to the seller's balance, and touches the wallet of no other user.
pub release_tx-pays :
    (id v : ℕ) (o : Order) (w : World)
    → lookup id w.orders ≡ some o
    → order_is o.status OrderStatus.held ≡ true
    → let r = release_tx id w in
      (r.0 ≡ ok (completed o w))
      × (lookup id r.1.orders ≡ some (completed o w))
      × (balance_of v r.1.wallets ≡ (
          if o.seller == v
          then balance_of v w.wallets +ℤ pos o.item_price
          else balance_of v w.wallets))
      × (pending_of v r.1.wallets ≡ (
          if o.seller == v
          then pending_of v w.wallets +ℤ neg o.item_price
          else pending_of v w.wallets))
release_tx-pays id v o w e t =
    let p = posted_lem o.seller v (pos o.item_price) (neg o.item_price) w.wallets in
    rw (release_tx-held id o w e t) (refl, lookup-insert_self id (completed o w) w.orders, p.0, p.1)

-- A second release of the same order changes nothing at all.
release_tx-once : (id : ℕ) (w : World) → let w1 = (release_tx id w).1 in (release_tx id w1).1 ≡ w1
release_tx-once id w = elim (Option-cases (lookup id w.orders)) [
  | inl e ↦ rw (release_tx-missing id w e) (rw (release_tx-missing id w e) refl)
  | inr (o, e) ↦ elim (Bool-cases (order_is o.status OrderStatus.held)) [
    | inl t ↦ rw (release_tx-held id o w e t) (
        rw
          (release_tx-closed id (completed o w) (released id o w)
            (lookup-insert_self id (completed o w) w.orders) refl)
          refl)
    | inr f ↦ rw (release_tx-closed id o w e f) (rw (release_tx-closed id o w e f) refl)
  ]
]
