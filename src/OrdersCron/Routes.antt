-- ===== src/OrdersCron/Routes.antt =====
-- The two routes of a refund in `autoCancelUnshippedOrders` (apps/api/src/orders/orders-cron.service.ts).
use vintage.Prelude.{
  ℕ, ◌≡◌, refl, Bool, true, false, none, some, arith, ◌==◌, ◌&&◌, if◌then◌else◌, not, is_some,
  Option-cases, inl, inr, Option, ◌∷◌,
}
use vintage.Prelude.Int.{pos, neg, ◌+ℤ◌, add_zero}
use vintage.Prelude.Dict.{Dict, lookup, insert, lookup-insert_self}
use vintage.World.{World, Order, OrderStatus, Wallet, Listing, RefundMethod, EntryType, order_is}
use vintage.World.Action.{actions, ok}
use vintage.World.Tables.{orders, claim_wins, update, delete_snapshots}
use vintage.Wallet.{moved}
use vintage.Wallet.Posting.{posted, posted_lem, entry, refund_lem, reverse_lem}
use vintage.Wallet.Reconciliation.{balance_of, moved_lem}
use vintage.OrdersCron.Cancel.{cancel_unshipped_tx}

-- The wallets after the reversal, which is skipped where the seller has no wallet.
abbrev reversed : ℕ → ℕ → Option Wallet → Dict Wallet → Dict Wallet
reversed seller n none d = d
reversed seller n (some x) d = insert seller (moved x (pos 0) (neg n)) d

abbrev refunded : Bool → ℕ → ℕ → Dict Wallet → Dict Wallet
refunded true buyer n d = d
refunded false buyer n d = posted buyer (pos n) (pos 0) d

reversed_balance :
    (s n v : ℕ) (d : Dict Wallet) → balance_of v (reversed s n (lookup s d) d) ≡ balance_of v d
reversed_balance s n v d = elim (Option-cases (lookup s d)) [
  | inl e ↦ rw e refl
  | inr (x, e) ↦
      rw e (ground (arith, moved_lem s v (pos 0) (neg n) x d e, add_zero (balance_of v d)))
]

refunded_balance :
    (b : Bool) (u n v : ℕ) (d : Dict Wallet)
    → balance_of v (refunded b u n d)
      ≡ (if not b && (u == v) then balance_of v d +ℤ pos n else balance_of v d)
refunded_balance true u n v d = refl
refunded_balance false u n v d = (posted_lem u v (pos n) (pos 0) d).0

abbrev claimed_order : Bool → Order → Order
claimed_order b x = record x {
  status = OrderStatus.cancelled;
  refund_method = some (if b then RefundMethod.original_payment else RefundMethod.wallet_credit);
}

abbrev claimed : Bool → ℕ → Order → World → World
claimed b id x w = record w { orders = insert id (claimed_order b x) w.orders }

abbrev reversed_in : ℕ → ℕ → ℕ → Wallet → World → World
reversed_in s n r x w = record w {
  wallets = insert s (moved x (pos 0) (neg n)) w.wallets;
  ledger = entry s EntryType.escrow_release (neg n) r ∷ w.ledger;
}

cancel_unshipped_tx-wallets :
    (b : Bool) (id : ℕ) (o x : Order) (l : Listing) (w : World)
    → lookup id w.orders ≡ some x
    → (order_is x.status OrderStatus.paid && not (is_some x.shipped_at)) ≡ true
    → lookup o.listing w.listings ≡ some l
    → let r = cancel_unshipped_tx b id o w in
      (r.0 ≡ ok tt)
      × (r.1.wallets
          ≡ refunded b o.buyer o.total
              (reversed o.seller o.item_price (lookup o.seller w.wallets) w.wallets))
      × (lookup id r.1.orders ≡ some (claimed_order b x))
unfolding cancel_unshipped_tx update delete_snapshots actions
cancel_unshipped_tx-wallets true id o x l w e t f =
    rw (claim_wins orders id _ _ w e t) (elim (Option-cases (lookup o.seller w.wallets)) [
      | inl g ↦ rw (g, f) (refl, refl, lookup-insert_self id _ w.orders)
      | inr (y, g) ↦ rw g (
          rw (reverse_lem o.seller o.item_price id (claimed true id x w) g)
            (rw f (refl, refl, lookup-insert_self id _ w.orders)))
    ])
cancel_unshipped_tx-wallets false id o x l w e t f =
    rw (claim_wins orders id _ _ w e t) (elim (Option-cases (lookup o.seller w.wallets)) [
      | inl g ↦ rw g (
          rw (refund_lem o.buyer o.total id (claimed false id x w))
            (rw f (refl, refl, lookup-insert_self id _ w.orders)))
      | inr (y, g) ↦ rw g (
          rw (reverse_lem o.seller o.item_price id (claimed false id x w) g) (
            rw
              (refund_lem o.buyer o.total id
                (reversed_in o.seller o.item_price id y (claimed false id x w)))
              (rw f (refl, refl, lookup-insert_self id _ w.orders))))
    ])

-- An order that is cancelled for want of shipping is refunded by exactly one route: where the money
-- went back to its source, no balance changes; where it did not, the balance of the buyer grows by
-- the total of the order and no other balance changes. The order is cancelled and records the route.
pub cancel_unshipped_tx-route :
    (b : Bool) (id v : ℕ) (o x : Order) (l : Listing) (w : World)
    → lookup id w.orders ≡ some x
    → (order_is x.status OrderStatus.paid && not (is_some x.shipped_at)) ≡ true
    → lookup o.listing w.listings ≡ some l
    → let r = cancel_unshipped_tx b id o w in
      (r.0 ≡ ok tt)
      × (lookup id r.1.orders ≡ some (claimed_order b x))
      × (balance_of v r.1.wallets ≡ (
          if not b && (o.buyer == v)
          then balance_of v w.wallets +ℤ pos o.total
          else balance_of v w.wallets))
cancel_unshipped_tx-route b id v o x l w e t f =
    let (done, wallets, order) = cancel_unshipped_tx-wallets b id o x l w e t f in
    (
      done,
      order,
      rw wallets (
          rw
            (refunded_balance b o.buyer o.total v
              (reversed o.seller o.item_price (lookup o.seller w.wallets) w.wallets))
            (rw (reversed_balance o.seller o.item_price v w.wallets) refl)),
    )
