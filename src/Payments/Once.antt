-- ===== src/Payments/Once.antt =====
-- The transaction of `processApprovedPayment` (apps/api/src/payments/payments.service.ts).
use vintage.Prelude.{
  ℕ, ◌≡◌, refl, true, false, none, some, ◌∷◌, arith, ◌==◌, if◌then◌else◌, Option-cases, Bool-cases,
  inl, inr,
}
use vintage.Prelude.Int.{pos, ◌+ℤ◌, add_zero}
use vintage.Prelude.Dict.{lookup, insert, lookup-insert_self}
use vintage.World.{World, Order, OrderStatus, EntryType, order_is}
use vintage.World.Action.{Exception, actions, ok, err, ◌>>◌, transaction}
use vintage.World.Tables.{orders, claim_wins, claim_loses, claim_misses}
use vintage.Wallet.{hold_escrow, upsert_wallet}
use vintage.Wallet.Posting.{posted, posted_lem, entry, post_lem}
use vintage.Wallet.Reconciliation.{balance_of, pending_of}
use vintage.Payments.{is_processed, add_webhook, mark_succeeded, open_escrow_tx}

hold_lem :
    (u n r : ℕ) (w : World)
    → (upsert_wallet u >> hold_escrow u n r) w ≡ (
      ok tt,
      record w {
        wallets = posted u (pos 0) (pos n) w.wallets;
        ledger = entry u EntryType.escrow_hold (pos n) r ∷ w.ledger;
      },
    )
unfolding hold_escrow
hold_lem u n r w = post_lem u r EntryType.escrow_hold (pos n) (pos 0) (pos n) w

abbrev paid : Order → Order
paid x = record x { status = OrderStatus.paid }

-- The state after the flip, before the escrow is opened.
abbrev flipped : ℕ → ℕ → ℕ → Order → World → World
flipped delivery payment id x w =
    (mark_succeeded id payment
      (record (add_webhook delivery w).1 { orders = insert id (paid x) w.orders })).1

open_escrow_tx-pending :
    (delivery payment id : ℕ) (o x : Order) (w : World)
    → is_processed delivery w ≡ false
    → lookup id w.orders ≡ some x
    → order_is x.status OrderStatus.pending ≡ true
    → let v = flipped delivery payment id x w in
      open_escrow_tx delivery payment id o w ≡ (
        ok tt,
        record v {
          wallets = posted o.seller (pos 0) (pos o.item_price) w.wallets;
          ledger = entry o.seller EntryType.escrow_hold (pos o.item_price) id ∷ w.ledger;
        },
      )
unfolding open_escrow_tx add_webhook mark_succeeded actions
open_escrow_tx-pending delivery payment id o x w p e t = rw p (
    rw
      (claim_wins orders id (λ y. order_is y.status OrderStatus.pending) paid
        ((add_webhook delivery w).1) e t)
      (rw (hold_lem o.seller o.item_price id (flipped delivery payment id x w)) refl))

-- The first delivery of an approved payment on a pending order marks the order as paid, records the
-- delivery, puts the price of the item into the escrow of the seller, and changes no balance and no
-- other user's escrow.
pub open_escrow_tx-opens :
    (delivery payment id v : ℕ) (o x : Order) (w : World)
    → is_processed delivery w ≡ false
    → lookup id w.orders ≡ some x
    → order_is x.status OrderStatus.pending ≡ true
    → let r = transaction (open_escrow_tx delivery payment id o) w in
      (r.0 ≡ ok tt)
      × (lookup id r.1.orders ≡ some (paid x))
      × (is_processed delivery r.1 ≡ true)
      × (balance_of v r.1.wallets ≡ balance_of v w.wallets)
      × (pending_of v r.1.wallets ≡ (
          if o.seller == v
          then pending_of v w.wallets +ℤ pos o.item_price
          else pending_of v w.wallets))
unfolding transaction add_webhook mark_succeeded actions
open_escrow_tx-opens delivery payment id v o x w p e t =
    let posting = posted_lem o.seller v (pos 0) (pos o.item_price) w.wallets in
    rw (open_escrow_tx-pending delivery payment id o x w p e t) (
      refl,
      lookup-insert_self id (paid x) w.orders,
      ground arith,
      ground (arith, posting.0, add_zero (balance_of v w.wallets)),
      posting.1,
    )

-- The transaction on an order that is no longer pending.
open_escrow_tx-settled :
    (delivery payment id : ℕ) (o x : Order) (w : World)
    → lookup id w.orders ≡ some x
    → order_is x.status OrderStatus.pending ≡ false
    → transaction (open_escrow_tx delivery payment id o) w ≡ (err Exception.race_signal, w)
unfolding open_escrow_tx add_webhook actions
open_escrow_tx-settled delivery payment id o x w e f = elim (Bool-cases (is_processed delivery w)) [
  | inl p ↦ rw p refl
  | inr p ↦ rw p (
      rw
        (claim_loses orders id (λ y. order_is y.status OrderStatus.pending) paid
          ((add_webhook delivery w).1) e f)
        refl)
]

open_escrow_tx-processed :
    (delivery payment id : ℕ) (o : Order) (w : World)
    → is_processed delivery w ≡ true
    → transaction (open_escrow_tx delivery payment id o) w ≡ (err Exception.race_signal, w)
unfolding open_escrow_tx actions
open_escrow_tx-processed delivery payment id o w p = rw p refl

open_escrow_tx-missing :
    (delivery payment id : ℕ) (o : Order) (w : World)
    → is_processed delivery w ≡ false
    → lookup id w.orders ≡ none
    → transaction (open_escrow_tx delivery payment id o) w ≡ (err Exception.race_signal, w)
unfolding open_escrow_tx add_webhook actions
open_escrow_tx-missing delivery payment id o w p e = rw p (
    rw
      (claim_misses orders id (λ y. order_is y.status OrderStatus.pending) paid
        ((add_webhook delivery w).1) e)
      refl)

transaction-pending :
    (delivery payment id : ℕ) (o x : Order) (w : World)
    → is_processed delivery w ≡ false
    → lookup id w.orders ≡ some x
    → order_is x.status OrderStatus.pending ≡ true
    → lookup id (transaction (open_escrow_tx delivery payment id o) w).1.orders ≡ some (paid x)
transaction-pending delivery payment id o x w p e t =
    (open_escrow_tx-opens delivery payment id 0 o x w p e t).1

-- After a delivery has opened the escrow of an order, no delivery, be it the same one again or
-- another one for the same order, opens a second one: it is refused and nothing is written.
pub open_escrow_tx-once :
    (d p e q id : ℕ) (o u : Order) (w : World)
    → (transaction (open_escrow_tx d p id o) w).0 ≡ ok tt
    → let w1 = (transaction (open_escrow_tx d p id o) w).1 in
      transaction (open_escrow_tx e q id u) w1 ≡ (err Exception.race_signal, w1)
open_escrow_tx-once d p e q id o u w h = elim (Bool-cases (is_processed d w)) [
  | inl t ↦ absurd (cc (h, open_escrow_tx-processed d p id o w t))
  | inr f ↦ elim (Option-cases (lookup id w.orders)) [
    | inl n ↦ absurd (cc (h, open_escrow_tx-missing d p id o w f n))
    | inr (x, s) ↦ elim (Bool-cases (order_is x.status OrderStatus.pending)) [
      | inl g ↦
          open_escrow_tx-settled e q id u (paid x) ((transaction (open_escrow_tx d p id o) w).1)
            (transaction-pending d p id o x w f s g) refl
      | inr g ↦ absurd (cc (h, open_escrow_tx-settled d p id o x w s g))
    ]
  ]
]
