-- ===== src/Returns/Refund.antt =====
-- The refund of a return (`inspectApprove` of apps/api/src/returns/returns.service.ts).
use vintage.Prelude.{
  eq_self, ℕ, ◌≡◌, refl, true, false, none, some, not, ◌∷◌, ◌==◌, filter, arith, if◌then◌else◌,
}
use vintage.Prelude.Int.{pos, neg, ◌+ℤ◌, add_zero}
use vintage.Prelude.Dict.{Dict, lookup, insert, lookup-insert_self}
use vintage.World.{
  World, Wallet, Order, OrderReturn, OrderStatus, ReturnStatus, EntryType, Effect, return_is,
}
use vintage.World.Action.{actions, pure, ok}
use vintage.World.Tables.{returns, claim_wins, update, find_unique, find_or_throw, delete_snapshots}
use vintage.Provider.{Provider, refund_payment}
use vintage.Wallet.{
  upsert_wallet, reverse_escrow, refund_wallet, has_refund, update_wallet, create_entry,
}
use vintage.Wallet.Posting.{posted, posted_lem, entry, lookup-ensure}
use vintage.Wallet.Reconciliation.{balance_of, pending_of}
use vintage.Returns.Inspect.{refund_return_tx, inspect_approve}

abbrev inspected : OrderReturn → World → OrderReturn
inspected r w = record r { status = ReturnStatus.refunded; inspected_at = some w.now }

abbrev refunded_order : Order → Order
refunded_order x = record x { status = OrderStatus.refunded; escrow_releases_at = none }

-- The state when the escrow is reversed.
abbrev reversed : ℕ → ℕ → OrderReturn → Order → Order → World → World
reversed id order r o x w = record w {
  returns = insert id (inspected r w) w.returns;
  orders = insert order (refunded_order x) w.orders;
  wallets = posted o.seller (pos 0) (neg o.item_price) w.wallets;
  ledger = entry o.seller EntryType.escrow_release (neg o.item_price) order ∷ w.ledger;
}

abbrev refunded : ℕ → ℕ → OrderReturn → Order → Order → World → World
refunded id order r o x w = record (reversed id order r o x w) {
  wallets =
      posted o.buyer (pos o.total) (pos 0) (posted o.seller (pos 0) (neg o.item_price) w.wallets);
  ledger =
      entry o.buyer EntryType.refund (pos o.total) order
      ∷ (entry o.seller EntryType.escrow_release (neg o.item_price) order ∷ w.ledger);
  snapshots = filter (λ s. not (s == order)) w.snapshots;
}

no_refund :
    (u order n s : ℕ) (w : World)
    → has_refund u order w ≡ false
    → has_refund u order
        (record w { ledger = entry s EntryType.escrow_release (neg n) order ∷ w.ledger })
      ≡ false
no_refund u order n s w h = ground (arith, h)

refund_return_tx-received :
    (id order : ℕ) (r : OrderReturn) (o x : Order) (w : World)
    → lookup id w.returns ≡ some r
    → return_is r.status ReturnStatus.received ≡ true
    → lookup order w.orders ≡ some x
    → has_refund o.buyer order w ≡ false
    → refund_return_tx id order o w ≡ (ok tt, refunded id order r o x w)
unfolding refund_return_tx update delete_snapshots upsert_wallet reverse_escrow refund_wallet
    update_wallet create_entry actions
refund_return_tx-received id order r o x w e t f h =
    rw
      (claim_wins returns id (λ y. return_is y.status ReturnStatus.received) (λ y. inspected y w) w
        e t)
      (rw f (
        rw (lookup-ensure o.seller w.wallets, update_wallet)
          (rw (no_refund o.buyer order o.item_price o.seller w h) (
            rw
              (
                lookup-ensure o.buyer (posted o.seller (pos 0) (neg o.item_price) w.wallets),
                update_wallet,
              )
              refl))))

balance_lem :
    (o : Order) (v : ℕ) (d : Dict Wallet)
    → balance_of v
        (posted o.buyer (pos o.total) (pos 0) (posted o.seller (pos 0) (neg o.item_price) d))
      ≡ (if o.buyer == v then balance_of v d +ℤ pos o.total else balance_of v d)
balance_lem o v d =
    let d1 = posted o.seller (pos 0) (neg o.item_price) d in
    ground (
      arith,
      (posted_lem o.buyer v (pos o.total) (pos 0) d1).0,
      (posted_lem o.seller v (pos 0) (neg o.item_price) d).0,
      add_zero (balance_of v d),
    )

pending_lem :
    (o : Order) (v : ℕ) (d : Dict Wallet)
    → pending_of v
        (posted o.buyer (pos o.total) (pos 0) (posted o.seller (pos 0) (neg o.item_price) d))
      ≡ (if o.seller == v then pending_of v d +ℤ neg o.item_price else pending_of v d)
pending_lem o v d =
    let d1 = posted o.seller (pos 0) (neg o.item_price) d in
    ground (
      arith,
      (posted_lem o.buyer v (pos o.total) (pos 0) d1).1,
      (posted_lem o.seller v (pos 0) (neg o.item_price) d).1,
      add_zero (pending_of v d1),
    )

-- The refund of a received return, where the buyer had no refund for the order yet: the return and
-- the order are refunded, the balance of the buyer grows by the total of the order, the escrow of
-- the seller shrinks by the price of the item, and no other amount of any user changes.
pub refund_return_tx-refunds :
    (id order v : ℕ) (r : OrderReturn) (o x : Order) (w : World)
    → lookup id w.returns ≡ some r
    → return_is r.status ReturnStatus.received ≡ true
    → lookup order w.orders ≡ some x
    → has_refund o.buyer order w ≡ false
    → let c = refund_return_tx id order o w in
      (c.0 ≡ ok tt)
      × (lookup id c.1.returns ≡ some (inspected r w))
      × (lookup order c.1.orders ≡ some (refunded_order x))
      × (balance_of v c.1.wallets ≡ (
          if o.buyer == v then balance_of v w.wallets +ℤ pos o.total else balance_of v w.wallets))
      × (pending_of v c.1.wallets ≡ (
          if o.seller == v
          then pending_of v w.wallets +ℤ neg o.item_price
          else pending_of v w.wallets))
refund_return_tx-refunds id order v r o x w e t f h =
    rw (refund_return_tx-received id order r o x w e t f h) (
      refl,
      lookup-insert_self id (inspected r w) w.returns,
      lookup-insert_self order (refunded_order x) w.orders,
      balance_lem o v w.wallets,
      pending_lem o v w.wallets,
    )

inspect_approve-state :
    (mp : Provider) (id p : ℕ) (r : OrderReturn) (o : Order) (w : World)
    → lookup id w.returns ≡ some r
    → return_is r.status ReturnStatus.received ≡ true
    → lookup r.order w.orders ≡ some o
    → has_refund o.buyer r.order w ≡ false
    → o.payment_id ≡ some p
    → mp.refund_accepted p o.total ≡ true
    → let v = refunded id r.order r o o w in
      (inspect_approve (λ u. u) mp id o.seller w).1 ≡ (record v {
        outbox =
            Effect.notify o.buyer id
            ∷ (Effect.audit id ∷ (Effect.provider_refund p o.total ∷ w.outbox));
      })
unfolding inspect_approve find_unique find_or_throw refund_payment actions pure
inspect_approve-state mp id p r o w e t f h q a = rw e (
    rw f (
      rw (eq_self o.seller, t)
        (rw (refund_return_tx-received id r.order r o o w e t f h)
          (rw q (rw a (rw (lookup-insert_self id (inspected r w) w.returns) refl))))))

-- Where the seller approves a received return and no other request comes between, an order that was
-- paid at the provider is paid back twice if the provider accepts the refund: the balance of the
-- buyer grows by the total of the order, and the provider is asked to give the same total back.
pub inspect_approve-twice :
    (mp : Provider) (id p : ℕ) (r : OrderReturn) (o : Order) (w : World)
    → lookup id w.returns ≡ some r
    → return_is r.status ReturnStatus.received ≡ true
    → lookup r.order w.orders ≡ some o
    → has_refund o.buyer r.order w ≡ false
    → o.payment_id ≡ some p
    → mp.refund_accepted p o.total ≡ true
    → let v = (inspect_approve (λ u. u) mp id o.seller w).1 in
      (balance_of o.buyer v.wallets ≡ balance_of o.buyer w.wallets +ℤ pos o.total)
      × (v.outbox
          ≡ Effect.notify o.buyer id
            ∷ (Effect.audit id ∷ (Effect.provider_refund p o.total ∷ w.outbox)))
inspect_approve-twice mp id p r o w e t f h q a =
    rw (inspect_approve-state mp id p r o w e t f h q a)
      (rw (balance_lem o o.buyer w.wallets) (rw (eq_self o.buyer) refl), refl)
