-- ===== src/Checkout/Retry.antt =====
-- A retry under an idempotency key (`OrdersService.create` of apps/api/src/orders/orders.service.ts).
use vintage.Prelude.{
  ℕ, ◌≡◌, refl, sym, ap, ◌∙◌, Bool, true, false, Option, some, Option-cases, inl, inr, eq_self,
}
use vintage.Prelude.Int.{ℤ}
use vintage.Prelude.Dict.{Dict, lookup, insert, any_row, find-insert}
use vintage.World.{World, Listing, Order}
use vintage.World.Action.{Exception, actions, ok, pure, throw, throw_if, gets, ◌>>=◌, ◌>>◌, modify}
use vintage.World.Keeps.{Keeps, keeps_rules}
use vintage.World.Ensures.{Ensures, Ensures-bind, Ensures-fact, Ensures-after, Ensures-returns}
use vintage.World.Tables.{
  coupons, orders, listings, Leaves, table_rules, find_first, create, create_snapshot,
}
use vintage.Wallet.{upsert_wallet, hold_escrow, update_wallet, create_entry}
use vintage.Checkout.{Quote}
use vintage.Checkout.Place.{
  has_key, new_order, recheck_coupon, place_order_tx, create_order, OrderRequest,
}

abbrev OrdersAre : Dict Order → World → Type 0
OrdersAre d w = w.orders ≡ d

Leaves-coupons : (d : Dict Order) → Leaves coupons (OrdersAre d)
Leaves-coupons d = record { put_keeps = λ t w h. h; id_keeps = λ w h. h }

Leaves-listings : (d : Dict Order) → Leaves listings (OrdersAre d)
Leaves-listings d = record { put_keeps = λ t w h. h; id_keeps = λ w h. h }

snapshot-orders : (d : Dict Order) (id : ℕ) → Keeps (OrdersAre d) (create_snapshot id)
unfolding create_snapshot modify
snapshot-orders d id = record { at = λ w h. h }

update_wallet-orders :
    (u : ℕ) (b p : ℤ) (d : Dict Order) → Keeps (OrdersAre d) (update_wallet u b p)
unfolding update_wallet
update_wallet-orders u b p d = record {
  at = λ w h. elim (Option-cases (lookup u w.wallets)) [
    | inl n ↦ rw (n, update_wallet) h
    | inr (x, s) ↦ rw (s, update_wallet) h
  ];
}

hold-orders :
    (u n r : ℕ) (d : Dict Order) → Keeps (OrdersAre d) (upsert_wallet u >> hold_escrow u n r)
unfolding hold_escrow upsert_wallet create_entry ◌>>=◌ modify
hold-orders u n r d = search (keeps_rules, update_wallet-orders) depth 20

recheck-orders : (c : ℕ) (d : Dict Order) → Keeps (OrdersAre d) (recheck_coupon c)
unfolding recheck_coupon
recheck-orders c d = search (keeps_rules, table_rules) depth 20

ruleset order_rules = (
  keeps_rules, table_rules, Leaves-coupons, Leaves-listings, snapshot-orders, hold-orders,
  recheck-orders,
)

-- The test on the key, and the write of the order.
gets-Ensures :
    {A : Type 0} (f : Dict Order → A) (d : Dict Order)
    → Ensures (OrdersAre d) (gets (λ w. f w.orders)) (λ a w. (a ≡ f d) × OrdersAre d w)
unfolding gets
gets-Ensures f d = Ensures-returns (λ a w. (a ≡ f d) × OrdersAre d w) (λ w p. (ap f p, p))

throw_if-Ensures :
    (b : Bool) (x : Exception) (d : Dict Order)
    → Ensures (OrdersAre d) (throw_if b x) (λ a w. (b ≡ false) × OrdersAre d w)
unfolding throw_if throw pure
throw_if-Ensures true x d = Ensures-returns (λ a w. (true ≡ false) × OrdersAre d w) (λ w p. tt)
throw_if-Ensures false x d =
    Ensures-returns (λ a w. (false ≡ false) × OrdersAre d w) (λ w p. (refl, p))

create-Ensures :
    (o : Order) (d : Dict Order)
    → Ensures (OrdersAre d) (create orders o) (λ id. OrdersAre (insert id o d))
unfolding create
create-Ensures o d = Ensures-returns (λ id. OrdersAre (insert id o d)) (λ w p. rw p refl)

-- The order is the only one of the buyer under the key.
abbrev Added : ℕ → Option ℕ → Dict Order → ℕ × Order → World → Type 0
Added buyer key d a v =
    (any_row (has_key buyer key) d ≡ false)
    × (has_key buyer key a.1 ≡ true)
    × OrdersAre (insert a.0 a.1 d) v

pure-Added :
    (buyer : ℕ) (key : Option ℕ) (id : ℕ) (o : Order) (d : Dict Order)
    → any_row (has_key buyer key) d ≡ false
    → has_key buyer key o ≡ true
    → Ensures (OrdersAre (insert id o d)) (pure (id, o)) (Added buyer key d)
unfolding pure
pure-Added buyer key id o d f t = Ensures-returns (Added buyer key d) (λ w p. (f, t, p))

has_key-new_order :
    (now buyer k : ℕ) (r : OrderRequest) (l : Listing) (q : Quote) (c : Option ℕ)
    → r.idempotency_key ≡ some k
    → has_key buyer r.idempotency_key (new_order now buyer r l q c) ≡ true
has_key-new_order now buyer k r l q c e = rw e (rw (eq_self buyer) (rw (eq_self k) refl))

place-Added :
    (buyer k : ℕ) (r : OrderRequest) (l : Listing) (q : Quote) (c : Option ℕ) (d : Dict Order)
    → r.idempotency_key ≡ some k
    → Ensures (OrdersAre d) (place_order_tx buyer r l q c) (Added buyer r.idempotency_key d)
unfolding place_order_tx
place-Added buyer k r l q c d key = Ensures-after (search order_rules) (λ found.
    Ensures-after (search order_rules) (λ fresh. Ensures-after (search order_rules) (λ a.
      Ensures-after (search order_rules) (λ a.
        Ensures-bind (λ a w. (a ≡ any_row (has_key buyer r.idempotency_key) d) × OrdersAre d w)
          (gets-Ensures (any_row (has_key buyer r.idempotency_key)) d)
          (λ taken. Ensures-fact (λ t.
            Ensures-bind (λ a w. (taken ≡ false) × OrdersAre d w) (throw_if-Ensures taken _ d)
              (λ a. Ensures-fact (λ f. Ensures-after (search order_rules) (λ now.
                let o = new_order now buyer r l q c in
                Ensures-bind (λ id. OrdersAre (insert id o d)) (create-Ensures o d)
                  (λ id. Ensures-after (search order_rules) (λ a.
                    Ensures-after (search order_rules) (λ a.
                      Ensures-after (search order_rules) (λ a.
                        Ensures-after (search order_rules depth 20) (λ a.
                          pure-Added buyer r.idempotency_key id o d (sym t ∙ f)
                            (has_key-new_order now buyer k r l q c key)))))))))))))))

-- A request that has placed an order under an idempotency key and is sent again gets the same order
-- back, and nothing is written.
pub create_order-retry :
    (other : World → World) (to_fixed : ℕ → ℕ) (buyer k : ℕ) (r : OrderRequest) (l : Listing)
    (q : Quote) (c : Option ℕ) (w v : World) (p : ℕ × Order)
    → r.idempotency_key ≡ some k
    → place_order_tx buyer r l q c w ≡ (ok p, v)
    → create_order other to_fixed buyer r v ≡ (ok p, v)
unfolding create_order find_first actions pure
create_order-retry other to_fixed buyer k r l q c w v p key e =
    let (f, t, s) = (place-Added buyer k r l q c w.orders key).at w refl p v e in
    rw s (rw (find-insert (has_key buyer r.idempotency_key) p.0 p.1 w.orders f t) refl)
