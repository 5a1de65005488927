-- ===== src/Checkout/Cap.antt =====
-- The use of a coupon by an order (`OrdersService.create` of apps/api/src/orders/orders.service.ts).
use vintage.Prelude.{
  ℕ, ◌+◌, ◌≡◌, refl, Bool, true, false, none, some, arith, Option-cases, Bool-cases, inl, inr,
  subst, sym, leb,
}
use vintage.Prelude.Int.{ℤ}
use vintage.Prelude.Dict.{Dict, lookup, insert, lookup-insert_self}
use vintage.World.{World, Coupon, Listing, Order}
use vintage.World.Action.{actions, ok, pure, throw, Action, ◌>>=◌, ◌>>◌, with_some, modify}
use vintage.World.Keeps.{Keeps, keeps_rules}
use vintage.World.Ensures.{
  Ensures, Ensures-bind, Ensures-keep, Ensures-any, Ensures-after, Ensures-fact,
}
use vintage.World.Tables.{
  coupons, orders, listings, Leaves, table_rules, find_unique, update, create_snapshot,
}
use vintage.Wallet.{upsert_wallet, hold_escrow, update_wallet, create_entry}
use vintage.Checkout.{Quote}
use vintage.Checkout.Place.{is_used_up, is_expired, recheck_coupon, place_order_tx, OrderRequest}

abbrev CouponsAre : Dict Coupon → World → Type 0
CouponsAre d w = w.coupons ≡ d

-- The coupon that the second check lets pass.
abbrev pub Usable : ℕ → Dict Coupon → Coupon → Type 0
Usable c d x = (lookup c d ≡ some x) × (x.is_active ≡ true) × (is_used_up x ≡ false)

recheck-Usable :
    (c : ℕ) (d : Dict Coupon)
    → Ensures
        (CouponsAre d)
        (recheck_coupon c)
        (λ a v. (x : Coupon) × (Usable c d x × CouponsAre d v))
unfolding recheck_coupon find_unique actions pure throw
recheck-Usable c d = record {
  at = λ w p a v e. elim (Option-cases (lookup c w.coupons)) [
    | inl n ↦ cc (rw n at e)
    | inr (x, s) ↦ elim (Bool-cases x.is_active) [
      | inr n ↦ cc (rw n at (rw s at e))
      | inl i ↦ elim (Bool-cases (is_expired x.expires_at w.now)) [
        | inl t ↦ cc (rw t at (rw i at (rw s at e)))
        | inr f ↦ elim (Bool-cases (is_used_up x)) [
          | inl t ↦ cc (rw t at (rw f at (rw i at (rw s at e))))
          | inr u ↦ (
            x,
            (
              (subst (λ y. lookup c y ≡ some x) p s, i, u),
              subst (λ r. r.1.coupons ≡ d) (rw u at (rw f at (rw i at (rw s at e)))) p,
            ),
          )
        ]
      ]
    ]
  ];
}

update_wallet-coupons :
    (u : ℕ) (b p : ℤ) (d : Dict Coupon) → Keeps (CouponsAre d) (update_wallet u b p)
unfolding update_wallet
update_wallet-coupons u b p d = record {
  at = λ w h. elim (Option-cases (lookup u w.wallets)) [
    | inl n ↦ rw (n, update_wallet) h
    | inr (x, s) ↦ rw (s, update_wallet) h
  ];
}

hold-coupons :
    (u n r : ℕ) (d : Dict Coupon) → Keeps (CouponsAre d) (upsert_wallet u >> hold_escrow u n r)
unfolding hold_escrow upsert_wallet create_entry ◌>>=◌ modify
hold-coupons u n r d = search (keeps_rules, update_wallet-coupons) depth 20

abbrev pub bumped : Coupon → Coupon
bumped x = record x { used_count = x.used_count + 1 }

update-coupons :
    (c : ℕ) (d : Dict Coupon) (x : Coupon)
    → lookup c d ≡ some x
    → Ensures (CouponsAre d) (update coupons c bumped) (λ a. CouponsAre (insert c (bumped x) d))
unfolding update
update-coupons c d x s = record {
  at = λ w p a v e.
      subst (λ r. r.1.coupons ≡ insert c (bumped x) d)
        (rw (subst (λ y. lookup c y ≡ some x) (sym p) s) at e) (rw p refl);
}

Leaves-orders : (d : Dict Coupon) → Leaves orders (CouponsAre d)
Leaves-orders d = record { put_keeps = λ t w h. h; id_keeps = λ w h. h }

Leaves-listings : (d : Dict Coupon) → Leaves listings (CouponsAre d)
Leaves-listings d = record { put_keeps = λ t w h. h; id_keeps = λ w h. h }

snapshot-coupons : (d : Dict Coupon) (id : ℕ) → Keeps (CouponsAre d) (create_snapshot id)
unfolding create_snapshot modify
snapshot-coupons d id = record { at = λ w h. h }

ruleset coupon_rules =
    (keeps_rules, table_rules, Leaves-orders, Leaves-listings, snapshot-coupons, hold-coupons)

-- The use is counted.
abbrev Used : ℕ → Dict Coupon → World → Type 0
Used c d v = (x : Coupon) × (Usable c d x × CouponsAre (insert c (bumped x) d) v)

use_lem :
    {A : Type 0} (c : ℕ) (d : Dict Coupon) (x : Coupon) (m : Action A)
    → Usable c d x
    → Keeps (CouponsAre (insert c (bumped x) d)) m
    → Ensures (CouponsAre d) (update coupons c bumped >> m) (λ a. Used c d)
use_lem c d x m u k =
    Ensures-bind (λ a. CouponsAre (insert c (bumped x) d)) (update-coupons c d x u.0)
      (λ a. record { at = λ w p b v e. (x, (u, (Ensures-keep k).at w p b v e)) })

pub place-Used :
    (buyer c : ℕ) (r : OrderRequest) (l : Listing) (q : Quote) (d : Dict Coupon)
    → Ensures (CouponsAre d) (place_order_tx buyer r l q (some c)) (λ a. Used c d)
unfolding place_order_tx with_some
place-Used buyer c r l q d = Ensures-after (search coupon_rules) (λ found.
    Ensures-after (search coupon_rules) (λ fresh. Ensures-after (search coupon_rules) (λ a.
      Ensures-bind (λ a v. (x : Coupon) × (Usable c d x × CouponsAre d v)) (recheck-Usable c d)
        (λ a. Ensures-any {F = λ x v. Usable c d x × CouponsAre d v} (λ x. Ensures-fact (λ u.
          Ensures-after (search coupon_rules) (λ taken. Ensures-after (search coupon_rules) (λ a.
            Ensures-after (search coupon_rules) (λ now. Ensures-after (search coupon_rules) (λ id.
              Ensures-after (search coupon_rules) (λ a.
                Ensures-after (search coupon_rules)
                  (λ a. use_lem c d x _ u (search coupon_rules depth 20)))))))))))))

-- The uses of a coupon do not exceed its cap.
abbrev pub is_within : Coupon → Bool
is_within x = elim x.max_uses [ none ↦ true | some n ↦ leb x.used_count n ]

pub within_lem : (x : Coupon) → is_used_up x ≡ false → is_within (bumped x) ≡ true
within_lem x h = ground (arith, h)

-- An order that is placed with a coupon finds the coupon active, counts one use of it, and leaves
-- the uses within the coupon's cap.
place_order_tx-coupon :
    (buyer c : ℕ) (r : OrderRequest) (l : Listing) (q : Quote) (w v : World) (p : ℕ × Order)
    → place_order_tx buyer r l q (some c) w ≡ (ok p, v)
    → (x : Coupon) × ((lookup c w.coupons ≡ some x)
        × (x.is_active ≡ true)
        × (lookup c v.coupons ≡ some (bumped x))
        × (is_within (bumped x) ≡ true))
place_order_tx-coupon buyer c r l q w v p e =
    let (x, (u, t)) = (place-Used buyer c r l q w.coupons).at w refl p v e in
    (x, (u.0, u.1, rw t (lookup-insert_self c (bumped x) w.coupons), within_lem x u.2))
