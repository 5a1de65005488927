-- ===== src/OrdersCron/Released.antt =====
-- The job that releases escrow leaves no order behind (`releaseHeldEscrow` of
-- apps/api/src/orders/orders-cron.service.ts).
use vintage.Prelude.{
  ℕ, ◌+◌, ◌≡◌, refl, Bool, true, false, Option, some, none, List, [], ◌∷◌, ◌==◌, ◌||◌, arith,
  Bool-cases, Option-cases, inl, inr, any, subst, sym, ==→eq,
}
use vintage.Prelude.Dict.{Dict, lookup, insert, rows_where, lookup-insert, lookup-insert_self}
use vintage.World.{World, Order, OrderStatus, Referral, Effect, EntryType, order_is}
use vintage.Prelude.Int.{ℤ}
use vintage.World.Action.{actions, for_each, swallow, interleave, emit, ◌>>◌, modify, pure}
use vintage.World.Keeps.{Keeps, Keeps-for_each, keeps_rules}
use vintage.World.Ensures.{bind_lem}
use vintage.World.Tables.{
  orders, Leaves, referrals, table_rules, claim, find_many, delete_snapshots,
}
use vintage.Wallet.{upsert_wallet, update_wallet, create_entry, release_escrow, credit_wallet}
use vintage.CronLock.{acquire, is_free, ttl_ms}
use vintage.Referrals.{credit_reward, credit_referral, credit_if_eligible}
use vintage.Orders.{release_tx, settle_escrow, finalize_escrow}
use vintage.Orders.Release.{release_tx-held, completed, released}
use vintage.OrdersCron.{release_one, release_held_escrow, is_releasable, release_held_lock}

-- The order stands in the table with a status that passes the test.
abbrev pub status_in : (OrderStatus → Bool) → ℕ → Dict Order → Bool
status_in test id d = elim (lookup id d) [ none ↦ false | some o ↦ test o.status ]

abbrev pub is_completed : OrderStatus → Bool
is_completed s = order_is s OrderStatus.completed

abbrev is_due : OrderStatus → Bool
is_due s = order_is s OrderStatus.held || is_completed s

abbrev Stands : (OrderStatus → Bool) → ℕ → World → Type 0
Stands test id w = status_in test id w.orders ≡ true

status_in-insert :
    (test : OrderStatus → Bool) (k id : ℕ) (z : Order) (d : Dict Order)
    → test z.status ≡ true
    → status_in test id d ≡ true
    → status_in test id (insert k z d) ≡ true
status_in-insert test k id z d p h =
    let g = lookup-insert k id z d in
    elim (Bool-cases (k == id)) [
      | inl e ↦ rw (rw e at g, status_in) p
      | inr n ↦ rw (rw n at g, status_in) h
    ]

module _ (test : OrderStatus → Bool) (id : ℕ) where
  update_wallet-Stands : (u : ℕ) (b p : ℤ) → Keeps (Stands test id) (update_wallet u b p)
  unfolding update_wallet
  update_wallet-Stands u b p = record {
    at = λ w h. elim (Option-cases (lookup u w.wallets)) [
      | inl n ↦ rw (n, update_wallet) h
      | inr (x, s) ↦ rw (s, update_wallet) h
    ];
  }

  create_entry-Stands :
      (u : ℕ) (t : EntryType) (a : ℤ) (r : Option ℕ) → Keeps (Stands test id) (create_entry u t a r)
  unfolding create_entry modify
  create_entry-Stands u t a r = record { at = λ w h. h }

  upsert_wallet-Stands : (u : ℕ) → Keeps (Stands test id) (upsert_wallet u)
  unfolding upsert_wallet modify
  upsert_wallet-Stands u = record { at = λ w h. h }

  emit-Stands : (e : Effect) → Keeps (Stands test id) (emit e)
  unfolding emit
  emit-Stands e = record { at = λ w h. h }

  interleave-Stands : Keeps (Stands test id) (interleave (λ v. v))
  unfolding interleave
  interleave-Stands = record { at = λ w h. h }

  delete_snapshots-Stands : (o : ℕ) → Keeps (Stands test id) (delete_snapshots o)
  unfolding delete_snapshots modify
  delete_snapshots-Stands o = record { at = λ w h. h }

  referrals-Stands : Leaves referrals (Stands test id)
  referrals-Stands = record { put_keeps = λ d w h. h; id_keeps = λ w h. h }

  ruleset stand_rules = (
    keeps_rules, table_rules, update_wallet-Stands, create_entry-Stands, upsert_wallet-Stands,
    emit-Stands, interleave-Stands, delete_snapshots-Stands, referrals-Stands,
  )

  credit_reward-Stands : (r u : ℕ) → Keeps (Stands test id) (credit_reward r u)
  unfolding credit_reward credit_wallet
  credit_reward-Stands r u = search stand_rules depth 20

  credit_referral-Stands :
      (k : ℕ) (r : Referral) → Keeps (Stands test id) (credit_referral (λ v. v) k r)
  unfolding credit_referral
  credit_referral-Stands k r = search (stand_rules, credit_reward-Stands) depth 30

  credit_if_eligible-Stands : (u : ℕ) → Keeps (Stands test id) (credit_if_eligible (λ v. v) u)
  unfolding credit_if_eligible
  credit_if_eligible-Stands u = search (stand_rules, credit_referral-Stands) depth 30

  settle_escrow-Stands : (k : ℕ) → Keeps (Stands test id) (settle_escrow k)
  unfolding settle_escrow release_escrow
  settle_escrow-Stands k = search stand_rules depth 30

  -- The claim makes an order completed, which passes the test.
  module _ (passes : test OrderStatus.completed ≡ true) where
    claim-Stands :
        (k now : ℕ)
        → Keeps (Stands test id) (
            claim orders k
              (λ x. order_is x.status OrderStatus.held)
              (λ x. record x {
                status = OrderStatus.completed;
                confirmed_at = some now;
                escrow_releases_at = none;
              }))
    unfolding claim
    claim-Stands k now = record {
      at = λ w h. elim (Option-cases (lookup k w.orders)) [
        | inl n ↦ rw n h
        | inr (x, e) ↦ elim (Bool-cases (order_is x.status OrderStatus.held)) [
          | inl y ↦
              let z = record x {
                status = OrderStatus.completed;
                confirmed_at = some now;
                escrow_releases_at = none;
              } in
              rw e (rw y (status_in-insert test k id z w.orders passes h))
          | inr y ↦ rw e (rw y h)
        ]
      ];
    }

    release_tx-Stands : (k : ℕ) → Keeps (Stands test id) (release_tx k)
    unfolding release_tx
    release_tx-Stands k = search (stand_rules, claim-Stands, settle_escrow-Stands) depth 30

    notify-Stands :
        (k : ℕ) (r : Order)
        → Keeps
            (Stands test id)
            (emit (Effect.notify r.seller k) >> (credit_if_eligible (λ v. v) r.buyer >> pure r))
    notify-Stands k r = search (stand_rules, credit_if_eligible-Stands) depth 20

    finalize_escrow-Stands : (k : ℕ) → Keeps (Stands test id) (finalize_escrow (λ v. v) k)
    unfolding finalize_escrow
    finalize_escrow-Stands k =
        search (stand_rules, release_tx-Stands, credit_if_eligible-Stands) depth 30

-- A round of the loop on an order that is held or completed leaves it completed.
finalize_escrow-completes :
    (id : ℕ) (w : World)
    → Stands is_due id w
    → Stands is_completed id (finalize_escrow (λ v. v) id w).1
unfolding finalize_escrow
finalize_escrow-completes id w h = elim (Option-cases (lookup id w.orders)) [
  | inl n ↦ ground (arith, n, h)
  | inr (o, e) ↦ elim (Bool-cases (order_is o.status OrderStatus.held)) [
    | inl y ↦ rw (bind_lem (release_tx id) _ w (release_tx-held id o w e y)) (
        (notify-Stands is_completed id refl id (completed o w)).at (released id o w)
          (rw (lookup-insert_self id (completed o w) w.orders, status_in) refl))
    | inr n ↦
        let due : is_due o.status ≡ true = rw (e, status_in) at h in
        (finalize_escrow-Stands is_completed id refl id).at w
          (rw (e, status_in) (ground (arith, due, n)))
  ]
]

release_one-completes :
    (id : ℕ) (o : Order) (w : World)
    → Stands is_due id w
    → Stands is_completed id (release_one (λ v. v) (id, o) w).1
unfolding release_one interleave swallow actions
release_one-completes id o w h = finalize_escrow-completes id w h

release_one-Stands :
    (test : OrderStatus → Bool) (id : ℕ)
    → test OrderStatus.completed ≡ true
    → (p : ℕ × Order) → Keeps (Stands test id) (release_one (λ v. v) p)
unfolding release_one interleave swallow actions
release_one-Stands test id passes (k, o) = record {
  at = λ w h. (finalize_escrow-Stands test id passes k).at w h;
}

-- A row of the list is that of the order.
abbrev has_row : ℕ → List (ℕ × Order) → Bool
has_row id rows = any (λ p. p.0 == id) rows

loop-completes :
    (id : ℕ) (rows : List (ℕ × Order)) (w : World)
    → has_row id rows ≡ true
    → Stands is_due id w
    → Stands is_completed id (for_each rows (release_one (λ v. v)) w).1
unfolding for_each release_one interleave swallow actions
loop-completes id [] w r h = cc r
loop-completes id (p ∷ ps) w r h = elim (Bool-cases (p.0 == id)) [
  | inl e ↦
      (Keeps-for_each ps (release_one (λ v. v)) (release_one-Stands is_completed id refl)).at _ (
        subst (λ k. Stands is_completed id (finalize_escrow (λ v. v) k w).1) (sym (==→eq p.0 id e))
          (finalize_escrow-completes id w h))
  | inr n ↦
      loop-completes id ps _ (ground (arith, r, n))
        ((finalize_escrow-Stands is_due id refl p.0).at w h)
]

has_row-rows_where :
    (t : ℕ → Order → Bool) (id : ℕ) (o : Order) (d : Dict Order)
    → lookup id d ≡ some o
    → t id o ≡ true
    → has_row id (rows_where t d) ≡ true
has_row-rows_where t id o [] e h = cc e
has_row-rows_where t id o ((i, v) ∷ d) e h = elim (Bool-cases (i == id)) [
  | inl s ↦
      let q : v ≡ o = ground (arith, e, s) in
      let r : t i v ≡ true =
        subst (λ a. t a v ≡ true) (sym (==→eq i id s)) (subst (λ a. t id a ≡ true) (sym q) h) in
      ground (arith, r, s)
  | inr n ↦
      let rest = has_row-rows_where t id o d (ground (arith, e, n)) h in
      elim (Bool-cases (t i v)) [
        | inl y ↦ ground (arith, y, n, rest)
        | inr y ↦ ground (arith, y, n, rest)
      ]
]

due_lem :
    (id : ℕ) (o : Order) (w : World)
    → lookup id w.orders ≡ some o
    → is_releasable w id o ≡ true
    → Stands is_due id w
due_lem id o w e h = rw (e, status_in) (ground (arith, h))

-- Where the lock of the job is free and no other request comes between, a run of the job that
-- releases escrow completes every order that is held, whose time has come, and that has neither a
-- dispute nor a return.
pub release_held_escrow-completes :
    (id : ℕ) (o : Order) (w : World)
    → is_free w.now (lookup release_held_lock w.locks) ≡ true
    → lookup id w.orders ≡ some o
    → is_releasable w id o ≡ true
    → status_in is_completed id (release_held_escrow (λ v. v) w).1.orders ≡ true
unfolding release_held_escrow acquire find_many actions
release_held_escrow-completes id o w free e h = rw free (
    loop-completes id (rows_where (is_releasable w) w.orders)
      (record w { locks = insert release_held_lock (w.now + ttl_ms) w.locks })
      (has_row-rows_where (is_releasable w) id o w.orders e h) (due_lem id o w e h))
