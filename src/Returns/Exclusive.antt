-- ===== src/Returns/Exclusive.antt =====
-- The transactions that open a dispute and a return on an order
-- (apps/api/src/disputes/disputes.service.ts, apps/api/src/returns/returns.service.ts).
use vintage.Prelude.{
  eq_self, ℕ, ◌+◌, ◌≡◌, refl, true, false, none, some, ◌==◌, ◌||◌, arith, Option-cases, Bool-cases,
  inl, inr,
}
use vintage.Prelude.Dict.{lookup, insert, any_row-insert, lookup-insert_self}
use vintage.World.{World, Order, OrderStatus, order_is}
use vintage.World.Action.{Exception, actions, ok, err, pure, throw}
use vintage.World.Tables.{create, update, find_unique, has_dispute, has_return}
use vintage.OrdersCron.{open_dispute}
use vintage.Disputes.{open_dispute_tx}
use vintage.Returns.Request.{open_return_tx, new_return}

either :
    (id : ℕ) (w : World) → has_dispute id w ≡ true → (has_return id w || has_dispute id w) ≡ true
either id w h = ground (arith, h)

-- A dispute is refused where the order has a return, and a return where it has either.
open_dispute_tx-blocked :
    (id b r : ℕ) (o : Order) (w : World)
    → lookup id w.orders ≡ some o
    → has_return id w ≡ true
    → open_dispute_tx id b r w ≡ (err Exception.conflict, w)
unfolding open_dispute_tx actions throw pure
open_dispute_tx-blocked id b r o w e h = elim (Bool-cases (has_dispute id w)) [
  | inl t ↦ rw (e, t) refl
  | inr f ↦ rw (e, f) (rw h refl)
]

open_return_tx-blocked :
    (id b r : ℕ) (o : Order) (w : World)
    → lookup id w.orders ≡ some o
    → (has_return id w || has_dispute id w) ≡ true
    → open_return_tx id b r w ≡ (err Exception.conflict, w)
unfolding open_return_tx actions throw pure
open_return_tx-blocked id b r o w e h = rw (e, h) refl

abbrev with_return : ℕ → ℕ → ℕ → World → World
with_return id b r w = record w {
  next_id = w.next_id + 1;
  returns = insert w.next_id (new_return id b r) w.returns;
}

open_return_tx-opens :
    (id b r : ℕ) (o : Order) (w : World)
    → lookup id w.orders ≡ some o
    → (has_return id w || has_dispute id w) ≡ false
    → open_return_tx id b r w ≡ (ok w.next_id, with_return id b r w)
unfolding open_return_tx create actions throw pure
open_return_tx-opens id b r o w e h = rw (e, h) refl

has_return-with_return : (id b r : ℕ) (w : World) → has_return id (with_return id b r w) ≡ true
has_return-with_return id b r w =
    any_row-insert (λ x. x.order == id) w.next_id (new_return id b r) w.returns (eq_self id)

open_return_tx-missing :
    (id b r : ℕ) (w : World)
    → lookup id w.orders ≡ none
    → open_return_tx id b r w ≡ (err Exception.not_found, w)
unfolding open_return_tx actions throw pure
open_return_tx-missing id b r w e = rw e refl

-- Once a return is opened on an order, neither a dispute nor a second return is: both are refused
-- with a conflict, and nothing is written.
pub open_return_tx-exclusive :
    (id b r b' r' k : ℕ) (w : World)
    → (open_return_tx id b r w).0 ≡ ok k
    → let w1 = (open_return_tx id b r w).1 in
      (open_dispute_tx id b' r' w1 ≡ (err Exception.conflict, w1))
      × (open_return_tx id b' r' w1 ≡ (err Exception.conflict, w1))
open_return_tx-exclusive id b r b' r' k w h = elim (Option-cases (lookup id w.orders)) [
  | inl n ↦ absurd (cc (h, open_return_tx-missing id b r w n))
  | inr (o, e) ↦ elim (Bool-cases (has_return id w || has_dispute id w)) [
    | inl t ↦ absurd (cc (h, open_return_tx-blocked id b r o w e t))
    | inr f ↦ rw (open_return_tx-opens id b r o w e f) (
      open_dispute_tx-blocked id b' r' o (with_return id b r w) e (has_return-with_return id b r w),
      open_return_tx-blocked id b' r' o (with_return id b r w) e
          (rw (has_return-with_return id b r w) refl),
    )
  ]
]

abbrev disputed : Order → Order
disputed o = record o { status = OrderStatus.disputed }

abbrev with_dispute : ℕ → ℕ → ℕ → Order → World → World
with_dispute id b r o w = record w {
  next_id = w.next_id + 1;
  disputes = insert w.next_id (open_dispute id b r) w.disputes;
  orders = insert id (disputed o) w.orders;
}

open_dispute_tx-opens :
    (id b r : ℕ) (o : Order) (w : World)
    → lookup id w.orders ≡ some o
    → order_is o.status OrderStatus.delivered ≡ true
    → has_return id w ≡ false
    → has_dispute id w ≡ false
    → open_dispute_tx id b r w ≡ (ok w.next_id, with_dispute id b r o w)
unfolding open_dispute_tx find_unique create update actions throw pure
open_dispute_tx-opens id b r o w e t f g = rw (e, g) (rw f (rw e (rw (t, update) (rw e refl))))

has_dispute-with_dispute :
    (id b r : ℕ) (o : Order) (w : World) → has_dispute id (with_dispute id b r o w) ≡ true
has_dispute-with_dispute id b r o w =
    any_row-insert (λ x. x.order == id) w.next_id (open_dispute id b r) w.disputes (eq_self id)

open_dispute_tx-taken :
    (id b r : ℕ) (o : Order) (w : World)
    → lookup id w.orders ≡ some o
    → has_dispute id w ≡ true
    → open_dispute_tx id b r w ≡ (err Exception.conflict, w)
unfolding open_dispute_tx actions throw pure
open_dispute_tx-taken id b r o w e h = rw (e, h) refl

-- A dispute opens on a delivered order that has neither a return nor a dispute: the order is then
-- disputed, and neither a return nor a second dispute is opened, but refused with a conflict.
open_dispute_tx-exclusive :
    (id b r b' r' : ℕ) (o : Order) (w : World)
    → lookup id w.orders ≡ some o
    → order_is o.status OrderStatus.delivered ≡ true
    → has_return id w ≡ false
    → has_dispute id w ≡ false
    → let r0 = open_dispute_tx id b r w in
      (r0.0 ≡ ok w.next_id)
      × (lookup id r0.1.orders ≡ some (disputed o))
      × (open_return_tx id b' r' r0.1 ≡ (err Exception.conflict, r0.1))
      × (open_dispute_tx id b' r' r0.1 ≡ (err Exception.conflict, r0.1))
open_dispute_tx-exclusive id b r b' r' o w e t f g =
    let found = lookup-insert_self id (disputed o) w.orders in
    let v = with_dispute id b r o w in
    let h = has_dispute-with_dispute id b r o w in
    rw (open_dispute_tx-opens id b r o w e t f g) (
      refl,
      found,
      open_return_tx-blocked id b' r' (disputed o) v found (either id v h),
      open_dispute_tx-taken id b' r' (disputed o) v found h,
    )
