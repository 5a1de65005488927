-- ===== src/System/Single.antt =====
-- The pending attempts to pay an order, under schedules of requests.
use vintage.Prelude.{
  Option, ℕ, ◌≡◌, ◌≤◌, refl, Bool, true, not, ◌||◌, ◌&&◌, ◌==◌, arith, Option-cases, Bool-cases,
  inl, inr,
}
use vintage.Prelude.Dict.{lookup}
use vintage.Prelude.Counts.{
  count, count-insert, count-insert_other, count-insert_found, count-map_where,
}
use vintage.World.{World, Listing, Payment, PaymentMethod, PaymentStatus}
use vintage.World.Keeps.{Keeps, Keeps-transaction, keeps_rules}
use vintage.World.Ensures.{
  Ensures, Ensures-after, Ensures-bind, Ensures-gets, Ensures-throw_if, Ensures-post,
  Ensures-returns, Keeps-ensured,
}
use vintage.World.Tables.{
  Leaves, coupons, offers, payments, table_rules, update, claim, update_many, create,
}
use vintage.Payments.{mark_succeeded, is_value}
use vintage.Payments.Attempts.{
  is_pending, in_flight, validate_amount, new_attempt, reserve_attempt, bind_provider,
  abandon_attempt, fail_pending, fail_where,
}
use vintage.System.{Env, Schedule, run}
use vintage.Offers.{decide_offer, reject_offers}
use vintage.Checkout.{Quote}
use vintage.Checkout.Place.{OrderRequest, place_order_tx}
use vintage.System.Invariant.{wallets_apart, Writes, Invariant, basic_rules}
use vintage.System.Transactions.{transaction_rules}
use vintage.System.Rows.{row_writes}
use vintage.System.Whole.{tokens_apart}
use vintage.System.Keeps.{run-Keeps}

abbrev in_flight_for : ℕ → Payment → Bool
in_flight_for order p = p.order == order && is_pending p

-- No order has two pending attempts.
abbrev pub Single : World → Type 0
Single w = (order : ℕ) → in_flight order w ≤ 1

-- A write that makes no attempt pending and moves none to another order.
abbrev IsTame : (Payment → Payment) → Type 0
IsTame f =
    (order : ℕ) (p : Payment) → (not (in_flight_for order (f p)) || in_flight_for order p) ≡ true

update-Single : (k : ℕ) (f : Payment → Payment) → IsTame f → Keeps Single (update payments k f)
unfolding update
update-Single k f tame = record {
  at = λ w h. elim (Option-cases (lookup k w.payments)) [
    | inl n ↦ rw n h
    | inr (p, s) ↦ rw s (λ o.
        omega (arith, h o, count-insert_found (in_flight_for o) k p (f p) w.payments s (tame o p)))
  ];
}

claim-Single :
    (k : ℕ) (t : Payment → Bool) (f : Payment → Payment)
    → IsTame f
    → Keeps Single (claim payments k t f)
unfolding claim
claim-Single k t f tame = record {
  at = λ w h. elim (Option-cases (lookup k w.payments)) [
    | inl n ↦ rw n h
    | inr (p, s) ↦ elim (Bool-cases (t p)) [
      | inl y ↦ rw s (
          rw y (λ o.
            omega
              (arith, h o, count-insert_found (in_flight_for o) k p (f p) w.payments s (tame o p))))
      | inr n ↦ rw s (rw n h)
    ]
  ];
}

update_many-Single :
    (t : Payment → Bool) (f : Payment → Payment)
    → IsTame f
    → Keeps Single (update_many payments t f)
unfolding update_many
update_many-Single t f tame = record {
  at = λ w h o. omega (arith, h o, count-map_where (in_flight_for o) t f w.payments (tame o));
}

mark_succeeded-Single : (o p : ℕ) → Keeps Single (mark_succeeded o p)
unfolding mark_succeeded
mark_succeeded-Single o p = record {
  at = λ w h i. omega (
    arith,
    h i,
    count-map_where (in_flight_for i) (λ v. v.order == o && is_value v.provider_payment_id p)
        (λ v. record v { status = PaymentStatus.succeeded }) w.payments (λ v. ground arith),
  );
}

-- The order has no pending attempt.
abbrev Free : ℕ → World → Type 0
Free order w = (in_flight order w ≡ 0) × Single w

create-Single :
    (order n : ℕ) (m : PaymentMethod) (amount now : ℕ)
    → Ensures (Free order) (create payments (new_attempt order n m amount now)) (λ id. Single)
unfolding create
create-Single order n m amount now =
    Ensures-returns (λ id. Single)
      (λ w p o. elim (Bool-cases (order == o)) [
        | inl y ↦
            let q = new_attempt order n m amount now in
            ground (arith, p.0, y, count-insert (in_flight_for o) w.next_id q w.payments)
        | inr f ↦
            let q = new_attempt order n m amount now in
            omega (
              arith,
              p.1 o,
              count-insert_other (in_flight_for o) w.next_id q w.payments (rw f refl),
            )
      ])

validate_amount-Keeps : {P : World → Type 0} (n : ℕ) → Keeps P (validate_amount n)
unfolding validate_amount
validate_amount-Keeps n = search keeps_rules

ruleset rules = (keeps_rules, table_rules, validate_amount-Keeps)

Leaves-offers : Leaves offers Single
Leaves-offers = record { put_keeps = λ d w h. h; id_keeps = λ w h. h }

Leaves-coupons : Leaves coupons Single
Leaves-coupons = record { put_keeps = λ d w h. h; id_keeps = λ w h. h }

reserve_attempt-Single :
    (order user : ℕ) (m : PaymentMethod) → Keeps Single (reserve_attempt order user m)
unfolding reserve_attempt
reserve_attempt-Single order user m = Keeps-ensured (
    Ensures-after (search rules) (λ found. Ensures-after (search rules) (λ o.
      Ensures-after (search rules) (λ a. Ensures-after (search rules) (λ a.
        Ensures-after (search rules) (λ a. Ensures-bind _ (Ensures-gets _) (λ busy.
          Ensures-bind (λ a. Free order)
            (Ensures-post (Ensures-throw_if _ _) (λ a w p. (ground (arith, p.0, p.1.0), p.1.1)))
            (λ a. Ensures-after (search rules depth 20) (λ a.
              Ensures-after (search rules)
                (λ n. Ensures-after (search rules) (λ now. create-Single order _ m _ now)))))))))))

Single-Writes : Writes Single
Single-Writes =
    row_writes (λ d c o r n. (order : ℕ) → count (in_flight_for order) d ≤ 1) (λ d c o r n h. h)
      mark_succeeded-Single

place_order_tx-Single :
    (u : ℕ) (r : OrderRequest) (l : Listing) (q : Quote) (o : Option ℕ)
    → Keeps Single (place_order_tx u r l q o)
unfolding place_order_tx
place_order_tx-Single u r l q o =
    let base = Single-Writes in search (basic_rules, transaction_rules, Leaves-coupons) depth 40

Single-Invariant : Invariant Single
unfolding bind_provider abandon_attempt fail_pending fail_where decide_offer reject_offers
Single-Invariant = record {
  base = Single-Writes;
  places = λ u r l q o. Keeps-transaction _ (place_order_tx-Single u r l q o);
  reserves = reserve_attempt-Single;
  binds = λ k n. update-Single k _ (λ o p. ground arith);
  abandons = λ k. update-Single k _ (λ o p. ground arith);
  fails = λ k. claim-Single k _ _ (λ o p. ground arith);
  retires = λ t. update_many-Single _ _ (λ o p. ground arith);
  proposes = λ o. search (rules, Leaves-offers);
  decides = λ id t s. search (rules, Leaves-offers);
  rejects = λ u. search (rules, Leaves-offers);
  sessions = tokens_apart (record { put_keeps = λ d w h. h; id_keeps = λ w h. h });
}

-- From a state in which no order has two pending attempts to pay it, any schedule of requests,
-- interleaved in any way, leads to such a state.
pub run-Single : (env : Env) (s : Schedule) (w : World) → Single w → Single (run env s w)
run-Single env s w h = run-Keeps Single-Invariant env s (wallets_apart (λ d v h. h)) w h
