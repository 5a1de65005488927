-- ===== src/Payments/Reserve.antt =====
-- What `reserveAttempt` of apps/api/src/payments/payments.service.ts reserves.
use vintage.Prelude.{ℕ, ◌+◌, ◌≡◌, ◌≤◌, ◌<◌, refl, Option, none, some, true, false, arith, is_some}
use vintage.Prelude.Dict.{lookup, insert}
use vintage.World.{World, Order, OrderStatus, PaymentMethod, order_is}
use vintage.World.Action.{ok}
use vintage.World.Ensures.{
  Ensures, Ensures-bind, Ensures-fact, Ensures-throw_if, Ensures-post, Ensures-transaction,
  Ensures-returns, Ensures-reading, Ensures-guarded, Ensures-finding,
}
use vintage.World.Tables.{create, find_unique}
use vintage.Payments.Attempts.{
  max_payment_amount, in_flight, attempts, validate_amount, new_attempt, reserve_attempt,
}

-- The attempt `id` is reserved for an order that is to be paid.
abbrev Reserved : ℕ → ℕ → PaymentMethod → World → ℕ → World → Type 0
Reserved order user m w id v =
    (o : Order) × ((lookup order w.orders ≡ some o)
      × (o.buyer ≡ user)
      × (order_is o.status OrderStatus.pending ≡ true)
      × (o.payment_id ≡ none)
      × (in_flight order w ≡ 0)
      × (0 < o.total)
      × (o.total ≤ max_payment_amount)
      × (v.payments
          ≡ insert id (new_attempt order (attempts order w + 1) m o.total w.now) w.payments))

validate_lem :
    {P : World → Type 0} (n : ℕ)
    → Ensures P (validate_amount n) (λ a v. ((0 < n) × (n ≤ max_payment_amount)) × P v)
unfolding validate_amount
validate_lem n = Ensures-guarded _ _ (λ positive.
    Ensures-post (Ensures-throw_if _ _) (λ a w p. ((ground arith, ground (arith, p.0)), p.1)))

unpaid_lem : (o : Option ℕ) → is_some o ≡ false → o ≡ none
unpaid_lem o h = ground arith

reserve_lem :
    (order user : ℕ) (m : PaymentMethod) (w : World)
    → Ensures (λ v. v ≡ w) (reserve_attempt order user m) (Reserved order user m w)
unfolding reserve_attempt find_unique create
reserve_lem order user m w = Ensures-transaction (
    Ensures-reading _ (λ found f. Ensures-finding _ _ (λ o s. Ensures-guarded _ _ (λ buyer.
      Ensures-guarded _ _ (λ pending. Ensures-guarded _ _ (λ unpaid. Ensures-reading _ (λ busy b.
        Ensures-guarded _ _ (λ idle. Ensures-bind _ (validate_lem _) (λ a. Ensures-fact (λ valid.
          Ensures-reading _ (λ n c. Ensures-reading _ (λ now t.
            Ensures-returns (Reserved order user m w) (λ v p. (
              o,
              (
                cc (s, f),
                ground (arith, buyer),
                ground (arith, pending),
                unpaid_lem o.payment_id unpaid,
                ground (arith, idle, b),
                valid.0,
                valid.1,
                rw (p, c, t) refl,
              ),
            ))))))))))))))

-- Where an attempt to pay is reserved, the order exists, is the user's, waits for payment,
-- is bound to no instrument and has no pending attempt; its total is positive and within the limit;
-- and the one write on payments is the new pending attempt, over the whole total of the order and with the next number.
reserve_attempt-Reserved :
    (order user : ℕ) (m : PaymentMethod) (w v : World) (id : ℕ)
    → reserve_attempt order user m w ≡ (ok id, v)
    → Reserved order user m w id v
reserve_attempt-Reserved order user m w v id e = (reserve_lem order user m w).at w refl id v e
