-- ===== src/System/Capped.antt =====
-- The uses of the coupons, under schedules of requests.
use vintage.Prelude.{ℕ, ◌≡◌, refl, sym, Option, none, some, true, Bool-cases, inl, inr, subst, ◌==◌}
use vintage.Prelude.Dict.{Dict, lookup, insert, lookup-insert}
use vintage.World.{World, Coupon, Listing}
use vintage.World.Action.{transaction, with_some}
use vintage.World.Keeps.{Keeps, Keeps-transaction}
use vintage.World.Ensures.{Keeps-ensured}
use vintage.World.Tables.{Leaves, payments, offers}
use vintage.Payments.{mark_succeeded}
use vintage.Payments.Attempts.{
  reserve_attempt, validate_amount, bind_provider, abandon_attempt, fail_pending, fail_where,
}
use vintage.Offers.{decide_offer, reject_offers}
use vintage.Checkout.{Quote}
use vintage.Checkout.Place.{OrderRequest, place_order_tx}
use vintage.Checkout.Cap.{bumped, is_within, within_lem, place-Used}
use vintage.System.{Env, Schedule, run}
use vintage.System.Invariant.{wallets_apart, Writes, Invariant, basic_rules}
use vintage.System.Transactions.{transaction_rules}
use vintage.System.Rows.{row_writes}
use vintage.System.Whole.{tokens_apart}
use vintage.System.Keeps.{run-Keeps}

abbrev AllWithin : Dict Coupon → Type 0
AllWithin d = (c : ℕ) (x : Coupon) → lookup c d ≡ some x → is_within x ≡ true

-- No coupon is used more often than its cap allows.
abbrev pub Capped : World → Type 0
Capped w = AllWithin w.coupons

mark_succeeded-Capped : (o p : ℕ) → Keeps Capped (mark_succeeded o p)
unfolding mark_succeeded
mark_succeeded-Capped o p = record { at = λ w h. h }

Capped-Writes : Writes Capped
Capped-Writes = row_writes (λ p d o t n. AllWithin d) (λ p d o t n h. h) mark_succeeded-Capped

Leaves-offers : Leaves offers Capped
Leaves-offers = record { put_keeps = λ d w h. h; id_keeps = λ w h. h }

Leaves-payments : Leaves payments Capped
Leaves-payments = record { put_keeps = λ d w h. h; id_keeps = λ w h. h }

insert-AllWithin :
    (c : ℕ) (x : Coupon) (d : Dict Coupon)
    → AllWithin d
    → is_within x ≡ true
    → AllWithin (insert c x d)
insert-AllWithin c x d h i k y s =
    let g = lookup-insert c k x d in
    elim (Bool-cases (c == k)) [
      | inl e ↦ let j : x ≡ y = cc (rw e at g) in subst (λ z. is_within z ≡ true) j i
      | inr e ↦ let j : lookup k d ≡ some y = cc (rw e at g) in h k y j
    ]

place-Capped :
    (u : ℕ) (r : OrderRequest) (l : Listing) (q : Quote) (o : Option ℕ)
    → Keeps Capped (transaction (place_order_tx u r l q o))
unfolding place_order_tx with_some
place-Capped u r l q none =
    let base = Capped-Writes in
    Keeps-transaction _ (search (basic_rules, transaction_rules) depth 40)
place-Capped u r l q (some c) = Keeps-ensured (record {
  at = λ w p a v e.
      let (x, (h, t)) = (place-Used u c r l q w.coupons).at w refl a v e in
      subst AllWithin (sym t) (insert-AllWithin c (bumped x) w.coupons p (within_lem x h.2));
})

Capped-Invariant : Invariant Capped
unfolding reserve_attempt validate_amount bind_provider abandon_attempt fail_pending fail_where
    decide_offer reject_offers
Capped-Invariant =
    let base = Capped-Writes in
    record {
      base = Capped-Writes;
      places = place-Capped;
      reserves = λ o u m. search (basic_rules, transaction_rules, Leaves-payments) depth 40;
      binds = λ k n. search (basic_rules, Leaves-payments);
      abandons = λ k. search (basic_rules, Leaves-payments);
      fails = λ k. search (basic_rules, Leaves-payments);
      retires = λ t. search (basic_rules, Leaves-payments);
      proposes = λ o. search (basic_rules, Leaves-offers);
      decides = λ id t s. search (basic_rules, Leaves-offers);
      rejects = λ u. search (basic_rules, Leaves-offers);
      sessions = tokens_apart (record { put_keeps = λ d w h. h; id_keeps = λ w h. h });
    }

-- From a state in which no coupon is used more often than its cap allows, any schedule of requests, interleaved
-- in any way, leads to such a state.
pub run-Capped : (env : Env) (s : Schedule) (w : World) → Capped w → Capped (run env s w)
run-Capped env s w h = run-Keeps Capped-Invariant env s (wallets_apart (λ d v h. h)) w h
