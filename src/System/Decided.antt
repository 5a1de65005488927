-- ===== src/System/Decided.antt =====
-- The life of an offer under schedules of requests.
use vintage.Prelude.{
  subst, refl, ==→eq, true, ℕ, ◌<◌, ◌≡◌, Option, some, Bool, false, Bool-cases, Option-cases, inl,
  inr, ◌==◌, ◌&&◌, arith,
}
use vintage.Prelude.Dict.{lookup, insert, lookup-insert, lookup-map_where}
use vintage.World.{World, Listing, Offer, OfferStatus}
use vintage.World.Keeps.{Keeps, Keeps-transaction, keeps_rules}
use vintage.World.Tables.{Leaves, payments, coupons, offers, claim, create, update_many}
use vintage.Payments.{mark_succeeded}
use vintage.Payments.Attempts.{
  reserve_attempt, validate_amount, bind_provider, abandon_attempt, fail_pending, fail_where,
}
use vintage.Offers.{is_undecided, decide_offer, reject_offers}
use vintage.Checkout.{Quote}
use vintage.Checkout.Place.{OrderRequest, place_order_tx}
use vintage.System.{Env, Schedule, run}
use vintage.System.Invariant.{wallets_apart, Writes, Invariant, basic_rules}
use vintage.System.Transactions.{transaction_rules}
use vintage.System.Rows.{row_writes}
use vintage.System.Whole.{tokens_apart}
use vintage.System.Keeps.{run-Keeps}

-- The life of an offer: it stays as it is, or one decision is written on it while it is pending, and
-- no other column changes.
pub data Moves : Offer → Offer → Type 0 where
  stays : (o : Offer) → Moves o o
  settles :
      (o : Offer) (s : OfferStatus) → is_undecided o ≡ true → Moves o (record o { status = s })

settle_lem :
    (o x : Offer) (s : OfferStatus)
    → Moves o x
    → is_undecided x ≡ true
    → Moves o (record x { status = s })
settle_lem o x s (stays _) h = settles o s h
settle_lem o x s (settles _ t i) h = settles o s i

decided_lem : (o x : Offer) → Moves o x → is_undecided o ≡ false → x ≡ o
decided_lem o x (stays _) h = refl
decided_lem o x (settles _ t i) h = cc (i, h)

-- The offer under the id `k`, which was given out, has come from `o`.
abbrev pub Lives : ℕ → Offer → World → Type 0
Lives k o w = (x : Offer) × ((lookup k w.offers ≡ some x) × Moves o x × (k < w.next_id))

-- The offer stands in the table as it is, under an id that was given out.
abbrev Stands : ℕ → Offer → World → Type 0
Stands k o w = (lookup k w.offers ≡ some o) × (k < w.next_id)

mark_lem :
    (j k : ℕ) (o x : Offer) (s : OfferStatus) (w : World)
    → Lives k o w
    → lookup j w.offers ≡ some x
    → is_undecided x ≡ true
    → Lives k o (offers.put (insert j (record x { status = s }) w.offers) w)
mark_lem j k o x s w (y, (l, m, n)) e u =
    let g = lookup-insert j k (record x { status = s }) w.offers in
    elim (Bool-cases (j == k)) [
      | inl p ↦
          let q : lookup k w.offers ≡ some x =
            subst (λ i. lookup i w.offers ≡ some x) (==→eq j k p) e in
          let i : y ≡ x = cc (q, l) in
          (record x { status = s }, (rw p at g, settle_lem o x s (subst (Moves o) i m) u, n))
      | inr p ↦ (y, (cc (rw p at g, l), m, n))
    ]

module _ (k : ℕ) (o : Offer) where
  claim-Lives :
      (j : ℕ) (t : Offer → Bool) (s : OfferStatus)
      → Keeps
          (Lives k o)
          (claim offers j (λ x. is_undecided x && t x) (λ x. record x { status = s }))
  unfolding claim
  claim-Lives j t s = record {
    at = λ w h. elim (Option-cases (lookup j w.offers)) [
      | inl n ↦ rw n h
      | inr (x, e) ↦ elim (Bool-cases (is_undecided x)) [
        | inl y ↦ elim (Bool-cases (t x)) [
          | inl z ↦ rw e (rw y (rw z (mark_lem j k o x s w h e y)))
          | inr z ↦ rw e (rw y (rw z h))
        ]
        | inr y ↦ rw e (rw y h)
      ]
    ];
  }

  create-Lives : (x : Offer) → Keeps (Lives k o) (create offers x)
  unfolding create
  create-Lives x = record {
    at = λ w (y, (l, m, n)).
        let e : (w.next_id == k) ≡ false = ground (arith, n) in
        (y, (cc (rw e at (lookup-insert w.next_id k x w.offers), l), m, omega (arith, n)));
  }

  mark_succeeded-Lives : (a b : ℕ) → Keeps (Lives k o) (mark_succeeded a b)
  unfolding mark_succeeded
  mark_succeeded-Lives a b = record { at = λ w h. h }

  Lives-Writes : Writes (Lives k o)
  Lives-Writes =
      row_writes (λ p c d r n. (x : Offer) × ((lookup k d ≡ some x) × Moves o x × (k < n)))
        (λ p c d r n (x, (l, m, i)). (x, (l, m, omega (arith, i)))) mark_succeeded-Lives

  Leaves-payments : Leaves payments (Lives k o)
  Leaves-payments = record {
    put_keeps = λ d w h. h;
    id_keeps = λ w (x, (l, m, i)). (x, (l, m, omega (arith, i)));
  }

  Leaves-coupons : Leaves coupons (Lives k o)
  Leaves-coupons = record {
    put_keeps = λ d w h. h;
    id_keeps = λ w (x, (l, m, i)). (x, (l, m, omega (arith, i)));
  }

  decide_offer-Lives :
      (j : ℕ) (t : ℕ → Offer → Bool) (s : OfferStatus) → Keeps (Lives k o) (decide_offer j t s)
  unfolding decide_offer
  decide_offer-Lives j t s = search (keeps_rules, claim-Lives)

  reject_offers-Lives : (u : ℕ) → Keeps (Lives k o) (reject_offers u)
  unfolding reject_offers update_many
  reject_offers-Lives u = record {
    at = λ w (x, (l, m, i)).
        let q = λ (y : Offer). y.buyer == u && is_undecided y in
        let f = λ (y : Offer). record y { status = OfferStatus.rejected } in
        let g = lookup-map_where q f k x w.offers l in
        elim (Bool-cases (x.buyer == u)) [
          | inl b ↦ elim (Bool-cases (is_undecided x)) [
            | inl p ↦ (f x, (rw (b, p) at g, settle_lem o x OfferStatus.rejected m p, i))
            | inr p ↦ (x, (rw (b, p) at g, m, i))
          ]
          | inr b ↦ (x, (rw b at g, m, i))
        ];
  }

  place_order_tx-Lives :
      (u : ℕ) (r : OrderRequest) (l : Listing) (q : Quote) (c : Option ℕ)
      → Keeps (Lives k o) (place_order_tx u r l q c)
  unfolding place_order_tx
  place_order_tx-Lives u r l q c =
      let base = Lives-Writes in search (basic_rules, transaction_rules, Leaves-coupons) depth 40

  Lives-Invariant : Invariant (Lives k o)
  unfolding reserve_attempt validate_amount bind_provider abandon_attempt fail_pending fail_where
  Lives-Invariant =
      let base = Lives-Writes in
      record {
        base = Lives-Writes;
        places = λ u r l q c. Keeps-transaction _ (place_order_tx-Lives u r l q c);
        reserves = λ i u m. search (basic_rules, transaction_rules, Leaves-payments) depth 40;
        binds = λ i n. search (basic_rules, Leaves-payments);
        abandons = λ i. search (basic_rules, Leaves-payments);
        fails = λ i. search (basic_rules, Leaves-payments);
        retires = λ t. search (basic_rules, Leaves-payments);
        proposes = create-Lives;
        decides = decide_offer-Lives;
        rejects = reject_offers-Lives;
        sessions = tokens_apart (record {
          put_keeps = λ d w h. h;
          id_keeps = λ w (x, (l, m, i)). (x, (l, m, omega (arith, i)));
        });
      }

-- Under an id that was given out, any schedule of requests, interleaved in any way, moves an offer
-- along its life: the offer stays as it is, or it was pending and its status, and nothing else of it,
-- is written.
pub run-Lives :
    (env : Env) (s : Schedule) (k : ℕ) (o : Offer) (w : World)
    → lookup k w.offers ≡ some o
    → k < w.next_id
    → Lives k o (run env s w)
run-Lives env s k o w l n =
    run-Keeps (Lives-Invariant k o) env s (wallets_apart (λ d v h. h)) w (o, (l, stays o, n))

-- An offer that is no longer pending, under an id that was given out, is never changed: any
-- schedule of requests, interleaved in any way, leaves it as it is.
run-Stands :
    (env : Env) (s : Schedule) (k : ℕ) (o : Offer) (w : World)
    → is_undecided o ≡ false
    → Stands k o w
    → Stands k o (run env s w)
run-Stands env s k o w decided h =
    let (x, (l, m, n)) = run-Lives env s k o w h.0 h.1 in
    (subst (λ y. lookup k (run env s w).offers ≡ some y) (decided_lem o x m decided) l, n)
