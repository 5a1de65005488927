-- ===== src/Offers/Deals.antt =====
-- What stands behind an accepted offer and behind a counteroffer
-- (`accept` and `counter` of apps/api/src/offers/offers.service.ts).
use vintage.Prelude.{
  ℕ, ◌*◌, ◌≤◌, ◌<◌, ◌≡◌, refl, ◌∷◌, eq_self, Bool, true, false, some, ◌==◌, ◌||◌, ltb, leb, arith,
}
use vintage.Prelude.Dict.{lookup, insert, lookup-insert_self}
use vintage.World.{World, Listing, Offer, OfferStatus, Effect}
use vintage.World.Action.{ok, ◌>>=◌, ◌>>◌, emit, pure, modify, actions}
use vintage.World.Ensures.{
  Ensures, Ensures-transaction, Ensures-returns, Ensures-reading, Ensures-guarded, Ensures-finding,
  Ensures-interleaved, Ensures-bind, Ensures-assoc, Ensures-done,
}
use vintage.World.Tables.{listings, offers, find_unique, find_or_throw, claim, create}
use vintage.World.Reads.{Ensures-looking, Ensures-getting, Ensures-claiming}
use vintage.Offers.{
  max_offer_counters, is_undecided, decide_offer, accept_offer, last_actor, counter_of, counter_tx,
  counter_offer,
}

-- The row `x` of the offer is open and not expired where it is claimed, and the seller of its listing claims it.
abbrev pub Acceptable : (World → World) → (ℕ → Bool) → ℕ → ℕ → World → Type 0
Acceptable meanwhile prohibited id seller w =
    (o : Offer) × ((l : Listing) × ((x : Offer) × ((lookup id w.offers ≡ some o)
          × (lookup o.listing w.listings ≡ some l)
          × (l.seller ≡ seller)
          × (prohibited o.listing ≡ false)
          × (lookup id (meanwhile w).offers ≡ some x)
          × (is_undecided x ≡ true)
          × ((meanwhile w).now < x.expires_at))))

lt_ltb : {a b : ℕ} → a < b → ltb a b ≡ true
lt_ltb h = ground (arith, h)

lt_leb : {a b : ℕ} → a < b → leb b a ≡ false
lt_leb h = ground (arith, h)

accept_lem :
    (meanwhile : World → World) (prohibited : ℕ → Bool) (id seller : ℕ) (w : World)
    → Ensures
        (λ v. v ≡ w)
        (accept_offer meanwhile prohibited id seller)
        (λ o v. Acceptable meanwhile prohibited id seller w)
unfolding accept_offer decide_offer
accept_lem meanwhile prohibited id seller w = Ensures-looking offers id (λ found f.
    Ensures-finding _ _ (λ o s. Ensures-getting listings o.listing (λ l m.
      Ensures-guarded _ _ (λ own. Ensures-guarded _ _ (λ opened. Ensures-reading _ (λ expired e.
        Ensures-guarded _ _ (λ fresh. Ensures-guarded _ _ (λ clean. Ensures-interleaved meanwhile (
          Ensures-assoc _ _ _ (
            Ensures-reading _ (λ now t.
              Ensures-claiming offers id _ _ _
                (λ x k y. Ensures-done (
                  o,
                  (
                    l,
                    (
                      x,
                      (
                        cc (s, f),
                        m,
                        ground (arith, own),
                        clean,
                        k,
                        ground (arith, y),
                        ground (arith, y, t),
                      ),
                    ),
                  ),
                ))
                (Ensures-guarded _ _ (λ n. cc n)))))))))))))

-- Where an offer is accepted, its listing's seller accepts it, its listing passes the content check,
-- and the row that is marked as accepted is open and not expired where it is marked.
pub accept_offer-Acceptable :
    (meanwhile : World → World) (prohibited : ℕ → Bool) (id seller : ℕ) (w v : World) (o : Offer)
    → accept_offer meanwhile prohibited id seller w ≡ (ok o, v)
    → Acceptable meanwhile prohibited id seller w
accept_offer-Acceptable meanwhile prohibited id seller w v o e =
    (accept_lem meanwhile prohibited id seller w).at w refl o v e

-- The guards of the counteroffer by `actor`, and the row that it answers.
abbrev pub Counterable : (World → World) → ℕ → ℕ → ℕ → World → Offer → Offer → Type 0
Counterable meanwhile id actor amount w prev x =
    (l : Listing) × ((lookup id w.offers ≡ some prev)
      × (lookup prev.listing w.listings ≡ some l)
      × ((actor == last_actor prev) ≡ false)
      × ((actor == l.seller || actor == prev.buyer) ≡ true)
      × (w.now < prev.expires_at)
      × (prev.counter_count < max_offer_counters)
      × (l.price ≤ 2 * amount)
      × (lookup id (meanwhile w).offers ≡ some x)
      × (is_undecided x ≡ true))

-- The offer `new` counters the offer `id`.
abbrev pub Countered : (World → World) → ℕ → ℕ → ℕ → World → ℕ → World → Type 0
Countered meanwhile id actor amount w new v =
    (prev : Offer) × ((x : Offer) × (Counterable meanwhile id actor amount w prev x
        × (new ≡ (meanwhile w).next_id)
        × (v.offers
            ≡ insert new (counter_of id prev actor amount w.now (meanwhile w).now)
                (insert id (record x { status = OfferStatus.countered }) (meanwhile w).offers))))

insert_lem :
    (meanwhile : World → World) (id actor amount : ℕ) (w : World) (prev x : Offer) (now created : ℕ)
    → now ≡ w.now
    → created ≡ (meanwhile w).now
    → Counterable meanwhile id actor amount w prev x
    → Ensures
        (λ v.
          v
          ≡ offers.put
              (insert id (record x { status = OfferStatus.countered }) (meanwhile w).offers)
              (meanwhile w))
        (create offers (counter_of id prev actor amount now created))
        (Countered meanwhile id actor amount w)
unfolding create
insert_lem meanwhile id actor amount w prev x now created t e c =
    Ensures-returns (Countered meanwhile id actor amount w)
      (λ v p. (prev, (x, (c, rw p refl, rw (p, t, e) refl))))

tell_lem :
    (meanwhile : World → World) (id actor amount : ℕ) (w : World) (e : Effect) (new : ℕ)
    → Ensures
        (Countered meanwhile id actor amount w new)
        (emit e >> pure new)
        (Countered meanwhile id actor amount w)
unfolding emit ◌>>=◌ pure modify
tell_lem meanwhile id actor amount w e new =
    Ensures-returns (Countered meanwhile id actor amount w) (λ v r. r)

counter_lem :
    (meanwhile : World → World) (id actor amount : ℕ) (w : World)
    → Ensures
        (λ v. v ≡ w)
        (counter_offer meanwhile id actor amount)
        (Countered meanwhile id actor amount w)
unfolding counter_offer counter_tx decide_offer
counter_lem meanwhile id actor amount w = Ensures-looking offers id (λ found f.
    Ensures-finding _ _ (λ prev s. Ensures-getting listings prev.listing (λ l m.
      Ensures-guarded _ _ (λ opened. Ensures-reading _ (λ now t. Ensures-guarded _ _ (λ fresh.
        Ensures-guarded _ _ (λ short. Ensures-guarded _ _ (λ other. Ensures-guarded _ _ (λ party.
          Ensures-guarded _ _ (λ enough. Ensures-interleaved meanwhile (
            Ensures-bind (Countered meanwhile id actor amount w)
              (Ensures-transaction (
                Ensures-assoc _ _ _ (
                  Ensures-reading _ (λ at i.
                    Ensures-claiming offers id _ _ _
                      (λ x k y. Ensures-guarded _ _ (λ won. Ensures-reading _ (λ created c.
                        insert_lem meanwhile id actor amount w prev x now created t c (
                          l,
                          (
                            cc (s, f),
                            m,
                            other,
                            ground (arith, party),
                            ground (arith, fresh, t),
                            ground (arith, short),
                            ground (arith, enough),
                            k,
                            ground (arith, y),
                          ),
                        ))))
                      (Ensures-guarded _ _ (λ n. cc n))))))
              (λ new. tell_lem meanwhile id actor amount w _ new))))))))))))

-- A counteroffer answers an open offer that has not expired, is made by the buyer or the seller and not by the one
-- who made the offer, is within the limit of counteroffers and not below half the price; its writes
-- are the mark on the offer and the new offer, which has the next count.
pub counter_offer-Countered :
    (meanwhile : World → World) (id actor amount : ℕ) (w v : World) (new : ℕ)
    → counter_offer meanwhile id actor amount w ≡ (ok new, v)
    → Countered meanwhile id actor amount w new v
counter_offer-Countered meanwhile id actor amount w v new e =
    (counter_lem meanwhile id actor amount w).at w refl new v e

-- The seller of the listing can accept an offer that the seller made: where the offer is open, not expired, its last
-- actor is the seller and the listing passes the content check, `accept` marks it as accepted and
-- notifies the buyer.
pub accept_offer-own :
    (prohibited : ℕ → Bool) (id : ℕ) (o : Offer) (l : Listing) (w : World)
    → lookup id w.offers ≡ some o
    → lookup o.listing w.listings ≡ some l
    → o.countered_by ≡ some l.seller
    → is_undecided o ≡ true
    → w.now < o.expires_at
    → prohibited o.listing ≡ false
    → accept_offer (λ u. u) prohibited id l.seller w ≡ (
      ok (record o { status = OfferStatus.accepted }),
      record w {
        offers = insert id (record o { status = OfferStatus.accepted }) w.offers;
        outbox = Effect.notify o.buyer id ∷ w.outbox;
      },
    )
unfolding accept_offer decide_offer actions find_unique find_or_throw claim
accept_offer-own prohibited id o l w s m own opened fresh clean = rw s (
    rw m (
      rw (eq_self l.seller) (
        rw opened (
          rw (lt_leb fresh) (
            rw clean (
              rw s (
                rw opened (
                  rw (lt_ltb fresh) (
                    rw (
                      lookup-insert_self id (record o { status = OfferStatus.accepted })
                        w.offers))))))))))
