-- ===== src/Tests/Offers.antt =====
-- The theorems on offers, used on the marketplace.
use vintage.Prelude.{
  map, ◌++◌, Bool-cases, inl, inr, subst, ap, ◌==◌, ◌≡◌, refl, false, none, some, [], ◌∷◌, arith,
}
use vintage.Prelude.Dict.{lookup, insert}
use vintage.World.{World, Offer, OfferStatus, Effect, OrderStatus, ListingStatus}
use vintage.World.Action.{ok, actions, throw, pure}
use vintage.World.Tables.{find_unique, find_or_throw, claim, create}
use vintage.Offers.{accept_offer, counter_offer, counter_tx, decide_offer, first_offer, counter_of}
use vintage.Offers.Deals.{
  Acceptable, accept_offer-Acceptable, Countered, counter_offer-Countered, accept_offer-own,
}
use vintage.Offers.Thread.{find_root, sort_by_time, near_rows, deeper_rows}
use vintage.Offers.Chain.{ParentOf, Linked, find_root-ends, counter_offer-Linked}
use vintage.System.{Request, Schedule, run}
use vintage.System.Decided.{Lives, run-Lives}
use vintage.Tests.{a_world, a_listing, env}

-- User 2 offers 60 for the listing 7 of user 1, whose price is 100.
abbrev an_offer : Offer
an_offer = first_offer 0 0 2 7 6000

abbrev bargaining : World
bargaining = record (a_world OrderStatus.paid) {
  listings = (7, record a_listing { status = ListingStatus.active }) ∷ [];
  offers = (40, an_offer) ∷ [];
}

abbrev accepted_world : World
accepted_world = (accept_offer (λ w. w) (λ l. false) 40 1 bargaining).1

abbrev accepted_offer : Offer
accepted_offer = record an_offer { status = OfferStatus.accepted }

accepted : accept_offer (λ w. w) (λ l. false) 40 1 bargaining ≡ (ok accepted_offer, accepted_world)
unfolding accept_offer decide_offer find_unique find_or_throw claim actions throw pure
accepted = refl

accept_offer-Acceptable_example : Acceptable (λ w. w) (λ l. false) 40 1 bargaining
accept_offer-Acceptable_example =
    accept_offer-Acceptable (λ w. w) (λ l. false) 40 1 bargaining accepted_world accepted_offer
      accepted

-- The seller rejects the offer while the seller's counteroffer to it is handled; the buyer makes another.
abbrev too_late : Schedule
too_late =
    Schedule.serve (Request.counter 40 1 9000)
      (Schedule.serve (Request.decline 40 1) Schedule.done Schedule.done)
      (Schedule.serve (Request.propose 2 7 7000) Schedule.done Schedule.done)

abbrev settled : World
settled = record bargaining { offers = (40, accepted_offer) ∷ [] }

-- The same requests while the offer is open.
run-Lives_example : Lives 40 an_offer (run env too_late bargaining)
run-Lives_example = run-Lives env too_late 40 an_offer bargaining refl (omega arith)

abbrev countered_world : World
countered_world = (counter_offer (λ w. w) 40 1 9000 bargaining).1

countered : counter_offer (λ w. w) 40 1 9000 bargaining ≡ (ok 100, countered_world)
unfolding counter_offer counter_tx decide_offer find_unique find_or_throw claim create actions throw
    pure
countered = refl

counter_offer-Countered_example : Countered (λ w. w) 40 1 9000 bargaining 100 countered_world
counter_offer-Countered_example =
    counter_offer-Countered (λ w. w) 40 1 9000 bargaining countered_world 100 countered

Linked-bargaining : Linked bargaining.offers
Linked-bargaining k o e = elim (Bool-cases (40 == k)) [
  | inl y ↦
      let i : an_offer ≡ o = cc (rw y at e) in
      subst (λ z. ParentOf z.parent z.counter_count bargaining.offers) i refl
  | inr n ↦ cc (rw n at e)
]

same_count :
    (o x : Offer)
    → lookup 40 bargaining.offers ≡ some o
    → lookup 40 bargaining.offers ≡ some x
    → x.counter_count ≡ o.counter_count
same_count o x e f = let i : x ≡ o = cc (e, f) in ap (λ z. z.counter_count) i

at_100 : lookup 100 countered_world.offers ≡ some (counter_of 40 an_offer 1 9000 1000 1000)
unfolding counter_offer counter_tx decide_offer find_unique find_or_throw claim create actions throw
    pure
at_100 = refl

counter_offer-Linked_example : Linked countered_world.offers
counter_offer-Linked_example =
    counter_offer-Linked (λ w. w) 40 1 9000 bargaining countered_world 100
      (Linked-bargaining, refl, same_count) countered

find_root-ends_example :
    ((find_root 3 countered_world.offers (100, counter_of 40 an_offer 1 9000 1000 1000)).1).parent
    ≡ none
find_root-ends_example =
    find_root-ends 3 countered_world.offers 100 (counter_of 40 an_offer 1 9000 1000 1000)
      counter_offer-Linked_example at_100 (omega arith)

-- The seller's counteroffer stands under the id 41.
abbrev a_counter : Offer
a_counter = counter_of 40 an_offer 1 9000 0 0

abbrev countered_to_buyer : World
countered_to_buyer = record bargaining {
  offers = (40, record an_offer { status = OfferStatus.countered }) ∷ (41, a_counter) ∷ [];
}

accept_offer-own_example : accept_offer (λ u. u) (λ l. false) 41 1 countered_to_buyer ≡ (
  ok (record a_counter { status = OfferStatus.accepted }),
  record countered_to_buyer {
    offers =
        insert 41 (record a_counter { status = OfferStatus.accepted }) countered_to_buyer.offers;
    outbox = Effect.notify 2 41 ∷ [];
  },
)
accept_offer-own_example =
    accept_offer-own (λ l. false) 41 a_counter (record a_listing { status = ListingStatus.active })
      countered_to_buyer refl refl refl refl (omega arith) refl

-- A chain of three counteroffers: the thread shows the first offer and two of them.
abbrev chain : World
chain = record bargaining {
  offers =
      (40, record an_offer { status = OfferStatus.countered })
      ∷ (41, record (counter_of 40 an_offer 1 9000 0 1) { status = OfferStatus.countered })
      ∷ (42, record (counter_of 41 a_counter 2 8000 0 2) { status = OfferStatus.countered })
      ∷ (
        43,
        record (counter_of 42 (counter_of 41 a_counter 2 8000 0 2) 1 8500 0 3) {
          status = OfferStatus.pending;
        },
      )
      ∷ [];
}

thread_ends_early :
    map
      (λ r. r.0)
      (sort_by_time
        (near_rows 40 chain.offers ++ deeper_rows (near_rows 40 chain.offers) chain.offers))
    ≡ 40 ∷ 41 ∷ 42 ∷ []
thread_ends_early = refl
