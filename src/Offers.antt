-- ===== src/Offers.antt =====
-- Offers on a listing and the negotiation of their price
-- (apps/api/src/offers/offers.service.ts).
pub mod Deals
pub mod Thread
pub mod Kept
pub mod Chain
use vintage.Prelude.{
  ℕ, ◌+◌, ◌*◌, Bool, true, false, Option, none, some, not, ◌==◌, ◌&&◌, ◌||◌, ltb, leb, any, get_or,
  if◌then◌else◌,
}
use vintage.Prelude.Dict.{lookup}
use vintage.World.{World, Listing, ListingStatus, Offer, OfferStatus, Effect, listing_is, offer_is}
use vintage.World.Action.{
  Action, Exception, ◌>>=◌, ◌>>◌, pure, gets, or_throw, throw_if, transaction, emit, interleave,
}
use vintage.World.Tables.{update_many, listings, offers, find_unique, find_or_throw, claim, create}

-- OFFER_EXPIRY_HOURS, in milliseconds, and MAX_OFFER_COUNTERS.
abbrev pub offer_expiry : ℕ
offer_expiry = 172800000

abbrev pub max_offer_counters : ℕ
max_offer_counters = 3

abbrev pub is_undecided : Offer → Bool
is_undecided o = offer_is o.status OfferStatus.pending

-- `isBanned || deletedAt` of the user, where there is one, and `userBlock.findFirst`.
abbrev pub is_gone : World → ℕ → Bool
is_gone w user = elim (lookup user w.users) [ none ↦ false | some u ↦ u.is_banned || u.is_deleted ]

abbrev pub is_blocked : World → ℕ → ℕ → Bool
is_blocked w a b = any (λ p. (p.0 == a && p.1 == b) || (p.0 == b && p.1 == a)) w.blocks

-- `amount < price * MIN_OFFER_PERCENTAGE`, where the percentage is one half.
abbrev pub is_too_low : ℕ → ℕ → Bool
is_too_low amount price = ltb (2 * amount) price

abbrev pub first_offer : ℕ → ℕ → ℕ → ℕ → ℕ → Offer
first_offer now created buyer listing amount = record {
  listing = listing;
  buyer = buyer;
  amount = amount;
  status = OfferStatus.pending;
  expires_at = now + offer_expiry;
  parent = none;
  counter_count = 0;
  countered_by = some buyer;
  created_at = created;
}

-- `OffersService.create`; `prohibited` is the verdict of the content check on the title and the
-- description of the listing.
unfoldable pub create_offer : (World → World) → (ℕ → Bool) → ℕ → ℕ → ℕ → Action ℕ
create_offer meanwhile prohibited buyer listing amount = do
  l ← or_throw (← find_unique listings listing) Exception.not_found
  throw_if (not (listing_is l.status ListingStatus.active)) Exception.bad_request
  throw_if (prohibited listing) Exception.bad_request
  throw_if (l.seller == buyer) Exception.bad_request
  interleave meanwhile
  barred ← gets (λ w. is_gone w buyer || is_gone w l.seller || is_blocked w buyer l.seller)
  throw_if barred Exception.forbidden
  throw_if (is_too_low amount l.price) Exception.bad_request
  now ← gets (λ w. w.now)
  interleave meanwhile
  created ← gets (λ w. w.now)
  id ← create offers (first_offer now created buyer listing amount)
  emit (Effect.notify l.seller id)
  pure id

-- The conditional write by which an offer is accepted or rejected.
unfoldable pub decide_offer : ℕ → (ℕ → Offer → Bool) → OfferStatus → Action Bool
decide_offer id test status = do
  now ← gets (λ w. w.now)
  claim offers id (λ o. is_undecided o && test now o) (λ o. record o { status = status })

-- The offers of a buyer whose account is deleted.
unfoldable pub reject_offers : ℕ → Action (Unit {0})
reject_offers buyer =
    update_many offers (λ o. o.buyer == buyer && is_undecided o)
      (λ o. record o { status = OfferStatus.rejected })

unfoldable pub accept_offer : (World → World) → (ℕ → Bool) → ℕ → ℕ → Action Offer
accept_offer meanwhile prohibited id seller = do
  o ← or_throw (← find_unique offers id) Exception.not_found
  l ← find_or_throw listings o.listing
  throw_if (not (l.seller == seller)) Exception.forbidden
  throw_if (not (is_undecided o)) Exception.bad_request
  expired ← gets (λ w. leb o.expires_at w.now)
  throw_if expired Exception.bad_request
  throw_if (prohibited o.listing) Exception.bad_request
  interleave meanwhile
  claimed ← decide_offer id (λ now x. ltb now x.expires_at) OfferStatus.accepted
  throw_if (not claimed) Exception.conflict
  interleave meanwhile
  updated ← find_or_throw offers id
  emit (Effect.notify o.buyer id)
  pure updated

unfoldable pub reject_offer : (World → World) → ℕ → ℕ → Action Offer
reject_offer meanwhile id seller = do
  o ← or_throw (← find_unique offers id) Exception.not_found
  l ← find_or_throw listings o.listing
  throw_if (not (l.seller == seller)) Exception.forbidden
  throw_if (not (is_undecided o)) Exception.bad_request
  interleave meanwhile
  claimed ← decide_offer id (λ now x. true) OfferStatus.rejected
  throw_if (not claimed) Exception.conflict
  interleave meanwhile
  updated ← find_or_throw offers id
  emit (Effect.notify o.buyer id)
  pure updated

-- `prev.counteredById ?? prev.buyerId`.
abbrev pub last_actor : Offer → ℕ
last_actor o = get_or o.countered_by o.buyer

abbrev pub counter_of : ℕ → Offer → ℕ → ℕ → ℕ → ℕ → Offer
counter_of id prev actor amount now created = record {
  listing = prev.listing;
  buyer = prev.buyer;
  amount = amount;
  status = OfferStatus.pending;
  expires_at = now + offer_expiry;
  parent = some id;
  counter_count = prev.counter_count + 1;
  countered_by = some actor;
  created_at = created;
}

-- The transaction of `counter`; `now` is the time from which the new expiry is reckoned.
unfoldable pub counter_tx : ℕ → Offer → ℕ → ℕ → ℕ → Action ℕ
counter_tx id prev actor amount now = do
  claimed ← decide_offer id (λ t x. true) OfferStatus.countered
  throw_if (not claimed) Exception.conflict
  created ← gets (λ w. w.now)
  create offers (counter_of id prev actor amount now created)

unfoldable pub counter_offer : (World → World) → ℕ → ℕ → ℕ → Action ℕ
counter_offer meanwhile id actor amount = do
  prev ← or_throw (← find_unique offers id) Exception.not_found
  l ← find_or_throw listings prev.listing
  throw_if (not (is_undecided prev)) Exception.bad_request
  now ← gets (λ w. w.now)
  throw_if (leb prev.expires_at now) Exception.bad_request
  throw_if (leb max_offer_counters prev.counter_count) Exception.bad_request
  throw_if (actor == last_actor prev) Exception.forbidden
  throw_if (not (actor == l.seller) && not (actor == prev.buyer)) Exception.forbidden
  throw_if (is_too_low amount l.price) Exception.bad_request
  interleave meanwhile
  new ← transaction (counter_tx id prev actor amount now)
  emit (Effect.notify (if actor == l.seller then prev.buyer else l.seller) new)
  pure new
