-- ===== src/Offers/Thread.antt =====
-- The thread of a negotiation: `findThread` and `findActiveForListing` of
-- apps/api/src/offers/offers.service.ts.
use vintage.Prelude.{
  ℕ, zero, suc, Bool, false, Option, none, some, [], ◌∷◌, ◌++◌, not, ◌==◌, ◌&&◌, ◌||◌, leb, any,
  if◌then◌else◌,
}
use vintage.Prelude.Dict.{Dict, lookup, rows_where}
use vintage.World.{World, Offer}
use vintage.World.Action.{
  Action, Exception, ◌>>=◌, ◌>>◌, pure, gets, or_throw, throw_if, on_option, interleave,
}
use vintage.World.Tables.{listings, offers, find_unique, find_or_throw}
use vintage.Payments.{is_value}
use vintage.Offers.{max_offer_counters, is_undecided}

-- The loop that walks up to the first offer, on fuel.
unfoldable pub find_root : ℕ → Dict Offer → ℕ × Offer → ℕ × Offer
find_root zero d r = r
find_root (suc n) d r = elim (r.1).parent [
  | none ↦ r
  | some p ↦ elim (lookup p d) [ none ↦ r | some q ↦ find_root n d (p, q) ]
]

-- `orderBy: { createdAt: 'asc' }` and the last sort, which keep the order of equal times.
abbrev insert_by_time : ℕ × Offer → Dict Offer → Dict Offer
insert_by_time r [] = r ∷ []
insert_by_time r (s ∷ d) =
    let rest = insert_by_time r d in
    if leb (r.1).created_at (s.1).created_at then r ∷ s ∷ d else s ∷ rest

abbrev pub sort_by_time : Dict Offer → Dict Offer
sort_by_time [] = []
sort_by_time (r ∷ d) = insert_by_time r (sort_by_time d)

abbrev has_row : ℕ → Dict Offer → Bool
has_row k d = any (λ r. r.0 == k) d

abbrev has_parent_in : Option ℕ → Dict Offer → Bool
has_parent_in none d = false
has_parent_in (some p) d = has_row p d

-- The two queries, and the offers of both in the order of their times.
abbrev pub near_rows : ℕ → Dict Offer → Dict Offer
near_rows root d = sort_by_time (rows_where (λ k o. k == root || is_value o.parent root) d)

abbrev pub deeper_rows : Dict Offer → Dict Offer → Dict Offer
deeper_rows near d =
    sort_by_time (rows_where (λ k o. has_parent_in o.parent near && not (has_row k near)) d)

unfoldable pub find_thread : (World → World) → ℕ → ℕ → Action (Dict Offer)
find_thread meanwhile id user = do
  seed ← or_throw (← find_unique offers id) Exception.not_found
  l ← find_or_throw listings seed.listing
  throw_if (not (seed.buyer == user) && not (l.seller == user)) Exception.forbidden
  interleave meanwhile
  root ← gets (λ w. find_root max_offer_counters w.offers (id, seed))
  interleave meanwhile
  near ← gets (λ w. near_rows root.0 w.offers)
  interleave meanwhile
  deeper ← gets (λ w. deeper_rows near w.offers)
  pure (sort_by_time (near ++ deeper))

-- The newest offer that passes the test; of two with the same time the database may give either,
-- here the one that stands first.
abbrev newer : ℕ × Offer → Option (ℕ × Offer) → Option (ℕ × Offer)
newer r none = some r
newer r (some s) = if leb (s.1).created_at (r.1).created_at then some r else some s

abbrev newest : Dict Offer → Option (ℕ × Offer)
newest [] = none
newest (r ∷ d) = newer r (newest d)

unfoldable pub find_active_for_listing : ℕ → ℕ → Action (Option (ℕ × Offer))
find_active_for_listing user listing = do
  found ← find_unique listings listing
  on_option found (pure none) (λ l. gets (λ w. newest (
      rows_where
        (λ k o. o.listing == listing && (is_undecided o && (l.seller == user || o.buyer == user)))
        w.offers)))
