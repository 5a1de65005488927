-- ===== src/Listings/Suspended.antt =====
-- What lifts the suspension of a listing (apps/api/src/moderation/moderation.service.ts and `update`
-- of apps/api/src/listings/listings.service.ts).
use vintage.Prelude.{ℕ, ◌≡◌, refl, true, false, some, ◌∷◌, get_or, eq_self}
use vintage.Prelude.Dict.{lookup, insert, lookup-insert_self}
use vintage.World.{World, Listing, ListingStatus, Effect, listing_is}
use vintage.World.Action.{ok, emit, actions, throw, pure}
use vintage.World.Tables.{find_unique, update}
use vintage.Listings.{ListingUpdate, update_listing, suspend_listing, unsuspend_listing}

abbrev with_status : ListingStatus → Listing → Listing
with_status s l = record l { status = s }

abbrev suspended : ℕ → Listing → World → World
suspended id l w = record w {
  listings = insert id (with_status ListingStatus.suspended l) w.listings;
  outbox = Effect.notify l.seller id ∷ (Effect.sync_search id ∷ w.outbox);
}

suspend_listing_lem :
    (id : ℕ) (l : Listing) (w : World)
    → lookup id w.listings ≡ some l
    → listing_is l.status ListingStatus.deleted ≡ false
    → suspend_listing (λ v. v) id w ≡ (ok tt, suspended id l w)
unfolding suspend_listing find_unique update emit actions throw pure
suspend_listing_lem id l w e n = rw e (rw n (rw e refl))

-- What the seller's update leaves of a listing that is made active.
abbrev relisted : ListingUpdate → Listing → Listing
relisted dto l = record l {
  price = get_or dto.price l.price;
  shipping_weight_g = get_or dto.shipping_weight_g l.shipping_weight_g;
  status = ListingStatus.active;
}

update_listing_lem :
    (id : ℕ) (dto : ListingUpdate) (l : Listing) (w : World)
    → lookup id w.listings ≡ some (with_status ListingStatus.suspended l)
    → dto.status ≡ some ListingStatus.active
    → dto.urls_allowed ≡ true
    → dto.is_prohibited ≡ false
    → lookup id (update_listing (λ v. v) id l.seller dto w).1.listings ≡ some (relisted dto l)
unfolding update_listing find_unique update actions throw pure
update_listing_lem id dto l w e s u p = rw e (
    rw (eq_self l.seller)
      (rw p (rw u (rw s (rw e (lookup-insert_self id (relisted dto l) w.listings))))))

unsuspend_listing_lem :
    (id : ℕ) (l : Listing) (w : World)
    → lookup id w.listings ≡ some (with_status ListingStatus.suspended l)
    → lookup id (unsuspend_listing (λ v. v) id w).1.listings
      ≡ some (with_status ListingStatus.active l)
unfolding unsuspend_listing find_unique update actions throw pure
unsuspend_listing_lem id l w e =
    rw e (rw e (lookup-insert_self id (with_status ListingStatus.active l) w.listings))

-- After the suspension of a listing that is not deleted, whatever it was, sold or not, and where no
-- other request comes between: an update by its own seller to ACTIVE, with texts and images that pass
-- the checks, makes it active again, with the price and the weight of the update; and so does the end
-- of the suspension, which leaves the price and the weight.
pub suspend_listing-lifted :
    (id : ℕ) (dto : ListingUpdate) (l : Listing) (w : World)
    → lookup id w.listings ≡ some l
    → listing_is l.status ListingStatus.deleted ≡ false
    → dto.status ≡ some ListingStatus.active
    → dto.urls_allowed ≡ true
    → dto.is_prohibited ≡ false
    → let v = (suspend_listing (λ u. u) id w).1 in
      (lookup id (update_listing (λ u. u) id l.seller dto v).1.listings ≡ some (relisted dto l))
      × (lookup id (unsuspend_listing (λ u. u) id v).1.listings
          ≡ some (with_status ListingStatus.active l))
suspend_listing-lifted id dto l w e n s u p =
    let v = suspended id l w in
    let i = lookup-insert_self id (with_status ListingStatus.suspended l) w.listings in
    rw (suspend_listing_lem id l w e n)
      (update_listing_lem id dto l v i s u p, unsuspend_listing_lem id l v i)
