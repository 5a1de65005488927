-- ===== src/Listings.antt =====
-- Listings: `create`, `update` and `remove` of apps/api/src/listings/listings.service.ts, and
-- `suspendListing` and `unsuspendListing` of apps/api/src/moderation/moderation.service.ts.
-- Of a listing the columns that orders read are kept: texts, images, category and brand are not, nor
-- are the alerts on a price that drops. The verdicts on the texts (`containsProhibitedContent`) and
-- on the URLs of images (`validateImageUrls`) stand in the request.
pub mod Suspended
use vintage.Prelude.{
  ℕ, Bool, true, false, Option, none, some, not, ◌==◌, ◌&&◌, ◌||◌, ltb, any, get_or,
}
use vintage.Prelude.Dict.{lookup, any_row}
use vintage.World.{
  World, User, Listing, ListingStatus, Order, OrderStatus, Effect, listing_is, order_is,
}
use vintage.World.Action.{
  Action, Exception, ◌>>=◌, ◌>>◌, pure, gets, or_throw, throw_if, emit, interleave,
}
use vintage.World.Tables.{listings, find_unique, update, create}
use vintage.Fraud.{evaluate_listing_creation, is_block_action}

-- `CreateListingDto`.
pub record ListingInput : Type 0 where
  pub price : ℕ
  pub shipping_weight_g : ℕ
  pub images : ℕ
  pub urls_allowed : Bool
  pub is_prohibited : Bool
  pub category : ℕ
  pub brand : Option ℕ

-- MAX_LISTING_IMAGES.
abbrev max_listing_images : ℕ
max_listing_images = 20

-- `seller?.column`: false where there is no row.
abbrev seller_is : (User → Bool) → Option User → Bool
seller_is test none = false
seller_is test (some u) = test u

abbrev has_brand : Option ℕ → World → Bool
has_brand none w = true
has_brand (some b) w = any (λ x. x == b) w.brands

abbrev new_listing : ℕ → ℕ → ListingInput → Listing
new_listing now seller dto = record {
  seller = seller;
  status = ListingStatus.active;
  price = dto.price;
  shipping_weight_g = dto.shipping_weight_g;
  created_at = now;
  promoted_until = none;
}

-- `create`, where identity verification is enforced or not.
unfoldable pub create_listing : (World → World) → Bool → ℕ → ListingInput → Action ℕ
create_listing meanwhile kyc_enforced seller dto = do
  u ← gets (λ w. lookup seller w.users)
  throw_if (seller_is (λ x. x.is_banned) u) Exception.forbidden
  throw_if (seller_is (λ x. x.vacation_mode) u) Exception.bad_request
  throw_if (kyc_enforced && not (seller_is (λ x. x.cpf_identity_verified) u)) Exception.forbidden
  throw_if (not (seller_is (λ x. x.cpf_checksum_valid) u)) Exception.forbidden
  decision ← evaluate_listing_creation seller
  throw_if (is_block_action decision) Exception.forbidden
  throw_if dto.is_prohibited Exception.bad_request
  throw_if (dto.images == 0) Exception.bad_request
  throw_if (ltb max_listing_images dto.images) Exception.bad_request
  throw_if (not dto.urls_allowed) Exception.bad_request
  categorised ← gets (λ w. any (λ c. c == dto.category) w.categories)
  throw_if (not categorised) Exception.bad_request
  branded ← gets (has_brand dto.brand)
  throw_if (not branded) Exception.bad_request
  interleave meanwhile
  now ← gets (λ w. w.now)
  id ← create listings (new_listing now seller dto)
  emit (Effect.sync_search id)
  emit (Effect.capture seller id)
  pure id

-- `UpdateListingDto`: what is not given stays.
pub record ListingUpdate : Type 0 where
  pub price : Option ℕ
  pub shipping_weight_g : Option ℕ
  pub status : Option ListingStatus
  pub urls_allowed : Bool
  pub is_prohibited : Bool

-- `['ACTIVE', 'PAUSED', 'SOLD']`.
abbrev is_settable : Option ListingStatus → Bool
is_settable none = true
is_settable (some s) =
    listing_is s ListingStatus.active
    || (listing_is s ListingStatus.paused || listing_is s ListingStatus.sold)

abbrev pub updated : ListingUpdate → Listing → Listing
updated dto l = record l {
  price = get_or dto.price l.price;
  shipping_weight_g = get_or dto.shipping_weight_g l.shipping_weight_g;
  status = get_or dto.status l.status;
}

unfoldable pub update_listing : (World → World) → ℕ → ℕ → ListingUpdate → Action (Unit {0})
update_listing meanwhile id seller dto = do
  l ← or_throw (← find_unique listings id) Exception.not_found
  throw_if (listing_is l.status ListingStatus.deleted) Exception.not_found
  throw_if (not (l.seller == seller)) Exception.forbidden
  throw_if (listing_is l.status ListingStatus.sold) Exception.bad_request
  throw_if dto.is_prohibited Exception.bad_request
  throw_if (not dto.urls_allowed) Exception.bad_request
  throw_if (not (is_settable dto.status)) Exception.bad_request
  interleave meanwhile
  update listings id (updated dto)
  emit (Effect.sync_search id)

-- `status: { notIn: ['COMPLETED', 'CANCELLED', 'REFUNDED'] }`.
abbrev is_open_for : ℕ → Order → Bool
is_open_for id o =
    o.listing == id
    && not (
        order_is o.status OrderStatus.completed
        || (order_is o.status OrderStatus.cancelled || order_is o.status OrderStatus.refunded))

unfoldable pub remove_listing : (World → World) → ℕ → ℕ → Action (Unit {0})
remove_listing meanwhile id seller = do
  l ← or_throw (← find_unique listings id) Exception.not_found
  throw_if (not (l.seller == seller)) Exception.forbidden
  busy ← gets (λ w. any_row (is_open_for id) w.orders)
  throw_if busy Exception.bad_request
  interleave meanwhile
  update listings id (λ x. record x { status = ListingStatus.deleted })
  emit (Effect.sync_search id)

unfoldable pub suspend_listing : (World → World) → ℕ → Action (Unit {0})
suspend_listing meanwhile id = do
  l ← or_throw (← find_unique listings id) Exception.not_found
  throw_if (listing_is l.status ListingStatus.deleted) Exception.bad_request
  interleave meanwhile
  update listings id (λ x. record x { status = ListingStatus.suspended })
  emit (Effect.sync_search id)
  emit (Effect.notify l.seller id)

unfoldable pub unsuspend_listing : (World → World) → ℕ → Action (Unit {0})
unsuspend_listing meanwhile id = do
  l ← or_throw (← find_unique listings id) Exception.not_found
  throw_if (not (listing_is l.status ListingStatus.suspended)) Exception.bad_request
  interleave meanwhile
  update listings id (λ x. record x { status = ListingStatus.active })
  emit (Effect.sync_search id)
