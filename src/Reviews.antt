-- ===== src/Reviews.antt =====
-- Reviews of a seller (apps/api/src/reviews/reviews.service.ts): `create`, with the aggregate that it
-- writes to the seller, and `replyToReview`. The stored average is the exact quotient of the sum of
-- the stars by their number; a rating is a whole number, as the request checks. `meanwhile` and
-- `between` are what other requests commit before the review is stored, and around the aggregate.
pub mod Ratings
use vintage.Prelude.{
  ℕ, ◌+◌, Bool, true, false, Option, none, some, List, [], ◌∷◌, not, ◌==◌, ◌&&◌, ◌||◌, ltb, leb,
  if◌then◌else◌, length, take, filter, map,
}
use vintage.Prelude.Dict.{Dict, any_row}
use vintage.Validation.{Text}
use vintage.Validation.Pix.{trim}
use vintage.World.{World, User, Order, OrderStatus, Review, Effect, order_is}
use vintage.World.Action.{
  Action, Exception, ◌>>=◌, ◌>>◌, pure, gets, or_throw, throw_if, emit, interleave,
}
use vintage.World.Tables.{orders, reviews, users, find_unique, find_or_throw, update, create}

abbrev lower_ascii : ℕ → ℕ
lower_ascii c = if leb 65 c && leb c 90 then c + 32 else c

abbrev has_prefix : Text → Text → Bool
has_prefix [] s = true
has_prefix (p ∷ ps) [] = false
has_prefix (p ∷ ps) (c ∷ s) = let rest = has_prefix ps s in (p == lower_ascii c) && rest

-- `/^https:\/\//i`.
abbrev is_https : Text → Bool
is_https = has_prefix (104 ∷ 116 ∷ 116 ∷ 112 ∷ 115 ∷ 58 ∷ 47 ∷ 47 ∷ [])

abbrev clean_images : List Text → List Text
clean_images urls = take 4 (filter is_https (map trim urls))

-- `orderId_reviewerId`.
abbrev pub is_of : ℕ → ℕ → Review → Bool
is_of order reviewer r = r.order == order && r.reviewer == reviewer

abbrev pub is_star : ℕ → Bool
is_star rating = leb 1 rating && leb rating 5

-- A sum over the rows.
abbrev pub total : {V : Type 0} → (V → ℕ) → Dict V → ℕ
total f [] = 0
total f ((k, v) ∷ d) = f v + total f d

abbrev pub one_of : ℕ → Review → ℕ
one_of user r = if r.reviewed == user then 1 else 0

abbrev pub stars_of : ℕ → Review → ℕ
stars_of user r = if r.reviewed == user then r.rating else 0

-- `aggregate` with `_avg` and `_count`.
abbrev pub with_stats : ℕ → ℕ → User → User
with_stats sum count u = record u { rating_sum = sum; rating_count = count }

-- `@@unique([orderId, reviewerId])`.
unfoldable pub create_row : Review → Action ℕ
create_row r = do
  taken ← gets (λ w. any_row (is_of r.order r.reviewer) w.reviews)
  throw_if taken Exception.database_error
  create reviews r

-- From `review.create` to `user.update`.
unfoldable pub store_review : (World → World) → Review → Action ℕ
store_review between r = do
  id ← create_row r
  interleave between
  sum ← gets (λ w. total (stars_of r.reviewed) w.reviews)
  count ← gets (λ w. total (one_of r.reviewed) w.reviews)
  interleave between
  update users r.reviewed (with_stats sum count)
  pure id

unfoldable pub create_review :
    (World → World) → (World → World) → ℕ → ℕ → ℕ → Option Text → List Text → Action ℕ
create_review meanwhile between reviewer order rating comment urls = do
  throw_if (not (is_star rating)) Exception.bad_request
  o ← or_throw (← find_unique orders order) Exception.not_found
  throw_if (not (order_is o.status OrderStatus.completed)) Exception.bad_request
  throw_if (not (o.buyer == reviewer)) Exception.forbidden
  existing ← gets (λ w. any_row (is_of order reviewer) w.reviews)
  throw_if existing Exception.bad_request
  interleave meanwhile
  id ← store_review between (record {
    order = order;
    reviewer = reviewer;
    reviewed = o.seller;
    rating = rating;
    comment = comment;
    images = clean_images urls;
    seller_reply = none;
    seller_reply_at = none;
  })
  emit (Effect.notify o.seller id)
  pure id

-- `review.sellerReply` is truthy.
abbrev has_reply : Review → Bool
has_reply r = elim r.seller_reply [ none ↦ false | some t ↦ not (length t == 0) ]

abbrev pub with_reply : Text → ℕ → Review → Review
with_reply reply now r = record r { seller_reply = some (trim reply); seller_reply_at = some now }

unfoldable pub reply_to_review : (World → World) → ℕ → ℕ → Text → Action Review
reply_to_review meanwhile id seller reply = do
  throw_if (length (trim reply) == 0) Exception.bad_request
  throw_if (ltb 500 (length reply)) Exception.bad_request
  r ← or_throw (← find_unique reviews id) Exception.not_found
  throw_if (not (r.reviewed == seller)) Exception.forbidden
  throw_if (has_reply r) Exception.conflict
  now ← gets (λ w. w.now)
  interleave meanwhile
  update reviews id (with_reply reply now)
  find_or_throw reviews id
