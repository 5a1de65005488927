-- ===== src/Promotions.antt =====
-- The promotions of a listing or of a closet (apps/api/src/promotions/promotions.service.ts), with
-- the prices and durations of packages/shared/src/constants.ts.
-- A price is in centavos. `setDate(getDate() + n)` adds n days of 24 hours, which is what it does
-- where no clock change lies between.
pub mod Charges
use vintage.Prelude.{
  ℕ, ◌+◌, ◌*◌, ◌-◌, ◌/◌, Bool, true, false, Option, none, some, List, [], ◌∷◌, not, ◌==◌, ◌&&◌, ltb,
  get_or,
}
use vintage.Prelude.Int.{pos, leb_ℤ}
use vintage.Prelude.Dict.{lookup, find}
use vintage.World.{
  World, Listing, ListingStatus, Promotion, PromotionType, listing_is, promotion_is,
}
use vintage.World.Action.{
  Action, Exception, ◌>>=◌, ◌>>◌, pure, gets, or_throw, throw_if, transaction, interleave,
}
use vintage.World.Tables.{listings, promotions, find_unique, update, update_many, create}
use vintage.Wallet.{charge_promotion}

-- `1000 * 60 * 60 * 24`.
abbrev pub day_ms : ℕ
day_ms = 86400000

abbrev pub megafone_free_days : ℕ
megafone_free_days = 7

abbrev bump_duration_days : ℕ
bump_duration_days = 3

abbrev pub spotlight_price : ℕ
spotlight_price = 2990

abbrev spotlight_duration_days : ℕ
spotlight_duration_days = 7

pub record BumpTier : Type 0 where
  pub days : ℕ
  pub price : ℕ

abbrev bump_tiers : List BumpTier
bump_tiers =
    record { days = 1; price = 290 }
    ∷ (record { days = bump_duration_days; price = 490 } ∷ (record { days = 7; price = 990 } ∷ []))

abbrev tier_among : ℕ → List BumpTier → Option BumpTier
tier_among days [] = none
tier_among days (t ∷ ts) =
    let rest = tier_among days ts in elim (t.days == days) [ true ↦ some t | false ↦ rest ]

unfoldable pub get_bump_tier : ℕ → Option BumpTier
get_bump_tier days = tier_among days bump_tiers

-- `findFirst` with `endsAt: { gt: new Date() }`, on a listing or on a user.
abbrev is_current : ℕ → PromotionType → Promotion → Bool
is_current now type p = promotion_is p.type type && ltb now p.ends_at

abbrev is_on : ℕ → Promotion → Bool
is_on listing p = elim p.listing [ none ↦ false | some l ↦ l == listing ]

abbrev pub has_promotion : ℕ → PromotionType → World → Bool
has_promotion listing type w =
    elim (find (λ p. is_on listing p && is_current w.now type p) w.promotions) [
      | none ↦ false
      | some _ ↦ true
    ]

abbrev pub has_spotlight : ℕ → World → Bool
has_spotlight user w =
    elim (find (λ p. (p.user == user) && is_current w.now PromotionType.spotlight p) w.promotions) [
      | none ↦ false
      | some _ ↦ true
    ]

-- The guards that createMegafone and createBump share.
unfoldable pub get_promotable : ℕ → ℕ → PromotionType → Action Listing
get_promotable listing user type = do
  l ← or_throw (← find_unique listings listing) Exception.not_found
  throw_if (not (l.seller == user)) Exception.forbidden
  throw_if (not (listing_is l.status ListingStatus.active)) Exception.bad_request
  existing ← gets (has_promotion listing type)
  throw_if existing Exception.bad_request
  pure l

-- `Math.floor((Date.now() - createdAt) / day) < MEGAFONE_FREE_DAYS`; a listing is not made in the
-- future.
abbrev pub is_new : ℕ → Listing → Bool
is_new now l = ltb ((now - l.created_at) / day_ms) megafone_free_days

abbrev pub new_megafone : ℕ → ℕ → ℕ → Bool → Promotion
new_megafone now listing user requires_discount = record {
  listing = some listing;
  user = user;
  type = PromotionType.megafone;
  ends_at = now + megafone_free_days * day_ms;
  price_paid = 0;
  requires_discount = requires_discount;
}

-- The promotion and the listing are two writes outside any transaction.
unfoldable pub write_megafone : (World → World) → ℕ → ℕ → Bool → Action ℕ
write_megafone meanwhile listing user requires_discount = do
  now ← gets (λ w. w.now)
  id ← create promotions (new_megafone now listing user requires_discount)
  interleave meanwhile
  update listings listing
      (λ x. record x { promoted_until = some (now + megafone_free_days * day_ms) })
  pure id

unfoldable pub create_megafone : (World → World) → ℕ → ℕ → Action ℕ
create_megafone meanwhile listing user = do
  l ← get_promotable listing user PromotionType.megafone
  now ← gets (λ w. w.now)
  interleave meanwhile
  write_megafone meanwhile listing user (not (is_new now l))

abbrev pub new_bump : ℕ → ℕ → ℕ → BumpTier → Promotion
new_bump now listing user t = record {
  listing = some listing;
  user = user;
  type = PromotionType.bump;
  ends_at = now + t.days * day_ms;
  price_paid = t.price;
  requires_discount = false;
}

-- The wallet is found and covers the price, before the transaction.
unfoldable pub check_balance : ℕ → ℕ → Action (Unit {0})
check_balance user price = do
  wallet ← or_throw (← gets (λ w. lookup user w.wallets)) Exception.bad_request
  throw_if (not (leb_ℤ (pos price) wallet.balance)) Exception.bad_request

unfoldable pub bump_tx : ℕ → ℕ → ℕ → BumpTier → Action ℕ
bump_tx now listing user t = do
  charge_promotion user t.price
  id ← create promotions (new_bump now listing user t)
  update listings listing (λ x. record x { promoted_until = some (now + t.days * day_ms) })
  pure id

unfoldable pub create_bump : (World → World) → ℕ → ℕ → Option ℕ → Action ℕ
create_bump meanwhile listing user days = do
  tier ← or_throw (get_bump_tier (get_or days bump_duration_days)) Exception.bad_request
  get_promotable listing user PromotionType.bump
  check_balance user tier.price
  now ← gets (λ w. w.now)
  interleave meanwhile
  transaction (bump_tx now listing user tier)

abbrev pub new_spotlight : ℕ → ℕ → Promotion
new_spotlight now user = record {
  listing = none;
  user = user;
  type = PromotionType.spotlight;
  ends_at = now + spotlight_duration_days * day_ms;
  price_paid = spotlight_price;
  requires_discount = false;
}

abbrev pub is_active_of : ℕ → Listing → Bool
is_active_of user l = (l.seller == user) && listing_is l.status ListingStatus.active

unfoldable pub spotlight_tx : ℕ → ℕ → Action ℕ
spotlight_tx now user = do
  charge_promotion user spotlight_price
  update_many listings (is_active_of user)
      (λ x. record x { promoted_until = some (now + spotlight_duration_days * day_ms) })
  create promotions (new_spotlight now user)

unfoldable pub create_spotlight : (World → World) → ℕ → Action ℕ
create_spotlight meanwhile user = do
  existing ← gets (has_spotlight user)
  throw_if existing Exception.bad_request
  check_balance user spotlight_price
  now ← gets (λ w. w.now)
  interleave meanwhile
  transaction (spotlight_tx now user)
