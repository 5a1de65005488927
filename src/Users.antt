-- ===== src/Users.antt =====
-- What a user does to the own account that other parts of the program read: `toggleVacationMode` and
-- `deleteAccount` of apps/api/src/users/users.service.ts.
use vintage.Prelude.{ℕ, Bool, true, Option, none, some, not, ◌==◌, ◌&&◌, ◌||◌, if◌then◌else◌}
use vintage.World.{
  World, User, Listing, ListingStatus, Order, OrderStatus, Effect, listing_is, order_is,
}
use vintage.World.Action.{
  Action, Exception, ◌>>=◌, ◌>>◌, throw, throw_if, or_throw, for_each, transaction, emit,
  interleave,
}
use vintage.World.Tables.{
  users, listings, orders, methods, find_unique, find_many, update, update_many, delete_many,
}
use vintage.Offers.{reject_offers}
use vintage.Sessions.{Crypto}

abbrev from_status : Bool → ListingStatus
from_status enabled = if enabled then ListingStatus.active else ListingStatus.paused

abbrev to_status : Bool → ListingStatus
to_status enabled = if enabled then ListingStatus.paused else ListingStatus.active

abbrev has_status : ℕ → ListingStatus → Listing → Bool
has_status user s l = (l.seller == user) && listing_is l.status s

unfoldable pub toggle_vacation_mode : (World → World) → ℕ → Bool → Action (Unit {0})
toggle_vacation_mode meanwhile user enabled = do
  update users user (λ u. record u { vacation_mode = enabled })
  interleave meanwhile
  affected ← find_many listings (λ w k l. has_status user (from_status enabled) l)
  interleave meanwhile
  update_many listings (has_status user (from_status enabled))
      (λ l. record l { status = to_status enabled })
  for_each affected (λ p. emit (Effect.sync_search p.0))

-- `password` or, without one, the verdict on the confirmation code, which the process keeps.
unfoldable pub confirm_deletion : Crypto → Option ℕ → Option Bool → User → Action (Unit {0})
confirm_deletion crypto (some password) code u =
    throw_if (not (crypto.bcrypt_compare password u.password_hash)) Exception.unauthorized
confirm_deletion crypto none (some valid) u = throw_if (not valid) Exception.unauthorized
confirm_deletion crypto none none u = throw Exception.bad_request

abbrev is_offered_by : ℕ → Listing → Bool
is_offered_by user l =
    (l.seller == user)
    && (listing_is l.status ListingStatus.active || listing_is l.status ListingStatus.paused)

abbrev is_unpaid_of : ℕ → Order → Bool
is_unpaid_of user o = (o.buyer == user) && order_is o.status OrderStatus.pending

-- The row of `deletionAuditLog` is an effect.
unfoldable pub delete_tx : ℕ → Action (Unit {0})
delete_tx user = do
  update users user (λ u. record u { is_deleted = true; is_banned = true; cpf_encrypted = none })
  delete_many methods (λ m. m.user == user)
  update_many listings (is_offered_by user) (λ l. record l { status = ListingStatus.deleted })
  update_many orders (is_unpaid_of user) (λ o. record o { status = OrderStatus.cancelled })
  reject_offers user
  emit (Effect.audit user)

unfoldable pub delete_account :
    (World → World) → Crypto → ℕ → Option ℕ → Option Bool → Action (Unit {0})
delete_account meanwhile crypto user password code = do
  u ← or_throw (← find_unique users user) Exception.not_found
  throw_if u.is_deleted Exception.bad_request
  confirm_deletion crypto password code u
  interleave meanwhile
  deleted ← find_many listings (λ w k l. is_offered_by user l)
  interleave meanwhile
  transaction (delete_tx user)
  for_each deleted (λ p. emit (Effect.sync_search p.0))
