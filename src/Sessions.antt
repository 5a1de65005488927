-- ===== src/Sessions.antt =====
-- Sessions: the rotation of refresh tokens (`refreshToken`, `handleRefreshTokenReuse`,
-- `revokeRefreshToken` and `generateTokens` of apps/api/src/auth/auth.service.ts), the check of an
-- access token (apps/api/src/auth/jwt.strategy.ts), and what ends the sessions of a user:
-- `changePassword` and `resetPassword`, and `forceLogout`, `banUser` and `unbanUser` of
-- apps/api/src/moderation/moderation.service.ts.
-- A raw token is a text; its digest, and those of passwords, are numbers that the hash functions, as
-- parameters, give. A fresh random token is an argument. An access token is what is signed.
pub mod Password
pub mod Held
pub mod Replay
pub mod Reset
use vintage.Prelude.{
  ℕ, ◌+◌, Bool, true, false, Option, none, some, List, not, ◌==◌, ◌&&◌, ◌||◌, ltb, leb, length,
  is_some,
}
use vintage.Prelude.Dict.{any_row}
use vintage.Validation.{Text}
use vintage.World.{World, User, RefreshToken, Effect, Listing, ListingStatus, listing_is}
use vintage.World.Action.{
  Action, Exception, ◌>>=◌, ◌>>◌, pure, throw, gets, or_throw, throw_if, branch, when, with_some,
  for_each, transaction, emit, interleave,
}
use vintage.World.Tables.{
  users, tokens, listings, find_unique, find_first, find_many, claim, update, update_many, create,
}

-- `crypto.createHash('sha256')` and bcrypt.
pub record Crypto : Type 0 where
  pub digest : Text → ℕ
  pub bcrypt_hash : ℕ → ℕ
  pub bcrypt_compare : ℕ → ℕ → Bool

-- REFRESH_TOKEN_TTL_MS.
abbrev pub refresh_ttl_ms : ℕ
refresh_ttl_ms = 604800000

-- What `jwtService.sign` signs.
pub record AccessToken : Type 0 where
  pub sub : ℕ
  pub ver : ℕ

pub record TokenPair : Type 0 where
  pub access : AccessToken
  pub refresh : Text

-- A row that was used or revoked.
abbrev pub is_spent : RefreshToken → Bool
is_spent t = is_some t.used_at || is_some t.revoked_at

abbrev pub has_hash : ℕ → RefreshToken → Bool
has_hash hash t = t.hash == hash

-- `usedAt: null, revokedAt: null`.
unfoldable pub use_token : ℕ → ℕ → Action Bool
use_token id now = claim tokens id (λ t. not (is_spent t)) (λ t. record t { used_at = some now })

-- `updateMany` where `revokedAt: null`, by the user and by the hash.
abbrev pub is_outstanding : ℕ → RefreshToken → Bool
is_outstanding user t = (t.user == user) && not (is_some t.revoked_at)

unfoldable pub revoke_user : ℕ → ℕ → Action (Unit {0})
revoke_user user now =
    update_many tokens (is_outstanding user) (λ t. record t { revoked_at = some now })

unfoldable pub revoke_hash : ℕ → ℕ → Action (Unit {0})
revoke_hash hash now =
    update_many tokens (λ t. has_hash hash t && not (is_some t.revoked_at))
      (λ t. record t { revoked_at = some now })

unfoldable pub link_token : ℕ → ℕ → Action (Unit {0})
link_token id replacement = update tokens id (λ t. record t { replaced_by = some replacement })

-- `tokenHash` is unique.
unfoldable pub create_token : RefreshToken → Action ℕ
create_token t = do
  taken ← gets (λ w. any_row (has_hash t.hash) w.tokens)
  throw_if taken Exception.database_error
  create tokens t

abbrev pub new_token : ℕ → ℕ → ℕ → RefreshToken
new_token now user hash = record {
  user = user;
  hash = hash;
  expires_at = now + refresh_ttl_ms;
  used_at = none;
  revoked_at = none;
  replaced_by = none;
}

abbrev pub bump_version : User → User
bump_version u = record u { token_version = u.token_version + 1 }

unfoldable pub handle_refresh_token_reuse : ℕ → Action (Unit {0})
handle_refresh_token_reuse user =
    transaction (do now ← gets (λ w. w.now); revoke_user user now; update users user bump_version)

unfoldable pub generate_tokens : (World → World) → Crypto → ℕ → Text → Action TokenPair
generate_tokens meanwhile crypto user raw = do
  u ← or_throw (← find_unique users user) Exception.unauthorized
  now ← gets (λ w. w.now)
  interleave meanwhile
  create_token (new_token now user (crypto.digest raw))
  pure (record { access = record { sub = user; ver = u.token_version }; refresh = raw })

-- The sweep, and the 401 after it.
unfoldable pub refuse_reuse : {A : Type 0} → ℕ → Action A
refuse_reuse user = do handle_refresh_token_reuse user; throw Exception.unauthorized

-- The new pair, and the link from the row to its replacement.
unfoldable pub rotate : (World → World) → Crypto → ℕ → ℕ → Text → Action TokenPair
rotate meanwhile crypto id user raw = do
  pair ← generate_tokens meanwhile crypto user raw
  interleave meanwhile
  replacement ← find_first tokens (has_hash (crypto.digest pair.refresh))
  with_some replacement (λ p. link_token id p.0)
  pure pair

unfoldable pub redeem : (World → World) → Crypto → ℕ → RefreshToken → Text → Action TokenPair
redeem meanwhile crypto id t raw = do
  now ← gets (λ w. w.now)
  throw_if (ltb t.expires_at now) Exception.unauthorized
  interleave meanwhile
  later ← gets (λ w. w.now)
  claimed ← use_token id later
  branch claimed (do interleave meanwhile; rotate meanwhile crypto id t.user raw)
      (refuse_reuse t.user)

-- `refreshToken`, of a raw token and the random text of its replacement.
unfoldable pub refresh_token : (World → World) → Crypto → Text → Text → Action TokenPair
refresh_token meanwhile crypto raw fresh = do
  throw_if (ltb (length raw) 32) Exception.unauthorized
  found ← or_throw (← find_first tokens (has_hash (crypto.digest raw))) Exception.unauthorized
  branch (is_spent found.1) (refuse_reuse (found.1).user)
      (redeem meanwhile crypto found.0 found.1 fresh)

-- `revokeRefreshToken`; an empty text is no token.
unfoldable pub revoke_refresh_token : Crypto → Text → Action (Unit {0})
revoke_refresh_token crypto raw = do
  now ← gets (λ w. w.now)
  when (not (length raw == 0)) (revoke_hash (crypto.digest raw) now)

-- What is read from an access token that verifies: `typeof payload.ver === 'number'` is `some`.
pub record Payload : Type 0 where
  pub sub : ℕ
  pub is_access : Bool
  pub ver : Option ℕ

-- `validate` of JwtStrategy.
unfoldable pub validate_access : Payload → Action User
validate_access p = do
  throw_if (not p.is_access) Exception.unauthorized
  u ← or_throw (← find_unique users p.sub) Exception.unauthorized
  throw_if u.is_banned Exception.unauthorized
  throw_if (not (elim p.ver [ none ↦ false | some v ↦ v == u.token_version ]))
      Exception.unauthorized
  pure u

-- `forceLogout`.
unfoldable pub force_logout : (World → World) → ℕ → Action (Unit {0})
force_logout meanwhile user = do
  or_throw (← find_unique users user) Exception.not_found
  interleave meanwhile
  update users user bump_version

abbrev is_active_of : ℕ → Listing → Bool
is_active_of user l = (l.seller == user) && listing_is l.status ListingStatus.active

unfoldable pub ban_tx : ℕ → Action (Unit {0})
ban_tx user = do
  update users user (λ u. record u { is_banned = true; token_version = u.token_version + 1 })
  update_many listings (is_active_of user) (λ l. record l { status = ListingStatus.suspended })

-- `banUser` and `unbanUser`.
unfoldable pub ban_user : (World → World) → ℕ → Action (Unit {0})
ban_user meanwhile user = do
  u ← or_throw (← find_unique users user) Exception.not_found
  throw_if u.is_banned Exception.bad_request
  suspended ← find_many listings (λ w k l. is_active_of user l)
  interleave meanwhile
  transaction (ban_tx user)
  for_each suspended (λ p. emit (Effect.sync_search p.0))
  emit (Effect.audit user)

unfoldable pub unban_user : (World → World) → ℕ → Action (Unit {0})
unban_user meanwhile user = do
  u ← or_throw (← find_unique users user) Exception.not_found
  throw_if (not u.is_banned) Exception.bad_request
  interleave meanwhile
  update users user (λ x. record x { is_banned = false })
  emit (Effect.audit user)
