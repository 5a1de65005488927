-- ===== src/Sessions/Password.antt =====
-- What a change and a reset of the password do to sessions (`changePassword` and `resetPassword` of
-- apps/api/src/auth/auth.service.ts). A password is a number.
use vintage.Prelude.{ℕ, ◌+◌, Bool, not, ◌==◌, ◌&&◌, ltb, is_some, some}
use vintage.Validation.{Text}
use vintage.World.{World, User, ResetToken}
use vintage.World.Action.{
  Action, Exception, ◌>>=◌, ◌>>◌, gets, or_throw, throw_if, transaction, interleave,
}
use vintage.World.Tables.{users, resets, find_unique, find_first, claim, update, update_many}
use vintage.Sessions.{Crypto, revoke_user}

-- `data: { passwordHash, tokenVersion: { increment: 1 } }`.
abbrev pub with_password : ℕ → User → User
with_password hash u = record u { password_hash = hash; token_version = u.token_version + 1 }

abbrev pub is_unused_of : ℕ → ResetToken → Bool
is_unused_of user t = (t.user == user) && not (is_some t.used_at)

unfoldable pub use_resets : ℕ → ℕ → Action (Unit {0})
use_resets user now = update_many resets (is_unused_of user) (λ t. record t { used_at = some now })

-- Three writes outside any transaction.
unfoldable pub change_password : (World → World) → Crypto → ℕ → ℕ → ℕ → Action (Unit {0})
change_password meanwhile crypto user current new = do
  u ← or_throw (← find_unique users user) Exception.unauthorized
  throw_if u.is_deleted Exception.unauthorized
  throw_if (not (crypto.bcrypt_compare current u.password_hash)) Exception.unauthorized
  throw_if (current == new) Exception.bad_request
  interleave meanwhile
  update users user (with_password (crypto.bcrypt_hash new))
  interleave meanwhile
  now ← gets (λ w. w.now)
  use_resets user now
  interleave meanwhile
  later ← gets (λ w. w.now)
  revoke_user user later

abbrev pub is_redeemable : ℕ → ResetToken → Bool
is_redeemable now t = not (is_some t.used_at) && ltb now t.expires_at

-- The claim leaves no unused row under its own id, so `id: { not: record.id }` excludes nothing.
unfoldable pub reset_tx : ℕ → ℕ → ℕ → Action (Unit {0})
reset_tx id user hash = do
  now ← gets (λ w. w.now)
  claimed ← claim resets id (is_redeemable now) (λ t. record t { used_at = some now })
  throw_if (not claimed) Exception.bad_request
  update users user (with_password hash)
  use_resets user now
  revoke_user user now

unfoldable pub reset_password : (World → World) → Crypto → Text → ℕ → Action (Unit {0})
reset_password meanwhile crypto raw new = do
  found ← or_throw (← find_first resets (λ t. t.hash == crypto.digest raw)) Exception.bad_request
  now ← gets (λ w. w.now)
  throw_if (is_some (found.1).used_at) Exception.bad_request
  throw_if (ltb (found.1).expires_at now) Exception.bad_request
  u ← or_throw (← find_unique users (found.1).user) Exception.bad_request
  throw_if u.is_deleted Exception.bad_request
  interleave meanwhile
  transaction (reset_tx found.0 (found.1).user (crypto.bcrypt_hash new))
