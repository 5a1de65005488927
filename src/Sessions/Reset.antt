-- ===== src/Sessions/Reset.antt =====
-- A reset of the password ends every session and every other reset (`resetPassword` of
-- apps/api/src/auth/auth.service.ts).
use vintage.Prelude.{ℕ, ◌≡◌, refl, true, false, some, [], ◌∷◌, arith}
use vintage.Prelude.Dict.{
  Dict, lookup, insert, any_row, map_where, lookup-insert_self, lookup-map_where,
}
use vintage.World.{World, ResetToken, User}
use vintage.World.Action.{Exception, ok, err, actions, throw, pure, transaction}
use vintage.World.Tables.{claim, update, update_many}
use vintage.Sessions.{is_outstanding, revoke_user}
use vintage.Sessions.Password.{is_unused_of, is_redeemable, with_password, use_resets, reset_tx}
use vintage.Sessions.Replay.{swept, swept_lem}

abbrev used : ℕ → ResetToken → ResetToken
used now t = record t { used_at = some now }

used_lem :
    (user now : ℕ) (d : Dict ResetToken)
    → any_row (is_unused_of user) (map_where (is_unused_of user) (used now) d) ≡ false
used_lem user now [] = refl
used_lem user now ((i, t) ∷ d) = ground (arith, used_lem user now d)

abbrev reset : ℕ → ℕ → ℕ → ResetToken → User → World → World
reset id user hash t u w = record w {
  users = insert user (with_password hash u) w.users;
  tokens = swept user w.now w.tokens;
  resets = map_where (is_unused_of user) (used w.now) (insert id (used w.now t) w.resets);
}

reset_tx_lem :
    (id user hash : ℕ) (t : ResetToken) (u : User) (w : World)
    → lookup id w.resets ≡ some t
    → is_redeemable w.now t ≡ true
    → lookup user w.users ≡ some u
    → transaction (reset_tx id user hash) w ≡ (ok tt, reset id user hash t u w)
unfolding reset_tx use_resets revoke_user claim update update_many actions throw pure
reset_tx_lem id user hash t u w e r i = rw e (rw r (rw i refl))

reset_tx-lost :
    (id user hash : ℕ) (t : ResetToken) (w : World)
    → lookup id w.resets ≡ some t
    → is_redeemable w.now t ≡ false
    → transaction (reset_tx id user hash) w ≡ (err Exception.bad_request, w)
unfolding reset_tx claim actions throw pure
reset_tx-lost id user hash t w e r = rw e (rw r refl)

-- The row of the link stays used.
kept_lem :
    (id user now : ℕ) (t : ResetToken) (d : Dict ResetToken)
    → lookup id (map_where (is_unused_of user) (used now) (insert id (used now t) d))
      ≡ some (used now t)
kept_lem id user now t d = ground (
  arith,
  lookup-map_where (is_unused_of user) (used now) id (used now t) (insert id (used now t) d)
      (lookup-insert_self id (used now t) d),
)

-- Where the link can be redeemed and the user exists, the transaction of a reset sets the password,
-- raises the version of the user, and leaves the user no refresh token that is not revoked and no
-- unused link; and a second transaction on the link, for any user and password, is a bad request
-- that writes nothing.
pub reset_tx-ends :
    (id user hash user' hash' : ℕ) (t : ResetToken) (u : User) (w : World)
    → lookup id w.resets ≡ some t
    → is_redeemable w.now t ≡ true
    → lookup user w.users ≡ some u
    → let r = transaction (reset_tx id user hash) w in
      (r.0 ≡ ok tt)
      × (lookup user r.1.users ≡ some (with_password hash u))
      × (any_row (is_outstanding user) r.1.tokens ≡ false)
      × (any_row (is_unused_of user) r.1.resets ≡ false)
      × (transaction (reset_tx id user' hash') r.1 ≡ (err Exception.bad_request, r.1))
reset_tx-ends id user hash user' hash' t u w e r i = rw (reset_tx_lem id user hash t u w e r i) (
  refl,
  lookup-insert_self user (with_password hash u) w.users,
  swept_lem user w.now w.tokens,
  used_lem user w.now (insert id (used w.now t) w.resets),
  reset_tx-lost id user' hash' (used w.now t) (reset id user hash t u w)
      (kept_lem id user w.now t w.resets) refl,
)
