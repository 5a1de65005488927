-- ===== src/Sessions/Replay.antt =====
-- Redeeming a refresh token (`refreshToken` of apps/api/src/auth/auth.service.ts): at most once, and
-- a replay ends every session of the user.
use vintage.Prelude.{
  ℕ, ◌+◌, ◌<◌, ◌≡◌, refl, Bool, true, false, some, [], ◌∷◌, ltb, length, arith, Bool-cases, inl,
  inr, ◌==◌, eq_self,
}
use vintage.Prelude.Dict.{
  Dict, lookup, insert, find, any_row, map_where, lookup-insert_self, lookup-insert, find-insert,
}
use vintage.Validation.{Text}
use vintage.World.{World, RefreshToken, User}
use vintage.World.Action.{Exception, ok, err, actions, throw, pure}
use vintage.World.Tables.{find_unique, find_first, claim, update, update_many, create}
use vintage.Sessions.{
  Crypto, has_hash, is_spent, is_outstanding, bump_version, handle_refresh_token_reuse,
  refuse_reuse, revoke_user, refresh_token, redeem, rotate, generate_tokens, use_token,
  force_logout, new_token, create_token, link_token, validate_access,
}

-- The rows after the sweep.
abbrev pub swept : ℕ → ℕ → Dict RefreshToken → Dict RefreshToken
swept user now d = map_where (is_outstanding user) (λ t. record t { revoked_at = some now }) d

pub swept_lem :
    (user now : ℕ) (d : Dict RefreshToken)
    → any_row (is_outstanding user) (swept user now d) ≡ false
swept_lem user now [] = refl
swept_lem user now ((i, t) ∷ d) = ground (arith, swept_lem user now d)

-- A token that was used or revoked, of a user that exists, is refused as unauthorized, every token of
-- the user that was not revoked is revoked, and the version of the user rises by one.
pub refresh_token-replay :
    (meanwhile : World → World) (crypto : Crypto) (raw fresh : Text) (k : ℕ) (x : RefreshToken)
    (u : User) (w : World)
    → ltb (length raw) 32 ≡ false
    → find (has_hash (crypto.digest raw)) w.tokens ≡ some (k, x)
    → is_spent x ≡ true
    → lookup x.user w.users ≡ some u
    → let r = refresh_token meanwhile crypto raw fresh w in
      (r.0 ≡ err Exception.unauthorized)
      × (any_row (is_outstanding x.user) r.1.tokens ≡ false)
      × (lookup x.user r.1.users ≡ some (bump_version u))
unfolding refresh_token refuse_reuse handle_refresh_token_reuse revoke_user update update_many
    find_first actions throw pure
refresh_token-replay meanwhile crypto raw fresh k x u w n f s e = rw n (
    rw f (
      rw s (
        rw e (
          refl,
          swept_lem x.user w.now w.tokens,
          lookup-insert_self x.user (bump_version u) w.users,
        ))))

abbrev spent_now : ℕ → RefreshToken → RefreshToken
spent_now now x = record x { used_at = some now }

-- The state after a rotation that no other request interrupts.
abbrev rotated : Crypto → Text → ℕ → RefreshToken → World → World
rotated crypto fresh k x w = record w {
  next_id = w.next_id + 1;
  tokens =
      insert k (record x { used_at = some w.now; replaced_by = some w.next_id })
        (insert w.next_id (new_token w.now x.user (crypto.digest fresh))
          (insert k (spent_now w.now x) w.tokens));
}

any_row-insert_same :
    (p : RefreshToken → Bool) (k : ℕ) (y z : RefreshToken) (d : Dict RefreshToken)
    → lookup k d ≡ some y
    → p z ≡ p y
    → any_row p (insert k z d) ≡ any_row p d
any_row-insert_same p k y z [] l e = cc l
any_row-insert_same p k y z ((i, v) ∷ d) l e = elim (Bool-cases (i == k)) [
  | inl s ↦ ground (arith, l, e, s)
  | inr n ↦
      let rest = any_row-insert_same p k y z d (ground (arith, l, n)) e in ground (arith, rest, n)
]

refresh_token_lem :
    (crypto : Crypto) (raw fresh : Text) (k : ℕ) (x : RefreshToken) (u : User) (w : World)
    → ltb (length raw) 32 ≡ false
    → find (has_hash (crypto.digest raw)) w.tokens ≡ some (k, x)
    → lookup k w.tokens ≡ some x
    → is_spent x ≡ false
    → ltb x.expires_at w.now ≡ false
    → lookup x.user w.users ≡ some u
    → any_row (has_hash (crypto.digest fresh)) w.tokens ≡ false
    → k < w.next_id
    → refresh_token (λ v. v) crypto raw fresh w ≡ (
      ok (record { access = record { sub = x.user; ver = u.token_version }; refresh = fresh }),
      rotated crypto fresh k x w,
    )
unfolding refresh_token redeem rotate generate_tokens use_token create_token link_token find_first
    find_unique claim update create actions throw pure
refresh_token_lem crypto raw fresh k x u w n f g s e i free h =
    let z = spent_now w.now x in
    let new = new_token w.now x.user (crypto.digest fresh) in
    let d = insert k z w.tokens in
    let free2 : any_row (has_hash (crypto.digest fresh)) d ≡ false =
      rw (any_row-insert_same (has_hash (crypto.digest fresh)) k x z w.tokens g refl) free in
    let found =
      find-insert (has_hash (crypto.digest fresh)) w.next_id new d free2
        (eq_self (crypto.digest fresh)) in
    let old : lookup k (insert w.next_id new d) ≡ some z =
      ground (arith, h, lookup-insert w.next_id k new d, lookup-insert_self k z w.tokens) in
    rw n (rw f (rw s (rw e (rw g (rw s (rw i (rw free2 (rw found (rw old refl)))))))))

-- An unspent token that has not expired, stored under an id that was given out, of a user that
-- exists: where the random token is new and no other request interrupts, the answer is a pair with
-- the version of the user and the new token, the presented row is used and linked to the row of the
-- new token, and that row is the user's and unspent.
pub refresh_token-rotates :
    (crypto : Crypto) (raw fresh : Text) (k : ℕ) (x : RefreshToken) (u : User) (w : World)
    → ltb (length raw) 32 ≡ false
    → find (has_hash (crypto.digest raw)) w.tokens ≡ some (k, x)
    → lookup k w.tokens ≡ some x
    → is_spent x ≡ false
    → ltb x.expires_at w.now ≡ false
    → lookup x.user w.users ≡ some u
    → any_row (has_hash (crypto.digest fresh)) w.tokens ≡ false
    → k < w.next_id
    → let r = refresh_token (λ v. v) crypto raw fresh w in
      (r.0
        ≡ ok (record { access = record { sub = x.user; ver = u.token_version }; refresh = fresh }))
      × (lookup k r.1.tokens
          ≡ some (record x { used_at = some w.now; replaced_by = some w.next_id }))
      × (lookup w.next_id r.1.tokens ≡ some (new_token w.now x.user (crypto.digest fresh)))
refresh_token-rotates crypto raw fresh k x u w n f g s e i free h =
    let z = record x { used_at = some w.now; replaced_by = some w.next_id } in
    let new = new_token w.now x.user (crypto.digest fresh) in
    let d = insert w.next_id new (insert k (spent_now w.now x) w.tokens) in
    rw (refresh_token_lem crypto raw fresh k x u w n f g s e i free h) (
      refl,
      lookup-insert_self k z d,
      ground (
        arith,
        h,
        lookup-insert k w.next_id z d,
        lookup-insert_self w.next_id new (insert k (spent_now w.now x) w.tokens),
      ),
    )

force_logout_lem :
    (user : ℕ) (u : User) (w : World)
    → lookup user w.users ≡ some u
    → (force_logout (λ v. v) user w).1 ≡ record w { users = insert user (bump_version u) w.users }
unfolding force_logout update find_unique actions throw pure
force_logout_lem user u w i = rw (i, update) (rw i refl)

validate_access_lem :
    (user : ℕ) (u : User) (w : World)
    → lookup user w.users ≡ some u
    → u.is_banned ≡ false
    → (validate_access (record { sub = user; is_access = true; ver = some u.token_version }) w).0
      ≡ ok u
unfolding validate_access find_unique actions throw pure
validate_access_lem user u w i b = rw i (rw b (rw (eq_self u.token_version) refl))

-- After a forced logout of a user who is not banned, an unspent token of the user that has not
-- expired is still redeemed, where no other request interrupts and the random token is new, and the
-- access token that it gives is accepted.
pub force_logout-outlived :
    (crypto : Crypto) (raw fresh : Text) (k : ℕ) (x : RefreshToken) (u : User) (w : World)
    → ltb (length raw) 32 ≡ false
    → find (has_hash (crypto.digest raw)) w.tokens ≡ some (k, x)
    → lookup k w.tokens ≡ some x
    → is_spent x ≡ false
    → ltb x.expires_at w.now ≡ false
    → lookup x.user w.users ≡ some u
    → u.is_banned ≡ false
    → any_row (has_hash (crypto.digest fresh)) w.tokens ≡ false
    → k < w.next_id
    → let r = refresh_token (λ v. v) crypto raw fresh (force_logout (λ v. v) x.user w).1 in
      let ver = u.token_version + 1 in
      (r.0 ≡ ok (record { access = record { sub = x.user; ver = ver }; refresh = fresh }))
      × ((validate_access (record { sub = x.user; is_access = true; ver = some ver }) r.1).0
          ≡ ok (bump_version u))
force_logout-outlived crypto raw fresh k x u w n f g s e i b free h =
    let v = record w { users = insert x.user (bump_version u) w.users } in
    let j = lookup-insert_self x.user (bump_version u) w.users in
    rw (force_logout_lem x.user u w i) (
      rw (refresh_token_lem crypto raw fresh k x (bump_version u) v n f g s e j free h)
        (refl, validate_access_lem x.user (bump_version u) (rotated crypto fresh k x v) j b))
