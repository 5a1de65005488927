-- ===== src/Tests/Sessions.antt =====
-- The theorems on sessions, used on the marketplace.
use vintage.Prelude.{◌≡◌, refl, true, false, none, some, [], ◌∷◌, arith}
use vintage.Prelude.Dict.{lookup, any_row}
use vintage.Validation.{Text}
use vintage.World.{World, User, RefreshToken, ResetToken, OrderStatus}
use vintage.World.Action.{Result, ok, actions, throw, pure, transaction}
use vintage.World.Tables.{find_first, find_unique, claim, update, create}
use vintage.Sessions.{
  TokenPair, is_outstanding, refresh_token, redeem, rotate, generate_tokens, use_token,
  create_token, link_token, force_logout, new_token,
}
use vintage.Sessions.Password.{reset_tx}
use vintage.Sessions.Replay.{refresh_token-replay, refresh_token-rotates, force_logout-outlived}
use vintage.Sessions.Reset.{reset_tx-ends}
use vintage.System.{Request, Schedule, run}
use vintage.System.Redeemed.{refresh_token-once}
use vintage.Tests.{a_world, env, crypto}

abbrev pub a_user : User
a_user = record {
  created_at = 0;
  cpf_encrypted = none;
  cpf_identity_verified = true;
  is_banned = false;
  is_deleted = false;
  token_version = 4;
  password_hash = 77;
  vacation_mode = false;
  cpf_checksum_valid = true;
  rating_sum = 0;
  rating_count = 0;
}

-- A token of user 2 under the digest 65, and a link that resets the password.
abbrev a_token : RefreshToken
a_token = record {
  user = 2;
  hash = 65;
  expires_at = 5000;
  used_at = none;
  revoked_at = none;
  replaced_by = none;
}

abbrev a_reset : ResetToken
a_reset = record { user = 2; hash = 90; expires_at = 4000; used_at = none }

abbrev signed_in : World
signed_in = record (a_world OrderStatus.cancelled) {
  users = (2, a_user) ∷ [];
  tokens = (60, a_token) ∷ [];
  resets = (70, a_reset) ∷ [];
}

-- Texts of 32 characters that differ in the first.
abbrev rest_of : Text
rest_of =
    0
    ∷ (0
        ∷ (0
            ∷ (0
                ∷ (0
                    ∷ (0
                        ∷ (0
                            ∷ (0
                                ∷ (0
                                    ∷ (0
                                        ∷ (0
                                            ∷ (0
                                                ∷ (0
                                                    ∷ (0
                                                        ∷ (0
                                                            ∷ (0
                                                            ∷ (0
                                                            ∷ (0
                                                            ∷ (0
                                                            ∷ (0
                                                            ∷ (0
                                                            ∷ (0
                                                            ∷ (0
                                                            ∷ (0
                                                            ∷ (0
                                                            ∷ (0
                                                            ∷ (0
                                                            ∷ (0
                                                            ∷ (0
                                                            ∷ (0
                                                            ∷ (0 ∷ []))))))))))))))))))))))))))))))

abbrev raw : Text
raw = 65 ∷ rest_of

abbrev fresh : Text
fresh = 66 ∷ rest_of

abbrev again : Text
again = 67 ∷ rest_of

refresh_token-rotates_example :
    lookup 100 (refresh_token (λ v. v) crypto raw fresh signed_in).1.tokens
    ≡ some (new_token 1000 2 66)
refresh_token-rotates_example =
    (refresh_token-rotates crypto raw fresh 60 a_token a_user signed_in refl refl refl refl refl
      refl refl (omega arith)).2

force_logout-outlived_example :
    (refresh_token (λ v. v) crypto raw fresh (force_logout (λ v. v) 2 signed_in).1).0
    ≡ ok (record { access = record { sub = 2; ver = 5 }; refresh = fresh })
force_logout-outlived_example =
    (force_logout-outlived crypto raw fresh 60 a_token a_user signed_in refl refl refl refl refl
      refl refl refl (omega arith)).0

-- The token was used, and another one is outstanding.
abbrev replaying : World
replaying = record signed_in {
  tokens = (60, record a_token { used_at = some 900 }) ∷ ((61, record a_token { hash = 64 }) ∷ []);
}

refresh_token-replay_example :
    any_row (is_outstanding 2) (refresh_token (λ v. v) crypto raw fresh replaying).1.tokens ≡ false
refresh_token-replay_example =
    (refresh_token-replay (λ v. v) crypto raw fresh 60 (record a_token { used_at = some 900 })
      a_user replaying refl refl refl refl).1

abbrev redeemed : Result TokenPair × World
redeemed = refresh_token (run env Schedule.done) env.crypto raw fresh signed_in

abbrev a_pair : TokenPair
a_pair = record { access = record { sub = 2; ver = 4 }; refresh = fresh }

redeemed-ok : redeemed ≡ (ok a_pair, redeemed.1)
unfolding refresh_token redeem rotate generate_tokens use_token create_token link_token find_first
    find_unique claim update create actions throw pure run
redeemed-ok = refl

-- The forced logout of the user comes after the redemption.
refresh_token-once_example : ¬ (
    (refresh_token
      (λ v. v)
      env.crypto
      raw
      again
      (run env (Schedule.serve (Request.kick 2) Schedule.done Schedule.done) redeemed.1)).0
    ≡ ok a_pair)
refresh_token-once_example =
    refresh_token-once env Schedule.done
      (Schedule.serve (Request.kick 2) Schedule.done Schedule.done) (λ v. v) raw fresh again 60
      a_token a_pair a_pair signed_in redeemed.1 refl refl (omega arith) redeemed-ok

reset_tx-ends_example :
    any_row (is_outstanding 2) (transaction (reset_tx 70 2 88) signed_in).1.tokens ≡ false
reset_tx-ends_example = (reset_tx-ends 70 2 88 2 99 a_reset a_user signed_in refl refl refl).2
