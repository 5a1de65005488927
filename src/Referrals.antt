-- ===== src/Referrals.antt =====
-- The invite-a-friend reward: `creditIfEligible` of apps/api/src/referrals/referrals.service.ts.
use vintage.Prelude.{ℕ, some, [], ◌∷◌, ◌==◌, not, is_some}
use vintage.World.{Referral, Effect}
use vintage.World.Action.{
  Action, ◌>>=◌, ◌>>◌, gets, when, with_some, transaction, swallow, for_each, emit, interleave,
}
use vintage.World.{World}
use vintage.World.Tables.{find_first, claim, referrals}
use vintage.Wallet.{upsert_wallet, credit_wallet}

-- REFERRAL_REWARD_BRL of packages/shared/src/constants.ts.
abbrev pub referral_reward : ℕ
referral_reward = 1000

-- The body of the loop over the referrer and the referee.
unfoldable pub credit_reward : ℕ → ℕ → Action (Unit {0})
credit_reward referral user = do upsert_wallet user; credit_wallet user referral_reward referral

unfoldable pub credit_referral : (World → World) → ℕ → Referral → Action (Unit {0})
credit_referral meanwhile id r = do
  interleave meanwhile
  now ← gets (λ w. w.now)
  transaction (do
    claimed ←
        claim referrals id (λ x. not (is_some x.reward_credited_at))
          (λ x. record x { reward_credited_at = some now; reward_amount = some referral_reward })
    when claimed (for_each (r.referrer ∷ r.referee ∷ []) (credit_reward id)))
  emit (Effect.notify r.referrer id)
  emit (Effect.notify r.referee id)

unfoldable pub credit_if_eligible : (World → World) → ℕ → Action (Unit {0})
credit_if_eligible meanwhile referee = swallow (do
  found ← find_first referrals (λ r. r.referee == referee)
  with_some found
      (λ p. when (not (is_some (p.1).reward_credited_at)) (credit_referral meanwhile p.0 p.1)))
