-- ===== src/Payouts.antt =====
-- The payout pipeline (apps/api/src/wallet/payouts.service.ts).
pub mod Once
pub mod Debit
pub mod Methods
pub mod Stored
pub mod Marks
pub mod Defaults
use vintage.Prelude.{ℕ, Bool, Option, none, some, not, ◌==◌, ◌||◌, ltb, is_some}
use vintage.Prelude.Int.{ℤ, pos, ◌-ℤ◌, leb_ℤ}
use vintage.Prelude.Dict.{lookup}
use vintage.World.{World, PayoutMethod, PayoutRequest, PayoutStatus, Effect, payout_is}
use vintage.World.Action.{
  Action, Exception, ◌>>=◌, ◌>>◌, pure, throw, gets, or_throw, throw_if, when, transaction, emit,
  interleave,
}
use vintage.World.Tables.{methods, payouts, find_unique, claim, update, create}
use vintage.Provider.{Provider, PayoutAnswer}
use vintage.Wallet.{debit_for_payout, refund_wallet, has_refund}
use vintage.Fraud.{evaluate_payout, is_block_action}

-- MIN_PAYOUT_BRL of packages/shared/src/constants.ts.
abbrev pub min_payout : ℕ
min_payout = 1000

-- `getOwnedOrThrow` of apps/api/src/wallet/payout-methods.service.ts.
unfoldable pub get_owned_or_throw : ℕ → ℕ → Action PayoutMethod
get_owned_or_throw user method = do
  m ← or_throw (← find_unique methods method) Exception.forbidden
  throw_if (not (m.user == user)) Exception.forbidden
  pure m

-- `status: { in: ['PENDING', 'PROCESSING'] }`.
abbrev pub is_open : PayoutRequest → Bool
is_open p = payout_is p.status PayoutStatus.pending || payout_is p.status PayoutStatus.processing

abbrev pub new_payout : ℕ → ℕ → ℕ → PayoutRequest
new_payout user amount method = record {
  user = user;
  method = method;
  amount = amount;
  status = PayoutStatus.pending;
  external_id = none;
  completed_at = none;
}

unfoldable pub debit_tx : ℕ → ℕ → ℕ → Action ℕ
debit_tx user amount method = do
  debit_for_payout user amount method
  create payouts (new_payout user amount method)

unfoldable pub fail_and_refund : ℕ → ℕ → ℕ → Action (Unit {0})
fail_and_refund id user amount = transaction (do
  now ← gets (λ w. w.now)
  claimed ←
      claim payouts id is_open
        (λ p. record p { status = PayoutStatus.failed; completed_at = some now })
  when claimed (refund_wallet user amount id))

-- The answer of the provider, after the debit is committed.
unfoldable pub record_sent : ℕ → PayoutStatus → Option ℕ → ℕ → Action PayoutStatus
record_sent id status completed_at external = do
  emit (Effect.pix_payout id external)
  update payouts id
      (λ p. record p { status = status; external_id = some external; completed_at = completed_at })
  pure status

unfoldable pub send_payout : (World → World) → ℕ → ℕ → ℕ → PayoutAnswer → Action PayoutStatus
send_payout meanwhile id user amount (PayoutAnswer.processing external) = do
  interleave meanwhile
  record_sent id PayoutStatus.processing none external
send_payout meanwhile id user amount (PayoutAnswer.completed external) = do
  interleave meanwhile
  now ← gets (λ w. w.now)
  record_sent id PayoutStatus.completed (some now) external
send_payout meanwhile id user amount PayoutAnswer.unavailable = pure PayoutStatus.pending
send_payout meanwhile id user amount PayoutAnswer.failure = do
  interleave meanwhile
  fail_and_refund id user amount
  throw Exception.bad_request

-- The gates that fail before any write on the wallet.
unfoldable pub check_payout : ℕ → ℕ → ℕ → Action ℤ
check_payout user amount method = do
  throw_if (amount == 0) Exception.bad_request
  throw_if (ltb amount min_payout) Exception.bad_request
  caller ← or_throw (← gets (λ w. lookup user w.users)) Exception.bad_request
  throw_if (not (is_some caller.cpf_encrypted)) Exception.bad_request
  throw_if (not caller.cpf_identity_verified) Exception.bad_request
  get_owned_or_throw user method
  decision ← evaluate_payout user method
  throw_if (is_block_action decision) Exception.forbidden
  wallet ← or_throw (← gets (λ w. lookup user w.wallets)) Exception.not_found
  throw_if (leb_ℤ wallet.balance (pos 0) || not (leb_ℤ (pos amount) wallet.balance))
      Exception.bad_request
  pure wallet.balance

-- The result: the id, the status and `newBalance`, reckoned from the balance that was read.
unfoldable pub request_payout :
    (World → World) → Provider → ℕ → ℕ → ℕ → Action (ℕ × PayoutStatus × ℤ)
request_payout meanwhile mp user amount method = do
  balance ← check_payout user amount method
  interleave meanwhile
  id ← transaction (debit_tx user amount method)
  status ← send_payout meanwhile id user amount (mp.payout_answer id)
  pure (id, status, balance -ℤ pos amount)

-- `refundWalletForFailedPayout`.
unfoldable pub refund_wallet_for_failed_payout : ℕ → PayoutRequest → Action (Unit {0})
refund_wallet_for_failed_payout id p = do
  wallet ← or_throw (← gets (λ w. lookup p.user w.wallets)) Exception.not_found
  transaction
      (do prior ← gets (has_refund p.user id); when (not prior) (refund_wallet p.user p.amount id))

-- `adminUpdateStatus` with 'FAILED' and with 'COMPLETED'; the result is `alreadyTerminal`.
unfoldable pub mark_failed : (World → World) → ℕ → Action Bool
mark_failed meanwhile id = do
  p ← or_throw (← find_unique payouts id) Exception.not_found
  throw_if (not (is_open p)) Exception.bad_request
  interleave meanwhile
  now ← gets (λ w. w.now)
  claimed ←
      claim payouts id is_open
        (λ x. record x { status = PayoutStatus.failed; completed_at = some now })
  when claimed (refund_wallet_for_failed_payout id p >> emit (Effect.audit id))
  pure (not claimed)

unfoldable pub mark_completed : (World → World) → ℕ → Action Bool
mark_completed meanwhile id = do
  p ← or_throw (← find_unique payouts id) Exception.not_found
  throw_if (not (is_open p)) Exception.bad_request
  interleave meanwhile
  now ← gets (λ w. w.now)
  claimed ←
      claim payouts id is_open
        (λ x. record x { status = PayoutStatus.completed; completed_at = some now })
  when claimed (emit (Effect.audit id))
  pure (not claimed)
