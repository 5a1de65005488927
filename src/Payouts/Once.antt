-- ===== src/Payouts/Once.antt =====
-- `failAndRefund` of apps/api/src/wallet/payouts.service.ts.
use vintage.Prelude.{ℕ, ◌≡◌, refl, true, false, none, some, Option-cases, Bool-cases, inl, inr, ◌∷◌}
use vintage.Prelude.Int.{pos}
use vintage.Prelude.Dict.{lookup, insert, lookup-insert_self}
use vintage.World.{World, PayoutRequest, PayoutStatus, Wallet, EntryType}
use vintage.World.Action.{Exception, actions, ok, err}
use vintage.World.Tables.{payouts, claim_loses, claim_misses, claim_wins}
use vintage.Wallet.{refund_wallet, update_wallet, create_entry, moved}
use vintage.Payouts.{is_open, fail_and_refund}

-- A payout that is no longer open is not paid back, whatever amount is asked for.
fail_and_refund-closed :
    (id u n : ℕ) (p : PayoutRequest) (w : World)
    → lookup id w.payouts ≡ some p
    → is_open p ≡ false
    → (fail_and_refund id u n w).1 ≡ w
unfolding fail_and_refund actions
fail_and_refund-closed id u n p w e f = rw (claim_loses payouts id is_open _ w e f)

fail_and_refund-missing :
    (id u n : ℕ) (w : World) → lookup id w.payouts ≡ none → (fail_and_refund id u n w).1 ≡ w
unfolding fail_and_refund actions
fail_and_refund-missing id u n w e = rw (claim_misses payouts id is_open _ w e)

abbrev paid_back : ℕ → ℕ → ℕ → PayoutRequest → Wallet → World → World
paid_back id u n p x w = record w {
  payouts =
      insert id (record p { status = PayoutStatus.failed; completed_at = some w.now }) w.payouts;
  wallets = insert u (moved x (pos n) (pos 0)) w.wallets;
  ledger =
      (record { wallet = u; type = EntryType.refund; amount = pos n; reference = some id })
      ∷ w.ledger;
}

fail_and_refund-open :
    (id u n : ℕ) (p : PayoutRequest) (x : Wallet) (w : World)
    → lookup id w.payouts ≡ some p
    → is_open p ≡ true
    → lookup u w.wallets ≡ some x
    → fail_and_refund id u n w ≡ (ok tt, paid_back id u n p x w)
unfolding fail_and_refund refund_wallet update_wallet create_entry actions
fail_and_refund-open id u n p x w e t f = rw (claim_wins payouts id is_open _ w e t) (rw f)

fail_and_refund-lost :
    (id u n : ℕ) (p : PayoutRequest) (w : World)
    → lookup id w.payouts ≡ some p
    → is_open p ≡ true
    → lookup u w.wallets ≡ none
    → (fail_and_refund id u n w).0 ≡ err Exception.database_error
unfolding fail_and_refund refund_wallet update_wallet create_entry actions
fail_and_refund-lost id u n p w e t f = rw (claim_wins payouts id is_open _ w e t) (rw f)

-- A second call for the same payout changes nothing, whoever it would pay.
pub fail_and_refund-once :
    (id u n v m : ℕ) (w : World)
    → (fail_and_refund id u n w).0 ≡ ok tt
    → let w1 = (fail_and_refund id u n w).1 in (fail_and_refund id v m w1).1 ≡ w1
fail_and_refund-once id u n v m w h = elim (Option-cases (lookup id w.payouts)) [
  | inl e ↦ rw (fail_and_refund-missing id u n w e) (rw (fail_and_refund-missing id v m w e) refl)
  | inr (p, e) ↦ elim (Bool-cases (is_open p)) [
    | inl t ↦ elim (Option-cases (lookup u w.wallets)) [
      | inl f ↦ absurd (cc (h, fail_and_refund-lost id u n p w e t f))
      | inr (x, f) ↦ rw (fail_and_refund-open id u n p x w e t f) (
          fail_and_refund-closed id v m _ (paid_back id u n p x w)
            (lookup-insert_self id _ w.payouts) refl)
    ]
    | inr f ↦
        rw (fail_and_refund-closed id u n p w e f) (rw (fail_and_refund-closed id v m p w e f) refl)
  ]
]
