-- ===== src/Disputes/Fallback.antt =====
-- The refund of a dispute to the wallet (`applyWalletRefundFallback` of
-- apps/api/src/disputes/disputes.service.ts).
use vintage.Prelude.{
  ℕ, ◌≡◌, refl, ap, Option, true, false, none, some, ◌∷◌, arith, Bool-cases, inl, inr,
}
use vintage.Prelude.Int.{pos}
use vintage.Prelude.Dict.{Dict, lookup, lookup-insert_self}
use vintage.World.{World, Wallet, EntryType}
use vintage.World.Action.{actions, throw, pure, ok}
use vintage.World.Tables.{create_payment_flag}
use vintage.Wallet.{
  upsert_wallet, refund_wallet, update_wallet, create_entry, has_refund, ensure, moved,
}
use vintage.Wallet.Posting.{posted, wallet_of, entry, lookup-ensure}
use vintage.Disputes.{apply_wallet_refund_fallback}

abbrev flags : ℕ → Option ℕ → World → World
flags order none w = w
flags order (some p) w = record w { payment_flags = order ∷ w.payment_flags }

abbrev credited : ℕ → ℕ → ℕ → Option ℕ → World → World
credited buyer order amount payment w = flags order payment (record w {
  wallets = posted buyer (pos amount) (pos 0) w.wallets;
  ledger = entry buyer EntryType.refund (pos amount) order ∷ w.ledger;
})

fallback-first :
    (buyer order amount : ℕ) (payment : Option ℕ) (w : World)
    → has_refund buyer order w ≡ false
    → apply_wallet_refund_fallback buyer order amount payment w
      ≡ (ok tt, credited buyer order amount payment w)
unfolding apply_wallet_refund_fallback upsert_wallet refund_wallet update_wallet create_entry
    create_payment_flag actions throw pure
fallback-first buyer order amount none w h =
    rw h (rw (lookup-ensure buyer w.wallets, update_wallet) refl)
fallback-first buyer order amount (some p) w h =
    rw h (rw (lookup-ensure buyer w.wallets, update_wallet) refl)

fallback-again :
    (buyer order amount : ℕ) (payment : Option ℕ) (w : World)
    → has_refund buyer order w ≡ true
    → apply_wallet_refund_fallback buyer order amount payment w
      ≡ (ok tt, record w { wallets = ensure buyer w.wallets })
unfolding apply_wallet_refund_fallback upsert_wallet actions throw pure
fallback-again buyer order amount payment w h = rw h refl

ensure-found : (u : ℕ) (x : Wallet) (d : Dict Wallet) → lookup u d ≡ some x → ensure u d ≡ d
ensure-found u x d e = rw (e, ensure) refl

has_refund-credited :
    (buyer order amount : ℕ) (payment : Option ℕ) (w : World)
    → has_refund buyer order (credited buyer order amount payment w) ≡ true
has_refund-credited buyer order amount none w = ground arith
has_refund-credited buyer order amount (some p) w = ground arith

posted-found :
    (buyer order amount : ℕ) (payment : Option ℕ) (w : World)
    → lookup buyer (credited buyer order amount payment w).wallets
      ≡ some (moved (wallet_of buyer w.wallets) (pos amount) (pos 0))
posted-found buyer order amount none w = lookup-insert_self buyer _ (ensure buyer w.wallets)
posted-found buyer order amount (some p) w = lookup-insert_self buyer _ (ensure buyer w.wallets)

fallback-credited :
    (buyer order amount again : ℕ) (payment other : Option ℕ) (w : World)
    → has_refund buyer order w ≡ false
    → let w1 = (apply_wallet_refund_fallback buyer order amount payment w).1 in
      (apply_wallet_refund_fallback buyer order again other w1).1 ≡ w1
fallback-credited buyer order amount again payment other w f =
    let v = credited buyer order amount payment w in
    rw (fallback-first buyer order amount payment w f) (
      rw
        (fallback-again buyer order again other v
          (has_refund-credited buyer order amount payment w))
        (ap (λ d. record v { wallets = d })
          (ensure-found buyer _ v.wallets (posted-found buyer order amount payment w))))

-- A refund of an order to the wallet of its buyer is given once: a second call changes nothing,
-- whatever amount it asks for.
pub apply_wallet_refund_fallback-once :
    (buyer order amount again : ℕ) (payment other : Option ℕ) (w : World)
    → let w1 = (apply_wallet_refund_fallback buyer order amount payment w).1 in
      (apply_wallet_refund_fallback buyer order again other w1).1 ≡ w1
apply_wallet_refund_fallback-once buyer order amount again payment other w =
    elim (Bool-cases (has_refund buyer order w)) [
      | inl t ↦ rw (fallback-again buyer order amount payment w t) (
          rw
            (fallback-again buyer order again other (record w { wallets = ensure buyer w.wallets })
              t)
            (rw
              (ensure-found buyer (wallet_of buyer w.wallets) (ensure buyer w.wallets)
                (lookup-ensure buyer w.wallets))
              refl))
      | inr f ↦ fallback-credited buyer order amount again payment other w f
    ]
