-- ===== src/System/Rows.antt =====
-- Invariants of the payments, the coupons and the offers, which no write that stands alone touches but the one
-- that marks a payment as succeeded.
use vintage.Prelude.{ℕ, Option, none, some, ◌+◌, ◌≡◌, arith, Option-cases, Bool-cases, inl, inr}
use vintage.Prelude.Int.{ℤ, pos, leb_ℤ}
use vintage.Prelude.Dict.{Dict, lookup}
use vintage.World.{World, Coupon, Offer, Payment, RefreshToken, EntryType}
use vintage.World.Action.{actions, ◌>>=◌, modify, emit}
use vintage.World.Keeps.{Keeps, keeps_rules}
use vintage.World.Tables.{create_snapshot, delete_snapshots, create_payment_flag}
use vintage.CronLock.{acquire}
use vintage.Fraud.{create_flag}
use vintage.Payments.{add_webhook, mark_succeeded}
use vintage.Wallet.{
  upsert_wallet, update_wallet, create_entry, hold_escrow, release_escrow, reverse_escrow,
  refund_wallet, credit_wallet, debit_wallet, debit_for_payout, charge, charge_promotion,
}
use vintage.System.Invariant.{Writes}

acquire_rows :
    (id : ℕ) (w : World)
    → let u = (acquire id w).1 in
      (u.payments ≡ w.payments)
      × (u.coupons ≡ w.coupons)
      × (u.offers ≡ w.offers)
      × (u.tokens ≡ w.tokens)
      × (u.next_id ≡ w.next_id)
unfolding acquire
acquire_rows id w = ground arith

create_flag_rows :
    (user code : ℕ) (w : World)
    → let u = (create_flag user code w).1 in
      (u.payments ≡ w.payments)
      × (u.coupons ≡ w.coupons)
      × (u.offers ≡ w.offers)
      × (u.tokens ≡ w.tokens)
      × (u.next_id ≡ w.next_id)
unfolding create_flag actions
create_flag_rows user code w = ground arith

module _ (Q : Dict Payment → Dict Coupon → Dict Offer → Dict RefreshToken → ℕ → Type 0)
    (grows : (p : Dict Payment) (c : Dict Coupon) (o : Dict Offer) (t : Dict RefreshToken) (n : ℕ)
      → Q p c o t n
      → Q p c o t (n + 1)) where
  abbrev pub OfRows : World → Type 0
  OfRows w = Q w.payments w.coupons w.offers w.tokens w.next_id

  update_wallet-Keeps : (u : ℕ) (b p : ℤ) → Keeps OfRows (update_wallet u b p)
  unfolding update_wallet
  update_wallet-Keeps u b p = record {
    at = λ w h. elim (Option-cases (lookup u w.wallets)) [
      | inl n ↦ rw (n, update_wallet) h
      | inr (x, s) ↦ rw (s, update_wallet) h
    ];
  }

  charge-Keeps : (u n : ℕ) (t : EntryType) (r : Option ℕ) → Keeps OfRows (charge u n t r)
  unfolding charge debit_wallet create_entry actions
  charge-Keeps u n t r = record {
    at = λ w h. elim (Option-cases (lookup u w.wallets)) [
      | inl e ↦ rw (e, debit_wallet) h
      | inr (x, e) ↦ elim (Bool-cases (leb_ℤ (pos n) x.balance)) [
        | inl y ↦ rw (e, debit_wallet) (rw y h)
        | inr f ↦ rw (e, debit_wallet) (rw f h)
      ]
    ];
  }

  debit_for_payout-Keeps : (u n m : ℕ) → Keeps OfRows (debit_for_payout u n m)
  unfolding debit_for_payout
  debit_for_payout-Keeps u n m = charge-Keeps u n EntryType.payout (some m)

  charge_promotion-Keeps : (u n : ℕ) → Keeps OfRows (charge_promotion u n)
  unfolding charge_promotion
  charge_promotion-Keeps u n = charge-Keeps u n EntryType.debit none

  ruleset wallet_rules = (keeps_rules, update_wallet-Keeps)

  pub row_writes :
      ((order payment : ℕ) → Keeps OfRows (mark_succeeded order payment)) → Writes OfRows
  unfolding emit acquire create_flag create_snapshot delete_snapshots create_payment_flag
      add_webhook upsert_wallet create_entry hold_escrow release_escrow reverse_escrow refund_wallet
      credit_wallet ◌>>=◌ modify
  row_writes succeeds = record {
    ticks = λ t w h. h;
    emits = λ e. record { at = λ w h. h };
    locks =
        λ id. record { at = λ w h. let q = acquire_rows id w in rw (q.0, q.1, q.2, q.3, q.4) h };
    flags = λ u c. record {
      at = λ w h. let q = create_flag_rows u c w in rw (q.0, q.1, q.2, q.3, q.4) h;
    };
    freezes = λ o. record { at = λ w h. h };
    purges = λ o. record { at = λ w h. h };
    suspects = λ o. record { at = λ w h. h };
    delivers = λ d. record { at = λ w h. h };
    succeeds = succeeds;
    writes_listings = record { put_keeps = λ d w h. h; id_keeps = λ w h. grows _ _ _ _ _ h };
    writes_orders = record { put_keeps = λ d w h. h; id_keeps = λ w h. grows _ _ _ _ _ h };
    writes_disputes = record { put_keeps = λ d w h. h; id_keeps = λ w h. grows _ _ _ _ _ h };
    writes_returns = record { put_keeps = λ d w h. h; id_keeps = λ w h. grows _ _ _ _ _ h };
    writes_payouts = record { put_keeps = λ d w h. h; id_keeps = λ w h. grows _ _ _ _ _ h };
    writes_referrals = record { put_keeps = λ d w h. h; id_keeps = λ w h. grows _ _ _ _ _ h };
    writes_users = record { put_keeps = λ d w h. h; id_keeps = λ w h. grows _ _ _ _ _ h };
    writes_promotions = record { put_keeps = λ d w h. h; id_keeps = λ w h. grows _ _ _ _ _ h };
    writes_bundles = record { put_keeps = λ d w h. h; id_keeps = λ w h. grows _ _ _ _ _ h };
    writes_resets = record { put_keeps = λ d w h. h; id_keeps = λ w h. grows _ _ _ _ _ h };
    writes_methods = record { put_keeps = λ d w h. h; id_keeps = λ w h. grows _ _ _ _ _ h };
    upserts = λ u. record { at = λ w h. h };
    holds = λ u n r. search wallet_rules depth 20;
    releases = λ u n r. search wallet_rules depth 20;
    reverses = λ u n r. search wallet_rules depth 20;
    refunds = λ u n r. search wallet_rules depth 20;
    credits = λ u n r. search wallet_rules depth 20;
    debits = debit_for_payout-Keeps;
    charges = charge_promotion-Keeps;
  }
