-- ===== src/System/Accounts.antt =====
-- The account of the wallets under schedules of requests.
use vintage.Prelude.{ℕ, ◌≡◌, refl, Bool, true, false, arith}
use vintage.World.{World}
use vintage.World.Action.{actions, emit}
use vintage.World.Tables.{create_snapshot, delete_snapshots, create_payment_flag}
use vintage.CronLock.{acquire}
use vintage.Fraud.{create_flag}
use vintage.Payments.{add_webhook, mark_succeeded}
use vintage.Wallet.Reconciliation.{
  Reconciled, hold-Reconciled, release-Reconciled, reverse-Reconciled, refund-Reconciled,
  credit-Reconciled, upsert-Reconciled, debit-Reconciled, promotion-Reconciled,
}
use vintage.Wallet.Together.{
  Accounted, Accounted-Reconciled, hold-Accounted, release-Accounted, reverse-Accounted,
  refund-Accounted, credit-Accounted, upsert-Accounted, debit-Accounted, promotion-Accounted,
  rehold-Accounted,
}
use vintage.Wallet.Solvency.{
  Solvent, hold-Solvent, release-Solvent, reverse-Solvent, refund-Solvent, credit-Solvent,
  upsert-Solvent, debit-Solvent, promotion-Solvent,
}
use vintage.System.{Env, Schedule, run, has_force_hold}
use vintage.System.Invariant.{Writes, Invariant}
use vintage.System.Whole.{whole, tokens_apart}
use vintage.System.Keeps.{run-Keeps, run-Keeps_if}

-- The writes that branch leave the wallets and the ledger alone.
acquire_accounts :
    (id : ℕ) (w : World)
    → let u = (acquire id w).1 in (u.wallets ≡ w.wallets) × (u.ledger ≡ w.ledger)
unfolding acquire
acquire_accounts id w = ground arith

create_flag_accounts :
    (user code : ℕ) (w : World)
    → let u = (create_flag user code w).1 in (u.wallets ≡ w.wallets) × (u.ledger ≡ w.ledger)
unfolding create_flag actions
create_flag_accounts user code w = ground arith

Reconciled-Writes : Writes Reconciled
unfolding emit acquire create_flag create_snapshot delete_snapshots create_payment_flag add_webhook
    mark_succeeded
Reconciled-Writes = record {
  ticks = λ t w h. h;
  emits = λ e. record { at = λ w h. h };
  locks = λ id. record { at = λ w h. rw ((acquire_accounts id w).0, (acquire_accounts id w).1) h };
  flags = λ u c. record {
    at = λ w h. rw ((create_flag_accounts u c w).0, (create_flag_accounts u c w).1) h;
  };
  freezes = λ o. record { at = λ w h. h };
  purges = λ o. record { at = λ w h. h };
  suspects = λ o. record { at = λ w h. h };
  delivers = λ d. record { at = λ w h. h };
  succeeds = λ o p. record { at = λ w h. h };
  writes_listings = record { put_keeps = λ d w h. h; id_keeps = λ w h. h };
  writes_orders = record { put_keeps = λ d w h. h; id_keeps = λ w h. h };
  writes_disputes = record { put_keeps = λ d w h. h; id_keeps = λ w h. h };
  writes_returns = record { put_keeps = λ d w h. h; id_keeps = λ w h. h };
  writes_payouts = record { put_keeps = λ d w h. h; id_keeps = λ w h. h };
  writes_referrals = record { put_keeps = λ d w h. h; id_keeps = λ w h. h };
  writes_users = record { put_keeps = λ d w h. h; id_keeps = λ w h. h };
  writes_promotions = record { put_keeps = λ d w h. h; id_keeps = λ w h. h };
  writes_bundles = record { put_keeps = λ d w h. h; id_keeps = λ w h. h };
  writes_resets = record { put_keeps = λ d w h. h; id_keeps = λ w h. h };
  writes_methods = record { put_keeps = λ d w h. h; id_keeps = λ w h. h };
  upserts = upsert-Reconciled;
  holds = hold-Reconciled;
  releases = release-Reconciled;
  reverses = reverse-Reconciled;
  refunds = refund-Reconciled;
  credits = credit-Reconciled;
  debits = debit-Reconciled;
  charges = promotion-Reconciled;
}

Accounted-Writes : Writes Accounted
unfolding emit acquire create_flag create_snapshot delete_snapshots create_payment_flag add_webhook
    mark_succeeded
Accounted-Writes = record {
  ticks = λ t w h. h;
  emits = λ e. record { at = λ w h. h };
  locks = λ id. record { at = λ w h. rw ((acquire_accounts id w).0, (acquire_accounts id w).1) h };
  flags = λ u c. record {
    at = λ w h. rw ((create_flag_accounts u c w).0, (create_flag_accounts u c w).1) h;
  };
  freezes = λ o. record { at = λ w h. h };
  purges = λ o. record { at = λ w h. h };
  suspects = λ o. record { at = λ w h. h };
  delivers = λ d. record { at = λ w h. h };
  succeeds = λ o p. record { at = λ w h. h };
  writes_listings = record { put_keeps = λ d w h. h; id_keeps = λ w h. h };
  writes_orders = record { put_keeps = λ d w h. h; id_keeps = λ w h. h };
  writes_disputes = record { put_keeps = λ d w h. h; id_keeps = λ w h. h };
  writes_returns = record { put_keeps = λ d w h. h; id_keeps = λ w h. h };
  writes_payouts = record { put_keeps = λ d w h. h; id_keeps = λ w h. h };
  writes_referrals = record { put_keeps = λ d w h. h; id_keeps = λ w h. h };
  writes_users = record { put_keeps = λ d w h. h; id_keeps = λ w h. h };
  writes_promotions = record { put_keeps = λ d w h. h; id_keeps = λ w h. h };
  writes_bundles = record { put_keeps = λ d w h. h; id_keeps = λ w h. h };
  writes_resets = record { put_keeps = λ d w h. h; id_keeps = λ w h. h };
  writes_methods = record { put_keeps = λ d w h. h; id_keeps = λ w h. h };
  upserts = upsert-Accounted;
  holds = hold-Accounted;
  releases = release-Accounted;
  reverses = reverse-Accounted;
  refunds = refund-Accounted;
  credits = credit-Accounted;
  debits = debit-Accounted;
  charges = promotion-Accounted;
}

Solvent-Writes : Writes Solvent
unfolding emit acquire create_flag create_snapshot delete_snapshots create_payment_flag add_webhook
    mark_succeeded
Solvent-Writes = record {
  ticks = λ t w h. h;
  emits = λ e. record { at = λ w h. h };
  locks = λ id. record { at = λ w h. rw (acquire_accounts id w).0 h };
  flags = λ u c. record { at = λ w h. rw (create_flag_accounts u c w).0 h };
  freezes = λ o. record { at = λ w h. h };
  purges = λ o. record { at = λ w h. h };
  suspects = λ o. record { at = λ w h. h };
  delivers = λ d. record { at = λ w h. h };
  succeeds = λ o p. record { at = λ w h. h };
  writes_listings = record { put_keeps = λ d w h. h; id_keeps = λ w h. h };
  writes_orders = record { put_keeps = λ d w h. h; id_keeps = λ w h. h };
  writes_disputes = record { put_keeps = λ d w h. h; id_keeps = λ w h. h };
  writes_returns = record { put_keeps = λ d w h. h; id_keeps = λ w h. h };
  writes_payouts = record { put_keeps = λ d w h. h; id_keeps = λ w h. h };
  writes_referrals = record { put_keeps = λ d w h. h; id_keeps = λ w h. h };
  writes_users = record { put_keeps = λ d w h. h; id_keeps = λ w h. h };
  writes_promotions = record { put_keeps = λ d w h. h; id_keeps = λ w h. h };
  writes_bundles = record { put_keeps = λ d w h. h; id_keeps = λ w h. h };
  writes_resets = record { put_keeps = λ d w h. h; id_keeps = λ w h. h };
  writes_methods = record { put_keeps = λ d w h. h; id_keeps = λ w h. h };
  upserts = upsert-Solvent;
  holds = hold-Solvent;
  releases = release-Solvent;
  reverses = reverse-Solvent;
  refunds = refund-Solvent;
  credits = credit-Solvent;
  debits = debit-Solvent;
  charges = promotion-Solvent;
}

Reconciled-Invariant : Invariant Reconciled
Reconciled-Invariant =
    whole Reconciled-Writes (record { put_keeps = λ d w h. h; id_keeps = λ w h. h })
      (record { put_keeps = λ d w h. h; id_keeps = λ w h. h })
      (record { put_keeps = λ d w h. h; id_keeps = λ w h. h })
      (tokens_apart (record { put_keeps = λ d w h. h; id_keeps = λ w h. h }))

Accounted-Invariant : Invariant Accounted
Accounted-Invariant =
    whole Accounted-Writes (record { put_keeps = λ d w h. h; id_keeps = λ w h. h })
      (record { put_keeps = λ d w h. h; id_keeps = λ w h. h })
      (record { put_keeps = λ d w h. h; id_keeps = λ w h. h })
      (tokens_apart (record { put_keeps = λ d w h. h; id_keeps = λ w h. h }))

Solvent-Invariant : Invariant Solvent
Solvent-Invariant =
    whole Solvent-Writes (record { put_keeps = λ d w h. h; id_keeps = λ w h. h })
      (record { put_keeps = λ d w h. h; id_keeps = λ w h. h })
      (record { put_keeps = λ d w h. h; id_keeps = λ w h. h })
      (tokens_apart (record { put_keeps = λ d w h. h; id_keeps = λ w h. h }))

-- With a force-hold in a schedule, the ledger still explains the two amounts of a wallet together.
abbrev pub Explained : Bool → World → Type 0
Explained true w = Accounted w
Explained false w = Reconciled w

run-Explained :
    (b : Bool) (env : Env) (s : Schedule) (w : World)
    → has_force_hold s ≡ b
    → Reconciled w
    → Explained b (run env s w)
run-Explained true env s w e h =
    run-Keeps Accounted-Invariant env s rehold-Accounted w (Accounted-Reconciled w h)
run-Explained false env s w e h = run-Keeps_if Reconciled-Invariant env s (λ t. cc (e, t)) w h

-- From a state in which the ledger explains the wallets, any schedule of requests, interleaved in
-- any way, leads to one in which, for every user, the balance and the escrow together are the sum of
-- the effects that the entries of the ledger have on the two; and where the schedule has no
-- force-hold, the balance and the escrow are each the sum of the effects on it.
pub run-Reconciled :
    (env : Env) (s : Schedule) (w : World)
    → Reconciled w
    → Explained (has_force_hold s) (run env s w)
run-Reconciled env s w h = run-Explained (has_force_hold s) env s w refl h

-- From a state in which no balance is negative, any schedule of requests without a force-hold,
-- interleaved in any way, leads to such a state.
pub run-Solvent :
    (env : Env) (s : Schedule) (w : World)
    → has_force_hold s ≡ false
    → Solvent w
    → Solvent (run env s w)
run-Solvent env s w e h = run-Keeps_if Solvent-Invariant env s (λ t. cc (e, t)) w h
