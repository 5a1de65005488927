-- ===== src/Wallet.antt =====
-- The writes on a wallet and on its ledger that the services share: `wallet.upsert`,
-- `wallet.update` and `walletTransaction.create` of the database client, in the sequence that
-- orders.service.ts, orders-cron.service.ts, disputes.service.ts, returns.service.ts,
-- payments.service.ts, payouts.service.ts and referrals.service.ts (apps/api/src) write out; and the
-- write of admin-orders.controller.ts, which has no entry.
pub mod Posting
pub mod Reconciliation
pub mod Together
pub mod Solvency
use vintage.Prelude.{
  ℕ, Bool, Option, none, some, ◌∷◌, ◌==◌, ◌&&◌, any, is_some, not, true, false, if◌then◌else◌,
}
use vintage.Prelude.Int.{ℤ, pos, neg, ◌+ℤ◌, leb_ℤ}
use vintage.Prelude.Dict.{Dict, lookup, insert}
use vintage.World.{World, Wallet, Entry, EntryType, entry_is}
use vintage.World.Action.{Action, Exception, err, ok, ◌>>=◌, ◌>>◌, throw_if, modify}

abbrev empty_wallet : Wallet
empty_wallet = record { balance = pos 0; pending = pos 0 }

-- `upsert` with an empty update: the row is made if it is missing.
abbrev pub ensure : ℕ → Dict Wallet → Dict Wallet
ensure u d = elim (lookup u d) [ none ↦ insert u empty_wallet d | some _ ↦ d ]

unfoldable pub upsert_wallet : ℕ → Action (Unit {0})
upsert_wallet u = modify (λ w. record w { wallets = ensure u w.wallets })

abbrev pub moved : Wallet → ℤ → ℤ → Wallet
moved x balance pending = record { balance = x.balance +ℤ balance; pending = x.pending +ℤ pending }

-- `update` with increments; a missing row is an error of the client.
unfoldable pub update_wallet : ℕ → ℤ → ℤ → Action (Unit {0})
update_wallet u balance pending w = elim (lookup u w.wallets) [
  | none ↦ (err Exception.database_error, w)
  | some x ↦ (ok tt, record w { wallets = insert u (moved x balance pending) w.wallets })
]

unfoldable pub create_entry : ℕ → EntryType → ℤ → Option ℕ → Action (Unit {0})
create_entry u type amount reference = modify (λ w. record w {
  ledger = (record { wallet = u; type = type; amount = amount; reference = reference }) ∷ w.ledger;
})

-- Escrow opened on a paid order.
unfoldable pub hold_escrow : ℕ → ℕ → ℕ → Action (Unit {0})
unfolding update_wallet create_entry
hold_escrow seller item order =
    update_wallet seller (pos 0) (pos item)
    >> create_entry seller EntryType.escrow_hold (pos item) (some order)

-- Escrow paid out to the seller.
unfoldable pub release_escrow : ℕ → ℕ → ℕ → Action (Unit {0})
unfolding update_wallet create_entry
release_escrow seller item order =
    update_wallet seller (pos item) (neg item)
    >> create_entry seller EntryType.escrow_release (pos item) (some order)

-- Escrow taken back from the seller.
unfoldable pub reverse_escrow : ℕ → ℕ → ℕ → Action (Unit {0})
unfolding update_wallet create_entry
reverse_escrow seller item order =
    update_wallet seller (pos 0) (neg item)
    >> create_entry seller EntryType.escrow_release (neg item) (some order)

-- What the administrator's force-hold moves back into escrow: no entry, and no test of the balance.
unfoldable pub rehold_escrow : ℕ → ℕ → Action (Unit {0})
unfolding update_wallet
rehold_escrow seller item = update_wallet seller (neg item) (pos item)

-- A refund to the balance of a user.
unfoldable pub refund_wallet : ℕ → ℕ → ℕ → Action (Unit {0})
unfolding update_wallet create_entry
refund_wallet user amount reference =
    update_wallet user (pos amount) (pos 0)
    >> create_entry user EntryType.refund (pos amount) (some reference)

-- A bonus to the balance of a user.
unfoldable pub credit_wallet : ℕ → ℕ → ℕ → Action (Unit {0})
unfolding update_wallet create_entry
credit_wallet user amount reference =
    update_wallet user (pos amount) (pos 0)
    >> create_entry user EntryType.credit (pos amount) (some reference)

abbrev refers : Entry → ℕ → Bool
refers e reference = elim e.reference [ none ↦ false | some r ↦ r == reference ]

-- `walletTransaction.findFirst` for a refund under a reference.
abbrev pub has_refund : ℕ → ℕ → World → Bool
has_refund u reference w =
    any (λ e. e.wallet == u && refers e reference && entry_is e.type EntryType.refund) w.ledger

-- `wallet.findUnique` gives a row.
abbrev pub wallet_exists : ℕ → World → Bool
wallet_exists u w = is_some (lookup u w.wallets)

-- `updateMany` with `balanceBrl: { gte: amount }`: the conditional debit.
abbrev pub debit_row : ℕ → ℕ → Option Wallet → Action Bool
debit_row u amount none w = (ok false, w)
debit_row u amount (some x) w =
    if leb_ℤ (pos amount) x.balance
    then (ok true, record w { wallets = insert u (moved x (neg amount) (pos 0)) w.wallets })
    else (ok false, w)

unfoldable pub debit_wallet : ℕ → ℕ → Action Bool
debit_wallet u amount w = debit_row u amount (lookup u w.wallets) w

-- The two writes on the wallet: the conditional debit and its entry.
unfoldable pub charge : ℕ → ℕ → EntryType → Option ℕ → Action (Unit {0})
charge user amount type reference = do
  debited ← debit_wallet user amount
  throw_if (not debited) Exception.bad_request
  create_entry user type (neg amount) reference

unfoldable pub debit_for_payout : ℕ → ℕ → ℕ → Action (Unit {0})
unfolding charge
debit_for_payout user amount method = charge user amount EntryType.payout (some method)

-- The price of a promotion; its entry has no reference.
unfoldable pub charge_promotion : ℕ → ℕ → Action (Unit {0})
unfolding charge
charge_promotion user amount = charge user amount EntryType.debit none
