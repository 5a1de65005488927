-- ===== src/Payouts/Debit.antt =====
-- The debit of a payout (`requestPayout` of apps/api/src/wallet/payouts.service.ts).
use vintage.Prelude.{
  ℕ, ◌+◌, ◌≡◌, refl, Bool, ◌&&◌, true, false, some, ◌∷◌, arith, ◌==◌, if◌then◌else◌, Bool-cases,
  inl, inr,
}
use vintage.Prelude.Int.{pos, neg, ◌+ℤ◌, leb_ℤ, add_zero}
use vintage.Prelude.Dict.{lookup, insert, lookup-insert_self}
use vintage.World.{World, Wallet, EntryType}
use vintage.World.Action.{Exception, actions, throw, pure, ok, err, transaction}
use vintage.World.Tables.{create}
use vintage.Wallet.{debit_for_payout, charge, debit_wallet, create_entry, moved}
use vintage.Wallet.Posting.{entry}
use vintage.Wallet.Reconciliation.{balance_of, pending_of, moved_lem}
use vintage.Payouts.{debit_tx, new_payout}

-- The state after the debit.
abbrev debited : ℕ → ℕ → ℕ → Wallet → World → World
debited user amount method x w = record w {
  next_id = w.next_id + 1;
  wallets = insert user (moved x (neg amount) (pos 0)) w.wallets;
  ledger = entry user EntryType.payout (neg amount) method ∷ w.ledger;
  payouts = insert w.next_id (new_payout user amount method) w.payouts;
}

debit_tx-covered :
    (user amount method : ℕ) (x : Wallet) (w : World)
    → lookup user w.wallets ≡ some x
    → leb_ℤ (pos amount) x.balance ≡ true
    → transaction (debit_tx user amount method) w ≡ (ok w.next_id, debited user amount method x w)
unfolding debit_tx debit_for_payout charge debit_wallet create_entry create actions throw pure
debit_tx-covered user amount method x w e t = rw (e, debit_wallet) (rw t refl)

debit_tx-uncovered :
    (user amount method : ℕ) (x : Wallet) (w : World)
    → lookup user w.wallets ≡ some x
    → leb_ℤ (pos amount) x.balance ≡ false
    → transaction (debit_tx user amount method) w ≡ (err Exception.bad_request, w)
unfolding debit_tx debit_for_payout charge debit_wallet actions throw pure
debit_tx-uncovered user amount method x w e f = rw (e, debit_wallet) (rw f refl)

abbrev covered : ℕ → Wallet → Bool
covered amount x = leb_ℤ (pos amount) x.balance

-- The transaction of a payout, for a user with a wallet: where the balance covers the amount, it
-- makes a pending request for the amount and takes exactly the amount from the balance, and no other
-- amount of any user changes; where it does not, it is refused with a bad request, and nothing is
-- written.
pub debit_tx-takes :
    (user amount method v : ℕ) (x : Wallet) (w : World)
    → lookup user w.wallets ≡ some x
    → let r = transaction (debit_tx user amount method) w in
      (r.0 ≡ (if covered amount x then ok w.next_id else err Exception.bad_request))
      × (lookup w.next_id r.1.payouts ≡ (
          if covered amount x
          then some (new_payout user amount method)
          else lookup w.next_id w.payouts))
      × (balance_of v r.1.wallets ≡ (
          if covered amount x && (user == v)
          then balance_of v w.wallets +ℤ neg amount
          else balance_of v w.wallets))
      × (pending_of v r.1.wallets ≡ pending_of v w.wallets)
      × ((if covered amount x then w else r.1) ≡ w)
debit_tx-takes user amount method v x w e = elim (Bool-cases (covered amount x)) [
  | inl t ↦
      let m = moved_lem user v (neg amount) (pos 0) x w.wallets e in
      rw t (
        rw (debit_tx-covered user amount method x w e t) (
          refl,
          lookup-insert_self w.next_id (new_payout user amount method) w.payouts,
          m.0,
          ground (arith, m.1, add_zero (pending_of v w.wallets)),
          refl,
        ))
  | inr f ↦ rw f (rw (debit_tx-uncovered user amount method x w e f) (refl, refl, refl, refl, refl))
]
