-- ===== src/Wallet/Solvency.antt =====
-- The sign of the withdrawable balances under the writes of the services.
use vintage.Prelude.{ℕ, Option, none, some, ◌≡◌, arith, Option-cases, Bool-cases, inl, inr, true}
use vintage.Prelude.Int.{ℤ, pos, neg, ◌+ℤ◌, ◌≤ℤ◌, leb_ℤ, int_laws}
use vintage.Prelude.Dict.{lookup, insert, lookup-insert}
use vintage.World.{World, Wallet, EntryType}
use vintage.World.Action.{◌>>=◌, ◌>>◌, modify, actions}
use vintage.World.Keeps.{Keeps}
use vintage.Wallet.Reconciliation.{balance_of, ensure_lem}
use vintage.Wallet.{
  update_wallet, create_entry, upsert_wallet, moved, hold_escrow, release_escrow, reverse_escrow,
  refund_wallet, credit_wallet, debit_wallet, debit_for_payout, charge, charge_promotion,
}

-- Every user has a withdrawable balance of zero or more.
abbrev pub Solvent : World → Type 0
Solvent w = (u : ℕ) → pos 0 ≤ℤ balance_of u w.wallets

moved-Solvent :
    (u : ℕ) (b p : ℤ) (x : Wallet) (w : World)
    → lookup u w.wallets ≡ some x
    → pos 0 ≤ℤ x.balance +ℤ b
    → Solvent w
    → Solvent (record w { wallets = insert u (moved x b p) w.wallets })
moved-Solvent u b p x w e n h v = ground (arith, lookup-insert u v (moved x b p) w.wallets, h v)

raise_nonneg : (a b : ℤ) → pos 0 ≤ℤ a → pos 0 ≤ℤ b → pos 0 ≤ℤ a +ℤ b
raise_nonneg a b h k = omega int_laws

lower_nonneg : (a : ℤ) (n : ℕ) → leb_ℤ (pos n) a ≡ true → pos 0 ≤ℤ a +ℤ neg n
unfolding ◌+ℤ◌
lower_nonneg a n h = ground arith

balance_lem :
    (u : ℕ) (x : Wallet) (w : World) → lookup u w.wallets ≡ some x → Solvent w → pos 0 ≤ℤ x.balance
balance_lem u x w e h = ground (arith, h u)

-- A write that does not lower the balance, and its entry.
write-Solvent :
    (u : ℕ) (r : Option ℕ) (type : EntryType) (amount b p : ℤ)
    → pos 0 ≤ℤ b
    → Keeps Solvent (update_wallet u b p >> create_entry u type amount r)
unfolding update_wallet create_entry ◌>>=◌ modify
write-Solvent u r type amount b p n = record {
  at = λ w h. elim (Option-cases (lookup u w.wallets)) [
    | inl e ↦ rw (e, update_wallet) h
    | inr (x, e) ↦
        rw (e, update_wallet)
          (moved-Solvent u b p x w e (raise_nonneg x.balance b (balance_lem u x w e h) n) h)
  ];
}

pub hold-Solvent : (u n r : ℕ) → Keeps Solvent (hold_escrow u n r)
unfolding hold_escrow
hold-Solvent u n r =
    write-Solvent u (some r) EntryType.escrow_hold (pos n) (pos 0) (pos n) (omega arith)

pub release-Solvent : (u n r : ℕ) → Keeps Solvent (release_escrow u n r)
unfolding release_escrow
release-Solvent u n r =
    write-Solvent u (some r) EntryType.escrow_release (pos n) (pos n) (neg n) (omega arith)

pub reverse-Solvent : (u n r : ℕ) → Keeps Solvent (reverse_escrow u n r)
unfolding reverse_escrow
reverse-Solvent u n r =
    write-Solvent u (some r) EntryType.escrow_release (neg n) (pos 0) (neg n) (omega arith)

pub refund-Solvent : (u n r : ℕ) → Keeps Solvent (refund_wallet u n r)
unfolding refund_wallet
refund-Solvent u n r =
    write-Solvent u (some r) EntryType.refund (pos n) (pos n) (pos 0) (omega arith)

pub credit-Solvent : (u n r : ℕ) → Keeps Solvent (credit_wallet u n r)
unfolding credit_wallet
credit-Solvent u n r =
    write-Solvent u (some r) EntryType.credit (pos n) (pos n) (pos 0) (omega arith)

pub upsert-Solvent : (u : ℕ) → Keeps Solvent (upsert_wallet u)
unfolding upsert_wallet modify
upsert-Solvent u = record { at = λ w h v. rw (ensure_lem u v w.wallets).0 (h v) }

-- The debit is made only where the balance covers it.
charge-Solvent : (u n : ℕ) (t : EntryType) (r : Option ℕ) → Keeps Solvent (charge u n t r)
unfolding charge debit_wallet create_entry actions
charge-Solvent u n t r = record {
  at = λ w h. elim (Option-cases (lookup u w.wallets)) [
    | inl e ↦ rw (e, debit_wallet) h
    | inr (x, e) ↦ elim (Bool-cases (leb_ℤ (pos n) x.balance)) [
      | inl y ↦
          rw (e, debit_wallet)
            (rw y (moved-Solvent u (neg n) (pos 0) x w e (lower_nonneg x.balance n y) h))
      | inr f ↦ rw (e, debit_wallet) (rw f h)
    ]
  ];
}

pub debit-Solvent : (u n m : ℕ) → Keeps Solvent (debit_for_payout u n m)
unfolding debit_for_payout
debit-Solvent u n m = charge-Solvent u n EntryType.payout (some m)

pub promotion-Solvent : (u n : ℕ) → Keeps Solvent (charge_promotion u n)
unfolding charge_promotion
promotion-Solvent u n = charge-Solvent u n EntryType.debit none
