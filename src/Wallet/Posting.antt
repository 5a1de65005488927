-- ===== src/Wallet/Posting.antt =====
-- What an upsert of a wallet followed by increments does to the amounts of every user.
use vintage.Prelude.{
  ℕ, ◌≡◌, none, some, arith, ◌==◌, if◌then◌else◌, Option-cases, inl, inr, refl, ◌∷◌,
}
use vintage.Prelude.Int.{ℤ, pos, neg, ◌+ℤ◌}
use vintage.Prelude.Dict.{Dict, lookup, insert, lookup-insert_self}
use vintage.World.{World, Wallet, Entry, EntryType}
use vintage.World.Action.{◌>>◌, actions, ok}
use vintage.Wallet.{
  empty_wallet, ensure, update_wallet, create_entry, upsert_wallet, moved, refund_wallet,
  reverse_escrow,
}
use vintage.Wallet.Reconciliation.{balance_of, pending_of, ensure_lem, moved_lem}

abbrev pub wallet_of : ℕ → Dict Wallet → Wallet
wallet_of u d = elim (lookup u d) [ none ↦ empty_wallet | some x ↦ x ]

abbrev pub posted : ℕ → ℤ → ℤ → Dict Wallet → Dict Wallet
posted u b p d = insert u (moved (wallet_of u d) b p) (ensure u d)

pub lookup-ensure : (u : ℕ) (d : Dict Wallet) → lookup u (ensure u d) ≡ some (wallet_of u d)
lookup-ensure u d = elim (Option-cases (lookup u d)) [
  | inl e ↦ ground (arith, lookup-insert_self u empty_wallet d)
  | inr (x, e) ↦ ground arith
]

-- The amounts of every user after it.
pub posted_lem :
    (u v : ℕ) (b p : ℤ) (d : Dict Wallet)
    → (balance_of v (posted u b p d) ≡ (if u == v then balance_of v d +ℤ b else balance_of v d))
      × (pending_of v (posted u b p d) ≡ (if u == v then pending_of v d +ℤ p else pending_of v d))
posted_lem u v b p d =
    ground
      (arith, moved_lem u v b p (wallet_of u d) (ensure u d) (lookup-ensure u d), ensure_lem u v d)

abbrev pub entry : ℕ → EntryType → ℤ → ℕ → Entry
entry u type amount reference = record {
  wallet = u;
  type = type;
  amount = amount;
  reference = some reference;
}

pub post_lem :
    (u r : ℕ) (t : EntryType) (a b p : ℤ) (w : World)
    → (upsert_wallet u >> (update_wallet u b p >> create_entry u t a (some r))) w
      ≡ (ok tt, record w { wallets = posted u b p w.wallets; ledger = entry u t a r ∷ w.ledger })
unfolding upsert_wallet update_wallet create_entry actions
post_lem u r t a b p w = rw (lookup-ensure u w.wallets, update_wallet) refl

pub refund_lem :
    (u n r : ℕ) (w : World)
    → (upsert_wallet u >> refund_wallet u n r) w ≡ (
      ok tt,
      record w {
        wallets = posted u (pos n) (pos 0) w.wallets;
        ledger = entry u EntryType.refund (pos n) r ∷ w.ledger;
      },
    )
unfolding refund_wallet
refund_lem u n r w = post_lem u r EntryType.refund (pos n) (pos n) (pos 0) w

pub reverse_lem :
    (u n r : ℕ) (w : World) {x : Wallet}
    → lookup u w.wallets ≡ some x
    → reverse_escrow u n r w ≡ (
      ok tt,
      record w {
        wallets = insert u (moved x (pos 0) (neg n)) w.wallets;
        ledger = entry u EntryType.escrow_release (neg n) r ∷ w.ledger;
      },
    )
unfolding reverse_escrow update_wallet create_entry actions
reverse_lem u n r w e = rw (e, update_wallet) refl
