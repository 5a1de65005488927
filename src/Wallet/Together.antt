-- ===== src/Wallet/Together.antt =====
-- The balance and the escrow of a wallet taken together, against the ledger.
use vintage.Prelude.{
  ℕ, ◌≡◌, refl, Option, none, some, List, [], ◌∷◌, arith, ◌==◌, if◌then◌else◌, Option-cases,
  Bool-cases, inl, inr,
}
use vintage.Prelude.Int.{ℤ, pos, neg, ◌+ℤ◌, leb_ℤ, int_laws}
use vintage.Prelude.Dict.{Dict, lookup, insert}
use vintage.World.{World, Wallet, Entry, EntryType}
use vintage.World.Action.{◌>>=◌, ◌>>◌, modify, actions}
use vintage.World.Keeps.{Keeps}
use vintage.Wallet.{
  update_wallet, create_entry, upsert_wallet, moved, hold_escrow, release_escrow, reverse_escrow,
  refund_wallet, credit_wallet, debit_wallet, debit_for_payout, charge, charge_promotion,
  rehold_escrow,
}
use vintage.Wallet.Reconciliation.{
  Reconciled, balance_effect, pending_effect, sum_for, balance_of, pending_of, ensure_lem,
  moved_lem,
}

-- What an entry did to the two amounts.
abbrev pub effect : Entry → ℤ
effect e = balance_effect e +ℤ pending_effect e

abbrev held_by : ℕ → World → ℤ
held_by u w = balance_of u w.wallets +ℤ pending_of u w.wallets

-- For every user the balance and the escrow together are the sum of the effects of the ledger.
abbrev pub Accounted : World → Type 0
Accounted w = (u : ℕ) → held_by u w ≡ sum_for effect u w.ledger

four_sum : (a b c d : ℤ) → (a +ℤ b) +ℤ (c +ℤ d) ≡ (a +ℤ c) +ℤ (b +ℤ d)
four_sum a b c d = omega int_laws

shuffle_sum : (a b c d : ℤ) → (a +ℤ b) +ℤ (c +ℤ d) ≡ (b +ℤ d) +ℤ (a +ℤ c)
shuffle_sum a b c d = omega int_laws

effects_lem :
    (u : ℕ) (l : List Entry)
    → sum_for effect u l ≡ sum_for balance_effect u l +ℤ sum_for pending_effect u l
unfolding sum_for ◌+ℤ◌
effects_lem u [] = refl
effects_lem u (e ∷ es) = elim (Bool-cases (e.wallet == u)) [
  | inl y ↦ rw y (
      rw (effects_lem u es) (
        four_sum (balance_effect e) (pending_effect e) (sum_for balance_effect u es)
          (sum_for pending_effect u es)))
  | inr n ↦ rw n (effects_lem u es)
]

pub Accounted-Reconciled : (w : World) → Reconciled w → Accounted w
Accounted-Reconciled w h u =
    rw (effects_lem u w.ledger) (rw (h.balances u) (rw (h.pendings u) refl))

-- A write on the wallet, with an entry that tells the sum of what it moved.
moved_sum :
    (u v : ℕ) (b p : ℤ) (x : Wallet) (d : Dict Wallet)
    → lookup u d ≡ some x
    → balance_of v (insert u (moved x b p) d) +ℤ pending_of v (insert u (moved x b p) d) ≡ (
        if u == v
        then (b +ℤ p) +ℤ (balance_of v d +ℤ pending_of v d)
        else balance_of v d +ℤ pending_of v d)
moved_sum u v b p x d f =
    let m = moved_lem u v b p x d f in
    rw m.0 (
      rw m.1 (elim (Bool-cases (u == v)) [
        | inl y ↦ rw y (shuffle_sum (balance_of v d) b (pending_of v d) p)
        | inr n ↦ rw n refl
      ]))

post-Accounted :
    (u : ℕ) (b p : ℤ) (e : Entry) (x : Wallet) (w : World)
    → e.wallet ≡ u
    → effect e ≡ b +ℤ p
    → lookup u w.wallets ≡ some x
    → Accounted w
    → Accounted (record w { wallets = insert u (moved x b p) w.wallets; ledger = e ∷ w.ledger })
unfolding sum_for
post-Accounted u b p e x w eu ep found h v =
    rw (moved_sum u v b p x w.wallets found) (rw eu (rw ep (rw (h v) refl)))

abbrev entry : ℕ → EntryType → ℤ → Option ℕ → Entry
entry u type amount reference = record {
  wallet = u;
  type = type;
  amount = amount;
  reference = reference;
}

write-Accounted :
    (u : ℕ) (r : Option ℕ) (type : EntryType) (amount b p : ℤ)
    → effect (entry u type amount r) ≡ b +ℤ p
    → Keeps Accounted (update_wallet u b p >> create_entry u type amount r)
unfolding update_wallet create_entry ◌>>=◌ modify
write-Accounted u r type amount b p ep = record {
  at = λ w h. elim (Option-cases (lookup u w.wallets)) [
    | inl e ↦ rw (e, update_wallet) h
    | inr (x, e) ↦
        rw (e, update_wallet) (post-Accounted u b p (entry u type amount r) x w refl ep e h)
  ];
}

pub hold-Accounted : (u n r : ℕ) → Keeps Accounted (hold_escrow u n r)
unfolding hold_escrow
hold-Accounted u n r = write-Accounted u (some r) EntryType.escrow_hold (pos n) (pos 0) (pos n) refl

pub release-Accounted : (u n r : ℕ) → Keeps Accounted (release_escrow u n r)
unfolding release_escrow
release-Accounted u n r =
    write-Accounted u (some r) EntryType.escrow_release (pos n) (pos n) (neg n) (ground arith)

pub reverse-Accounted : (u n r : ℕ) → Keeps Accounted (reverse_escrow u n r)
unfolding reverse_escrow
reverse-Accounted u n r =
    write-Accounted u (some r) EntryType.escrow_release (neg n) (pos 0) (neg n) (ground arith)

pub refund-Accounted : (u n r : ℕ) → Keeps Accounted (refund_wallet u n r)
unfolding refund_wallet
refund-Accounted u n r = write-Accounted u (some r) EntryType.refund (pos n) (pos n) (pos 0) refl

pub credit-Accounted : (u n r : ℕ) → Keeps Accounted (credit_wallet u n r)
unfolding credit_wallet
credit-Accounted u n r = write-Accounted u (some r) EntryType.credit (pos n) (pos n) (pos 0) refl

pub upsert-Accounted : (u : ℕ) → Keeps Accounted (upsert_wallet u)
unfolding upsert_wallet modify
upsert-Accounted u = record {
  at = λ w h v. rw (ensure_lem u v w.wallets).0 (rw (ensure_lem u v w.wallets).1 (h v));
}

charge-Accounted :
    (u n : ℕ) (t : EntryType) (r : Option ℕ)
    → effect (entry u t (neg n) r) ≡ neg n +ℤ pos 0
    → Keeps Accounted (charge u n t r)
unfolding charge debit_wallet create_entry actions
charge-Accounted u n t r ep = record {
  at = λ w h. elim (Option-cases (lookup u w.wallets)) [
    | inl e ↦ rw (e, debit_wallet) h
    | inr (x, e) ↦ elim (Bool-cases (leb_ℤ (pos n) x.balance)) [
      | inl y ↦
          rw (e, debit_wallet)
            (rw y (post-Accounted u (neg n) (pos 0) (entry u t (neg n) r) x w refl ep e h))
      | inr f ↦ rw (e, debit_wallet) (rw f h)
    ]
  ];
}

pub debit-Accounted : (u n m : ℕ) → Keeps Accounted (debit_for_payout u n m)
unfolding debit_for_payout
debit-Accounted u n m = charge-Accounted u n EntryType.payout (some m) refl

pub promotion-Accounted : (u n : ℕ) → Keeps Accounted (charge_promotion u n)
unfolding charge_promotion
promotion-Accounted u n = charge-Accounted u n EntryType.debit none refl

-- A force-hold moves an amount from the balance to the escrow.
zero_move : (n : ℕ) (a : ℤ) → (neg n +ℤ pos n) +ℤ a ≡ a
unfolding ◌+ℤ◌
zero_move n a = ground arith

pub rehold-Accounted : (u n : ℕ) → Keeps Accounted (rehold_escrow u n)
unfolding rehold_escrow update_wallet
rehold-Accounted u n = record {
  at = λ w h. elim (Option-cases (lookup u w.wallets)) [
    | inl e ↦ rw (e, update_wallet) h
    | inr (x, e) ↦
        rw (e, update_wallet)
          (λ v. rw (moved_sum u v (neg n) (pos n) x w.wallets e) (elim (Bool-cases (u == v)) [
            | inl y ↦ rw y (rw (zero_move n (held_by v w)) (h v))
            | inr f ↦ rw f (h v)
          ]))
  ];
}
