-- ===== src/Wallet/Reconciliation.antt =====
-- The ledger (`WalletTransaction`) as an account of the two amounts of every wallet.
use vintage.Prelude.{
  ℕ, ◌+◌, ◌≡◌, refl, Option, none, some, List, [], ◌∷◌, arith, ◌==◌, if◌then◌else◌, Option-cases,
  Bool-cases, inl, inr,
}
use vintage.Prelude.Int.{ℤ, pos, neg, pos_part, neg_part, ◌+ℤ◌, leb_ℤ, int_laws}
use vintage.Prelude.Dict.{Dict, lookup, insert, lookup-insert}
use vintage.World.{World, Wallet, Entry, EntryType}
use vintage.World.Action.{◌>>=◌, ◌>>◌, modify, actions}
use vintage.World.Keeps.{Keeps}
use vintage.Wallet.{
  empty_wallet, ensure, update_wallet, create_entry, upsert_wallet, moved, hold_escrow,
  release_escrow, reverse_escrow, refund_wallet, credit_wallet, debit_wallet, debit_for_payout,
  charge, charge_promotion,
}

-- What an entry of the ledger did to the withdrawable balance.
abbrev pub balance_effect : Entry → ℤ
balance_effect e = elim e.type [
  | EntryType.escrow_hold ↦ pos 0
  | EntryType.escrow_release ↦ pos (pos_part e.amount)
  | _ ↦ e.amount
]

-- What it did to the amount in escrow.
abbrev pub pending_effect : Entry → ℤ
pending_effect e = elim e.type [
  | EntryType.escrow_hold ↦ e.amount
  | EntryType.escrow_release ↦ neg (pos_part e.amount + neg_part e.amount)
  | _ ↦ pos 0
]

-- The sum of an effect over the entries of one wallet.
unfoldable pub sum_for : (Entry → ℤ) → ℕ → List Entry → ℤ
sum_for effect u [] = pos 0
sum_for effect u (e ∷ es) =
    if e.wallet == u then effect e +ℤ sum_for effect u es else sum_for effect u es

abbrev pub balance_of : ℕ → Dict Wallet → ℤ
balance_of u d = elim (lookup u d) [ none ↦ pos 0 | some x ↦ x.balance ]

abbrev pub pending_of : ℕ → Dict Wallet → ℤ
pending_of u d = elim (lookup u d) [ none ↦ pos 0 | some x ↦ x.pending ]

pub record Agrees (d : Dict Wallet) (l : List Entry) : Type 0 where
  pub balances : (u : ℕ) → balance_of u d ≡ sum_for balance_effect u l
  pub pendings : (u : ℕ) → pending_of u d ≡ sum_for pending_effect u l

-- For every user the balance and the escrow are the sums of the effects of the ledger.
abbrev pub Reconciled : World → Type 0
Reconciled w = Agrees w.wallets w.ledger

pub ensure_lem :
    (u v : ℕ) (d : Dict Wallet)
    → (balance_of v (ensure u d) ≡ balance_of v d) × (pending_of v (ensure u d) ≡ pending_of v d)
ensure_lem u v d = elim (Option-cases (lookup u d)) [
  | inl e ↦ ground (arith, lookup-insert u v empty_wallet d)
  | inr (x, e) ↦ ground arith
]

pub moved_lem :
    (u v : ℕ) (b p : ℤ) (x : Wallet) (d : Dict Wallet)
    → lookup u d ≡ some x
    → let d' = insert u (moved x b p) d in
      (balance_of v d' ≡ (if u == v then balance_of v d +ℤ b else balance_of v d))
      × (pending_of v d' ≡ (if u == v then pending_of v d +ℤ p else pending_of v d))
moved_lem u v b p x d e = ground (arith, lookup-insert u v (moved x b p) d)

swap_sum : (a b c : ℤ) → a ≡ b → a +ℤ c ≡ c +ℤ b
swap_sum a b c h = rw h (omega int_laws)

-- A write on the wallet and its entry keep the account, if the entry tells what the write did.
post-Reconciled :
    (u : ℕ) (b p : ℤ) (e : Entry) (x : Wallet) (w : World)
    → e.wallet ≡ u
    → balance_effect e ≡ b
    → pending_effect e ≡ p
    → lookup u w.wallets ≡ some x
    → Reconciled w
    → Reconciled (record w { wallets = insert u (moved x b p) w.wallets; ledger = e ∷ w.ledger })
unfolding sum_for
post-Reconciled u b p e x w eu eb ep found h = record {
  balances = λ v. ground (
    arith,
    moved_lem u v b p x w.wallets found,
    h.balances v,
    swap_sum (balance_of v w.wallets) (sum_for balance_effect v w.ledger) b,
  );
  pendings = λ v. ground (
    arith,
    moved_lem u v b p x w.wallets found,
    h.pendings v,
    swap_sum (pending_of v w.wallets) (sum_for pending_effect v w.ledger) p,
  );
}

abbrev entry : ℕ → EntryType → ℤ → Option ℕ → Entry
entry u type amount reference = record {
  wallet = u;
  type = type;
  amount = amount;
  reference = reference;
}

-- The two writes that every service makes one after the other.
write-Reconciled :
    (u : ℕ) (r : Option ℕ) (type : EntryType) (amount b p : ℤ)
    → balance_effect (entry u type amount r) ≡ b
    → pending_effect (entry u type amount r) ≡ p
    → Keeps Reconciled (update_wallet u b p >> create_entry u type amount r)
unfolding update_wallet create_entry ◌>>=◌ modify
write-Reconciled u r type amount b p eb ep = record {
  at = λ w h. elim (Option-cases (lookup u w.wallets)) [
    | inl e ↦ rw (e, update_wallet) h
    | inr (x, e) ↦
        rw (e, update_wallet) (post-Reconciled u b p (entry u type amount r) x w refl eb ep e h)
  ];
}

pub hold-Reconciled : (u n r : ℕ) → Keeps Reconciled (hold_escrow u n r)
unfolding hold_escrow
hold-Reconciled u n r =
    write-Reconciled u (some r) EntryType.escrow_hold (pos n) (pos 0) (pos n) refl refl

pub release-Reconciled : (u n r : ℕ) → Keeps Reconciled (release_escrow u n r)
unfolding release_escrow
release-Reconciled u n r =
    write-Reconciled u (some r) EntryType.escrow_release (pos n) (pos n) (neg n) refl (ground arith)

pub reverse-Reconciled : (u n r : ℕ) → Keeps Reconciled (reverse_escrow u n r)
unfolding reverse_escrow
reverse-Reconciled u n r =
    write-Reconciled u (some r) EntryType.escrow_release (neg n) (pos 0) (neg n) (ground arith)
      (ground arith)

pub refund-Reconciled : (u n r : ℕ) → Keeps Reconciled (refund_wallet u n r)
unfolding refund_wallet
refund-Reconciled u n r =
    write-Reconciled u (some r) EntryType.refund (pos n) (pos n) (pos 0) refl refl

pub credit-Reconciled : (u n r : ℕ) → Keeps Reconciled (credit_wallet u n r)
unfolding credit_wallet
credit-Reconciled u n r =
    write-Reconciled u (some r) EntryType.credit (pos n) (pos n) (pos 0) refl refl

pub upsert-Reconciled : (u : ℕ) → Keeps Reconciled (upsert_wallet u)
unfolding upsert_wallet modify sum_for
upsert-Reconciled u = record {
  at = λ w h. record {
    balances = λ v. rw (ensure_lem u v w.wallets).0 (h.balances v);
    pendings = λ v. rw (ensure_lem u v w.wallets).1 (h.pendings v);
  };
}

-- A conditional debit with its entry.
charge-Reconciled :
    (u n : ℕ) (t : EntryType) (r : Option ℕ)
    → balance_effect (entry u t (neg n) r) ≡ neg n
    → pending_effect (entry u t (neg n) r) ≡ pos 0
    → Keeps Reconciled (charge u n t r)
unfolding charge debit_wallet create_entry actions
charge-Reconciled u n t r eb ep = record {
  at = λ w h. elim (Option-cases (lookup u w.wallets)) [
    | inl e ↦ rw (e, debit_wallet) h
    | inr (x, e) ↦ elim (Bool-cases (leb_ℤ (pos n) x.balance)) [
      | inl y ↦
          rw (e, debit_wallet)
            (rw y (post-Reconciled u (neg n) (pos 0) (entry u t (neg n) r) x w refl eb ep e h))
      | inr f ↦ rw (e, debit_wallet) (rw f h)
    ]
  ];
}

pub debit-Reconciled : (u n m : ℕ) → Keeps Reconciled (debit_for_payout u n m)
unfolding debit_for_payout
debit-Reconciled u n m = charge-Reconciled u n EntryType.payout (some m) refl refl

pub promotion-Reconciled : (u n : ℕ) → Keeps Reconciled (charge_promotion u n)
unfolding charge_promotion
promotion-Reconciled u n = charge-Reconciled u n EntryType.debit none refl refl
