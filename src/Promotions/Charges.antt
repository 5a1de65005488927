-- ===== src/Promotions/Charges.antt =====
-- What a paid promotion takes from the wallet (apps/api/src/promotions/promotions.service.ts).
use vintage.Prelude.{
  ℕ, ◌+◌, ◌*◌, ◌≡◌, refl, Bool, true, false, none, some, ◌∷◌, ◌==◌, ◌&&◌, if◌then◌else◌, Bool-cases,
  inl, inr,
}
use vintage.Prelude.Int.{pos, neg, ◌+ℤ◌, leb_ℤ}
use vintage.Prelude.Dict.{lookup, insert, lookup-insert_self}
use vintage.World.{World, Wallet, Entry, EntryType, Listing}
use vintage.World.Action.{Exception, actions, throw, pure, ok, err, transaction}
use vintage.World.Tables.{create, update}
use vintage.Wallet.{charge_promotion, charge, debit_wallet, create_entry, moved}
use vintage.Wallet.Reconciliation.{balance_of, moved_lem}
use vintage.Promotions.{BumpTier, new_bump, bump_tx, day_ms}

abbrev debit_entry : ℕ → ℕ → Entry
debit_entry user price = record {
  wallet = user;
  type = EntryType.debit;
  amount = neg price;
  reference = none;
}

abbrev pub affords : ℕ → Wallet → Bool
affords price x = leb_ℤ (pos price) x.balance

abbrev until : ℕ → Listing → Listing
until t x = record x { promoted_until = some t }

abbrev bumped : ℕ → ℕ → ℕ → BumpTier → Wallet → Listing → World → World
bumped now listing user t x l w = record w {
  next_id = w.next_id + 1;
  wallets = insert user (moved x (neg t.price) (pos 0)) w.wallets;
  ledger = debit_entry user t.price ∷ w.ledger;
  promotions = insert w.next_id (new_bump now listing user t) w.promotions;
  listings = insert listing (until (now + t.days * day_ms) l) w.listings;
}

bump_tx-affords :
    (now listing user : ℕ) (t : BumpTier) (x : Wallet) (l : Listing) (w : World)
    → lookup user w.wallets ≡ some x
    → lookup listing w.listings ≡ some l
    → affords t.price x ≡ true
    → transaction (bump_tx now listing user t) w ≡ (ok w.next_id, bumped now listing user t x l w)
unfolding bump_tx charge_promotion charge debit_wallet create_entry create update actions throw pure
bump_tx-affords now listing user t x l w e i h = rw (e, debit_wallet) (rw h (rw i refl))

bump_tx-lacks :
    (now listing user : ℕ) (t : BumpTier) (x : Wallet) (w : World)
    → lookup user w.wallets ≡ some x
    → affords t.price x ≡ false
    → transaction (bump_tx now listing user t) w ≡ (err Exception.bad_request, w)
unfolding bump_tx charge_promotion charge debit_wallet actions throw pure
bump_tx-lacks now listing user t x w e h = rw (e, debit_wallet) (rw h refl)

-- The transaction of a bump of a listing that exists, for a user with a wallet: where the balance
-- covers the price of the tier, the promotion is stored, the listing is promoted for the days of the
-- tier, and the balance of the user falls by the price and no other balance changes; where it does
-- not, the request is bad and nothing is written.
pub bump_tx-charges :
    (now listing user v : ℕ) (t : BumpTier) (x : Wallet) (l : Listing) (w : World)
    → lookup user w.wallets ≡ some x
    → lookup listing w.listings ≡ some l
    → let r = transaction (bump_tx now listing user t) w in
      (r.0 ≡ (if affords t.price x then ok w.next_id else err Exception.bad_request))
      × (lookup listing r.1.listings
          ≡ some (if affords t.price x then until (now + t.days * day_ms) l else l))
      × (lookup w.next_id r.1.promotions ≡ (
          if affords t.price x
          then some (new_bump now listing user t)
          else lookup w.next_id w.promotions))
      × (balance_of v r.1.wallets ≡ (
          if affords t.price x && (user == v)
          then balance_of v w.wallets +ℤ neg t.price
          else balance_of v w.wallets))
      × ((if affords t.price x then w else r.1) ≡ w)
bump_tx-charges now listing user v t x l w e i = elim (Bool-cases (affords t.price x)) [
  | inl h ↦ rw h (
      rw (bump_tx-affords now listing user t x l w e i h) (
        refl,
        lookup-insert_self listing (until (now + t.days * day_ms) l) w.listings,
        lookup-insert_self w.next_id (new_bump now listing user t) w.promotions,
        (moved_lem user v (neg t.price) (pos 0) x w.wallets e).0,
        refl,
      ))
  | inr h ↦ rw h (rw (bump_tx-lacks now listing user t x w e h) (refl, i, refl, refl, refl))
]
