-- ===== src/World/Tables.antt =====
-- The calls of the database client that the services make on a table: `findUnique`, `findFirst`,
-- the conditional `updateMany` by which they claim a row, `update`, `create` and `deleteMany`.
use vintage.Prelude.{ℕ, ◌+◌, ◌≡◌, Bool, true, false, Option, none, some, ◌∷◌, filter, not, ◌==◌}
use vintage.Prelude.Dict.{Dict, lookup, insert, find, rows_where, any_row, map_where}
use vintage.World.State.{
  World, Listing, Coupon, Order, Dispute, OrderReturn, PayoutMethod, PayoutRequest, Payment,
  Referral, Offer, User, Promotion, Bundle, RefreshToken, ResetToken, Review,
}
use vintage.World.Action.{Action, Exception, ok, err, gets, or_throw, modify}
use vintage.World.Keeps.{Keeps, Keeps-gets, Keeps-or_throw}

pub record Table (V : Type 0) : Type 0 where
  pub rows : World → Dict V
  pub put : Dict V → World → World

module _ {V : Type 0} (t : Table V) where
  unfoldable pub find_unique : ℕ → Action (Option V)
  unfolding gets
  find_unique k = gets (λ w. lookup k (t.rows w))

  -- `findUniqueOrThrow`.
  unfoldable pub find_or_throw : ℕ → Action V
  unfolding or_throw gets
  find_or_throw k w = or_throw (lookup k (t.rows w)) Exception.database_error w

  unfoldable pub find_first : (V → Bool) → Action (Option (ℕ × V))
  unfolding gets
  find_first p = gets (λ w. find p (t.rows w))

  unfoldable pub find_many : (World → ℕ → V → Bool) → Action (Dict V)
  unfolding gets
  find_many p = gets (λ w. rows_where (p w) (t.rows w))

  abbrev claim_tested : ℕ → V → Bool → Action Bool
  claim_tested k v true w = (ok true, t.put (insert k v (t.rows w)) w)
  claim_tested k v false w = (ok false, w)

  abbrev claim_row : ℕ → (V → Bool) → (V → V) → Option V → Action Bool
  claim_row k test f none w = (ok false, w)
  claim_row k test f (some v) w = claim_tested k (f v) (test v) w

  -- `updateMany` on one id under a condition; the result tells whether `count` is 1.
  unfoldable pub claim : ℕ → (V → Bool) → (V → V) → Action Bool
  claim k test f w = claim_row k test f (lookup k (t.rows w)) w

  abbrev update_row : ℕ → (V → V) → Option V → Action (Unit {0})
  update_row k f none w = (err Exception.database_error, w)
  update_row k f (some v) w = (ok tt, t.put (insert k (f v) (t.rows w)) w)

  -- `update` by id; a missing row is an error of the client.
  unfoldable pub update : ℕ → (V → V) → Action (Unit {0})
  update k f w = update_row k f (lookup k (t.rows w)) w

  -- `updateMany` on the rows that pass a test.
  unfoldable pub update_many : (V → Bool) → (V → V) → Action (Unit {0})
  update_many test f w = (ok tt, t.put (map_where test f (t.rows w)) w)

  -- `deleteMany`.
  unfoldable pub delete_many : (V → Bool) → Action (Unit {0})
  delete_many test w = (ok tt, t.put (rows_where (λ k v. not (test v)) (t.rows w)) w)

  -- `create` with `@default(cuid())`: the database gives out an id that it has not given before.
  unfoldable pub create : V → Action ℕ
  create v w =
      let k = w.next_id in (ok k, t.put (insert k v (t.rows w)) (record w { next_id = k + 1 }))

  -- How a claim ends.
  pub claim_wins :
      (k : ℕ) (test : V → Bool) (f : V → V) {v : V} (w : World)
      → lookup k (t.rows w) ≡ some v
      → test v ≡ true
      → claim k test f w ≡ (ok true, t.put (insert k (f v) (t.rows w)) w)
  unfolding claim
  claim_wins k test f w e p = rw e (rw p)

  pub claim_loses :
      (k : ℕ) (test : V → Bool) (f : V → V) {v : V} (w : World)
      → lookup k (t.rows w) ≡ some v
      → test v ≡ false
      → claim k test f w ≡ (ok false, w)
  unfolding claim
  claim_loses k test f w e p = rw e (rw p)

  pub claim_misses :
      (k : ℕ) (test : V → Bool) (f : V → V) (w : World)
      → lookup k (t.rows w) ≡ none
      → claim k test f w ≡ (ok false, w)
  unfolding claim
  claim_misses k test f w e = rw e

  -- Writes of this table keep `P`.
  pub record Leaves (P : World → Type 0) : Type 0 where
    pub put_keeps : (d : Dict V) (w : World) → P w → P (t.put d w)
    pub id_keeps : (w : World) → P w → P (record w { next_id = w.next_id + 1 })

module _ {V : Type 0} {P : World → Type 0} where
  pub Keeps-find_unique : (t : Table V) (k : ℕ) → Keeps P (find_unique t k)
  unfolding find_unique
  Keeps-find_unique t k = Keeps-gets _

  pub Keeps-find_or_throw : (t : Table V) (k : ℕ) → Keeps P (find_or_throw t k)
  unfolding find_or_throw
  Keeps-find_or_throw t k = record { at = λ w h. (Keeps-or_throw {P = P} _ _).at w h }

  pub Keeps-find_first : (t : Table V) (p : V → Bool) → Keeps P (find_first t p)
  unfolding find_first
  Keeps-find_first t p = Keeps-gets _

  pub Keeps-find_many : (t : Table V) (p : World → ℕ → V → Bool) → Keeps P (find_many t p)
  unfolding find_many
  Keeps-find_many t p = Keeps-gets _

module _ {V : Type 0} (P : World → Type 0) (t : Table V) (l : Leaves t P) where
  claim_tested-keeps : (k : ℕ) (v : V) (b : Bool) (w : World) → P w → P (claim_tested t k v b w).1
  claim_tested-keeps k v true w h = l.put_keeps _ w h
  claim_tested-keeps k v false w h = h

  claim_row-keeps :
      (k : ℕ) (test : V → Bool) (f : V → V) (o : Option V) (w : World)
      → P w
      → P (claim_row t k test f o w).1
  claim_row-keeps k test f none w h = h
  claim_row-keeps k test f (some v) w h = claim_tested-keeps k (f v) (test v) w h

  update_row-keeps :
      (k : ℕ) (f : V → V) (o : Option V) (w : World) → P w → P (update_row t k f o w).1
  update_row-keeps k f none w h = h
  update_row-keeps k f (some v) w h = l.put_keeps _ w h

  pub Keeps-claim_at : (k : ℕ) (test : V → Bool) (f : V → V) → Keeps P (claim t k test f)
  unfolding claim
  Keeps-claim_at k test f = record { at = λ w h. claim_row-keeps k test f _ w h }

  pub Keeps-update_at : (k : ℕ) (f : V → V) → Keeps P (update t k f)
  unfolding update
  Keeps-update_at k f = record { at = λ w h. update_row-keeps k f _ w h }

  pub Keeps-update_many_at : (test : V → Bool) (f : V → V) → Keeps P (update_many t test f)
  unfolding update_many
  Keeps-update_many_at test f = record { at = λ w h. l.put_keeps _ w h }

  pub Keeps-delete_many_at : (test : V → Bool) → Keeps P (delete_many t test)
  unfolding delete_many
  Keeps-delete_many_at test = record { at = λ w h. l.put_keeps _ w h }

  pub Keeps-create_at : (v : V) → Keeps P (create t v)
  unfolding create
  Keeps-create_at v = record { at = λ w h. l.put_keeps _ _ (l.id_keeps w h) }

module _ {V : Type 0} {P : World → Type 0} where
  pub Keeps-claim :
      (t : Table V) (k : ℕ) (test : V → Bool) (f : V → V) → Leaves t P → Keeps P (claim t k test f)
  Keeps-claim t k test f l = Keeps-claim_at P t l k test f

  pub Keeps-update : (t : Table V) (k : ℕ) (f : V → V) → Leaves t P → Keeps P (update t k f)
  Keeps-update t k f l = Keeps-update_at P t l k f

  pub Keeps-update_many :
      (t : Table V) (test : V → Bool) (f : V → V) → Leaves t P → Keeps P (update_many t test f)
  Keeps-update_many t test f l = Keeps-update_many_at P t l test f

  pub Keeps-delete_many :
      (t : Table V) (test : V → Bool) → Leaves t P → Keeps P (delete_many t test)
  Keeps-delete_many t test l = Keeps-delete_many_at P t l test

  pub Keeps-create : (t : Table V) (v : V) → Leaves t P → Keeps P (create t v)
  Keeps-create t v l = Keeps-create_at P t l v

pub ruleset table_rules = (
  Keeps-find_unique, Keeps-find_or_throw, Keeps-find_first, Keeps-find_many, Keeps-claim,
  Keeps-update, Keeps-create, Keeps-update_many, Keeps-delete_many,
)

abbrev pub listings : Table Listing
listings = record { rows = λ w. w.listings; put = λ d w. record w { listings = d } }

abbrev pub coupons : Table Coupon
coupons = record { rows = λ w. w.coupons; put = λ d w. record w { coupons = d } }

abbrev pub orders : Table Order
orders = record { rows = λ w. w.orders; put = λ d w. record w { orders = d } }

abbrev pub disputes : Table Dispute
disputes = record { rows = λ w. w.disputes; put = λ d w. record w { disputes = d } }

abbrev pub returns : Table OrderReturn
returns = record { rows = λ w. w.returns; put = λ d w. record w { returns = d } }

abbrev pub methods : Table PayoutMethod
methods = record { rows = λ w. w.methods; put = λ d w. record w { methods = d } }

abbrev pub payouts : Table PayoutRequest
payouts = record { rows = λ w. w.payouts; put = λ d w. record w { payouts = d } }

abbrev pub payments : Table Payment
payments = record { rows = λ w. w.payments; put = λ d w. record w { payments = d } }

abbrev pub offers : Table Offer
offers = record { rows = λ w. w.offers; put = λ d w. record w { offers = d } }

abbrev pub referrals : Table Referral
referrals = record { rows = λ w. w.referrals; put = λ d w. record w { referrals = d } }

abbrev pub users : Table User
users = record { rows = λ w. w.users; put = λ d w. record w { users = d } }

abbrev pub promotions : Table Promotion
promotions = record { rows = λ w. w.promotions; put = λ d w. record w { promotions = d } }

abbrev pub bundles : Table Bundle
bundles = record { rows = λ w. w.bundles; put = λ d w. record w { bundles = d } }

abbrev pub tokens : Table RefreshToken
tokens = record { rows = λ w. w.tokens; put = λ d w. record w { tokens = d } }

abbrev pub resets : Table ResetToken
resets = record { rows = λ w. w.resets; put = λ d w. record w { resets = d } }

abbrev pub reviews : Table Review
reviews = record { rows = λ w. w.reviews; put = λ d w. record w { reviews = d } }

-- `orderListingSnapshot.create` and `.deleteMany`, by the id of the order.
unfoldable pub create_snapshot : ℕ → Action (Unit {0})
unfolding modify
create_snapshot order = modify (λ w. record w { snapshots = order ∷ w.snapshots })

unfoldable pub delete_snapshots : ℕ → Action (Unit {0})
unfolding modify
delete_snapshots order =
    modify (λ w. record w { snapshots = filter (λ s. not (s == order)) w.snapshots })

-- `paymentFlag.create`, by the id of the order.
unfoldable pub create_payment_flag : ℕ → Action (Unit {0})
unfolding modify
create_payment_flag order = modify (λ w. record w { payment_flags = order ∷ w.payment_flags })

-- A relation of an order that may be null, `order.dispute` or `order.returnRequest`.
abbrev pub has_dispute : ℕ → World → Bool
has_dispute order w = any_row (λ d. d.order == order) w.disputes

abbrev pub has_return : ℕ → World → Bool
has_return order w = any_row (λ r. r.order == order) w.returns
