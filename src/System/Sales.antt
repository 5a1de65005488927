-- ===== src/System/Sales.antt =====
-- Invariants of the handlers of listings, promotions and bundles.
use vintage.Prelude.{ℕ, Bool, Option, List, [], ◌∷◌}
use vintage.Prelude.Dict.{Dict}
use vintage.World.{World, Listing, Order, PaymentMethod, PromotionType}
use vintage.World.Keeps.{Keeps, Keeps-bind}
use vintage.System.Invariant.{Invariant, basic_rules, invariant_rules}
use vintage.System.Transactions.{transaction_rules}
use vintage.World.Tables.{orders, listings, find_or_throw, create, create_snapshot}
use vintage.Listings.{
  ListingInput, ListingUpdate, create_listing, update_listing, remove_listing, suspend_listing,
  unsuspend_listing,
}
use vintage.Promotions.{
  BumpTier, get_promotable, write_megafone, create_megafone, check_balance, bump_tx, create_bump,
  spotlight_tx, create_spotlight,
}
use vintage.Bundles.{
  create_bundle, delete_item, remove_item, read_items, claim_listing, claim_bundle, place_items,
  checkout_tx, checkout_bundle,
}

module _ {P : World → Type 0} (inv : Invariant P) (meanwhile : World → World)
    (rely : (w : World) → P w → P (meanwhile w)) where
  ruleset rules = (basic_rules, transaction_rules, invariant_rules)

  get_promotable-Keeps : (l u : ℕ) (t : PromotionType) → Keeps P (get_promotable l u t)
  unfolding get_promotable
  get_promotable-Keeps l u t = search rules depth 20

  write_megafone-Keeps : (l u : ℕ) (b : Bool) → Keeps P (write_megafone meanwhile l u b)
  unfolding write_megafone
  write_megafone-Keeps l u b = search rules depth 20

  pub create_megafone-Keeps : (l u : ℕ) → Keeps P (create_megafone meanwhile l u)
  unfolding create_megafone
  create_megafone-Keeps l u = search (rules, get_promotable-Keeps, write_megafone-Keeps) depth 20

  check_balance-Keeps : (u n : ℕ) → Keeps P (check_balance u n)
  unfolding check_balance
  check_balance-Keeps u n = search rules depth 20

  bump_tx-Keeps : (n l u : ℕ) (t : BumpTier) → Keeps P (bump_tx n l u t)
  unfolding bump_tx
  bump_tx-Keeps n l u t = search rules depth 20

  pub create_bump-Keeps : (l u : ℕ) (d : Option ℕ) → Keeps P (create_bump meanwhile l u d)
  unfolding create_bump
  create_bump-Keeps l u d =
      search (rules, get_promotable-Keeps, check_balance-Keeps, bump_tx-Keeps) depth 30

  spotlight_tx-Keeps : (n u : ℕ) → Keeps P (spotlight_tx n u)
  unfolding spotlight_tx
  spotlight_tx-Keeps n u = search rules depth 20

  pub create_spotlight-Keeps : (u : ℕ) → Keeps P (create_spotlight meanwhile u)
  unfolding create_spotlight
  create_spotlight-Keeps u = search (rules, check_balance-Keeps, spotlight_tx-Keeps) depth 30

  pub create_bundle-Keeps : (u s : ℕ) (ids : List ℕ) → Keeps P (create_bundle meanwhile u s ids)
  unfolding create_bundle
  create_bundle-Keeps u s ids = search rules depth 30

  delete_item-Keeps : (b l : ℕ) → Keeps P (delete_item b l)
  unfolding delete_item
  delete_item-Keeps b l = search rules depth 20

  pub remove_item-Keeps : (b l u : ℕ) → Keeps P (remove_item meanwhile b l u)
  unfolding remove_item
  remove_item-Keeps b l u = search (rules, delete_item-Keeps) depth 30

  read_items-Keeps : (ids : List ℕ) → Keeps P (read_items ids)
  unfolding read_items
  read_items-Keeps [] = search rules
  read_items-Keeps (i ∷ is) =
      Keeps-bind (find_or_throw listings i) _ (search rules)
        (λ l. Keeps-bind (read_items is) _ (read_items-Keeps is) (λ rest. search rules))

  claim_listing-Keeps : (l : ℕ) → Keeps P (claim_listing l)
  unfolding claim_listing
  claim_listing-Keeps l = search rules depth 20

  claim_bundle-Keeps : (b : ℕ) → Keeps P (claim_bundle b)
  unfolding claim_bundle
  claim_bundle-Keeps b = search rules depth 20

  place_items-Keeps :
      (order : ℕ × Listing → Order) (items : Dict Listing) → Keeps P (place_items order items)
  unfolding place_items
  place_items-Keeps order [] = search rules
  place_items-Keeps order (p ∷ ps) = Keeps-bind (create orders (order p)) _ (search rules) (λ id.
      Keeps-bind (create_snapshot id) _ (search rules) (λ a.
        Keeps-bind (place_items order ps) _ (place_items-Keeps order ps) (λ rest. search rules)))

  checkout_tx-Keeps :
      (id : ℕ) (order : ℕ × Listing → Order) (items : Dict Listing)
      → Keeps P (checkout_tx id order items)
  unfolding checkout_tx
  checkout_tx-Keeps id order items =
      search (rules, claim_listing-Keeps, claim_bundle-Keeps, place_items-Keeps) depth 20

  pub checkout_bundle-Keeps :
      (f : ℕ → ℕ → ℕ) (id u a : ℕ) (m : PaymentMethod)
      → Keeps P (checkout_bundle meanwhile f id u a m)
  unfolding checkout_bundle
  checkout_bundle-Keeps f id u a m = search (rules, read_items-Keeps, checkout_tx-Keeps) depth 40

  pub create_listing-Keeps :
      (b : Bool) (u : ℕ) (d : ListingInput) → Keeps P (create_listing meanwhile b u d)
  unfolding create_listing
  create_listing-Keeps b u d = search rules depth 40

  pub update_listing-Keeps :
      (id u : ℕ) (d : ListingUpdate) → Keeps P (update_listing meanwhile id u d)
  unfolding update_listing
  update_listing-Keeps id u d = search rules depth 30

  pub remove_listing-Keeps : (id u : ℕ) → Keeps P (remove_listing meanwhile id u)
  unfolding remove_listing
  remove_listing-Keeps id u = search rules depth 30

  pub suspend_listing-Keeps : (id : ℕ) → Keeps P (suspend_listing meanwhile id)
  unfolding suspend_listing
  suspend_listing-Keeps id = search rules depth 30

  pub unsuspend_listing-Keeps : (id : ℕ) → Keeps P (unsuspend_listing meanwhile id)
  unfolding unsuspend_listing
  unsuspend_listing-Keeps id = search rules depth 30

pub ruleset sale_rules = (
  create_listing-Keeps, update_listing-Keeps, remove_listing-Keeps, suspend_listing-Keeps,
  unsuspend_listing-Keeps, create_megafone-Keeps, create_bump-Keeps, create_spotlight-Keeps,
  create_bundle-Keeps, remove_item-Keeps, checkout_bundle-Keeps,
)
