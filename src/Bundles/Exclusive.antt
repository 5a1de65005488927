-- ===== src/Bundles/Exclusive.antt =====
-- A listing is sold in one bundle at most (`checkoutBundle` of
-- apps/api/src/bundles/bundles.service.ts).
use vintage.Prelude.{
  ℕ, ◌≡◌, refl, Bool, true, false, Option, none, some, List, [], ◌∷◌, any, ◌==◌, arith, Bool-cases,
  Option-cases, inl, inr, ==→eq, subst, sym, ap,
}
use vintage.Prelude.Dict.{Dict, lookup, insert, lookup-insert, lookup-insert_self}
use vintage.World.{World, Listing, ListingStatus, Order, BundleStatus, listing_is, bundle_is}
use vintage.Checkout.{Quote}
use vintage.Checkout.Place.{OrderRequest, place_order_tx}
use vintage.World.Action.{
  Action, Exception, Result, ok, err, ◌>>=◌, transaction, roll_back, for_each, actions, throw, pure,
  resume, modify,
}
use vintage.World.Keeps.{Keeps, Keeps-bind, Keeps-pure, keeps_rules}
use vintage.World.Ensures.{Ensures, Ensures-bind, Ensures-keep, Ensures-after, Ensures-transaction}
use vintage.World.Tables.{
  orders, bundles, Leaves, Keeps-create, table_rules, claim, create, create_snapshot, find_unique,
}
use vintage.Bundles.{claim_listing, claim_bundle, place_items, checkout_tx}

-- The listing stands in the table as sold.
abbrev pub is_sold : ℕ → World → Bool
is_sold k w = elim (lookup k w.listings) [
  | none ↦ false
  | some l ↦ listing_is l.status ListingStatus.sold
]

abbrev Sold : ℕ → World → Type 0
Sold k w = is_sold k w ≡ true

-- An item of the list is the listing.
abbrev pub has_item : ℕ → Dict Listing → Bool
has_item k items = any (λ p. p.0 == k) items

sold_lem :
    (k j : ℕ) (l : Listing) (w : World)
    → Sold k w
    → Sold k
        (record w { listings = insert j (record l { status = ListingStatus.sold }) w.listings })
sold_lem k j l w h =
    ground (arith, h, lookup-insert j k (record l { status = ListingStatus.sold }) w.listings)

-- A claim leaves what is sold as it is, and what it wins is sold.
claim_listing-Sold : (k j : ℕ) → Keeps (Sold k) (claim_listing j)
unfolding claim_listing claim actions throw pure
claim_listing-Sold k j = record {
  at = λ w h. elim (Option-cases (lookup j w.listings)) [
    | inl n ↦ rw n h
    | inr (l, e) ↦ elim (Bool-cases (listing_is l.status ListingStatus.active)) [
      | inl a ↦ rw e (rw a (sold_lem k j l w h))
      | inr a ↦ rw e (rw a h)
    ]
  ];
}

claim_listing-wins : (j : ℕ) (P : World → Type 0) → Ensures P (claim_listing j) (λ a w. Sold j w)
unfolding claim_listing claim actions throw pure
claim_listing-wins j P = record {
  at = λ w h a v r. elim (Option-cases (lookup j w.listings)) [
    | inl n ↦ cc (rw n at r)
    | inr (l, e) ↦ elim (Bool-cases (listing_is l.status ListingStatus.active)) [
      | inl t ↦
          subst (λ r. Sold j r.1) (rw t at (rw e at r))
            (rw (lookup-insert_self j (record l { status = ListingStatus.sold }) w.listings) refl)
      | inr t ↦ cc (rw t at (rw e at r))
    ]
  ];
}

claim_listings-Sold :
    (k : ℕ) (items : Dict Listing) → Keeps (Sold k) (for_each items (λ p. claim_listing p.0))
claim_listings-Sold k items = search (keeps_rules, claim_listing-Sold)

-- Where every claim is won, every item is sold.
claim_listings-wins :
    (k : ℕ) (items : Dict Listing) (P : World → Type 0)
    → has_item k items ≡ true
    → Ensures P (for_each items (λ p. claim_listing p.0)) (λ a w. Sold k w)
unfolding for_each
claim_listings-wins k [] P h = cc h
claim_listings-wins k (p ∷ ps) P h = elim (Bool-cases (p.0 == k)) [
  | inl e ↦
      Ensures-bind (λ a w. Sold p.0 w) (claim_listing-wins p.0 P)
        (λ a.
          subst (λ i. Ensures (Sold i) (for_each ps (λ q. claim_listing q.0)) (λ b w. Sold k w))
            (sym (==→eq p.0 k e)) (Ensures-keep (claim_listings-Sold k ps)))
  | inr n ↦
      Ensures-bind (λ a w. Sold p.0 w) (claim_listing-wins p.0 P)
        (λ a. claim_listings-wins k ps (Sold p.0) (ground (arith, n, h)))
]

-- A claim of a listing that is sold.
claim_listing-loses :
    (k : ℕ) (w : World) → Sold k w → claim_listing k w ≡ (err Exception.conflict, w)
unfolding claim_listing claim actions throw pure
claim_listing-loses k w h = elim (Option-cases (lookup k w.listings)) [
  | inl n ↦ rw n refl
  | inr (l, e) ↦ elim (Bool-cases (listing_is l.status ListingStatus.active)) [
    | inl a ↦ ground (arith, e, a, h)
    | inr a ↦ rw e (rw a refl)
  ]
]

claim_listing-err :
    (j : ℕ) (w : World) (x : Exception) (v : World)
    → claim_listing j w ≡ (err x, v)
    → x ≡ Exception.conflict
unfolding claim_listing claim actions throw pure
claim_listing-err j w x v r = elim (Option-cases (lookup j w.listings)) [
  | inl n ↦ cc (rw n at r)
  | inr (l, e) ↦ elim (Bool-cases (listing_is l.status ListingStatus.active)) [
    | inl a ↦ cc (rw a at (rw e at r))
    | inr a ↦ cc (rw a at (rw e at r))
  ]
]

abbrev Conflicts : {A : Type 0} → Action A → World → Type 0
Conflicts m w = (m w).0 ≡ err Exception.conflict

resume-conflict :
    {A B : Type 0} (f : A → Action B) (r : Result A × World)
    → ((x : Exception) (v : World) → r ≡ (err x, v) → x ≡ Exception.conflict)
    → ((a : A) (v : World) → r ≡ (ok a, v) → Conflicts (f a) v)
    → (resume f r).0 ≡ err Exception.conflict
resume-conflict f (ok a, v) h k = k a v refl
resume-conflict f (err x, v) h k = ap err (h x v refl)

bind-Conflicts :
    {A B : Type 0} (m : Action A) (f : A → Action B) (w : World)
    → ((x : Exception) (v : World) → m w ≡ (err x, v) → x ≡ Exception.conflict)
    → ((a : A) (v : World) → m w ≡ (ok a, v) → Conflicts (f a) v)
    → Conflicts (m >>= f) w
unfolding ◌>>=◌
bind-Conflicts m f w h k = resume-conflict f (m w) h k

roll_back-conflict :
    {A : Type 0} (w : World) (r : Result A × World)
    → r.0 ≡ err Exception.conflict
    → roll_back w r ≡ (err Exception.conflict, w)
roll_back-conflict w (ok a, v) h = cc h
roll_back-conflict w (err x, v) h = rw h refl

claim_listings-lose :
    (k : ℕ) (items : Dict Listing) (w : World)
    → has_item k items ≡ true
    → Sold k w
    → Conflicts (for_each items (λ p. claim_listing p.0)) w
unfolding for_each
claim_listings-lose k [] w h s = cc h
claim_listings-lose k (p ∷ ps) w h s =
    bind-Conflicts (claim_listing p.0) _ w (claim_listing-err p.0 w) (λ a v r.
      elim (Bool-cases (p.0 == k)) [
        | inl e ↦
            let i : claim_listing p.0 w ≡ (err Exception.conflict, w) =
              subst (λ j. claim_listing j w ≡ (err Exception.conflict, w)) (sym (==→eq p.0 k e))
                (claim_listing-loses k w s) in
            cc (i, r)
        | inr n ↦
            claim_listings-lose k ps v (ground (arith, n, h))
              (subst (λ q. Sold k q.1) r ((claim_listing-Sold k p.0).at w s))
      ])

claim_bundle-Sold : (k id : ℕ) → Keeps (Sold k) (claim_bundle id)
unfolding claim_bundle
claim_bundle-Sold k id =
    let l : Leaves bundles (Sold k) = record { put_keeps = λ d w h. h; id_keeps = λ w h. h } in
    search (keeps_rules, table_rules, l)

claim_bundle-err :
    (id : ℕ) (w : World) (x : Exception) (v : World)
    → claim_bundle id w ≡ (err x, v)
    → x ≡ Exception.conflict
unfolding claim_bundle claim actions throw pure
claim_bundle-err id w x v r = elim (Option-cases (lookup id w.bundles)) [
  | inl n ↦ cc (rw n at r)
  | inr (b, e) ↦ elim (Bool-cases (bundle_is b.status BundleStatus.open_status)) [
    | inl a ↦ cc (rw a at (rw e at r))
    | inr a ↦ cc (rw a at (rw e at r))
  ]
]

create_snapshot-Sold : (k id : ℕ) → Keeps (Sold k) (create_snapshot id)
unfolding create_snapshot modify
create_snapshot-Sold k id = record { at = λ w h. h }

place_items-Sold :
    (k : ℕ) (order : ℕ × Listing → Order) (items : Dict Listing)
    → Keeps (Sold k) (place_items order items)
unfolding place_items
place_items-Sold k order [] = search keeps_rules
place_items-Sold k order (p ∷ ps) =
    let l : Leaves orders (Sold k) = record { put_keeps = λ d w h. h; id_keeps = λ w h. h } in
    Keeps-bind (create orders (order p)) _ (Keeps-create orders (order p) l) (λ id.
      Keeps-bind (create_snapshot id) _ (create_snapshot-Sold k id) (λ a.
        Keeps-bind (place_items order ps) _ (place_items-Sold k order ps)
          (λ rest. Keeps-pure (id ∷ rest))))

checkout_tx-Sold :
    (k id : ℕ) (order : ℕ × Listing → Order) (items : Dict Listing)
    → has_item k items ≡ true
    → Ensures (λ w. Unit {0}) (transaction (checkout_tx id order items)) (λ a w. Sold k w)
unfolding checkout_tx
checkout_tx-Sold k id order items h = Ensures-transaction (
    Ensures-after (record { at = λ w p. tt })
      (λ a.
        Ensures-bind (λ b w. Sold k w) (claim_listings-wins k items (λ w. Unit {0}) h)
          (λ b. Ensures-keep (place_items-Sold k order items))))

checkout_tx-loses :
    (k id : ℕ) (order : ℕ × Listing → Order) (items : Dict Listing) (w : World)
    → has_item k items ≡ true
    → Sold k w
    → transaction (checkout_tx id order items) w ≡ (err Exception.conflict, w)
unfolding checkout_tx transaction
checkout_tx-loses k id order items w h s = roll_back-conflict w _ (
    bind-Conflicts (claim_bundle id) _ w (claim_bundle-err id w) (λ a v r.
      let t : Sold k v = subst (λ q. Sold k q.1) r ((claim_bundle-Sold k id).at w s) in
      bind-Conflicts (for_each items (λ p. claim_listing p.0)) _ v
        (λ x u q. cc (claim_listings-lose k items v h t, q))
        (λ b u q. cc (claim_listings-lose k items v h t, q))))

place_order_tx-refused :
    (k buyer : ℕ) (r : OrderRequest) (l : Listing) (q : Quote) (c : Option ℕ) (w : World)
    → r.listing ≡ k
    → Sold k w
    → transaction (place_order_tx buyer r l q c) w ≡ (err Exception.bad_request, w)
unfolding place_order_tx find_unique actions throw pure
place_order_tx-refused k buyer r l q c w e s = elim (Option-cases (lookup r.listing w.listings)) [
  | inl n ↦ rw n refl
  | inr (x, i) ↦ elim (Bool-cases (listing_is x.status ListingStatus.active)) [
    | inl a ↦ ground (arith, e, i, a, s)
    | inr a ↦ rw i (rw a refl)
  ]
]

-- Where the transaction of a checkout of a bundle with a listing has returned, that of any bundle
-- with the listing, the same one or another, ends in a conflict, that of an order of the listing
-- alone is a bad request, and neither writes anything.
pub checkout_tx-exclusive :
    (k id id' buyer : ℕ) (order order' : ℕ × Listing → Order) (items items' : Dict Listing)
    (r : OrderRequest) (l : Listing) (q : Quote) (c : Option ℕ) (placed : List ℕ) (w v : World)
    → has_item k items ≡ true
    → has_item k items' ≡ true
    → r.listing ≡ k
    → transaction (checkout_tx id order items) w ≡ (ok placed, v)
    → (transaction (checkout_tx id' order' items') v ≡ (err Exception.conflict, v))
      × (transaction (place_order_tx buyer r l q c) v ≡ (err Exception.bad_request, v))
checkout_tx-exclusive k id id' buyer order order' items items' r l q c placed w v h h' e done =
    let s : Sold k v = (checkout_tx-Sold k id order items h).at w tt placed v done in
    (checkout_tx-loses k id' order' items' v h' s, place_order_tx-refused k buyer r l q c v e s)
