-- ===== src/Offers/Chain.antt =====
-- The chain of counteroffers (`parentOfferId` and `counterCount`), up which `findThread` of
-- apps/api/src/offers/offers.service.ts walks.
use vintage.Prelude.{
  ℕ, zero, suc, ◌+◌, ◌≤◌, ◌≡◌, refl, subst, sym, Bool-cases, Option-cases, inl, inr, Option, none,
  some, true, false, ◌==◌, ==→eq, arith,
}
use vintage.Prelude.Dict.{Dict, lookup, insert, lookup-insert, lookup-insert_self}
use vintage.World.{World, Offer, OfferStatus}
use vintage.World.Action.{ok}
use vintage.Offers.{is_undecided, counter_of, counter_offer}
use vintage.Offers.Thread.{find_root}
use vintage.Offers.Kept.{insert_apart, insert_fresh}
use vintage.Offers.Deals.{counter_offer-Countered}

-- The first offer has the count 0; a counteroffer has one more than the offer that it answers,
-- which is no longer open.
abbrev pub ParentOf : Option ℕ → ℕ → Dict Offer → Type 0
ParentOf none n d = n ≡ 0
ParentOf (some p) n d =
    (q : Offer) × ((lookup p d ≡ some q) × (is_undecided q ≡ false) × (n ≡ q.counter_count + 1))

abbrev pub Linked : Dict Offer → Type 0
Linked d = (k : ℕ) (o : Offer) → lookup k d ≡ some o → ParentOf o.parent o.counter_count d

-- The walk ends at an offer that answers none: from an offer of a linked table, as many steps are enough as its
-- count of counteroffers says.
pub find_root-ends :
    (n : ℕ) (d : Dict Offer) (k : ℕ) (o : Offer)
    → Linked d
    → lookup k d ≡ some o
    → o.counter_count ≤ n
    → ((find_root n d (k, o)).1).parent ≡ none
unfolding find_root
find_root-ends zero d k o h s b = elim (Option-cases o.parent) [
  | inl e ↦ e
  | inr (p, e) ↦
      let g = subst (λ m. ParentOf m o.counter_count d) e (h k o s) in
      absurd (omega (arith, g.1.2, b))
]
find_root-ends (suc n) d k o h s b = elim (Option-cases o.parent) [
  | inl e ↦ rw e refl
  | inr (p, e) ↦
      let (q, (l, c, i)) = subst (λ m. ParentOf m o.counter_count d) e (h k o s) in
      rw e (rw (l, find_root) (find_root-ends n d p q h l (omega (arith, i, b))))
]

-- A parent that is not open is left by a mark on an open offer.
mark_parent :
    (m : Option ℕ) (n id : ℕ) (x y : Offer) (d : Dict Offer)
    → lookup id d ≡ some x
    → is_undecided x ≡ true
    → ParentOf m n d
    → ParentOf m n (insert id y d)
mark_parent none n id x y d l t h = h
mark_parent (some p) n id x y d l t (q, (i, c, e)) = (q, (insert_apart id p x y q d i l t c, c, e))

-- An offer stays under its id when another is inserted under a fresh one.
fresh_parent :
    (m : Option ℕ) (n new : ℕ) (x : Offer) (d : Dict Offer)
    → lookup new d ≡ none
    → ParentOf m n d
    → ParentOf m n (insert new x d)
fresh_parent none n new x d f h = h
fresh_parent (some p) n new x d f (q, (i, c, e)) = (q, (insert_fresh new p x q d i f, c, e))

-- A row is written, and the parents of the others and its own are linked.
insert-Linked :
    (id : ℕ) (y : Offer) (d : Dict Offer)
    → ((m : Option ℕ) (n : ℕ) → ParentOf m n d → ParentOf m n (insert id y d))
    → Linked d
    → ParentOf y.parent y.counter_count (insert id y d)
    → Linked (insert id y d)
insert-Linked id y d stays h own k o e =
    let g = lookup-insert id k y d in
    elim (Bool-cases (id == k)) [
      | inl t ↦
          let i : y ≡ o = cc (rw t at g, e) in
          subst (λ z. ParentOf z.parent z.counter_count (insert id y d)) i own
      | inr n ↦
          let i : lookup k d ≡ some o = cc (rw n at g, e) in
          stays o.parent o.counter_count (h k o i)
    ]

mark-Linked :
    (id : ℕ) (x : Offer) (s : OfferStatus) (d : Dict Offer)
    → lookup id d ≡ some x
    → is_undecided x ≡ true
    → Linked d
    → Linked (insert id (record x { status = s }) d)
mark-Linked id x s d l t h =
    let stays = λ (m : Option ℕ) (n : ℕ) (p : ParentOf m n d).
      mark_parent m n id x (record x { status = s }) d l t p in
    insert-Linked id (record x { status = s }) d stays h (stays x.parent x.counter_count (h id x l))

still_fresh :
    (new id : ℕ) (x y : Offer) (d : Dict Offer)
    → lookup id d ≡ some x
    → lookup new d ≡ none
    → lookup new (insert id y d) ≡ none
still_fresh new id x y d l f =
    let g = lookup-insert id new y d in
    elim (Bool-cases (id == new)) [
      | inl t ↦
          let i : lookup id d ≡ none = subst (λ a. lookup a d ≡ none) (sym (==→eq id new t)) f in
          cc (i, l)
      | inr n ↦ cc (rw n at g, f)
    ]

-- The two writes of a counteroffer.
counter_rows :
    (id new : ℕ) (prev x : Offer) (actor amount now created : ℕ) (d : Dict Offer)
    → Linked d
    → lookup id d ≡ some x
    → is_undecided x ≡ true
    → x.counter_count ≡ prev.counter_count
    → lookup new d ≡ none
    → Linked (
        insert new
          (counter_of id prev actor amount now created)
          (insert id (record x { status = OfferStatus.countered }) d))
counter_rows id new prev x actor amount now created d h l t e f =
    let y = record x { status = OfferStatus.countered } in
    let z = counter_of id prev actor amount now created in
    let g = still_fresh new id x y d l f in
    insert-Linked new z (insert id y d) (λ m n p. fresh_parent m n new z (insert id y d) g p)
      (mark-Linked id x OfferStatus.countered d l t h)
      (
        y,
        (
          insert_fresh new id z y (insert id y d) (lookup-insert_self id y d) g,
          ground arith,
          ground (arith, e),
        ),
      )

-- The other requests leave the table linked, the count of the offer as it is, and the next id fresh.
abbrev pub Orderly : (World → World) → ℕ → World → Type 0
Orderly meanwhile id w =
    Linked (meanwhile w).offers
    × (lookup (meanwhile w).next_id (meanwhile w).offers ≡ none)
    × ((o x : Offer)
        → lookup id w.offers ≡ some o
        → lookup id (meanwhile w).offers ≡ some x
        → x.counter_count ≡ o.counter_count)

-- A counteroffer leaves the table of offers linked, if what other requests do in between
-- leaves it linked, does not change the count of the offer that is answered, and leaves the next id fresh.
pub counter_offer-Linked :
    (meanwhile : World → World) (id actor amount : ℕ) (w v : World) (new : ℕ)
    → Orderly meanwhile id w
    → counter_offer meanwhile id actor amount w ≡ (ok new, v)
    → Linked v.offers
counter_offer-Linked meanwhile id actor amount w v new (h, f, same) e =
    let (prev, (x, (c, n, i))) = counter_offer-Countered meanwhile id actor amount w v new e in
    subst Linked (sym i) (
      counter_rows id new prev x actor amount w.now (meanwhile w).now (meanwhile w).offers h c.1.7
        c.1.8 (same prev x c.1.0 c.1.7)
        (subst (λ k. lookup k (meanwhile w).offers ≡ none) (sym n) f))
