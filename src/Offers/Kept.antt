-- ===== src/Offers/Kept.antt =====
-- Offers that a write of another offer leaves as they are.
use vintage.Prelude.{ℕ, ◌≡◌, some, none, true, false, subst, ==→eq, Bool-cases, inl, inr, ◌==◌}
use vintage.Prelude.Dict.{Dict, lookup, insert, lookup-insert}
use vintage.World.{Offer}
use vintage.Offers.{is_undecided}

-- The row that is written is open, the other is not.
pub insert_apart :
    (j k : ℕ) (x y o : Offer) (d : Dict Offer)
    → lookup k d ≡ some o
    → lookup j d ≡ some x
    → is_undecided x ≡ true
    → is_undecided o ≡ false
    → lookup k (insert j y d) ≡ some o
insert_apart j k x y o d h s p n =
    let g = lookup-insert j k y d in
    elim (Bool-cases (j == k)) [
      | inl e ↦
          let i : lookup k d ≡ some x = subst (λ a. lookup a d ≡ some x) (==→eq j k e) s in
          let q : x ≡ o = cc (i, h) in
          let r : is_undecided o ≡ true = subst (λ a. is_undecided a ≡ true) q p in cc (r, n)
      | inr e ↦ cc (rw e at g, h)
    ]

-- The row that is written is new.
pub insert_fresh :
    (new k : ℕ) (x o : Offer) (d : Dict Offer)
    → lookup k d ≡ some o
    → lookup new d ≡ none
    → lookup k (insert new x d) ≡ some o
insert_fresh new k x o d h f =
    let g = lookup-insert new k x d in
    elim (Bool-cases (new == k)) [
      | inl e ↦
          let i : lookup k d ≡ none = subst (λ a. lookup a d ≡ none) (==→eq new k e) f in cc (i, h)
      | inr e ↦ cc (rw e at g, h)
    ]
