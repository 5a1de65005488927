-- ===== src/Reviews/Ratings.antt =====
-- The rating that a user shows, against the reviews of the user
-- (apps/api/src/reviews/reviews.service.ts).
use vintage.Prelude.{
  ℕ, ◌+◌, ◌*◌, ◌≤◌, ◌≡◌, refl, Bool, true, false, Option, none, some, List, [], ◌∷◌, not, ◌==◌,
  arith, Bool-cases, Option-cases, inl, inr, subst, ==→eq,
}
use vintage.Prelude.Dict.{Dict, lookup, insert, any_row, lookup-insert}
use vintage.Validation.{Text}
use vintage.World.{World, User, Review, Effect}
use vintage.World.Action.{
  Action, Exception, ◌>>=◌, ◌>>◌, pure, throw_if, emit, interleave, actions, throw,
}
use vintage.World.Keeps.{Keeps, keeps_rules}
use vintage.World.Tables.{reviews, table_rules, update, create}
use vintage.Reviews.{
  total, one_of, stars_of, with_stats, create_row, store_review, create_review, reply_to_review,
  with_reply, is_of, is_star,
}

module _ {V : Type 0} where
  total-insert_new :
      (f : V → ℕ) (k : ℕ) (v : V) (d : Dict V)
      → lookup k d ≡ none
      → total f (insert k v d) ≡ total f d + f v
  total-insert_new f k v [] h = ground arith
  total-insert_new f k v ((j, u) ∷ d) h = ground (arith, h, total-insert_new f k v d)

  total-insert_same :
      (f : V → ℕ) (k : ℕ) (u v : V) (d : Dict V)
      → lookup k d ≡ some u
      → f v ≡ f u
      → total f (insert k v d) ≡ total f d
  total-insert_same f k u v [] h e = cc h
  total-insert_same f k u v ((j, x) ∷ d) h e = elim (Bool-cases (j == k)) [
    | inl s ↦ ground (arith, h, e, s)
    | inr n ↦ ground (arith, n, total-insert_same f k u v d (ground (arith, h, n)) e)
  ]

-- The ids that the database has not given out yet.
abbrev IsFresh : ℕ → Dict Review → Type 0
IsFresh n d = (k : ℕ) → n ≤ k → lookup k d ≡ none

-- The numbers that a user shows are those of the reviews of the user, and every average lies
-- between one and five stars.
abbrev Tells : ℕ → Dict Review → Option User → Type 0
Tells u rs none = Unit {0}
Tells u rs (some x) =
    (x.rating_sum ≡ total (stars_of u) rs) × (x.rating_count ≡ total (one_of u) rs)

abbrev InRange : ℕ → Dict Review → Type 0
InRange u rs =
    (total (one_of u) rs ≤ total (stars_of u) rs)
    × (total (stars_of u) rs ≤ 5 * total (one_of u) rs)

abbrev pub Rated : World → Type 0
Rated w =
    IsFresh w.next_id w.reviews
    × ((u : ℕ) → InRange u w.reviews)
    × ((u : ℕ) → Tells u w.reviews (lookup u w.users))

module _ (n : ℕ) (r : Review) (rs : Dict Review) (fresh : IsFresh n rs) where
  ones-new : (u : ℕ) → total (one_of u) (insert n r rs) ≡ total (one_of u) rs + one_of u r
  ones-new u = total-insert_new (one_of u) n r rs (fresh n (omega arith))

  stars-new : (u : ℕ) → total (stars_of u) (insert n r rs) ≡ total (stars_of u) rs + stars_of u r
  stars-new u = total-insert_new (stars_of u) n r rs (fresh n (omega arith))

  insert-IsFresh : IsFresh (n + 1) (insert n r rs)
  insert-IsFresh k h =
      let f = fresh k (omega (arith, h)) in
      let d : (n == k) ≡ false = ground (arith, h) in rw (lookup-insert n k r rs) (rw d f)

  insert-InRange : is_star r.rating ≡ true → (u : ℕ) → InRange u rs → InRange u (insert n r rs)
  insert-InRange s u h = rw (ones-new u) (
      rw (stars-new u) (elim (Bool-cases (r.reviewed == u)) [
        | inl e ↦ rw e (ground (arith, s, h.0), ground (arith, s, h.1))
        | inr e ↦ rw e (ground (arith, h.0), ground (arith, h.1))
      ]))

  -- A user that the review is not about.
  insert-Tells :
      (u : ℕ) (o : Option User)
      → (r.reviewed == u) ≡ false
      → Tells u rs o
      → Tells u (insert n r rs) o
  insert-Tells u none e h = tt
  insert-Tells u (some x) e h =
      rw (ones-new u) (rw (stars-new u) (rw e (ground (arith, h.0), ground (arith, h.1))))

  -- No row for the user that it is about.
  insert-Tells_missing :
      (u : ℕ) (us : Dict User)
      → lookup r.reviewed us ≡ none
      → Tells u rs (lookup u us)
      → Tells u (insert n r rs) (lookup u us)
  insert-Tells_missing u us m h = elim (Bool-cases (r.reviewed == u)) [
    | inl e ↦ rw (subst (λ k. lookup k us ≡ none) (==→eq r.reviewed u e) m) tt
    | inr e ↦ insert-Tells u (lookup u us) e h
  ]

  -- The user that it is about is written.
  update-Tells :
      (x : User) (u : ℕ) (us : Dict User)
      → Tells u rs (lookup u us)
      → Tells u (insert n r rs) (
          lookup u (
            insert r.reviewed
              (with_stats
                (total (stars_of r.reviewed) (insert n r rs))
                (total (one_of r.reviewed) (insert n r rs))
                x)
              us))
  update-Tells x u us h =
      let v =
        with_stats (total (stars_of r.reviewed) (insert n r rs))
          (total (one_of r.reviewed) (insert n r rs)) x in
      rw (lookup-insert r.reviewed u v us) (elim (Bool-cases (r.reviewed == u)) [
        | inl e ↦
            rw e (subst (λ k. Tells k (insert n r rs) (some v)) (==→eq r.reviewed u e) (refl, refl))
        | inr e ↦ rw e (insert-Tells u (lookup u us) e h)
      ])

-- The review is stored and the numbers of the seller follow.
module _ (r : Review) (s : is_star r.rating ≡ true) where
  store_review-Rated : Keeps Rated (store_review (λ w. w) r)
  unfolding store_review create_row create update actions throw pure
  store_review-Rated = record {
    at = λ w h. elim (Bool-cases (any_row (is_of r.order r.reviewer) w.reviews)) [
      | inl y ↦ rw y h
      | inr n ↦ rw n (elim (Option-cases (lookup r.reviewed w.users)) [
        | inl m ↦ rw m (
          insert-IsFresh w.next_id r w.reviews h.0,
          λ u. insert-InRange w.next_id r w.reviews h.0 s u (h.1 u),
          λ u. insert-Tells_missing w.next_id r w.reviews h.0 u w.users m (h.2 u),
        )
        | inr (x, m) ↦ rw m (
          insert-IsFresh w.next_id r w.reviews h.0,
          λ u. insert-InRange w.next_id r w.reviews h.0 s u (h.1 u),
          λ u. update-Tells w.next_id r w.reviews h.0 x u w.users (h.2 u),
        )
      ])
    ];
  }

-- A reply changes no number.
module _ (k now : ℕ) (t : Text) (r : Review) (rs : Dict Review) (e : lookup k rs ≡ some r) where
  ones-reply : (u : ℕ) → total (one_of u) (insert k (with_reply t now r) rs) ≡ total (one_of u) rs
  ones-reply u = total-insert_same (one_of u) k r (with_reply t now r) rs e refl

  stars-reply :
      (u : ℕ) → total (stars_of u) (insert k (with_reply t now r) rs) ≡ total (stars_of u) rs
  stars-reply u = total-insert_same (stars_of u) k r (with_reply t now r) rs e refl

  reply-Tells :
      (u : ℕ) (o : Option User) → Tells u rs o → Tells u (insert k (with_reply t now r) rs) o
  reply-Tells u none h = tt
  reply-Tells u (some x) h = rw (ones-reply u) (rw (stars-reply u) h)

  reply-IsFresh : (n : ℕ) → IsFresh n rs → IsFresh n (insert k (with_reply t now r) rs)
  reply-IsFresh n h j g = elim (Bool-cases (k == j)) [
    | inl s ↦ cc (e, h j g, ==→eq k j s)
    | inr d ↦ rw (lookup-insert k j (with_reply t now r) rs) (rw d (h j g))
  ]

reply-Rated : (k : ℕ) (t : Text) (now : ℕ) → Keeps Rated (update reviews k (with_reply t now))
unfolding update
reply-Rated k t now = record {
  at = λ w h. elim (Option-cases (lookup k w.reviews)) [
    | inl n ↦ rw n h
    | inr (r, e) ↦ rw e (
      reply-IsFresh k now t r w.reviews e w.next_id h.0,
      λ u.
          rw (ones-reply k now t r w.reviews e u)
            (rw (stars-reply k now t r w.reviews e u) (h.1 u)),
      λ u. reply-Tells k now t r w.reviews e u _ (h.2 u),
    )
  ];
}

-- A guard in front of what keeps `P` where the guard passes.
Keeps-guard :
    {A : Type 0} {P : World → Type 0} (b : Bool) (e : Exception) (m : Action A)
    → ((b ≡ false) → Keeps P m)
    → Keeps P (throw_if b e >> m)
unfolding ◌>>=◌ throw_if throw pure
Keeps-guard true e m k = record { at = λ w h. h }
Keeps-guard false e m k = record { at = λ w h. (k refl).at w h }

emit-Rated : (e : Effect) → Keeps Rated (emit e)
unfolding emit
emit-Rated e = record { at = λ w h. h }

-- What other requests commit keeps the ratings.
module _ (meanwhile : World → World) (rely : (w : World) → Rated w → Rated (meanwhile w)) where
  interleave-Rated : Keeps Rated (interleave meanwhile)
  unfolding interleave
  interleave-Rated = record { at = rely }

  create_review_lem :
      (reviewer order rating : ℕ) (comment : Option Text) (urls : List Text)
      → Keeps Rated (create_review meanwhile (λ w. w) reviewer order rating comment urls)
  unfolding create_review
  create_review_lem reviewer order rating comment urls =
      Keeps-guard (not (is_star rating)) Exception.bad_request _ (λ g.
        let s : is_star rating ≡ true = ground (arith, g) in
        let store : (r : Review) → r.rating ≡ rating → Keeps Rated (store_review (λ w. w) r) =
          λ r e. store_review-Rated r (rw e s) in
        search (interleave-Rated, store, emit-Rated, table_rules, keeps_rules) depth 20)

  reply_to_review_lem :
      (id seller : ℕ) (reply : Text) → Keeps Rated (reply_to_review meanwhile id seller reply)
  unfolding reply_to_review
  reply_to_review_lem id seller reply =
      search (interleave-Rated, reply-Rated, table_rules, keeps_rules) depth 20

  -- The stars that a user shows are the sum and the number of the ratings in the reviews of the user,
  -- between one and five for each, and stay so when a review is created, with nothing committed around
  -- its aggregate, and when a seller replies, whatever the outcome; what other requests commit in
  -- between keeps this too.
  pub create_review-Rated :
      (reviewer order rating id seller : ℕ) (comment : Option Text) (urls : List Text)
      (reply : Text) (w : World)
      → Rated w
      → Rated (create_review meanwhile (λ u. u) reviewer order rating comment urls w).1
        × Rated (reply_to_review meanwhile id seller reply w).1
  create_review-Rated reviewer order rating id seller comment urls reply w h = (
    (create_review_lem reviewer order rating comment urls).at w h,
    (reply_to_review_lem id seller reply).at w h,
  )
